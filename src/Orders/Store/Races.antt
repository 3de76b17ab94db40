-- ===== src/Orders/Store/Races.antt =====
-- Writers of one order that race: the compare-and-set of statuses, and payment statuses in any order.
use delivery_plus.Prelude.{
  ℕ, ◌≡◌, ◌≢◌, refl, ◌∙◌, ap, true, false, Option, none, some, List, [], ◌∷◌, arith, ◌==◌,
  Bool-cases, Option-cases, inl, inr,
}
use mathlib.Core.Option
use delivery_plus.Shared.Enums.{OrderStatus}
use delivery_plus.Shared.Lifecycle.{OrderMoves, order_rank, OrderMoves-rank}
use delivery_plus.Shared.Outbox.{BaseEvent}
use delivery_plus.Orders.Outcome.{OrderPaymentStatus, OrderOutcome}
use delivery_plus.Orders.Store.{
  Order, OrderEventType, OrderPayload, Database, find_by_id, set_status, update_status,
  record_payment_status, is_replaceable,
}
use delivery_plus.Orders.Store.Laws.{
  find_by_id-id, find_by_id-put, set_status-id, pay, find_by_id-record_payment_status,
  update_status_found, update_status_stale,
}

set_status-status :
    (to : OrderStatus) (outcome : Option OrderOutcome) (o : Order)
    → (set_status to outcome o).status ≡ to
set_status-status to none o = refl
set_status-status to (some outcome) o = refl

moves_differ : (from to : OrderStatus) → OrderMoves from to → to ≢ from
moves_differ from to m e = omega (arith, OrderMoves-rank from to m, ap order_rank e)

-- Two writers that have read an order in the same status, and both make a move of the table: once the
-- first has written, the compare-and-set of the second writes nothing, whatever its target.
pub second_writer_loses :
    (id : ℕ) (o : Order) (to to' : OrderStatus)
    (event event' : Order → BaseEvent OrderEventType OrderPayload)
    (outcome outcome' : Option OrderOutcome) (db : Database)
    → find_by_id id db.orders ≡ some o
    → OrderMoves o.status to
    → let first = (update_status id o.status to event outcome db).1 in
      update_status id o.status to' event' outcome' first ≡ (none, first)
second_writer_loses id o to to' event event' outcome outcome' db found m =
    rw (update_status_found id to event outcome db o found) (
      update_status_stale id o.status to' event' outcome' _ (set_status to outcome o)
        (rw
          (find_by_id-put id id o (set_status to outcome o) db.orders found
            (set_status-id to outcome o ∙ find_by_id-id id db.orders o found))
          (ground arith))
        (rw (set_status-status to outcome o) (moves_differ o.status to m)))

-- The payment events of an order in the order in which they are consumed.
abbrev pub record_all : ℕ → List OrderPaymentStatus → List Order → List Order
record_all id [] orders = orders
record_all id (status ∷ events) orders =
    record_all id events (record_payment_status id status orders)

-- The first outcome among the events; PENDING where there is none and anything is known.
abbrev pub first_outcome :
    Option OrderPaymentStatus → List OrderPaymentStatus → Option OrderPaymentStatus
first_outcome (some OrderPaymentStatus.completed) events = some OrderPaymentStatus.completed
first_outcome (some OrderPaymentStatus.failed) events = some OrderPaymentStatus.failed
first_outcome known [] = known
first_outcome known (OrderPaymentStatus.pending ∷ events) =
    first_outcome (some OrderPaymentStatus.pending) events
first_outcome known (status ∷ events) = some status

abbrev pub with_payment : List OrderPaymentStatus → Order → Order
with_payment events o = record o { payment_status = first_outcome o.payment_status events }

replaced_first :
    (status : OrderPaymentStatus) (known : Option OrderPaymentStatus)
    (events : List OrderPaymentStatus)
    → is_replaceable status known ≡ true
    → first_outcome (some status) events ≡ first_outcome known (status ∷ events)
replaced_first OrderPaymentStatus.pending none events h = refl
replaced_first OrderPaymentStatus.completed none events h = refl
replaced_first OrderPaymentStatus.failed none events h = refl
replaced_first OrderPaymentStatus.completed (some OrderPaymentStatus.pending) events h = refl
replaced_first OrderPaymentStatus.failed (some OrderPaymentStatus.pending) events h = refl
replaced_first status known events h = ground arith

kept_first :
    (status : OrderPaymentStatus) (known : Option OrderPaymentStatus)
    (events : List OrderPaymentStatus)
    → is_replaceable status known ≡ false
    → first_outcome known events ≡ first_outcome known (status ∷ events)
kept_first OrderPaymentStatus.pending (some OrderPaymentStatus.pending) events h = refl
kept_first status (some OrderPaymentStatus.completed) events h = refl
kept_first status (some OrderPaymentStatus.failed) events h = refl
kept_first status known events h = ground arith

pay-first_outcome :
    (status : OrderPaymentStatus) (events : List OrderPaymentStatus) (o : Order)
    → with_payment events (pay status o) ≡ with_payment (status ∷ events) o
pay-first_outcome status events o = elim (Bool-cases (is_replaceable status o.payment_status)) [
  | inl open_still ↦ rw open_still (
      ap (λ p. record o { payment_status = p })
        (replaced_first status o.payment_status events open_still))
  | inr settled ↦ rw settled (
      ap (λ p. record o { payment_status = p }) (kept_first status o.payment_status events settled))
]

nothing_new : (known : Option OrderPaymentStatus) → known ≡ first_outcome known []
nothing_new none = refl
nothing_new (some OrderPaymentStatus.pending) = refl
nothing_new (some OrderPaymentStatus.completed) = refl
nothing_new (some OrderPaymentStatus.failed) = refl

itself : (id : ℕ) → (id == id) ≡ true
itself id = ground arith

-- Whatever order an order's payment events arrive in, and however often each: what is known of the
-- payment in the end is the outcome that was known, or else the first outcome that arrived, or else
-- PENDING if anything is known; nothing else of the order changes.
pub find_by_id-record_all :
    (id : ℕ) (events : List OrderPaymentStatus) (orders : List Order)
    → find_by_id id (record_all id events orders)
      ≡ Option.map (with_payment events) (find_by_id id orders)
find_by_id-record_all id [] orders = elim (Option-cases (find_by_id id orders)) [
  | inl missing ↦ rw missing
  | inr (o, found) ↦
      rw found (ap (λ p. some (record o { payment_status = p })) (nothing_new o.payment_status))
]
find_by_id-record_all id (status ∷ events) orders =
    find_by_id-record_all id events (record_payment_status id status orders)
    ∙ elim (Option-cases (find_by_id id orders)) [
      | inl missing ↦ rw (find_by_id-record_payment_status, missing) (ground arith)
      | inr (o, found) ↦
          rw (find_by_id-record_payment_status, found, itself id)
            (ap some (pay-first_outcome status events o))
    ]
