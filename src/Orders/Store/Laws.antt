-- ===== src/Orders/Store/Laws.antt =====
-- Reading the orders table after a write.
use mathlib.Core.Option
use delivery_plus.Prelude.{
  ℕ, suc, ◌≡◌, ◌≢◌, refl, subst, Option, none, some, List, [], ◌∷◌, arith, ◌==◌, if◌then◌else◌, All,
  Bool-cases, Option-cases, inl, inr, true, false, same,
}
use delivery_plus.Shared.Enums.{OrderStatus, OrderStatus-discrete}
use delivery_plus.Shared.Outbox.{BaseEvent, order_events, stage_event}
use delivery_plus.Orders.Outcome.{OrderPaymentStatus, OrderOutcome}
use delivery_plus.Orders.Store.{
  Order, OrderEventType, OrderPayload, Database, find_by_id, put, record_payment_status,
  is_replaceable, update_status, set_status, without_fee_split, NewOrder, new_order, create,
  is_key_taken,
}

pub find_by_id-id :
    (id : ℕ) (orders : List Order) (o : Order) → find_by_id id orders ≡ some o → o.id ≡ id
unfolding find_by_id
find_by_id-id id [] o h = cc
find_by_id-id id (x ∷ orders) o h = ground (arith, find_by_id-id id orders o)

-- A write under an id is read under that id, and leaves every other order.
pub find_by_id-put :
    (id j : ℕ) (o o' : Order) (orders : List Order)
    → find_by_id id orders ≡ some o
    → o'.id ≡ id
    → find_by_id j (put id o' orders) ≡ (if id == j then some o' else find_by_id j orders)
unfolding find_by_id put
find_by_id-put id j o o' [] h k = cc
find_by_id-put id j o o' (x ∷ orders) h k = ground (arith, find_by_id-put id j o o' orders)

abbrev pub pay : OrderPaymentStatus → Order → Order
pay status o =
    if is_replaceable status o.payment_status then record o { payment_status = some status } else o

pub find_by_id-record_payment_status :
    (id j : ℕ) (status : OrderPaymentStatus) (orders : List Order)
    → find_by_id j (record_payment_status id status orders)
      ≡ (if id == j then Option.map (pay status) (find_by_id j orders) else find_by_id j orders)
unfolding find_by_id record_payment_status
find_by_id-record_payment_status id j status [] = ground arith
find_by_id-record_payment_status id j status (o ∷ orders) =
    ground (arith, find_by_id-record_payment_status id j status orders)

pub find_by_id-All {ℓ} :
    (P : Order → Type ℓ) (id : ℕ) (orders : List Order) (o : Order)
    → All P orders
    → find_by_id id orders ≡ some o
    → P o
unfolding find_by_id
find_by_id-All P id [] o h e = absurd (cc)
find_by_id-All P id (x ∷ orders) o (h, hs) e = elim (Bool-cases (x.id == id)) [
  | inl found ↦ subst P (ground arith) h
  | inr other ↦ find_by_id-All P id orders o hs (ground arith)
]

pub put-All {ℓ} :
    (P : Order → Type ℓ) (id : ℕ) (o' : Order) (orders : List Order)
    → All P orders
    → P o'
    → All P (put id o' orders)
unfolding put
put-All P id o' [] h p = tt
put-All P id o' (x ∷ orders) (h, hs) p = elim (Bool-cases (x.id == id)) [
  | inl found ↦ rw found (p, hs)
  | inr other ↦ rw other (h, put-All P id o' orders hs p)
]

pub record_payment_status-All {ℓ} :
    (P : Order → Type ℓ) (id : ℕ) (status : OrderPaymentStatus) (orders : List Order)
    → ((o : Order) → P o → P (pay status o))
    → All P orders
    → All P (record_payment_status id status orders)
unfolding record_payment_status
record_payment_status-All P id status [] f h = tt
record_payment_status-All P id status (o ∷ orders) f (h, hs) = elim (Bool-cases (o.id == id)) [
  | inl found ↦ rw found (f o h, hs)
  | inr other ↦ rw other (h, record_payment_status-All P id status orders f hs)
]

pub set_status-id :
    (to : OrderStatus) (outcome : Option OrderOutcome) (o : Order)
    → (set_status to outcome o).id ≡ o.id
set_status-id to none o = refl
set_status-id to (some outcome) o = refl

-- The compare-and-set of an order with the expected status, and of any other.
pub update_status_found :
    (id : ℕ) (to : OrderStatus) (event : Order → BaseEvent OrderEventType OrderPayload)
    (outcome : Option OrderOutcome) (db : Database) (o : Order)
    → find_by_id id db.orders ≡ some o
    → update_status id o.status to event outcome db ≡ (
      some (without_fee_split (set_status to outcome o)),
      record db {
        orders = put id (set_status to outcome o) db.orders;
        outbox =
            stage_event order_events
              (event (without_fee_split (set_status to outcome o)))
              db.outbox;
      },
    )
unfolding update_status
update_status_found id to event outcome db o found =
    rw (found, update_status, same-refl o.status) refl
  where
    same-refl : (t : OrderStatus) → same OrderStatus-discrete t t ≡ true
    same-refl t = ground arith

pub update_status_stale :
    (id : ℕ) (from to : OrderStatus) (event : Order → BaseEvent OrderEventType OrderPayload)
    (outcome : Option OrderOutcome) (db : Database) (o : Order)
    → find_by_id id db.orders ≡ some o
    → o.status ≢ from
    → update_status id from to event outcome db ≡ (none, db)
unfolding update_status
update_status_stale id from to event outcome db o found ne =
    rw (found, update_status, differ o.status from ne) refl
  where
    differ : (s t : OrderStatus) → s ≢ t → same OrderStatus-discrete s t ≡ false
    differ s t h = ground arith

-- What the compare-and-set leaves: the database as it was, or the order moved and its event staged.
pub update_status_cases {ℓ} :
    (P : Database → Type ℓ) (id : ℕ) (from to : OrderStatus)
    (event : Order → BaseEvent OrderEventType OrderPayload) (outcome : Option OrderOutcome)
    (db : Database)
    → P db
    → ((o : Order)
        → find_by_id id db.orders ≡ some o
        → o.status ≡ from
        → P (record db {
          orders = put id (set_status to outcome o) db.orders;
          outbox =
              stage_event order_events
                (event (without_fee_split (set_status to outcome o)))
                db.outbox;
        }))
    → P (update_status id from to event outcome db).1
unfolding update_status
update_status_cases P id from to event outcome db same_db moved =
    elim (Option-cases (find_by_id id db.orders)) [
      | inl missing ↦ rw (missing, update_status) same_db
      | inr (o, found) ↦ elim (Bool-cases (same OrderStatus-discrete o.status from)) [
        | inl eq ↦ rw (found, update_status, eq) (moved o found (ground arith))
        | inr ne ↦ rw (found, update_status, ne) same_db
      ]
    ]

-- What an insert leaves: the database as it was, or the new order first and its event staged.
pub create_cases {ℓ} :
    (P : Database → Type ℓ) (n : NewOrder) (event : Order → BaseEvent OrderEventType OrderPayload)
    (db : Database)
    → P db
    → (is_key_taken n.customer_id n.idempotency_key db.orders ≡ false
        → P (record db {
          orders = new_order n db ∷ db.orders;
          outbox = stage_event order_events (event (new_order n db)) db.outbox;
          next_id = suc db.next_id;
        }))
    → P (create n event db).1
unfolding create
create_cases P n event db same_db inserted =
    elim (Bool-cases (is_key_taken n.customer_id n.idempotency_key db.orders)) [
      | inl taken ↦ rw (create, taken) same_db
      | inr free ↦ rw (create, free) (inserted free)
    ]
