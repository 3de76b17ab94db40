-- ===== src/Orders/UpdateStatus/Redelivery.antt =====
-- Events are delivered at least once: the consumers of payment and delivery events, run again.
use delivery_plus.Prelude.{
  ℕ, ◌≡◌, refl, inl, inr, ap, subst, true, false, Option, none, some, List, [], ◌∷◌, same, arith,
  Bool-cases, Option-cases, ◌∙◌,
}
use delivery_plus.Shared.Enums.{
  UserRole, OrderStatus, OrderStatus-discrete, order_transitions, is_transition_allowed,
}
use delivery_plus.Shared.Events.{PaymentEventType, DeliveryEventType}
use delivery_plus.Shared.Outbox.{order_events, stage_event}
use delivery_plus.Proc.{ok, combinators, ◌>>◌}
use delivery_plus.Proc.Alone.{run_alone, run_alone-bind}
use delivery_plus.Orders.Outcome.{OrderPaymentStatus, OrderOutcome, outcome_for}
use delivery_plus.Orders.Store.{
  Order, find_by_id, put, set_status, selected, without_fee_split, record_payment_status,
  is_replaceable,
}
use delivery_plus.Orders.Store.Laws.{
  find_by_id-id, find_by_id-put, find_by_id-record_payment_status, set_status-id, pay,
}
use delivery_plus.Orders.Steps.{paid}
use delivery_plus.Orders.Server.{Config, Server, Handler, order_event, order_status_event}
use delivery_plus.Orders.UpdateStatus.{
  sync_order, sync_status_from_event, record_payment, on_payment_event, on_delivery_event,
}
use delivery_plus.Orders.UpdateStatus.Alone.{updated, update_status_alone}

-- The order is absent, has the status, or may not move to it.
data IsSettled (id : ℕ) (target : OrderStatus) (orders : List Order) : Type 0 where
  absent : find_by_id id orders ≡ none → IsSettled id target orders
  reached :
      (o : Order)
      → find_by_id id orders ≡ some o
      → same OrderStatus-discrete o.status target ≡ true
      → IsSettled id target orders
  barred :
      (o : Order)
      → find_by_id id orders ≡ some o
      → same OrderStatus-discrete o.status target ≡ false
      → is_transition_allowed OrderStatus-discrete order_transitions o.status target ≡ false
      → IsSettled id target orders

-- The payment status is recorded: recording it again changes nothing.
data IsPaid (id : ℕ) (status : OrderPaymentStatus) (orders : List Order) : Type 0 where
  unknown : find_by_id id orders ≡ none → IsPaid id status orders
  final :
      (o : Order)
      → find_by_id id orders ≡ some o
      → is_replaceable status o.payment_status ≡ false
      → IsPaid id status orders

absent_payment :
    (id : ℕ) (status : OrderPaymentStatus) (orders : List Order)
    → find_by_id id orders ≡ none
    → record_payment_status id status orders ≡ orders
unfolding find_by_id record_payment_status
absent_payment id status [] h = refl
absent_payment id status (o ∷ orders) h = ground (arith, absent_payment id status orders)

final_payment :
    (id : ℕ) (status : OrderPaymentStatus) (orders : List Order) (o : Order)
    → find_by_id id orders ≡ some o
    → is_replaceable status o.payment_status ≡ false
    → record_payment_status id status orders ≡ orders
unfolding find_by_id record_payment_status
final_payment id status [] o h k = refl
final_payment id status (x ∷ orders) o h k = ground (arith, final_payment id status orders o)

recorded_again :
    (id : ℕ) (status : OrderPaymentStatus) (orders : List Order)
    → IsPaid id status orders
    → record_payment_status id status orders ≡ orders
recorded_again id status orders (unknown h) = absent_payment id status orders h
recorded_again id status orders (final o h k) = final_payment id status orders o h k

pay_final :
    (status : OrderPaymentStatus) (o : Order)
    → is_replaceable status (pay status o).payment_status ≡ false
pay_final OrderPaymentStatus.pending o = ground arith
pay_final OrderPaymentStatus.completed o = ground arith
pay_final OrderPaymentStatus.failed o = ground arith

recorded-IsPaid :
    (id : ℕ) (status : OrderPaymentStatus) (orders : List Order)
    → IsPaid id status (record_payment_status id status orders)
recorded-IsPaid id status orders = elim (Option-cases (find_by_id id orders)) [
  | inl missing ↦ unknown (ground (arith, find_by_id-record_payment_status id id status orders))
  | inr (o, found) ↦
      final (pay status o) (ground (arith, find_by_id-record_payment_status id id status orders))
        (pay_final status o)
]

module _ (c : Config) (id : ℕ) (target : OrderStatus) where
  -- The read, and what is done with what it found.
  sync_found :
      (s : Server) (found : Option Order)
      → find_by_id id s.db.orders ≡ found
      → run_alone (sync_status_from_event c id target) s
        ≡ run_alone (sync_order c id target (selected found)) s
  unfolding sync_status_from_event combinators
  sync_found s found e = ap (λ f. run_alone (sync_order c id target (selected f)) s) e

  settled_sync :
      (s : Server)
      → IsSettled id target s.db.orders
      → run_alone (sync_status_from_event c id target) s ≡ (ok tt, s)
  unfolding sync_order without_fee_split
  settled_sync s (absent missing) = rw (sync_found s none missing)
  settled_sync s (reached o found eq) = rw (sync_found s (some o) found, eq)
  settled_sync s (barred o found ne stuck) = rw (sync_found s (some o) found, ne, stuck)

  set_status-status :
      (outcome : Option OrderOutcome) (o : Order) → (set_status target outcome o).status ≡ target
  set_status-status none o = refl
  set_status-status (some outcome) o = refl

  moved-IsSettled :
      (orders : List Order) (o : Order) (outcome : Option OrderOutcome)
      → find_by_id id orders ≡ some o
      → IsSettled id target (put id (set_status target outcome o) orders)
  moved-IsSettled orders o outcome found =
      let o' = set_status target outcome o in
      reached o'
        (rw
          (find_by_id-put id id o o' orders found
            (set_status-id target outcome o ∙ find_by_id-id id orders o found))
          (ground arith))
        (rw (set_status-status outcome o) (ground arith))

  -- The server after the system moved the order.
  abbrev moved_on : Order → Server → Server
  moved_on o s =
      let o' = set_status target (outcome_for target UserRole.admin none) o in
      record s {
        db = record (s.db) {
          orders = put id o' s.db.orders;
          outbox =
              stage_event order_events
                (order_event c (order_status_event target) (without_fee_split o')) s.db.outbox;
        };
        kicked = true;
      }

  moved-IsPaid :
      (orders : List Order) (o : Order) (outcome : Option OrderOutcome)
      (status : OrderPaymentStatus)
      → find_by_id id orders ≡ some o
      → IsPaid id status orders
      → IsPaid id status (put id (set_status target outcome o) orders)
  moved-IsPaid orders o outcome status found p =
      let o' = set_status target outcome o in
      let kept_id = set_status-id target outcome o ∙ find_by_id-id id orders o found in
      final o' (ground (arith, find_by_id-put id id o o' orders found kept_id)) (still p)
    where
      set_status-payment :
          (outcome : Option OrderOutcome)
          → (set_status target outcome o).payment_status ≡ o.payment_status
      set_status-payment none = refl
      set_status-payment (some x) = refl

      same_order : (p : Order) → find_by_id id orders ≡ some p → p ≡ o
      same_order p h = ground arith

      still :
          IsPaid id status orders
          → is_replaceable status (set_status target outcome o).payment_status ≡ false
      still (unknown h) = absurd (ground arith)
      still (final p h k) = rw (set_status-payment outcome) (
          subst {A = Order} (λ x. is_replaceable status x.payment_status ≡ false) (same_order p h)
            k)

  -- A sync succeeds; the order is settled after it, and a payment status is recorded as before.
  sync_settles :
      (s : Server)
      → (t : Server) × (run_alone (sync_status_from_event c id target) s ≡ (ok tt, t))
        × IsSettled id target t.db.orders
        × ((status : OrderPaymentStatus)
            → IsPaid id status s.db.orders
            → IsPaid id status t.db.orders)
  unfolding sync_order without_fee_split
  sync_settles s = elim (Option-cases (find_by_id id s.db.orders)) [
    | inl missing ↦ let settled = absent missing in (s, settled_sync s settled, settled, λ _ p. p)
    | inr (o, found) ↦ elim (Bool-cases (same OrderStatus-discrete o.status target)) [
      | inl eq ↦ let settled = reached o found eq in (s, settled_sync s settled, settled, λ _ p. p)
      | inr ne ↦
          elim (Bool-cases
            (is_transition_allowed OrderStatus-discrete order_transitions o.status target)) [
              | inr stuck ↦
                  let settled = barred o found ne stuck in
                  (s, settled_sync s settled, settled, λ _ p. p)
              | inl move ↦ (
                moved_on o s,
                rw (
                  sync_found s (some o) found,
                  ne,
                  move,
                  run_alone-bind,
                  update_status_alone,
                  found,
                  updated,
                  ne,
                  move,
                ),
                moved-IsSettled s.db.orders o (outcome_for target UserRole.admin none) found,
                λ status.
                    moved-IsPaid s.db.orders o (outcome_for target UserRole.admin none) status
                      found,
              )
            ]
    ]
  ]

-- The handler succeeds, and run again on what it left it changes nothing.
abbrev pub SettlesOnce : Handler (Unit {0}) → Server → Type 0
SettlesOnce p s = (t : Server) × (run_alone p s ≡ (ok tt, t)) × (run_alone p t ≡ (ok tt, t))

module _ (c : Config) where
  consumed_twice :
      (id : ℕ) (status : OrderPaymentStatus) (target : OrderStatus) (s : Server)
      → SettlesOnce (record_payment id status >> sync_status_from_event c id target) s
  unfolding record_payment combinators
  consumed_twice id status target s =
      let s' = paid id status s in
      let (t, first, settled, kept) = sync_settles c id target s' in
      let again =
        recorded_again id status t.db.orders
          (kept status (recorded-IsPaid id status s.db.orders)) in
      (
        t,
        first,
        ap
              (λ orders.
                run_alone (sync_status_from_event c id target)
                  (record t { db = record (t.db) { orders = orders } }))
              again
            ∙ settled_sync c id target t settled,
      )

  -- A payment event that is consumed without other requests between the steps succeeds, whatever its
  -- order's state, or without such an order; and delivered again it changes nothing.
  pub payment_redelivered :
      (e : PaymentEventType) (id : ℕ) (s : Server) → SettlesOnce (on_payment_event c e id) s
  unfolding on_payment_event
  payment_redelivered PaymentEventType.created id s = consumed_twice id _ _ s
  payment_redelivered PaymentEventType.completed id s = consumed_twice id _ _ s
  payment_redelivered PaymentEventType.failed id s = consumed_twice id _ _ s

  synced_twice :
      (id : ℕ) (target : OrderStatus) (s : Server)
      → SettlesOnce (sync_status_from_event c id target) s
  synced_twice id target s =
      let (t, first, settled, kept) = sync_settles c id target s in
      (t, first, settled_sync c id target t settled)

  -- A delivery event that is consumed without other requests between the steps succeeds, whatever its
  -- order's state, or without such an order; and delivered again it changes nothing.
  pub delivery_redelivered :
      (e : DeliveryEventType) (id : ℕ) (s : Server) → SettlesOnce (on_delivery_event c e id) s
  unfolding on_delivery_event
  delivery_redelivered DeliveryEventType.driver_assigned id s = synced_twice id _ s
  delivery_redelivered DeliveryEventType.picked_up id s = synced_twice id _ s
  delivery_redelivered DeliveryEventType.completed id s = synced_twice id _ s
  delivery_redelivered e id s = (s, refl, refl)
