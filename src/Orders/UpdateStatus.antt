-- ===== src/Orders/UpdateStatus.antt =====
-- Moving an order: `OrdersService.updateStatus`, `syncStatusFromEvent`, and the consumers of payment
-- and delivery events (services/orders.service.ts).
pub mod Alone
pub mod Redelivery
use delivery_plus.Prelude.{
  ℕ, Bool, true, false, not, ◌&&◌, ◌||◌, Option, none, some, ◌==◌, same, if◌then◌else◌,
}
use delivery_plus.Shared.Errors.{forbidden, not_found, conflict, invalid_state_transition}
use delivery_plus.Shared.Enums.{
  UserRole, UserRole-discrete, OrderStatus, OrderStatus-discrete, order_transitions,
  is_transition_allowed,
}
use delivery_plus.Shared.Events.{PaymentEventType, DeliveryEventType}
use delivery_plus.Shared.Text.{Text}
use delivery_plus.Proc.{
  Proc, act, done, Result, ok, err, ret, throw, gets, or_throw, request, ◌>>=◌, ◌>>◌, throw_if,
  when,
}
use delivery_plus.Orders.Rules.{is_role_allowed_for_transition}
use delivery_plus.Orders.Outcome.{OrderPaymentStatus, outcome_for}
use delivery_plus.Orders.Store.{Order, select_by_id, record_payment_status}
use delivery_plus.Orders.Store
use delivery_plus.Orders.Server.{
  Config, Server, World, Handler, transaction, kick, find_or_throw, assert_ownership, order_event,
  order_status_event,
}

pub record UpdateOrderStatusDto : Type 0 where
  pub status : OrderStatus
  pub reason : Option Text

-- What must hold for the caller, once the order is read: its role, that a customer owns the order, and
-- that a restaurant owner owns the restaurant and rejects only an order that it has not begun.
unfoldable pub assert_may_update : ℕ → UserRole → OrderStatus → Order → Handler (Unit {0})
assert_may_update requester role target order = do
  throw_if (not (is_role_allowed_for_transition target role)) forbidden
  throw_if (same UserRole-discrete role UserRole.customer && not (order.customer_id == requester))
      forbidden
  when (same UserRole-discrete role UserRole.restaurant_owner) (
      assert_ownership order.restaurant_id requester
      >> throw_if
          (same OrderStatus-discrete target OrderStatus.cancelled
            && not (same OrderStatus-discrete order.status OrderStatus.confirmed)
            && not (same OrderStatus-discrete order.status OrderStatus.cancelled))
          conflict)

-- The compare-and-set found the order changed: fine if another writer made the same move.
unfoldable pub after_lost_race : ℕ → OrderStatus → Handler Order
after_lost_race id target = do
  current ← find_or_throw id
  if same OrderStatus-discrete current.status target
      then ret current
      else throw invalid_state_transition

-- The user id of the system's own calls, which no rule reads.
abbrev pub system : ℕ
system = 0

unfoldable pub record_payment : ℕ → OrderPaymentStatus → Handler (Unit {0})
record_payment order_id status =
    act
      (λ s. record s {
        db = record (s.db) { orders = record_payment_status order_id status s.db.orders };
      })
      (λ _. ret tt)

module _ (c : Config) where
  -- The write of `updateStatus`, on the order as it was read.
  unfoldable pub write_status : ℕ → UserRole → UpdateOrderStatusDto → Order → Handler Order
  write_status id role dto order = do
    updated ← transaction (
        Store.update_status id order.status dto.status
          (order_event c (order_status_event dto.status)) (outcome_for dto.status role dto.reason))
    elim updated [ none ↦ after_lost_race id dto.status | some o ↦ kick >> ret o ]

  unfoldable pub update_status : ℕ → ℕ → UserRole → UpdateOrderStatusDto → Handler Order
  update_status id requester role dto = do
    order ← find_or_throw id
    assert_may_update requester role dto.status order
    if same OrderStatus-discrete order.status dto.status
        then ret order
        else if is_transition_allowed OrderStatus-discrete order_transitions order.status dto.status
        then write_status id role dto order
        else throw invalid_state_transition

  -- What `syncStatusFromEvent` does with the order that it read.
  unfoldable pub sync_order : ℕ → OrderStatus → Option Order → Handler (Unit {0})
  sync_order order_id target none = ret tt
  sync_order order_id target (some o) =
      if same OrderStatus-discrete o.status target
      then ret tt
      else if is_transition_allowed OrderStatus-discrete order_transitions o.status target
      then (update_status order_id system UserRole.admin (record { status = target; reason = none })
          >> ret tt)
      else ret tt

  unfoldable pub sync_status_from_event : ℕ → OrderStatus → Handler (Unit {0})
  sync_status_from_event order_id target = do
    order ← gets (λ s. select_by_id order_id s.db.orders)
    sync_order order_id target order

  -- The consumers that `onModuleInit` subscribes. An event without one is committed and not handled.
  unfoldable pub on_payment_event : PaymentEventType → ℕ → Handler (Unit {0})
  on_payment_event PaymentEventType.created order_id =
      record_payment order_id OrderPaymentStatus.pending
      >> sync_status_from_event order_id OrderStatus.payment_pending
  on_payment_event PaymentEventType.completed order_id =
      record_payment order_id OrderPaymentStatus.completed
      >> sync_status_from_event order_id OrderStatus.confirmed
  on_payment_event PaymentEventType.failed order_id =
      record_payment order_id OrderPaymentStatus.failed
      >> sync_status_from_event order_id OrderStatus.failed

  unfoldable pub on_delivery_event : DeliveryEventType → ℕ → Handler (Unit {0})
  on_delivery_event DeliveryEventType.driver_assigned order_id =
      sync_status_from_event order_id OrderStatus.driver_assigned
  on_delivery_event DeliveryEventType.picked_up order_id =
      sync_status_from_event order_id OrderStatus.picked_up
  on_delivery_event DeliveryEventType.completed order_id =
      sync_status_from_event order_id OrderStatus.delivered
  on_delivery_event _ order_id = ret tt
