-- ===== src/Orders/Server.antt =====
-- The state of order-service and the steps of its handlers (services/orders.service.ts). Each awaited query, transaction or call
-- is one atomic step; between two of them other requests and other services may change the state.
pub mod Alone
use delivery_plus.Prelude.{
  ℕ, Bool, true, false, not, ◌&&◌, ◌||◌, Option, none, some, List, [], ◌∷◌, ◌==◌, same, take,
  if◌then◌else◌,
}
use delivery_plus.Shared.Errors.{
  Error, bad_request, forbidden, not_found, conflict, invalid_state_transition, phone_not_verified,
}
use delivery_plus.Shared.Enums.{
  UserRole, UserRole-discrete, RestaurantStatus, RestaurantStatus-discrete, OrderStatus,
  OrderStatus-discrete, order_transitions, is_transition_allowed,
}
use delivery_plus.Shared.Text.{Text, is_truthy, trim, first_word}
use delivery_plus.Shared.Outbox.{BaseEvent}
use delivery_plus.Proc.{
  Proc, act, done, Result, ok, err, ret, throw, gets, atomically, request, or_throw, catch, ◌>>=◌,
  ◌>>◌, throw_if, when,
}
use delivery_plus.Orders.Pricing.{PricingPolicy, price_order}
use delivery_plus.Orders.Rules.{is_role_allowed_for_transition}
use delivery_plus.Orders.Outcome.{OrderPaymentStatus, outcome_for}
use delivery_plus.Orders.Store.{
  OrderEventType, Order, OrderPayload, Database, NewOrderItem, select_by_id,
}
use delivery_plus.Orders.Store

-- What cart-service and user-service answer.
pub record Cart : Type 0 where
  pub restaurant_id : Option ℕ
  pub items : List NewOrderItem
  -- a number of EGP
  pub total : ℕ

pub record Profile : Type 0 where
  pub address : Option Text
  pub full_name : Option Text
  pub phone_verified_at : Option ℕ

-- The replies of the other services at one moment. A caller is known by its token, a number.
pub record World : Type 0 where
  pub cart : ℕ → Result Cart
  pub clear : ℕ → Result (Unit {0})
  pub restaurant : ℕ → Result RestaurantStatus
  pub ownership : ℕ → ℕ → Result (Unit {0})
  pub profile : ℕ → Result Profile

pub record Server : Type 0 where
  pub db : Database
  pub world : World
  -- the tokens with which a cart was cleared, and whether the relay was asked to run
  pub cleared : List ℕ
  pub kicked : Bool
  -- the events that the broker has accepted, in order
  pub broker : List (BaseEvent OrderEventType OrderPayload)

pub record Config : Type 0 where
  pub phone_verification_required : Bool
  pub pricing : PricingPolicy
  -- `lifecycleEventId`, a name-based UUID of an order and an event type
  pub lifecycle_event_id : ℕ → OrderEventType → ℕ

abbrev pub Handler : Type 0 → Type 0
Handler A = Proc Server A

-- `ORDER_STATUS_EVENTS[status] ?? CREATED`
unfoldable pub order_status_event : OrderStatus → OrderEventType
order_status_event OrderStatus.created = OrderEventType.created
order_status_event OrderStatus.payment_pending = OrderEventType.payment_pending
order_status_event OrderStatus.confirmed = OrderEventType.confirmed
order_status_event OrderStatus.failed = OrderEventType.failed
order_status_event OrderStatus.cancelled = OrderEventType.cancelled
order_status_event OrderStatus.preparing = OrderEventType.preparing
order_status_event OrderStatus.ready_for_pickup = OrderEventType.ready_for_pickup
order_status_event OrderStatus.driver_assigned = OrderEventType.driver_assigned
order_status_event OrderStatus.picked_up = OrderEventType.picked_up
order_status_event OrderStatus.delivered = OrderEventType.delivered

module _ (c : Config) where
  unfoldable pub order_event : OrderEventType → Order → BaseEvent OrderEventType OrderPayload
  order_event event_type o = record {
    event_id = c.lifecycle_event_id o.id event_type;
    event_type = event_type;
    payload = record {
      order_id = o.id;
      customer_id = o.customer_id;
      restaurant_id = o.restaurant_id;
      total = o.total_amount;
      status = o.status;
      cancelled_by = o.cancelled_by;
      cancellation_reason = o.cancellation_reason;
    };
  }

-- A transaction on the database.
unfoldable pub transaction : {A : Type 0} → (Database → A × Database) → Handler A
transaction f = act (λ s. record s { db = (f s.db).1 }) (λ s. ret (f s.db).0)

unfoldable pub kick : Handler (Unit {0})
kick = act (λ s. record s { kicked = true }) (λ _. ret tt)

unfoldable pub find_or_throw : ℕ → Handler Order
find_or_throw id = do order ← gets (λ s. select_by_id id s.db.orders); or_throw not_found order

unfoldable pub assert_ownership : ℕ → ℕ → Handler (Unit {0})
assert_ownership restaurant_id requester = request (λ s. s.world.ownership restaurant_id requester)

unfoldable pub get_by_id : ℕ → ℕ → UserRole → Handler Order
get_by_id id requester role = do
  order ← find_or_throw id
  if same UserRole-discrete role UserRole.admin || order.customer_id == requester
      then ret order
      else if same UserRole-discrete role UserRole.restaurant_owner
      then (do assert_ownership order.restaurant_id requester; ret order)
      else throw forbidden
