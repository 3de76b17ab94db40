-- ===== src/Orders/Store.antt =====
-- The orders table and its repository (entities/order.entity.ts, repositories/orders.repository.ts).
-- The newest order is first, as `createdAt DESC` sorts them. Ids are numbers that stand for UUIDs,
-- users and restaurants are known by theirs, and coordinates, which are only copied, are numbers.
pub mod Laws
pub mod Races
use delivery_plus.Prelude.{
  ℕ, suc, Bool, true, false, ◌&&◌, Option, none, some, List, [], ◌∷◌, ◌==◌, same, if◌then◌else◌,
}
use delivery_plus.Shared.Enums.{OrderStatus, OrderStatus-discrete}
use delivery_plus.Shared.Text.{Text}
use delivery_plus.Shared.Errors.{unique_violation}
use delivery_plus.Proc.{Result, ok, err}
use delivery_plus.Orders.Pricing.{PricingSnapshot, decimal}
use delivery_plus.Shared.Numbers.{fixed}
use delivery_plus.Shared.Outbox.{order_events, BaseEvent, OutboxRow, stage_event}
use delivery_plus.Orders.Outcome.{OrderEndedBy, OrderPaymentStatus, OrderOutcome}

-- shared/src/events/order-events.ts
pub data OrderEventType : Type 0 where
  created payment_pending confirmed failed cancelled preparing : OrderEventType
  ready_for_pickup driver_assigned picked_up delivered : OrderEventType

pub record DeliveryAddress : Type 0 where
  pub address : Text
  pub notes : Option Text
  pub latitude : Option ℕ
  pub longitude : Option ℕ

pub record OrderItem : Type 0 where
  pub menu_item_id : ℕ
  pub name : Text
  pub price : Text
  pub quantity : ℕ

pub record Order : Type 0 where
  pub id : ℕ
  pub customer_id : ℕ
  pub restaurant_id : ℕ
  pub status : OrderStatus
  pub total_amount : Text
  -- null for orders from before fees
  pub subtotal_amount : Option Text
  pub delivery_fee : Option Text
  -- null where the split is not selected
  pub driver_fee_share : Option Text
  pub platform_fee_share : Option Text
  pub driver_cancel_fee_share : Option Text
  pub idempotency_key : Option ℕ
  pub delivery : DeliveryAddress
  pub customer_first_name : Option Text
  pub cancelled_by : Option OrderEndedBy
  pub cancellation_reason : Option Text
  pub payment_status : Option OrderPaymentStatus
  pub items : List OrderItem
  -- the calendar day of `createdAt` in Cairo
  pub created_day : ℕ

pub record OrderPayload : Type 0 where
  pub order_id : ℕ
  pub customer_id : ℕ
  pub restaurant_id : ℕ
  pub total : Text
  pub status : OrderStatus
  pub cancelled_by : Option OrderEndedBy
  pub cancellation_reason : Option Text

abbrev pub OrderOutbox : Type 0
OrderOutbox = List (OutboxRow OrderEventType OrderPayload)

-- The database: both tables, and the id that the next order gets.
pub record Database : Type 0 where
  pub orders : List Order
  pub outbox : OrderOutbox
  pub next_id : ℕ
  -- the calendar day in Cairo
  pub today : ℕ

unfoldable pub find_by_id : ℕ → List Order → Option Order
find_by_id id [] = none
find_by_id id (o ∷ orders) = if o.id == id then some o else find_by_id id orders

-- The fee split is not selected by default, and `withoutFeeSplit` (services/orders.service.ts) strips it.
unfoldable pub without_fee_split : Order → Order
without_fee_split o = record o {
  driver_fee_share = none;
  platform_fee_share = none;
  driver_cancel_fee_share = none;
}

abbrev pub selected : Option Order → Option Order
selected none = none
selected (some o) = some (without_fee_split o)

-- `findById`
abbrev pub select_by_id : ℕ → List Order → Option Order
select_by_id id orders = selected (find_by_id id orders)

abbrev pub has_key : ℕ → Order → Bool
has_key key o = elim o.idempotency_key [ none ↦ false | some k ↦ k == key ]

unfoldable pub find_by_customer_and_idempotency_key : ℕ → ℕ → List Order → Option Order
find_by_customer_and_idempotency_key customer_id key [] = none
find_by_customer_and_idempotency_key customer_id key (o ∷ orders) =
    if o.customer_id == customer_id && has_key key o
    then some o
    else find_by_customer_and_idempotency_key customer_id key orders

-- UPDATE … WHERE "id" = …
unfoldable pub put : ℕ → Order → List Order → List Order
put id o' [] = []
put id o' (o ∷ orders) = if o.id == id then o' ∷ orders else o ∷ put id o' orders

abbrev pub set_status : OrderStatus → Option OrderOutcome → Order → Order
set_status to none o = record o { status = to }
set_status to (some outcome) o = record o {
  status = to;
  cancelled_by = some outcome.cancelled_by;
  cancellation_reason = some outcome.cancellation_reason;
}

-- The compare-and-set of an order's status, and its event in the same transaction. The result is the
-- order as written, or none where another writer was first.
unfoldable pub update_status :
    ℕ
    → OrderStatus
    → OrderStatus
    → (Order → BaseEvent OrderEventType OrderPayload)
    → Option OrderOutcome
    → Database
    → Option Order × Database
update_status id from to event outcome db = elim (find_by_id id db.orders) [
  | none ↦ (none, db)
  | some o ↦
      if same OrderStatus-discrete o.status from
      then (
        some (without_fee_split (set_status to outcome o)),
        record db {
          orders = put id (set_status to outcome o) db.orders;
          outbox =
              stage_event order_events (event (without_fee_split (set_status to outcome o)))
                db.outbox;
        },
      )
      else (none, db)
]

abbrev pub is_key_taken : ℕ → Option ℕ → List Order → Bool
is_key_taken customer_id none orders = false
is_key_taken customer_id (some key) orders =
    elim (find_by_customer_and_idempotency_key customer_id key orders) [
      | none ↦ false
      | some _ ↦ true
    ]

-- `toFixed(2)` of the price of an item.
pub record NewOrderItem : Type 0 where
  pub menu_item_id : ℕ
  pub name : Text
  -- a number of EGP
  pub price : ℕ
  pub quantity : ℕ

abbrev pub order_items : List NewOrderItem → List OrderItem
order_items [] = []
order_items (i ∷ items) =
    record {
      menu_item_id = i.menu_item_id;
      name = i.name;
      price = decimal (fixed i.price);
      quantity = i.quantity;
    }
    ∷ order_items items

-- What `create` is given, but for the event.
pub record NewOrder : Type 0 where
  pub customer_id : ℕ
  pub restaurant_id : ℕ
  pub items : List NewOrderItem
  pub pricing : PricingSnapshot
  pub idempotency_key : Option ℕ
  pub delivery : DeliveryAddress
  pub customer_first_name : Option Text

unfoldable pub new_order : NewOrder → Database → Order
new_order n db = record {
  id = db.next_id;
  customer_id = n.customer_id;
  restaurant_id = n.restaurant_id;
  status = OrderStatus.created;
  total_amount = n.pricing.total_amount;
  subtotal_amount = some n.pricing.subtotal_amount;
  delivery_fee = some n.pricing.delivery_fee;
  driver_fee_share = some n.pricing.driver_fee_share;
  platform_fee_share = some n.pricing.platform_fee_share;
  driver_cancel_fee_share = some n.pricing.driver_cancel_fee_share;
  idempotency_key = n.idempotency_key;
  delivery = n.delivery;
  customer_first_name = n.customer_first_name;
  cancelled_by = none;
  cancellation_reason = none;
  payment_status = none;
  items = order_items n.items;
  created_day = db.today;
}

-- The insert of an order, with its event in the same transaction. It fails on the unique index over
-- the customer and the idempotency key.
unfoldable pub create :
    NewOrder → (Order → BaseEvent OrderEventType OrderPayload) → Database → Result Order × Database
unfolding new_order
create n event db =
    if is_key_taken n.customer_id n.idempotency_key db.orders then (err unique_violation, db) else (
      ok (new_order n db),
      record db {
        orders = new_order n db ∷ db.orders;
        outbox = stage_event order_events (event (new_order n db)) db.outbox;
        next_id = suc db.next_id;
      },
    )

-- The condition on the status that is known, in the statement of `recordPaymentStatus`.
abbrev pub is_replaceable : OrderPaymentStatus → Option OrderPaymentStatus → Bool
is_replaceable status none = true
is_replaceable OrderPaymentStatus.pending (some known) = false
is_replaceable OrderPaymentStatus.completed (some OrderPaymentStatus.pending) = true
is_replaceable OrderPaymentStatus.failed (some OrderPaymentStatus.pending) = true
is_replaceable _ (some known) = false

unfoldable pub record_payment_status : ℕ → OrderPaymentStatus → List Order → List Order
record_payment_status id status [] = []
record_payment_status id status (o ∷ orders) =
    if o.id == id
    then ((if is_replaceable status o.payment_status
          then record o { payment_status = some status }
          else o)
        ∷ orders)
    else o ∷ record_payment_status id status orders
