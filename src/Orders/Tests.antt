-- ===== src/Orders/Tests.antt =====
-- order-service on concrete data: a server with one order, and a schedule of requests and events.
mod Examples
use delivery_plus.Prelude.{
  ℕ, ◌+◌, ◌*◌, ◌<◌, ◌≡◌, refl, true, false, Option, none, some, List, [], ◌∷◌, ◌++◌, arith, All,
  not, ◌&&◌, ◌||◌,
}
use delivery_plus.Shared.Errors.{Error, not_found}
use delivery_plus.Shared.Enums.{
  UserRole, RestaurantStatus, OrderStatus, order_transitions, is_transition_allowed,
  OrderStatus-discrete,
}
use delivery_plus.Shared.Events.{PaymentEventType, DeliveryEventType}
use delivery_plus.Shared.Numbers.{fraction}
use delivery_plus.Shared.Text.{text}
use delivery_plus.Shared.Outbox.{OutboxRow, order_events}
use delivery_plus.Shared.Outbox.Order.{events}
use delivery_plus.Proc.{Result, ok, err, run}
use delivery_plus.Proc.Alone.{run_alone}
use delivery_plus.Proc.Rules.{Holds}
use delivery_plus.Orders.Pricing.{
  PricingPolicy, default_pricing, price_order, from_piasters, to_piasters,
}
use delivery_plus.Orders.Pricing.Amounts.{to_piasters-from_piasters}
use delivery_plus.Orders.Pricing.Split.{IsValidPolicy, IsConserved, price_order-IsConserved}
use delivery_plus.Orders.Rules.{active, completed, cancelled}
use delivery_plus.Orders.Outcome.{OrderPaymentStatus}
use delivery_plus.Orders.Store.{
  OrderEventType, OrderPayload, Order, Database, NewOrder, new_order, DeliveryAddress, find_by_id,
  update_status,
}
use delivery_plus.Orders.Store.Races.{
  second_writer_loses, record_all, with_payment, find_by_id-record_all,
}
use delivery_plus.Orders.Server.{Config, Server, World, Cart, Profile, order_event}
use delivery_plus.Orders.UpdateStatus.{UpdateOrderStatusDto}
use delivery_plus.Orders.UpdateStatus
use delivery_plus.Orders.Checkout.{CreateOrderDto, create_from_cart}
use delivery_plus.Orders.Schedule.{
  Pick, creates, payment_event, updates, arrives, runs, relays, serve,
}
use delivery_plus.Orders.History.{HasAdvanced, orders_evolve}

-- A numbering of order ids and event types, for `lifecycleEventId`.
abbrev pub code : OrderEventType → ℕ
code OrderEventType.created = 0
code OrderEventType.payment_pending = 1
code OrderEventType.confirmed = 2
code OrderEventType.failed = 3
code OrderEventType.cancelled = 4
code OrderEventType.preparing = 5
code OrderEventType.ready_for_pickup = 6
code OrderEventType.driver_assigned = 7
code OrderEventType.picked_up = 8
code OrderEventType.delivered = 9

abbrev pub config : Config
config = record {
  phone_verification_required = false;
  pricing = default_pricing;
  lifecycle_event_id = λ id event_type. id * 10 + code event_type;
}

abbrev pub cart : Cart
cart = record {
  restaurant_id = some 4;
  items =
      record { menu_item_id = 6; name = text "Koshari"; price = fraction 4500 100; quantity = 2 }
      ∷ [];
  total = fraction 9000 100;
}

abbrev pub profile : Profile
profile = record {
  address = some (text "12 Tahrir Square");
  full_name = some (text "Nour Adel");
  phone_verified_at = some 1;
}

abbrev pub world : World
world = record {
  cart = λ token. ok cart;
  clear = λ token. ok tt;
  restaurant = λ id. ok RestaurantStatus.open_now;
  ownership = λ id user. ok tt;
  profile = λ token. ok profile;
}

abbrev pub an_order : Order
an_order = record {
  id = 0;
  customer_id = 7;
  restaurant_id = 4;
  status = OrderStatus.created;
  total_amount = text "115.00";
  subtotal_amount = some (text "90.00");
  delivery_fee = some (text "25.00");
  driver_fee_share = some (text "12.50");
  platform_fee_share = some (text "12.50");
  driver_cancel_fee_share = some (text "6.25");
  idempotency_key = some 3;
  delivery = record {
    address = text "12 Tahrir Square";
    notes = none;
    latitude = none;
    longitude = none;
  };
  customer_first_name = some (text "Nour");
  cancelled_by = none;
  cancellation_reason = none;
  payment_status = none;
  items =
      record { menu_item_id = 6; name = text "Koshari"; price = text "45.00"; quantity = 2 } ∷ [];
  created_day = 20;
}

-- A server with one order, whose event the relay has not published.
abbrev pub server : Server
server = record {
  db = record {
    orders = an_order ∷ [];
    outbox =
        record {
          id = 0;
          topic = order_events;
          event = record {
            event_id = 0;
            event_type = OrderEventType.created;
            payload = record {
              order_id = 0;
              customer_id = 7;
              restaurant_id = 4;
              total = text "115.00";
              status = OrderStatus.created;
              cancelled_by = none;
              cancellation_reason = none;
            };
          };
          published = false;
          attempts = 0;
          last_error = none;
        }
        ∷ [];
    next_id = 1;
    today = 20;
  };
  world = world;
  cleared = [];
  kicked = false;
  broker = [];
}

abbrev pub checkout : CreateOrderDto
checkout = record {
  delivery_address = some (text "5 Nile Street");
  delivery_notes = none;
  delivery_latitude = none;
  delivery_longitude = none;
}

abbrev pub cancel : UpdateOrderStatusDto
cancel = record { status = OrderStatus.cancelled; reason = none }

-- A second checkout races with a payment event of the first order and with its cancellation, and the
-- relay publishes in between.
abbrev pub schedule : List Pick
schedule =
    arrives (creates 7 1 (some 9) checkout)
    ∷ runs 0
    ∷ runs 0
    ∷ arrives (payment_event PaymentEventType.created 0)
    ∷ runs 1
    ∷ runs 1
    ∷ arrives (updates 0 7 UserRole.customer cancel)
    ∷ runs 2
    ∷ runs 1
    ∷ relays 5 ((λ row. none), λ row. false)
    ∷ runs 1
    ∷ runs 1
    ∷ runs 2
    ∷ runs 0
    ∷ runs 0
    ∷ runs 0
    ∷ runs 0
    ∷ runs 0
    ∷ runs 0
    ∷ []
