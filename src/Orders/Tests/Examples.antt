-- ===== src/Orders/Tests/Examples.antt =====
-- The theorems about order-service, at the data of the tests.
use delivery_plus.Prelude.{
  ◌+◌, ◌<◌, ◌≡◌, refl, true, false, none, some, [], ◌∷◌, arith, All, not, ◌&&◌, ◌||◌, ◌==◌,
  Bool-cases, inl, inr, subst,
}
use delivery_plus.Shared.Enums.{
  UserRole, OrderStatus, order_transitions, is_transition_allowed, OrderStatus-discrete,
}
use delivery_plus.Shared.Events.{PaymentEventType, DeliveryEventType}
use delivery_plus.Shared.Outbox.{drain_once, publish_rows, mark_published, record_failure}
use delivery_plus.Proc.{run}
use delivery_plus.Proc.Alone.{run_alone}
use delivery_plus.Proc.Rules.{Holds}
use delivery_plus.Shared.Numbers.{fraction, times, round, fixed, nearest, round_even, exponent}
use delivery_plus.Orders.Pricing.{
  hundredths, decimal, digits, read_whole, read_fraction, to_piasters_of_number, default_pricing,
  price_order, from_piasters, to_piasters,
}
use delivery_plus.Orders.Pricing.Amounts.{to_piasters-from_piasters}
use delivery_plus.Orders.Pricing.Split.{IsValidPolicy, IsConserved, price_order-IsConserved}
use delivery_plus.Orders.Rules.{OrderListFilter, order_list_filter_statuses}
use delivery_plus.Orders.Outcome.{OrderPaymentStatus}
use delivery_plus.Orders.Store.{
  OrderEventType, Order, find_by_id, find_by_customer_and_idempotency_key,
}
use delivery_plus.Orders.Store
use delivery_plus.Orders.Store.Races.{second_writer_loses, record_all, find_by_id-record_all}
use delivery_plus.Orders.Server.{order_event, order_status_event, get_by_id}
use delivery_plus.Orders.UpdateStatus.{update_status, on_payment_event, on_delivery_event}
use delivery_plus.Orders.UpdateStatus.Alone.{updated, update_status_alone}
use delivery_plus.Orders.UpdateStatus.Redelivery.{
  SettlesOnce, payment_redelivered, delivery_redelivered,
}
use delivery_plus.Shared.Errors.{upstream_failure}
use delivery_plus.Shared.Outbox.{reached}
use delivery_plus.Shared.Outbox.Resent.{taken_once}
use delivery_plus.Orders.Checkout.{create_from_cart}
use delivery_plus.Orders.Schedule.{serve, serve_pool, relays, dies}
use delivery_plus.Orders.History.{HasAdvanced, orders_evolve}
use delivery_plus.Orders.Log.{IsLife, born, HasDistinctIds, IsLogged}
use delivery_plus.Orders.Log.Staged.{serve-IsLogged}
use delivery_plus.Orders.Log.Relayed.{broker_has_lives}
use delivery_plus.Orders.Retry.{AnswersWith, retry_answers_first}
use delivery_plus.Orders.Keys.{HasUniqueKeys, keys_stay_unique}
use delivery_plus.Orders.Endings.{HasItsOutcome, outcomes_are_recorded, is_under, filters_partition}
use delivery_plus.Orders.Privacy.{HidesFeeSplit, replies_hide_fee_split}
use delivery_plus.Orders.Listing.{customer_page}
use delivery_plus.Orders.Listing.Pages.{IsPage, customer_page-IsPage}
use delivery_plus.Orders.Summary.{summarise, summary_adds_up}
use delivery_plus.Orders.Tests.{code, config, an_order, server, checkout, cancel, schedule}

orders_evolve_example : HasAdvanced 0 an_order (serve config schedule server).db.orders
unfolding find_by_id
orders_evolve_example = orders_evolve config schedule server 0 an_order (omega arith, tt) refl

code-below : (a : OrderEventType) → code a < 10
code-below OrderEventType.created = omega arith
code-below a = omega arith

code-injective : (a b : OrderEventType) → code a ≡ code b → a ≡ b
code-injective OrderEventType.created b h = ground arith
code-injective a b h = ground arith

ids_differ : HasDistinctIds config
ids_differ i j a b h = (
  omega (arith, code-below a, code-below b),
  code-injective a b (omega (arith, code-below a, code-below b)),
)

an_order-IsLife : (o : Order) → an_order ≡ o → IsLife (OrderStatus.created ∷ []) o.status
an_order-IsLife o e = subst (λ x. IsLife (OrderStatus.created ∷ []) x.status) e born

server-IsLogged : IsLogged config server.db
unfolding order_status_event find_by_id
server-IsLogged = record {
  orders_fresh = (omega arith, tt);
  events_fresh = (omega arith, tt);
  lifecycle = ((refl, refl), tt);
  placed = ((an_order, refl), tt);
  lives = λ id o h. elim (Bool-cases (0 == id)) [
    | inl eq ↦ rw eq (an_order-IsLife o (ground arith))
    | inr ne ↦ absurd (ground arith)
  ];
}

serve-IsLogged_example : IsLogged config (serve config schedule server).db
serve-IsLogged_example = serve-IsLogged config schedule server ids_differ server-IsLogged

-- A batch whose one event reaches the broker without an acknowledgement, then one that sends it again,
-- but dies before its commit.
broker_has_lives_example : IsLife (OrderStatus.created ∷ []) OrderStatus.created
unfolding serve serve_pool find_by_id drain_once publish_rows mark_published record_failure reached
    taken_once
broker_has_lives_example =
    broker_has_lives config
      (relays 5 ((λ row. some upstream_failure), λ row. true)
        ∷ dies 5 ((λ row. none), λ row. false)
        ∷ [])
      server 0 an_order ids_differ server-IsLogged
      (record { numbered = (refl, tt); complete = refl }) refl

update_status_alone_example :
    run_alone (update_status config 0 7 UserRole.customer cancel) server
    ≡ updated config 0 7 UserRole.customer cancel server
update_status_alone_example = update_status_alone config 0 7 UserRole.customer cancel server

keys_stay_unique_example : HasUniqueKeys (serve config schedule server).db.orders
unfolding find_by_customer_and_idempotency_key
keys_stay_unique_example = keys_stay_unique config schedule server (refl, tt)

second_writer_loses_example :
    let first =
      (Store.update_status 0 OrderStatus.created OrderStatus.cancelled
        (order_event config OrderEventType.cancelled)
        none
        server.db).1 in
    Store.update_status 0 OrderStatus.created OrderStatus.payment_pending
      (order_event config OrderEventType.payment_pending)
      none
      first
    ≡ (none, first)
unfolding find_by_id is_transition_allowed order_transitions OrderStatus-discrete
second_writer_loses_example =
    second_writer_loses 0 an_order OrderStatus.cancelled OrderStatus.payment_pending
      (order_event config OrderEventType.cancelled)
      (order_event config OrderEventType.payment_pending) none none server.db refl refl

an_order-HasItsOutcome : HasItsOutcome an_order
unfolding order_list_filter_statuses OrderStatus-discrete
an_order-HasItsOutcome = record { ended_by = refl; reason = refl }

outcomes_are_recorded_example : All HasItsOutcome (serve config schedule server).db.orders
outcomes_are_recorded_example =
    outcomes_are_recorded config schedule server (an_order-HasItsOutcome, tt)

replies_hide_fee_split_example :
    Holds HidesFeeSplit (run (get_by_id 0 7 UserRole.customer) [] server).0
    × Holds HidesFeeSplit (run (update_status config 0 7 UserRole.customer cancel) [] server).0
    × Holds HidesFeeSplit (run (create_from_cart config 7 1 (some 3) checkout) [] server).0
replies_hide_fee_split_example =
    replies_hide_fee_split config 0 7 1 UserRole.customer cancel (some 3) checkout [] server

payment_redelivered_example :
    SettlesOnce (on_payment_event config PaymentEventType.created 0) server
payment_redelivered_example = payment_redelivered config PaymentEventType.created 0 server

delivery_redelivered_example :
    SettlesOnce (on_delivery_event config DeliveryEventType.picked_up 0) server
delivery_redelivered_example = delivery_redelivered config DeliveryEventType.picked_up 0 server

-- A failure that overtakes the creation, and a completion after it.
find_by_id-record_all_example :
    find_by_id 0 (
      record_all 0
        (OrderPaymentStatus.failed ∷ OrderPaymentStatus.pending ∷ OrderPaymentStatus.completed ∷ [])
        server.db.orders)
    ≡ some (record an_order { payment_status = some OrderPaymentStatus.failed })
unfolding find_by_id
find_by_id-record_all_example =
    find_by_id-record_all 0
      (OrderPaymentStatus.failed ∷ OrderPaymentStatus.pending ∷ OrderPaymentStatus.completed ∷ [])
      server.db.orders

default_pricing-IsValidPolicy : IsValidPolicy default_pricing
default_pricing-IsValidPolicy = record { driver_share = omega arith; driver_cancel = omega arith }

price_order-IsConserved_example :
    IsConserved 9000 default_pricing (price_order (fraction 9000 100) default_pricing)
price_order-IsConserved_example =
    price_order-IsConserved 9000 default_pricing (omega arith) (omega arith)
      default_pricing-IsValidPolicy

to_piasters-from_piasters_example : to_piasters (from_piasters 11500) ≡ some 11500
to_piasters-from_piasters_example = to_piasters-from_piasters 11500 (omega arith)

-- An amount beyond the bound is read back as another.
rounded_away : to_piasters (from_piasters 8_507_215_452_428_451) ≡ some 8_507_215_452_428_452
unfolding to_piasters from_piasters hundredths decimal digits read_whole read_fraction
    to_piasters_of_number fixed fraction times round nearest round_even exponent
rounded_away = refl

-- The second page of the orders of customer 7 that are under way, of a table that has two of them.
customer_page-IsPage_example :
    IsPage 7 2 1
      (some OrderListFilter.active)
      (an_order ∷ an_order ∷ [])
      (customer_page 7 2 1 (some OrderListFilter.active) (an_order ∷ an_order ∷ []))
customer_page-IsPage_example =
    customer_page-IsPage 7 2 1 (some OrderListFilter.active) (an_order ∷ an_order ∷ [])
      (omega arith)

summary_adds_up_example :
    let summary = summarise 4 20 server.db.orders in
    summary.active + summary.delivered + summary.cancelled ≡ summary.orders
summary_adds_up_example = summary_adds_up 4 20 server.db.orders

filters_partition_example :
    (is_under OrderListFilter.active OrderStatus.created
      ≡ is_transition_allowed OrderStatus-discrete order_transitions OrderStatus.created
          OrderStatus.cancelled)
    × (not (is_under OrderListFilter.active OrderStatus.created)
        ≡ is_under OrderListFilter.completed OrderStatus.created
          || is_under OrderListFilter.cancelled OrderStatus.created)
    × (is_under OrderListFilter.completed OrderStatus.created
          && is_under OrderListFilter.cancelled OrderStatus.created
        ≡ false)
    × (is_under OrderListFilter.active OrderStatus.created
          || not (
              is_transition_allowed OrderStatus-discrete order_transitions OrderStatus.created
                OrderStatus.preparing)
        ≡ true)
filters_partition_example = filters_partition OrderStatus.created OrderStatus.preparing

retry_answers_first_example :
    AnswersWith config 7 1 3 checkout an_order (serve config schedule server)
unfolding find_by_customer_and_idempotency_key
retry_answers_first_example =
    retry_answers_first config schedule server 7 1 3 checkout an_order refl
