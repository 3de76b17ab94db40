-- ===== src/Lib.antt =====
-- Delivery Plus: a food delivery platform of services that own their tables, call each other over
-- HTTP, and publish events through a transactional outbox. This library models order-service,
-- payment-service, delivery-service, driver-service, cart-service and the parts of the shared package
-- that they stand on, and proves what makes them correct.
--
-- Shared models shared/src: the errors (Shared.Errors, errors/app-error.ts), the roles, statuses and
-- transition tables (Shared.Enums, types/enums.ts), the event types (Shared.Events, events), the
-- outbox (Shared.Outbox, outbox/outbox.ts: stageEvent is stage_event, drainOnce is drain_once, and
-- reached says what of a batch is at the broker), the idempotency of event consumers (Shared.Idempotency,
-- kafka/durable-event-idempotency.scripts.ts and .service.ts), the pages of lists (Shared.Paging),
-- Egyptian mobile numbers (Shared.Mobile, of shared/src/utils/egyptian-mobile.ts), JavaScript strings (Shared.Text)
-- and JavaScript numbers (Shared.Numbers).
--
-- Orders models services/order-service/src: pricing (Orders.Pricing, common/pricing.ts), who may ask
-- for which status (Orders.Rules, common/order-transition-rules.ts), how an order ended
-- (Orders.Outcome, common/order-outcome.ts), the table and its repository (Orders.Store,
-- repositories/orders.repository.ts), and OrdersService (services/orders.service.ts): its reads and
-- shared steps in Orders.Server, updateStatus and the event consumers in Orders.UpdateStatus,
-- createFromCart and quote in Orders.Checkout, the lists in Orders.Listing and todaySummary in
-- Orders.Summary.
--
-- Drivers models services/driver-service/src: the table (Drivers.Store,
-- repositories/drivers.repository.ts) and DriversService (Drivers.Service,
-- services/drivers.service.ts). Carts models services/cart-service/src: CartService over the carts in
-- Redis (Carts.Service, services/cart.service.ts); what menu-service answers is a parameter, of which
-- one theorem supposes that an item that is asked for is answered with and stays with its restaurant.
--
-- Payments models services/payment-service/src: the table and its unique indexes (Payments.Store,
-- entities/payment.entity.ts and repositories/payments.repository.ts), the statements and calls
-- (Payments.Server), completeSideEffects with its lease (Payments.SideEffects) and the methods of
-- PaymentsService (Payments.Service, services/payments.service.ts). An event whose acknowledgement is
-- lost may have reached the broker. Payments.Soundness shows that each statement keeps the table
-- sound, and Payments.Soundness.Handlers serves any requests in any order.
--
-- Deliveries models services/delivery-service/src: the deliveries, the ledger of the drivers and the
-- outbox (Deliveries.Store, entities and repositories), the calls and the steps that handlers share
-- (Deliveries.Dispatch, common/order-service.client.ts and common/driver-service.client.ts) and the
-- methods of DeliveriesService (Deliveries.Service, services/deliveries.service.ts). The tables are
-- tables of Shared.Table. Deliveries.Background is what the service does by itself: dispatchOrder and
-- sweep (services/auto-dispatch.service.ts), the reconciliation of drivers
-- (services/driver-reconciliation.service.ts) and the settlement of the ledger
-- (services/earnings.service.ts). Deliveries.Ratings is services/ratings.service.ts, over tables of its
-- own beside the rest of the service, of which it supposes what Deliveries.Soundness.Served proves.
-- Deliveries.Soundness says what sound tables are, its child modules show that
-- each step keeps them sound, Deliveries.Soundness.Served serves any requests in any order, and
-- Deliveries.Soundness.Completion and Finishing follow a completion to its end, where the other services
-- accept; Deliveries.Soundness.Compensation follows an assignment that lost its compare-and-set.
--
-- A handler is a Proc: a sequence of atomic steps on the state of the service, one for each awaited
-- query, transaction or call of another service, whose reply is that of the world at that moment, a
-- value or an error. Orders.Schedule interleaves the steps of any number of requests and consumed
-- events with batches of the relay and with changes of the world, in any order: a schedule says who
-- moves next. Orders.Steps lists the atomic steps as a relation, Orders.Steps.Handlers shows that
-- every step of every handler is one of them, and the invariants are by induction on that relation
-- (Orders.History, Orders.Log, Orders.Keys, Orders.Retry, Orders.Endings). Proc.Alone and Proc.Rules
-- reason about one handler, by itself and among others; Proc.Secures does so from what is known of earlier states,
-- and Proc.Pool serves many requests at once. All functions are total. Two recur on fuel: digits in
-- Orders.Pricing is given one more than the number that it writes, and exponent in Shared.Numbers as
-- many rounds as the format of a double has exponents, so that only infinities are left out.
--
-- Ids, users, tokens and idempotency keys are numbers. The amounts that order-service computes with are
-- doubles, as in the source: a price or a total of a cart is a count of 2^-59, every operation rounds
-- to 53 digits, halves to even, and the theorems on amounts state up to where they hold, which is far
-- beyond the columns of the tables. Sums in SQL are exact. The carts of cart-service are in whole
-- piasters. Amounts are texts where the source keeps texts; the total of an event, which the source
-- parses back to a number, stays a text.
--
-- The id of an outbox row, a bigserial, is the row's place: transactions stage one after another. In
-- the source those of different orders may commit in another order than that of their ids, so nothing
-- is said of the order of events of different orders; those of one order are serialised by the update
-- of its row. The id of a lifecycle event, a name-based UUID, is a parameter, and the theorems that
-- need it suppose that different names have different ids. Asking the relay to run (kick) sets a
-- flag; when the relay runs is up to the schedule. A batch of order-service's relay is one step of the
-- schedule: it publishes up to the first row that is not acknowledged, which may have reached the
-- broker all the same, and it is committed, or the process dies before that and all of it is sent
-- again. The lists of orders come in the order of the table, which stands for that of their creation.
--
-- Not modelled: pricingFromEnv (the policy is a parameter), correlation ids, most time stamps, request validation, logging, HTTP, Kafka and the
-- database themselves, the pages that only read (delivery history, earnings, the current delivery of a
-- driver), and the other services.
pub mod Prelude
pub mod Proc
pub mod Shared
pub mod Orders
pub mod Carts
pub mod Deliveries
pub mod Drivers
pub mod Payments
