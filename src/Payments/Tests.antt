-- ===== src/Payments/Tests.antt =====
-- payment-service on concrete data: two orders, of which one has a payment that its customer processes
-- twice at once, while another payment is made and an event's acknowledgement is lost.
use delivery_plus.Prelude.{ℕ, ◌+◌, ◌≡◌, refl, true, false, none, some, List, [], ◌∷◌, arith, All}
use delivery_plus.Shared.Enums.{OrderStatus, PaymentStatus, PaymentStatus-discrete}
use delivery_plus.Shared.Events.{PaymentEventType}
use delivery_plus.Shared.Text.{text}
use delivery_plus.Proc.{ok, combinators}
use delivery_plus.Proc.Secures.{Returns}
use delivery_plus.Proc.Pool.{Pick, arrives, runs, elsewhere, serve, Answered}
use delivery_plus.Payments.Store.{Payment, find_by_id, find_active_by_order, is_active}
use delivery_plus.Payments.Server.{Server, BrokerReply, statements}
use delivery_plus.Payments.SideEffects.{payment_event, effects}
use delivery_plus.Payments.Service.{payment_handlers}
use delivery_plus.Payments.Evolution.{Evolves-refl}
use delivery_plus.Payments.Soundness.{IsSound, Advances}
use delivery_plus.Payments.Soundness.Events.{IsReport}
use delivery_plus.Payments.Soundness.Handlers.{
  Request, creates, processes, handle, IsAnswer, IsElsewhere, payments_advance, one_active_payment,
  events_are_true, answers_are_true,
}

abbrev event_id : ℕ → PaymentEventType → ℕ
event_id id PaymentEventType.created = id + id + id
event_id id PaymentEventType.completed = id + id + id + 1
event_id id PaymentEventType.failed = id + id + id + 2

abbrev a_payment : Payment
a_payment = record {
  id = 0;
  order_id = 7;
  customer_id = 3;
  amount = text "120.00";
  status = PaymentStatus.pending;
  failure_reason = none;
  idempotency_key = some 11;
  published_event_status = some PaymentStatus.pending;
  order_synced_status = some PaymentStatus.pending;
  side_effects_lease_until = none;
}

abbrev server : Server
server = record {
  payments = a_payment ∷ [];
  next_id = 1;
  now = 100;
  events = payment_event event_id PaymentEventType.created a_payment ∷ [];
  order_updates = [];
  broker = λ e. BrokerReply.accepted;
  order_seen = λ id auth.
      ok (record { customer_id = 3; status = OrderStatus.created; total_amount = text "80.00" });
  order_as_system = λ id.
      ok (record { customer_id = 3; status = OrderStatus.confirmed; total_amount = text "80.00" });
  order_moves = λ id status. ok tt;
  draw = true;
}

-- The acknowledgements of the broker get lost.
abbrev losing : Server → Server
losing s = record s { broker = λ e. BrokerReply.lost }

abbrev picks : List (Pick Server Request)
picks =
    arrives (processes 0 3 (some false))
    ∷ arrives (processes 0 3 none)
    ∷ arrives (creates 3 8 5 (some 12))
    ∷ runs 0
    ∷ runs 1
    ∷ runs 0
    ∷ runs 1
    ∷ runs 2
    ∷ runs 0
    ∷ runs 2
    ∷ runs 2
    ∷ runs 2
    ∷ runs 0
    ∷ elsewhere losing
    ∷ runs 0
    ∷ runs 0
    ∷ runs 0
    ∷ runs 2
    ∷ runs 1
    ∷ []

losing-IsElsewhere : IsElsewhere losing
losing-IsElsewhere = record {
  same_payments = λ s. refl;
  same_next_id = λ s. refl;
  same_events = λ s. refl;
}

server-IsSound : IsSound event_id server
unfolding find_by_id find_active_by_order
server-IsSound = record {
  fresh = (omega arith, tt);
  one_active = ((λ _. refl), tt);
  backed = (
    (
      a_payment,
      PaymentEventType.created,
      OrderStatus.payment_pending,
      refl,
      refl,
      (a_payment, refl, Evolves-refl a_payment),
    ),
    tt,
  );
}

payments_advance_example : Advances server (serve (handle event_id) picks ([], server)).1
payments_advance_example =
    payments_advance event_id picks server (losing-IsElsewhere, tt) server-IsSound

events_are_true_example :
    All
      (λ e. IsReport event_id e (serve (handle event_id) picks ([], server)).1)
      (serve (handle event_id) picks ([], server)).1.events
events_are_true_example =
    events_are_true event_id picks server (losing-IsElsewhere, tt) server-IsSound

answers_are_true_example :
    All
      (Answered (λ q. Returns (IsAnswer event_id q)) (serve (handle event_id) picks ([], server)).1)
      (serve (handle event_id) picks ([], server)).0
answers_are_true_example =
    answers_are_true event_id picks server (losing-IsElsewhere, tt) server-IsSound

abbrev claim : List (Pick Server Request)
claim = arrives (processes 0 3 (some false)) ∷ runs 0 ∷ runs 0 ∷ []

abbrev claimed : Payment
claimed = record a_payment { status = PaymentStatus.processing }

one_active_payment_example : ◌≡◌ {A = ℕ} 0 0
unfolding serve handle combinators payment_handlers effects statements PaymentStatus-discrete
    is_active
one_active_payment_example =
    one_active_payment event_id claim server tt server-IsSound claimed claimed refl refl refl refl
      refl
