-- ===== src/Payments/Server.antt =====
-- The state of payment-service, and the statements and calls of its handlers
-- (repositories/payments.repository.ts, common/order-service.client.ts). Each is one atomic step;
-- between two of them other requests and other services may change the state.
use delivery_plus.Prelude.{
  ℕ, suc, ◌+◌, Bool, true, false, not, Option, none, some, List, [], ◌∷◌, ◌++◌, if◌then◌else◌,
}
use delivery_plus.Shared.Errors.{
  not_found, invalid_state_transition, unique_violation, upstream_failure,
}
use delivery_plus.Shared.Enums.{
  OrderStatus, PaymentStatus, PaymentStatus-discrete, payment_transitions, is_transition_allowed,
}
use delivery_plus.Shared.Events.{PaymentEventType}
use delivery_plus.Shared.Text.{Text}
use delivery_plus.Proc.{
  Proc, act, done, Result, ok, err, ret, throw, gets, or_throw, ◌>>=◌, throw_if,
}
use delivery_plus.Payments.Store.{
  Payment, find_by_id, CreatePaymentData, new_payment, is_refused, update_where, any_row,
  has_status, moved, is_free, leased, published, synced,
}

-- The number that `amount` names is the payload's.
pub record PaymentEvent : Type 0 where
  pub event_id : ℕ
  pub event_type : PaymentEventType
  pub payment_id : ℕ
  pub order_id : ℕ
  pub customer_id : ℕ
  pub amount : Text
  pub status : PaymentStatus

-- What order-service answers about an order.
pub record OrderDto : Type 0 where
  pub customer_id : ℕ
  pub status : OrderStatus
  pub total_amount : Text

-- An event may have reached the broker although its answer was lost.
pub data BrokerReply : Type 0 where
  accepted refused lost : BrokerReply

-- The table, the clock of the database, the events on the topic and the status updates that
-- order-service was asked for, in order, and the answers of the world at the moment.
pub record Server : Type 0 where
  pub payments : List Payment
  pub next_id : ℕ
  pub now : ℕ
  pub events : List PaymentEvent
  pub order_updates : List (ℕ × OrderStatus)
  pub broker : PaymentEvent → BrokerReply
  pub order_seen : ℕ → ℕ → Result OrderDto
  pub order_as_system : ℕ → Result OrderDto
  pub order_moves : ℕ → OrderStatus → Result (Unit {0})
  -- Math.random() < paymentSuccessRate
  pub draw : Bool

abbrev pub Handler : Type 0 → Type 0
Handler A = Proc Server A

-- `finally { f }` after `try { p }`; `f` itself does not fail.
unfoldable pub finally : {S A : Type 0} → Proc S (Unit {0}) → Proc S A → Proc S A
finally f (done r) = f >>= λ _. done r
finally f (act u k) = act u (λ s. finally f (k s))

unfoldable pub is_settled : PaymentStatus → Bool
is_settled PaymentStatus.completed = true
is_settled PaymentStatus.failed = true
is_settled _ = false

unfoldable pub is_move_allowed : PaymentStatus → PaymentStatus → Bool
unfolding is_transition_allowed payment_transitions PaymentStatus-discrete
is_move_allowed = is_transition_allowed PaymentStatus-discrete payment_transitions

abbrev pub assert_transition : PaymentStatus → PaymentStatus → Handler (Unit {0})
assert_transition from to = throw_if (not (is_move_allowed from to)) invalid_state_transition

unfoldable pub find_or_throw : ℕ → Handler Payment
find_or_throw id = do payment ← gets (λ s. find_by_id id s.payments); or_throw not_found payment

-- One UPDATE statement, whose test and change may read the clock: whether a row was affected.
unfoldable pub update : ℕ → (ℕ → Payment → Bool) → (ℕ → Payment → Payment) → Handler Bool
update id test change =
    act (λ s. record s { payments = (update_where id (test s.now) (change s.now) s.payments).1 })
      (λ s. ret (update_where id (test s.now) (change s.now) s.payments).0)

unfoldable pub transition : ℕ → PaymentStatus → PaymentStatus → Option Text → Handler Bool
transition id from to reason = update id (λ _. has_status from) (λ _. moved to reason)

unfoldable pub acquire_side_effects_lease : ℕ → ℕ → Handler Bool
acquire_side_effects_lease id ttl = update id is_free (λ now. leased (some (now + ttl)))

unfoldable pub release_side_effects_lease : ℕ → Handler (Unit {0})
release_side_effects_lease id = update id (λ _. any_row) (λ _. leased none) >>= λ _. ret tt

unfoldable pub mark_event_published : ℕ → PaymentStatus → Handler (Unit {0})
mark_event_published id status = update id (λ _. any_row) (λ _. published status) >>= λ _. ret tt

unfoldable pub mark_order_synced : ℕ → PaymentStatus → Handler (Unit {0})
mark_order_synced id status = update id (λ _. any_row) (λ _. synced status) >>= λ _. ret tt

abbrev pub inserted : CreatePaymentData → Server → Server
inserted d s = record s { payments = new_payment s.next_id d ∷ s.payments; next_id = suc s.next_id }

unfoldable pub create : CreatePaymentData → Handler Payment
create d =
    act (λ s. if is_refused d s.payments then s else inserted d s)
      (λ s.
        if is_refused d s.payments then throw unique_violation else ret (new_payment s.next_id d))

abbrev pub delivered : BrokerReply → PaymentEvent → List PaymentEvent → List PaymentEvent
delivered BrokerReply.refused e events = events
delivered _ e events = events ++ e ∷ []

abbrev pub answer : BrokerReply → Result (Unit {0})
answer BrokerReply.accepted = ok tt
answer _ = err upstream_failure

unfoldable pub publish : PaymentEvent → Handler (Unit {0})
publish e =
    act (λ s. record s { events = delivered (s.broker e) e s.events })
      (λ s. done (answer (s.broker e)))

abbrev pub update_order_status : ℕ → OrderStatus → Handler (Unit {0})
update_order_status order_id status =
    act (λ s. record s { order_updates = s.order_updates ++ (order_id, status) ∷ [] })
      (λ s. done (s.order_moves order_id status))

-- What a proof names to run the statements.
unfoldable pub statements : Unit {0}
unfolding finally is_move_allowed is_settled find_or_throw update transition
    acquire_side_effects_lease release_side_effects_lease mark_event_published mark_order_synced
    create publish update_where find_by_id
statements = tt
