-- ===== src/Payments/Service.antt =====
-- The handlers of `PaymentsService` (services/payments.service.ts). The texts of errors are left out,
-- so that the two conflicts of a lost insert are one.
use delivery_plus.Prelude.{
  ℕ, Bool, true, false, not, ◌&&◌, Option, none, some, ◌==◌, same, if◌then◌else◌,
}
use delivery_plus.Shared.Errors.{
  Error, Error-discrete, conflict, forbidden, invalid_state_transition, unique_violation,
}
use delivery_plus.Shared.Enums.{
  UserRole, UserRole-discrete, OrderStatus, OrderStatus-discrete, PaymentStatus,
  PaymentStatus-discrete,
}
use delivery_plus.Shared.Events.{PaymentEventType}
use delivery_plus.Shared.Text.{Text, text}
use delivery_plus.Proc.{ret, throw, gets, request, catch, ◌>>=◌, ◌>>◌, throw_if}
use delivery_plus.Payments.Store.{
  Payment, is_active, find_latest_by_order, find_by_idempotency_key, CreatePaymentData,
}
use delivery_plus.Payments.Server.{
  Handler, is_settled, assert_transition, find_or_throw, transition, create,
}
use delivery_plus.Payments.SideEffects.{OnBusy, has_owed_side_effects, complete_side_effects}

unfoldable pub find_prior : ℕ → Option ℕ → Handler (Option Payment)
find_prior customer_id none = ret none
find_prior customer_id (some key) = gets (λ s. find_by_idempotency_key customer_id key s.payments)

abbrev pub is_active_payment : Option Payment → Bool
is_active_payment none = false
is_active_payment (some p) = is_active p.status

-- What the insert gives: its payment, or the winner of the race that has the same key.
pub data Inserted : Type 0 where
  made lost_to : Payment → Inserted

abbrev pub won_by : Option Payment → Handler Inserted
won_by none = throw conflict
won_by (some winner) = ret (lost_to winner)

unfoldable pub after_failed_insert : CreatePaymentData → Error → Handler Inserted
after_failed_insert d e = do
  throw_if (not (same Error-discrete e unique_violation)) e
  winner ← find_prior d.customer_id d.idempotency_key
  won_by winner

unfoldable pub insert : CreatePaymentData → Handler Inserted
insert d = catch (after_failed_insert d) (create d >>= λ p. ret (made p))

-- The status that an outcome gives, and its reason.
abbrev pub target_of : Bool → PaymentStatus
target_of true = PaymentStatus.completed
target_of false = PaymentStatus.failed

abbrev pub reason_of : Bool → Option Text
reason_of true = none
reason_of false = some (text "Simulated payment decline")

unfoldable pub simulate_outcome : Option Bool → Handler Bool
simulate_outcome (some true) = ret false
simulate_outcome (some false) = ret true
simulate_outcome none = gets (λ s. s.draw)

module _ (payment_event_id : ℕ → PaymentEventType → ℕ) where
  unfoldable pub replay_create : ℕ → Payment → Handler Payment
  replay_create order_id prior = do
    throw_if (not (prior.order_id == order_id)) conflict
    complete_side_effects payment_event_id prior OnBusy.returns

  abbrev pub after_insert : ℕ → Inserted → Handler Payment
  after_insert order_id (made p) = complete_side_effects payment_event_id p OnBusy.returns
  after_insert order_id (lost_to winner) = replay_create order_id winner

  -- `createPayment`, once no earlier payment of the key was found.
  unfoldable pub create_anew : ℕ → ℕ → ℕ → Option ℕ → Handler Payment
  create_anew customer_id order_id auth key = do
    order ← request (λ s. s.order_seen order_id auth)
    throw_if (not (order.customer_id == customer_id)) forbidden
    throw_if (not (same OrderStatus-discrete order.status OrderStatus.created)) conflict
    existing ← gets (λ s. find_latest_by_order order_id s.payments)
    throw_if (is_active_payment existing) conflict
    result ← insert (record {
      order_id = order_id;
      customer_id = customer_id;
      amount = order.total_amount;
      idempotency_key = key;
    })
    after_insert order_id result

  abbrev pub create_given : ℕ → ℕ → ℕ → Option ℕ → Option Payment → Handler Payment
  create_given customer_id order_id auth key none = create_anew customer_id order_id auth key
  create_given customer_id order_id auth key (some prior) = replay_create order_id prior

  unfoldable pub create_payment : ℕ → ℕ → ℕ → Option ℕ → Handler Payment
  create_payment customer_id order_id auth key =
      find_prior customer_id key >>= create_given customer_id order_id auth key

  -- The claim of PROCESSING was lost, to the payment as it is now.
  unfoldable pub after_lost_claim : Payment → Handler Payment
  after_lost_claim current =
      if is_settled current.status
      then complete_side_effects payment_event_id current OnBusy.returns
      else if same PaymentStatus-discrete current.status PaymentStatus.processing
      then throw conflict
      else throw invalid_state_transition

  unfoldable pub settle : ℕ → Bool → Handler Payment
  settle id succeeded = do
    assert_transition PaymentStatus.processing (target_of succeeded)
    settled ← transition id PaymentStatus.processing (target_of succeeded) (reason_of succeeded)
    current ← find_or_throw id
    if settled
        then complete_side_effects payment_event_id current OnBusy.returns
        else throw invalid_state_transition

  unfoldable pub claim_and_settle : ℕ → Option Bool → Handler Payment
  claim_and_settle id simulate_failure = do
    claimed ← transition id PaymentStatus.pending PaymentStatus.processing none
    if claimed
        then (simulate_outcome simulate_failure >>= settle id)
        else (find_or_throw id >>= after_lost_claim)

  -- A payment that is neither settled nor being processed.
  unfoldable pub process_pending : Payment → Option Bool → Handler Payment
  process_pending p simulate_failure = do
    assert_transition p.status PaymentStatus.processing
    ready ← complete_side_effects payment_event_id p OnBusy.conflicts
    throw_if (has_owed_side_effects ready) conflict
    claim_and_settle p.id simulate_failure

  unfoldable pub process_payment : ℕ → ℕ → Option Bool → Handler Payment
  process_payment id requester simulate_failure = do
    p ← find_or_throw id
    throw_if (not (p.customer_id == requester)) forbidden
    if is_settled p.status
        then complete_side_effects payment_event_id p OnBusy.returns
        else if same PaymentStatus-discrete p.status PaymentStatus.processing
        then throw conflict
        else process_pending p simulate_failure

unfoldable pub get_status : ℕ → ℕ → UserRole → Handler Payment
get_status id requester role = do
  p ← find_or_throw id
  throw_if (not (same UserRole-discrete role UserRole.admin) && not (p.customer_id == requester))
      forbidden
  ret p

unfoldable pub refund : ℕ → UserRole → Handler Payment
refund id role = do
  throw_if (not (same UserRole-discrete role UserRole.admin)) forbidden
  p ← find_or_throw id
  assert_transition p.status PaymentStatus.refunded
  refunded ← transition id p.status PaymentStatus.refunded none
  current ← find_or_throw id
  throw_if (not refunded && not (same PaymentStatus-discrete current.status PaymentStatus.refunded))
      invalid_state_transition
  ret current

-- What a proof names to run a handler.
unfoldable pub payment_handlers : Unit {0}
unfolding process_payment process_pending claim_and_settle settle after_lost_claim create_payment
    create_anew replay_create insert after_failed_insert find_prior simulate_outcome refund
payment_handlers = tt
