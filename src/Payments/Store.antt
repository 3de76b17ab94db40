-- ===== src/Payments/Store.antt =====
-- The payments table and its repository (entities/payment.entity.ts,
-- repositories/payments.repository.ts). The newest payment is first, as `createdAt DESC` sorts them.
-- Ids, keys and times are numbers. That a unique index is violated is the error unique_violation.
pub mod Laws
use delivery_plus.Prelude.{
  ℕ, suc, ◌+◌, Bool, true, false, ◌&&◌, ◌||◌, Option, none, some, List, [], ◌∷◌, ◌==◌, ltb, same,
  includes, if◌then◌else◌,
}
use delivery_plus.Shared.Enums.{PaymentStatus, PaymentStatus-discrete}
use delivery_plus.Shared.Errors.{unique_violation}
use delivery_plus.Shared.Text.{Text}
use delivery_plus.Proc.{Result, ok, err}

pub record Payment : Type 0 where
  pub id : ℕ
  pub order_id : ℕ
  pub customer_id : ℕ
  pub amount : Text
  pub status : PaymentStatus
  pub failure_reason : Option Text
  pub idempotency_key : Option ℕ
  pub published_event_status : Option PaymentStatus
  pub order_synced_status : Option PaymentStatus
  pub side_effects_lease_until : Option ℕ

unfoldable pub active_payment_statuses : List PaymentStatus
active_payment_statuses =
    PaymentStatus.pending ∷ PaymentStatus.processing ∷ PaymentStatus.completed ∷ []

unfoldable pub is_active : PaymentStatus → Bool
unfolding active_payment_statuses PaymentStatus-discrete
is_active status = includes PaymentStatus-discrete status active_payment_statuses

unfoldable pub find_by_id : ℕ → List Payment → Option Payment
find_by_id id [] = none
find_by_id id (p ∷ payments) = if p.id == id then some p else find_by_id id payments

unfoldable pub find_latest_by_order : ℕ → List Payment → Option Payment
find_latest_by_order order_id [] = none
find_latest_by_order order_id (p ∷ payments) =
    if p.order_id == order_id then some p else find_latest_by_order order_id payments

unfoldable pub find_active_by_order : ℕ → List Payment → Option Payment
find_active_by_order order_id [] = none
find_active_by_order order_id (p ∷ payments) =
    if p.order_id == order_id && is_active p.status
    then some p
    else find_active_by_order order_id payments

abbrev pub has_key : ℕ → Payment → Bool
has_key key p = elim p.idempotency_key [ none ↦ false | some k ↦ k == key ]

unfoldable pub find_by_idempotency_key : ℕ → ℕ → List Payment → Option Payment
find_by_idempotency_key customer_id key [] = none
find_by_idempotency_key customer_id key (p ∷ payments) =
    if p.customer_id == customer_id && has_key key p
    then some p
    else find_by_idempotency_key customer_id key payments

abbrev pub is_found : Option Payment → Bool
is_found none = false
is_found (some p) = true

abbrev pub is_key_taken : ℕ → Option ℕ → List Payment → Bool
is_key_taken customer_id none payments = false
is_key_taken customer_id (some key) payments =
    is_found (find_by_idempotency_key customer_id key payments)

-- `CreatePaymentData`
pub record CreatePaymentData : Type 0 where
  pub order_id : ℕ
  pub customer_id : ℕ
  pub amount : Text
  pub idempotency_key : Option ℕ

abbrev pub new_payment : ℕ → CreatePaymentData → Payment
new_payment id d = record {
  id = id;
  order_id = d.order_id;
  customer_id = d.customer_id;
  amount = d.amount;
  status = PaymentStatus.pending;
  failure_reason = none;
  idempotency_key = d.idempotency_key;
  published_event_status = none;
  order_synced_status = none;
  side_effects_lease_until = none;
}

-- The new row has the status PENDING, so both unique indexes are asked for it.
unfoldable pub is_refused : CreatePaymentData → List Payment → Bool
is_refused d payments =
    is_found (find_active_by_order d.order_id payments)
    || is_key_taken d.customer_id d.idempotency_key payments

-- UPDATE … WHERE "id" = … AND …: whether a row was affected, and the table.
unfoldable pub update_where :
    ℕ → (Payment → Bool) → (Payment → Payment) → List Payment → Bool × List Payment
update_where id test change [] = (false, [])
update_where id test change (p ∷ payments) =
    let rest = update_where id test change payments in
    if p.id == id
    then (if test p then (true, change p ∷ payments) else (false, p ∷ payments))
    else (rest.0, p ∷ rest.1)

abbrev pub any_row : Payment → Bool
any_row p = true

abbrev pub has_status : PaymentStatus → Payment → Bool
has_status status p = same PaymentStatus-discrete p.status status

-- The `failureReason` of `transition` is written only where it is given.
abbrev pub moved : PaymentStatus → Option Text → Payment → Payment
moved to none p = record p { status = to }
moved to (some reason) p = record p { status = to; failure_reason = some reason }

-- "sideEffectsLeaseUntil" IS NULL OR "sideEffectsLeaseUntil" < now()
abbrev pub is_free : ℕ → Payment → Bool
is_free now p = elim p.side_effects_lease_until [ none ↦ true | some until ↦ ltb until now ]

abbrev pub leased : Option ℕ → Payment → Payment
leased until p = record p { side_effects_lease_until = until }

abbrev pub published : PaymentStatus → Payment → Payment
published status p = record p { published_event_status = some status }

abbrev pub synced : PaymentStatus → Payment → Payment
synced status p = record p { order_synced_status = some status }
