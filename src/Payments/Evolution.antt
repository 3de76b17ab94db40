-- ===== src/Payments/Evolution.antt =====
-- How a payment may change (the transitions of shared/src/types/enums.ts, on the rows of the table).
use delivery_plus.Prelude.{◌≡◌, refl, ◌∙◌, subst, Bool, true, false, arith}
use delivery_plus.Shared.Enums.{PaymentStatus}
use delivery_plus.Payments.Store.{Payment, is_active}
use delivery_plus.Payments.Server.{is_move_allowed, is_settled}

-- A walk along the table of transitions.
pub data StatusPath : PaymentStatus → PaymentStatus → Type 0 where
  here : (s : PaymentStatus) → StatusPath s s
  move : {s t u : PaymentStatus} → is_move_allowed s t ≡ true → StatusPath t u → StatusPath s u

pub StatusPath-trans : {s t u : PaymentStatus} → StatusPath s t → StatusPath t u → StatusPath s u
StatusPath-trans (here s) q = q
StatusPath-trans (move m p) q = move m (StatusPath-trans p q)

pub one_move : {s t : PaymentStatus} → is_move_allowed s t ≡ true → StatusPath s t
one_move {t = t} m = move m (here t)

-- No move makes a payment active.
move-inactive :
    (s t : PaymentStatus) → is_move_allowed s t ≡ true → is_active s ≡ false → is_active t ≡ false
unfolding is_move_allowed is_active
move-inactive PaymentStatus.pending t m h = cc
move-inactive PaymentStatus.processing t m h = cc
move-inactive PaymentStatus.completed t m h = cc
move-inactive PaymentStatus.failed t m h = ground arith
move-inactive PaymentStatus.refunded t m h = ground arith

pub path-inactive :
    {s t : PaymentStatus} → StatusPath s t → is_active s ≡ false → is_active t ≡ false
path-inactive (here s) h = h
path-inactive (move {s = s} {t = t} m p) h = path-inactive p (move-inactive s t m h)

-- Settled, or paid back after it was.
abbrev pub is_final : PaymentStatus → Bool
is_final PaymentStatus.pending = false
is_final PaymentStatus.processing = false
is_final _ = true

move-final :
    (s t : PaymentStatus) → is_move_allowed s t ≡ true → is_final s ≡ true → is_final t ≡ true
unfolding is_move_allowed
move-final PaymentStatus.pending t m h = cc
move-final PaymentStatus.processing t m h = cc
move-final PaymentStatus.completed t m h = ground arith
move-final PaymentStatus.failed t m h = ground arith
move-final PaymentStatus.refunded t m h = ground arith

pub path-final : {s t : PaymentStatus} → StatusPath s t → is_final s ≡ true → is_final t ≡ true
path-final (here s) h = h
path-final (move {s = s} {t = t} m p) h = path-final p (move-final s t m h)

move-refunded : (t : PaymentStatus) → is_move_allowed PaymentStatus.refunded t ≡ true → ⊥
unfolding is_move_allowed
move-refunded t m = cc

-- A refund is the end.
pub path-refunded :
    {s t : PaymentStatus} → StatusPath s t → s ≡ PaymentStatus.refunded → t ≡ PaymentStatus.refunded
path-refunded (here s) e = e
path-refunded (move {s = s} {t = t} m p) e =
    absurd (move-refunded t (subst (λ x. is_move_allowed x t ≡ true) e m))

pub settled-final : (s : PaymentStatus) → is_settled s ≡ true → is_final s ≡ true
unfolding is_settled
settled-final PaymentStatus.completed h = refl
settled-final PaymentStatus.failed h = refl
settled-final PaymentStatus.pending h = h
settled-final PaymentStatus.processing h = h
settled-final PaymentStatus.refunded h = refl

-- The same payment, later.
pub record Evolves (p q : Payment) : Type 0 where
  pub same_id : p.id ≡ q.id
  pub same_order : p.order_id ≡ q.order_id
  pub same_customer : p.customer_id ≡ q.customer_id
  pub same_amount : p.amount ≡ q.amount
  pub path : StatusPath p.status q.status

pub Evolves-refl : (p : Payment) → Evolves p p
Evolves-refl p = record {
  same_id = refl;
  same_order = refl;
  same_customer = refl;
  same_amount = refl;
  path = here p.status;
}

pub Evolves-trans : {p q r : Payment} → Evolves p q → Evolves q r → Evolves p r
Evolves-trans e f = record {
  same_id = e.same_id ∙ f.same_id;
  same_order = e.same_order ∙ f.same_order;
  same_customer = e.same_customer ∙ f.same_customer;
  same_amount = e.same_amount ∙ f.same_amount;
  path = StatusPath-trans (e.path) (f.path);
}
