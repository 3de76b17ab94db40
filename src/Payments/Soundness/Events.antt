-- ===== src/Payments/Soundness/Events.antt =====
-- What an event on the topic should say of its payment, apart from the code that writes it.
use delivery_plus.Prelude.{ℕ, ◌≡◌, refl, sym, subst, some, arith}
use delivery_plus.Shared.Enums.{OrderStatus, PaymentStatus}
use delivery_plus.Shared.Events.{PaymentEventType}
use delivery_plus.Payments.Store.{Payment}
use delivery_plus.Payments.Server.{PaymentEvent, Server}
use delivery_plus.Payments.SideEffects.{side_effects}
use delivery_plus.Payments.Soundness.{Known, Backed}

-- The type of event that announces a status. PROCESSING and REFUNDED are not announced.
pub data Announces : PaymentEventType → PaymentStatus → Type 0 where
  opened : Announces PaymentEventType.created PaymentStatus.pending
  paid : Announces PaymentEventType.completed PaymentStatus.completed
  declined : Announces PaymentEventType.failed PaymentStatus.failed

-- The event is of the payment.
pub record Tells (payment_event_id : ℕ → PaymentEventType → ℕ) (e : PaymentEvent) (p : Payment)
    : Type 0 where
  pub payment : e.payment_id ≡ p.id
  pub order : e.order_id ≡ p.order_id
  pub customer : e.customer_id ≡ p.customer_id
  pub amount : e.amount ≡ p.amount
  pub status : e.status ≡ p.status
  pub named : e.event_id ≡ payment_event_id p.id e.event_type
  pub announces : Announces e.event_type p.status

-- The event is of a payment as it was at some time, which the table still has and which has evolved
-- since.
abbrev pub IsReport : (ℕ → PaymentEventType → ℕ) → PaymentEvent → Server → Type 0
IsReport payment_event_id e s = (p : Payment) × Tells payment_event_id e p × Known p s

side_effects-Announces :
    (status : PaymentStatus) (event_type : PaymentEventType) (order_status : OrderStatus)
    → side_effects status ≡ some (event_type, order_status)
    → Announces event_type status
side_effects-Announces PaymentStatus.pending t o h =
    subst (λ x. Announces x PaymentStatus.pending) (ground arith) opened
side_effects-Announces PaymentStatus.completed t o h =
    subst (λ x. Announces x PaymentStatus.completed) (ground arith) paid
side_effects-Announces PaymentStatus.failed t o h =
    subst (λ x. Announces x PaymentStatus.failed) (ground arith) declined
side_effects-Announces PaymentStatus.processing t o h = absurd (ground arith)
side_effects-Announces PaymentStatus.refunded t o h = absurd (ground arith)

pub Backed-IsReport :
    (payment_event_id : ℕ → PaymentEventType → ℕ) (e : PaymentEvent) (s : Server)
    → Backed payment_event_id e s
    → IsReport payment_event_id e s
Backed-IsReport payment_event_id e s (p, event_type, order_status, effects, same_event, known) = (
  p,
  subst (λ x. Tells payment_event_id x p) (sym same_event)
      (record {
        payment = refl;
        order = refl;
        customer = refl;
        amount = refl;
        status = refl;
        named = refl;
        announces = side_effects-Announces p.status event_type order_status effects;
      }),
  known,
)
