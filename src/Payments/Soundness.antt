-- ===== src/Payments/Soundness.antt =====
-- What every statement of payment-service keeps: payments only move along the table, an order has at
-- most one active payment, and each event on the topic tells of a status that its payment has had.
pub mod Effects
pub mod Completion
pub mod Creation
pub mod Processing
pub mod Events
pub mod Handlers
use delivery_plus.Prelude.{
  ℕ, suc, ◌<◌, ◌≡◌, refl, sym, subst, ◌∙◌, ap, Bool, true, false, Option, none, some, List, [], ◌∷◌,
  ◌++◌, ◌==◌, ==_iff, if◌then◌else◌, ◌||◌, arith, All, All-mono, Bool-cases, inl, inr, length,
}
use mathlib.Core.Option.{some-injective}
use delivery_plus.Shared.Enums.{OrderStatus, PaymentStatus, PaymentStatus-discrete}
use delivery_plus.Shared.Events.{PaymentEventType}
use delivery_plus.Shared.Text.{Text}
use delivery_plus.Shared.Errors.{Error}
use delivery_plus.Proc.{Result, ok, err}
use delivery_plus.Payments.Store.{
  Payment, is_active, find_by_id, find_active_by_order, CreatePaymentData, new_payment,
  update_where, is_found, is_refused,
}
use delivery_plus.Payments.Store.Laws.{
  find_by_id-id, changed, changed_row, find_by_id-update_where, Below, update_where-Below,
  find_by_id-Below, OneActive, update_where-OneActive,
}
use delivery_plus.Payments.Server.{PaymentEvent, Server, inserted, delivered, BrokerReply}
use delivery_plus.Payments.SideEffects.{side_effects, payment_event}
use delivery_plus.Payments.Evolution.{Evolves, Evolves-refl, Evolves-trans, path-inactive}

-- The payment, as it was read at some time, is in the table and has evolved since.
abbrev pub Known : Payment → Server → Type 0
Known p s = (q : Payment) × (find_by_id p.id s.payments ≡ some q) × Evolves p q

abbrev pub Advances : Server → Server → Type 0
Advances s t = (p : Payment) → find_by_id p.id s.payments ≡ some p → Known p t

pub Known-stable : (p : Payment) (s t : Server) → Known p s → Advances s t → Known p t
Known-stable p s t (q, found, e) a =
    let (r, later, f) = a q (subst (λ i. find_by_id i s.payments ≡ some q) (e.same_id) found) in
    (r, subst (λ i. find_by_id i t.payments ≡ some r) (sym e.same_id) later, Evolves-trans e f)

pub Known-earlier : (p q : Payment) (s : Server) → Evolves p q → Known q s → Known p s
Known-earlier p q s e (r, found, f) =
    (r, subst (λ i. find_by_id i s.payments ≡ some r) (sym e.same_id) found, Evolves-trans e f)

pub Advances-refl : (s : Server) → Advances s s
Advances-refl s p found = (p, found, Evolves-refl p)

pub Advances-trans : (s t u : Server) → Advances s t → Advances t u → Advances s u
Advances-trans s t u a b p found = Known-stable p t u (a p found) b

-- The event of a status with side effects that the payment has had.
abbrev pub Backed : (ℕ → PaymentEventType → ℕ) → PaymentEvent → Server → Type 0
Backed payment_event_id e s =
    (p : Payment) × (event_type : PaymentEventType) × (order_status : OrderStatus) × (side_effects
        p.status
      ≡ some (event_type, order_status))
    × (e ≡ payment_event payment_event_id event_type p)
    × Known p s

pub record IsSound (payment_event_id : ℕ → PaymentEventType → ℕ) (s : Server) : Type 0 where
  pub fresh : Below s.next_id s.payments
  pub one_active : OneActive s.payments
  pub backed : All (λ e. Backed payment_event_id e s) s.events

-- A change of a row that moves it along the table, where its test holds.
pub record IsTame (test : Payment → Bool) (change : Payment → Payment) : Type 0 where
  pub keeps_id : (p : Payment) → (change p).id ≡ p.id
  pub keeps_order : (p : Payment) → (change p).order_id ≡ p.order_id
  pub evolves : (p : Payment) → test p ≡ true → Evolves p (change p)

abbrev pub updated : ℕ → (Payment → Bool) → (Payment → Payment) → Server → Server
updated id test change s = record s { payments = (update_where id test change s.payments).1 }

module _ (id : ℕ) (test : Payment → Bool) (change : Payment → Payment)
    (tame : IsTame test change) where
  pub updated-Advances : (s : Server) → Advances s (updated id test change s)
  updated-Advances s p found =
      subst (λ (o : Option Payment). (q : Payment) × (o ≡ some q) × Evolves p q)
        (sym (
          find_by_id-update_where id test change (tame.keeps_id) p.id s.payments
          ∙ ap (changed_row (id == p.id) test change) found))
        (row (id == p.id))
    where
      row :
          (mine : Bool)
          → (q : Payment) × (changed_row mine test change (some p) ≡ some q) × Evolves p q
      row false = (p, refl, Evolves-refl p)
      row true = elim (Bool-cases (test p)) [
        | inl met ↦ (change p, rw met refl, tame.evolves p met)
        | inr unmet ↦ (p, rw unmet refl, Evolves-refl p)
      ]

  pub updated-IsSound :
      (payment_event_id : ℕ → PaymentEventType → ℕ) (s : Server)
      → IsSound payment_event_id s
      → IsSound payment_event_id (updated id test change s)
  updated-IsSound payment_event_id s i = record {
    fresh = update_where-Below id test change (tame.keeps_id) s.next_id s.payments (i.fresh);
    one_active =
        update_where-OneActive id test change (tame.keeps_order)
          (λ p met h. path-inactive ((tame.evolves p met).path) h) s.payments (i.one_active);
    backed =
        All-mono _ _ s.events
          (λ e b. (
            b.0,
            b.1,
            b.2,
            b.3,
            b.4,
            Known-stable b.0 s (updated id test change s) (b.5) (updated-Advances s),
          ))
          (i.backed);
  }

find_by_id-fresh :
    (n id : ℕ) (payments : List Payment) (p : Payment)
    → Below n payments
    → find_by_id id payments ≡ some p
    → (n == id) ≡ false
find_by_id-fresh n id payments p b found = ground (arith, find_by_id-Below n id payments p b found)

inserted-Advances :
    (payment_event_id : ℕ → PaymentEventType → ℕ) (d : CreatePaymentData) (s : Server)
    → IsSound payment_event_id s
    → Advances s (inserted d s)
unfolding find_by_id
inserted-Advances payment_event_id d s i p found =
    (p, rw (find_by_id-fresh s.next_id p.id s.payments p (i.fresh) found) found, Evolves-refl p)

pub find_by_id-inserted :
    (d : CreatePaymentData) (s : Server)
    → find_by_id s.next_id (inserted d s).payments ≡ some (new_payment s.next_id d)
unfolding find_by_id
find_by_id-inserted d s = rw ((==_iff s.next_id s.next_id).1 refl) refl

not_found : (o : Option Payment) (b : Bool) → (is_found o || b) ≡ false → o ≡ none
not_found none b h = refl
not_found (some p) b h = cc

pub inserted_step :
    (payment_event_id : ℕ → PaymentEventType → ℕ) (d : CreatePaymentData) (s : Server)
    → IsSound payment_event_id s
    → is_refused d s.payments ≡ false
    → Advances s (inserted d s) × IsSound payment_event_id (inserted d s)
unfolding is_refused
inserted_step payment_event_id d s i free =
    let advances = inserted-Advances payment_event_id d s i in
    (
      advances,
      record {
        fresh = (omega arith, i.fresh);
        one_active = ((λ _. not_found _ _ free), i.one_active);
        backed =
            All-mono _ _ s.events
              (λ e b. (b.0, b.1, b.2, b.3, b.4, Known-stable b.0 s (inserted d s) (b.5) advances))
              (i.backed);
      },
    )

All-snoc {ℓ κ} :
    {A : Type ℓ} (P : A → Type κ) (xs : List A) (x : A) → All P xs → P x → All P (xs ++ x ∷ [])
All-snoc P [] x h k = (k, tt)
All-snoc P (y ∷ xs) x (h, hs) k = (h, All-snoc P xs x hs k)

-- The broker is sent the event of a payment as it was read.
pub published_step :
    (payment_event_id : ℕ → PaymentEventType → ℕ) (reply : BrokerReply) (e : PaymentEvent)
    (s : Server)
    → IsSound payment_event_id s
    → Backed payment_event_id e s
    → IsSound payment_event_id (record s { events = delivered reply e s.events })
published_step payment_event_id BrokerReply.refused e s i b = record {
  fresh = i.fresh;
  one_active = i.one_active;
  backed = i.backed;
}
published_step payment_event_id BrokerReply.accepted e s i b = record {
  fresh = i.fresh;
  one_active = i.one_active;
  backed = All-snoc (λ e. Backed payment_event_id e s) s.events e (i.backed) b;
}
published_step payment_event_id BrokerReply.lost e s i b = record {
  fresh = i.fresh;
  one_active = i.one_active;
  backed = All-snoc (λ e. Backed payment_event_id e s) s.events e (i.backed) b;
}
