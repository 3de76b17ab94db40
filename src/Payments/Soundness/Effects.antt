-- ===== src/Payments/Soundness/Effects.antt =====
-- The statements and the side effects of payment-service, one step at a time.
use delivery_plus.Prelude.{
  ℕ, ◌≡◌, refl, sym, subst, ◌∙◌, ap, Bool, true, Option, none, some, ◌==◌, ==_iff, same-eq,
}
use mathlib.Core.Option.{some-injective}
use delivery_plus.Shared.Enums.{PaymentStatus, PaymentStatus-discrete}
use delivery_plus.Shared.Events.{PaymentEventType}
use delivery_plus.Shared.Text.{Text}
use delivery_plus.Shared.Errors.{not_found}
use delivery_plus.Proc.{Proc, ret, gets, or_throw, ◌>>=◌}
use delivery_plus.Proc.Secures.{Secures, at_end, at_step, Returns, Secures-bind}
use delivery_plus.Payments.Store.{
  Payment, find_by_id, update_where, any_row, has_status, moved, leased, published, synced,
}
use delivery_plus.Payments.Store.Laws.{
  find_by_id-id, changed_row, find_by_id-update_where, update_where-affected,
}
use delivery_plus.Payments.Server.{Server, is_move_allowed, find_or_throw, update, transition}
use delivery_plus.Payments.Evolution.{
  Evolves, Evolves-refl, Evolves-trans, StatusPath, here, one_move,
}
use delivery_plus.Payments.Soundness.{
  Known, Known-stable, Advances, Advances-refl, IsSound, IsTame, updated, updated-Advances,
  updated-IsSound,
}

-- The payment `p`, later.
abbrev pub Follows : Payment → Payment → Server → Type 0
Follows p q s = Known q s × Evolves p q

pub Follows-start : (p : Payment) (s : Server) → Known p s → Follows p p s
Follows-start p s k = (k, Evolves-refl p)

moved-Evolves :
    (from to : PaymentStatus) (reason : Option Text) (p : Payment)
    → is_move_allowed from to ≡ true
    → has_status from p ≡ true
    → Evolves p (moved to reason p)
moved-Evolves from to none p allowed met = record {
  same_id = refl;
  same_order = refl;
  same_customer = refl;
  same_amount = refl;
  path = one_move (rw (same-eq PaymentStatus-discrete p.status from met) allowed);
}
moved-Evolves from to (some reason) p allowed met = record {
  same_id = refl;
  same_order = refl;
  same_customer = refl;
  same_amount = refl;
  path = one_move (rw (same-eq PaymentStatus-discrete p.status from met) allowed);
}

-- A change of other columns than the status.
clerical :
    (p q : Payment)
    → p.id ≡ q.id
    → p.order_id ≡ q.order_id
    → p.customer_id ≡ q.customer_id
    → p.amount ≡ q.amount
    → p.status ≡ q.status
    → Evolves p q
clerical p q a b c d e = record {
  same_id = a;
  same_order = b;
  same_customer = c;
  same_amount = d;
  path = subst (StatusPath p.status) e (here p.status);
}

moved-id : (to : PaymentStatus) (reason : Option Text) (p : Payment) → (moved to reason p).id ≡ p.id
moved-id to none p = refl
moved-id to (some reason) p = refl

moved-status :
    (to : PaymentStatus) (reason : Option Text) (p : Payment) → (moved to reason p).status ≡ to
moved-status to none p = refl
moved-status to (some reason) p = refl

moved-order_id :
    (to : PaymentStatus) (reason : Option Text) (p : Payment)
    → (moved to reason p).order_id ≡ p.order_id
moved-order_id to none p = refl
moved-order_id to (some reason) p = refl

moved-IsTame :
    (from to : PaymentStatus) (reason : Option Text)
    → is_move_allowed from to ≡ true
    → IsTame (has_status from) (moved to reason)
moved-IsTame from to reason allowed = record {
  keeps_id = moved-id to reason;
  keeps_order = moved-order_id to reason;
  evolves = λ p. moved-Evolves from to reason p allowed;
}

pub leased-IsTame : (test : Payment → Bool) (until : Option ℕ) → IsTame test (leased until)
leased-IsTame test until = record {
  keeps_id = λ p. refl;
  keeps_order = λ p. refl;
  evolves = λ p _. clerical p _ refl refl refl refl refl;
}

pub published-IsTame : (status : PaymentStatus) → IsTame any_row (published status)
published-IsTame status = record {
  keeps_id = λ p. refl;
  keeps_order = λ p. refl;
  evolves = λ p _. clerical p _ refl refl refl refl refl;
}

pub synced-IsTame : (status : PaymentStatus) → IsTame any_row (synced status)
synced-IsTame status = record {
  keeps_id = λ p. refl;
  keeps_order = λ p. refl;
  evolves = λ p _. clerical p _ refl refl refl refl refl;
}

module _ (payment_event_id : ℕ → PaymentEventType → ℕ) where
  abbrev pub SecuresPayments :
      {A : Type 0} → (A → Server → Type 0) → Proc Server A → Server → Type 0
  SecuresPayments X = Secures Advances (IsSound payment_event_id) (Returns X)

  -- An update by which rows evolve, whatever the clock.
  update_lem :
      (id : ℕ) (test : ℕ → Payment → Bool) (change : ℕ → Payment → Payment)
      (X : Bool → Server → Type 0) (w : Server)
      → ((now : ℕ) → IsTame (test now) (change now))
      → ((s : Server)
          → Advances w s
          → X
              (update_where id (test s.now) (change s.now) s.payments).0
              (updated id (test s.now) (change s.now) s))
      → SecuresPayments X (update id test change) w
  unfolding update
  update_lem id test change X w tame h =
      at_step
        (λ s a i. (
          updated-Advances id (test s.now) (change s.now) (tame s.now) s,
          updated-IsSound id (test s.now) (change s.now) (tame s.now) payment_event_id s i,
        ))
        (λ s a i. at_end (h s a))

  -- The clerical updates keep every payment that is known, whatever they answer.
  kept : (p : Payment) (w s t : Server) → Known p w → Advances w s → Advances s t → Known p t
  kept p w s t k a b = Known-stable p s t (Known-stable p w s k a) b

  pub quiet :
      (p : Payment) (id : ℕ) (test : ℕ → Payment → Bool) (change : ℕ → Payment → Payment)
      (w : Server)
      → ((now : ℕ) → IsTame (test now) (change now))
      → Known p w
      → SecuresPayments (λ _ s. Known p s) (update id test change) w
  quiet p id test change w tame k =
      update_lem id test change (λ _ s. Known p s) w tame
        (λ s a.
          kept p w s (updated id (test s.now) (change s.now) s) k a
            (updated-Advances id (test s.now) (change s.now) (tame s.now) s))

  pub quiet_unit :
      (p : Payment) (id : ℕ) (test : ℕ → Payment → Bool) (change : ℕ → Payment → Payment)
      (w : Server)
      → ((now : ℕ) → IsTame (test now) (change now))
      → Known p w
      → SecuresPayments (λ _ s. Known p s) (update id test change >>= λ _. ret tt) w
  quiet_unit p id test change w tame k =
      Secures-bind (λ _ s. Known p s) (quiet p id test change w tame k) (λ b t h. at_end h)

  pub first_read :
      (id : ℕ) (w : Server) → SecuresPayments (λ p s. Known p s × (p.id ≡ id)) (find_or_throw id) w
  unfolding find_or_throw gets or_throw ◌>>=◌
  first_read id w =
      at_step (λ s a i. (Advances-refl s, i)) (λ s a i. found s (find_by_id id s.payments) refl)
    where
      found :
          (s : Server) (o : Option Payment)
          → find_by_id id s.payments ≡ o
          → SecuresPayments (λ p t. Known p t × (p.id ≡ id)) (or_throw not_found o) s
      found s none e = at_end tt
      found s (some p) e =
          let same_id = find_by_id-id id s.payments p e in
          at_end (
            (p, subst (λ j. find_by_id j s.payments ≡ some p) (sym same_id) e, Evolves-refl p),
            same_id,
          )

  -- A payment that is known, read again.
  pub later_read :
      (p : Payment) (id : ℕ) (w : Server)
      → p.id ≡ id
      → Known p w
      → SecuresPayments (Follows p) (find_or_throw id) w
  unfolding find_or_throw gets or_throw ◌>>=◌
  later_read p id w same_id k =
      at_step (λ s a i. (Advances-refl s, i)) (λ s a i. read s (Known-stable p w s k a))
    where
      read :
          (s : Server)
          → Known p s
          → SecuresPayments (Follows p) (or_throw not_found (find_by_id id s.payments)) s
      read s (q, found, e) =
          subst (λ o. SecuresPayments (Follows p) (or_throw not_found o) s)
            (sym (subst (λ j. find_by_id j s.payments ≡ some q) same_id found))
            (at_end (
              (q, subst (λ j. find_by_id j s.payments ≡ some q) (e.same_id) found, Evolves-refl q),
              e,
            ))

  -- A compare-and-set that the table allows, of a payment that is known.
  pub transition_lem :
      (p : Payment) (id : ℕ) (from to : PaymentStatus) (reason : Option Text) (w : Server)
      → p.id ≡ id
      → is_move_allowed from to ≡ true
      → Known p w
      → SecuresPayments
          (λ won s. Known p s × (won ≡ true → (q : Payment) × Follows p q s × (q.status ≡ to)))
          (transition id from to reason)
          w
  unfolding transition
  transition_lem p id from to reason w same_id allowed k =
      update_lem id (λ _. has_status from) (λ _. moved to reason) _ w (λ _. tame)
        (λ s a.
          let known = Known-stable p w s k a in
          let advance = updated-Advances id (has_status from) (moved to reason) tame s in
          (
            Known-stable p s (updated id (has_status from) (moved to reason) s) known advance,
            written s known,
          ))
    where
      tame : IsTame (has_status from) (moved to reason)
      tame = moved-IsTame from to reason allowed

      written :
          (s : Server)
          → Known p s
          → (update_where id (has_status from) (moved to reason) s.payments).0 ≡ true
          → (q : Payment) × Follows p q (updated id (has_status from) (moved to reason) s)
            × (q.status ≡ to)
      written s (q, found, e) won =
          let (r, found', met) =
            update_where-affected id (has_status from) (moved to reason) (moved-id to reason)
              s.payments won in
          let same_row : q ≡ r =
            some-injective q r
              (sym (subst (λ j. find_by_id j s.payments ≡ some q) same_id found) ∙ found') in
          let new_id : (moved to reason r).id ≡ id =
            moved-id to reason r ∙ find_by_id-id id s.payments r found' in
          (
            moved to reason r,
            (
              (
                moved to reason r,
                subst
                    (λ j.
                      find_by_id j (updated id (has_status from) (moved to reason) s).payments
                      ≡ some (moved to reason r))
                    (sym new_id)
                    (find_by_id-update_where id (has_status from) (moved to reason)
                        (moved-id to reason) id s.payments
                      ∙ ap (changed_row (id == id) (has_status from) (moved to reason)) found'
                      ∙ rw ((==_iff id id).1 refl, met) refl),
                Evolves-refl (moved to reason r),
              ),
              Evolves-trans e (
                  subst (λ x. Evolves x (moved to reason r)) (sym same_row)
                    (moved-Evolves from to reason r allowed met)),
            ),
            moved-status to reason r,
          )
