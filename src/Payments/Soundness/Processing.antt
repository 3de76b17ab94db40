-- ===== src/Payments/Soundness/Processing.antt =====
-- `processPayment`, `refund` and `getStatus` keep the table sound, and what they give.
use delivery_plus.Prelude.{
  ℕ, ◌≡◌, refl, sym, ◌∙◌, Bool, true, false, not, ◌&&◌, Option, none, some, ◌==◌, same, same-eq,
  if◌then◌else◌, arith, subst,
}
use delivery_plus.Shared.Enums.{UserRole, UserRole-discrete, PaymentStatus, PaymentStatus-discrete}
use delivery_plus.Shared.Events.{PaymentEventType}
use delivery_plus.Shared.Errors.{conflict, forbidden, invalid_state_transition}
use delivery_plus.Proc.{Result, ok, err, ret, throw, throw_if, ◌>>=◌, ◌>>◌}
use delivery_plus.Proc.Secures.{
  at_end, Returns, Secures-bind, Secures-mono, Secures-checked, Secures-if, Secures-gets,
}
use delivery_plus.Payments.Store.{Payment}
use delivery_plus.Payments.Server.{Server, is_move_allowed, is_settled, find_or_throw}
use delivery_plus.Payments.SideEffects.{OnBusy, has_owed_side_effects, complete_side_effects}
use delivery_plus.Payments.Service.{
  target_of, reason_of, simulate_outcome, after_lost_claim, settle, claim_and_settle,
  process_pending, process_payment, get_status, refund,
}
use delivery_plus.Payments.Evolution.{is_final, path-final, path-refunded, settled-final}
use delivery_plus.Payments.Soundness.{Known, Known-stable, Known-earlier, Advances-refl}
use delivery_plus.Payments.Soundness.Effects.{
  Follows, SecuresPayments, first_read, later_read, transition_lem,
}
use delivery_plus.Payments.Soundness.Completion.{complete_side_effects_lem}

-- A payment of the customer that is settled, or was and is paid back.
abbrev pub IsSettledOf : ℕ → Payment → Server → Type 0
IsSettledOf customer_id p s = Known p s × (p.customer_id ≡ customer_id) × (is_final p.status ≡ true)

claim_allowed : is_move_allowed PaymentStatus.pending PaymentStatus.processing ≡ true
unfolding is_move_allowed
claim_allowed = refl

negated : (b : Bool) → not b ≡ false → b ≡ true
negated true h = refl
negated false h = cc

module _ (payment_event_id : ℕ → PaymentEventType → ℕ) (customer_id : ℕ) where
  settled_lem :
      (p : Payment) (w : Server)
      → IsSettledOf customer_id p w
      → SecuresPayments payment_event_id
          (IsSettledOf customer_id)
          (complete_side_effects payment_event_id p OnBusy.returns)
          w
  settled_lem p w (k, c, f) =
      Secures-mono (Returns (Follows p)) later
        (complete_side_effects_lem payment_event_id p OnBusy.returns w k)
    where
      later :
          (r : Result Payment) (t : Server)
          → Returns (Follows p) r t
          → Returns (IsSettledOf customer_id) r t
      later (ok q) t (k', e) = (k', sym e.same_customer ∙ c, path-final (e.path) f)
      later (err x) t h = tt

  after_lost_claim_lem :
      (p : Payment) (w : Server)
      → Known p w
      → p.customer_id ≡ customer_id
      → SecuresPayments payment_event_id
          (IsSettledOf customer_id)
          (after_lost_claim payment_event_id p)
          w
  unfolding after_lost_claim
  after_lost_claim_lem p w k c =
      Secures-if (is_settled p.status)
        (λ settled. settled_lem p w (k, c, settled-final p.status settled))
        (λ _.
          Secures-if (same PaymentStatus-discrete p.status PaymentStatus.processing)
            (λ _. at_end tt) (λ _. at_end tt))

  target-final : (succeeded : Bool) → is_final (target_of succeeded) ≡ true
  target-final true = refl
  target-final false = refl

  settle_lem :
      (p : Payment) (id : ℕ) (succeeded : Bool) (w : Server)
      → p.id ≡ id
      → Known p w
      → p.customer_id ≡ customer_id
      → SecuresPayments payment_event_id
          (IsSettledOf customer_id)
          (settle payment_event_id id succeeded)
          w
  unfolding settle
  settle_lem p id succeeded w same_id k c =
      Secures-checked (not (is_move_allowed PaymentStatus.processing (target_of succeeded)))
        invalid_state_transition
        (λ allowed.
          Secures-bind
            (λ won s.
              Known p s
              × (won ≡ true → (q : Payment) × Follows p q s × (q.status ≡ target_of succeeded)))
            (transition_lem payment_event_id p id PaymentStatus.processing (target_of succeeded)
              (reason_of succeeded) w same_id (negated _ allowed) k)
            (λ won t h. written won t (h.0) (h.1)))
    where
      -- The payment, and where this request settled it, the target.
      written :
          (won : Bool) (t : Server)
          → Known p t
          → (won ≡ true → (q : Payment) × Follows p q t × (q.status ≡ target_of succeeded))
          → SecuresPayments payment_event_id
              (IsSettledOf customer_id)
              (find_or_throw id >>= λ current.
                if won
                then complete_side_effects payment_event_id current OnBusy.returns
                else throw invalid_state_transition)
              t
      written false t k' h =
          Secures-bind (Follows p) (later_read payment_event_id p id t same_id k')
            (λ current u f. at_end tt)
      written true t k' h =
          let (q, (k'', e), status) = h refl in
          Secures-bind (Follows q)
            (later_read payment_event_id q id t (sym e.same_id ∙ same_id) k'')
            (λ current u f. settled_lem current u (
              f.0,
              sym (f.1).same_customer ∙ sym e.same_customer ∙ c,
              path-final ((f.1).path)
                  (subst (λ s. is_final s ≡ true) (sym status) (target-final succeeded)),
            ))

  simulate_outcome_lem :
      (p : Payment) (simulate_failure : Option Bool) (w : Server)
      → Known p w
      → SecuresPayments payment_event_id (λ _ s. Known p s) (simulate_outcome simulate_failure) w
  unfolding simulate_outcome
  simulate_outcome_lem p (some true) w k = at_end k
  simulate_outcome_lem p (some false) w k = at_end k
  simulate_outcome_lem p none w k =
      Secures-gets Advances-refl (λ _ s. Known p s) (λ s. s.draw) (λ s a. Known-stable p w s k a)

  claim_and_settle_lem :
      (p : Payment) (id : ℕ) (simulate_failure : Option Bool) (w : Server)
      → p.id ≡ id
      → Known p w
      → p.customer_id ≡ customer_id
      → SecuresPayments payment_event_id
          (IsSettledOf customer_id)
          (claim_and_settle payment_event_id id simulate_failure)
          w
  unfolding claim_and_settle
  claim_and_settle_lem p id simulate_failure w same_id k c =
      Secures-bind
        (λ won s.
          Known p s
          × (won ≡ true → (q : Payment) × Follows p q s × (q.status ≡ PaymentStatus.processing)))
        (transition_lem payment_event_id p id PaymentStatus.pending PaymentStatus.processing none w
          same_id claim_allowed k)
        (λ won t h.
          Secures-if won
            (λ _.
              Secures-bind (λ _ s. Known p s) (simulate_outcome_lem p simulate_failure t (h.0))
                (λ succeeded u k'. settle_lem p id succeeded u same_id k' c))
            (λ _.
              Secures-bind (Follows p) (later_read payment_event_id p id t same_id (h.0))
                (λ current u f.
                  after_lost_claim_lem current u (f.0) (sym (f.1).same_customer ∙ c))))

  process_pending_lem :
      (p : Payment) (simulate_failure : Option Bool) (w : Server)
      → Known p w
      → p.customer_id ≡ customer_id
      → SecuresPayments payment_event_id
          (IsSettledOf customer_id)
          (process_pending payment_event_id p simulate_failure)
          w
  unfolding process_pending
  process_pending_lem p simulate_failure w k c =
      Secures-checked (not (is_move_allowed p.status PaymentStatus.processing))
        invalid_state_transition
        (λ _.
          Secures-bind (Follows p)
            (complete_side_effects_lem payment_event_id p OnBusy.conflicts w k)
            (λ ready t f. Secures-checked (has_owed_side_effects ready) conflict (λ _.
              claim_and_settle_lem p p.id simulate_failure t refl
                (Known-earlier p ready t (f.1) (f.0)) c)))

  pub process_payment_lem :
      (id : ℕ) (simulate_failure : Option Bool) (w : Server)
      → SecuresPayments payment_event_id
          (IsSettledOf customer_id)
          (process_payment payment_event_id id customer_id simulate_failure)
          w
  unfolding process_payment
  process_payment_lem id simulate_failure w =
      Secures-bind (λ p s. Known p s × (p.id ≡ id)) (first_read payment_event_id id w)
        (λ p t h. Secures-checked (not (p.customer_id == customer_id)) forbidden (λ mine.
          let c : p.customer_id ≡ customer_id = ground arith in
          Secures-if (is_settled p.status)
            (λ settled. settled_lem p t (h.0, c, settled-final p.status settled))
            (λ _.
              Secures-if (same PaymentStatus-discrete p.status PaymentStatus.processing)
                (λ _. at_end tt) (λ _. process_pending_lem p simulate_failure t (h.0) c))))

module _ (payment_event_id : ℕ → PaymentEventType → ℕ) where
  pub get_status_lem :
      (id requester : ℕ) (role : UserRole) (w : Server)
      → SecuresPayments payment_event_id
          (λ p s. Known p s × (p.id ≡ id))
          (get_status id requester role)
          w
  unfolding get_status
  get_status_lem id requester role w =
      Secures-bind (λ p s. Known p s × (p.id ≡ id)) (first_read payment_event_id id w)
        (λ p t h.
          Secures-checked
            (not (same UserRole-discrete role UserRole.admin) && not (p.customer_id == requester))
            forbidden (λ _. at_end h))

  abbrev pub IsRefunded : Payment → Server → Type 0
  IsRefunded p s = Known p s × (p.status ≡ PaymentStatus.refunded)

  -- The payment read after the update, and whether it was this request that refunded it.
  refunded_read :
      (p : Payment) (id : ℕ) (won : Bool) (w : Server)
      → p.id ≡ id
      → Known p w
      → (won ≡ true → (q : Payment) × Follows p q w × (q.status ≡ PaymentStatus.refunded))
      → SecuresPayments payment_event_id IsRefunded
          (find_or_throw id >>= λ current.
            throw_if
              (not won && not (same PaymentStatus-discrete current.status PaymentStatus.refunded))
              invalid_state_transition
            >> ret current)
          w
  refunded_read p id true w same_id k written =
      let (q, (k', e), status) = written refl in
      Secures-bind (Follows q) (later_read payment_event_id q id w (sym e.same_id ∙ same_id) k')
        (λ current t f.
          Secures-checked false invalid_state_transition
            (λ _. at_end (f.0, path-refunded ((f.1).path) status)))
  refunded_read p id false w same_id k written =
      Secures-bind (Follows p) (later_read payment_event_id p id w same_id k) (λ current t f.
        Secures-checked (not (same PaymentStatus-discrete current.status PaymentStatus.refunded))
          invalid_state_transition
          (λ is. at_end (
            f.0,
            same-eq PaymentStatus-discrete current.status PaymentStatus.refunded (negated _ is),
          )))

  pub refund_lem :
      (id : ℕ) (role : UserRole) (w : Server)
      → SecuresPayments payment_event_id IsRefunded (refund id role) w
  unfolding refund
  refund_lem id role w =
      Secures-checked (not (same UserRole-discrete role UserRole.admin)) forbidden (λ _.
        Secures-bind (λ p s. Known p s × (p.id ≡ id)) (first_read payment_event_id id w)
          (λ p t h.
            Secures-checked (not (is_move_allowed p.status PaymentStatus.refunded))
              invalid_state_transition
              (λ allowed.
                Secures-bind
                  (λ won s.
                    Known p s
                    × (won ≡ true
                        → (q : Payment) × Follows p q s × (q.status ≡ PaymentStatus.refunded)))
                  (transition_lem payment_event_id p id p.status PaymentStatus.refunded none t (h.1)
                    (negated _ allowed) (h.0))
                  (λ won u k. refunded_read p id won u (h.1) (k.0) (k.1)))))
