-- ===== src/Shared/Outbox/Resent.antt =====
-- Events that reach the broker more than once, as a consumer that takes each event id once sees them.
use delivery_plus.Prelude.{
  ℕ, zero, suc, ◌≡◌, refl, sym, ap, subst, Bool, true, false, Option, List, [], ◌∷◌, ◌++◌, ◌∙◌,
  ◌==◌, ==_iff, if◌then◌else◌, arith, All, take, Bool-cases, Option-cases, inl, inr,
}
use mathlib.Core.List.{append_assoc, append_cancel_left}
use delivery_plus.Shared.Errors.{Error}
use delivery_plus.Shared.Outbox.{
  BaseEvent, OutboxRow, is_staged, pending, publish_rows, reached, drain_once,
}
use delivery_plus.Shared.Outbox.Order.{IsNumbered, events, events-drain_once}
use delivery_plus.Shared.Outbox.Staging.{events-append}

module _ {T P : Type 0} where
  abbrev pub is_taken : ℕ → List (BaseEvent T P) → Bool
  is_taken id [] = false
  is_taken id (e ∷ es) = if e.event_id == id then true else is_taken id es

  -- What a consumer has taken, in order, after more events arrived: those whose id it had, it skipped.
  unfoldable pub taken_once : List (BaseEvent T P) → List (BaseEvent T P) → List (BaseEvent T P)
  taken_once had [] = had
  taken_once had (e ∷ es) =
      if is_taken e.event_id had then taken_once had es else taken_once (had ++ e ∷ []) es

  pub taken_once-append :
      (had xs ys : List (BaseEvent T P))
      → taken_once had (xs ++ ys) ≡ taken_once (taken_once had xs) ys
  unfolding taken_once
  taken_once-append had [] ys = refl
  taken_once-append had (x ∷ xs) ys = elim (Bool-cases (is_taken x.event_id had)) [
    | inl old ↦ rw old (taken_once-append had xs ys)
    | inr new ↦ rw new (taken_once-append (had ++ x ∷ []) xs ys)
  ]

  is_taken-append :
      (id : ℕ) (xs ys : List (BaseEvent T P))
      → is_taken id xs ≡ true
      → is_taken id (xs ++ ys) ≡ true
  is_taken-append id [] ys h = absurd (cc)
  is_taken-append id (x ∷ xs) ys h = ground (arith, is_taken-append id xs ys)

  is_taken-last :
      (e : BaseEvent T P) (xs : List (BaseEvent T P)) → is_taken e.event_id (xs ++ e ∷ []) ≡ true
  is_taken-last e [] = rw ((==_iff e.event_id e.event_id).1 refl) refl
  is_taken-last e (x ∷ xs) = ground (arith, is_taken-last e xs)

  taken_once-keeps :
      (id : ℕ) (had xs : List (BaseEvent T P))
      → is_taken id had ≡ true
      → is_taken id (taken_once had xs) ≡ true
  unfolding taken_once
  taken_once-keeps id had [] h = h
  taken_once-keeps id had (x ∷ xs) h = elim (Bool-cases (is_taken x.event_id had)) [
    | inl old ↦ rw old (taken_once-keeps id had xs h)
    | inr new ↦ rw new (taken_once-keeps id (had ++ x ∷ []) xs (is_taken-append id had (x ∷ []) h))
  ]

  abbrev HasTaken : List (BaseEvent T P) → List (BaseEvent T P) → Type 0
  HasTaken had xs = All (λ x. is_taken x.event_id had ≡ true) xs

  taken_once-takes : (had xs : List (BaseEvent T P)) → HasTaken (taken_once had xs) xs
  unfolding taken_once
  taken_once-takes had [] = tt
  taken_once-takes had (x ∷ xs) = elim (Bool-cases (is_taken x.event_id had)) [
    | inl old ↦
        subst (λ c. HasTaken c (x ∷ xs)) (sym (rw (taken_once, old) refl))
          (taken_once-keeps x.event_id had xs old, taken_once-takes had xs)
    | inr new ↦
        subst (λ c. HasTaken c (x ∷ xs)) (sym (rw (taken_once, new) refl))
          (
            taken_once-keeps x.event_id (had ++ x ∷ []) xs (is_taken-last x had),
            taken_once-takes (had ++ x ∷ []) xs,
          )
  ]

  taken_once-skips : (had xs : List (BaseEvent T P)) → HasTaken had xs → taken_once had xs ≡ had
  unfolding taken_once
  taken_once-skips had [] h = refl
  taken_once-skips had (x ∷ xs) (h, hs) = rw h (taken_once-skips had xs hs)

  -- Sending events again changes nothing for the consumer.
  pub taken_once-again :
      (had ys zs ws : List (BaseEvent T P))
      → taken_once (taken_once had (ys ++ zs)) (zs ++ ws) ≡ taken_once had (ys ++ (zs ++ ws))
  taken_once-again had ys zs ws =
      let had' = taken_once had ys in
      rw
        (
          taken_once-append had ys zs,
          taken_once-append (taken_once had' zs) zs ws,
          taken_once-skips (taken_once had' zs) zs (taken_once-takes had' zs),
          taken_once-append had ys (zs ++ ws),
          taken_once-append had' zs ws,
        )
        refl

  -- What reached the broker in a batch: what was published, and perhaps more of the batch.
  pub reached-extends :
      (publish : OutboxRow T P → Option Error) (arrives : OutboxRow T P → Bool)
      (rows : List (OutboxRow T P))
      → (more : List (OutboxRow T P)) × (rest : List (OutboxRow T P)) × (reached publish arrives
            rows
          ≡ (publish_rows publish rows).0 ++ more)
        × (rows ≡ (publish_rows publish rows).0 ++ (more ++ rest))
  unfolding publish_rows reached
  reached-extends publish arrives [] = ([], [], refl, refl)
  reached-extends publish arrives (r ∷ rows) = elim (Option-cases (publish r)) [
    | inl sent ↦
        let (more, rest, e, f) = reached-extends publish arrives rows in
        (more, rest, ground (arith, e), ground (arith, f))
    | inr (e, stopped) ↦ elim (Bool-cases (arrives r)) [
      | inl arrived ↦ (r ∷ [], rows, ground arith, ground arith)
      | inr missing ↦ ([], r ∷ rows, ground arith, ground arith)
    ]
  ]

  pub take-prefix :
      (n : ℕ) (rows : List (OutboxRow T P))
      → (rest : List (OutboxRow T P)) × (rows ≡ take n rows ++ rest)
  take-prefix zero [] = ([], refl)
  take-prefix (suc n) [] = ([], refl)
  take-prefix zero (r ∷ rows) = (r ∷ rows, refl)
  take-prefix (suc n) (r ∷ rows) = let (rest, e) = take-prefix n rows in (rest, ap (λ xs. r ∷ xs) e)

  events-split :
      (xs ys s m u b : List (OutboxRow T P))
      → xs ≡ ys ++ b
      → ys ≡ s ++ (m ++ u)
      → events xs ≡ events s ++ (events m ++ events (u ++ b))
  events-split xs ys s m u b g f =
      ap events
        (g ∙ ap (λ l. l ++ b) f ∙ append_assoc s (m ++ u) b ∙ ap (λ l. s ++ l) (append_assoc m u b))
      ∙ events-append s (m ++ (u ++ b))
      ∙ ap (λ l. events s ++ l) (events-append m (u ++ b))

  -- The pending events, as a batch finds them: what it publishes, what reached the broker all the same,
  -- and what did not; and those that are pending after it.
  pub events-reached :
      (publish : OutboxRow T P → Option Error) (arrives : OutboxRow T P → Bool) (batch_size : ℕ)
      (table : List (OutboxRow T P))
      → IsNumbered 0 table
      → let (table', sent) = drain_once true batch_size publish table in
        (more : List (BaseEvent T P)) × (rest : List (BaseEvent T P)) × (events
            (reached publish arrives (take batch_size (pending table)))
          ≡ events sent ++ more)
        × (events (pending table) ≡ events sent ++ (more ++ rest))
        × (events (pending table') ≡ more ++ rest)
  unfolding drain_once
  events-reached publish arrives batch_size table n =
      let (more, unsent, e, f) =
        reached-extends publish arrives (take batch_size (pending table)) in
      let (beyond, g) = take-prefix batch_size (pending table) in
      let sent = (publish_rows publish (take batch_size (pending table))).0 in
      let whole =
        events-split (pending table) (take batch_size (pending table)) sent more unsent beyond g
          f in
      (
        events more,
        events (unsent ++ beyond),
        ap events e ∙ events-append sent more,
        whole,
        append_cancel_left (events sent) _ _
            (events-drain_once publish true batch_size table n ∙ whole),
      )

  pub taken_once-new :
      (e : BaseEvent T P) (had : List (BaseEvent T P))
      → is_taken e.event_id had ≡ false
      → taken_once had (e ∷ []) ≡ had ++ e ∷ []
  unfolding taken_once
  taken_once-new e had new = rw new refl

  pub is_taken-events :
      (id : ℕ) (rows : List (OutboxRow T P)) → is_taken id (events rows) ≡ is_staged id rows
  is_taken-events id [] = refl
  is_taken-events id (r ∷ rows) =
      ap (λ b. if r.event.event_id == id then true else b) (is_taken-events id rows)
