-- ===== src/Shared/Outbox/Order.antt =====
-- The relay publishes in order: what a batch sent and what is still pending is what was pending.
use delivery_plus.Prelude.{
  ℕ, zero, suc, ◌<◌, ◌≡◌, refl, Bool, true, false, Option, none, some, List, [], ◌∷◌, ◌++◌, arith,
  take, Bool-cases, Option-cases, inl, inr,
}
use delivery_plus.Shared.Errors.{Error}
use delivery_plus.Shared.Outbox.{
  BaseEvent, OutboxRow, pending, publish_rows, record_failure, row_ids, mark_published, drain_once,
}

module _ {T P : Type 0} where
  -- The ids are the places, from `k` on.
  abbrev pub IsNumbered : ℕ → List (OutboxRow T P) → Type 0
  IsNumbered k [] = Unit
  IsNumbered k (r ∷ rows) = (r.id ≡ k) × IsNumbered (suc k) rows

  abbrev pub events : List (OutboxRow T P) → List (BaseEvent T P)
  events [] = []
  events (r ∷ rows) = r.event ∷ events rows

  mark_published_below :
      (j k : ℕ) (ids : List ℕ) (rows : List (OutboxRow T P))
      → IsNumbered k rows
      → j < k
      → mark_published (j ∷ ids) rows ≡ mark_published ids rows
  unfolding mark_published
  mark_published_below j k ids [] n h = refl
  mark_published_below j k ids (r ∷ rows) n h =
      ground (arith, mark_published_below j (suc k) ids rows n.1)

  pub record_failure-IsNumbered :
      (f : Option (OutboxRow T P × Error)) (k : ℕ) (rows : List (OutboxRow T P))
      → IsNumbered k rows
      → IsNumbered k (record_failure f rows)
  unfolding record_failure
  record_failure-IsNumbered none k rows n = n
  record_failure-IsNumbered (some (f, e)) k [] n = tt
  record_failure-IsNumbered (some (f, e)) k (r ∷ rows) n =
      ground (arith, record_failure-IsNumbered (some (f, e)) (suc k) rows n.1)

  pub mark_published-IsNumbered :
      (ids : List ℕ) (k : ℕ) (rows : List (OutboxRow T P))
      → IsNumbered k rows
      → IsNumbered k (mark_published ids rows)
  unfolding mark_published
  mark_published-IsNumbered ids k [] n = tt
  mark_published-IsNumbered ids k (r ∷ rows) n =
      ground (arith, mark_published-IsNumbered ids (suc k) rows n.1)

  events-pending-mark_published_nil :
      (rows : List (OutboxRow T P))
      → events (pending (mark_published [] rows)) ≡ events (pending rows)
  unfolding mark_published
  events-pending-mark_published_nil [] = refl
  events-pending-mark_published_nil (r ∷ rows) =
      ground (arith, events-pending-mark_published_nil rows)

  -- A failure is only noted.
  events-pending-mark_published-record_failure :
      (f : Option (OutboxRow T P × Error)) (ids : List ℕ) (rows : List (OutboxRow T P))
      → events (pending (mark_published ids (record_failure f rows)))
        ≡ events (pending (mark_published ids rows))
  unfolding mark_published record_failure
  events-pending-mark_published-record_failure none ids rows = refl
  events-pending-mark_published-record_failure (some (f, e)) ids [] = refl
  events-pending-mark_published-record_failure (some (f, e)) ids (r ∷ rows) =
      ground (arith, events-pending-mark_published-record_failure (some (f, e)) ids rows)

  module _ (publish : OutboxRow T P → Option Error) where
    events-mark_published :
        (k limit : ℕ) (rows : List (OutboxRow T P))
        → IsNumbered k rows
        → let sent = (publish_rows publish (take limit (pending rows))).0 in
          events sent ++ events (pending (mark_published (row_ids sent) rows))
          ≡ events (pending rows)
    unfolding publish_rows mark_published
    events-mark_published k zero [] n = refl
    events-mark_published k (suc limit) [] n = refl
    events-mark_published k zero (r ∷ rows) n = events-pending-mark_published_nil (r ∷ rows)
    events-mark_published k (suc limit) (r ∷ rows) n = elim (Bool-cases r.published) [
      | inl old ↦ ground (arith, events-mark_published (suc k) (suc limit) rows n.1)
      | inr new ↦ elim (Option-cases (publish r)) [
        | inl sent ↦ ground (
          arith,
          events-mark_published (suc k) limit rows n.1,
          mark_published_below r.id (suc k)
              (row_ids (publish_rows publish (take limit (pending rows))).0) rows n.1,
        )
        | inr (e, stopped) ↦ ground (arith, events-pending-mark_published_nil rows)
      ]
    ]

    -- Whatever the broker answers, a batch sends pending events oldest first, and what it sent followed
    -- by what is pending after it is what was pending before: none is lost, skipped, repeated or overtaken.
    pub events-drain_once :
        (locked : Bool) (batch_size : ℕ) (table : List (OutboxRow T P))
        → IsNumbered 0 table
        → let (table', sent) = drain_once locked batch_size publish table in
          events sent ++ events (pending table') ≡ events (pending table)
    unfolding drain_once
    events-drain_once true batch_size table n = ground (
      arith,
      events-mark_published 0 batch_size table n,
      events-pending-mark_published-record_failure
          (publish_rows publish (take batch_size (pending table))).1
          (row_ids (publish_rows publish (take batch_size (pending table))).0) table,
    )
    events-drain_once false batch_size table n = refl
