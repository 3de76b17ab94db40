-- ===== src/Shared/Outbox/Staging.antt =====
-- What staging an event, and a batch of the relay, do to the events of the table.
use delivery_plus.Prelude.{
  ℕ, suc, ◌+◌, ◌≡◌, refl, Bool, true, false, Option, none, some, List, [], ◌∷◌, subst, ◌++◌, ◌∙◌,
  arith, length, take,
}
use delivery_plus.Shared.Errors.{Error}
use delivery_plus.Shared.Outbox.{
  Topic, BaseEvent, OutboxRow, is_staged, new_row, stage_event, pending, publish_rows,
  record_failure, row_ids, mark_published, drain_once,
}
use delivery_plus.Shared.Outbox.Order.{
  IsNumbered, events, mark_published-IsNumbered, record_failure-IsNumbered,
}

module _ {T P : Type 0} where
  pub stage_event-IsNumbered :
      (topic : Topic) (e : BaseEvent T P) (rows : List (OutboxRow T P))
      → IsNumbered 0 rows
      → IsNumbered 0 (stage_event topic e rows)
  unfolding stage_event
  stage_event-IsNumbered topic e rows n = ground (arith, at_end 0 rows n)
    where
      at_end :
          (k : ℕ) (rows : List (OutboxRow T P))
          → IsNumbered k rows
          → IsNumbered k (rows ++ new_row (k + length rows) topic e ∷ [])
      at_end k [] n = omega arith
      at_end k (r ∷ rows) n = (
        n.0,
        subst (λ m. IsNumbered (suc k) (rows ++ new_row m topic e ∷ [])) (omega arith)
            (at_end (suc k) rows n.1),
      )

  pub drain_once-IsNumbered :
      (locked : Bool) (batch_size : ℕ) (publish : OutboxRow T P → Option Error)
      (table : List (OutboxRow T P))
      → IsNumbered 0 table
      → IsNumbered 0 (drain_once locked batch_size publish table).0
  unfolding drain_once
  drain_once-IsNumbered true batch_size publish table n =
      let (sent, failure) = publish_rows publish (take batch_size (pending table)) in
      mark_published-IsNumbered (row_ids sent) 0 (record_failure failure table)
        (record_failure-IsNumbered failure 0 table n)
  drain_once-IsNumbered false batch_size publish table n = n

  pub events-append : (xs ys : List (OutboxRow T P)) → events (xs ++ ys) ≡ events xs ++ events ys
  events-append [] ys = refl
  events-append (x ∷ xs) ys = cc (events-append xs ys)

  -- What an insert with a new id, and with an id that is there, does to the events of the table.
  pub events-stage_event :
      (topic : Topic) (e : BaseEvent T P) (rows : List (OutboxRow T P))
      → is_staged e.event_id rows ≡ false
      → events (stage_event topic e rows) ≡ events rows ++ e ∷ []
  unfolding stage_event
  events-stage_event topic e rows new =
      rw (new, events-append rows (new_row (length rows) topic e ∷ []))

  events-mark_published :
      (ids : List ℕ) (rows : List (OutboxRow T P)) → events (mark_published ids rows) ≡ events rows
  unfolding mark_published
  events-mark_published ids [] = refl
  events-mark_published ids (r ∷ rows) = ground (arith, events-mark_published ids rows)

  events-record_failure :
      (f : Option (OutboxRow T P × Error)) (rows : List (OutboxRow T P))
      → events (record_failure f rows) ≡ events rows
  unfolding record_failure
  events-record_failure none rows = refl
  events-record_failure (some (f, e)) [] = refl
  events-record_failure (some (f, e)) (r ∷ rows) =
      ground (arith, events-record_failure (some (f, e)) rows)

  -- A batch removes no row and changes no event.
  pub events_kept :
      (locked : Bool) (batch_size : ℕ) (publish : OutboxRow T P → Option Error)
      (table : List (OutboxRow T P))
      → events (drain_once locked batch_size publish table).0 ≡ events table
  unfolding drain_once
  events_kept true batch_size publish table =
      let (sent, failure) = publish_rows publish (take batch_size (pending table)) in
      events-mark_published (row_ids sent) (record_failure failure table)
      ∙ events-record_failure failure table
  events_kept false batch_size publish table = refl

  pub events-pending-append :
      (xs : List (OutboxRow T P)) (topic : Topic) (e : BaseEvent T P) (id : ℕ)
      → events (pending (xs ++ new_row id topic e ∷ [])) ≡ events (pending xs) ++ e ∷ []
  events-pending-append [] topic e id = refl
  events-pending-append (x ∷ xs) topic e id = ground (arith, events-pending-append xs topic e id)
