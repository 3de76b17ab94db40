-- ===== src/Shared/Outbox.antt =====
-- The transactional outbox (shared/src/outbox/outbox.ts). A table is the list of its rows in the
-- order of their ids. A row's id is its place: transactions stage one after another. In the source
-- `bigserial` draws the id before the commit, so transactions of different orders that run at once may
-- commit in another order than that of their ids, and the relay publishes what it finds committed;
-- those of one order wait for each other at the row that they update.
-- Time stamps are left out: a row is published or not. An advisory lock and a transaction make one
-- batch a single step on the table.
pub mod Order
pub mod Staging
pub mod Resent
mod Tests
use delivery_plus.Prelude.{
  ℕ, suc, ◌+◌, Bool, true, false, Option, none, some, List, [], ◌∷◌, ◌++◌, ◌==◌, length, take,
  if◌then◌else◌,
}
use delivery_plus.Shared.Errors.{Error}

pub data Topic : Type 0 where
  order_events payment_events delivery_events : Topic

-- `BaseEvent`; the time stamp and the correlation id are not modelled.
pub record BaseEvent (T P : Type 0) : Type 0 where
  pub event_id : ℕ
  pub event_type : T
  pub payload : P

pub record OutboxRow (T P : Type 0) : Type 0 where
  pub id : ℕ
  pub topic : Topic
  pub event : BaseEvent T P
  pub published : Bool
  pub attempts : ℕ
  pub last_error : Option Error

abbrev pub mem_id : ℕ → List ℕ → Bool
mem_id i [] = false
mem_id i (j ∷ ids) = if j == i then true else mem_id i ids

module _ {T P : Type 0} where
  abbrev pub is_staged : ℕ → List (OutboxRow T P) → Bool
  is_staged id [] = false
  is_staged id (r ∷ rows) = if r.event.event_id == id then true else is_staged id rows

  abbrev pub new_row : ℕ → Topic → BaseEvent T P → OutboxRow T P
  new_row id topic e = record {
    id = id;
    topic = topic;
    event = e;
    published = false;
    attempts = 0;
    last_error = none;
  }

  -- INSERT … ON CONFLICT ("event_id") DO NOTHING
  unfoldable pub stage_event : Topic → BaseEvent T P → List (OutboxRow T P) → List (OutboxRow T P)
  stage_event topic e rows =
      if is_staged e.event_id rows then rows else rows ++ new_row (length rows) topic e ∷ []

  -- WHERE "published_at" IS NULL ORDER BY "id"
  abbrev pub pending : List (OutboxRow T P) → List (OutboxRow T P)
  pending [] = []
  pending (r ∷ rows) = if r.published then pending rows else r ∷ pending rows

  -- The loop over the selected rows. `publish` is what the broker answers for a row. It gives the
  -- rows that were published, in order, and the row at which the batch stopped.
  unfoldable pub publish_rows :
      (OutboxRow T P → Option Error)
      → List (OutboxRow T P)
      → List (OutboxRow T P) × Option (OutboxRow T P × Error)
  publish_rows publish [] = ([], none)
  publish_rows publish (r ∷ rows) = elim (publish r) [
    | none ↦ let (sent, failure) = publish_rows publish rows in (r ∷ sent, failure)
    | some e ↦ ([], some (r, e))
  ]

  -- The rows of that loop that reached the broker: those it acknowledged, and the one at which the batch
  -- stopped, where `arrives` says that only the answer was lost.
  unfoldable pub reached :
      (OutboxRow T P → Option Error)
      → (OutboxRow T P → Bool)
      → List (OutboxRow T P)
      → List (OutboxRow T P)
  reached publish arrives [] = []
  reached publish arrives (r ∷ rows) = elim (publish r) [
    | none ↦ r ∷ reached publish arrives rows
    | some e ↦ if arrives r then r ∷ [] else []
  ]

  -- SET "attempts" = "attempts" + 1, "last_error" = … WHERE "id" = …
  unfoldable pub record_failure :
      Option (OutboxRow T P × Error) → List (OutboxRow T P) → List (OutboxRow T P)
  record_failure none rows = rows
  record_failure (some (f, e)) [] = []
  record_failure (some (f, e)) (r ∷ rows) =
      (if r.id == f.id then record r { attempts = r.attempts + 1; last_error = some e } else r)
      ∷ record_failure (some (f, e)) rows

  abbrev pub row_ids : List (OutboxRow T P) → List ℕ
  row_ids [] = []
  row_ids (r ∷ rows) = r.id ∷ row_ids rows

  -- SET "published_at" = now() WHERE "id" = ANY(…)
  unfoldable pub mark_published : List ℕ → List (OutboxRow T P) → List (OutboxRow T P)
  mark_published ids [] = []
  mark_published ids (r ∷ rows) =
      (if mem_id r.id ids then record r { published = true } else r) ∷ mark_published ids rows

  -- One batch: the table after it, and the rows that it published, in order. `locked` says whether
  -- this relay got the advisory lock.
  unfoldable pub drain_once :
      Bool
      → ℕ
      → (OutboxRow T P → Option Error)
      → List (OutboxRow T P)
      → List (OutboxRow T P) × List (OutboxRow T P)
  drain_once locked batch_size publish table =
      if locked
      then (let (sent, failure) = publish_rows publish (take batch_size (pending table)) in
          (mark_published (row_ids sent) (record_failure failure table), sent))
      else (table, [])
