-- ===== src/Shared/Outbox/Tests.antt =====
-- The relay on a table of three events, with a broker that refuses the second.
use delivery_plus.Prelude.{
  ℕ, ◌≡◌, refl, true, Option, none, some, List, [], ◌∷◌, ◌++◌, ◌==◌, if◌then◌else◌,
}
use delivery_plus.Shared.Errors.{Error, conflict}
use delivery_plus.Shared.Outbox.{
  BaseEvent, OutboxRow, order_events, new_row, pending, publish_rows, record_failure,
  mark_published, drain_once,
}
use delivery_plus.Shared.Outbox.Order.{events, events-drain_once}

abbrev event : ℕ → BaseEvent ℕ ℕ
event id = record { event_id = id; event_type = 0; payload = id }

abbrev table : List (OutboxRow ℕ ℕ)
table =
    new_row 0 order_events (event 5)
    ∷ new_row 1 order_events (event 6)
    ∷ new_row 2 order_events (event 7)
    ∷ []

abbrev refuses_one : OutboxRow ℕ ℕ → Option Error
refuses_one row = if row.id == 1 then some conflict else none

-- The batch stops at the refused event: the third does not overtake it.
sent : events (drain_once true 5 refuses_one table).1 ≡ event 5 ∷ []
unfolding drain_once publish_rows
sent = refl

left : events (pending (drain_once true 5 refuses_one table).0) ≡ event 6 ∷ event 7 ∷ []
unfolding drain_once publish_rows record_failure mark_published
left = refl

events-drain_once_example :
    events (drain_once true 5 refuses_one table).1
      ++ events (pending (drain_once true 5 refuses_one table).0)
    ≡ event 5 ∷ event 6 ∷ event 7 ∷ []
events-drain_once_example = events-drain_once refuses_one true 5 table (refl, (refl, (refl, tt)))
