-- ===== src/Orders/Log/Relayed.antt =====
-- What the broker has of every order, over any schedule.
use delivery_plus.Prelude.{
  ◌≡◌, sym, ap, ◌∙◌, take, Bool, true, Option, some, List, ◌++◌, length, [], ◌∷◌, ℕ, Bool-cases,
  inl, inr,
}
use mathlib.Core.List.{append_assoc}
use delivery_plus.Shared.Errors.{Error}
use delivery_plus.Shared.Outbox.{
  BaseEvent, OutboxRow, order_events, is_staged, stage_event, pending, drain_once, reached,
}
use delivery_plus.Shared.Outbox.Order.{IsNumbered, events}
use delivery_plus.Shared.Outbox.Staging.{
  events-stage_event, events_kept, events-pending-append, stage_event-IsNumbered,
  drain_once-IsNumbered,
}
use delivery_plus.Shared.Outbox.Resent.{
  taken_once, taken_once-append, taken_once-again, taken_once-new, is_taken-events, events-reached,
}
use delivery_plus.Orders.Outcome.{outcome_for}
use delivery_plus.Orders.Store.{
  Order, OrderEventType, OrderPayload, OrderOutbox, set_status, without_fee_split, new_order,
  find_by_id,
}
use delivery_plus.Orders.Store.Laws.{update_status_cases, create_cases}
use delivery_plus.Orders.Server.{Config, Server, order_event, order_status_event}
use delivery_plus.Orders.Steps.{
  Step, reads, kicks, clears, moves, places, pays, drains, crashes, turns, Reach,
}
use delivery_plus.Orders.Schedule.{Pick, serve, serve-Reach}
use delivery_plus.Orders.Log.{statuses, IsLife, HasDistinctIds, IsLogged}
use delivery_plus.Orders.Log.Staged.{Reach-IsLogged}

-- Rows are numbered, and a consumer that takes each event id once has, with what is pending, all events
-- of the table, in order.
pub record IsRelayed (broker : List (BaseEvent OrderEventType OrderPayload)) (outbox : OrderOutbox)
    : Type 0 where
  pub numbered : IsNumbered 0 outbox
  pub complete : taken_once [] (broker ++ events (pending outbox)) ≡ events outbox

stage_event-IsRelayed :
    (e : BaseEvent OrderEventType OrderPayload)
    (broker : List (BaseEvent OrderEventType OrderPayload)) (outbox : OrderOutbox)
    → IsRelayed broker outbox
    → IsRelayed broker (stage_event order_events e outbox)
unfolding stage_event
stage_event-IsRelayed e broker outbox r = record {
  numbered = stage_event-IsNumbered order_events e outbox r.numbered;
  complete = elim (Bool-cases (is_staged e.event_id outbox)) [
    | inl old ↦ rw (stage_event, old) r.complete
    | inr new ↦
        rw
          (
            events-stage_event order_events e outbox new,
            stage_event,
            new,
            events-pending-append outbox order_events e (length outbox),
            ← append_assoc,
            taken_once-append [] (broker ++ events (pending outbox)) (e ∷ []),
            r.complete,
          )
          (taken_once-new e (events outbox) (is_taken-events e.event_id outbox ∙ new))
  ];
}

-- What is sent again is skipped.
resent :
    (broker sent more rest : List (BaseEvent OrderEventType OrderPayload))
    → taken_once [] (broker ++ (sent ++ more) ++ (more ++ rest))
      ≡ taken_once [] (broker ++ (sent ++ (more ++ rest)))
resent broker sent more rest =
    taken_once-append [] (broker ++ (sent ++ more)) (more ++ rest)
    ∙ ap (λ had. taken_once had (more ++ rest)) (taken_once-append [] broker (sent ++ more))
    ∙ taken_once-again (taken_once [] broker) sent more rest
    ∙ sym (taken_once-append [] broker (sent ++ (more ++ rest)))

drained-IsRelayed :
    (batch_size : ℕ) (publish : OutboxRow OrderEventType OrderPayload → Option Error)
    (arrives : OutboxRow OrderEventType OrderPayload → Bool)
    (broker : List (BaseEvent OrderEventType OrderPayload)) (outbox : OrderOutbox)
    → IsRelayed broker outbox
    → IsRelayed
        (broker ++ events (reached publish arrives (take batch_size (pending outbox))))
        (drain_once true batch_size publish outbox).0
drained-IsRelayed batch_size publish arrives broker outbox r =
    let (more, rest, here, before, after) =
      events-reached publish arrives batch_size outbox r.numbered in
    let sent = events (drain_once true batch_size publish outbox).1 in
    let outbox' = (drain_once true batch_size publish outbox).0 in
    record {
      numbered = drain_once-IsNumbered true batch_size publish outbox r.numbered;
      complete =
          ap (λ x. taken_once [] (broker ++ x ++ events (pending outbox'))) here
          ∙ ap (λ x. taken_once [] (broker ++ (sent ++ more) ++ x)) after
          ∙ resent broker sent more rest
          ∙ ap (λ x. taken_once [] (broker ++ x)) (sym before)
          ∙ r.complete
          ∙ sym (events_kept true batch_size publish outbox);
    }

-- The batch is not committed: all that reached the broker will be sent again.
sent-IsRelayed :
    (batch_size : ℕ) (publish : OutboxRow OrderEventType OrderPayload → Option Error)
    (arrives : OutboxRow OrderEventType OrderPayload → Bool)
    (broker : List (BaseEvent OrderEventType OrderPayload)) (outbox : OrderOutbox)
    → IsRelayed broker outbox
    → IsRelayed
        (broker ++ events (reached publish arrives (take batch_size (pending outbox))))
        outbox
sent-IsRelayed batch_size publish arrives broker outbox r =
    let (more, rest, here, before, after) =
      events-reached publish arrives batch_size outbox r.numbered in
    let sent = events (drain_once true batch_size publish outbox).1 in
    let before' = before ∙ sym (append_assoc sent more rest) in
    record {
      numbered = r.numbered;
      complete =
          ap (λ x. taken_once [] (broker ++ x ++ events (pending outbox))) here
          ∙ ap (λ x. taken_once [] (broker ++ (sent ++ more) ++ x)) before'
          ∙ resent broker [] (sent ++ more) rest
          ∙ ap (λ x. taken_once [] (broker ++ x)) (sym before')
          ∙ r.complete;
    }

Step-IsRelayed :
    (c : Config) {s t : Server}
    → Step c s t
    → IsRelayed s.broker s.db.outbox
    → IsRelayed t.broker t.db.outbox
Step-IsRelayed c (reads s) r = r
Step-IsRelayed c (kicks s) r = r
Step-IsRelayed c (clears s token) r = r
Step-IsRelayed c (moves s id from to role reason m a) r =
    update_status_cases (λ db. IsRelayed s.broker db.outbox) id from to
      (order_event c (order_status_event to)) (outcome_for to role reason) s.db r
      (λ o found status.
        stage_event-IsRelayed
          (order_event c (order_status_event to)
            (without_fee_split (set_status to (outcome_for to role reason) o)))
          s.broker s.db.outbox r)
Step-IsRelayed c (places s n) r =
    create_cases (λ db. IsRelayed s.broker db.outbox) n (order_event c OrderEventType.created) s.db
      r
      (λ free.
        stage_event-IsRelayed (order_event c OrderEventType.created (new_order n s.db)) s.broker
          s.db.outbox r)
Step-IsRelayed c (pays s id status) r = r
Step-IsRelayed c (drains s batch_size (publish, arrives)) r =
    drained-IsRelayed batch_size publish arrives s.broker s.db.outbox r
Step-IsRelayed c (crashes s batch_size (publish, arrives)) r =
    sent-IsRelayed batch_size publish arrives s.broker s.db.outbox r
Step-IsRelayed c (turns s w day) r = r

Reach-IsRelayed :
    (c : Config) {s t : Server}
    → Reach c s t
    → IsRelayed s.broker s.db.outbox
    → IsRelayed t.broker t.db.outbox
Reach-IsRelayed c Reach.here r = r
Reach-IsRelayed c (Reach.next p st) r = Step-IsRelayed c st (Reach-IsRelayed c p r)

-- Provided that lifecycle ids of different orders or types differ, and from a server whose tables agree
-- and whose broker has all that is not pending: after any interleaving of requests, events and relay
-- batches, with any failures of the broker, any lost acknowledgements and any crashes between a
-- publish and the commit of its batch, a consumer that takes each event id once has, from what the
-- broker has reported of an order in the table followed by what is pending, its life, from CREATED
-- along the table of transitions to the status that it has now.
pub broker_has_lives :
    (c : Config) (picks : List Pick) (s : Server) (id : ℕ) (o : Order)
    → HasDistinctIds c
    → IsLogged c s.db
    → IsRelayed s.broker s.db.outbox
    → find_by_id id (serve c picks s).db.orders ≡ some o
    → IsLife
        (statuses id (
          taken_once [] ((serve c picks s).broker ++ events (pending (serve c picks s).db.outbox))))
        o.status
broker_has_lives c picks s id o distinct l r found =
    let relayed = Reach-IsRelayed c (serve-Reach c picks s) r in
    let logged = Reach-IsLogged c distinct (serve-Reach c picks s) l in
    rw relayed.complete (logged.lives id o found)
