-- ===== src/Orders/Log/Staged.antt =====
-- The outbox holds the whole life of every order, over any schedule.
use delivery_plus.Prelude.{
  ℕ, suc, ◌<◌, ◌≤◌, ◌≡◌, refl, sym, ◌∙◌, ap, subst, ==_iff, All-mono, true, false, Option, none,
  some, List, [], ◌∷◌, ◌++◌, arith, ◌==◌, All, Bool-cases, Option-cases, inl, inr, if◌then◌else◌,
  includes,
}
use mathlib.Core.List.{append-nil}
use delivery_plus.Shared.Enums.{UserRole, OrderStatus, OrderStatus-discrete}
use delivery_plus.Shared.Text.{Text}
use delivery_plus.Shared.Lifecycle.{OrderMoves, OrderMoves-rank}
use delivery_plus.Shared.Outbox.{BaseEvent, OutboxRow, order_events, is_staged, stage_event}
use delivery_plus.Shared.Outbox.Order.{events}
use delivery_plus.Shared.Outbox.Staging.{events-stage_event, events_kept}
use delivery_plus.Orders.Outcome.{OrderPaymentStatus, OrderOutcome, outcome_for}
use delivery_plus.Orders.Store.{
  Order, OrderEventType, OrderPayload, Database, NewOrder, find_by_id, put, set_status, new_order,
  record_payment_status, without_fee_split,
}
use delivery_plus.Orders.Store.Laws.{
  find_by_id-id, find_by_id-put, find_by_id-All, put-All, set_status-id, record_payment_status-All,
  find_by_id-record_payment_status, pay, update_status_cases, create_cases,
}
use delivery_plus.Orders.Server.{Config, Server, order_event, order_status_event}
use delivery_plus.Orders.Steps.{
  moved, placed, Step, reads, kicks, clears, moves, places, pays, drains, crashes, turns, Reach,
}
use delivery_plus.Orders.Schedule.{Pick, serve, serve-Reach}
use delivery_plus.Orders.Log.{
  statuses, IsLife, born, grown, IsLife-rank, IsLifecycleEvent, HasDistinctIds, IsLogged, IsPlaced,
  Keeps,
}

order_status_event-injective :
    (s t : OrderStatus) → order_status_event s ≡ order_status_event t → t ≡ s
unfolding order_status_event
order_status_event-injective OrderStatus.created t h = ground arith
order_status_event-injective OrderStatus.payment_pending t h = ground arith
order_status_event-injective OrderStatus.confirmed t h = ground arith
order_status_event-injective OrderStatus.failed t h = ground arith
order_status_event-injective OrderStatus.cancelled t h = ground arith
order_status_event-injective OrderStatus.preparing t h = ground arith
order_status_event-injective OrderStatus.ready_for_pickup t h = ground arith
order_status_event-injective OrderStatus.driver_assigned t h = ground arith
order_status_event-injective OrderStatus.picked_up t h = ground arith
order_status_event-injective OrderStatus.delivered t h = ground arith

abbrev Log : Type 0
Log = List (BaseEvent OrderEventType OrderPayload)

statuses-snoc :
    (id : ℕ) (e : BaseEvent OrderEventType OrderPayload) (es : Log)
    → statuses id (es ++ e ∷ [])
      ≡ statuses id es ++ (if e.payload.order_id == id then e.payload.status ∷ [] else [])
statuses-snoc id e [] = ground arith
statuses-snoc id e (x ∷ es) = ground (arith, statuses-snoc id e es)

statuses_fresh : (id : ℕ) (es : Log) → All (λ e. e.payload.order_id < id) es → statuses id es ≡ []
statuses_fresh id [] h = refl
statuses_fresh id (e ∷ es) (h, hs) = ground (arith, statuses_fresh id es hs)

All-snoc {ℓ κ} :
    {A : Type ℓ} (P : A → Type κ) (x : A) (xs : List A) → All P xs → P x → All P (xs ++ x ∷ [])
All-snoc P x [] h p = (p, tt)
All-snoc P x (y ∷ ys) (h, hs) p = (h, All-snoc P x ys hs p)

-- The event reports that the order has the status.
abbrev Reports : Config → ℕ → OrderStatus → BaseEvent OrderEventType OrderPayload → Type 0
Reports c id s e =
    (e.payload.order_id ≡ id)
    × (e.payload.status ≡ s)
    × (e.event_id ≡ c.lifecycle_event_id id (order_status_event s))
    × (e.event_type ≡ order_status_event s)

moved_event :
    (c : Config) (to : OrderStatus) (outcome : Option OrderOutcome) (o : Order)
    → Reports c o.id to
        (order_event c (order_status_event to) (without_fee_split (set_status to outcome o)))
unfolding order_event without_fee_split
moved_event c to none o = (refl, refl, refl, refl)
moved_event c to (some outcome) o = (refl, refl, refl, refl)

moved_status :
    (to : OrderStatus) (outcome : Option OrderOutcome) (o : Order)
    → (set_status to outcome o).status ≡ to
moved_status to none o = refl
moved_status to (some outcome) o = refl

-- A status that an order may move to is not yet in its life.
not_lived :
    (s t : OrderStatus) (life : List OrderStatus)
    → IsLife life s
    → OrderMoves s t
    → includes OrderStatus-discrete t life ≡ false
not_lived s t life l m = elim (Bool-cases (includes OrderStatus-discrete t life)) [
  | inl lived ↦ absurd (omega (arith, IsLife-rank t l lived, OrderMoves-rank s t m))
  | inr new ↦ new
]

-- The life of the order that was written, and of another, after one more event.
here-IsLife :
    (i j : ℕ) (life : List OrderStatus) (s t : OrderStatus)
    → (i == j) ≡ true
    → IsLife life s
    → OrderMoves s t
    → IsLife (life ++ (if i == j then t ∷ [] else [])) t
here-IsLife i j life s t eq l m = rw eq (grown l m refl)

first-IsLife :
    (i j : ℕ) (es : Log) (s : OrderStatus)
    → (i == j) ≡ true
    → statuses i es ≡ []
    → s ≡ OrderStatus.created
    → IsLife (statuses j es ++ (if i == j then OrderStatus.created ∷ [] else [])) s
first-IsLife i j es s eq none_yet e = rw (eq, e, ← (==_iff i j).0 eq, none_yet) born

elsewhere-IsLife :
    (i j : ℕ) (life : List OrderStatus) (s t : OrderStatus)
    → (i == j) ≡ false
    → IsLife life s
    → IsLife (life ++ (if i == j then t ∷ [] else [])) s
elsewhere-IsLife i j life s t ne l = rw (ne, append-nil) l

paid_status :
    (id j : ℕ) (status : OrderPaymentStatus) (orders : List Order) (p : Order)
    → find_by_id j (record_payment_status id status orders) ≡ some p
    → (o : Order) × (find_by_id j orders ≡ some o) × (o.status ≡ p.status)
paid_status id j status orders p h = elim (Option-cases (find_by_id j orders)) [
  | inl missing ↦ absurd (ground (arith, find_by_id-record_payment_status id j status orders))
  | inr (o, found) ↦ (o, found, ground (arith, find_by_id-record_payment_status id j status orders))
]

-- A read after a write: the order that was written, or another as it was.
put_cases {ℓ} :
    (P : Order → Type ℓ) (id j : ℕ) (o o' p : Order) (orders : List Order)
    → find_by_id id orders ≡ some o
    → o'.id ≡ id
    → find_by_id j (put id o' orders) ≡ some p
    → ((id == j) ≡ true → P o')
    → ((id == j) ≡ false → find_by_id j orders ≡ some p → P p)
    → P p
put_cases P id j o o' p orders found same_id h written other = elim (Bool-cases (id == j)) [
  | inl eq ↦ subst P (ground (arith, find_by_id-put id j o o' orders found same_id)) (written eq)
  | inr ne ↦ other ne (ground (arith, find_by_id-put id j o o' orders found same_id))
]

-- A write keeps the orders of the table.
put-Keeps :
    (id : ℕ) (o o' : Order) (orders : List Order)
    → find_by_id id orders ≡ some o
    → o'.id ≡ id
    → Keeps orders (put id o' orders)
put-Keeps id o o' orders found same_id j (p, known) = elim (Bool-cases (id == j)) [
  | inl eq ↦ (o', rw (find_by_id-put id j o o' orders found same_id, eq) refl)
  | inr ne ↦ (p, rw (find_by_id-put id j o o' orders found same_id, ne) known)
]

record_payment_status-Keeps :
    (id : ℕ) (status : OrderPaymentStatus) (orders : List Order)
    → Keeps orders (record_payment_status id status orders)
record_payment_status-Keeps id status orders j (p, known) = elim (Bool-cases (id == j)) [
  | inl eq ↦
      (pay status p, rw (find_by_id-record_payment_status id j status orders, eq, known) refl)
  | inr ne ↦ (p, rw (find_by_id-record_payment_status id j status orders, ne) known)
]

cons-Keeps : (o : Order) (n : ℕ) (orders : List Order) → o.id ≡ n → Keeps orders (o ∷ orders)
unfolding find_by_id
cons-Keeps o n orders e j (p, known) = elim (Bool-cases (o.id == j)) [
  | inl eq ↦ (o, rw eq refl)
  | inr ne ↦ (p, rw ne known)
]

module _ (c : Config) (distinct : HasDistinctIds c) where
  -- An id that is in the table is that of a status that the table reports.
  staged_status :
      (id : ℕ) (to : OrderStatus) (rows : List (OutboxRow OrderEventType OrderPayload))
      → All (IsLifecycleEvent c) (events rows)
      → is_staged (c.lifecycle_event_id id (order_status_event to)) rows ≡ true
      → includes OrderStatus-discrete to (statuses id (events rows)) ≡ true
  staged_status id to [] h k = cc
  staged_status id to (r ∷ rows) ((h, t), hs) k =
      elim (Bool-cases (r.event.event_id == c.lifecycle_event_id id (order_status_event to))) [
        | inl eq ↦
            let (same_id, same_type) =
              distinct r.event.payload.order_id id r.event.event_type (order_status_event to) (
                sym h
                ∙ (==_iff r.event.event_id (c.lifecycle_event_id id (order_status_event to))).0
                    eq) in
            ground
              (arith, order_status_event-injective r.event.payload.status to (sym t ∙ same_type))
        | inr ne ↦ ground (arith, staged_status id to rows hs)
      ]

  not_staged :
      (id : ℕ) (to : OrderStatus) (e : BaseEvent OrderEventType OrderPayload)
      (rows : List (OutboxRow OrderEventType OrderPayload))
      → All (IsLifecycleEvent c) (events rows)
      → Reports c id to e
      → includes OrderStatus-discrete to (statuses id (events rows)) ≡ false
      → is_staged e.event_id rows ≡ false
  not_staged id to e rows l (oid, st, eid, ty) new =
      rw eid (elim (Bool-cases (is_staged (c.lifecycle_event_id id (order_status_event to)) rows)) [
        | inl staged ↦ absurd (ground (arith, staged_status id to rows l staged))
        | inr absent ↦ absent
      ])

  -- The tables after an event is staged that is not in the outbox.
  grown-IsLogged :
      (db : Database) (orders' : List Order) (next_id' id : ℕ) (s : OrderStatus)
      (e : BaseEvent OrderEventType OrderPayload)
      → IsLogged c db
      → Reports c id s e
      → is_staged e.event_id db.outbox ≡ false
      → db.next_id ≤ next_id'
      → id < next_id'
      → All (λ o. o.id < next_id') orders'
      → Keeps db.orders orders'
      → IsPlaced orders' id
      → ((j : ℕ) (o : Order)
          → find_by_id j orders' ≡ some o
          → IsLife (statuses j (events db.outbox) ++ (if id == j then s ∷ [] else [])) o.status)
      → IsLogged c (record db {
        orders = orders';
        outbox = stage_event order_events e db.outbox;
        next_id = next_id';
      })
  grown-IsLogged db orders' next_id' id s e l (oid, st, eid, ty) new le lt fresh kept mine lives' =
      let es = events-stage_event order_events e db.outbox new in
      record {
        orders_fresh = fresh;
        events_fresh = rw es (
            All-snoc (λ e. e.payload.order_id < next_id') e (events db.outbox)
              (All-mono (λ e. e.payload.order_id < db.next_id) (λ e. e.payload.order_id < next_id')
                (events db.outbox) (λ e h. omega arith) l.events_fresh)
              (subst (λ i. i < next_id') (sym oid) lt));
        lifecycle = rw es (
            All-snoc (IsLifecycleEvent c) e (events db.outbox) l.lifecycle (
              eid
                  ∙ ap (λ i. c.lifecycle_event_id i (order_status_event s)) (sym oid)
                  ∙ ap (c.lifecycle_event_id e.payload.order_id) (sym ty),
              ty ∙ ap order_status_event (sym st),
            ));
        placed = rw es (
            All-snoc (λ e. IsPlaced orders' e.payload.order_id) e (events db.outbox)
              (All-mono (λ e. IsPlaced db.orders e.payload.order_id)
                (λ e. IsPlaced orders' e.payload.order_id) (events db.outbox)
                (λ e h. kept e.payload.order_id h) l.placed)
              (subst (IsPlaced orders') (sym oid) mine));
        lives = λ j o h. rw (es, statuses-snoc j e (events db.outbox), oid, st) (lives' j o h);
      }

  moved-IsLogged :
      (s : Server) (id : ℕ) (from to : OrderStatus) (role : UserRole) (reason : Option Text)
      → OrderMoves from to
      → IsLogged c s.db
      → IsLogged c (moved c id from to role reason s).db
  moved-IsLogged s id from to role reason m l =
      update_status_cases (IsLogged c) id from to (order_event c (order_status_event to))
        (outcome_for to role reason) s.db l
        (λ o found status.
          let outcome = outcome_for to role reason in
          let o' = set_status to outcome o in
          let same_id = find_by_id-id id s.db.orders o found in
          let kept_id = set_status-id to outcome o ∙ same_id in
          let below =
            find_by_id-All (λ x. x.id < s.db.next_id) id s.db.orders o l.orders_fresh found in
          let life =
            subst (λ i. IsLife (statuses i (events s.db.outbox)) o.status) (sym same_id)
              (l.lives id o found) in
          let move = subst (λ x. OrderMoves x to) (sym status) m in
          let reported = moved_event c to outcome o in
          let event = order_event c (order_status_event to) (without_fee_split o') in
          grown-IsLogged s.db (put id o' s.db.orders) s.db.next_id o.id to event l reported
            (not_staged o.id to event s.db.outbox l.lifecycle reported
              (not_lived o.status to (statuses o.id (events s.db.outbox)) life move))
            (omega arith) below
            (put-All (λ x. x.id < s.db.next_id) id o' s.db.orders l.orders_fresh
              (subst (λ i. i < s.db.next_id) (sym (set_status-id to outcome o)) below))
            (put-Keeps id o o' s.db.orders found kept_id)
            (put-Keeps id o o' s.db.orders found kept_id o.id
              (o, subst (λ i. find_by_id i s.db.orders ≡ some o) (sym same_id) found))
            (λ j p h.
              put_cases
                (λ x.
                  IsLife (statuses j (events s.db.outbox) ++ (if o.id == j then to ∷ [] else []))
                    x.status)
                id j o o' p s.db.orders found kept_id h
                (λ eq. rw (moved_status to outcome o) (
                  here-IsLife o.id j (statuses j (events s.db.outbox)) o.status to (rw same_id eq)
                    (l.lives j o (rw (← (==_iff id j).0 eq) found)) move))
                (λ ne known.
                  elsewhere-IsLife o.id j (statuses j (events s.db.outbox)) p.status to
                    (rw same_id ne) (l.lives j p known))))

  placed-IsLogged : (s : Server) (n : NewOrder) → IsLogged c s.db → IsLogged c (placed c n s).db
  unfolding new_order order_event order_status_event find_by_id
  placed-IsLogged s n l =
      create_cases (IsLogged c) n (order_event c OrderEventType.created) s.db l (λ free.
        let none_yet = statuses_fresh s.db.next_id (events s.db.outbox) l.events_fresh in
        let event = order_event c OrderEventType.created (new_order n s.db) in
        grown-IsLogged s.db (new_order n s.db ∷ s.db.orders) (suc s.db.next_id) s.db.next_id
          OrderStatus.created event l (refl, refl, refl, refl)
          (not_staged s.db.next_id OrderStatus.created event s.db.outbox l.lifecycle
            (refl, refl, refl, refl) (rw none_yet))
          (omega arith) (omega arith)
          (
            omega arith,
            All-mono (λ x. x.id < s.db.next_id) (λ x. x.id < suc s.db.next_id) s.db.orders
                (λ x h. omega arith) l.orders_fresh,
          )
          (cons-Keeps (new_order n s.db) s.db.next_id s.db.orders refl)
          (new_order n s.db, rw ((==_iff s.db.next_id s.db.next_id).1 refl) refl)
          (λ j p h. elim (Bool-cases (s.db.next_id == j)) [
            | inl eq ↦
                first-IsLife s.db.next_id j (events s.db.outbox) p.status eq none_yet (ground arith)
            | inr ne ↦
                elsewhere-IsLife s.db.next_id j (statuses j (events s.db.outbox)) p.status
                  OrderStatus.created ne (l.lives j p (ground arith))
          ]))

  paid-IsLogged :
      (s : Server) (id : ℕ) (status : OrderPaymentStatus)
      → IsLogged c s.db
      → IsLogged c (record (s.db) { orders = record_payment_status id status s.db.orders })
  paid-IsLogged s id status l = record {
    orders_fresh =
        record_payment_status-All (λ x. x.id < s.db.next_id) id status s.db.orders
          (λ o h. ground arith) l.orders_fresh;
    events_fresh = l.events_fresh;
    lifecycle = l.lifecycle;
    placed =
        All-mono (λ e. IsPlaced s.db.orders e.payload.order_id) _ (events s.db.outbox)
          (λ e. record_payment_status-Keeps id status s.db.orders e.payload.order_id) l.placed;
    lives = λ j p h.
        let (o, found, kept) = paid_status id j status s.db.orders p h in
        subst (IsLife (statuses j (events s.db.outbox))) kept (l.lives j o found);
  }

  Step-IsLogged : {s t : Server} → Step c s t → IsLogged c s.db → IsLogged c t.db
  Step-IsLogged (reads s) l = l
  Step-IsLogged (kicks s) l = l
  Step-IsLogged (clears s token) l = l
  Step-IsLogged (moves s id from to role reason m r) l = moved-IsLogged s id from to role reason m l
  Step-IsLogged (places s n) l = placed-IsLogged s n l
  Step-IsLogged (pays s id status) l = paid-IsLogged s id status l
  Step-IsLogged (crashes s batch_size answers) l = l
  Step-IsLogged (drains s batch_size (publish, arrives)) l =
      let kept = events_kept true batch_size publish s.db.outbox in
      record {
        orders_fresh = l.orders_fresh;
        events_fresh = rw kept l.events_fresh;
        lifecycle = rw kept l.lifecycle;
        placed = rw kept l.placed;
        lives = λ j p h. rw kept (l.lives j p h);
      }
  Step-IsLogged (turns s w day) l = record {
    orders_fresh = l.orders_fresh;
    events_fresh = l.events_fresh;
    lifecycle = l.lifecycle;
    placed = l.placed;
    lives = l.lives;
  }

  pub Reach-IsLogged : {s t : Server} → Reach c s t → IsLogged c s.db → IsLogged c t.db
  Reach-IsLogged Reach.here l = l
  Reach-IsLogged (Reach.next r st) l = Step-IsLogged st (Reach-IsLogged r l)

-- Provided that lifecycle ids of different orders or types differ, and from tables that agree: over any
-- interleaving of requests, events and relay batches, every staged event is of an order that is in the
-- table, and the events staged for each order in the table are one life of it, from CREATED along the
-- table of transitions to the status the order has: no change of status goes without its event, and
-- no event is staged twice, out of order, or for an order that is not in the table.
pub serve-IsLogged :
    (c : Config) (picks : List Pick) (s : Server)
    → HasDistinctIds c
    → IsLogged c s.db
    → IsLogged c (serve c picks s).db
serve-IsLogged c picks s distinct = Reach-IsLogged c distinct (serve-Reach c picks s)
