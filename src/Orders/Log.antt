-- ===== src/Orders/Log.antt =====
-- The events of an order: the log that the outbox and the broker hold of it.
pub mod Staged
pub mod Relayed
use delivery_plus.Prelude.{
  ℕ, ◌<◌, ◌≤◌, ◌≡◌, refl, true, List, [], ◌∷◌, ◌++◌, arith, some, ◌==◌, All, includes, same,
  if◌then◌else◌, Bool-cases, inl, inr, ◌⊎◌, subst,
}
use delivery_plus.Shared.Enums.{OrderStatus, OrderStatus-discrete}
use delivery_plus.Shared.Lifecycle.{OrderMoves, order_rank, OrderMoves-rank}
use delivery_plus.Shared.Outbox.{BaseEvent, OutboxRow}
use delivery_plus.Shared.Outbox.Order.{IsNumbered, events}
use delivery_plus.Orders.Store.{
  Order, OrderEventType, OrderPayload, OrderOutbox, Database, find_by_id,
}
use delivery_plus.Orders.Server.{Config, Server, order_status_event}

-- The statuses that a list of events reports of an order, in order.
abbrev pub statuses : ℕ → List (BaseEvent OrderEventType OrderPayload) → List OrderStatus
statuses id [] = []
statuses id (e ∷ es) =
    if e.payload.order_id == id then e.payload.status ∷ statuses id es else statuses id es

-- A life of an order: it is created, and each further status is a move that the table allows.
pub data IsLife : List OrderStatus → OrderStatus → Type 0 where
  born : IsLife (OrderStatus.created ∷ []) OrderStatus.created
  grown :
      {life life' : List OrderStatus} {s t : OrderStatus}
      → IsLife life s
      → OrderMoves s t
      → life' ≡ life ++ t ∷ []
      → IsLife life' t

-- No status of a life is beyond its last one.
includes-snoc :
    (t s : OrderStatus) (xs : List OrderStatus)
    → includes OrderStatus-discrete t (xs ++ s ∷ []) ≡ true
    → (includes OrderStatus-discrete t xs ≡ true) ⊎ (s ≡ t)
includes-snoc t s [] h = ground arith
includes-snoc t s (x ∷ xs) h = ground (arith, includes-snoc t s xs)

pub IsLife-rank :
    (t : OrderStatus) {life : List OrderStatus} {s : OrderStatus}
    → IsLife life s
    → includes OrderStatus-discrete t life ≡ true
    → order_rank t ≤ order_rank s
IsLife-rank t born h = ground arith
IsLife-rank t (grown {life = life} {s = s} {t = u} l m e) h =
    elim (includes-snoc t u life (subst (λ xs. includes OrderStatus-discrete t xs ≡ true) e h)) [
      | inl earlier ↦ omega (arith, IsLife-rank t l earlier, OrderMoves-rank s u m)
      | inr last ↦ subst (λ x. order_rank x ≤ order_rank u) last (omega arith)
    ]

-- The table has an order of this id.
abbrev pub IsPlaced : List Order → ℕ → Type 0
IsPlaced orders id = (o : Order) × (find_by_id id orders ≡ some o)

-- The orders of one table are in another.
abbrev pub Keeps : List Order → List Order → Type 0
Keeps orders orders' = (id : ℕ) → IsPlaced orders id → IsPlaced orders' id

module _ (c : Config) where
  -- The id of an event is that of its order and type, and its type is that of its status.
  abbrev pub IsLifecycleEvent : BaseEvent OrderEventType OrderPayload → Type 0
  IsLifecycleEvent e =
      (e.event_id ≡ c.lifecycle_event_id e.payload.order_id e.event_type)
      × (e.event_type ≡ order_status_event e.payload.status)

  -- UUIDs of different names differ: what the source relies on for `lifecycleEventId`.
  abbrev pub HasDistinctIds : Type 0
  HasDistinctIds =
      (i j : ℕ) (a b : OrderEventType)
      → c.lifecycle_event_id i a ≡ c.lifecycle_event_id j b
      → (i ≡ j) × (a ≡ b)

  -- The tables agree: ids are fresh, every event is a lifecycle event of an order in the table, and the
  -- events staged for an order are a life that ends in its status.
  pub record IsLogged (db : Database) : Type 0 where
    pub orders_fresh : All (λ o. o.id < db.next_id) db.orders
    pub events_fresh : All (λ e. e.payload.order_id < db.next_id) (events db.outbox)
    pub lifecycle : All IsLifecycleEvent (events db.outbox)
    pub placed : All (λ e. IsPlaced db.orders e.payload.order_id) (events db.outbox)
    pub lives :
        (id : ℕ) (o : Order)
        → find_by_id id db.orders ≡ some o
        → IsLife (statuses id (events db.outbox)) o.status
