-- ===== src/Orders/Steps.antt =====
-- The atomic steps of order-service. Every step of every handler is one of them, so what they keep
-- holds of any interleaving of any number of requests and events.
pub mod Handlers
use delivery_plus.Prelude.{ℕ, ◌≡◌, ◌≢◌, Bool, true, Option, List, [], ◌∷◌, ◌++◌, take}
use delivery_plus.Shared.Enums.{UserRole, OrderStatus}
use delivery_plus.Shared.Lifecycle.{OrderMoves}
use delivery_plus.Shared.Text.{Text}
use delivery_plus.Shared.Errors.{Error}
use delivery_plus.Shared.Outbox.{OutboxRow, pending, drain_once, reached}
use delivery_plus.Shared.Outbox.Order.{events}
use delivery_plus.Orders.Rules.{is_role_allowed_for_transition}
use delivery_plus.Orders.Outcome.{OrderPaymentStatus, outcome_for}
use delivery_plus.Orders.Store.{
  OrderEventType, OrderPayload, NewOrder, update_status, create, record_payment_status,
}
use delivery_plus.Orders.Server.{Config, Server, World, order_event, order_status_event}

-- What the broker answers for a row, and whether a row that it did not acknowledge is there.
abbrev pub Answers : Type 0
Answers =
    (OutboxRow OrderEventType OrderPayload → Option Error)
    × (OutboxRow OrderEventType OrderPayload → Bool)

-- A batch of the relay that ends before its commit: what reached the broker is there.
abbrev pub sent : ℕ → Answers → Server → Server
sent batch_size (publish, arrives) s = record s {
  broker = s.broker ++ events (reached publish arrives (take batch_size (pending s.db.outbox)));
}

-- A batch of the relay.
abbrev pub relayed : ℕ → Answers → Server → Server
relayed batch_size (publish, arrives) s = record (sent batch_size (publish, arrives) s) {
  db = record (s.db) { outbox = (drain_once true batch_size publish s.db.outbox).0 };
}

abbrev pub paid : ℕ → OrderPaymentStatus → Server → Server
paid id status s = record s {
  db = record (s.db) { orders = record_payment_status id status s.db.orders };
}

module _ (c : Config) where
  -- The write of `updateStatus` for a role and a reason, and the insert of an order.
  abbrev pub moved : ℕ → OrderStatus → OrderStatus → UserRole → Option Text → Server → Server
  moved id from to role reason s = record s {
    db =
        (update_status id from to (order_event c (order_status_event to))
          (outcome_for to role reason) s.db).1;
  }

  abbrev pub placed : NewOrder → Server → Server
  placed n s = record s { db = (create n (order_event c OrderEventType.created) s.db).1 }

  pub data Step : Server → Server → Type 0 where
    reads : (s : Server) → Step s s
    kicks : (s : Server) → Step s (record s { kicked = true })
    clears : (s : Server) (token : ℕ) → Step s (record s { cleared = token ∷ s.cleared })
    moves :
        (s : Server) (id : ℕ) (from to : OrderStatus) (role : UserRole) (reason : Option Text)
        → OrderMoves from to
        → is_role_allowed_for_transition to role ≡ true
        → Step s (moved id from to role reason s)
    places : (s : Server) (n : NewOrder) → Step s (placed n s)
    pays : (s : Server) (id : ℕ) (status : OrderPaymentStatus) → Step s (paid id status s)
    -- The relay publishes a batch.
    drains :
        (s : Server) (batch_size : ℕ) (answers : Answers) → Step s (relayed batch_size answers s)
    -- The process dies, or its connection to the database, before the batch is committed.
    crashes : (s : Server) (batch_size : ℕ) (answers : Answers) → Step s (sent batch_size answers s)
    -- The world: the other services answer anew, and the day goes on.
    turns :
        (s : Server) (w : World) (day : ℕ)
        → Step s (record s { world = w; db = record (s.db) { today = day } })

  pub data Reach (s : Server) : Server → Type 0 where
    here : Reach s s
    next : {t u : Server} → Reach s t → Step t u → Reach s u
