-- ===== src/Deliveries/Soundness/Served.antt =====
-- delivery-service as a whole: any requests, whose steps interleave in any order.
use delivery_plus.Prelude.{Option, ℕ, ◌≡◌, subst, some, List, [], ◌∷◌, All, ◌≤◌}
use delivery_plus.Shared.Enums.{UserRole, DeliveryStatus}
use delivery_plus.Proc.{Result, ok, err, ret, ◌>>=◌, ◌>>◌}
use delivery_plus.Proc.Secures.{Secures, at_end, Returns, Secures-bind}
use delivery_plus.Proc.Pool.{
  Pick, arrives, runs, elsewhere, Pool, serve, IsCooperative, InCourse, serve-InCourse, Answered,
  InCourse-Answered,
}
use delivery_plus.Deliveries.Store.{Delivery, find_by_id}
use delivery_plus.Deliveries.Dispatch.{Server, Config, Handler, DeliveryRequester}
use delivery_plus.Deliveries.Service.{
  create_delivery, assign_driver, pickup, start, complete, cancel, get_by_id, get_by_order_id,
}
use delivery_plus.Deliveries.Background.{dispatch_order, sweep, reconcile_sweep, settle}
use delivery_plus.Deliveries.Soundness.Background.{
  dispatch_order_lem, sweep_lem, reconcile_sweep-Quiet, settle_lem,
}
use delivery_plus.Deliveries.Soundness.{
  Known, Known-stable, Advances, Advances-refl, IsSound, PaidFor,
}
use delivery_plus.Deliveries.Soundness.Unique.{count_paid, count_paid-once, OnePerOrder-unique}
use delivery_plus.Deliveries.Soundness.Steps.{
  Moves, Moves-refl, Moves-trans, Sound, SecuresDeliveries, harmless,
}
use delivery_plus.Deliveries.Soundness.Assignment.{IsAt, assign_driver_lem}
use delivery_plus.Deliveries.Soundness.Handlers.{
  IsOf, create_delivery_lem, pickup_lem, start_lem, complete_lem, cancel_lem, get_by_id_lem,
  get_by_order_id_lem,
}

-- The routes of the service, the event that it consumes, and its timers.
pub data Request : Type 0 where
  creates : DeliveryRequester → (order_id : ℕ) → Request
  assigns : (id : ℕ) → DeliveryRequester → Request
  picks_up : (id requester : ℕ) → UserRole → Request
  starts : (id requester : ℕ) → UserRole → Request
  completes : (id requester : ℕ) → UserRole → Request
  cancels : (id : ℕ) → DeliveryRequester → Request
  reads : (id : ℕ) → DeliveryRequester → Request
  reads_order : (order_id : ℕ) → DeliveryRequester → Request
  dispatches : (order_id : ℕ) → Request
  sweeps : Request
  reconciles : (now : ℕ) → Request
  settles : (driver_id : Option ℕ) → Request

-- What a request is answered with: a delivery, or nothing.
pub data Answer : Type 0 where
  of_delivery : Delivery → Answer
  of_none : Answer

-- What the other services and the clock do: the database is the service's own.
abbrev pub AreElsewhere : List (Pick Server Request) → Type 0
AreElsewhere [] = Unit
AreElsewhere (elsewhere f ∷ picks) = ((s : Server) → s.db ≡ (f s).db) × AreElsewhere picks
AreElsewhere (_ ∷ picks) = AreElsewhere picks

-- What the delivery of an answer satisfies, in the table.
abbrev pub IsAnswerOf : Request → Delivery → Server → Type 0
IsAnswerOf (creates requester order_id) d s = IsOf order_id d s
IsAnswerOf (assigns id requester) d s = IsAt id DeliveryStatus.driver_assigned d s
IsAnswerOf (picks_up id requester role) d s = IsAt id DeliveryStatus.picked_up d s
IsAnswerOf (starts id requester role) d s = IsAt id DeliveryStatus.in_transit d s
IsAnswerOf (completes id requester role) d s = IsAt id DeliveryStatus.delivered d s
IsAnswerOf (cancels id requester) d s = IsAt id DeliveryStatus.cancelled d s
IsAnswerOf (reads id reader) d s = Known d s.db × (d.id ≡ id)
IsAnswerOf (reads_order order_id reader) d s = IsOf order_id d s
IsAnswerOf _ d s = ⊥

abbrev pub IsAnswer : Request → Answer → Server → Type 0
IsAnswer q (of_delivery d) s = IsAnswerOf q d s
IsAnswer q of_none s = Unit

IsAnswerOf-stable :
    (q : Request) (d : Delivery) (s t : Server) → IsAnswerOf q d s → Moves s t → IsAnswerOf q d t
IsAnswerOf-stable (creates requester order_id) d s t (k, h) m = (Known-stable d s.db t.db k m, h)
IsAnswerOf-stable (assigns id requester) d s t (k, h, h') m = (Known-stable d s.db t.db k m, h, h')
IsAnswerOf-stable (picks_up id requester role) d s t (k, h, h') m =
    (Known-stable d s.db t.db k m, h, h')
IsAnswerOf-stable (starts id requester role) d s t (k, h, h') m =
    (Known-stable d s.db t.db k m, h, h')
IsAnswerOf-stable (completes id requester role) d s t (k, h, h') m =
    (Known-stable d s.db t.db k m, h, h')
IsAnswerOf-stable (cancels id requester) d s t (k, h, h') m = (Known-stable d s.db t.db k m, h, h')
IsAnswerOf-stable (reads id reader) d s t (k, h) m = (Known-stable d s.db t.db k m, h)
IsAnswerOf-stable (reads_order order_id reader) d s t (k, h) m = (Known-stable d s.db t.db k m, h)
IsAnswerOf-stable (dispatches order_id) d s t h m = h
IsAnswerOf-stable sweeps d s t h m = h
IsAnswerOf-stable (reconciles now) d s t h m = h
IsAnswerOf-stable (settles driver_id) d s t h m = h

stable :
    (q : Request) (r : Result Answer) (s t : Server)
    → Returns (IsAnswer q) r s
    → Moves s t
    → Returns (IsAnswer q) r t
stable q (ok (of_delivery d)) s t h m = IsAnswerOf-stable q d s t h m
stable q (ok of_none) s t h m = tt
stable q (err e) s t h m = tt

abbrev pub answering : Handler Delivery → Handler Answer
answering p = p >>= λ d. ret (of_delivery d)

abbrev pub unanswered : {A : Type 0} → Handler A → Handler Answer
unanswered p = p >> ret of_none

answering_lem :
    {p : Handler Delivery} {w : Server} (q : Request)
    → SecuresDeliveries (IsAnswerOf q) p w
    → SecuresDeliveries (IsAnswer q) (answering p) w
answering_lem q h = Secures-bind (IsAnswerOf q) h (λ d t k. at_end k)

unanswered_lem :
    {A : Type 0} {p : Handler A} {w : Server} (q : Request)
    → SecuresDeliveries (λ _ _. Unit) p w
    → SecuresDeliveries (IsAnswer q) (unanswered p) w
unanswered_lem q h = Secures-bind (λ _ _. Unit) h (λ _ t _. at_end tt)

cooperative :
    (picks : List (Pick Server Request))
    → AreElsewhere picks
    → All (IsCooperative Moves Sound) picks
cooperative [] h = tt
cooperative (arrives q ∷ picks) h = (tt, cooperative picks h)
cooperative (runs n ∷ picks) h = (tt, cooperative picks h)
cooperative (elsewhere f ∷ picks) (e, h) = (
  λ s i. (subst (Advances s.db) (e s) (Advances-refl s.db), subst IsSound (e s) i),
  cooperative picks h,
)

module _ (c : Config) where
  unfoldable pub handle : Request → Handler Answer
  handle (creates requester order_id) = answering (create_delivery c requester order_id)
  handle (assigns id requester) = answering (assign_driver c id requester)
  handle (picks_up id requester role) = answering (pickup c id requester role)
  handle (starts id requester role) = answering (start c id requester role)
  handle (completes id requester role) = answering (complete c id requester role)
  handle (cancels id requester) = answering (cancel c id requester)
  handle (reads id reader) = answering (get_by_id id reader)
  handle (reads_order order_id reader) = answering (get_by_order_id order_id reader)
  handle (dispatches order_id) = unanswered (dispatch_order c order_id)
  handle sweeps = unanswered (sweep c)
  handle (reconciles now) = unanswered (reconcile_sweep c now)
  handle (settles driver_id) = unanswered (settle driver_id)

  handle_lem : (q : Request) (w : Server) → Secures Moves Sound (Returns (IsAnswer q)) (handle q) w
  unfolding handle
  handle_lem (creates requester order_id) w =
      answering_lem (creates requester order_id) (create_delivery_lem c requester order_id w)
  handle_lem (assigns id requester) w =
      answering_lem (assigns id requester) (assign_driver_lem c id requester w)
  handle_lem (picks_up id requester role) w =
      answering_lem (picks_up id requester role) (pickup_lem c id requester role w)
  handle_lem (starts id requester role) w =
      answering_lem (starts id requester role) (start_lem c id requester role w)
  handle_lem (completes id requester role) w =
      answering_lem (completes id requester role) (complete_lem c id requester role w)
  handle_lem (cancels id requester) w =
      answering_lem (cancels id requester) (cancel_lem c id requester w)
  handle_lem (reads id reader) w = answering_lem (reads id reader) (get_by_id_lem id reader w)
  handle_lem (reads_order order_id reader) w =
      answering_lem (reads_order order_id reader) (get_by_order_id_lem order_id reader w)
  handle_lem (dispatches order_id) w =
      unanswered_lem (dispatches order_id) (dispatch_order_lem c order_id w)
  handle_lem sweeps w = unanswered_lem sweeps (sweep_lem c w)
  handle_lem (reconciles now) w =
      unanswered_lem (reconciles now) (harmless w (reconcile_sweep-Quiet c now))
  handle_lem (settles driver_id) w = unanswered_lem (settles driver_id) (settle_lem driver_id w)

  module _ (picks : List (Pick Server Request)) (s : Server) (others : AreElsewhere picks)
      (sound : IsSound s.db) where
    -- The requests that have been served, and the server, at the end.
    abbrev end : Pool Server Answer Request × Server
    end = serve handle picks ([], s)

    served :
        Moves s end.1
        × Sound end.1
        × All (InCourse Moves Sound (λ q. Returns (IsAnswer q)) Moves-refl Moves-trans end.1) end.0
    served =
        serve-InCourse Moves Sound (λ q. Returns (IsAnswer q)) Moves-refl Moves-trans handle
          handle_lem picks [] s (cooperative picks others) sound tt

    -- Whatever requests are served from sound tables, and however their steps and those of the other
    -- services, which leave the database alone, interleave, every delivery stays in the table, for the same order and customer; its
    -- status moves only along the table of transitions; and the driver it has, it keeps.
    pub deliveries_advance : Advances s.db end.1.db
    deliveries_advance = served.0

    -- Whatever requests are served from sound tables, while the other services leave the database alone,
    -- every entry of the ledger is of a delivery in the table that has ended as the entry's type says
    -- (DELIVERED for an earning, CANCELLED for a compensation), with its driver and its order.
    pub ledger_is_true : All (λ e. PaidFor e end.1.db) end.1.db.ledger
    ledger_is_true = (served.1).paid

    -- Whatever requests are served from sound tables, while the other services leave the database alone,
    -- no delivery has two entries in the ledger, whatever their types.
    pub paid_at_most_once : (id : ℕ) → count_paid id end.1.db.ledger ≤ 1
    paid_at_most_once id =
        count_paid-once end.1.db id end.1.db.ledger (served.1).paid (served.1).paid_once

    -- Whatever requests are served from sound tables, while the other services leave the database alone,
    -- two deliveries in the table that are of one order have the same id.
    pub one_delivery_per_order :
        (d e : Delivery)
        → find_by_id d.id end.1.db.deliveries ≡ some d
        → find_by_id e.id end.1.db.deliveries ≡ some e
        → d.order_id ≡ e.order_id
        → d.id ≡ e.id
    one_delivery_per_order d e =
        OnePerOrder-unique d.id e.id end.1.db.deliveries d e (served.1).one_per_order

    -- Whatever requests are served from sound tables, while the other services leave the database alone,
    -- the delivery that a finished one has answered with, if any, is in the
    -- table: after a create or a read by order, of that order; after a read, the one asked for;
    -- after an assignment, a pickup, a start, a completion or a cancellation, the one asked for as it
    -- was when it had the status that the request moves to.
    pub delivery_answers_are_true : All (Answered (λ q. Returns (IsAnswer q)) end.1) end.0
    delivery_answers_are_true =
        InCourse-Answered Moves Sound (λ q. Returns (IsAnswer q)) Moves-refl Moves-trans end.1 end.0
          stable (served.2)
