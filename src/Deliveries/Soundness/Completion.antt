-- ===== src/Deliveries/Soundness/Completion.antt =====
-- The completion of a delivery does not fail while the other services accept and nobody cancels it.
use delivery_plus.Prelude.{ℕ, ◌≡◌, sym, subst, Option, none, some, List, [], ◌∷◌}
use delivery_plus.Shared.Enums.{OrderStatus, DeliveryStatus, DriverStatus}
use delivery_plus.Shared.Errors.{Error, not_found}
use delivery_plus.Proc.{Result, ok, err, ret, catch, ◌>>=◌, gets, request, or_throw}
use delivery_plus.Proc.Secures.{Secures, at_end, at_step, Fulfils, Fulfils-bind, Secures-if}
use delivery_plus.Deliveries.Store.{Delivery, find_by_id, find_active_by_driver_id}
use delivery_plus.Deliveries.Dispatch.{
  World, Server, Config, Handler, OrderDto, OrderFeeSplitDto, find_or_throw, update_order_status,
  update_driver_status, release_driver, some_other, release_unless_active, release_driver_of,
  update_along, update_from, sync_order_along_delivery,
}
use delivery_plus.Deliveries.Service.{delivering, earns_nothing, earning_for}
use delivery_plus.Deliveries.Soundness.{IsSound}
use delivery_plus.Deliveries.Soundness.Steps.{Moves, Moves-refl}
use delivery_plus.Deliveries.Soundness.Writes.{Earns, none-Earns, earned-Earns}

-- The other services answer and accept what they are asked for.
pub record Accepts (world : World) : Type 0 where
  pub answers_order : (order_id : ℕ) → (o : OrderDto) × (world.order_seen order_id ≡ ok o)
  pub answers_split : (order_id : ℕ) → (f : OrderFeeSplitDto) × (world.fee_split order_id ≡ ok f)
  pub moves_order :
      (order_id : ℕ) (status : OrderStatus) → world.order_moves order_id status ≡ ok tt
  pub moves_driver :
      (driver_id : ℕ) (status : DriverStatus) → world.driver_moves driver_id status ≡ ok tt

pub data IsOnWay : DeliveryStatus → Type 0 where
  still : IsOnWay DeliveryStatus.in_transit
  over : IsOnWay DeliveryStatus.delivered

-- The delivery is on its way or delivered, with its driver.
abbrev pub IsCarried : ℕ → ℕ → Delivery → Type 0
IsCarried id driver_id d = (d.id ≡ id) × IsOnWay d.status × (d.driver_id ≡ some driver_id)

module _ (id driver_id : ℕ) where
  pub record IsUnderWay (s : Server) : Type 0 where
    pub sound : IsSound s.db
    pub accepts : Accepts s.world
    pub carried :
        (d : Delivery) × (find_by_id id s.db.deliveries ≡ some d) × IsCarried id driver_id d

  abbrev pub Succeeds : {A : Type 0} → (A → Server → Type 0) → Handler A → Server → Type 0
  Succeeds X = Secures Moves IsUnderWay (Fulfils X)

  abbrev pub Sure : {A : Type 0} → Handler A → Type 0
  Sure p = (w : Server) → Succeeds (λ _ _. Unit) p w

  read :
      {A : Type 0} (X : A → Server → Type 0) (f : Server → A) (w : Server)
      → ((s : Server) → IsUnderWay s → X (f s) s)
      → Succeeds X (gets f) w
  unfolding gets
  read X f w h = at_step (λ s m i. (Moves-refl s, i)) (λ s m i. at_end (h s i))

  pub fulfilled :
      {A : Type 0} (X : A → Server → Type 0) (r : Result A) (a : A) (s : Server)
      → r ≡ ok a
      → X a s
      → Fulfils X r s
  fulfilled {A = A} X r a s e x = subst (λ (q : Result A). Fulfils X q s) (sym e) x

  asked :
      {A : Type 0} (f : Server → Result A)
      → ((s : Server) → Accepts s.world → (a : A) × (f s ≡ ok a))
      → Sure (request f)
  unfolding request
  asked f h w =
      at_step (λ s m i. (Moves-refl s, i))
        (λ s m i. let (a, e) = h s (i.accepts) in at_end (fulfilled (λ _ _. Unit) (f s) a s e tt))

  pub found_or_thrown :
      (w : Server) → Succeeds (λ d s. IsCarried id driver_id d) (find_or_throw id) w
  unfolding find_or_throw or_throw
  found_or_thrown w =
      Fulfils-bind (λ o s. (d : Delivery) × (o ≡ some d) × IsCarried id driver_id d)
        (read _ (λ s. find_by_id id s.db.deliveries) w (λ s i. i.carried))
        (λ o t (d, e, h).
          subst (λ q. Succeeds (λ x s. IsCarried id driver_id x) (or_throw not_found q) t) (sym e)
            (at_end h))

  -- A step that leaves the database and the answers of the others alone.
  updated_order : (order_id : ℕ) (status : OrderStatus) → Sure (update_order_status order_id status)
  updated_order order_id status w =
      at_step
        (λ s m i.
          (Moves-refl s, record { sound = i.sound; accepts = i.accepts; carried = i.carried }))
        (λ s m i. at_end (
          fulfilled (λ _ _. Unit) (s.world.order_moves order_id status) tt _
            ((i.accepts).moves_order order_id status) tt))

  updated_driver : (driver : ℕ) (status : DriverStatus) → Sure (update_driver_status driver status)
  updated_driver driver status w =
      at_step
        (λ s m i.
          (Moves-refl s, record { sound = i.sound; accepts = i.accepts; carried = i.carried }))
        (λ s m i. at_end (
          fulfilled (λ _ _. Unit) (s.world.driver_moves driver status) tt _
            ((i.accepts).moves_driver driver status) tt))

  caught :
      {A : Type 0} (h : Error → Handler A) {p : Handler A} {w : Server}
      → Succeeds (λ _ _. Unit) p w
      → Succeeds (λ _ _. Unit) (catch h p) w
  unfolding catch
  caught g (at_end {r = ok a} h) = at_end h
  caught g (at_end {r = err e} h) = absurd h
  caught g (at_step h rest) = at_step h (λ s m i. caught g (rest s m i))

  released : (driver : ℕ) → Sure (release_driver driver)
  unfolding release_driver
  released driver w = caught _ (updated_driver driver DriverStatus.available w)

  pub released_of : (d : Delivery) → Sure (release_driver_of d)
  unfolding release_driver_of
  released_of d = given d.driver_id
    where
      given :
          (o : Option ℕ)
          → Sure (elim o [
            | none ↦ ret tt
            | some driver ↦
                gets (λ s. find_active_by_driver_id driver s.db.deliveries)
                >>= release_unless_active d.id driver
          ])
      given none w = at_end tt
      given (some driver) w =
          Fulfils-bind (λ _ _. Unit) (read (λ _ _. Unit) _ w (λ s i. tt))
            (λ active t _.
              Secures-if (some_other d.id active) (λ _. at_end tt) (λ _. released driver t))

  updated_along :
      (order_id : ℕ) (statuses : List OrderStatus) → Sure (update_along order_id statuses)
  unfolding update_along
  updated_along order_id [] w = at_end tt
  updated_along order_id (status ∷ statuses) w =
      Fulfils-bind (λ _ _. Unit) (updated_order order_id status w)
        (λ _ t _. updated_along order_id statuses t)

  pub synced :
      (order_id : ℕ) (target : OrderStatus) → Sure (sync_order_along_delivery order_id target)
  unfolding sync_order_along_delivery
  synced order_id target w =
      Fulfils-bind (λ _ _. Unit) (asked _ (λ s a. a.answers_order order_id) w)
        (λ order t _. along _ _ t)
    where
      along : (from to : Option ℕ) → Sure (update_from order_id from to)
      along none none v = at_end tt
      along none (some to) v = at_end tt
      along (some from) none v = at_end tt
      along (some from) (some to) v = updated_along order_id _ v

  module _ (c : Config) where
    pub earning_found :
        (d : Delivery) (w : Server)
        → Succeeds
            (λ earning s. Earns DeliveryStatus.delivered earning)
            (earning_for c d delivering)
            w
    unfolding earning_for
    earning_found d w =
        Secures-if (earns_nothing d delivering) (λ _. at_end (none-Earns DeliveryStatus.delivered))
          (λ _.
            Fulfils-bind (λ _ _. Unit) (asked _ (λ s a. a.answers_split d.order_id) w)
              (λ split t _. at_end (earned-Earns c delivering split)))
