-- ===== src/Deliveries/Soundness/Compensation.antt =====
-- What an assignment that loses its compare-and-set does with the driver that it has claimed.
use delivery_plus.Prelude.{
  ℕ, ◌≡◌, refl, sym, subst, ◌∙◌, ap, false, not, Option, none, some, List, [], ◌∷◌, ◌++◌, same,
}
use delivery_plus.Shared.Enums.{OrderStatus, DeliveryStatus, DeliveryStatus-discrete, DriverStatus}
use delivery_plus.Shared.Errors.{Error, Error-discrete, not_found, driver_status_rejected}
use delivery_plus.Shared.Events.{DeliveryEventType}
use delivery_plus.Proc.{done, Result, ok, err, throw, catch, ◌>>=◌}
use delivery_plus.Proc.Alone.{run_alone, continue_with, run_alone-bind}
use delivery_plus.Proc.Rules.{
  Guarantees, at_end, at_step, Guarantees-bind, Guarantees-catch, Guarantees-if,
  Guarantees-or_throw, Guarantees-throw_if, Guarantees-gets, Guarantees-request, run-Guarantees,
}
use delivery_plus.Deliveries.Store.{
  Delivery, DeliveryEvent, Database, Earning, find_by_id, transition,
}
use delivery_plus.Deliveries.Dispatch.{
  DriverDto, Server, Config, Handler, delivery_event, assigned, find_or_throw, transaction,
  after_rejected_release, release_driver, give_back_claimed_driver, update_along, update_from,
  sync_order_along_delivery,
}
use delivery_plus.Deliveries.Service.{
  after_driver_assigned, after_lost_assignment, after_assignment, record_assignment,
}

-- The drivers are asked for nothing.
abbrev SameUpdates : Server → Server → Type 0
SameUpdates s t = s.driver_updates ≡ t.driver_updates

abbrev Spares : {A : Type 0} → Handler A → Type 0
Spares p = Guarantees SameUpdates p

along-Spares :
    (order_id : ℕ) (statuses : List OrderStatus) → Spares (update_along order_id statuses)
unfolding update_along
along-Spares order_id [] = at_end _
along-Spares order_id (status ∷ statuses) =
    Guarantees-bind (at_step (λ s. refl) (λ s. at_end _)) (λ _. along-Spares order_id statuses)

sync-Spares :
    (order_id : ℕ) (target : OrderStatus) → Spares (sync_order_along_delivery order_id target)
unfolding sync_order_along_delivery
sync-Spares order_id target =
    Guarantees-bind (Guarantees-request (λ s. refl) _) (λ order. along _ _)
  where
    along : (from to : Option ℕ) → Spares (update_from order_id from to)
    along none none = at_end _
    along none (some to) = at_end _
    along (some from) none = at_end _
    along (some from) (some to) = along-Spares order_id _

reread-Spares : (id : ℕ) → Spares (find_or_throw id)
unfolding find_or_throw
reread-Spares id =
    Guarantees-bind (Guarantees-gets (λ s. refl) _) (λ d. Guarantees-or_throw not_found d)

assigned-Spares : (d : Delivery) → Spares (after_driver_assigned d)
unfolding after_driver_assigned
assigned-Spares d =
    Guarantees-bind (sync-Spares d.order_id OrderStatus.driver_assigned) (λ _. at_end _)

rejected-Spares : (driver_id : ℕ) (e : Error) → Spares (after_rejected_release driver_id e)
unfolding after_rejected_release
rejected-Spares driver_id e =
    Guarantees-if (not (same Error-discrete e driver_status_rejected)) (λ _. at_end _)
      (λ _. Guarantees-bind (Guarantees-request (λ s. refl) _) (λ driver. Guarantees-throw_if _ e))

spared :
    {A : Type 0} (p : Handler A) (s : Server)
    → Spares p
    → s.driver_updates ≡ (run_alone p s).1.driver_updates
spared p s h = run-Guarantees SameUpdates (λ s. refl) (λ s t u a b. a ∙ b) [] s h tt

abbrev with_release : ℕ → Server → List (ℕ × DriverStatus)
with_release driver_id s = s.driver_updates ++ (driver_id, DriverStatus.available) ∷ []

give_back-releases :
    (driver_id : ℕ) (s : Server)
    → (run_alone (give_back_claimed_driver driver_id) s).1.driver_updates ≡ with_release driver_id s
unfolding give_back_claimed_driver release_driver catch
give_back-releases driver_id s = replied (s.world.driver_moves driver_id DriverStatus.available)
  where
    asked : Server
    asked = record s { driver_updates = with_release driver_id s }

    replied :
        (r : Result (Unit {0}))
        → (run_alone
            (catch (λ e. done (ok tt)) (catch (after_rejected_release driver_id) (done r)))
            asked).1.driver_updates
          ≡ with_release driver_id s
    replied (ok a) = refl
    replied (err e) = sym (
        spared (catch (λ e. done (ok tt)) (after_rejected_release driver_id e)) asked
          (Guarantees-catch (rejected-Spares driver_id e) (λ e. at_end _)))

lost :
    (i : ℕ) (from : DeliveryStatus) (change : Delivery → Delivery)
    (event : Delivery → DeliveryEvent) (now : ℕ) (earning : Option Earning) (db : Database)
    (e : Delivery)
    → find_by_id i db.deliveries ≡ some e
    → same DeliveryStatus-discrete e.status from ≡ false
    → transition i from change event now earning db ≡ (ok none, db)
unfolding transition
lost i from change event now earning db e found unmet = rw (found, unmet) refl

continued :
    {A B : Type 0} (f : A → Handler B) (x : Result A × Server)
    → ((a : A) → Spares (f a))
    → (continue_with f x).1.driver_updates ≡ x.1.driver_updates
continued f (ok a, t) h = sym (spared (f a) t (h a))
continued f (err e, t) h = refl

lost-releases :
    (id : ℕ) (driver : DriverDto) (s : Server)
    → (run_alone (after_lost_assignment id driver) s).1.driver_updates ≡ with_release driver.id s
unfolding after_lost_assignment
lost-releases id driver s =
    ap (λ (x : Result Delivery × Server). x.1.driver_updates)
      (run_alone-bind (give_back_claimed_driver driver.id) _ s)
    ∙ continued _ (run_alone (give_back_claimed_driver driver.id) s) (λ _.
      Guarantees-bind (reread-Spares id) (λ current.
        Guarantees-if (same DeliveryStatus-discrete current.status DeliveryStatus.driver_assigned)
          (λ _. assigned-Spares current) (λ _. at_end _)))
    ∙ give_back-releases driver.id s

module _ (c : Config) where
  lost_record :
      (d e : Delivery) (driver : DriverDto) (s : Server)
      → find_by_id d.id s.db.deliveries ≡ some e
      → same DeliveryStatus-discrete e.status d.status ≡ false
      → run_alone (record_assignment c d driver) s ≡ (ok none, s)
  unfolding record_assignment transaction catch
  lost_record d e driver s found unmet =
      subst
        (λ (x : Result (Option Delivery) × Database).
          run_alone
            (catch (λ error. give_back_claimed_driver driver.id >>= λ _. throw error) (done x.0))
            (record s { db = x.1 })
          ≡ (ok none, s))
        (sym (
          lost d.id d.status (assigned driver.id s.now)
            (delivery_event c DeliveryEventType.driver_assigned) s.now none s.db e found unmet))
        refl

  -- Where another request has moved the delivery out of the status in which an assignment read it, the
  -- assignment, left alone from its compare-and-set on and whatever the other services answer, asks
  -- for one change of a driver: that the driver it has claimed is AVAILABLE again.
  pub lost_assignment_releases :
      (d e : Delivery) (driver : DriverDto) (s : Server)
      → find_by_id d.id s.db.deliveries ≡ some e
      → same DeliveryStatus-discrete e.status d.status ≡ false
      → (run_alone
          (record_assignment c d driver >>= after_assignment d.id driver)
          s).1.driver_updates
        ≡ s.driver_updates ++ (driver.id, DriverStatus.available) ∷ []
  lost_assignment_releases d e driver s found unmet =
      ap (λ (x : Result Delivery × Server). x.1.driver_updates)
        (run_alone-bind (record_assignment c d driver) (after_assignment d.id driver) s
          ∙ ap (continue_with (after_assignment d.id driver))
              (lost_record d e driver s found unmet))
      ∙ lost-releases d.id driver s
