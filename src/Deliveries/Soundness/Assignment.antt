-- ===== src/Deliveries/Soundness/Assignment.antt =====
-- The assignment of a driver keeps the tables sound.
use delivery_plus.Prelude.{
  ℕ, ◌≡◌, refl, subst, Bool, true, false, not, Option, none, some, same, same-eq, includes,
}
use delivery_plus.Shared.Enums.{
  UserRole-discrete, OrderStatus, DeliveryStatus, DeliveryStatus-discrete,
}
use delivery_plus.Shared.Errors.{forbidden, invalid_state_transition}
use delivery_plus.Shared.Events.{DeliveryEventType}
use delivery_plus.Proc.{ret, ◌>>◌}
use delivery_plus.Proc.Secures.{
  at_end, Returns, Secures-bind, Secures-catch, Secures-checked, Secures-if,
}
use delivery_plus.Deliveries.Store.{Delivery}
use delivery_plus.Deliveries.Dispatch.{
  DriverDto, Server, Config, Handler, DeliveryRequester, dispatch_roles, is_move_allowed,
  delivery_event, assigned, max_driver_claim_attempts,
}
use delivery_plus.Deliveries.Service.{
  after_driver_assigned, after_lost_assignment, after_assignment, record_assignment,
  claim_and_assign, assign_driver,
}
use delivery_plus.Deliveries.Soundness.{Known}
use delivery_plus.Deliveries.Soundness.Quiet.{
  Quiet, kick-Quiet, assert_can_dispatch-Quiet, give_back-Quiet, claim_attempts-Quiet,
  sync_order-Quiet,
}
use delivery_plus.Deliveries.Soundness.Steps.{SecuresDeliveries, unchanged, harmless, first_read}
use delivery_plus.Deliveries.Soundness.Writes.{IsWritten, transition_lem, assigned-IsMove}

-- The delivery of an id, in a status.
abbrev pub IsAt : ℕ → DeliveryStatus → Delivery → Server → Type 0
IsAt id to d s = Known d s.db × (d.id ≡ id) × (d.status ≡ to)

pub negated : (b : Bool) → not b ≡ false → b ≡ true
negated true h = refl
negated false h = cc

pub answered_lem :
    {p : Handler (Unit {0})} (id : ℕ) (to : DeliveryStatus) (d : Delivery) (w : Server)
    → Quiet p
    → IsAt id to d w
    → SecuresDeliveries (IsAt id to) (p >> ret d) w
answered_lem id to d w q (k, same_id, status) =
    Secures-bind (λ _ s. Known d s.db) (unchanged d w q k) (λ _ t k'. at_end (k', same_id, status))

after_driver_assigned_lem :
    (id : ℕ) (to : DeliveryStatus) (d : Delivery) (w : Server)
    → IsAt id to d w
    → SecuresDeliveries (IsAt id to) (after_driver_assigned d) w
unfolding after_driver_assigned
after_driver_assigned_lem id to d w h =
    answered_lem id to d w (sync_order-Quiet d.order_id OrderStatus.driver_assigned) h

after_lost_assignment_lem :
    (id : ℕ) (driver : DriverDto) (w : Server)
    → SecuresDeliveries (IsAt id DeliveryStatus.driver_assigned) (after_lost_assignment id driver) w
unfolding after_lost_assignment
after_lost_assignment_lem id driver w =
    Secures-bind (λ _ _. Unit) (harmless w (give_back-Quiet driver.id))
      (λ _ t _.
        Secures-bind (λ d s. Known d s.db × (d.id ≡ id)) (first_read id t)
          (λ current u h.
            Secures-if (same DeliveryStatus-discrete current.status DeliveryStatus.driver_assigned)
              (λ is. after_driver_assigned_lem id DeliveryStatus.driver_assigned current u (
                h.0,
                h.1,
                same-eq DeliveryStatus-discrete current.status DeliveryStatus.driver_assigned is,
              ))
              (λ _. at_end tt)))

after_assignment_lem :
    (id : ℕ) (driver : DriverDto) (o : Option Delivery) (w : Server)
    → IsWritten id DeliveryStatus.driver_assigned o w
    → SecuresDeliveries (IsAt id DeliveryStatus.driver_assigned) (after_assignment id driver o) w
after_assignment_lem id driver none w h = after_lost_assignment_lem id driver w
after_assignment_lem id driver (some updated) w (k, same_id, status) =
    Secures-bind (λ _ s. Known updated s.db) (unchanged updated w kick-Quiet k)
      (λ _ t k'.
        after_driver_assigned_lem id DeliveryStatus.driver_assigned updated t (k', same_id, status))

module _ (c : Config) where
  record_assignment_lem :
      (d : Delivery) (driver : DriverDto) (w : Server)
      → is_move_allowed d.status DeliveryStatus.driver_assigned ≡ true
      → Known d w.db
      → SecuresDeliveries
          (λ o s. IsWritten d.id DeliveryStatus.driver_assigned o s)
          (record_assignment c d driver)
          w
  unfolding record_assignment
  record_assignment_lem d driver w allowed k =
      Secures-catch
        (Returns (λ o s. Known d s.db × IsWritten d.id DeliveryStatus.driver_assigned o s))
        (transition_lem d d.status DeliveryStatus.driver_assigned (λ now. assigned driver.id now)
          (delivery_event c DeliveryEventType.driver_assigned) none w
          (λ now. assigned-IsMove d.status driver.id now allowed) k)
        (λ o t h. h.1)
        (λ e t _.
          Secures-bind (λ _ _. Unit) (harmless t (give_back-Quiet driver.id)) (λ _ u _. at_end tt))

  claim_and_assign_lem :
      (d : Delivery) (w : Server)
      → Known d w.db
      → SecuresDeliveries (IsAt d.id DeliveryStatus.driver_assigned) (claim_and_assign c d) w
  unfolding claim_and_assign
  claim_and_assign_lem d w k =
      Secures-checked (not (is_move_allowed d.status DeliveryStatus.driver_assigned))
        invalid_state_transition
        (λ allowed.
          Secures-bind (λ _ s. Known d s.db)
            (unchanged d w (claim_attempts-Quiet max_driver_claim_attempts) k)
            (λ driver t k'.
              Secures-bind (λ o s. IsWritten d.id DeliveryStatus.driver_assigned o s)
                (record_assignment_lem d driver t (negated _ allowed) k')
                (λ updated u h. after_assignment_lem d.id driver updated u h)))

  pub assign_driver_lem :
      (id : ℕ) (requester : DeliveryRequester) (w : Server)
      → SecuresDeliveries (IsAt id DeliveryStatus.driver_assigned) (assign_driver c id requester) w
  unfolding assign_driver
  assign_driver_lem id requester w =
      Secures-checked (not (includes UserRole-discrete requester.role dispatch_roles)) forbidden
        (λ _.
          Secures-bind (λ d s. Known d s.db × (d.id ≡ id)) (first_read id w)
            (λ d t h.
              Secures-bind (λ _ s. Known d s.db)
                (unchanged d t (assert_can_dispatch-Quiet d.order_id requester) (h.0))
                (λ _ u k.
                  Secures-if (same DeliveryStatus-discrete d.status DeliveryStatus.driver_assigned)
                    (λ is. after_driver_assigned_lem id DeliveryStatus.driver_assigned d u (
                      k,
                      h.1,
                      same-eq DeliveryStatus-discrete d.status DeliveryStatus.driver_assigned is,
                    ))
                    (λ _.
                      subst
                        (λ i.
                          SecuresDeliveries (IsAt i DeliveryStatus.driver_assigned)
                            (claim_and_assign c d) u)
                        (h.1) (claim_and_assign_lem d u k)))))
