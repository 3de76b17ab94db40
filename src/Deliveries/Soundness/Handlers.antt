-- ===== src/Deliveries/Soundness/Handlers.antt =====
-- Each handler of delivery-service keeps the tables sound, and answers with a delivery of the table.
use delivery_plus.Prelude.{ℕ, ◌≡◌, subst, not, Option, none, some, same, same-eq, includes}
use delivery_plus.Shared.Enums.{
  UserRole, UserRole-discrete, OrderStatus, OrderStatus-discrete, DeliveryStatus,
  DeliveryStatus-discrete,
}
use delivery_plus.Shared.Errors.{forbidden, conflict, bad_request, invalid_state_transition}
use delivery_plus.Shared.Events.{DeliveryEventType}
use delivery_plus.Proc.{◌>>◌}
use delivery_plus.Proc.Secures.{
  at_end, Returns, Secures-bind, Secures-catch, Secures-checked, Secures-if,
}
use delivery_plus.Proc.Rules.{Guarantees-bind}
use delivery_plus.Deliveries.Store.{Delivery, Earning, is_found}
use delivery_plus.Deliveries.Dispatch.{
  Server, Config, Handler, DeliveryRequester, dispatch_roles, is_move_allowed, delivery_event,
  moved, release_driver_of, sync_order_along_delivery, update_order_status,
}
use delivery_plus.Deliveries.Service.{
  delivering, cancelling, written_or_read, move_on, advance, pickup, start, complete, cancel,
  insert, create_delivery, get_by_id, get_by_order_id,
}
use delivery_plus.Deliveries.Soundness.{Known}
use delivery_plus.Deliveries.Soundness.Quiet.{
  Quiet, kick-Quiet, gets-Quiet, request-Quiet, assert_can_dispatch-Quiet, sync_order-Quiet,
  release_driver_of-Quiet, assert_assigned-Quiet, assert_can_read-Quiet, reads_order-Quiet,
  driver_reads-Quiet, update_order_status-Quiet,
}
use delivery_plus.Deliveries.Soundness.Steps.{
  SecuresDeliveries, unchanged, harmless, first_read, Finds, order_read, order_found,
}
use delivery_plus.Deliveries.Soundness.Writes.{
  IsWritten, transition_lem, create_lem, moved-IsMove, Earns, none-Earns, earning_for_lem,
}
use delivery_plus.Deliveries.Soundness.Assignment.{IsAt, negated, answered_lem}

-- A delivery of the order.
abbrev pub IsOf : ℕ → Delivery → Server → Type 0
IsOf order_id d s = Known d s.db × (d.order_id ≡ order_id)

module _ (c : Config) where
  written_or_read_lem :
      (id : ℕ) (target : DeliveryStatus) (o : Option Delivery) (w : Server)
      → IsWritten id target o w
      → SecuresDeliveries (λ d s. Known d s.db × (d.id ≡ id)) (written_or_read id o) w
  written_or_read_lem id target (some updated) w (k, same_id, status) =
      Secures-bind (λ _ s. Known updated s.db) (unchanged updated w kick-Quiet k)
        (λ _ t k'. at_end (k', same_id))
  written_or_read_lem id target none w h = first_read id w

  move_on_lem :
      (d : Delivery) (target : DeliveryStatus) (event_type : DeliveryEventType)
      (earning : Option Earning) (w : Server)
      → Earns target earning
      → Known d w.db
      → SecuresDeliveries (IsAt d.id target) (move_on c d target event_type earning) w
  unfolding move_on
  move_on_lem d target event_type earning w earns k =
      Secures-checked (not (is_move_allowed d.status target)) invalid_state_transition (λ allowed.
        Secures-bind (λ o s. Known d s.db × IsWritten d.id target o s)
          (transition_lem d d.status target (λ now. moved target now) (delivery_event c event_type)
            earning w (λ now. moved-IsMove d.status target earning now (negated _ allowed) earns) k)
          (λ updated t h.
            Secures-bind (λ e s. Known e s.db × (e.id ≡ d.id))
              (written_or_read_lem d.id target updated t (h.1))
              (λ current u f.
                Secures-checked (not (same DeliveryStatus-discrete current.status target))
                  invalid_state_transition
                  (λ is. at_end (
                    f.0,
                    f.1,
                    same-eq DeliveryStatus-discrete current.status target (negated _ is),
                  )))))

  advance_lem :
      (id : ℕ) (d : Delivery) (target : DeliveryStatus) (event_type : DeliveryEventType)
      (effects : Delivery → Handler (Unit {0})) (earning : Option Earning) (w : Server)
      → ((e : Delivery) → Quiet (effects e))
      → Earns target earning
      → Known d w.db
      → d.id ≡ id
      → SecuresDeliveries (IsAt id target) (advance c d target event_type effects earning) w
  unfolding advance
  advance_lem id d target event_type effects earning w quiet earns k same_id =
      Secures-bind (IsAt id target)
        (Secures-if (same DeliveryStatus-discrete d.status target)
          (λ is. at_end (k, same_id, same-eq DeliveryStatus-discrete d.status target is))
          (λ _.
            subst (λ i. SecuresDeliveries (IsAt i target) (move_on c d target event_type earning) w)
              same_id (move_on_lem d target event_type earning w earns k)))
        (λ current t h. answered_lem id target current t (quiet current) h)

  pub pickup_lem :
      (id requester : ℕ) (role : UserRole) (w : Server)
      → SecuresDeliveries (IsAt id DeliveryStatus.picked_up) (pickup c id requester role) w
  unfolding pickup
  pickup_lem id requester role w =
      Secures-bind (λ d s. Known d s.db × (d.id ≡ id)) (first_read id w)
        (λ d t h.
          Secures-bind (λ _ s. Known d s.db)
            (unchanged d t (assert_assigned-Quiet d requester role) (h.0))
            (λ _ u k.
              advance_lem id d DeliveryStatus.picked_up DeliveryEventType.picked_up
                (λ updated. sync_order_along_delivery updated.order_id OrderStatus.picked_up) none u
                (λ e. sync_order-Quiet e.order_id OrderStatus.picked_up)
                (none-Earns DeliveryStatus.picked_up) k (h.1)))

  pub start_lem :
      (id requester : ℕ) (role : UserRole) (w : Server)
      → SecuresDeliveries (IsAt id DeliveryStatus.in_transit) (start c id requester role) w
  unfolding start
  start_lem id requester role w =
      Secures-bind (λ d s. Known d s.db × (d.id ≡ id)) (first_read id w)
        (λ d t h.
          Secures-bind (λ _ s. Known d s.db)
            (unchanged d t (assert_assigned-Quiet d requester role) (h.0))
            (λ _ u k.
              advance_lem id d DeliveryStatus.in_transit DeliveryEventType.in_transit
                (λ updated. sync_order_along_delivery updated.order_id OrderStatus.picked_up) none u
                (λ e. sync_order-Quiet e.order_id OrderStatus.picked_up)
                (none-Earns DeliveryStatus.in_transit) k (h.1)))

  pub complete_lem :
      (id requester : ℕ) (role : UserRole) (w : Server)
      → SecuresDeliveries (IsAt id DeliveryStatus.delivered) (complete c id requester role) w
  unfolding complete
  complete_lem id requester role w =
      Secures-bind (λ d s. Known d s.db × (d.id ≡ id)) (first_read id w)
        (λ d t h.
          Secures-bind (λ _ s. Known d s.db)
            (unchanged d t (assert_assigned-Quiet d requester role) (h.0))
            (λ _ u k.
              Secures-bind (λ earning s. Known d s.db × Earns DeliveryStatus.delivered earning)
                (earning_for_lem c d delivering u k)
                (λ earning v e.
                  advance_lem id d DeliveryStatus.delivered DeliveryEventType.completed
                    (λ updated.
                      release_driver_of updated
                      >> sync_order_along_delivery updated.order_id OrderStatus.delivered)
                    earning v
                    (λ x.
                      Guarantees-bind (release_driver_of-Quiet x)
                        (λ _. sync_order-Quiet x.order_id OrderStatus.delivered))
                    (e.1) (e.0) (h.1))))

  pub cancel_lem :
      (id : ℕ) (requester : DeliveryRequester) (w : Server)
      → SecuresDeliveries (IsAt id DeliveryStatus.cancelled) (cancel c id requester) w
  unfolding cancel
  cancel_lem id requester w =
      Secures-checked (not (includes UserRole-discrete requester.role dispatch_roles)) forbidden
        (λ _.
          Secures-bind (λ d s. Known d s.db × (d.id ≡ id)) (first_read id w)
            (λ d t h.
              Secures-bind (λ _ s. Known d s.db)
                (unchanged d t (assert_can_dispatch-Quiet d.order_id requester) (h.0))
                (λ _ u k.
                  Secures-bind (λ earning s. Known d s.db × Earns DeliveryStatus.cancelled earning)
                    (earning_for_lem c d cancelling u k)
                    (λ earning v e.
                      advance_lem id d DeliveryStatus.cancelled DeliveryEventType.cancelled
                        (λ updated.
                          release_driver_of updated
                          >> update_order_status updated.order_id OrderStatus.cancelled)
                        earning v
                        (λ x.
                          Guarantees-bind (release_driver_of-Quiet x)
                            (λ _. update_order_status-Quiet x.order_id OrderStatus.cancelled))
                        (e.1) (e.0) (h.1)))))

  insert_lem :
      (order_id : ℕ) (customer_id : Option ℕ) (w : Server)
      → SecuresDeliveries (IsOf order_id) (insert c order_id customer_id) w
  unfolding insert
  insert_lem order_id customer_id w =
      Secures-catch (Returns (IsOf order_id))
        (create_lem order_id customer_id (delivery_event c DeliveryEventType.created) w)
        (λ d t h. h) (λ e t _. at_end tt)

  pub create_delivery_lem :
      (requester : DeliveryRequester) (order_id : ℕ) (w : Server)
      → SecuresDeliveries (IsOf order_id) (create_delivery c requester order_id) w
  unfolding create_delivery
  create_delivery_lem requester order_id w =
      Secures-bind (λ _ _. Unit) (harmless w (assert_can_dispatch-Quiet order_id requester))
        (λ _ t _.
          Secures-bind (λ _ _. Unit) (harmless t (gets-Quiet _))
            (λ existing u _. Secures-checked (is_found existing) conflict (λ _.
              Secures-bind (λ _ _. Unit) (harmless u (request-Quiet _))
                (λ order v _.
                  Secures-checked
                    (not (same OrderStatus-discrete order.status OrderStatus.ready_for_pickup))
                    bad_request
                    (λ _.
                      Secures-bind (IsOf order_id) (insert_lem order_id order.customer_id v)
                        (λ d x h.
                          Secures-bind (λ _ s. Known d s.db) (unchanged d x kick-Quiet (h.0))
                            (λ _ y k. at_end (k, h.1))))))))

pub get_by_id_lem :
    (id : ℕ) (reader : DeliveryRequester) (w : Server)
    → SecuresDeliveries (λ d s. Known d s.db × (d.id ≡ id)) (get_by_id id reader) w
unfolding get_by_id
get_by_id_lem id reader w =
    Secures-bind (λ d s. Known d s.db × (d.id ≡ id)) (first_read id w)
      (λ d t h.
        Secures-bind (λ _ s. Known d s.db) (unchanged d t (assert_can_read-Quiet d reader) (h.0))
          (λ _ u k. at_end (k, h.1)))

pub get_by_order_id_lem :
    (order_id : ℕ) (reader : DeliveryRequester) (w : Server)
    → SecuresDeliveries (IsOf order_id) (get_by_order_id order_id reader) w
unfolding get_by_order_id
get_by_order_id_lem order_id reader w =
    Secures-bind (λ _ _. Unit) (harmless w (reads_order-Quiet order_id reader))
      (λ _ t _. Secures-bind (Finds order_id) (order_read order_id t) (λ o u f.
        Secures-bind (IsOf order_id) (order_found order_id o u f) (λ d v h.
          Secures-bind (λ _ s. Known d s.db) (unchanged d v (driver_reads-Quiet d reader) (h.0))
            (λ _ x k. at_end (k, h.1)))))
