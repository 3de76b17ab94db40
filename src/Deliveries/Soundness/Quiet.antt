-- ===== src/Deliveries/Soundness/Quiet.antt =====
-- The parts of delivery-service's handlers that leave its database alone: reads, and calls of the other
-- services.
use delivery_plus.Prelude.{
  ℕ, zero, suc, ◌≡◌, refl, not, Option, none, some, List, [], ◌∷◌, same, if◌then◌else◌,
}
use delivery_plus.Shared.Enums.{UserRole, UserRole-discrete, OrderStatus, DriverStatus}
use delivery_plus.Shared.Errors.{Error, Error-discrete, forbidden, conflict, driver_status_rejected}
use delivery_plus.Proc.{Proc, done, Result, ok, ◌>>=◌, gets, request}
use delivery_plus.Proc.Rules.{
  Guarantees, at_end, at_step, Guarantees-bind, Guarantees-catch, Guarantees-if,
  Guarantees-or_throw, Guarantees-throw_if, Guarantees-gets, Guarantees-request,
}
use delivery_plus.Deliveries.Store.{Delivery, find_active_by_driver_id}
use delivery_plus.Deliveries.Dispatch.{
  Server, DeliveryRequester, kick, find_or_throw, assert_can_dispatch, after_rejected_release,
  release_driver, give_back_claimed_driver, release_unless_active, some_other, release_driver_of,
  claim_attempts, update_along, update_from, sync_order_along_delivery, update_order_status,
  update_driver_status,
}
use delivery_plus.Deliveries.Service.{
  assert_is_assigned_driver, assert_assigned_driver, assert_can_read, assert_reads_order,
}

abbrev pub SameDb : Server → Server → Type 0
SameDb s t = s.db ≡ t.db

SameDb-refl : (s : Server) → SameDb s s
SameDb-refl s = refl

abbrev pub Quiet : {A : Type 0} → Proc Server A → Type 0
Quiet p = Guarantees SameDb p

pub gets-Quiet : {A : Type 0} (f : Server → A) → Quiet (gets f)
gets-Quiet f = Guarantees-gets SameDb-refl f

pub request-Quiet : {A : Type 0} (f : Server → Result A) → Quiet (request f)
request-Quiet f = Guarantees-request SameDb-refl f

pub kick-Quiet : Quiet kick
unfolding kick
kick-Quiet = at_step (λ s. refl) (λ s. at_end _)

pub update_order_status-Quiet :
    (order_id : ℕ) (status : OrderStatus) → Quiet (update_order_status order_id status)
update_order_status-Quiet order_id status = at_step (λ s. refl) (λ s. at_end _)

update_driver_status-Quiet :
    (driver_id : ℕ) (status : DriverStatus) → Quiet (update_driver_status driver_id status)
update_driver_status-Quiet driver_id status = at_step (λ s. refl) (λ s. at_end _)

pub find_or_throw-Quiet : (id : ℕ) → Quiet (find_or_throw id)
unfolding find_or_throw
find_or_throw-Quiet id = Guarantees-bind (gets-Quiet _) (λ d. Guarantees-or_throw _ d)

after_rejected_release-Quiet :
    (driver_id : ℕ) (e : Error) → Quiet (after_rejected_release driver_id e)
unfolding after_rejected_release
after_rejected_release-Quiet driver_id e =
    Guarantees-if (not (same Error-discrete e driver_status_rejected)) (λ _. at_end _)
      (λ _. Guarantees-bind (request-Quiet _) (λ driver. Guarantees-throw_if _ e))

pub release_driver-Quiet : (driver_id : ℕ) → Quiet (release_driver driver_id)
unfolding release_driver
release_driver-Quiet driver_id =
    Guarantees-catch (update_driver_status-Quiet driver_id _)
      (λ e. after_rejected_release-Quiet driver_id e)

pub give_back-Quiet : (driver_id : ℕ) → Quiet (give_back_claimed_driver driver_id)
unfolding give_back_claimed_driver
give_back-Quiet driver_id = Guarantees-catch (release_driver-Quiet driver_id) (λ e. at_end _)

pub release_driver_of-Quiet : (d : Delivery) → Quiet (release_driver_of d)
unfolding release_driver_of
release_driver_of-Quiet d = given d.driver_id
  where
    given :
        (o : Option ℕ)
        → Quiet (elim o [
          | none ↦ done (ok tt)
          | some driver_id ↦
              gets (λ s. find_active_by_driver_id driver_id s.db.deliveries)
              >>= release_unless_active d.id driver_id
        ])
    given none = at_end _
    given (some driver_id) = Guarantees-bind (gets-Quiet _) (λ active.
        Guarantees-if (some_other d.id active) (λ _. at_end _)
          (λ _. release_driver-Quiet driver_id))

pub claim_attempts-Quiet : (n : ℕ) → Quiet (claim_attempts n)
unfolding claim_attempts
claim_attempts-Quiet zero = at_end _
claim_attempts-Quiet (suc n) = Guarantees-bind (request-Quiet _) (λ available.
    Guarantees-bind (Guarantees-or_throw _ available) (λ driver.
      Guarantees-catch (Guarantees-bind (update_driver_status-Quiet driver.id _) (λ _. at_end _))
        (λ e.
          Guarantees-if (not (same Error-discrete e driver_status_rejected)) (λ _. at_end _)
            (λ _. claim_attempts-Quiet n))))

update_along-Quiet :
    (order_id : ℕ) (statuses : List OrderStatus) → Quiet (update_along order_id statuses)
unfolding update_along
update_along-Quiet order_id [] = at_end _
update_along-Quiet order_id (status ∷ statuses) =
    Guarantees-bind (update_order_status-Quiet order_id status)
      (λ _. update_along-Quiet order_id statuses)

pub sync_order-Quiet :
    (order_id : ℕ) (target : OrderStatus) → Quiet (sync_order_along_delivery order_id target)
unfolding sync_order_along_delivery
sync_order-Quiet order_id target = Guarantees-bind (request-Quiet _) (λ order. along _ _)
  where
    along : (from to : Option ℕ) → Quiet (update_from order_id from to)
    along none none = at_end _
    along none (some to) = at_end _
    along (some from) none = at_end _
    along (some from) (some to) = update_along-Quiet order_id _

pub assert_can_dispatch-Quiet :
    (order_id : ℕ) (requester : DeliveryRequester) → Quiet (assert_can_dispatch order_id requester)
unfolding assert_can_dispatch
assert_can_dispatch-Quiet order_id requester =
    Guarantees-bind (Guarantees-throw_if _ forbidden) (λ _.
      Guarantees-if (same UserRole-discrete requester.role UserRole.restaurant_owner)
        (λ _. request-Quiet _) (λ _. at_end _))

is_assigned-Quiet :
    (d : Delivery) (user_id : ℕ) (unassigned : Error)
    → Quiet (assert_is_assigned_driver d user_id unassigned)
unfolding assert_is_assigned_driver
is_assigned-Quiet d user_id unassigned =
    Guarantees-bind (Guarantees-or_throw unassigned d.driver_id)
      (λ driver_id. Guarantees-bind (request-Quiet _) (λ driver. Guarantees-throw_if _ forbidden))

pub assert_assigned-Quiet :
    (d : Delivery) (requester : ℕ) (role : UserRole)
    → Quiet (assert_assigned_driver d requester role)
unfolding assert_assigned_driver
assert_assigned-Quiet d requester role =
    Guarantees-if (same UserRole-discrete role UserRole.admin) (λ _. at_end _)
      (λ _.
        Guarantees-if (not (same UserRole-discrete role UserRole.driver)) (λ _. at_end _)
          (λ _. is_assigned-Quiet d requester conflict))

pub assert_can_read-Quiet :
    (d : Delivery) (reader : DeliveryRequester) → Quiet (assert_can_read d reader)
unfolding assert_can_read
assert_can_read-Quiet d reader = by_role reader.role
  where
    by_role :
        (role : UserRole)
        → Quiet (elim role [
          | UserRole.admin ↦ done (ok tt)
          | UserRole.driver ↦ assert_is_assigned_driver d reader.user_id forbidden
          | UserRole.customer ↦ request (λ s. s.world.readable_by d.order_id reader.auth_header)
          | UserRole.restaurant_owner ↦
              request (λ s. s.world.readable_by d.order_id reader.auth_header)
        ])
    by_role UserRole.admin = at_end _
    by_role UserRole.driver = is_assigned-Quiet d reader.user_id forbidden
    by_role UserRole.customer = request-Quiet _
    by_role UserRole.restaurant_owner = request-Quiet _

pub reads_order-Quiet :
    (order_id : ℕ) (reader : DeliveryRequester) → Quiet (assert_reads_order order_id reader)
reads_order-Quiet order_id reader = by_role reader.role
  where
    by_role :
        (role : UserRole)
        → Quiet (elim role [
          | UserRole.customer ↦ request (λ s. s.world.readable_by order_id reader.auth_header)
          | UserRole.restaurant_owner ↦
              request (λ s. s.world.readable_by order_id reader.auth_header)
          | UserRole.admin ↦ done (ok tt)
          | UserRole.driver ↦ done (ok tt)
        ])
    by_role UserRole.admin = at_end _
    by_role UserRole.driver = at_end _
    by_role UserRole.customer = request-Quiet _
    by_role UserRole.restaurant_owner = request-Quiet _

pub driver_reads-Quiet :
    (d : Delivery) (reader : DeliveryRequester)
    → Quiet (
        if same UserRole-discrete reader.role UserRole.driver
        then assert_is_assigned_driver d reader.user_id forbidden
        else done (ok tt))
driver_reads-Quiet d reader =
    Guarantees-if (same UserRole-discrete reader.role UserRole.driver)
      (λ _. is_assigned-Quiet d reader.user_id forbidden) (λ _. at_end _)
