-- ===== src/Deliveries/Dispatch.antt =====
-- The state of delivery-service, and the steps and calls that its handlers share
-- (services/deliveries.service.ts, common/order-service.client.ts, common/driver-service.client.ts).
use delivery_plus.Prelude.{
  ℕ, zero, suc, Bool, true, false, not, ◌||◌, Option, none, some, List, [], ◌∷◌, ◌++◌, ◌==◌, same,
  includes, take, drop, if◌then◌else◌,
}
use delivery_plus.Shared.Errors.{
  Error, Error-discrete, forbidden, conflict, not_found, invalid_state_transition,
  driver_status_rejected,
}
use delivery_plus.Shared.Enums.{
  UserRole, UserRole-discrete, OrderStatus, OrderStatus-discrete, DriverStatus,
  DriverStatus-discrete, DeliveryStatus, DeliveryStatus-discrete, delivery_transitions,
  is_transition_allowed,
}
use delivery_plus.Shared.Events.{DeliveryEventType}
use delivery_plus.Shared.Text.{Text}
use delivery_plus.Proc.{
  Proc, act, done, Result, ret, throw, gets, request, or_throw, catch, ◌>>=◌, ◌>>◌, throw_if,
}
use delivery_plus.Deliveries.Store.{
  Delivery, DeliveryEvent, Database, find_by_id, find_active_by_driver_id,
}

-- What the other services answer about an order, the split of its fee, and a driver.
pub record OrderDto : Type 0 where
  pub customer_id : Option ℕ
  pub status : OrderStatus

pub record OrderFeeSplitDto : Type 0 where
  pub driver_fee_share : Text
  pub driver_cancel_fee_share : Text

pub record DriverDto : Type 0 where
  pub id : ℕ
  pub user_id : ℕ
  pub status : DriverStatus
  pub updated_at : Option ℕ

pub record World : Type 0 where
  pub order_seen : ℕ → Result OrderDto
  pub readable_by : ℕ → ℕ → Result (Unit {0})
  pub fee_split : ℕ → Result OrderFeeSplitDto
  pub order_moves : ℕ → OrderStatus → Result (Unit {0})
  pub available_driver : Result (Option DriverDto)
  pub driver_seen : ℕ → Result DriverDto
  pub own_profile : ℕ → Result (Option DriverDto)
  pub driver_moves : ℕ → DriverStatus → Result (Unit {0})

-- The database, the clock, and what the other services were asked for, in order.
pub record Server : Type 0 where
  pub db : Database
  pub now : ℕ
  pub world : World
  pub order_updates : List (ℕ × OrderStatus)
  pub driver_updates : List (ℕ × DriverStatus)
  pub kicked : Bool
  pub sweeping : Bool
  pub reconciling : Bool

pub record Config : Type 0 where
  -- `lifecycleEventId`, a name-based UUID of a delivery and an event type
  pub lifecycle_event_id : ℕ → DeliveryEventType → ℕ
  -- `earningsSettlementHours`, in milliseconds
  pub settlement : ℕ
  -- `driverReconcileGraceMs`
  pub grace : ℕ

abbrev pub Handler : Type 0 → Type 0
Handler A = Proc Server A

-- `authHeader` stands for the token of the requester.
pub record DeliveryRequester : Type 0 where
  pub user_id : ℕ
  pub role : UserRole
  pub auth_header : ℕ

module _ (c : Config) where
  unfoldable pub delivery_event : DeliveryEventType → Delivery → DeliveryEvent
  delivery_event event_type d = record {
    event_id = c.lifecycle_event_id d.id event_type;
    event_type = event_type;
    payload = record {
      delivery_id = d.id;
      order_id = d.order_id;
      customer_id = d.customer_id;
      driver_id = d.driver_id;
      assigned_at = d.assigned_at;
      status = d.status;
    };
  }

-- The stage timestamp that is written with a move.
unfoldable pub stage_time : DeliveryStatus → ℕ → Delivery → Delivery
stage_time DeliveryStatus.picked_up now d = record d { picked_up_at = some now }
stage_time DeliveryStatus.delivered now d = record d { delivered_at = some now }
stage_time DeliveryStatus.cancelled now d = record d { cancelled_at = some now }
stage_time _ now d = d

unfoldable pub moved : DeliveryStatus → ℕ → Delivery → Delivery
unfolding stage_time
moved target now d = record (stage_time target now d) { status = target; updated_at = now }

abbrev pub assigned : ℕ → ℕ → Delivery → Delivery
assigned driver_id now d = record d {
  driver_id = some driver_id;
  status = DeliveryStatus.driver_assigned;
  assigned_at = some now;
  updated_at = now;
}

unfoldable pub transaction : {A : Type 0} → (ℕ → Database → Result A × Database) → Handler A
transaction f = act (λ s. record s { db = (f s.now s.db).1 }) (λ s. done (f s.now s.db).0)

unfoldable pub kick : Handler (Unit {0})
kick = act (λ s. record s { kicked = true }) (λ _. ret tt)

unfoldable pub find_or_throw : ℕ → Handler Delivery
find_or_throw id = do d ← gets (λ s. find_by_id id s.db.deliveries); or_throw not_found d

unfoldable pub is_move_allowed : DeliveryStatus → DeliveryStatus → Bool
unfolding is_transition_allowed delivery_transitions DeliveryStatus-discrete
is_move_allowed = is_transition_allowed DeliveryStatus-discrete delivery_transitions

abbrev pub assert_transition : DeliveryStatus → DeliveryStatus → Handler (Unit {0})
assert_transition from to = throw_if (not (is_move_allowed from to)) invalid_state_transition

abbrev pub dispatch_roles : List UserRole
dispatch_roles = UserRole.restaurant_owner ∷ UserRole.admin ∷ []

abbrev pub assert_dispatch_role : UserRole → Handler (Unit {0})
assert_dispatch_role role =
    throw_if (not (includes UserRole-discrete role dispatch_roles)) forbidden

abbrev pub assert_readable_by : ℕ → ℕ → Handler (Unit {0})
assert_readable_by order_id auth = request (λ s. s.world.readable_by order_id auth)

unfoldable pub assert_can_dispatch : ℕ → DeliveryRequester → Handler (Unit {0})
assert_can_dispatch order_id requester = do
  assert_dispatch_role requester.role
  if same UserRole-discrete requester.role UserRole.restaurant_owner
      then assert_readable_by order_id requester.auth_header
      else ret tt

abbrev pub get_order : ℕ → Handler OrderDto
get_order order_id = request (λ s. s.world.order_seen order_id)

abbrev pub get_driver : ℕ → Handler DriverDto
get_driver driver_id = request (λ s. s.world.driver_seen driver_id)

abbrev pub update_order_status : ℕ → OrderStatus → Handler (Unit {0})
update_order_status order_id status =
    act (λ s. record s { order_updates = s.order_updates ++ (order_id, status) ∷ [] })
      (λ s. done (s.world.order_moves order_id status))

abbrev pub update_driver_status : ℕ → DriverStatus → Handler (Unit {0})
update_driver_status driver_id status =
    act (λ s. record s { driver_updates = s.driver_updates ++ (driver_id, status) ∷ [] })
      (λ s. done (s.world.driver_moves driver_id status))

-- The driver may be released already, or taken off duty.
unfoldable pub after_rejected_release : ℕ → Error → Handler (Unit {0})
after_rejected_release driver_id e =
    if not (same Error-discrete e driver_status_rejected) then throw e else (do
      driver ← get_driver driver_id
      throw_if (same DriverStatus-discrete driver.status DriverStatus.busy) e)

unfoldable pub release_driver : ℕ → Handler (Unit {0})
release_driver driver_id =
    catch (after_rejected_release driver_id) (update_driver_status driver_id DriverStatus.available)

unfoldable pub give_back_claimed_driver : ℕ → Handler (Unit {0})
give_back_claimed_driver driver_id = catch (λ e. ret tt) (release_driver driver_id)

abbrev pub some_other : ℕ → List Delivery → Bool
some_other id [] = false
some_other id (d ∷ deliveries) = not (d.id == id) || some_other id deliveries

abbrev pub release_unless_active : ℕ → ℕ → List Delivery → Handler (Unit {0})
release_unless_active id driver_id active =
    if some_other id active then ret tt else release_driver driver_id

unfoldable pub release_driver_of : Delivery → Handler (Unit {0})
release_driver_of d = elim d.driver_id [
  | none ↦ ret tt
  | some driver_id ↦
      gets (λ s. find_active_by_driver_id driver_id s.db.deliveries)
      >>= release_unless_active d.id driver_id
]

-- The attempts to claim a driver, as many as are left.
unfoldable pub claim_attempts : ℕ → Handler DriverDto
claim_attempts zero = throw conflict
claim_attempts (suc n) = do
  available ← request (λ s. s.world.available_driver)
  driver ← or_throw conflict available
  catch
      (λ e.
        if not (same Error-discrete e driver_status_rejected) then throw e else claim_attempts n)
      (update_driver_status driver.id DriverStatus.busy >>= λ _. ret driver)

abbrev pub max_driver_claim_attempts : ℕ
max_driver_claim_attempts = 3

abbrev pub claim_available_driver : Handler DriverDto
claim_available_driver = claim_attempts max_driver_claim_attempts

abbrev pub order_delivery_path : List OrderStatus
order_delivery_path =
    OrderStatus.ready_for_pickup ∷ OrderStatus.driver_assigned ∷ OrderStatus.picked_up
    ∷ OrderStatus.delivered ∷ []

-- `indexOf`; none where it gives -1
abbrev pub index_of : OrderStatus → List OrderStatus → Option ℕ
index_of status [] = none
index_of status (s ∷ statuses) =
    if same OrderStatus-discrete s status
    then some 0
    else elim (index_of status statuses) [ none ↦ none | some i ↦ some (suc i) ]

-- The statuses of the path after the one at `from`, up to and with the one at `to`.
abbrev pub steps_between : ℕ → ℕ → List OrderStatus
steps_between from to = drop (suc from) (take (suc to) order_delivery_path)

unfoldable pub update_along : ℕ → List OrderStatus → Handler (Unit {0})
update_along order_id [] = ret tt
update_along order_id (status ∷ statuses) = do
  update_order_status order_id status
  update_along order_id statuses

abbrev pub update_from : ℕ → Option ℕ → Option ℕ → Handler (Unit {0})
update_from order_id (some from) (some to) = update_along order_id (steps_between from to)
update_from order_id _ _ = ret tt

unfoldable pub sync_order_along_delivery : ℕ → OrderStatus → Handler (Unit {0})
sync_order_along_delivery order_id target = do
  order ← get_order order_id
  update_from order_id (index_of order.status order_delivery_path)
      (index_of target order_delivery_path)
