-- ===== src/Deliveries/Service.antt =====
-- The handlers of `DeliveriesService` (services/deliveries.service.ts).
use delivery_plus.Prelude.{
  ℕ, Bool, true, false, not, ◌&&◌, ◌||◌, Option, none, some, [], ◌∷◌, ◌==◌, leb, same,
  if◌then◌else◌,
}
use delivery_plus.Shared.Errors.{
  Error, Error-discrete, bad_request, forbidden, conflict, not_found, invalid_state_transition,
  unique_violation,
}
use delivery_plus.Shared.Enums.{
  UserRole, UserRole-discrete, OrderStatus, OrderStatus-discrete, DeliveryStatus,
  DeliveryStatus-discrete,
}
use delivery_plus.Shared.Events.{DeliveryEventType}
use delivery_plus.Shared.Text.{Text}
use delivery_plus.Proc.{ret, throw, gets, or_throw, catch, ◌>>=◌, ◌>>◌, throw_if}
use delivery_plus.Deliveries.Store.{
  Delivery, LedgerEntryType, delivery_earning, cancellation_compensation, Earning, is_found,
  find_by_order_id, create, transition,
}
use delivery_plus.Deliveries.Dispatch.{
  OrderFeeSplitDto, DriverDto, Config, Handler, DeliveryRequester, delivery_event, moved, assigned,
  transaction, kick, find_or_throw, assert_transition, assert_dispatch_role, assert_readable_by,
  assert_can_dispatch, get_order, get_driver, update_order_status, give_back_claimed_driver,
  release_driver_of, claim_available_driver, sync_order_along_delivery,
}
use delivery_plus.Proc.{request}

-- Only the driver of the delivery.
unfoldable pub assert_is_assigned_driver : Delivery → ℕ → Error → Handler (Unit {0})
assert_is_assigned_driver d user_id unassigned = do
  driver_id ← or_throw unassigned d.driver_id
  driver ← get_driver driver_id
  throw_if (not (driver.user_id == user_id)) forbidden

unfoldable pub assert_assigned_driver : Delivery → ℕ → UserRole → Handler (Unit {0})
assert_assigned_driver d requester role =
    if same UserRole-discrete role UserRole.admin
    then ret tt
    else if not (same UserRole-discrete role UserRole.driver)
    then throw forbidden
    else assert_is_assigned_driver d requester conflict

unfoldable pub assert_can_read : Delivery → DeliveryRequester → Handler (Unit {0})
assert_can_read d reader = elim reader.role [
  | UserRole.admin ↦ ret tt
  | UserRole.driver ↦ assert_is_assigned_driver d reader.user_id forbidden
  | UserRole.customer ↦ assert_readable_by d.order_id reader.auth_header
  | UserRole.restaurant_owner ↦ assert_readable_by d.order_id reader.auth_header
]

-- The targets of `earningFor`.
pub data Ending : Type 0 where
  delivering cancelling : Ending

abbrev pub status_of : Ending → DeliveryStatus
status_of delivering = DeliveryStatus.delivered
status_of cancelling = DeliveryStatus.cancelled

abbrev pub type_of : Ending → LedgerEntryType
type_of delivering = delivery_earning
type_of cancelling = cancellation_compensation

abbrev pub share_of : Ending → OrderFeeSplitDto → Text
share_of delivering split = split.driver_fee_share
share_of cancelling split = split.driver_cancel_fee_share

abbrev pub is_after_pickup : DeliveryStatus → Bool
is_after_pickup status =
    same DeliveryStatus-discrete status DeliveryStatus.picked_up
    || same DeliveryStatus-discrete status DeliveryStatus.in_transit

abbrev pub is_cancelling : Ending → Bool
is_cancelling delivering = false
is_cancelling cancelling = true

-- Nothing is earned by this move: it was made before, or before a pickup, or has no driver.
unfoldable pub earns_nothing : Delivery → Ending → Bool
earns_nothing d ending =
    same DeliveryStatus-discrete d.status (status_of ending)
    || elim d.driver_id [ none ↦ true | some _ ↦ false ]
    || (is_cancelling ending && not (is_after_pickup d.status))

abbrev pub dispatcher_response : Error → Error
dispatcher_response e = if same Error-discrete e unique_violation then conflict else e

-- `Number.parseFloat(amount) > 0`, of a decimal numeral without an exponent
unfoldable pub is_positive : Text → Bool
is_positive [] = false
is_positive (digit ∷ rest) =
    let later = is_positive rest in
    if leb b'1' digit && leb digit b'9'
    then true
    else if (digit == b'0') || (digit == b'.')
    then later
    else false

unfoldable pub after_driver_assigned : Delivery → Handler Delivery
after_driver_assigned d = do sync_order_along_delivery d.order_id OrderStatus.driver_assigned; ret d

-- The compare-and-set of an assignment was lost, or another request's move was first.
unfoldable pub after_lost_assignment : ℕ → DriverDto → Handler Delivery
after_lost_assignment id driver = do
  give_back_claimed_driver driver.id
  current ← find_or_throw id
  if same DeliveryStatus-discrete current.status DeliveryStatus.driver_assigned
      then after_driver_assigned current
      else throw invalid_state_transition

abbrev pub after_assignment : ℕ → DriverDto → Option Delivery → Handler Delivery
after_assignment id driver none = after_lost_assignment id driver
after_assignment id driver (some updated) = kick >> after_driver_assigned updated

-- The delivery after the compare-and-set of a move: as written, or as another request left it.
abbrev pub written_or_read : ℕ → Option Delivery → Handler Delivery
written_or_read id (some updated) = kick >> ret updated
written_or_read id none = find_or_throw id

module _ (c : Config) where
  abbrev pub earned : Ending → OrderFeeSplitDto → Option Earning
  earned ending split =
      if is_positive (share_of ending split)
      then some (record {
        type = type_of ending;
        amount = share_of ending split;
        settlement = c.settlement;
      })
      else none

  unfoldable pub earning_for : Delivery → Ending → Handler (Option Earning)
  earning_for d ending =
      if earns_nothing d ending
      then ret none
      else (do split ← request (λ s. s.world.fee_split d.order_id); ret (earned ending split))

  -- `deliveries.create`, with the conflict that its unique violation means.
  unfoldable pub insert : ℕ → Option ℕ → Handler Delivery
  insert order_id customer_id =
      catch (λ e. throw (dispatcher_response e))
        (transaction
          (λ now. create now order_id customer_id (delivery_event c DeliveryEventType.created)))

  unfoldable pub create_delivery : DeliveryRequester → ℕ → Handler Delivery
  create_delivery requester order_id = do
    assert_can_dispatch order_id requester
    existing ← gets (λ s. find_by_order_id order_id s.db.deliveries)
    throw_if (is_found existing) conflict
    order ← get_order order_id
    throw_if (not (same OrderStatus-discrete order.status OrderStatus.ready_for_pickup)) bad_request
    d ← insert order_id order.customer_id
    kick
    ret d

  unfoldable pub record_assignment : Delivery → DriverDto → Handler (Option Delivery)
  record_assignment d driver =
      catch (λ e. give_back_claimed_driver driver.id >>= λ _. throw e)
        (transaction (λ now.
          transition d.id d.status (assigned driver.id now)
            (delivery_event c DeliveryEventType.driver_assigned) now none))

  unfoldable pub claim_and_assign : Delivery → Handler Delivery
  claim_and_assign d = do
    assert_transition d.status DeliveryStatus.driver_assigned
    driver ← claim_available_driver
    updated ← record_assignment d driver
    after_assignment d.id driver updated

  unfoldable pub assign_driver : ℕ → DeliveryRequester → Handler Delivery
  assign_driver id requester = do
    assert_dispatch_role requester.role
    d ← find_or_throw id
    assert_can_dispatch d.order_id requester
    if same DeliveryStatus-discrete d.status DeliveryStatus.driver_assigned
        then after_driver_assigned d
        else claim_and_assign d

  unfoldable pub move_on :
      Delivery → DeliveryStatus → DeliveryEventType → Option Earning → Handler Delivery
  move_on d target event_type earning = do
    assert_transition d.status target
    updated ← transaction (λ now.
        transition d.id d.status (moved target now) (delivery_event c event_type) now earning)
    current ← written_or_read d.id updated
    throw_if (not (same DeliveryStatus-discrete current.status target)) invalid_state_transition
    ret current

  unfoldable pub advance :
      Delivery
      → DeliveryStatus
      → DeliveryEventType
      → (Delivery → Handler (Unit {0}))
      → Option Earning
      → Handler Delivery
  advance d target event_type effects earning = do
    current ←
        (if same DeliveryStatus-discrete d.status target
          then ret d
          else move_on d target event_type earning)
    effects current
    ret current

  unfoldable pub pickup : ℕ → ℕ → UserRole → Handler Delivery
  pickup id requester role = do
    d ← find_or_throw id
    assert_assigned_driver d requester role
    advance d DeliveryStatus.picked_up DeliveryEventType.picked_up
        (λ updated. sync_order_along_delivery updated.order_id OrderStatus.picked_up) none

  unfoldable pub start : ℕ → ℕ → UserRole → Handler Delivery
  start id requester role = do
    d ← find_or_throw id
    assert_assigned_driver d requester role
    advance d DeliveryStatus.in_transit DeliveryEventType.in_transit
        (λ updated. sync_order_along_delivery updated.order_id OrderStatus.picked_up) none

  unfoldable pub complete : ℕ → ℕ → UserRole → Handler Delivery
  complete id requester role = do
    d ← find_or_throw id
    assert_assigned_driver d requester role
    earning ← earning_for d delivering
    advance d DeliveryStatus.delivered DeliveryEventType.completed
        (λ updated.
          release_driver_of updated
          >> sync_order_along_delivery updated.order_id OrderStatus.delivered)
        earning

  unfoldable pub cancel : ℕ → DeliveryRequester → Handler Delivery
  cancel id requester = do
    assert_dispatch_role requester.role
    d ← find_or_throw id
    assert_can_dispatch d.order_id requester
    compensation ← earning_for d cancelling
    advance d DeliveryStatus.cancelled DeliveryEventType.cancelled
        (λ updated.
          release_driver_of updated >> update_order_status updated.order_id OrderStatus.cancelled)
        compensation

unfoldable pub get_by_id : ℕ → DeliveryRequester → Handler Delivery
get_by_id id reader = do d ← find_or_throw id; assert_can_read d reader; ret d

abbrev pub assert_reads_order : ℕ → DeliveryRequester → Handler (Unit {0})
assert_reads_order order_id reader = elim reader.role [
  | UserRole.customer ↦ assert_readable_by order_id reader.auth_header
  | UserRole.restaurant_owner ↦ assert_readable_by order_id reader.auth_header
  | UserRole.admin ↦ ret tt
  | UserRole.driver ↦ ret tt
]

unfoldable pub get_by_order_id : ℕ → DeliveryRequester → Handler Delivery
get_by_order_id order_id reader = do
  assert_reads_order order_id reader
  found ← gets (λ s. find_by_order_id order_id s.db.deliveries)
  d ← or_throw not_found found
  if same UserRole-discrete reader.role UserRole.driver
      then assert_is_assigned_driver d reader.user_id forbidden
      else ret tt
  ret d
