-- ===== src/Drivers/Service.antt =====
-- `DriversService` (services/drivers.service.ts) and the rules of transitions
-- (common/driver-transition-rules.ts). A write and the read of the written row are two steps.
use delivery_plus.Prelude.{
  ℕ, suc, Bool, true, false, not, ◌&&◌, Option, none, some, List, [], ◌∷◌, ◌==◌, same, includes,
  if◌then◌else◌,
}
use delivery_plus.Shared.Errors.{
  conflict, not_found, forbidden, invalid_state_transition, phone_not_verified, unique_violation,
}
use delivery_plus.Shared.Enums.{
  UserRole, UserRole-discrete, DriverStatus, DriverStatus-discrete, driver_transitions,
  is_transition_allowed,
}
use delivery_plus.Shared.Text.{Text}
use delivery_plus.Shared.Paging.{PaginatedResult, paginated}
use delivery_plus.Proc.{
  Proc, act, done, Result, ok, err, ret, throw, gets, request, or_throw, ◌>>=◌, ◌>>◌, throw_if,
  when,
}
use delivery_plus.Drivers.Store.{
  Driver, VerificationStatus, VerificationStatus-discrete, find_by_id, find_by_user_id,
  update_where, new_driver, available,
}

pub record Fleet : Type 0 where
  pub drivers : List Driver
  pub next_id : ℕ
  -- the time, and when user-service says that a token's phone was verified
  pub now : ℕ
  pub phone_verified_at : ℕ → Result (Option ℕ)

abbrev pub Handler : Type 0 → Type 0
Handler A = Proc Fleet A

pub data VehicleDto : Type 0 where
  vehicle : Text → Text → VehicleDto

pub record UpdateVerificationDto : Type 0 where
  pub status : VerificationStatus
  pub note : Option Text

abbrev is_self_transition : DriverStatus → DriverStatus → Bool
is_self_transition DriverStatus.offline DriverStatus.available = true
is_self_transition DriverStatus.available DriverStatus.offline = true
is_self_transition _ _ = false

unfoldable pub is_role_allowed_for_transition : DriverStatus → DriverStatus → UserRole → Bool
is_role_allowed_for_transition from to UserRole.admin = true
is_role_allowed_for_transition from to UserRole.driver = is_self_transition from to
is_role_allowed_for_transition from to _ = false

abbrev pub idempotent_statuses : List DriverStatus
idempotent_statuses = DriverStatus.available ∷ DriverStatus.offline ∷ []

unfoldable pub is_repeat : DriverStatus → DriverStatus → Bool
is_repeat current target =
    same DriverStatus-discrete current target
    && includes DriverStatus-discrete target idempotent_statuses

-- `UPDATE`: whether a row was affected.
unfoldable pub update : ℕ → Option DriverStatus → (Driver → Driver) → Handler Bool
update id status change =
    act (λ s. record s { drivers = (update_where id status change s.drivers).1 })
      (λ s. ret (update_where id status change s.drivers).0)

unfoldable pub read_if : ℕ → Bool → Handler (Option Driver)
read_if id affected = if affected then gets (λ s. find_by_id id s.drivers) else ret none

abbrev pub with_status : DriverStatus → Driver → Driver
with_status to d = record d { status = to }

unfoldable pub transition_status : ℕ → DriverStatus → DriverStatus → Handler (Option Driver)
transition_status id from to = do
  affected ← update id (some from) (with_status to)
  read_if id affected

unfoldable pub get_by_id : ℕ → Handler Driver
get_by_id id = do driver ← gets (λ s. find_by_id id s.drivers); or_throw not_found driver

unfoldable pub get_by_user_id : ℕ → Handler Driver
get_by_user_id user_id = do
  driver ← gets (λ s. find_by_user_id user_id s.drivers)
  or_throw not_found driver

-- The compare-and-set found the driver changed.
unfoldable pub after_lost_race : ℕ → DriverStatus → Handler Driver
after_lost_race id target = do
  current ← get_by_id id
  if is_repeat current.status target then ret current else throw invalid_state_transition

unfoldable pub after_write : ℕ → DriverStatus → Option Driver → Handler Driver
after_write id target (some d) = ret d
after_write id target none = after_lost_race id target

-- The checks of `transition`, on the driver as it was read.
unfoldable pub write_transition : Driver → DriverStatus → UserRole → Handler Driver
write_transition d target role =
    if not (is_transition_allowed DriverStatus-discrete driver_transitions d.status target)
    then throw invalid_state_transition
    else if not (is_role_allowed_for_transition d.status target role)
    then throw forbidden
    else (transition_status d.id d.status target >>= after_write d.id target)

unfoldable pub transition : Driver → DriverStatus → UserRole → Handler Driver
transition d target role =
    if is_repeat d.status target then ret d else write_transition d target role

unfoldable pub update_status_by_id : ℕ → UserRole → DriverStatus → Handler Driver
update_status_by_id id role target = do
  throw_if (not (same UserRole-discrete role UserRole.admin)) forbidden
  d ← get_by_id id
  transition d target role

unfoldable pub update_status : ℕ → UserRole → DriverStatus → Handler Driver
update_status user_id role target = do d ← get_by_user_id user_id; transition d target role

abbrev pub is_set : Option ℕ → Bool
is_set none = false
is_set (some _) = true

unfoldable pub assert_verified_phone : ℕ → Handler (Unit {0})
assert_verified_phone token = do
  verified_at ← request (λ s. s.phone_verified_at token)
  throw_if (not (is_set verified_at)) phone_not_verified

-- `required` is the configuration of the process.
unfoldable pub go_online : Bool → ℕ → UserRole → ℕ → Handler Driver
go_online required user_id role token = do
  d ← get_by_user_id user_id
  when (required && not (same DriverStatus-discrete d.status DriverStatus.available))
      (assert_verified_phone token)
  transition d DriverStatus.available role

-- The insert, with its unique index on the user.
abbrev pub insert_unless : Option Driver → Fleet → ℕ → VehicleDto → Result Driver × Fleet
insert_unless (some _) s user_id dto = (err unique_violation, s)
insert_unless none s user_id (vehicle vehicle_type license_plate) =
    let d = new_driver s.next_id user_id vehicle_type license_plate in
    (ok d, record s { drivers = d ∷ s.drivers; next_id = suc s.next_id })

abbrev pub inserted : Fleet → ℕ → VehicleDto → Result Driver × Fleet
inserted s user_id dto = insert_unless (find_by_user_id user_id s.drivers) s user_id dto

unfoldable pub create : ℕ → VehicleDto → Handler Driver
create user_id dto = act (λ s. (inserted s user_id dto).1) (λ s. done (inserted s user_id dto).0)

abbrev pub is_found : Option Driver → Bool
is_found none = false
is_found (some _) = true

unfoldable pub register : ℕ → VehicleDto → Handler Driver
register user_id dto = do
  existing ← gets (λ s. find_by_user_id user_id s.drivers)
  throw_if (is_found existing) conflict
  create user_id dto

abbrev pub with_vehicle : VehicleDto → Driver → Driver
with_vehicle (vehicle vehicle_type license_plate) d = record d {
  vehicle_type = vehicle_type;
  license_plate = license_plate;
}

unfoldable pub update_own_vehicle : ℕ → VehicleDto → Handler Driver
update_own_vehicle user_id dto = do
  d ← get_by_user_id user_id
  throw_if (not (same DriverStatus-discrete d.status DriverStatus.offline)) conflict
  affected ← update d.id (some DriverStatus.offline) (with_vehicle dto)
  updated ← read_if d.id affected
  or_throw conflict updated

-- `dto.note ? dto.note : null`
abbrev pub note_of : Option Text → Option Text
note_of none = none
note_of (some []) = none
note_of (some (c ∷ t)) = some (c ∷ t)

abbrev pub with_verification : UpdateVerificationDto → ℕ → Driver → Driver
with_verification dto now d = record d {
  verification_status = dto.status;
  verification_note = note_of dto.note;
  verified_at =
      if same VerificationStatus-discrete dto.status VerificationStatus.verified
      then some now
      else none;
}

unfoldable pub set_verification : ℕ → UpdateVerificationDto → Handler Driver
set_verification id dto = do
  now ← gets (λ s. s.now)
  get_by_id id
  update id none (with_verification dto now)
  updated ← gets (λ s. find_by_id id s.drivers)
  or_throw not_found updated

unfoldable pub get_by_id_for : ℕ → ℕ → UserRole → Handler Driver
get_by_id_for id requester role = do
  d ← get_by_id id
  throw_if (not (same UserRole-discrete role UserRole.admin) && not (d.user_id == requester))
      forbidden
  ret d

unfoldable pub list_available : ℕ → ℕ → Handler (PaginatedResult Driver)
list_available page limit = gets (λ s. paginated page limit (available s.drivers))

-- The routes of the service, with the role of the caller where a handler reads it.
pub data Request : Type 0 where
  registers : (user_id : ℕ) → VehicleDto → Request
  goes_online : (user_id token : ℕ) → UserRole → Request
  updates : (user_id : ℕ) → UserRole → DriverStatus → Request
  updates_by_id : (id : ℕ) → UserRole → DriverStatus → Request
  changes_vehicle : (user_id : ℕ) → VehicleDto → Request
  verifies : (id : ℕ) → UpdateVerificationDto → Request
  gets_own : (user_id : ℕ) → Request
  gets_by_id : (id requester : ℕ) → UserRole → Request
  lists : (page limit : ℕ) → Request

unfoldable pub handle : Bool → Request → Handler (Unit {0})
handle required (registers user_id dto) = register user_id dto >>= λ _. ret tt
handle required (goes_online user_id token role) =
    go_online required user_id role token >>= λ _. ret tt
handle required (updates user_id role target) = update_status user_id role target >>= λ _. ret tt
handle required (updates_by_id id role target) = update_status_by_id id role target >>= λ _. ret tt
handle required (changes_vehicle user_id dto) = update_own_vehicle user_id dto >>= λ _. ret tt
handle required (verifies id dto) = set_verification id dto >>= λ _. ret tt
handle required (gets_own user_id) = get_by_user_id user_id >>= λ _. ret tt
handle required (gets_by_id id requester role) = get_by_id_for id requester role >>= λ _. ret tt
handle required (lists page limit) = list_available page limit >>= λ _. ret tt
