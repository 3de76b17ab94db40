-- ===== src/Drivers/Store.antt =====
-- The drivers table and its repository (entities/driver.entity.ts, repositories/drivers.repository.ts).
-- The row updated last is first, as `updatedAt DESC` sorts them.
pub mod Laws
use delivery_plus.Prelude.{
  ℕ, Bool, true, false, Option, none, some, List, [], ◌∷◌, ◌==◌, same, if◌then◌else◌,
}
use delivery_plus.Shared.Enums.{DriverStatus, DriverStatus-discrete}
use delivery_plus.Shared.Text.{Text}

pub data VerificationStatus : Type 0 where
  pending verified rejected : VerificationStatus

unfoldable pub VerificationStatus-discrete : Discrete VerificationStatus
VerificationStatus-discrete = hlevel

pub record Driver : Type 0 where
  pub id : ℕ
  pub user_id : ℕ
  pub vehicle_type : Text
  pub license_plate : Text
  pub status : DriverStatus
  pub verification_status : VerificationStatus
  pub verification_note : Option Text
  pub verified_at : Option ℕ

unfoldable pub find_by_id : ℕ → List Driver → Option Driver
find_by_id id [] = none
find_by_id id (d ∷ drivers) = if d.id == id then some d else find_by_id id drivers

unfoldable pub find_by_user_id : ℕ → List Driver → Option Driver
find_by_user_id user_id [] = none
find_by_user_id user_id (d ∷ drivers) =
    if d.user_id == user_id then some d else find_by_user_id user_id drivers

unfoldable pub remove : ℕ → List Driver → List Driver
remove id [] = []
remove id (d ∷ drivers) = let rest = remove id drivers in if d.id == id then rest else d ∷ rest

abbrev pub has_status : Option DriverStatus → Driver → Bool
has_status none d = true
has_status (some status) d = same DriverStatus-discrete d.status status

abbrev pub written :
    ℕ → Option DriverStatus → (Driver → Driver) → List Driver → Option Driver → Bool × List Driver
written id status change drivers none = (false, drivers)
written id status change drivers (some d) =
    if has_status status d then (true, change d ∷ remove id drivers) else (false, drivers)

-- UPDATE … WHERE "id" = … [AND "status" = …]: whether a row was affected, and the table.
unfoldable pub update_where :
    ℕ → Option DriverStatus → (Driver → Driver) → List Driver → Bool × List Driver
update_where id status change drivers = written id status change drivers (find_by_id id drivers)

abbrev pub new_driver : ℕ → ℕ → Text → Text → Driver
new_driver id user_id vehicle_type license_plate = record {
  id = id;
  user_id = user_id;
  vehicle_type = vehicle_type;
  license_plate = license_plate;
  status = DriverStatus.offline;
  verification_status = VerificationStatus.pending;
  verification_note = none;
  verified_at = none;
}

abbrev pub available : List Driver → List Driver
available [] = []
available (d ∷ drivers) =
    if same DriverStatus-discrete d.status DriverStatus.available
    then d ∷ available drivers
    else available drivers
