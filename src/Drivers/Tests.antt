-- ===== src/Drivers/Tests.antt =====
-- driver-service on a table of two drivers, one of them on a delivery.
use delivery_plus.Prelude.{ℕ, ◌≡◌, refl, true, none, some, [], ◌∷◌, arith}
use delivery_plus.Shared.Errors.{invalid_state_transition}
use delivery_plus.Shared.Enums.{UserRole, DriverStatus, DriverStatus-discrete}
use delivery_plus.Shared.Text.{text}
use delivery_plus.Proc.{Result, ok, err, run}
use delivery_plus.Proc.Alone.{run_alone}
use delivery_plus.Drivers.Store.{Driver, VerificationStatus, find_by_id}
use delivery_plus.Drivers.Service.{Fleet, transition, updates, handle}
use delivery_plus.Drivers.Busy.{IsOnDelivery}
use delivery_plus.Drivers.Busy.Handlers.{handle-KeepsBusy}
use delivery_plus.Drivers.Claims.{claim_is_exclusive}

abbrev a_driver : ℕ → DriverStatus → Driver
a_driver id status = record {
  id = id;
  user_id = id;
  vehicle_type = text "Scooter";
  license_plate = text "ABC-1234";
  status = status;
  verification_status = VerificationStatus.verified;
  verification_note = none;
  verified_at = some 3;
}

abbrev fleet : Fleet
fleet = record {
  drivers = a_driver 1 DriverStatus.busy ∷ a_driver 0 DriverStatus.available ∷ [];
  next_id = 2;
  now = 9;
  phone_verified_at = λ token. ok (some 4);
}

-- The driver on a delivery asks to be available.
handle-KeepsBusy_example :
    IsOnDelivery 1 (run (handle true (updates 1 UserRole.driver DriverStatus.available)) [] fleet).1
unfolding find_by_id DriverStatus-discrete
handle-KeepsBusy_example =
    handle-KeepsBusy 1 true (updates 1 UserRole.driver DriverStatus.available) [] fleet
      (λ e. ground arith) tt (record { fresh = (omega arith, (omega arith, tt)); busy = refl })

-- Of two claims of driver 0, both on the driver as it was read while it was available, the first wins.
abbrev claim_of : ℕ → Fleet → Result Driver × Fleet
claim_of id =
    run_alone (transition (a_driver id DriverStatus.available) DriverStatus.busy UserRole.admin)

claim_is_exclusive_example :
    let (answer, t) = claim_of 0 fleet in
    (answer ≡ ok (a_driver 0 DriverStatus.busy))
    × (find_by_id 0 t.drivers ≡ some (a_driver 0 DriverStatus.busy))
    × (claim_of 0 t ≡ (err invalid_state_transition, t))
unfolding find_by_id
claim_is_exclusive_example =
    claim_is_exclusive (a_driver 0 DriverStatus.available) (a_driver 0 DriverStatus.available)
      (a_driver 0 DriverStatus.available) fleet (claim_of 0 fleet).1 refl refl refl refl
      (omega arith, (omega arith, tt)) (λ h. h)
