-- ===== src/Drivers/Busy.antt =====
-- A driver on a delivery, and the updates that leave it there.
pub mod Handlers
use delivery_plus.Prelude.{
  ℕ, suc, ◌<◌, ◌≡◌, ◌≢◌, refl, sym, ◌∙◌, subst, ==_iff, Bool, true, false, not, Option, none, some,
  List, [], ◌∷◌, ◌==◌, same, if◌then◌else◌, arith, All, All-mono, Bool-cases, Option-cases, inl,
  inr,
}
use delivery_plus.Shared.Enums.{
  UserRole, DriverStatus, DriverStatus-discrete, driver_transitions, is_transition_allowed,
}
use delivery_plus.Shared.Paging.{paginated}
use delivery_plus.Proc.{run}
use delivery_plus.Proc.Rules.{
  Guarantees, at_end, at_step, Guarantees-bind, Guarantees-or_throw, Guarantees-if,
  Guarantees-throw_if, Guarantees-gets, Interferes, run-Guarantees, guarantees,
}
use delivery_plus.Drivers.Store.{
  Driver, find_by_id, remove, has_status, written, update_where, find_by_user_id, new_driver,
  available,
}
use delivery_plus.Drivers.Service.{
  Fleet, Handler, VehicleDto, UpdateVerificationDto, is_role_allowed_for_transition, is_repeat,
  update, read_if, with_status, transition_status, get_by_id, get_by_user_id, after_lost_race,
  after_write, write_transition, transition, update_status, update_status_by_id,
  assert_verified_phone, go_online, insert_unless, create, register, with_vehicle,
  update_own_vehicle, get_by_id_for, list_available, vehicle, with_verification, set_verification,
  Request, registers, goes_online, updates, updates_by_id, changes_vehicle, verifies, gets_own,
  gets_by_id, lists, handle,
}
use delivery_plus.Drivers.Store.Laws.{
  remove-All, find_by_id-All, find_by_id-id, find_by_id-remove, head, update_where_cases,
}

abbrev pub is_busy_driver : Option Driver → Bool
is_busy_driver none = false
is_busy_driver (some d) = same DriverStatus-discrete d.status DriverStatus.busy

abbrev pub is_busy : ℕ → Fleet → Bool
is_busy id s = is_busy_driver (find_by_id id s.drivers)

-- Ids are below the next one, and the driver is busy.
pub record IsOnDelivery (id : ℕ) (s : Fleet) : Type 0 where
  pub fresh : All (λ d. d.id < s.next_id) s.drivers
  pub busy : is_busy id s ≡ true

-- A step that does not take the driver off a delivery.
abbrev pub KeepsBusy : ℕ → Fleet → Fleet → Type 0
KeepsBusy id s t = IsOnDelivery id s → IsOnDelivery id t

-- An update of another driver, or one that keeps a busy driver busy.
pub update_keeps :
    (id j : ℕ) (status : Option DriverStatus) (change : Driver → Driver) (s : Fleet)
    → ((d : Driver) → (change d).id ≡ d.id)
    → ((d : Driver)
        → has_status status d ≡ true
        → is_busy_driver (some d) ≡ true
        → is_busy_driver (some (change d)) ≡ true)
    → KeepsBusy j s (record s { drivers = (update_where id status change s.drivers).1 })
update_keeps id j status change s keeps_id keeps_busy h =
    update_where_cases (λ drivers. IsOnDelivery j (record s { drivers = drivers })) id status change
      s.drivers h
      (λ d found matches.
        let kept_id = keeps_id d ∙ find_by_id-id id s.drivers d found in
        record {
          fresh = (
            subst (λ i. i < s.next_id) (sym (keeps_id d))
                (find_by_id-All (λ x. x.id < s.next_id) id s.drivers d h.fresh found),
            remove-All (λ x. x.id < s.next_id) id s.drivers h.fresh,
          );
          busy = elim (Bool-cases (id == j)) [
            | inl eq ↦
                rw (head id j (change d) (remove id s.drivers) kept_id, eq)
                  (keeps_busy d matches (
                    subst (λ f. is_busy_driver f ≡ true) found
                      (subst (λ i. is_busy i s ≡ true) (sym ((==_iff id j).0 eq)) h.busy)))
            | inr ne ↦
                rw
                  (
                    head id j (change d) (remove id s.drivers) kept_id,
                    ne,
                    find_by_id-remove id j s.drivers ne,
                  )
                  h.busy
          ];
        })
