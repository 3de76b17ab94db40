-- ===== src/Drivers/Busy/Handlers.antt =====
-- Nobody but an administrator, such as delivery-service, takes a driver off a delivery.
use delivery_plus.Prelude.{
  ℕ, suc, ◌<◌, ◌≡◌, ◌≢◌, refl, Bool, true, false, not, Option, none, some, List, ◌==◌, same, arith,
  All-mono, Option-cases, inl, inr,
}
use delivery_plus.Shared.Enums.{
  UserRole, DriverStatus, DriverStatus-discrete, driver_transitions, is_transition_allowed,
}
use delivery_plus.Shared.Paging.{paginated}
use delivery_plus.Proc.{run}
use delivery_plus.Proc.Rules.{
  Guarantees, at_end, at_step, Guarantees-bind, Guarantees-or_throw, Guarantees-if,
  Guarantees-throw_if, Guarantees-gets, Interferes, run-Guarantees, guarantees,
}
use delivery_plus.Drivers.Store.{Driver, find_by_id, find_by_user_id, new_driver, available}
use delivery_plus.Drivers.Service.{
  Fleet, Handler, VehicleDto, UpdateVerificationDto, is_role_allowed_for_transition, is_repeat,
  update, read_if, with_status, transition_status, get_by_id, get_by_user_id, after_lost_race,
  after_write, write_transition, transition, update_status, update_status_by_id,
  assert_verified_phone, go_online, insert_unless, create, register, with_vehicle,
  update_own_vehicle, get_by_id_for, list_available, vehicle, with_verification, set_verification,
  Request, registers, goes_online, updates, updates_by_id, changes_vehicle, verifies, gets_own,
  gets_by_id, lists, handle,
}
use delivery_plus.Drivers.Store.Laws.{find_by_id-All, find_by_id-id, head}
use delivery_plus.Drivers.Busy.{IsOnDelivery, KeepsBusy, update_keeps}

-- The change of status of a caller that is no administrator never begins at BUSY.
not_from_busy :
    (from to : DriverStatus) (role : UserRole)
    → role ≢ UserRole.admin
    → is_role_allowed_for_transition from to role ≡ true
    → same DriverStatus-discrete from DriverStatus.busy ≡ false
unfolding is_role_allowed_for_transition
not_from_busy DriverStatus.busy to UserRole.driver n h = ground arith
not_from_busy DriverStatus.busy to UserRole.admin n h = absurd (n refl)
not_from_busy from to role n h = ground arith

module _ (id : ℕ) where
  abbrev Keeping : {A : Type 0} → Handler A → Type 0
  Keeping = Guarantees (KeepsBusy id)

  stays : (s : Fleet) → KeepsBusy id s s
  stays s h = h

  ruleset keeping = (guarantees, stays, at_step, Guarantees-bind)

  get_by_id-Keeping : (i : ℕ) → Keeping (get_by_id i)
  unfolding get_by_id
  get_by_id-Keeping i = search keeping

  get_by_user_id-Keeping : (i : ℕ) → Keeping (get_by_user_id i)
  unfolding get_by_user_id
  get_by_user_id-Keeping i = search keeping

  after_write-Keeping :
      (i : ℕ) (target : DriverStatus) (written : Option Driver)
      → Keeping (after_write i target written)
  unfolding after_write after_lost_race
  after_write-Keeping i target none = search (keeping, get_by_id-Keeping)
  after_write-Keeping i target (some d) = at_end _

  read_if-Keeping : (i : ℕ) (affected : Bool) → Keeping (read_if i affected)
  unfolding read_if
  read_if-Keeping i affected = search keeping

  transition_status-Keeping :
      (i : ℕ) (from to : DriverStatus) (role : UserRole)
      → role ≢ UserRole.admin
      → is_role_allowed_for_transition from to role ≡ true
      → Keeping (transition_status i from to)
  unfolding transition_status update
  transition_status-Keeping i from to role n h =
      Guarantees-bind
        (at_step
          (λ s.
            update_keeps i id (some from) (with_status to) s (λ d. refl)
              (λ d m b. ground (arith, not_from_busy from to role n h)))
          (λ s. at_end _))
        (λ affected. read_if-Keeping i affected)

  write_transition-Keeping :
      (d : Driver) (target : DriverStatus) (role : UserRole)
      → role ≢ UserRole.admin
      → Keeping (write_transition d target role)
  unfolding write_transition
  write_transition-Keeping d target role n =
      Guarantees-if
        (not (is_transition_allowed DriverStatus-discrete driver_transitions d.status target))
        (λ _. at_end _)
        (λ _.
          Guarantees-if (not (is_role_allowed_for_transition d.status target role)) (λ _. at_end _)
            (λ passed.
              Guarantees-bind (transition_status-Keeping d.id d.status target role n (ground arith))
                (λ w. after_write-Keeping d.id target w)))

  transition-Keeping :
      (d : Driver) (target : DriverStatus) (role : UserRole)
      → role ≢ UserRole.admin
      → Keeping (transition d target role)
  unfolding transition
  transition-Keeping d target role n =
      Guarantees-if (is_repeat d.status target) (λ _. at_end _)
        (λ _. write_transition-Keeping d target role n)

  update_status-Keeping :
      (user_id : ℕ) (role : UserRole) (target : DriverStatus)
      → role ≢ UserRole.admin
      → Keeping (update_status user_id role target)
  unfolding update_status
  update_status-Keeping user_id role target n =
      Guarantees-bind (get_by_user_id-Keeping user_id) (λ d. transition-Keeping d target role n)

  update_status_by_id-Keeping :
      (i : ℕ) (role : UserRole) (target : DriverStatus)
      → role ≢ UserRole.admin
      → Keeping (update_status_by_id i role target)
  unfolding update_status_by_id
  update_status_by_id-Keeping i role target n =
      Guarantees-bind (Guarantees-throw_if _ _)
        (λ _. Guarantees-bind (get_by_id-Keeping i) (λ d. transition-Keeping d target role n))

  go_online-Keeping :
      (required : Bool) (user_id : ℕ) (role : UserRole) (token : ℕ)
      → role ≢ UserRole.admin
      → Keeping (go_online required user_id role token)
  unfolding go_online assert_verified_phone
  go_online-Keeping required user_id role token n =
      Guarantees-bind (get_by_user_id-Keeping user_id) (λ d.
        Guarantees-bind (search keeping) (λ _. transition-Keeping d DriverStatus.available role n))

  -- A busy driver is in the table, so its id is not the next one.
  not_next : (s : Fleet) → IsOnDelivery id s → (s.next_id == id) ≡ false
  not_next s h = elim (Option-cases (find_by_id id s.drivers)) [
    | inl missing ↦ absurd (ground (arith, h.busy))
    | inr (d, found) ↦ ground (
      arith,
      find_by_id-id id s.drivers d found,
      find_by_id-All (λ x. x.id < s.next_id) id s.drivers d h.fresh found,
    )
  ]

  insert_keeps :
      (found : Option Driver) (user_id : ℕ) (dto : VehicleDto) (s : Fleet)
      → KeepsBusy id s (insert_unless found s user_id dto).1
  insert_keeps (some d) user_id dto s h = h
  insert_keeps none user_id (vehicle t p) s h = record {
    fresh = (
      omega arith,
      All-mono (λ d. d.id < s.next_id) (λ d. d.id < suc s.next_id) s.drivers (λ d l. omega arith)
          h.fresh,
    );
    busy =
        rw (head s.next_id id (new_driver s.next_id user_id t p) s.drivers refl, not_next s h)
          h.busy;
  }

  register-Keeping : (user_id : ℕ) (dto : VehicleDto) → Keeping (register user_id dto)
  unfolding register create
  register-Keeping user_id dto = Guarantees-bind (search keeping) (λ _.
      Guarantees-bind (Guarantees-throw_if _ _) (λ _.
        at_step (λ s. insert_keeps (find_by_user_id user_id s.drivers) user_id dto s)
          (λ s. at_end _)))

  with_vehicle_keeps :
      (dto : VehicleDto) (d : Driver)
      → ((with_vehicle dto d).id ≡ d.id) × ((with_vehicle dto d).status ≡ d.status)
  with_vehicle_keeps (vehicle t p) d = (refl, refl)

  update_own_vehicle-Keeping :
      (user_id : ℕ) (dto : VehicleDto) → Keeping (update_own_vehicle user_id dto)
  unfolding update_own_vehicle update
  update_own_vehicle-Keeping user_id dto = Guarantees-bind (get_by_user_id-Keeping user_id) (λ d.
      Guarantees-bind (Guarantees-throw_if _ _) (λ _.
        Guarantees-bind
          (at_step
            (λ s.
              update_keeps d.id id (some DriverStatus.offline) (with_vehicle dto) s
                (λ x. (with_vehicle_keeps dto x).0) (λ x m b. rw ((with_vehicle_keeps dto x).1) b))
            (λ s. at_end _))
          (λ affected.
            Guarantees-bind (read_if-Keeping d.id affected) (λ u. Guarantees-or_throw _ u))))

  set_verification-Keeping :
      (i : ℕ) (dto : UpdateVerificationDto) → Keeping (set_verification i dto)
  unfolding set_verification update
  set_verification-Keeping i dto = Guarantees-bind (search keeping) (λ now.
      Guarantees-bind (get_by_id-Keeping i) (λ _.
        Guarantees-bind
          (at_step
            (λ s. update_keeps i id none (with_verification dto now) s (λ x. refl) (λ x m b. b))
            (λ s. at_end _))
          (λ affected. search keeping)))

  get_by_id_for-Keeping :
      (i requester : ℕ) (role : UserRole) → Keeping (get_by_id_for i requester role)
  unfolding get_by_id_for
  get_by_id_for-Keeping i requester role = search (keeping, get_by_id-Keeping)

-- The caller may not change the status of others: for the two routes that change a status, it is no
-- administrator.
abbrev pub IsByOther : Request → Type 0
IsByOther (goes_online user_id token role) = role ≢ UserRole.admin
IsByOther (updates user_id role target) = role ≢ UserRole.admin
IsByOther (updates_by_id id role target) = role ≢ UserRole.admin
IsByOther _ = Unit

handle-Keeping :
    (id : ℕ) (required : Bool) (r : Request)
    → IsByOther r
    → Guarantees (KeepsBusy id) (handle required r)
unfolding handle list_available
handle-Keeping id required (registers user_id dto) n =
    Guarantees-bind (register-Keeping id user_id dto) (λ _. at_end _)
handle-Keeping id required (goes_online user_id token role) n =
    Guarantees-bind (go_online-Keeping id required user_id role token n) (λ _. at_end _)
handle-Keeping id required (updates user_id role target) n =
    Guarantees-bind (update_status-Keeping id user_id role target n) (λ _. at_end _)
handle-Keeping id required (updates_by_id i role target) n =
    Guarantees-bind (update_status_by_id-Keeping id i role target n) (λ _. at_end _)
handle-Keeping id required (changes_vehicle user_id dto) n =
    Guarantees-bind (update_own_vehicle-Keeping id user_id dto) (λ _. at_end _)
handle-Keeping id required (verifies i dto) n =
    Guarantees-bind (set_verification-Keeping id i dto) (λ _. at_end _)
handle-Keeping id required (gets_own user_id) n =
    Guarantees-bind (get_by_user_id-Keeping id user_id) (λ _. at_end _)
handle-Keeping id required (gets_by_id i requester role) n =
    Guarantees-bind (get_by_id_for-Keeping id i requester role) (λ _. at_end _)
handle-Keeping id required (lists page limit) n =
    Guarantees-bind (Guarantees-gets (stays id) (λ s. paginated page limit (available s.drivers)))
      (λ _. at_end _)

-- A driver on a delivery stays on it through every request but those by which an administrator (the
-- system among them) changes a status, however the steps of such requests interleave: no driver makes
-- itself available while it delivers.
pub handle-KeepsBusy :
    (id : ℕ) (required : Bool) (r : Request) (others : List (Fleet → Fleet)) (s : Fleet)
    → IsByOther r
    → Interferes (KeepsBusy id) others
    → IsOnDelivery id s
    → IsOnDelivery id (run (handle required r) others s).1
handle-KeepsBusy id required r others s n i =
    run-Guarantees (KeepsBusy id) (stays id) (λ s t u h k x. k (h x)) others s
      (handle-Keeping id required r n) i
