-- ===== src/Drivers/Claims.antt =====
-- Claims of a driver for a delivery are exclusive.
use delivery_plus.Prelude.{
  ℕ, ◌≡◌, refl, ◌∙◌, ap, true, false, none, some, List, ◌∷◌, ◌<◌, ==_iff, if◌then◌else◌, arith, All,
  Bool-cases, Option-cases, inl, inr, sym, subst,
}
use delivery_plus.Shared.Errors.{invalid_state_transition, not_found}
use delivery_plus.Shared.Enums.{
  UserRole, DriverStatus, DriverStatus-discrete, driver_transitions, is_transition_allowed,
}
use delivery_plus.Proc.{ok, err, ret, throw, or_throw, ◌>>=◌, combinators}
use delivery_plus.Proc.Alone.{run_alone, run_alone-bind}
use delivery_plus.Drivers.Store.{Driver, find_by_id, remove, update_where}
use delivery_plus.Drivers.Store.Laws.{find_by_id-id, find_by_id-All, remove-All, head}
use delivery_plus.Drivers.Busy.{IsOnDelivery, KeepsBusy}
use delivery_plus.Drivers.Service.{
  Fleet, is_role_allowed_for_transition, is_repeat, update, read_if, with_status, transition_status,
  get_by_id, after_lost_race, after_write, write_transition, transition,
}

-- The table of transitions: only an available driver may become busy.
from_available :
    (from : DriverStatus)
    → is_transition_allowed DriverStatus-discrete driver_transitions from DriverStatus.busy ≡ true
    → from ≡ DriverStatus.available
unfolding driver_transitions is_transition_allowed DriverStatus-discrete
from_available DriverStatus.available h = refl
from_available DriverStatus.offline h = absurd (ground arith)
from_available DriverStatus.busy h = absurd (ground arith)
from_available DriverStatus.suspended h = absurd (ground arith)

busy_again : (current : DriverStatus) → is_repeat current DriverStatus.busy ≡ false
unfolding is_repeat DriverStatus-discrete
busy_again DriverStatus.available = refl
busy_again current = refl

-- The update of a claim affects no row while the driver is busy.
no_claim :
    (id : ℕ) (drivers : List Driver) (now : Driver)
    → find_by_id id drivers ≡ some now
    → now.status ≡ DriverStatus.busy
    → update_where id (some DriverStatus.available) (with_status DriverStatus.busy) drivers
      ≡ (false, drivers)
unfolding update_where DriverStatus-discrete
no_claim id drivers now found b = rw (found, update_where, b) refl

failed_write :
    (id : ℕ) (s : Fleet) (now : Driver)
    → find_by_id id s.drivers ≡ some now
    → now.status ≡ DriverStatus.busy
    → run_alone (transition_status id DriverStatus.available DriverStatus.busy) s ≡ (ok none, s)
unfolding transition_status update read_if combinators
failed_write id s now found b =
    ap (λ x. run_alone (read_if id x.0) (record s { drivers = x.1 }))
      (no_claim id s.drivers now found b)

lost_race :
    (id : ℕ) (s : Fleet) (now : Driver)
    → find_by_id id s.drivers ≡ some now
    → run_alone (after_write id DriverStatus.busy none) s ≡ (err invalid_state_transition, s)
unfolding after_write after_lost_race get_by_id combinators
lost_race id s now found =
    ap
      (λ f.
        run_alone
          (or_throw not_found f >>= λ current.
            if is_repeat current.status DriverStatus.busy
            then ret current
            else throw invalid_state_transition)
          s)
      found
    ∙ rw (busy_again now.status) refl

-- A claim on whatever was read of the driver, while the driver is busy.
busy_claim :
    (d now : Driver) (s : Fleet)
    → find_by_id d.id s.drivers ≡ some now
    → now.status ≡ DriverStatus.busy
    → run_alone (transition d DriverStatus.busy UserRole.admin) s
      ≡ (err invalid_state_transition, s)
unfolding transition write_transition is_role_allowed_for_transition
busy_claim d now s found b =
    elim (Bool-cases
      (is_transition_allowed DriverStatus-discrete driver_transitions d.status DriverStatus.busy)) [
        | inr barred ↦ rw (busy_again d.status, barred)
        | inl allowed ↦
            rw
              (
                busy_again d.status,
                allowed,
                from_available d.status allowed,
                run_alone-bind,
                failed_write d.id s now found b,
              )
              (lost_race d.id s now found)
      ]

abbrev pub claimed : Driver → Driver
claimed now = record now { status = DriverStatus.busy }

abbrev pub after_claim : Driver → Fleet → Fleet
after_claim now s = record s { drivers = claimed now ∷ remove now.id s.drivers }

-- The update of a claim affects the row of an available driver.
claims :
    (id : ℕ) (drivers : List Driver) (now : Driver)
    → find_by_id id drivers ≡ some now
    → now.status ≡ DriverStatus.available
    → update_where id (some DriverStatus.available) (with_status DriverStatus.busy) drivers
      ≡ (true, claimed now ∷ remove now.id drivers)
unfolding update_where DriverStatus-discrete
claims id drivers now found a = rw (found, update_where, a, find_by_id-id id drivers now found) refl

find_by_id-claimed :
    (id : ℕ) (drivers : List Driver) (now : Driver)
    → now.id ≡ id
    → find_by_id id (claimed now ∷ remove now.id drivers) ≡ some (claimed now)
find_by_id-claimed id drivers now e =
    head id id (claimed now) (remove now.id drivers) e ∙ rw ((==_iff id id).1 refl) refl

written :
    (id : ℕ) (s : Fleet) (now : Driver)
    → find_by_id id s.drivers ≡ some now
    → now.status ≡ DriverStatus.available
    → run_alone (transition_status id DriverStatus.available DriverStatus.busy) s
      ≡ (ok (some (claimed now)), after_claim now s)
unfolding transition_status update read_if combinators
written id s now found a =
    ap (λ x. run_alone (read_if id x.0) (record s { drivers = x.1 }))
      (claims id s.drivers now found a)
    ∙ ap (λ d. (ok d, after_claim now s))
        (find_by_id-claimed id s.drivers now (find_by_id-id id s.drivers now found))

-- A claim of an available driver, read as such.
first_claim :
    (d now : Driver) (s : Fleet)
    → find_by_id d.id s.drivers ≡ some now
    → now.status ≡ DriverStatus.available
    → d.status ≡ DriverStatus.available
    → run_alone (transition d DriverStatus.busy UserRole.admin) s
      ≡ (ok (claimed now), after_claim now s)
unfolding transition write_transition is_role_allowed_for_transition is_repeat after_write
    combinators DriverStatus-discrete driver_transitions is_transition_allowed
first_claim d now s found a read = rw (read, run_alone-bind, written d.id s now found a) refl

after_claim-IsOnDelivery :
    (id : ℕ) (s : Fleet) (now : Driver)
    → find_by_id id s.drivers ≡ some now
    → All (λ d. d.id < s.next_id) s.drivers
    → IsOnDelivery id (after_claim now s)
unfolding DriverStatus-discrete
after_claim-IsOnDelivery id s now found fresh = record {
  fresh = (
    find_by_id-All (λ d. d.id < s.next_id) id s.drivers now fresh found,
    remove-All (λ d. d.id < s.next_id) now.id s.drivers fresh,
  );
  busy = rw (find_by_id-claimed id s.drivers now (find_by_id-id id s.drivers now found)) refl;
}

-- A claim while the driver is on a delivery.
late_claim :
    (d : Driver) (s : Fleet)
    → IsOnDelivery d.id s
    → run_alone (transition d DriverStatus.busy UserRole.admin) s
      ≡ (err invalid_state_transition, s)
unfolding DriverStatus-discrete
late_claim d s h = elim (Option-cases (find_by_id d.id s.drivers)) [
  | inl missing ↦ absurd (ground (arith, h.busy))
  | inr (now, found) ↦ busy_claim d now s found (ground (arith, h.busy))
]

-- Two claims of an available driver, from a table whose ids are below the next one. The first, on the
-- driver read as available, answers with the driver BUSY, and it is BUSY in the table. The second, on
-- whatever was read of the driver at whatever time, comes after it and after others that keep a
-- driver on a delivery there: it fails and changes nothing.
pub claim_is_exclusive :
    (first second now : Driver) (s later : Fleet)
    → find_by_id first.id s.drivers ≡ some now
    → now.status ≡ DriverStatus.available
    → first.status ≡ DriverStatus.available
    → second.id ≡ first.id
    → All (λ d. d.id < s.next_id) s.drivers
    → KeepsBusy first.id (run_alone (transition first DriverStatus.busy UserRole.admin) s).1 later
    → let (answer, t) = run_alone (transition first DriverStatus.busy UserRole.admin) s in
      (answer ≡ ok (record now { status = DriverStatus.busy }))
      × (find_by_id first.id t.drivers ≡ some (record now { status = DriverStatus.busy }))
      × (run_alone (transition second DriverStatus.busy UserRole.admin) later
          ≡ (err invalid_state_transition, later))
claim_is_exclusive first second now s later found a read same_driver fresh others =
    let won = first_claim first now s found a read in
    let kept = subst (λ r. KeepsBusy first.id r.1 later) won others in
    (
      ap (λ r. r.0) won,
      ap (λ r. find_by_id first.id r.1.drivers) won
          ∙ find_by_id-claimed first.id s.drivers now (find_by_id-id first.id s.drivers now found),
      late_claim second later (
          subst (λ id. IsOnDelivery id later) (sym same_driver)
            (kept (after_claim-IsOnDelivery first.id s now found fresh))),
    )
