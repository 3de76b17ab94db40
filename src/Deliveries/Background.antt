-- ===== src/Deliveries/Background.antt =====
-- What delivery-service does by itself: the dispatch of orders that are ready
-- (services/auto-dispatch.service.ts), the release of drivers who were left busy
-- (services/driver-reconciliation.service.ts) and the settlement of the ledger
-- (services/earnings.service.ts, repositories/ledger.repository.ts).
use delivery_plus.Prelude.{
  ℕ, suc, ◌+◌, ◌-◌, ◌*◌, Bool, true, false, not, ◌&&◌, Option, none, some, List, [], ◌∷◌, ◌==◌, leb,
  ltb, same, if◌then◌else◌,
}
use delivery_plus.Shared.Enums.{
  UserRole, DeliveryStatus, DeliveryStatus-discrete, DriverStatus, DriverStatus-discrete,
}
use delivery_plus.Shared.Errors.{
  Error, Error-discrete, bad_request, conflict, invalid_state_transition,
}
use delivery_plus.Proc.{act, ok, ret, throw, gets, atomically, catch, ◌>>=◌, ◌>>◌}
use delivery_plus.Deliveries.Store.{
  Delivery, DriverLedgerEntry, LedgerEntryStatus, find_by_order_id, find_active_by_driver_id,
  find_waiting_for_driver, find_finished_with_driver_since,
}
use delivery_plus.Deliveries.Dispatch.{
  DriverDto, Config, Handler, DeliveryRequester, transaction, get_driver, release_driver,
}
use delivery_plus.Deliveries.Service.{create_delivery, assign_driver}

-- UPDATE … SET "status" = 'AVAILABLE', "settledAt" = now WHERE "status" = 'PENDING' AND "availableAt" <= now,
-- of all drivers or of one
abbrev pub is_pending : LedgerEntryStatus → Bool
is_pending LedgerEntryStatus.pending = true
is_pending LedgerEntryStatus.available = false

abbrev pub is_of_driver : Option ℕ → DriverLedgerEntry → Bool
is_of_driver none e = true
is_of_driver (some driver_id) e = e.driver_id == driver_id

unfoldable pub is_due : ℕ → Option ℕ → DriverLedgerEntry → Bool
is_due now driver e = is_pending e.status && leb e.available_at now && is_of_driver driver e

abbrev pub settled : ℕ → DriverLedgerEntry → DriverLedgerEntry
settled now e = record e { status = LedgerEntryStatus.available; settled_at = some now }

-- The ledger after it, and the number of entries that moved.
unfoldable pub settle_due : ℕ → Option ℕ → List DriverLedgerEntry → ℕ × List DriverLedgerEntry
settle_due now driver [] = (0, [])
settle_due now driver (e ∷ ledger) =
    let (n, rest) = settle_due now driver ledger in
    if is_due now driver e then (suc n, settled now e ∷ rest) else (n, e ∷ rest)

-- `EarningsService.sweep`, whose failures are logged.
unfoldable pub settle : Option ℕ → Handler ℕ
settle driver = transaction (λ now db.
    let (n, ledger) = settle_due now driver db.ledger in (ok n, record db { ledger = ledger }))

abbrev pub auto_dispatcher : DeliveryRequester
auto_dispatcher = record { user_id = 0; role = UserRole.admin; auth_header = 0 }

abbrev pub sweep_batch : ℕ
sweep_batch = 20

-- A conflict means that no driver is free, a refused move that there is nothing left to do.
unfoldable pub after_failed_assign : Error → Handler Bool
after_failed_assign e =
    if same Error-discrete e conflict
    then ret false
    else if same Error-discrete e invalid_state_transition
    then ret true
    else throw e

-- A manual dispatch was first, or the order is no longer ready: none then.
unfoldable pub after_failed_create : ℕ → Error → Handler (Option Delivery)
after_failed_create order_id e =
    if same Error-discrete e conflict
    then gets (λ s. find_by_order_id order_id s.db.deliveries)
    else if same Error-discrete e bad_request
    then ret none
    else throw e

abbrev pub is_waiting : Option Delivery → Bool
is_waiting none = false
is_waiting (some d) = same DeliveryStatus-discrete d.status DeliveryStatus.created

abbrev pub is_none_active : List Delivery → Bool
is_none_active [] = true
is_none_active (d ∷ active) = false

abbrev pub lookback_ms : ℕ
lookback_ms = 24 * 60 * 60 * 1000

abbrev pub reconcile_batch : ℕ
reconcile_batch = 100

-- `[...new Set(…)]`, in the order of the first of each.
abbrev pub without : ℕ → List ℕ → List ℕ
without n [] = []
without n (m ∷ ns) = let rest = without n ns in if m == n then rest else m ∷ rest

unfoldable pub drivers_of : List Delivery → List ℕ
drivers_of [] = []
drivers_of (d ∷ deliveries) =
    let rest = drivers_of deliveries in
    elim d.driver_id [ none ↦ rest | some driver_id ↦ driver_id ∷ without driver_id rest ]

module _ (c : Config) where
  unfoldable pub try_assign : ℕ → Handler Bool
  try_assign id = catch after_failed_assign (assign_driver c id auto_dispatcher >> ret true)

  abbrev pub found_or_created : ℕ → Option Delivery → Handler (Option Delivery)
  found_or_created order_id (some d) = ret (some d)
  found_or_created order_id none =
      catch (after_failed_create order_id)
        (create_delivery c auto_dispatcher order_id >>= λ d. ret (some d))

  abbrev pub assign_if_waiting : Option Delivery → Handler (Unit {0})
  assign_if_waiting none = ret tt
  assign_if_waiting (some d) =
      if same DeliveryStatus-discrete d.status DeliveryStatus.created
      then try_assign d.id >> ret tt
      else ret tt

  unfoldable pub dispatch_order : ℕ → Handler (Unit {0})
  dispatch_order order_id = do
    existing ← gets (λ s. find_by_order_id order_id s.db.deliveries)
    delivery ← found_or_created order_id existing
    assign_if_waiting delivery

  -- The waiting deliveries, until no driver is free.
  unfoldable pub assign_waiting : List Delivery → Handler (Unit {0})
  assign_waiting [] = ret tt
  assign_waiting (d ∷ deliveries) = do
    assigned ← try_assign d.id
    if assigned then assign_waiting deliveries else ret tt

  abbrev pub sweep_once : Handler (Unit {0})
  sweep_once = do
    catch (λ e. ret tt)
        (gets (λ s. find_waiting_for_driver sweep_batch s.db.deliveries) >>= assign_waiting)
    act (λ s. record s { sweeping = false }) (λ _. ret tt)

  -- The test and the setting of `sweeping` are one step.
  unfoldable pub sweep : Handler (Unit {0})
  sweep = do
    busy ← atomically (λ s. (s.sweeping, record s { sweeping = true }))
    if busy then ret tt else sweep_once

  abbrev pub is_stuck : ℕ → DriverDto → Bool
  is_stuck now driver =
      same DriverStatus-discrete driver.status DriverStatus.busy
      && elim driver.updated_at [ none ↦ false | some last ↦ not (ltb now (last + c.grace)) ]

  abbrev pub release_if_stuck : ℕ → ℕ → DriverDto → Handler Bool
  release_if_stuck now driver_id driver =
      if is_stuck now driver then release_driver driver_id >> ret true else ret false

  unfoldable pub reconcile : ℕ → ℕ → Handler Bool
  reconcile now driver_id = do
    active ← gets (λ s. find_active_by_driver_id driver_id s.db.deliveries)
    if not (is_none_active active)
        then ret false
        else get_driver driver_id >>= release_if_stuck now driver_id

  -- The drivers released, of those given; a failure is logged and leaves its driver to the next sweep.
  unfoldable pub reconcile_all : ℕ → List ℕ → Handler (List ℕ)
  reconcile_all now [] = ret []
  reconcile_all now (driver_id ∷ driver_ids) = do
    is_released ← catch (λ e. ret false) (reconcile now driver_id)
    released ← reconcile_all now driver_ids
    ret (if is_released then driver_id ∷ released else released)

  abbrev pub reconcile_once : ℕ → Handler (List ℕ)
  reconcile_once now = do
    released ←
        catch (λ e. ret [])
          (gets (λ s.
              find_finished_with_driver_since (now - lookback_ms) reconcile_batch s.db.deliveries)
            >>= λ finished. reconcile_all now (drivers_of finished))
    act (λ s. record s { reconciling = false }) (λ _. ret released)

  unfoldable pub reconcile_sweep : ℕ → Handler (List ℕ)
  reconcile_sweep now = do
    busy ← atomically (λ s. (s.reconciling, record s { reconciling = true }))
    if busy then ret [] else reconcile_once now
