-- ===== src/Deliveries/Soundness/Background.antt =====
-- What delivery-service does by itself keeps the tables sound.
use delivery_plus.Prelude.{
  ℕ, ◌≡◌, refl, subst, false, not, Option, none, some, List, [], ◌∷◌, same, All, Bool-cases, inl,
  inr,
}
use delivery_plus.Shared.Enums.{DeliveryStatus, DeliveryStatus-discrete}
use delivery_plus.Shared.Errors.{
  Error, Error-discrete, bad_request, conflict, invalid_state_transition,
}
use delivery_plus.Proc.{Proc, ok, err, Result, atomically}
use delivery_plus.Proc.Rules.{at_end, at_step, Guarantees-bind, Guarantees-catch, Guarantees-if}
use delivery_plus.Proc.Secures.{
  Secures, Returns, Secures-bind, Secures-catch, Secures-if, Secures-mono,
}
use delivery_plus.Deliveries.Store.{
  Delivery, Database, DriverLedgerEntry, LedgerEntryType, is_paid, find_by_id,
}
use delivery_plus.Deliveries.Dispatch.{DriverDto, Server, Config, transaction}
use delivery_plus.Deliveries.Background.{
  is_due, settle_due, settle, auto_dispatcher, after_failed_assign, after_failed_create,
  is_none_active, try_assign, found_or_created, assign_if_waiting, dispatch_order, assign_waiting,
  sweep_once, sweep, is_stuck, release_if_stuck, reconcile, reconcile_all, drivers_of,
  reconcile_once, reconcile_sweep,
}
use delivery_plus.Deliveries.Evolution.{Evolves-refl}
use delivery_plus.Deliveries.Soundness.{PaidFor, PaidOnce}
use delivery_plus.Deliveries.Soundness.Quiet.{
  Quiet, gets-Quiet, request-Quiet, release_driver-Quiet,
}
use delivery_plus.Deliveries.Soundness.Steps.{SecuresDeliveries, harmless}
use delivery_plus.Deliveries.Soundness.Assignment.{assign_driver_lem}
use delivery_plus.Deliveries.Soundness.Handlers.{create_delivery_lem}

-- Nothing is asked of the result.
abbrev pub Keeps : {A : Type 0} → Proc Server A → Server → Type 0
Keeps p w = SecuresDeliveries (λ _ _. Unit {0}) p w

forgotten :
    {A : Type 0} (X : A → Server → Type 0) (r : Result A) (s : Server)
    → Returns X r s
    → Returns (λ (_ : A) (_ : Server). Unit {0}) r s
forgotten X (ok a) s h = tt
forgotten X (err e) s h = tt

forget :
    {A : Type 0} {X : A → Server → Type 0} {p : Proc Server A} {w : Server}
    → SecuresDeliveries X p w
    → Keeps p w
forget {X = X} h = Secures-mono (Returns X) (forgotten X) h

settle_due-PaidFor :
    (now : ℕ) (driver : Option ℕ) (db db' : Database) (ledger : List DriverLedgerEntry)
    → db.deliveries ≡ db'.deliveries
    → All (λ e. PaidFor e db) ledger
    → All (λ e. PaidFor e db') (settle_due now driver ledger).1
unfolding settle_due
settle_due-PaidFor now driver db db' [] same_deliveries h = tt
settle_due-PaidFor now driver db db' (e ∷ ledger) same_deliveries (h, hs) =
    let rest = settle_due-PaidFor now driver db db' ledger same_deliveries hs in
    let kept : PaidFor e db' = (
      h.0,
      subst (λ ds. find_by_id e.delivery_id ds ≡ some h.0) same_deliveries (h.1),
      h.2,
      h.3,
      h.4,
    ) in
    elim (Bool-cases (is_due now driver e)) [
      | inl due ↦ rw due (kept, rest)
      | inr later ↦ rw later (kept, rest)
    ]

is_paid-settle_due :
    (now : ℕ) (driver : Option ℕ) (id : ℕ) (type : LedgerEntryType)
    (ledger : List DriverLedgerEntry)
    → is_paid id type (settle_due now driver ledger).1 ≡ is_paid id type ledger
unfolding settle_due is_paid
is_paid-settle_due now driver id type [] = refl
is_paid-settle_due now driver id type (e ∷ ledger) =
    let rest = is_paid-settle_due now driver id type ledger in
    elim (Bool-cases (is_due now driver e)) [
      | inl due ↦ rw (due, rest) refl
      | inr later ↦ rw (later, rest) refl
    ]

settle_due-PaidOnce :
    (now : ℕ) (driver : Option ℕ) (ledger : List DriverLedgerEntry)
    → PaidOnce ledger
    → PaidOnce (settle_due now driver ledger).1
unfolding settle_due
settle_due-PaidOnce now driver [] h = tt
settle_due-PaidOnce now driver (e ∷ ledger) (h, hs) =
    let rest = settle_due-PaidOnce now driver ledger hs in
    let fresh : is_paid e.delivery_id e.type (settle_due now driver ledger).1 ≡ false =
      rw (is_paid-settle_due now driver e.delivery_id e.type ledger) h in
    elim (Bool-cases (is_due now driver e)) [
      | inl due ↦ rw due (fresh, rest)
      | inr later ↦ rw later (fresh, rest)
    ]

pub settle_lem : (driver : Option ℕ) (w : Server) → Keeps (settle driver) w
unfolding settle transaction
settle_lem driver w =
    Secures.at_step
      (λ s m i.
        let after : Database = record s.db { ledger = (settle_due s.now driver s.db.ledger).1 } in
        (
          λ d found. (d, found, Evolves-refl d),
          record {
            fresh = i.fresh;
            unassigned = i.unassigned;
            one_per_order = i.one_per_order;
            paid = settle_due-PaidFor s.now driver s.db after s.db.ledger refl (i.paid);
            paid_once = settle_due-PaidOnce s.now driver s.db.ledger (i.paid_once);
          },
        ))
      (λ s m i. Secures.at_end tt)

after_failed_assign-Quiet : (e : Error) → Quiet (after_failed_assign e)
unfolding after_failed_assign
after_failed_assign-Quiet e =
    Guarantees-if (same Error-discrete e conflict) (λ _. at_end _)
      (λ _.
        Guarantees-if (same Error-discrete e invalid_state_transition) (λ _. at_end _)
          (λ _. at_end _))

after_failed_create-Quiet : (order_id : ℕ) (e : Error) → Quiet (after_failed_create order_id e)
unfolding after_failed_create
after_failed_create-Quiet order_id e =
    Guarantees-if (same Error-discrete e conflict) (λ _. gets-Quiet _)
      (λ _. Guarantees-if (same Error-discrete e bad_request) (λ _. at_end _) (λ _. at_end _))

module _ (c : Config) where
  try_assign_lem : (id : ℕ) (w : Server) → Keeps (try_assign c id) w
  unfolding try_assign
  try_assign_lem id w =
      Secures-catch (Returns (λ _ _. Unit))
        (Secures-bind (λ _ _. Unit) (forget (assign_driver_lem c id auto_dispatcher w))
          (λ _ t _. Secures.at_end tt))
        (λ _ t h. h) (λ e t _. harmless t (after_failed_assign-Quiet e))

  found_or_created_lem :
      (order_id : ℕ) (o : Option Delivery) (w : Server) → Keeps (found_or_created c order_id o) w
  found_or_created_lem order_id (some d) w = Secures.at_end tt
  found_or_created_lem order_id none w =
      Secures-catch (Returns (λ _ _. Unit))
        (Secures-bind (λ _ _. Unit) (forget (create_delivery_lem c auto_dispatcher order_id w))
          (λ d t _. Secures.at_end tt))
        (λ _ t h. h) (λ e t _. harmless t (after_failed_create-Quiet order_id e))

  assign_if_waiting_lem : (o : Option Delivery) (w : Server) → Keeps (assign_if_waiting c o) w
  assign_if_waiting_lem none w = Secures.at_end tt
  assign_if_waiting_lem (some d) w =
      Secures-if (same DeliveryStatus-discrete d.status DeliveryStatus.created)
        (λ _. Secures-bind (λ _ _. Unit) (try_assign_lem d.id w) (λ _ t _. Secures.at_end tt))
        (λ _. Secures.at_end tt)

  pub dispatch_order_lem : (order_id : ℕ) (w : Server) → Keeps (dispatch_order c order_id) w
  unfolding dispatch_order
  dispatch_order_lem order_id w =
      Secures-bind (λ _ _. Unit) (harmless w (gets-Quiet _))
        (λ existing t _.
          Secures-bind (λ _ _. Unit) (found_or_created_lem order_id existing t)
            (λ delivery u _. assign_if_waiting_lem delivery u))

  assign_waiting_lem :
      (deliveries : List Delivery) (w : Server) → Keeps (assign_waiting c deliveries) w
  unfolding assign_waiting
  assign_waiting_lem [] w = Secures.at_end tt
  assign_waiting_lem (d ∷ deliveries) w =
      Secures-bind (λ _ _. Unit) (try_assign_lem d.id w)
        (λ assigned t _.
          Secures-if assigned (λ _. assign_waiting_lem deliveries t) (λ _. Secures.at_end tt))

  sweep_once_lem : (w : Server) → Keeps (sweep_once c) w
  sweep_once_lem w =
      Secures-bind (λ _ _. Unit)
        (Secures-catch (Returns (λ _ _. Unit))
          (Secures-bind (λ _ _. Unit) (harmless w (gets-Quiet _))
            (λ waiting t _. assign_waiting_lem waiting t))
          (λ _ t h. h) (λ e t _. Secures.at_end tt))
        (λ _ t _. harmless t (at_step (λ s. refl) (λ s. at_end _)))

  pub sweep_lem : (w : Server) → Keeps (sweep c) w
  unfolding sweep atomically
  sweep_lem w =
      Secures-bind (λ _ _. Unit) (harmless w (at_step (λ s. refl) (λ s. at_end _)))
        (λ busy t _. Secures-if busy (λ _. Secures.at_end tt) (λ _. sweep_once_lem t))

  release_if_stuck-Quiet :
      (now driver_id : ℕ) (driver : DriverDto) → Quiet (release_if_stuck c now driver_id driver)
  release_if_stuck-Quiet now driver_id driver =
      Guarantees-if (is_stuck c now driver)
        (λ _. Guarantees-bind (release_driver-Quiet driver_id) (λ _. at_end _)) (λ _. at_end _)

  reconcile-Quiet : (now driver_id : ℕ) → Quiet (reconcile c now driver_id)
  unfolding reconcile
  reconcile-Quiet now driver_id = Guarantees-bind (gets-Quiet _) (λ active.
      Guarantees-if (not (is_none_active active)) (λ _. at_end _)
        (λ _.
          Guarantees-bind (request-Quiet _)
            (λ driver. release_if_stuck-Quiet now driver_id driver)))

  reconcile_all-Quiet : (now : ℕ) (driver_ids : List ℕ) → Quiet (reconcile_all c now driver_ids)
  unfolding reconcile_all
  reconcile_all-Quiet now [] = at_end _
  reconcile_all-Quiet now (driver_id ∷ driver_ids) =
      Guarantees-bind (Guarantees-catch (reconcile-Quiet now driver_id) (λ e. at_end _))
        (λ is_released. Guarantees-bind (reconcile_all-Quiet now driver_ids) (λ released. at_end _))

  reconcile_once-Quiet : (now : ℕ) → Quiet (reconcile_once c now)
  reconcile_once-Quiet now =
      Guarantees-bind
        (Guarantees-catch
          (Guarantees-bind (gets-Quiet _)
            (λ finished. reconcile_all-Quiet now (drivers_of finished)))
          (λ e. at_end _))
        (λ released. at_step (λ s. refl) (λ s. at_end _))

  pub reconcile_sweep-Quiet : (now : ℕ) → Quiet (reconcile_sweep c now)
  unfolding reconcile_sweep atomically
  reconcile_sweep-Quiet now =
      Guarantees-bind (at_step (λ s. refl) (λ s. at_end _))
        (λ busy. Guarantees-if busy (λ _. at_end _) (λ _. reconcile_once-Quiet now))
