-- ===== src/Deliveries/Soundness.antt =====
-- What every transaction of delivery-service keeps: deliveries only move along the table and keep their
-- driver, an order has one delivery, and the ledger pays finished deliveries, each once.
pub mod Moves
pub mod Creation
pub mod Quiet
pub mod Steps
pub mod Writes
pub mod Assignment
pub mod Handlers
pub mod Background
pub mod Compensation
pub mod Completion
pub mod Finishing
pub mod Unique
pub mod Served
use mathlib.Core.Option.{some-injective}
use delivery_plus.Prelude.{
  ℕ, suc, ◌<◌, ◌≡◌, refl, sym, subst, ◌∙◌, ap, Bool, true, false, ◌&&◌, ◌||◌, Option, none, some,
  List, [], ◌∷◌, ◌==◌, ==_iff, same, same-eq, if◌then◌else◌, arith, All, All-mono, Bool-cases, inl,
  inr,
}
use delivery_plus.Shared.Enums.{DeliveryStatus, DeliveryStatus-discrete}
use delivery_plus.Shared.Table.{find_row, update_row}
use delivery_plus.Shared.Table.Laws.{
  changed_row, find_row-id, find_row-update_row, update_row-All, Below, update_row-Below,
  find_row-Below, find_row-new, find_row-older, find_row-All,
}
use delivery_plus.Proc.{Result, ok, err}
use delivery_plus.Deliveries.Store.{
  Delivery, DeliveryEvent, Database, DriverLedgerEntry, LedgerEntryType, LedgerEntryType-discrete,
  Earning, delivery_id_of, find_by_id, find_by_order_id, is_finished, is_found, new_delivery,
  inserted, create, is_paid, append_once, entry_of, pay, committed, transition_found, transition,
}
use delivery_plus.Deliveries.Dispatch.{Server, is_move_allowed}
use delivery_plus.Deliveries.Evolution.{
  StatusPath, move, here, path-finished, move-created, ending_of, ending-finished, Evolves,
  Evolves-refl, Evolves-trans,
}

-- The delivery, as it was read at some time, is in the table and has evolved since.
abbrev pub Known : Delivery → Database → Type 0
Known d db = (e : Delivery) × (find_by_id d.id db.deliveries ≡ some e) × Evolves d e

abbrev pub Advances : Database → Database → Type 0
Advances db db' = (d : Delivery) → find_by_id d.id db.deliveries ≡ some d → Known d db'

pub Known-stable : (d : Delivery) (db db' : Database) → Known d db → Advances db db' → Known d db'
Known-stable d db db' (e, found, ev) a =
    let (f, later, ev') =
      a e (subst (λ i. find_by_id i db.deliveries ≡ some e) (ev.same_id) found) in
    (
      f,
      subst (λ i. find_by_id i db'.deliveries ≡ some f) (sym ev.same_id) later,
      Evolves-trans ev ev',
    )

pub Advances-refl : (db : Database) → Advances db db
Advances-refl db d found = (d, found, Evolves-refl d)

pub Advances-trans : (a b c : Database) → Advances a b → Advances b c → Advances a c
Advances-trans a b c h k d found = Known-stable d b c (h d found) k

-- An entry pays a delivery that has ended as the entry's type says, to its driver.
abbrev pub PaidFor : DriverLedgerEntry → Database → Type 0
PaidFor e db =
    (d : Delivery) × (find_by_id e.delivery_id db.deliveries ≡ some d)
    × (d.driver_id ≡ some e.driver_id)
    × (d.order_id ≡ e.order_id)
    × (ending_of e.type ≡ some d.status)

pub PaidFor-stable :
    (e : DriverLedgerEntry) (db db' : Database) → PaidFor e db → Advances db db' → PaidFor e db'
PaidFor-stable e db db' (d, found, driver, order, ended) a =
    let same_id : d.id ≡ e.delivery_id =
      find_row-id delivery_id_of e.delivery_id db.deliveries d found in
    let (f, later, ev) =
      a d (subst (λ i. find_by_id i db.deliveries ≡ some d) (sym same_id) found) in
    (
      f,
      subst (λ i. find_by_id i db'.deliveries ≡ some f) same_id later,
      ev.keeps_driver e.driver_id driver,
      sym ev.same_order ∙ order,
      ended ∙ ap some (path-finished (ev.path) (ending-finished e.type d.status ended)),
    )

-- No delivery is paid twice for the same.
abbrev pub PaidOnce : List DriverLedgerEntry → Type 0
PaidOnce [] = Unit
PaidOnce (e ∷ ledger) = (is_paid e.delivery_id e.type ledger ≡ false) × PaidOnce ledger

abbrev pub OnePerOrder : List Delivery → Type 0
OnePerOrder [] = Unit
OnePerOrder (d ∷ deliveries) =
    (find_by_order_id d.order_id deliveries ≡ none) × OnePerOrder deliveries

abbrev pub IsUnassigned : Delivery → Type 0
IsUnassigned d = d.status ≡ DeliveryStatus.created → d.driver_id ≡ none

pub record IsSound (db : Database) : Type 0 where
  pub fresh : Below delivery_id_of db.next_id db.deliveries
  pub unassigned : All IsUnassigned db.deliveries
  pub one_per_order : OnePerOrder db.deliveries
  pub paid : All (λ e. PaidFor e db) db.ledger
  pub paid_once : PaidOnce db.ledger

-- A move that the table allows, with what it earns.
pub record IsMove (from to : DeliveryStatus) (change : Delivery → Delivery)
    (earning : Option Earning) : Type 0 where
  pub keeps_id : (d : Delivery) → (change d).id ≡ d.id
  pub keeps_order : (d : Delivery) → (change d).order_id ≡ d.order_id
  pub keeps_customer : (d : Delivery) → (change d).customer_id ≡ d.customer_id
  pub keeps_driver :
      (d : Delivery) (driver_id : ℕ)
      → d.status ≡ from
      → IsUnassigned d
      → d.driver_id ≡ some driver_id
      → (change d).driver_id ≡ some driver_id
  pub reaches : (d : Delivery) → (change d).status ≡ to
  pub allowed : is_move_allowed from to ≡ true
  pub earns : (e : Earning) → earning ≡ some e → ending_of e.type ≡ some to
