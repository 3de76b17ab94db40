-- ===== src/Deliveries/Soundness/Moves.antt =====
-- The transactions of delivery-service keep its tables sound.
use mathlib.Core.Option.{some-injective}
use delivery_plus.Prelude.{
  ℕ, ◌≡◌, refl, sym, subst, ◌∙◌, ap, Bool, true, false, Option, none, some, List, [], ◌∷◌, ◌==◌,
  ==_iff, same, same-eq, if◌then◌else◌, arith, All, All-mono, Bool-cases, inl, inr,
}
use delivery_plus.Shared.Enums.{DeliveryStatus, DeliveryStatus-discrete}
use delivery_plus.Shared.Table.{update_row}
use delivery_plus.Shared.Table.Laws.{
  changed_row, find_row-id, find_row-update_row, update_row-All, update_row-Below, find_row-All,
}
use delivery_plus.Proc.{Result, ok, err}
use delivery_plus.Deliveries.Store.{
  Delivery, DeliveryEvent, Database, DriverLedgerEntry, Earning, delivery_id_of, find_by_id,
  find_by_order_id, is_paid, append_once, entry_of, pay, committed, transition_found, transition,
}
use delivery_plus.Deliveries.Dispatch.{is_move_allowed}
use delivery_plus.Deliveries.Evolution.{move, here, move-created, Evolves, Evolves-refl}
use delivery_plus.Deliveries.Soundness.{
  Advances, Advances-refl, PaidFor, PaidFor-stable, PaidOnce, OnePerOrder, IsUnassigned, IsSound,
  IsMove,
}

unfound-update_row :
    (id : ℕ) (change : Delivery → Delivery)
    → ((d : Delivery) → (change d).order_id ≡ d.order_id)
    → (order_id : ℕ) (deliveries : List Delivery) → find_by_order_id order_id deliveries ≡ none
    → find_by_order_id order_id (update_row delivery_id_of id change deliveries) ≡ none
unfolding update_row find_by_order_id
unfound-update_row id change keeps order_id [] h = refl
unfound-update_row id change keeps order_id (d ∷ deliveries) h =
    ground (arith, keeps d, unfound-update_row id change keeps order_id deliveries)

update_row-OnePerOrder :
    (id : ℕ) (change : Delivery → Delivery)
    → ((d : Delivery) → (change d).order_id ≡ d.order_id)
    → (deliveries : List Delivery) → OnePerOrder deliveries
    → OnePerOrder (update_row delivery_id_of id change deliveries)
unfolding update_row
update_row-OnePerOrder id change keeps [] h = tt
update_row-OnePerOrder id change keeps (d ∷ deliveries) (h, hs) = elim (Bool-cases (d.id == id)) [
  | inl mine ↦ rw (mine, keeps d) (h, hs)
  | inr other ↦ rw other (
    unfound-update_row id change keeps d.order_id deliveries h,
    update_row-OnePerOrder id change keeps deliveries hs,
  )
]

module _ (from to : DeliveryStatus) (change : Delivery → Delivery) (earning : Option Earning)
    (is_move : IsMove from to change earning) (event : Delivery → DeliveryEvent) (now : ℕ)
    (db : Database) (sound : IsSound db) (d : Delivery)
    (found : find_by_id d.id db.deliveries ≡ some d) (status : d.status ≡ from) where
  evolves : Evolves d (change d)
  evolves = record {
    same_id = sym (is_move.keeps_id d);
    same_order = sym (is_move.keeps_order d);
    same_customer = sym (is_move.keeps_customer d);
    keeps_driver = λ driver_id h.
        is_move.keeps_driver d driver_id status
          (find_row-All delivery_id_of IsUnassigned d.id db.deliveries d (sound.unassigned) found)
          h;
    path =
        move
          (subst (λ a. is_move_allowed a (change d).status ≡ true) (sym status)
            (subst (λ b. is_move_allowed from b ≡ true) (sym (is_move.reaches d))
              (is_move.allowed)))
          (here (change d).status);
  }

  abbrev rows : List Delivery
  rows = update_row delivery_id_of d.id change db.deliveries

  rows-Advances :
      (e : Delivery)
      → find_by_id e.id db.deliveries ≡ some e
      → (f : Delivery) × (find_by_id e.id rows ≡ some f) × Evolves e f
  rows-Advances e found' =
      subst (λ (o : Option Delivery). (f : Delivery) × (o ≡ some f) × Evolves e f)
        (sym (
          find_row-update_row delivery_id_of d.id change (is_move.keeps_id) e.id db.deliveries
          ∙ ap (changed_row (d.id == e.id) change) found'))
        (elim (Bool-cases (d.id == e.id)) [
          | inl mine ↦
              let same_row : d ≡ e = some-injective d e (
                sym found
                ∙ ap (λ i. find_by_id i db.deliveries) ((==_iff d.id e.id).0 mine)
                ∙ found') in
              (change e, rw mine refl, subst (λ x. Evolves x (change x)) same_row evolves)
          | inr other ↦ (e, rw other refl, Evolves-refl e)
        ])

  found-change : find_by_id (change d).id rows ≡ some (change d)
  found-change =
      subst (λ i. find_by_id i rows ≡ some (change d)) (sym (is_move.keeps_id d))
        (find_row-update_row delivery_id_of d.id change (is_move.keeps_id) d.id db.deliveries
          ∙ ap (changed_row (d.id == d.id) change) found
          ∙ rw ((==_iff d.id d.id).1 refl) refl)

  -- The table with the row changed, and a ledger of which every entry pays and none pays twice.
  abbrev moved_db : List DriverLedgerEntry → Database
  moved_db ledger = (committed change event d db (ok ledger)).1

  moved-Advances : (ledger : List DriverLedgerEntry) → Advances db (moved_db ledger)
  moved-Advances ledger e found' = rows-Advances e found'

  moved-IsSound :
      (ledger : List DriverLedgerEntry)
      → All (λ e. PaidFor e (moved_db ledger)) ledger
      → PaidOnce ledger
      → IsSound (moved_db ledger)
  moved-IsSound ledger paid once = record {
    fresh =
        update_row-Below delivery_id_of d.id change (is_move.keeps_id) db.next_id db.deliveries
          (sound.fresh);
    unassigned =
        update_row-All delivery_id_of IsUnassigned d.id change db.deliveries
          (λ x _ _ created. absurd (never x created)) (sound.unassigned);
    one_per_order =
        update_row-OnePerOrder d.id change (is_move.keeps_order) db.deliveries
          (sound.one_per_order);
    paid = paid;
    paid_once = once;
  }
    where
      never : (x : Delivery) → (change x).status ≡ DeliveryStatus.created → ⊥
      never x created = move-created from (
          subst (λ s. is_move_allowed from s ≡ true) (sym (is_move.reaches x) ∙ created)
            (is_move.allowed))

  old_paid : (ledger : List DriverLedgerEntry) → All (λ e. PaidFor e (moved_db ledger)) db.ledger
  old_paid ledger =
      All-mono _ _ db.ledger
        (λ e p. PaidFor-stable e db (moved_db ledger) p (moved-Advances ledger)) (sound.paid)

  -- The entry pays the delivery as it is written.
  new_paid :
      (driver_id : ℕ) (earn : Earning) (ledger : List DriverLedgerEntry)
      → (change d).driver_id ≡ some driver_id
      → earning ≡ some earn
      → PaidFor (entry_of now driver_id earn (change d)) (moved_db ledger)
  new_paid driver_id earn ledger driver earns = (
    change d,
    found-change,
    driver,
    refl,
    is_move.earns earn earns ∙ ap some (sym (is_move.reaches d)),
  )

  committed_step :
      (driver : Option ℕ) (earn : Option Earning)
      → (change d).driver_id ≡ driver
      → earning ≡ earn
      → Advances db (committed change event d db (pay now (change d) driver earn db.ledger)).1
        × IsSound (committed change event d db (pay now (change d) driver earn db.ledger)).1
  unfolding append_once
  committed_step driver none is_driver earns =
      (moved-Advances db.ledger, moved-IsSound db.ledger (old_paid db.ledger) (sound.paid_once))
  committed_step none (some earn) is_driver earns = (Advances-refl db, sound)
  committed_step (some driver_id) (some earn) is_driver earns =
      appended (is_paid (change d).id earn.type db.ledger) refl
    where
      entry : DriverLedgerEntry
      entry = entry_of now driver_id earn (change d)

      appended :
          (paid : Bool)
          → is_paid (change d).id earn.type db.ledger ≡ paid
          → Advances db (moved_db (if paid then db.ledger else entry ∷ db.ledger))
            × IsSound (moved_db (if paid then db.ledger else entry ∷ db.ledger))
      appended true e =
          (moved-Advances db.ledger, moved-IsSound db.ledger (old_paid db.ledger) (sound.paid_once))
      appended false e = (
        moved-Advances (entry ∷ db.ledger),
        moved-IsSound (entry ∷ db.ledger)
            (
              new_paid driver_id earn (entry ∷ db.ledger) is_driver earns,
              old_paid (entry ∷ db.ledger),
            )
            (e, sound.paid_once),
      )

-- A compare-and-set that the table allows, whatever delivery it meets.
pub transition_step :
    (id : ℕ) (from to : DeliveryStatus) (change : Delivery → Delivery) (earning : Option Earning)
    (event : Delivery → DeliveryEvent) (now : ℕ) (db : Database)
    → IsMove from to change earning
    → IsSound db
    → Advances db (transition id from change event now earning db).1
      × IsSound (transition id from change event now earning db).1
unfolding transition
transition_step id from to change earning event now db is_move sound =
    cases (find_by_id id db.deliveries) refl
  where
    cases :
        (o : Option Delivery)
        → find_by_id id db.deliveries ≡ o
        → Advances db (transition_found from change event now earning db o).1
          × IsSound (transition_found from change event now earning db o).1
    cases none e = (Advances-refl db, sound)
    cases (some d) e = elim (Bool-cases (same DeliveryStatus-discrete d.status from)) [
      | inl met ↦ rw met (
          committed_step from to change earning is_move event now db sound d
            (subst (λ i. find_by_id i db.deliveries ≡ some d)
              (sym (find_row-id delivery_id_of id db.deliveries d e)) e)
            (same-eq DeliveryStatus-discrete d.status from met) (change d).driver_id earning refl
            refl)
      | inr unmet ↦ rw unmet (Advances-refl db, sound)
    ]

-- What a write leaves in the table.
abbrev pub Wrote : ℕ → DeliveryStatus → Result (Option Delivery) → Database → Type 0
Wrote id to (ok (some u)) db =
    (find_by_id u.id db.deliveries ≡ some u) × (u.id ≡ id) × (u.status ≡ to)
Wrote id to (ok none) db = Unit
Wrote id to (err e) db = Unit

pub transition-Wrote :
    (id : ℕ) (from to : DeliveryStatus) (change : Delivery → Delivery) (earning : Option Earning)
    (event : Delivery → DeliveryEvent) (now : ℕ) (db : Database)
    → IsMove from to change earning
    → IsSound db
    → Wrote id to
        (transition id from change event now earning db).0
        (transition id from change event now earning db).1
unfolding transition
transition-Wrote id from to change earning event now db is_move sound =
    cases (find_by_id id db.deliveries) refl
  where
    wrote :
        (d : Delivery)
        → find_by_id d.id db.deliveries ≡ some d
        → d.id ≡ id
        → d.status ≡ from
        → (o : Result (List DriverLedgerEntry))
        → Wrote id to (committed change event d db o).0 (committed change event d db o).1
    wrote d found same_id status (err e) = tt
    wrote d found same_id status (ok ledger) = (
      found-change from to change earning is_move event now db sound d found status,
      is_move.keeps_id d ∙ same_id,
      is_move.reaches d,
    )

    cases :
        (o : Option Delivery)
        → find_by_id id db.deliveries ≡ o
        → Wrote id to
            (transition_found from change event now earning db o).0
            (transition_found from change event now earning db o).1
    cases none e = tt
    cases (some d) e = elim (Bool-cases (same DeliveryStatus-discrete d.status from)) [
      | inl met ↦ rw met (
          wrote d
            (subst (λ i. find_by_id i db.deliveries ≡ some d)
              (sym (find_row-id delivery_id_of id db.deliveries d e)) e)
            (find_row-id delivery_id_of id db.deliveries d e)
            (same-eq DeliveryStatus-discrete d.status from met)
            (pay now (change d) (change d).driver_id earning db.ledger))
      | inr unmet ↦ rw unmet tt
    ]
