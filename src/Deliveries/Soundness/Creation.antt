-- ===== src/Deliveries/Soundness/Creation.antt =====
-- The insert of a delivery keeps the tables sound.
use delivery_plus.Prelude.{
  ℕ, ◌≡◌, refl, false, Option, none, some, arith, All-mono, Bool-cases, inl, inr,
}
use delivery_plus.Shared.Table.Laws.{find_row-new, find_row-older}
use delivery_plus.Proc.{Result, ok, err}
use delivery_plus.Deliveries.Store.{
  Delivery, DeliveryEvent, Database, delivery_id_of, find_by_id, find_by_order_id, is_found,
  new_delivery, inserted, create,
}
use delivery_plus.Deliveries.Evolution.{Evolves-refl}
use delivery_plus.Deliveries.Soundness.{Advances, Advances-refl, PaidFor-stable, IsSound}

abbrev pub Created : ℕ → Result Delivery → Database → Type 0
Created order_id (ok d) db = (find_by_id d.id db.deliveries ≡ some d) × (d.order_id ≡ order_id)
Created order_id (err e) db = Unit

not_found : (o : Option Delivery) → is_found o ≡ false → o ≡ none
not_found none h = refl
not_found (some d) h = cc

inserted-Advances :
    (now order_id : ℕ) (customer_id : Option ℕ) (event : Delivery → DeliveryEvent) (db : Database)
    → IsSound db
    → Advances db (inserted now order_id customer_id event db)
inserted-Advances now order_id customer_id event db sound d found = (
  d,
  find_row-older delivery_id_of db.next_id d.id (new_delivery now db.next_id order_id customer_id)
      db.deliveries d refl (sound.fresh) found,
  Evolves-refl d,
)

inserted-IsSound :
    (now order_id : ℕ) (customer_id : Option ℕ) (event : Delivery → DeliveryEvent) (db : Database)
    → IsSound db
    → is_found (find_by_order_id order_id db.deliveries) ≡ false
    → IsSound (inserted now order_id customer_id event db)
inserted-IsSound now order_id customer_id event db sound free = record {
  fresh = (omega arith, sound.fresh);
  unassigned = ((λ _. refl), sound.unassigned);
  one_per_order = (not_found (find_by_order_id order_id db.deliveries) free, sound.one_per_order);
  paid =
      All-mono _ _ db.ledger
        (λ e p.
          PaidFor-stable e db (inserted now order_id customer_id event db) p
            (inserted-Advances now order_id customer_id event db sound))
        (sound.paid);
  paid_once = sound.paid_once;
}

pub create_step :
    (now order_id : ℕ) (customer_id : Option ℕ) (event : Delivery → DeliveryEvent) (db : Database)
    → IsSound db
    → Advances db (create now order_id customer_id event db).1
      × IsSound (create now order_id customer_id event db).1
unfolding create
create_step now order_id customer_id event db sound =
    elim (Bool-cases (is_found (find_by_order_id order_id db.deliveries))) [
      | inl taken ↦ rw taken (Advances-refl db, sound)
      | inr free ↦ rw free (
        inserted-Advances now order_id customer_id event db sound,
        inserted-IsSound now order_id customer_id event db sound free,
      )
    ]

pub create-Created :
    (now order_id : ℕ) (customer_id : Option ℕ) (event : Delivery → DeliveryEvent) (db : Database)
    → Created order_id
        (create now order_id customer_id event db).0
        (create now order_id customer_id event db).1
unfolding create
create-Created now order_id customer_id event db =
    elim (Bool-cases (is_found (find_by_order_id order_id db.deliveries))) [
      | inl taken ↦ rw taken tt
      | inr free ↦ rw free (
        find_row-new delivery_id_of db.next_id (new_delivery now db.next_id order_id customer_id)
            db.deliveries refl,
        refl,
      )
    ]
