-- ===== src/Deliveries/Soundness/Steps.antt =====
-- The steps of delivery-service's handlers that read and call.
use mathlib.Core.Option.{some-injective}
use delivery_plus.Prelude.{
  ℕ, ◌≡◌, refl, sym, subst, Option, none, some, Bool-cases, inl, inr, arith, List, [], ◌∷◌, ◌==◌,
  ==_iff, ◌∙◌,
}
use delivery_plus.Shared.Errors.{not_found}
use delivery_plus.Shared.Table.Laws.{Below, find_row-id, find_row-new, find_row-older}
use delivery_plus.Proc.{Proc, Result, ok, err, gets, or_throw, ◌>>=◌}
use delivery_plus.Proc.Rules.{Guarantees}
use delivery_plus.Proc.Secures.{Secures, at_end, at_step, Returns}
use delivery_plus.Deliveries.Store.{
  Delivery, Database, delivery_id_of, find_by_id, find_by_order_id,
}
use delivery_plus.Deliveries.Dispatch.{Server, find_or_throw}
use delivery_plus.Deliveries.Evolution.{Evolves-refl}
use delivery_plus.Deliveries.Soundness.{
  Known, Known-stable, Advances, Advances-refl, Advances-trans, IsSound,
}
use delivery_plus.Deliveries.Soundness.Quiet.{Quiet}

abbrev pub Moves : Server → Server → Type 0
Moves s t = Advances s.db t.db

abbrev pub Sound : Server → Type 0
Sound s = IsSound s.db

abbrev pub SecuresDeliveries :
    {A : Type 0} → (A → Server → Type 0) → Proc Server A → Server → Type 0
SecuresDeliveries X = Secures Moves Sound (Returns X)

pub Moves-refl : (s : Server) → Moves s s
Moves-refl s = Advances-refl s.db

pub Moves-trans : (s t u : Server) → Moves s t → Moves t u → Moves s u
Moves-trans s t u = Advances-trans s.db t.db u.db

returns :
    {A : Type 0} (Y : Server → Type 0) (r : Result A) (s : Server)
    → Y s
    → Returns (λ (_ : A) s. Y s) r s
returns Y (ok a) s y = y
returns Y (err e) s y = tt

-- What leaves the database alone keeps what is known, where that is stable.
pub unwritten :
    {A : Type 0} {p : Proc Server A} (Y : Server → Type 0) (w : Server)
    → ((s t : Server) → Y s → Moves s t → Y t)
    → Quiet p
    → Y w
    → SecuresDeliveries (λ _ s. Y s) p w
unwritten Y w stable (Guarantees.at_end r) y = at_end (returns Y r w y)
unwritten Y w stable (Guarantees.at_step {u = u} h hs) y =
    at_step (λ s m i. (subst (Advances s.db) (h s) (Advances-refl s.db), subst IsSound (h s) i))
      (λ s m i.
        unwritten Y (u s) stable (hs s)
          (stable s (u s) (stable w s y m) (subst (Advances s.db) (h s) (Advances-refl s.db))))

pub unchanged :
    {A : Type 0} {p : Proc Server A} (d : Delivery) (w : Server)
    → Quiet p
    → Known d w.db
    → SecuresDeliveries (λ _ s. Known d s.db) p w
unchanged d w q k = unwritten (λ s. Known d s.db) w (λ s t k m. Known-stable d s.db t.db k m) q k

pub harmless :
    {A : Type 0} {p : Proc Server A} (w : Server)
    → Quiet p
    → SecuresDeliveries (λ _ _. Unit {0}) p w
harmless w q = unwritten (λ _. Unit) w (λ s t _ _. tt) q tt

pub present :
    (id : ℕ) (db : Database) (d : Delivery) → find_by_id id db.deliveries ≡ some d → Known d db
present id db d e = (
  d,
  subst (λ j. find_by_id j db.deliveries ≡ some d)
      (sym (find_row-id delivery_id_of id db.deliveries d e)) e,
  Evolves-refl d,
)

found_by_order :
    (n order_id : ℕ) (deliveries : List Delivery) (d : Delivery)
    → Below delivery_id_of n deliveries
    → find_by_order_id order_id deliveries ≡ some d
    → (find_by_id d.id deliveries ≡ some d) × (d.order_id ≡ order_id)
unfolding find_by_order_id
found_by_order n order_id [] d below h = absurd (cc)
found_by_order n order_id (e ∷ deliveries) d (less, below) h =
    elim (Bool-cases (e.order_id == order_id)) [
      | inl mine ↦
          let same_row : e ≡ d = some-injective e d (sym (rw mine refl) ∙ h) in
          subst
            (λ (x : Delivery).
              (find_by_id x.id (e ∷ deliveries) ≡ some x) × (x.order_id ≡ order_id))
            same_row
            (
              find_row-new delivery_id_of e.id e deliveries refl,
              (==_iff e.order_id order_id).0 mine,
            )
      | inr other ↦
          let h' : find_by_order_id order_id deliveries ≡ some d = ground arith in
          let (found, order) = found_by_order e.id order_id deliveries d below h' in
          (find_row-older delivery_id_of e.id d.id e deliveries d refl below found, order)
    ]

-- A delivery that is found by its order.
abbrev pub Finds : ℕ → Option Delivery → Server → Type 0
Finds order_id none s = Unit
Finds order_id (some d) s = Known d s.db × (d.order_id ≡ order_id)

pub order_read :
    (order_id : ℕ) (w : Server)
    → SecuresDeliveries (Finds order_id) (gets (λ s. find_by_order_id order_id s.db.deliveries)) w
unfolding gets
order_read order_id w =
    at_step (λ s m i. (Moves-refl s, i))
      (λ s m i. at_end (found s i (find_by_order_id order_id s.db.deliveries) refl))
  where
    found :
        (s : Server)
        → Sound s
        → (o : Option Delivery) → find_by_order_id order_id s.db.deliveries ≡ o
        → Finds order_id o s
    found s i none e = tt
    found s i (some d) e =
        let (f, order) = found_by_order s.db.next_id order_id s.db.deliveries d (i.fresh) e in
        ((d, f, Evolves-refl d), order)

pub order_found :
    (order_id : ℕ) (o : Option Delivery) (w : Server)
    → Finds order_id o w
    → SecuresDeliveries (λ d s. Known d s.db × (d.order_id ≡ order_id)) (or_throw not_found o) w
unfolding or_throw
order_found order_id none w h = at_end tt
order_found order_id (some d) w h = at_end h

pub first_read :
    (id : ℕ) (w : Server)
    → SecuresDeliveries (λ d s. Known d s.db × (d.id ≡ id)) (find_or_throw id) w
unfolding find_or_throw gets or_throw ◌>>=◌
first_read id w =
    at_step (λ s m i. (Moves-refl s, i)) (λ s m i. found s (find_by_id id s.db.deliveries) refl)
  where
    found :
        (s : Server) (o : Option Delivery)
        → find_by_id id s.db.deliveries ≡ o
        → SecuresDeliveries (λ d t. Known d t.db × (d.id ≡ id)) (or_throw not_found o) s
    found s none e = at_end tt
    found s (some d) e =
        at_end (present id s.db d e, find_row-id delivery_id_of id s.db.deliveries d e)
