-- ===== src/Drivers/Store/Laws.antt =====
-- Reading the drivers table after a write.
use delivery_plus.Prelude.{
  ℕ, ◌≡◌, refl, subst, true, false, Option, none, some, List, [], ◌∷◌, ◌==◌, if◌then◌else◌, arith,
  All, Bool-cases, inl, inr,
}
use delivery_plus.Shared.Enums.{DriverStatus}
use delivery_plus.Drivers.Store.{Driver, find_by_id, remove, has_status, written, update_where}

pub remove-All {ℓ} :
    (P : Driver → Type ℓ) (id : ℕ) (drivers : List Driver)
    → All P drivers
    → All P (remove id drivers)
unfolding remove
remove-All P id [] h = tt
remove-All P id (d ∷ drivers) (h, hs) = elim (Bool-cases (d.id == id)) [
  | inl eq ↦ rw eq (remove-All P id drivers hs)
  | inr ne ↦ rw ne (h, remove-All P id drivers hs)
]

pub find_by_id-All {ℓ} :
    (P : Driver → Type ℓ) (id : ℕ) (drivers : List Driver) (d : Driver)
    → All P drivers
    → find_by_id id drivers ≡ some d
    → P d
unfolding find_by_id
find_by_id-All P id [] d h e = absurd (cc)
find_by_id-All P id (x ∷ drivers) d (h, hs) e = elim (Bool-cases (x.id == id)) [
  | inl found ↦ subst P (ground arith) h
  | inr other ↦ find_by_id-All P id drivers d hs (ground arith)
]

pub find_by_id-id :
    (id : ℕ) (drivers : List Driver) (d : Driver) → find_by_id id drivers ≡ some d → d.id ≡ id
unfolding find_by_id
find_by_id-id id [] d h = cc
find_by_id-id id (x ∷ drivers) d h = ground (arith, find_by_id-id id drivers d)

pub find_by_id-remove :
    (id j : ℕ) (drivers : List Driver)
    → (id == j) ≡ false
    → find_by_id j (remove id drivers) ≡ find_by_id j drivers
unfolding find_by_id remove
find_by_id-remove id j [] h = refl
find_by_id-remove id j (d ∷ drivers) h = ground (arith, find_by_id-remove id j drivers)

-- What an update leaves: the table as it was, or the changed row first.
pub update_where_cases {ℓ} :
    (P : List Driver → Type ℓ) (id : ℕ) (status : Option DriverStatus) (change : Driver → Driver)
    (drivers : List Driver)
    → P drivers
    → ((d : Driver)
        → find_by_id id drivers ≡ some d
        → has_status status d ≡ true
        → P (change d ∷ remove id drivers))
    → P (update_where id status change drivers).1
unfolding update_where
update_where_cases P id status change drivers same_table changed =
    cases (find_by_id id drivers) refl
  where
    cases :
        (found : Option Driver)
        → find_by_id id drivers ≡ found
        → P (written id status change drivers found).1
    cases none e = same_table
    cases (some d) e = elim (Bool-cases (has_status status d)) [
      | inl eq ↦ rw eq (changed d e eq)
      | inr ne ↦ rw ne same_table
    ]

pub head :
    (id j : ℕ) (d : Driver) (drivers : List Driver)
    → d.id ≡ id
    → find_by_id j (d ∷ drivers) ≡ (if id == j then some d else find_by_id j drivers)
unfolding find_by_id
head id j d drivers e = rw e
