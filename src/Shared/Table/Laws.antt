-- ===== src/Shared/Table/Laws.antt =====
-- A table after an insert or an update.
use mathlib.Core.Option.{some-injective}
use delivery_plus.Prelude.{
  ℕ, ◌<◌, ◌≡◌, refl, subst, Bool, Option, none, some, List, [], ◌∷◌, ◌==◌, ==_iff, if◌then◌else◌,
  arith, All, Bool-cases, inl, inr,
}
use delivery_plus.Shared.Table.{find_row, update_row}

abbrev pub changed_row : {Row : Type 0} → Bool → (Row → Row) → Option Row → Option Row
changed_row mine change none = none
changed_row mine change (some r) = some (if mine then change r else r)

module _ {Row : Type 0} (id_of : Row → ℕ) where
  pub find_row-id :
      (id : ℕ) (rows : List Row) (r : Row) → find_row id_of id rows ≡ some r → id_of r ≡ id
  unfolding find_row
  find_row-id id [] r h = cc
  find_row-id id (x ∷ rows) r h = ground (arith, find_row-id id rows r)

  pub find_row-update_row :
      (id : ℕ) (change : Row → Row)
      → ((r : Row) → id_of (change r) ≡ id_of r)
      → (j : ℕ) (rows : List Row)
      → find_row id_of j (update_row id_of id change rows)
        ≡ changed_row (id == j) change (find_row id_of j rows)
  unfolding find_row update_row
  find_row-update_row id change keeps j [] = refl
  find_row-update_row id change keeps j (r ∷ rows) =
      ground (arith, keeps r, find_row-update_row id change keeps j rows)

  -- Where every row satisfies a predicate, it does after an update that takes the row found by the id
  -- to one that satisfies it.
  pub update_row-All {ℓ} :
      (P : Row → Type ℓ) (id : ℕ) (change : Row → Row) (rows : List Row)
      → ((r : Row) → find_row id_of id rows ≡ some r → P r → P (change r))
      → All P rows
      → All P (update_row id_of id change rows)
  unfolding find_row update_row
  update_row-All P id change [] f h = tt
  update_row-All P id change (r ∷ rows) f (h, hs) = elim (Bool-cases (id_of r == id)) [
    | inl mine ↦ rw mine (f r (rw mine refl) h, hs)
    | inr other ↦ rw other (h, update_row-All P id change rows (λ x found. f x (rw other found)) hs)
  ]

  -- Ids fall along the list, and are below the next one.
  abbrev pub Below : ℕ → List Row → Type 0
  Below n [] = Unit
  Below n (r ∷ rows) = (id_of r < n) × Below (id_of r) rows

  pub update_row-Below :
      (id : ℕ) (change : Row → Row)
      → ((r : Row) → id_of (change r) ≡ id_of r)
      → (n : ℕ) (rows : List Row) → Below n rows
      → Below n (update_row id_of id change rows)
  unfolding update_row
  update_row-Below id change keeps n [] b = tt
  update_row-Below id change keeps n (r ∷ rows) b = elim (Bool-cases (id_of r == id)) [
    | inl mine ↦ rw (mine, keeps r) b
    | inr other ↦ rw other (b.0, update_row-Below id change keeps (id_of r) rows (b.1))
  ]

  pub find_row-Below :
      (n id : ℕ) (rows : List Row) (r : Row)
      → Below n rows
      → find_row id_of id rows ≡ some r
      → id < n
  unfolding find_row
  find_row-Below n id [] r b found = absurd (cc)
  find_row-Below n id (x ∷ rows) r b found =
      ground (arith, find_row-Below (id_of x) id rows r (b.1))

  pub find_row-new :
      (n : ℕ) (new : Row) (rows : List Row)
      → id_of new ≡ n
      → find_row id_of n (new ∷ rows) ≡ some new
  unfolding find_row
  find_row-new n new rows e = rw ((==_iff (id_of new) n).1 e) refl

  pub find_row-older :
      (n id : ℕ) (new : Row) (rows : List Row) (r : Row)
      → id_of new ≡ n
      → Below n rows
      → find_row id_of id rows ≡ some r
      → find_row id_of id (new ∷ rows) ≡ some r
  unfolding find_row
  find_row-older n id new rows r e b found = ground (arith, find_row-Below n id rows r b found)

  pub find_row-All {ℓ} :
      (P : Row → Type ℓ) (id : ℕ) (rows : List Row) (r : Row)
      → All P rows
      → find_row id_of id rows ≡ some r
      → P r
  unfolding find_row
  find_row-All P id [] r h e = absurd (cc)
  find_row-All P id (x ∷ rows) r (h, hs) e = elim (Bool-cases (id_of x == id)) [
    | inl hit ↦ subst P (some-injective x r (rw hit at e)) h
    | inr miss ↦ find_row-All P id rows r hs (rw miss at e)
  ]
