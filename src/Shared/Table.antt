-- ===== src/Shared/Table.antt =====
-- The rows of a table, known by their ids, the newest first.
pub mod Laws
use delivery_plus.Prelude.{
  ℕ, Bool, true, false, Option, none, some, List, [], ◌∷◌, ◌==◌, if◌then◌else◌,
}

module _ {Row : Type 0} (id_of : Row → ℕ) where
  unfoldable pub find_row : ℕ → List Row → Option Row
  find_row id [] = none
  find_row id (r ∷ rows) = if id_of r == id then some r else find_row id rows

  -- UPDATE … WHERE "id" = …
  unfoldable pub update_row : ℕ → (Row → Row) → List Row → List Row
  update_row id change [] = []
  update_row id change (r ∷ rows) =
      let rest = update_row id change rows in if id_of r == id then change r ∷ rows else r ∷ rest
