-- ===== src/Prelude/Lists.antt =====
-- Lists: membership tests, the predicate that holds of every element, lengths by native numbers.
use Prim.Native.Nat.{ℕ, zero, suc, ◌+◌}
use mathlib.Core.Path.{◌≡◌}
use mathlib.Core.Bool.{Bool, true, false, ◌||◌}
use mathlib.Core.List.{List, [], ◌∷◌, ◌++◌}
use native.Mathlib.Omega.{arith}

module _ {ℓ} {A : Type ℓ} where
  abbrev pub length : List A → ℕ
  length [] = 0
  length (_ ∷ xs) = suc (length xs)

  pub length-append : (xs ys : List A) → length (xs ++ ys) ≡ length xs + length ys
  length-append [] ys = omega arith
  length-append (x ∷ xs) ys = omega (arith, length-append xs ys)

  -- `===` on values of a type with decidable equality
  abbrev pub same : Discrete A → A → A → Bool
  same d a b = elim (d a b) [ yes _ ↦ true | no _ ↦ false ]

  pub same-eq : (d : Discrete A) (a b : A) → same d a b ≡ true → a ≡ b
  same-eq d a b = decided (d a b)
    where
      decided : (o : Dec (a ≡ b)) → (elim o [ yes _ ↦ true | no _ ↦ false ]) ≡ true → a ≡ b
      decided (yes e) h = e
      decided (no n) h = cc

  pub same-ne : (d : Discrete A) (a b : A) → same d a b ≡ false → ¬ (a ≡ b)
  same-ne d a b = decided (d a b)
    where
      decided : (o : Dec (a ≡ b)) → (elim o [ yes _ ↦ true | no _ ↦ false ]) ≡ false → ¬ (a ≡ b)
      decided (yes e) h = cc
      decided (no n) h = n

  -- `Array.includes`
  abbrev pub includes : Discrete A → A → List A → Bool
  includes d a [] = false
  includes d a (x ∷ xs) = same d x a || includes d a xs

  abbrev pub All {κ} : (A → Type κ) → List A → Type κ
  All P [] = Unit
  All P (x ∷ xs) = P x × All P xs

module _ {ℓ} {A : Type ℓ} where
  abbrev pub take : ℕ → List A → List A
  take zero xs = []
  take (suc n) [] = []
  take (suc n) (x ∷ xs) = x ∷ take n xs

  abbrev pub drop : ℕ → List A → List A
  drop zero xs = xs
  drop (suc n) [] = []
  drop (suc n) (x ∷ xs) = drop n xs

pub All-mono {ℓ κ μ} :
    {A : Type ℓ} (P : A → Type κ) (Q : A → Type μ) (xs : List A)
    → ((x : A) → P x → Q x)
    → All P xs
    → All Q xs
All-mono P Q [] f h = tt
All-mono P Q (x ∷ xs) f (h, hs) = (f x h, All-mono P Q xs f hs)
