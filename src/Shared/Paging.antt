-- ===== src/Shared/Paging.antt =====
-- Pages of a list, numbered from 1 (shared/src/types/error-response.ts and the services' list methods).
use delivery_plus.Prelude.{
  ℕ, zero, suc, ◌+◌, ◌-◌, ◌*◌, ◌/◌, ◌<◌, ◌≤◌, ◌≡◌, refl, List, arith, length, take, drop, ◌==◌,
  if◌then◌else◌, Bool-cases, ◌⊎◌, inl, inr,
}
use native.Mathlib.Omega.{div_any}
use native.Mathlib.Nat.{mod-lt}

pub record PaginatedResult (T : Type 0) : Type 0 where
  pub items : List T
  pub page : ℕ
  pub limit : ℕ
  pub total : ℕ
  pub total_pages : ℕ

-- `Math.ceil(total / limit) || 1`
unfoldable pub total_pages_of : ℕ → ℕ → ℕ
total_pages_of total limit =
    let pages = (total + (limit - 1)) / limit in if pages == 0 then 1 else pages

-- The pages up to `totalPages` hold all rows, and those before it do not, where there is one.
pub total_pages_of-enough :
    (total limit : ℕ) → 0 < limit → total ≤ total_pages_of total limit * limit
unfolding total_pages_of
total_pages_of-enough total limit h = elim (Bool-cases ((total + (limit - 1)) / limit == 0)) [
  | inl none_full ↦
      rw none_full
        (ground (arith, div_any (total + (limit - 1)) limit, mod-lt (total + (limit - 1)) h))
  | inr some_full ↦
      rw some_full
        (omega (arith, div_any (total + (limit - 1)) limit, mod-lt (total + (limit - 1)) h))
]

pub total_pages_of-least :
    (total limit : ℕ)
    → 0 < limit
    → ((total_pages_of total limit - 1) * limit < total) ⊎ (total_pages_of total limit ≡ 1)
unfolding total_pages_of
total_pages_of-least total limit h = elim (Bool-cases ((total + (limit - 1)) / limit == 0)) [
  | inl none_full ↦ inr (rw none_full refl)
  | inr some_full ↦ inl (
      rw some_full (
        before ((total + (limit - 1)) / limit) (ground arith)
          (omega (arith, div_any (total + (limit - 1)) limit))))
]
  where
    before : (k : ℕ) → 0 < k → k * limit ≤ total + (limit - 1) → (k - 1) * limit < total
    before zero p q = absurd (omega arith)
    before (suc k) p q = grind arith

module _ {T : Type 0} where
  -- `skip: (page - 1) * limit, take: limit`
  unfoldable pub page_rows : ℕ → ℕ → List T → List T
  page_rows page limit rows = take limit (drop ((page - 1) * limit) rows)

  abbrev pub paginated : ℕ → ℕ → List T → PaginatedResult T
  paginated page limit rows = record {
    items = page_rows page limit rows;
    page = page;
    limit = limit;
    total = length rows;
    total_pages = total_pages_of (length rows) limit;
  }
