-- ===== src/Shared/Numbers.antt =====
-- JavaScript numbers that are not negative, as counts of 2^-59: every double that is 0 or at least
-- 2^-7 is such a count, and so is every amount of money from one piaster (0.01) on. Doubles too large
-- for the format are outside the model.
pub mod Rounding
use delivery_plus.Prelude.{
  ℕ, zero, suc, ◌+◌, ◌*◌, ◌/◌, ◌%◌, ◌^◌, Bool, true, false, ltb, if◌then◌else◌,
}

-- One, in counts.
abbrev pub unit : ℕ
unit = 2 ^ 59

-- A whole number, which is exact below 2^53.
abbrev pub whole : ℕ → ℕ
whole n = n * unit

-- The quotient, rounded to the nearest, in the middle to the even one.
unfoldable pub round_even : ℕ → ℕ → ℕ
round_even n q =
    if ltb (2 * (n % q)) q
    then n / q
    else if ltb q (2 * (n % q))
    then n / q + 1
    else n / q + n / q % 2

-- The doubles near n / d are the multiples of 2^j, for the least j from the given one on at which they
-- have 53 digits.
unfoldable pub exponent : ℕ → ℕ → ℕ → ℕ → ℕ
exponent zero j n d = j
exponent (suc f) j n d = elim (ltb n (d * 2 ^ (53 + j))) [
  | true ↦ j
  | false ↦ exponent f (suc j) n d
]

-- The double nearest to n / d. The largest exponent of the format is that of 2^1023, which is below
-- 2^(53 + 1030) counts: the fuel is enough.
unfoldable pub nearest : ℕ → ℕ → ℕ
nearest n d = let s = 2 ^ exponent 1030 0 n d in round_even n (d * s) * s

-- The numbers that the source computes: a fraction, and a product and a quotient with a whole number.
unfoldable pub fraction : ℕ → ℕ → ℕ
fraction n d = nearest (whole n) d

unfoldable pub times : ℕ → ℕ → ℕ
times x k = nearest (x * k) 1

unfoldable pub over : ℕ → ℕ → ℕ
over x k = nearest x k

-- `Math.floor`, and `Math.round`, which rounds halves up.
unfoldable pub floor : ℕ → ℕ
floor x = x / unit

unfoldable pub round : ℕ → ℕ
round x = (2 * x + unit) / (2 * unit)

-- The number of hundredths that `toFixed(2)` writes: the nearest, of two the larger.
unfoldable pub fixed : ℕ → ℕ
fixed x = (200 * x + unit) / (2 * unit)
