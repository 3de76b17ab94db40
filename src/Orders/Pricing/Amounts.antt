-- ===== src/Orders/Pricing/Amounts.antt =====
-- Amounts: what is written is read back.
use delivery_plus.Prelude.{
  ℕ, zero, suc, ◌+◌, ◌-◌, ◌*◌, ◌/◌, ◌%◌, ◌^◌, ◌≤◌, ◌<◌, ◌≡◌, refl, ap, ◌∙◌, some, [], ◌∷◌, arith,
  ltb, Bool-cases, inl, inr,
}
use delivery_plus.Shared.Text.{Text}
use delivery_plus.Shared.Numbers.{fraction, times, round, fixed}
use delivery_plus.Shared.Numbers.Rounding.{nearest_lem}
use delivery_plus.Orders.Pricing.{
  digits, decimal, from_piasters, read_whole, read_fraction, hundredths, to_piasters_of_number,
  to_piasters,
}

-- A digit is read onto the whole part before it.
read_whole-digit :
    (acc d : ℕ) (rest : Text)
    → d < 10
    → read_whole acc ((b'0' + d) ∷ rest) ≡ read_whole (acc * 10 + d) rest
unfolding read_whole
read_whole-digit acc d rest h = ground (arith, ap (λ n. read_whole n rest) (sub_add acc d))
  where
    sub_add : (acc d : ℕ) → acc * 10 + (b'0' + d - b'0') ≡ acc * 10 + d
    sub_add acc d = omega arith

hundredths-digit :
    (d : ℕ) (rest : Text) → d < 10 → hundredths ((b'0' + d) ∷ rest) ≡ read_whole d rest
unfolding hundredths
hundredths-digit d rest h = ground (arith, ap (λ n. read_whole n rest) (sub_add d))
  where
    sub_add : (d : ℕ) → b'0' + d - b'0' ≡ d
    sub_add d = omega arith

hundredths-digits :
    (f n : ℕ) (rest : Text) → n < f → hundredths (digits f n rest) ≡ read_whole n rest
unfolding digits
hundredths-digits zero n rest h = elim h [ ]
hundredths-digits (suc f) n rest h = elim (Bool-cases (ltb n 10)) [
  | inl last ↦ rw last (hundredths-digit n rest (ground arith))
  | inr more ↦
      rw (more, hundredths-digits f (n / 10) ((b'0' + n % 10) ∷ rest) (ground arith))
        (rw (read_whole-digit (n / 10) (n % 10) rest (omega arith))
          (ap (λ m. read_whole m rest) (omega arith)))
]

read_whole-cents :
    (w d e : ℕ)
    → d < 10
    → e < 10
    → read_whole w (b'.' ∷ (b'0' + d) ∷ (b'0' + e) ∷ []) ≡ some (w * 100 + d * 10 + e)
unfolding read_whole read_fraction
read_whole-cents w d e h k = ground arith

hundredths-decimal : (p : ℕ) → hundredths (decimal p) ≡ some p
unfolding decimal
hundredths-decimal p =
    hundredths-digits (suc p) (p / 100) _ (omega arith)
    ∙ read_whole-cents (p / 100) (p % 100 / 10) (p % 10) (omega arith) (omega arith)
    ∙ ap some (omega arith)

-- The bounds that rounding keeps of the quotient by 100 of a number of piasters, and of its product.
fraction_lem :
    (p : ℕ)
    → p < 2 ^ 50
    → (200 * fraction p 100 ≤ 2 * (p * 2 ^ 59) + 100 * 2 ^ 50)
      × (2 * (p * 2 ^ 59) ≤ 200 * fraction p 100 + 100 * 2 ^ 50)
unfolding fraction
fraction_lem p h =
    let (low, high) = nearest_lem (p * 2 ^ 59) 100 50 (omega arith) (omega arith) in
    (omega (arith, low), omega (arith, high))

fixed-fraction : (p : ℕ) → p < 2 ^ 50 → fixed (fraction p 100) ≡ p
unfolding fixed
fixed-fraction p h = omega (arith, fraction_lem p h)

pub to_piasters_of_number-fraction :
    (p : ℕ) → p < 2 ^ 50 → to_piasters_of_number (fraction p 100) ≡ p
unfolding to_piasters_of_number times round
to_piasters_of_number-fraction p h =
    let (low, high) = fraction_lem p h in
    let y = fraction p 100 in
    let (low', high') = nearest_lem (y * 100) 1 56 (omega arith) (omega (arith, low, high)) in
    omega (arith, low, high, low', high')

read_back :
    (amount : Text) (n : ℕ)
    → hundredths amount ≡ some n
    → to_piasters amount ≡ some (to_piasters_of_number (fraction n 100))
unfolding to_piasters
read_back amount n h = rw (to_piasters, h) refl

-- Every amount below 2^50 piasters, in the arithmetic of doubles, is read back from its text as it
-- was.
pub to_piasters-from_piasters : (p : ℕ) → p < 2 ^ 50 → to_piasters (from_piasters p) ≡ some p
unfolding from_piasters
to_piasters-from_piasters p h =
    rw (fixed-fraction p h) (read_back (decimal p) p (hundredths-decimal p))
    ∙ ap some (to_piasters_of_number-fraction p h)
