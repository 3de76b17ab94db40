-- ===== src/Shared/Numbers/Rounding.antt =====
-- The error of a rounded number.
use delivery_plus.Prelude.{
  ℕ, zero, suc, ◌+◌, ◌-◌, ◌*◌, ◌/◌, ◌%◌, ◌^◌, ◌<◌, ◌≤◌, ◌≡◌, refl, sym, ap, ◌∙◌, subst, Bool, true,
  false, ltb, arith, Bool-cases, ◌⊎◌, inl, inr, if◌then◌else◌,
}
use native.Mathlib.Omega.{div_any}
use native.Mathlib.Nat.{mod-lt, one-le-pow, pow-suc, pow-le-pow_right, le-div_iff_mul-le}
use delivery_plus.Shared.Numbers.{round_even, exponent, nearest}

round_even_lem :
    (n q : ℕ)
    → 0 < q
    → (n / q ≤ round_even n q)
      × (2 * (q * round_even n q) ≤ 2 * n + q)
      × (2 * n ≤ 2 * (q * round_even n q) + q)
unfolding round_even
round_even_lem n q h = bounds (n / q) (n % q) (div_any n q) (mod-lt n h)
  where
    parity : (k : ℕ) → (k % 2 ≡ 0) ⊎ (k % 2 ≡ 1)
    parity k = elim (Bool-cases (ltb (k % 2) 1)) [
      | inl low ↦ inl (ground arith)
      | inr high ↦ inr (ground arith)
    ]

    above :
        (k r : ℕ)
        → q * k + r ≡ n
        → q ≤ 2 * r
        → r < q
        → (k ≤ k + 1) × (2 * (q * (k + 1)) ≤ 2 * n + q) × (2 * n ≤ 2 * (q * (k + 1)) + q)
    above k r e m l =
        let p : q * (k + 1) ≡ q * k + q = grind arith in
        rw p (omega arith, omega arith, omega arith)

    level :
        (k r : ℕ)
        → q * k + r ≡ n
        → 2 * r ≤ q
        → r < q
        → (k ≤ k + 0) × (2 * (q * (k + 0)) ≤ 2 * n + q) × (2 * n ≤ 2 * (q * (k + 0)) + q)
    level k r e m l =
        let p : k + 0 ≡ k = omega arith in rw p (omega arith, omega arith, omega arith)

    bounds :
        (k r : ℕ)
        → q * k + r ≡ n
        → r < q
        → let c = if ltb (2 * r) q then k else if ltb q (2 * r) then k + 1 else k + k % 2 in
          (k ≤ c) × (2 * (q * c) ≤ 2 * n + q) × (2 * n ≤ 2 * (q * c) + q)
    bounds k r e l = elim (Bool-cases (ltb (2 * r) q)) [
      | inl low ↦ rw low (ground arith)
      | inr not_low ↦ elim (Bool-cases (ltb q (2 * r))) [
        | inl high ↦ rw (not_low, high) (above k r e (ground arith) l)
        | inr middle ↦
            rw (not_low, middle)
              (elim (parity k) [
                | inl even ↦ rw even (level k r e (ground arith) l)
                | inr odd ↦ rw odd (above k r e (ground arith) l)
              ])
      ]
    ]

exponent-le : (f j n d k : ℕ) → n < d * 2 ^ (53 + k) → j ≤ k → exponent f j n d ≤ k
unfolding exponent
exponent-le zero j n d k h le = le
exponent-le (suc f) j n d k h le =
    pick (ltb n (d * 2 ^ (53 + j))) (λ enough. le)
      (λ short. exponent-le f (suc j) n d k h (elim (Bool-cases (ltb j k)) [
        | inl below ↦ ground arith
        | inr same ↦ absurd (last j k short h le (ground arith))
      ]))
  where
    pick :
        {a c m : ℕ} (b : Bool)
        → (b ≡ true → a ≤ m)
        → (b ≡ false → c ≤ m)
        → (elim b [ true ↦ a | false ↦ c ]) ≤ m
    pick true p q = p refl
    pick false p q = q refl

    last : (j k : ℕ) → ltb n (d * 2 ^ (53 + j)) ≡ false → n < d * 2 ^ (53 + k) → j ≤ k → k ≤ j → ⊥
    last j k short h le ge =
        let e : j ≡ k = omega arith in
        let m : n < d * 2 ^ (53 + j) = subst (λ i. n < d * 2 ^ (53 + i)) (sym e) h in ground arith

-- The error of a number below 2^(53 + k) counts is at most half of 2^k.
pub nearest_lem :
    (n d k : ℕ)
    → 0 < d
    → n < d * 2 ^ (53 + k)
    → (2 * (d * nearest n d) ≤ 2 * n + d * 2 ^ k) × (2 * n ≤ 2 * (d * nearest n d) + d * 2 ^ k)
unfolding nearest
nearest_lem n d k pos h =
    let j = exponent 1030 0 n d in
    let le : 2 ^ j ≤ 2 ^ k =
      pow-le-pow_right (omega arith) (exponent-le 1030 0 n d k h (omega arith)) in
    let p : 0 < 2 ^ j = one-le-pow j 2 (omega arith) in within (2 ^ j) (2 ^ k) p le
  where
    within :
        (s t : ℕ)
        → 0 < s
        → s ≤ t
        → let x = round_even n (d * s) * s in
          (2 * (d * x) ≤ 2 * n + d * t) × (2 * n ≤ 2 * (d * x) + d * t)
    within s t p le =
        let c = round_even n (d * s) in
        let (floor_le, low, high) = round_even_lem n (d * s) (grind arith) in
        let e : d * (c * s) ≡ d * s * c = grind arith in
        let m : d * s ≤ d * t = grind arith in rw e (omega arith, omega arith)

-- A number is not rounded below a whole number that is not above it.
pub nearest-ge :
    (n d k m : ℕ)
    → 0 < d
    → n < d * 2 ^ (53 + k)
    → k ≤ 59
    → d * (m * 2 ^ 59) ≤ n
    → m * 2 ^ 59 ≤ nearest n d
unfolding nearest
nearest-ge n d k m pos h small below =
    let j = exponent 1030 0 n d in
    let le : j ≤ 59 = omega (arith, exponent-le 1030 0 n d k h (omega arith)) in
    let split : 2 ^ 59 ≡ 2 ^ (59 - j) * 2 ^ j = split_pow j 59 le in
    let p : 0 < 2 ^ j = one-le-pow j 2 (omega arith) in
    subst (λ u. m * u ≤ nearest n d) (sym split)
      (above (2 ^ j) (2 ^ (59 - j)) p (subst (λ u. d * (m * u) ≤ n) split below))
  where
    pow-add : (t j : ℕ) → 2 ^ (t + j) ≡ 2 ^ t * 2 ^ j
    pow-add zero j = ap (λ i. 2 ^ i) (left_zero j) ∙ one_times (2 ^ j)
      where
        left_zero : (j : ℕ) → 0 + j ≡ j
        left_zero j = omega arith

        one_times : (p : ℕ) → p ≡ 1 * p
        one_times p = omega arith
    pow-add (suc t) j =
        ap (λ i. 2 ^ i) (left_suc t j)
        ∙ pow-suc 2 (t + j)
        ∙ doubled (2 ^ (t + j)) (2 ^ t) (2 ^ j) (pow-add t j)
        ∙ ap (λ p. p * 2 ^ j) (sym (pow-suc 2 t))
      where
        left_suc : (t j : ℕ) → suc t + j ≡ suc (t + j)
        left_suc t j = omega arith

        doubled : (p q r : ℕ) → p ≡ q * r → p * 2 ≡ q * 2 * r
        doubled p q r e = grind arith

    split_pow : (j k : ℕ) → j ≤ k → 2 ^ k ≡ 2 ^ (k - j) * 2 ^ j
    split_pow j k le = ap (λ i. 2 ^ i) (omega arith) ∙ pow-add (k - j) j

    assoc : (m t s : ℕ) → m * t * s ≡ m * (t * s)
    assoc m t s = grind arith

    mul_mono : (a b s : ℕ) → a ≤ b → a * s ≤ b * s
    mul_mono a b s h = grind arith

    above : (s t : ℕ) → 0 < s → d * (m * (t * s)) ≤ n → m * (t * s) ≤ round_even n (d * s) * s
    above s t p b =
        let (floor_le, low, high) = round_even_lem n (d * s) (grind arith) in
        let e : m * t * (d * s) ≡ d * (m * (t * s)) = grind arith in
        let q =
          (le-div_iff_mul-le {k = d * s} {x = m * t} {y = n} (grind arith)).1
            (subst (λ u. u ≤ n) (sym e) b) in
        subst (λ u. u ≤ round_even n (d * s) * s) (assoc m t s)
          (mul_mono (m * t) (round_even n (d * s)) s (omega (arith, floor_le, q)))
