-- ===== src/Shared/Mobile/Form.antt =====
-- The one form of an Egyptian mobile number (shared/src/utils/egyptian-mobile.ts).
use mathlib.Core.Option.{some-injective}
use delivery_plus.Prelude.{
  ℕ, ◌≡◌, refl, true, false, Bool-cases, inl, inr, some, none, Option, [], ◌∷◌, ◌++◌, arith, ap,
  ◌∙◌, sym,
}
use delivery_plus.Shared.Text.{Text, text, is_space, trim}
use delivery_plus.Shared.Text.Trim.{
  is_space-digit, trim_end-keeps, trim_end-nothing, trim-keeps, plus_is_solid,
}
use delivery_plus.Shared.Mobile.{
  is_digit, is_separator, without_separators, all_digits, is_number, is_national_mobile,
  national_part, after_prefix, international, normalize_national, normalize_compact,
  normalize_egyptian_mobile, without_zero,
}
use delivery_plus.Shared.Text.{trim_end}

pub digit_is_solid : (c : ℕ) → is_digit c ≡ true → is_space c ≡ false
digit_is_solid c digit = is_space-digit c (ground arith) (ground arith)

pub is_separator-digit : (c : ℕ) → is_digit c ≡ true → is_separator c ≡ false
is_separator-digit c digit = rw (digit_is_solid c digit) (ground arith)

pub all_digits-head : (c : ℕ) (t : Text) → all_digits (c ∷ t) ≡ true → is_digit c ≡ true
unfolding all_digits
all_digits-head c t digits = ground arith

pub all_digits-tail : (c : ℕ) (t : Text) → all_digits (c ∷ t) ≡ true → all_digits t ≡ true
unfolding all_digits
all_digits-tail c t digits = ground arith

pub trim_end-digits : (t : Text) → all_digits t ≡ true → trim_end t ≡ t
trim_end-digits [] digits = trim_end-nothing
trim_end-digits (c ∷ t) digits =
    trim_end-keeps c t (digit_is_solid c (all_digits-head c t digits))
      (trim_end-digits t (all_digits-tail c t digits))

pub without_separators-digits : (t : Text) → all_digits t ≡ true → without_separators t ≡ t
unfolding without_separators
without_separators-digits [] digits = refl
without_separators-digits (c ∷ t) digits =
    rw (is_separator-digit c (all_digits-head c t digits))
      (ap (λ r. c ∷ r) (without_separators-digits t (all_digits-tail c t digits)))

pub is_national_mobile-digits : (n : Text) → is_national_mobile n ≡ true → all_digits n ≡ true
unfolding is_national_mobile all_digits
is_national_mobile-digits [] mobile = ground arith
is_national_mobile-digits (a ∷ []) mobile = ground arith
is_national_mobile-digits (a ∷ b ∷ t) mobile = ground arith

compact_form : (t : Text) → all_digits t ≡ true → without_separators (trim (b'+' ∷ t)) ≡ b'+' ∷ t
unfolding without_separators
compact_form t digits =
    rw
      (
        trim-keeps b'+' t plus_is_solid
            (trim_end-keeps b'+' t plus_is_solid (trim_end-digits t digits)),
        plus_is_solid,
        without_separators-digits t digits,
      )
      refl

pub without_zero-mobile : (n : Text) → is_national_mobile n ≡ true → without_zero n ≡ n
unfolding is_national_mobile
without_zero-mobile [] mobile = ground arith
without_zero-mobile (a ∷ []) mobile = ground arith
without_zero-mobile (a ∷ b ∷ t) mobile = ground arith

is_number-international :
    (n : Text) → is_national_mobile n ≡ true → is_number (text "+20" ++ n) ≡ true
unfolding is_number all_digits
is_number-international n mobile = is_national_mobile-digits n mobile

national_part-international : (n : Text) → national_part (text "+20" ++ n) ≡ some n
unfolding national_part after_prefix
national_part-international n = refl

pub normalize_compact-number :
    (t : Text) → is_number t ≡ true → normalize_compact t ≡ normalize_national (national_part t)
unfolding normalize_compact
normalize_compact-number t number = rw number refl

normalize_compact-other : (t : Text) → is_number t ≡ false → normalize_compact t ≡ none
unfolding normalize_compact
normalize_compact-other t other = rw other refl

pub international-mobile :
    (n : Text) → is_national_mobile n ≡ true → international n ≡ some (text "+20" ++ n)
international-mobile n mobile = rw mobile refl

international-other : (n : Text) → is_national_mobile n ≡ false → international n ≡ none
international-other n other = rw other refl

normalize_compact-international :
    (n : Text)
    → is_national_mobile n ≡ true
    → normalize_compact (text "+20" ++ n) ≡ some (text "+20" ++ n)
normalize_compact-international n mobile =
    normalize_compact-number (text "+20" ++ n) (is_number-international n mobile)
    ∙ ap normalize_national (national_part-international n)
    ∙ ap international (without_zero-mobile n mobile)
    ∙ international-mobile n mobile

pub normalize_egyptian_mobile-international :
    (n : Text)
    → is_national_mobile n ≡ true
    → normalize_egyptian_mobile (text "+20" ++ n) ≡ some (text "+20" ++ n)
unfolding normalize_egyptian_mobile all_digits
normalize_egyptian_mobile-international n mobile =
    ap normalize_compact (compact_form (b'2' ∷ b'0' ∷ n) (country-digits n mobile))
    ∙ normalize_compact-international n mobile
  where
    country-digits : (n : Text) → is_national_mobile n ≡ true → all_digits (b'2' ∷ b'0' ∷ n) ≡ true
    country-digits n mobile = is_national_mobile-digits n mobile

no_answer : (y : Text) → none ≡ some y → normalize_egyptian_mobile y ≡ some y
no_answer y same = cc

international-normal :
    (n y : Text) → international n ≡ some y → normalize_egyptian_mobile y ≡ some y
international-normal n y returned = elim (Bool-cases (is_national_mobile n)) [
  | inl mobile ↦ go n y mobile (some-injective _ _ (sym (international-mobile n mobile) ∙ returned))
  | inr other ↦ no_answer y (sym (international-other n other) ∙ returned)
]
  where
    go :
        (n y : Text)
        → is_national_mobile n ≡ true
        → text "+20" ++ n ≡ y
        → normalize_egyptian_mobile y ≡ some y
    go n y mobile same = rw (sym same) (normalize_egyptian_mobile-international n mobile)

normalize_national-normal :
    (national : Option Text) (y : Text)
    → normalize_national national ≡ some y
    → normalize_egyptian_mobile y ≡ some y
normalize_national-normal none y returned = no_answer y returned
normalize_national-normal (some t) y returned = international-normal (without_zero t) y returned

normalize_compact-normal :
    (t y : Text) → normalize_compact t ≡ some y → normalize_egyptian_mobile y ≡ some y
unfolding normalize_compact
normalize_compact-normal t y returned = elim (Bool-cases (is_number t)) [
  | inl number ↦
      normalize_national-normal (national_part t) y
        (sym (normalize_compact-number t number) ∙ returned)
  | inr other ↦ no_answer y (sym (normalize_compact-other t other) ∙ returned)
]

-- Where the function returns a number for some text, normalizing that number again gives it back.
pub normalized_is_normal :
    (input y : Text)
    → normalize_egyptian_mobile input ≡ some y
    → normalize_egyptian_mobile y ≡ some y
unfolding normalize_egyptian_mobile
normalized_is_normal input y returned =
    normalize_compact-normal (without_separators (trim input)) y returned
