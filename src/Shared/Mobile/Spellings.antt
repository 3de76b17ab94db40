-- ===== src/Shared/Mobile/Spellings.antt =====
-- The spellings of an Egyptian mobile number that the apps accept
-- (shared/src/utils/egyptian-mobile.ts).
use delivery_plus.Prelude.{
  ℕ, Bool, Option, if◌then◌else◌, ◌≡◌, refl, true, false, some, none, [], ◌∷◌, ◌++◌, arith, ap, ◌∙◌,
  length, leb, ◌==◌,
}
use delivery_plus.Shared.Text.{Text, text, trim}
use delivery_plus.Shared.Text.Trim.{trim-keeps}
use delivery_plus.Shared.Mobile.{
  without_separators, all_digits, is_number, is_national_mobile, national_part, after_prefix,
  or_else, international, normalize_national, normalize_compact, normalize_egyptian_mobile,
}
use delivery_plus.Shared.Mobile.Form.{
  digit_is_solid, all_digits-head, trim_end-digits, without_separators-digits,
  is_national_mobile-digits, without_zero-mobile, normalize_compact-number, international-mobile,
  normalize_egyptian_mobile-international,
}

compact-digits :
    (c : ℕ) (t : Text) → all_digits (c ∷ t) ≡ true → without_separators (trim (c ∷ t)) ≡ c ∷ t
compact-digits c t digits =
    ap without_separators (
      trim-keeps c t (digit_is_solid c (all_digits-head c t digits))
        (trim_end-digits (c ∷ t) digits))
    ∙ without_separators-digits (c ∷ t) digits

is_number-digits : (c : ℕ) (t : Text) → all_digits (c ∷ t) ≡ true → is_number (c ∷ t) ≡ true
unfolding is_number all_digits
is_number-digits c [] digits = ground arith
is_number-digits c (d ∷ t) digits = ground arith

-- A text of digits alone is read by what follows its prefix.
normalize-digits :
    (c : ℕ) (t n : Text)
    → all_digits (c ∷ t) ≡ true
    → national_part (c ∷ t) ≡ some n
    → is_national_mobile n ≡ true
    → normalize_egyptian_mobile (c ∷ t) ≡ some (text "+20" ++ n)
unfolding normalize_egyptian_mobile
normalize-digits c t n digits part mobile =
    ap normalize_compact (compact-digits c t digits)
    ∙ normalize_compact-number (c ∷ t) (is_number-digits c t digits)
    ∙ ap normalize_national part
    ∙ ap international (without_zero-mobile n mobile)
    ∙ international-mobile n mobile

or_else-neither : (x : Bool) (o : Option Text) → or_else (if x then none else none) o ≡ o
or_else-neither true o = refl
or_else-neither false o = refl

mobile_has_no_zero : (a : ℕ) (t : Text) → is_national_mobile (a ∷ t) ≡ true → (a == b'0') ≡ false
unfolding is_national_mobile
mobile_has_no_zero a [] mobile = ground arith
mobile_has_no_zero a (b ∷ t) mobile = ground arith

mobile_is_long :
    (a b : ℕ) (t : Text)
    → is_national_mobile (a ∷ b ∷ t) ≡ true
    → leb 12 (length (b'2' ∷ b'0' ∷ a ∷ b ∷ t)) ≡ true
unfolding is_national_mobile
mobile_is_long a b t mobile = ground arith

national_part-local :
    (n : Text) → is_national_mobile n ≡ true → national_part (text "0" ++ n) ≡ some n
unfolding national_part after_prefix
national_part-local [] mobile = refl
national_part-local (a ∷ []) mobile = rw (mobile_has_no_zero a [] mobile) refl
national_part-local (a ∷ b ∷ t) mobile =
    rw (mobile_has_no_zero a (b ∷ t) mobile)
      (or_else-neither (leb 12 (length (b'0' ∷ a ∷ b ∷ t))) (some (a ∷ b ∷ t)))

national_part-zeros : (n : Text) → national_part (text "0020" ++ n) ≡ some n
unfolding national_part after_prefix
national_part-zeros n = refl

national_part-country :
    (n : Text) → is_national_mobile n ≡ true → national_part (text "20" ++ n) ≡ some n
unfolding national_part after_prefix is_national_mobile
national_part-country [] mobile = ground arith
national_part-country (a ∷ []) mobile = ground arith
national_part-country (a ∷ b ∷ t) mobile = rw (mobile_is_long a b t mobile) refl

-- A national mobile number, sent as such with its leading 0, or with the country code written
-- `+20`, `0020` or `20`, is stored in one and the same form.
pub spellings_agree :
    (n : Text)
    → is_national_mobile n ≡ true
    → (normalize_egyptian_mobile (text "0" ++ n) ≡ some (text "+20" ++ n))
      × (normalize_egyptian_mobile (text "+20" ++ n) ≡ some (text "+20" ++ n))
      × (normalize_egyptian_mobile (text "0020" ++ n) ≡ some (text "+20" ++ n))
      × (normalize_egyptian_mobile (text "20" ++ n) ≡ some (text "+20" ++ n))
unfolding all_digits
spellings_agree n mobile = (
  normalize-digits b'0' n n digits (national_part-local n mobile) mobile,
  normalize_egyptian_mobile-international n mobile,
  normalize-digits b'0' (text "020" ++ n) n digits (national_part-zeros n) mobile,
  normalize-digits b'2' (text "0" ++ n) n digits (national_part-country n mobile) mobile,
)
  where
    digits : all_digits n ≡ true
    digits = is_national_mobile-digits n mobile
