-- ===== src/Shared/Mobile.antt =====
-- Egyptian mobile numbers (shared/src/utils/egyptian-mobile.ts): any accepted spelling to one form.
pub mod Form
pub mod Spellings
mod Tests
use delivery_plus.Prelude.{
  ℕ, Bool, true, false, ◌&&◌, ◌||◌, Option, none, some, List, [], ◌∷◌, ◌++◌, leb, ◌==◌,
  if◌then◌else◌, length,
}
use delivery_plus.Shared.Text.{Text, text, trim, is_space}

abbrev pub is_digit : ℕ → Bool
is_digit c = leb b'0' c && leb c b'9'

-- `[\s\-.()]`
abbrev pub is_separator : ℕ → Bool
is_separator c = is_space c || (c == b'-') || (c == b'.') || (c == b'(') || (c == b')')

unfoldable pub without_separators : Text → Text
without_separators [] = []
without_separators (c ∷ t) =
    let rest = without_separators t in if is_separator c then rest else c ∷ rest

unfoldable pub all_digits : Text → Bool
all_digits [] = true
all_digits (c ∷ t) = is_digit c && all_digits t

-- `^\+?\d+$`
unfoldable pub is_number : Text → Bool
is_number [] = false
is_number (c ∷ []) = is_digit c
is_number (c ∷ d ∷ t) = ((c == b'+') || is_digit c) && all_digits (d ∷ t)

-- `1[0125]\d{8}`
unfoldable pub is_national_mobile : Text → Bool
is_national_mobile (a ∷ b ∷ t) =
    (a == b'1')
    && ((b == b'0') || (b == b'1') || (b == b'2') || (b == b'5'))
    && all_digits t
    && (length t == 8)
is_national_mobile _ = false

-- What follows a prefix, where the text has it.
unfoldable pub after_prefix : Text → Text → Option Text
after_prefix [] t = some t
after_prefix (p ∷ ps) [] = none
after_prefix (p ∷ ps) (c ∷ t) = let rest = after_prefix ps t in if c == p then rest else none

abbrev pub or_else : Option Text → Option Text → Option Text
or_else none other = other
or_else (some t) other = some t

-- The number after its country code, or none where the code is another's.
unfoldable pub national_part : Text → Option Text
national_part t = or_else (after_prefix (text "+20") t) (
    or_else (after_prefix (text "0020") t) (elim (after_prefix (text "+") t) [
      | some _ ↦ none
      | none ↦
          or_else (if leb 12 (length t) then after_prefix (text "20") t else none)
            (after_prefix (text "0") t)
    ]))

-- `national.startsWith('0') ? national.slice(1) : national`
abbrev pub without_zero : Text → Text
without_zero [] = []
without_zero (c ∷ t) = if c == b'0' then t else c ∷ t

abbrev pub international : Text → Option Text
international national = if is_national_mobile national then some (text "+20" ++ national) else none

abbrev pub normalize_national : Option Text → Option Text
normalize_national none = none
normalize_national (some t) = international (without_zero t)

unfoldable pub normalize_compact : Text → Option Text
normalize_compact t = if is_number t then normalize_national (national_part t) else none

-- `normalizeEgyptianMobile` of a string
unfoldable pub normalize_egyptian_mobile : Text → Option Text
normalize_egyptian_mobile input = normalize_compact (without_separators (trim input))
