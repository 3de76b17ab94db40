-- ===== src/Shared/Text.antt =====
-- JavaScript strings as lists of UTF-16 code units, and the string methods that the services use.
pub mod Trim
use Prim.Native.Char.{code}
use delivery_plus.Prelude.{
  ℕ, ◌≡◌, refl, String, Bool, true, false, ◌&&◌, ◌||◌, List, [], ◌∷◌, leb, ◌==◌, if◌then◌else◌,
}

abbrev pub Text : Type 0
Text = List ℕ

-- A literal of the source. Those that the model has are ASCII, one code unit to a character.
abbrev pub text : String → Text
text String.[] = []
text (String.◌∷◌ c s) = code c ∷ text s

-- White space and line terminators, as `trim` and `\s` take them.
pub is_space : ℕ → Bool
is_space c =
    (leb 9 c && leb c 13)
    || (c == 32)
    || (c == 0xa0)
    || (c == 0x1680)
    || (leb 0x2000 c && leb c 0x200a)
    || (c == 0x2028)
    || (c == 0x2029)
    || (c == 0x202f)
    || (c == 0x205f)
    || (c == 0x3000)
    || (c == 0xfeff)

pub trim_start : Text → Text
trim_start [] = []
trim_start (c ∷ t) = let rest = trim_start t in if is_space c then rest else c ∷ t

pub trim_end : Text → Text
trim_end [] = []
trim_end (c ∷ t) = elim (trim_end t) [ [] ↦ if is_space c then [] else c ∷ [] | d ∷ r ↦ c ∷ d ∷ r ]

-- `s.trim()`
unfoldable pub trim : Text → Text
unfolding trim_start trim_end is_space
trim t = trim_end (trim_start t)

-- `s.split(/\s+/)[0]`
unfoldable pub first_word : Text → Text
unfolding is_space
first_word [] = []
first_word (c ∷ t) = let rest = first_word t in if is_space c then [] else c ∷ rest

-- A JavaScript condition on a string: it is not empty.
abbrev pub is_truthy : Text → Bool
is_truthy [] = false
is_truthy (c ∷ t) = true

trim_test : trim (text "  a b ") ≡ text "a b"
unfolding trim
trim_test = refl

first_word_test : first_word (text "Mona Ali") ≡ text "Mona"
unfolding first_word
first_word_test = refl
