-- ===== src/Shared/Text/Trim.antt =====
-- What trimming keeps: a text of digits has no white space.
use delivery_plus.Prelude.{ℕ, ◌≤◌, ◌≡◌, refl, false, [], ◌∷◌, arith}
use delivery_plus.Shared.Text.{Text, is_space, trim_end, trim_start, trim}

pub is_space-digit : (c : ℕ) → b'0' ≤ c → c ≤ b'9' → is_space c ≡ false
unfolding is_space
is_space-digit c low high = ground arith

pub trim_end-keeps :
    (c : ℕ) (t : Text) → is_space c ≡ false → trim_end t ≡ t → trim_end (c ∷ t) ≡ c ∷ t
unfolding trim_end
trim_end-keeps c [] solid kept = rw solid refl
trim_end-keeps c (d ∷ t) solid kept = rw kept refl

pub trim_end-nothing : trim_end [] ≡ []
unfolding trim_end
trim_end-nothing = refl

pub trim-keeps :
    (c : ℕ) (t : Text) → is_space c ≡ false → trim_end (c ∷ t) ≡ c ∷ t → trim (c ∷ t) ≡ c ∷ t
unfolding trim trim_start
trim-keeps c t solid kept = rw solid kept

pub plus_is_solid : is_space b'+' ≡ false
unfolding is_space
plus_is_solid = refl
