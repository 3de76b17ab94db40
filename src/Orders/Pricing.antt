-- ===== src/Orders/Pricing.antt =====
-- Delivery pricing (services/order-service/src/common/pricing.ts). An amount in EGP is a double, as in
-- the source, and piasters are whole numbers; their sums and differences are exact below 2^53.
pub mod Amounts
pub mod Split
use delivery_plus.Prelude.{
  ℕ, zero, suc, ◌+◌, ◌-◌, ◌*◌, ◌/◌, ◌%◌, Bool, true, false, ◌&&◌, Option, none, some, List, [], ◌∷◌,
  ◌++◌, leb, ltb, if◌then◌else◌, ◌==◌,
}
use delivery_plus.Shared.Text.{Text}
use delivery_plus.Shared.Numbers.{whole, fraction, times, over, floor, round, fixed}

pub record PricingPolicy : Type 0 where
  pub delivery_fee_piasters : ℕ
  pub driver_share_percent : ℕ
  pub driver_cancel_after_pickup_percent : ℕ

pub record PricingSnapshot : Type 0 where
  pub subtotal_amount : Text
  pub delivery_fee : Text
  pub total_amount : Text
  pub driver_fee_share : Text
  pub platform_fee_share : Text
  pub driver_cancel_fee_share : Text

abbrev pub default_pricing : PricingPolicy
default_pricing = record {
  delivery_fee_piasters = 2500;
  driver_share_percent = 50;
  driver_cancel_after_pickup_percent = 25;
}

-- The decimal digits of a number in front of a text; each round writes the last digit.
unfoldable pub digits : ℕ → ℕ → Text → Text
digits zero n rest = rest
digits (suc f) n rest =
    let more = digits f (n / 10) ((b'0' + n % 10) ∷ rest) in
    if ltb n 10 then (b'0' + n) ∷ rest else more

-- Hundredths, written with two decimals.
unfoldable pub decimal : ℕ → Text
decimal p = digits (suc p) (p / 100) (b'.' ∷ (b'0' + p % 100 / 10) ∷ (b'0' + p % 10) ∷ [])

-- `(piasters / 100).toFixed(2)`, below 10^21
unfoldable pub from_piasters : ℕ → Text
from_piasters p = decimal (fixed (fraction p 100))

abbrev pub is_digit : ℕ → Bool
is_digit c = leb b'0' c && leb c b'9'

-- The fraction of an amount, `(\.\d{1,2})?$`, after the whole part `acc`.
unfoldable pub read_fraction : ℕ → Text → Option ℕ
read_fraction acc [] = some (acc * 100)
read_fraction acc (c ∷ d ∷ []) =
    if c == b'.' && is_digit d then some (acc * 100 + (d - b'0') * 10) else none
read_fraction acc (c ∷ d ∷ e ∷ []) =
    if c == b'.' && is_digit d && is_digit e
    then some (acc * 100 + (d - b'0') * 10 + (e - b'0'))
    else none
read_fraction acc _ = none

-- The digits of the whole part, `^\d+`, one of which has been read.
unfoldable pub read_whole : ℕ → Text → Option ℕ
read_whole acc [] = read_fraction acc []
read_whole acc (c ∷ t) =
    let more = read_whole (acc * 10 + (c - b'0')) t in
    if is_digit c then more else read_fraction acc (c ∷ t)

-- The hundredths of a text of the form `^\d+(\.\d{1,2})?$`, and none for any other text.
unfoldable pub hundredths : Text → Option ℕ
unfolding read_whole read_fraction
hundredths [] = none
hundredths (c ∷ t) = if is_digit c then read_whole (c - b'0') t else none

-- `toPiasters` of a number.
unfoldable pub to_piasters_of_number : ℕ → ℕ
to_piasters_of_number value = round (times value 100)

-- `toPiasters` of a text of that form: parseFloat gives the double nearest to it.
unfoldable pub to_piasters : Text → Option ℕ
to_piasters amount = elim (hundredths amount) [
  | none ↦ none
  | some n ↦ some (to_piasters_of_number (fraction n 100))
]

-- `Math.floor((piasters * percent) / 100)`
unfoldable pub percent_of : ℕ → ℕ → ℕ
percent_of piasters percent = floor (over (times (whole piasters) percent) 100)

-- `priceOrder` of a number.
unfoldable pub price_order : ℕ → PricingPolicy → PricingSnapshot
price_order amount policy =
    let subtotal = to_piasters_of_number amount in
    let fee = policy.delivery_fee_piasters in
    let driver = percent_of fee policy.driver_share_percent in
    record {
      subtotal_amount = from_piasters subtotal;
      delivery_fee = from_piasters fee;
      total_amount = from_piasters (subtotal + fee);
      driver_fee_share = from_piasters driver;
      platform_fee_share = from_piasters (fee - driver);
      driver_cancel_fee_share =
          from_piasters (percent_of fee policy.driver_cancel_after_pickup_percent);
    }
