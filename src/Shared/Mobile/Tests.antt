-- ===== src/Shared/Mobile/Tests.antt =====
-- Egyptian mobile numbers on concrete texts.
use delivery_plus.Prelude.{◌≡◌, refl, true, none, some}
use delivery_plus.Shared.Text.{text, trim}
use delivery_plus.Shared.Mobile.{
  normalize_egyptian_mobile, normalize_compact, is_number, without_separators, all_digits,
  national_part, after_prefix, is_national_mobile,
}
use delivery_plus.Shared.Mobile.Form.{normalized_is_normal}
use delivery_plus.Shared.Mobile.Spellings.{spellings_agree}

local_form : normalize_egyptian_mobile (text "010 1234-5678") ≡ some (text "+201012345678")
unfolding normalize_egyptian_mobile normalize_compact is_number without_separators trim all_digits
    national_part after_prefix is_national_mobile
local_form = refl

landline_test : normalize_egyptian_mobile (text "0223456789") ≡ none
unfolding normalize_egyptian_mobile normalize_compact is_number without_separators trim all_digits
    national_part after_prefix is_national_mobile
landline_test = refl

normalized_is_normal_example :
    normalize_egyptian_mobile (text "+201012345678") ≡ some (text "+201012345678")
normalized_is_normal_example =
    normalized_is_normal (text "010 1234-5678") (text "+201012345678") local_form

vodafone : is_national_mobile (text "1012345678") ≡ true
unfolding is_national_mobile all_digits
vodafone = refl

spellings_agree_example :
    (normalize_egyptian_mobile (text "01012345678") ≡ some (text "+201012345678"))
    × (normalize_egyptian_mobile (text "+201012345678") ≡ some (text "+201012345678"))
    × (normalize_egyptian_mobile (text "00201012345678") ≡ some (text "+201012345678"))
    × (normalize_egyptian_mobile (text "201012345678") ≡ some (text "+201012345678"))
spellings_agree_example = spellings_agree (text "1012345678") vodafone
