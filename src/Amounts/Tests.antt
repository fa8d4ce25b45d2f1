-- ===== src/Amounts/Tests.antt =====
-- Runs of the amount parser on the forms that the source names.
use max_ed.Base.Int.{pos, negsuc}
use max_ed.Base.{◌≡◌, refl, value_error, ok, raise}
use max_ed.Amounts.{parse_amount_token}
use max_ed.Amounts.Words.{words_to_dollars}
use max_ed.Money.Parse.{parse_dollars}
use max_ed.Regex.{full_match, search_in, sub_space}
use max_ed.Regex.Strip.{strip, strip_by, strip_left, remove_char}

amount_forms :
    (parse_amount_token "$2,400.00" ≡ ok (pos 240000))
    × (parse_amount_token "2,400 dollars" ≡ ok (pos 240000))
    × (parse_amount_token "USD 350" ≡ ok (pos 35000))
    × (parse_amount_token "-$35.5" ≡ ok (negsuc 3549))
    × (parse_amount_token "twelve hundred dollars" ≡ ok (pos 120000))
    × (parse_amount_token "$6,30.00" ≡ raise (value_error "unparseable dollar amount"))
    × (parse_amount_token "40%" ≡ raise (value_error "percentage token cannot resolve to cents"))
    × (parse_amount_token "half" ≡ raise (value_error "fraction token cannot resolve to cents"))
unfolding parse_amount_token words_to_dollars parse_dollars full_match search_in sub_space strip
    strip_by strip_left remove_char
amount_forms = (refl, refl, refl, refl, refl, refl, refl, refl)
