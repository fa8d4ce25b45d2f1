-- ===== src/Dates/Tests.antt =====
-- Runs of the parser and of the printer of dates.
use max_ed.Base.{◌≡◌, refl, value_error, ok, raise}
use max_ed.Dates.{make_date, isoformat}
use max_ed.Dates.Token.{parse_date_token}
use max_ed.Regex.Strip.{strip, strip_by, strip_left}

date_forms :
    (parse_date_token "2026-03-31" ≡ ok 739706)
    × (parse_date_token "March 3, 2026" ≡ make_date 2026 3 3)
    × (parse_date_token "sept. 21st 2026." ≡ make_date 2026 9 21)
    × (parse_date_token "3/31/2026" ≡ ok 739706)
    × (parse_date_token "2026-02-30" ≡ raise (value_error "day is out of range for month"))
    × (isoformat 739706 ≡ "2026-03-31")
    × (isoformat 730485 ≡ "2000-12-31")
unfolding parse_date_token make_date isoformat strip strip_by strip_left
date_forms = (refl, refl, refl, refl, refl, refl, refl)
