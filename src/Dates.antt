-- ===== src/Dates.antt =====
-- Python's `datetime.date` as its proleptic ordinal: construction, `isoformat`, and the parser of
-- date tokens `_parse_date_token` of balancecheck/checks/checks.py.
pub mod Token
mod Tests
use Prim.Native.String.{◌++◌ as append_text}
use max_ed.Base.{
  ℕ, zero, suc, ◌+◌, ◌-◌, ◌*◌, ◌/◌, ◌%◌, ◌^◌, String, Bool, not, ◌&&◌, ◌||◌, [], ◌∷◌, ◌++◌, ltb,
  leb, ◌==◌, if◌then◌else◌, concat, value_error, Result, ok, raise,
}
use max_ed.Contracts.{Date}
use max_ed.Money.{decimal}

unfoldable pub is_leap : ℕ → Bool
is_leap year = year % 4 == 0 && (not (year % 100 == 0) || year % 400 == 0)

unfoldable pub days_in_month : ℕ → ℕ → ℕ
unfolding is_leap
days_in_month year month =
    if month == 2
    then (if is_leap year then 29 else 28)
    else if month == 4 || month == 6 || month == 9 || month == 11
    then 30
    else 31

days_before_month : ℕ → ℕ → ℕ
unfolding days_in_month
days_before_month year zero = 0
days_before_month year (suc zero) = 0
days_before_month year (suc (suc m)) = days_before_month year (suc m) + days_in_month year (suc m)

unfoldable pub days_before_year : ℕ → ℕ
days_before_year year = let y = year - 1 in y * 365 + y / 4 - y / 100 + y / 400

-- `date(year, month, day)`
unfoldable pub make_date : ℕ → ℕ → ℕ → Result Date
unfolding days_before_month days_before_year days_in_month
make_date year month day =
    if not (leb 1 year && leb year 9999)
    then raise (value_error "year is out of range")
    else if not (leb 1 month && leb month 12)
    then raise (value_error "month must be in 1..12")
    else if not (leb 1 day && leb day (days_in_month year month))
    then raise (value_error "day is out of range for month")
    else ok (days_before_year year + days_before_month year month + day)

-- The year and the day of the year, from 0, of an ordinal: divisions by the lengths of 400, 100 and
-- 4 years and of one year.
year_and_day : Date → ℕ × ℕ
year_and_day date =
    let n = date - 1 in
    let n100 = n % 146097 / 36524 in
    let n4 = n % 146097 % 36524 / 1461 in
    let n1 = n % 146097 % 36524 % 1461 / 365 in
    let year = n / 146097 * 400 + n100 * 100 + n4 * 4 + n1 + 1 in
    if n1 == 4 || n100 == 4
    then (year - 1, if is_leap (year - 1) then 365 else 364)
    else (year, n % 146097 % 36524 % 1461 % 365)

-- The month and the day in it, from the day of the year: months are tried from the given one.
month_and_day : ℕ → ℕ → ℕ → ℕ → ℕ × ℕ
unfolding days_in_month
month_and_day zero year month day = (month, day + 1)
month_and_day (suc fuel) year month day =
    let next = month_and_day fuel year (month + 1) (day - days_in_month year month) in
    if ltb day (days_in_month year month) then (month, day + 1) else next

pad : ℕ → ℕ → String
unfolding decimal
pad zero n = decimal n
pad (suc width) n = if ltb n (10 ^ suc width) then append_text "0" (pad width n) else decimal n

-- `date.isoformat`
unfoldable pub isoformat : Date → String
unfolding year_and_day month_and_day pad concat is_leap
isoformat date =
    let (year, rest) = year_and_day date in
    let (month, day) = month_and_day 11 year 1 rest in
    concat (pad 3 year ∷ "-" ∷ pad 1 month ∷ "-" ∷ pad 1 day ∷ [])
