-- ===== src/Money/Parse.antt =====
-- `parse_dollars` of balancecheck/substrate/money.py, on the characters of the text.
use Prim.Native.Char.{Char, code}
use mathlib.Core.List.{foldl}
use max_ed.Base.Int.{ℤ, pos, sub_ℕ}
use max_ed.Base.{
  ℕ, ◌+◌, ◌-◌, ◌*◌, Bool, false, not, List, [], ◌∷◌, ◌++◌, ◌==◌, if◌then◌else◌, take, value_error,
  Result, ok, raise, ◌>>=◌, ltb, length,
}
use max_ed.Regex.{
  Regex, chr, seq, alt, opt, rep, full_match, digit_class, space_class, plus, star, all_of,
}
use max_ed.Regex.Strip.{strip, strip_left, remove_char}

-- `(?:\.\d{1,2})?`
abbrev pub cents_part : Regex
cents_part = opt (seq (chr (λ n. n == b'.')) (rep 1 1 digit_class))

-- `_AMOUNT_RE`, whose `$` stands at the end since the text is stripped.
abbrev pub amount_re : Regex
amount_re = all_of (
    opt (chr (λ n. n == b'-'))
    ∷ opt (chr (λ n. n == b'$'))
    ∷ star space_class
    ∷ alt (seq (rep 1 2 digit_class) (plus (seq (chr (λ n. n == b',')) (rep 3 0 digit_class))))
        (plus digit_class)
    ∷ cents_part
    ∷ [])

-- The value of digits; no digits give 0, as `int(whole or "0")`.
abbrev pub int_of : List Char → ℕ
int_of = foldl (λ n c. n * 10 + (code c - b'0')) 0

-- `int(s)` for digits: Python converts 4300 of them at most.
abbrev pub digit_limit : ℕ
digit_limit = 4300

abbrev pub read_int : List Char → Result ℕ
read_int digits =
    if ltb digit_limit (length digits)
    then raise (value_error "Exceeds the limit for integer string conversion")
    else ok (int_of digits)

-- `s.split(".", 1)`: before and behind the first point, if there is one.
unfoldable pub split_point : List Char → List Char × List Char
split_point [] = ([], [])
split_point (c ∷ cs) =
    let (whole, frac) = split_point cs in if code c == b'.' then ([], cs) else (c ∷ whole, frac)

-- `(frac + "00")[:2]`
abbrev pub two_places : List Char → List Char
two_places frac = take 2 (frac ++ ("0" ∷ "0" ∷ []))

unfoldable pub starts_with_minus : List Char → Bool
starts_with_minus [] = false
starts_with_minus (c ∷ cs) = code c == b'-'

unfoldable pub parse_dollars : List Char → Result ℤ
unfolding split_point starts_with_minus
parse_dollars text =
    let s = strip text in
    if not (full_match amount_re s)
    then raise (value_error "unparseable dollar amount")
    else let bare =
        remove_char b',' (strip (strip_left (λ n. n == b'$') (strip_left (λ n. n == b'-') s))) in
      let (whole, frac) = split_point bare in
      read_int whole >>= λ dollars.
      let value = dollars * 100 + int_of (two_places frac) in
      ok (if starts_with_minus s then sub_ℕ 0 value else pos value)
