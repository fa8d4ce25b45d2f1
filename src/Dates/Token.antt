-- ===== src/Dates/Token.antt =====
-- `_parse_date_token` of balancecheck/checks/checks.py.
use Prim.Native.Char.{Char, code}
use mathlib.Core.List.{foldl}
use max_ed.Base.{
  ℕ, ◌+◌, ◌-◌, ◌*◌, String, not, List, [], ◌∷◌, map, ◌==◌, if◌then◌else◌, is_some, value_error,
  Result, raise,
}
use max_ed.Contracts.{Date}
use max_ed.Amounts.{strip_token}
use max_ed.Dates.{make_date}
use max_ed.Regex.{
  Regex, chr, ilit, opt, rep, match_at, start_of, full_match, chars, digit_class, space_class, plus,
  one_of, all_of, is_digit,
}
use max_ed.Regex.Strip.{split_words}

-- `_MONTHS`, the longer names first, as the alternation lists them.
abbrev pub months : List (String × ℕ)
months =
    ("september", 9)
    ∷ ("february", 2)
    ∷ ("november", 11)
    ∷ ("december", 12)
    ∷ ("january", 1)
    ∷ ("october", 10)
    ∷ ("august", 8)
    ∷ ("march", 3)
    ∷ ("april", 4)
    ∷ ("june", 6)
    ∷ ("july", 7)
    ∷ ("sept", 9)
    ∷ ("may", 5)
    ∷ ("jan", 1)
    ∷ ("feb", 2)
    ∷ ("mar", 3)
    ∷ ("apr", 4)
    ∷ ("jun", 6)
    ∷ ("jul", 7)
    ∷ ("aug", 8)
    ∷ ("sep", 9)
    ∷ ("oct", 10)
    ∷ ("nov", 11)
    ∷ ("dec", 12)
    ∷ []

abbrev literal_char : ℕ → Regex
literal_char n = chr (λ m. m == n)

abbrev digits : ℕ → Regex
digits n = rep n 0 digit_class

abbrev one_or_two : Regex
one_or_two = rep 1 1 digit_class

unfoldable pub iso_date_re : Regex
iso_date_re = all_of (digits 4 ∷ literal_char b'-' ∷ digits 2 ∷ literal_char b'-' ∷ digits 2 ∷ [])

unfoldable pub slash_date_re : Regex
slash_date_re =
    all_of (one_or_two ∷ literal_char b'/' ∷ one_or_two ∷ literal_char b'/' ∷ digits 4 ∷ [])

unfoldable pub month_re : Regex
unfolding chars
month_re = one_of (map (λ (name, n). ilit (chars name)) months)

unfoldable pub month_date_re : Regex
unfolding month_re chars
month_date_re = all_of (
    month_re
    ∷ opt (literal_char b'.')
    ∷ plus space_class
    ∷ one_or_two
    ∷ opt (one_of (map (λ s. ilit (chars s)) ("st" ∷ "nd" ∷ "rd" ∷ "th" ∷ [])))
    ∷ opt (literal_char b',')
    ∷ plus space_class
    ∷ digits 4
    ∷ [])

-- The numbers that the digits of the text spell: the groups of the patterns.
unfoldable pub numbers : List Char → List ℕ
unfolding split_words
numbers cs =
    map (foldl (λ n d. n * 10 + (d - b'0')) 0)
      (split_words (λ n. not (is_digit n)) (map (λ c. code c) cs))

-- `_MONTHS[m.group(1).lower()]`: the first name of the list with which the text begins.
unfoldable pub month_number : List (String × ℕ) → List Char → ℕ
unfolding chars match_at
month_number [] cs = 0
month_number ((name, n) ∷ ms) cs =
    if is_some (match_at (ilit (chars name)) (start_of cs)) then n else month_number ms cs

unfoldable pub parse_date_token : String → Result Date
unfolding iso_date_re slash_date_re month_date_re numbers month_number full_match chars
parse_date_token token =
    let s = strip_token (chars token) in
    if full_match iso_date_re s
    then elim (numbers s) [
      | y ∷ m ∷ d ∷ _ ↦ make_date y m d
      | _ ↦ raise (value_error "unparseable date token")
    ]
    else if full_match month_date_re s
    then elim (numbers s) [
      | d ∷ y ∷ _ ↦ make_date y (month_number months s) d
      | _ ↦ raise (value_error "unparseable date token")
    ]
    else if full_match slash_date_re s
    then elim (numbers s) [
      | m ∷ d ∷ y ∷ _ ↦ make_date y m d
      | _ ↦ raise (value_error "unparseable date token")
    ]
    else raise (value_error "unparseable date token")
