-- ===== src/Amounts.antt =====
-- `parse_amount_token` and `_words_to_dollars` of balancecheck/drafting/surface.py.
pub mod Words
mod Tests
use Prim.Native.Char.{Char, code}
use max_ed.Base.Int.{ℤ, pos}
use max_ed.Base.{
  ℕ, ◌*◌, String, Bool, ◌||◌, List, [], ◌∷◌, ◌==◌, if◌then◌else◌, is_empty, value_error, Result, ok,
  raise, ◌>>=◌,
}
use max_ed.Money.Parse.{cents_part, parse_dollars}
use max_ed.Regex.{
  Regex, chr, ilit, seq, alt, opt, star, word_boundary, full_match, search_in, sub_space, chars,
  space_class, plus, one_of, all_of, is_digit, is_space,
}
use max_ed.Regex.Strip.{strip, strip_by, lower, split_words}
use Words.{words_to_dollars}

abbrev pub is_punctuation : ℕ → Bool
is_punctuation n = n == b'.' || n == b',' || n == b';' || n == b':'

-- A word of its own, whatever its case.
abbrev pub whole_word : Regex → Regex
whole_word r = all_of (word_boundary ∷ r ∷ word_boundary ∷ [])

abbrev pub word : String → Regex
unfolding chars
word s = ilit (chars s)

abbrev pub spaced : List String → Regex
unfolding chars
spaced [] = ilit []
spaced (s ∷ []) = ilit (chars s)
spaced (s ∷ t ∷ ss) = seq (ilit (chars s)) (seq (plus space_class) (spaced (t ∷ ss)))

-- `_PERCENT_WORD_RE` and `_FRACTION_WORD_RE`: the source applies them to the text in lower case.
unfoldable pub percent_word_re : Regex
unfolding chars
percent_word_re = alt (chr (λ n. n == b'%')) (whole_word (word "percent"))

unfoldable pub fraction_word_re : Regex
unfolding chars
fraction_word_re = whole_word (
    one_of (
      word "half"
      ∷ word "halves"
      ∷ word "third"
      ∷ word "thirds"
      ∷ word "quarter"
      ∷ word "quarters"
      ∷ []))

-- `_CURRENCY_MARKER_RE`
unfoldable pub currency_marker_re : Regex
unfolding chars
currency_marker_re = whole_word (alt (word "usd") (seq (word "dollar") (opt (word "s"))))

-- `_DIGIT_AMOUNT_FULL_RE`
unfoldable pub digit_amount_full_re : Regex
digit_amount_full_re = all_of (
    opt (chr (λ n. n == b'-'))
    ∷ opt (chr (λ n. n == b'$'))
    ∷ star space_class
    ∷ plus (chr (λ n. is_digit n || n == b','))
    ∷ cents_part
    ∷ [])

abbrev pub strip_token : List Char → List Char
strip_token token = strip (strip_by is_punctuation (strip token))

unfoldable pub parse_amount_token : String → Result ℤ
unfolding percent_word_re fraction_word_re currency_marker_re digit_amount_full_re chars
parse_amount_token token =
    let s = strip_token (chars token) in
    if search_in percent_word_re s
    then raise (value_error "percentage token cannot resolve to cents")
    else if search_in fraction_word_re s
    then raise (value_error "fraction token cannot resolve to cents")
    else let cleaned = strip (strip_by (λ n. n == b',') (strip (sub_space currency_marker_re s))) in
      if is_empty cleaned
      then raise (value_error "empty amount token")
      else if full_match digit_amount_full_re cleaned
      then parse_dollars cleaned
      else (words_to_dollars (lower cleaned) >>= λ dollars. ok (pos (dollars * 100)))
