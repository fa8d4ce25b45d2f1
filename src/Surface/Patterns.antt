-- ===== src/Surface/Patterns.antt =====
-- The patterns of the broad detector of balancecheck/drafting/surface.py for sentences, amounts,
-- document identifiers and dates.
use Prim.Native.Char.{Char, code}
use max_ed.Base.{ℕ, String, Bool, false, not, ◌&&◌, ◌||◌, List, [], ◌∷◌, map, ◌==◌}
use max_ed.Amounts.{whole_word, word, spaced}
use max_ed.Dates.Token.{iso_date_re, slash_date_re, month_date_re}
use max_ed.Money.Parse.{cents_part}
use max_ed.Regex.{
  Regex, chr, seq, alt, opt, star, rep, word_boundary, behind, chars, digit_class, space_class,
  plus, one_of, all_of, is_space,
}

abbrev pub one : ℕ → Regex
one n = chr (λ m. m == n)

-- One of the words, and the words each followed by blanks, all as often as not.
abbrev pub words : List String → Regex
unfolding chars
words ss = one_of (map word ss)

abbrev pub determiner : List String → Regex
unfolding chars
determiner ss = opt (seq (words ss) (plus space_class))

-- The lookbehinds of `_SENTENCE_SPLIT_RE`: behind a sentence's end that is not that of "No.".
abbrev pub ends_sentence : List Char → Bool
ends_sentence [] = false
ends_sentence (c ∷ cs) = code c == b'.' || code c == b'!' || code c == b'?'

abbrev ends_number : List Char → Bool
ends_number (c ∷ d ∷ e ∷ cs) =
    code c == b'.' && code d == b'o' && (code e == b'N' || code e == b'n')
ends_number cs = false

unfoldable pub sentence_split_re : Regex
sentence_split_re =
    alt
      (all_of (behind ends_sentence ∷ behind (λ cs. not (ends_number cs)) ∷ plus space_class ∷ []))
      (plus (one 10))

-- `\d+(?:,\d{3})*(?:\.\d{1,2})?`
abbrev figure : Regex
figure = all_of (plus digit_class ∷ star (seq (one b',') (rep 3 0 digit_class)) ∷ cents_part ∷ [])

abbrev minus : Regex
minus = opt (one b'-')

unfoldable pub currency_dollar_re : Regex
currency_dollar_re = all_of (minus ∷ one b'$' ∷ opt space_class ∷ figure ∷ [])

unfoldable pub currency_suffix_re : Regex
unfolding chars
currency_suffix_re = all_of (
    minus
    ∷ word_boundary
    ∷ figure
    ∷ star space_class
    ∷ alt (seq (word "dollar") (opt (word "s"))) (word "usd")
    ∷ word_boundary
    ∷ [])

unfoldable pub currency_prefix_re : Regex
unfolding chars
currency_prefix_re =
    all_of (word_boundary ∷ word "usd" ∷ star space_class ∷ minus ∷ figure ∷ word_boundary ∷ [])

-- `_NUMBER_WORDS`, the longer words first.
abbrev pub number_words : List String
number_words =
    "seventeen" ∷ "thirteen" ∷ "fourteen" ∷ "eighteen" ∷ "nineteen" ∷ "thousand" ∷ "fifteen"
    ∷ "sixteen" ∷ "seventy" ∷ "hundred" ∷ "eleven" ∷ "twelve" ∷ "twenty" ∷ "thirty" ∷ "eighty"
    ∷ "ninety" ∷ "three" ∷ "seven" ∷ "eight" ∷ "forty" ∷ "fifty" ∷ "sixty" ∷ "four" ∷ "five"
    ∷ "nine" ∷ "one" ∷ "two" ∷ "six" ∷ "ten" ∷ []

abbrev word_gap : Regex
word_gap = plus (chr (λ n. is_space n || n == b'-'))

unfoldable pub word_amount_re : Regex
unfolding chars
word_amount_re =
    let number = words number_words in
    all_of (
      word_boundary
      ∷ number
      ∷ star (all_of (word_gap ∷ opt (seq (word "and") word_gap) ∷ number ∷ []))
      ∷ plus space_class
      ∷ word "dollars"
      ∷ word_boundary
      ∷ [])

unfoldable pub percent_re : Regex
unfolding chars
percent_re = all_of (
    word_boundary
    ∷ plus digit_class
    ∷ opt (seq (one b'.') (plus digit_class))
    ∷ opt space_class
    ∷ alt (one b'%') (seq (word "percent") word_boundary)
    ∷ [])

abbrev id_prefix : Regex
unfolding chars
id_prefix = words ("inv" ∷ "pmt" ∷ "cm" ∷ [])

unfoldable pub fraction_re : Regex
unfolding chars
fraction_re = all_of (
    word_boundary
    ∷ determiner ("a" ∷ "one" ∷ "two" ∷ "three" ∷ [])
    ∷ words ("half" ∷ "third" ∷ "quarter" ∷ [])
    ∷ opt (word "s")
    ∷ plus space_class
    ∷ word "of"
    ∷ plus space_class
    ∷ determiner ("the" ∷ "this" ∷ "that" ∷ "your" ∷ [])
    ∷ alt (words ("invoice" ∷ "balance" ∷ "total" ∷ "amount" ∷ []))
        (all_of (id_prefix ∷ one b'-' ∷ plus digit_class ∷ []))
    ∷ [])

unfoldable pub bare_grouped_re : Regex
bare_grouped_re = all_of (
    minus
    ∷ word_boundary
    ∷ rep 1 2 digit_class
    ∷ plus (seq (one b',') (rep 3 0 digit_class))
    ∷ cents_part
    ∷ word_boundary
    ∷ [])

unfoldable pub bare_decimal_re : Regex
bare_decimal_re =
    all_of (
      minus
      ∷ word_boundary
      ∷ plus digit_class
      ∷ one b'.'
      ∷ rep 2 0 digit_class
      ∷ word_boundary
      ∷ [])

-- `(INV|PMT|CM)[-_ ]?(\d+)`, and the same as a word.
unfoldable pub explicit_arg_re : Regex
unfolding chars
explicit_arg_re =
    all_of (id_prefix ∷ opt (chr (λ n. n == b'-' || n == b'_' || n == 32)) ∷ plus digit_class ∷ [])

unfoldable pub explicit_id_re : Regex
unfolding explicit_arg_re
explicit_id_re = whole_word explicit_arg_re

-- The group of the kind: `(invoice|payment|credit\s+memo)`.
unfoldable pub loose_kind_re : Regex
unfolding chars
loose_kind_re = one_of (word "invoice" ∷ word "payment" ∷ spaced ("credit" ∷ "memo" ∷ []) ∷ [])

unfoldable pub loose_arg_re : Regex
unfolding chars loose_kind_re
loose_arg_re = all_of (
    loose_kind_re
    ∷ plus space_class
    ∷ opt (
        alt (all_of (word "no" ∷ opt (one b'.') ∷ star space_class ∷ []))
          (seq (word "number") (star space_class)))
    ∷ opt (one b'#')
    ∷ star space_class
    ∷ plus digit_class
    ∷ [])

unfoldable pub loose_id_re : Regex
unfolding loose_arg_re
loose_id_re = whole_word loose_arg_re

-- `_ISO_DATE_RE`, `_MONTH_DATE_RE` and `_SLASH_DATE_RE`, in the order of the detector.
unfoldable pub date_patterns : List Regex
unfolding iso_date_re month_date_re slash_date_re
date_patterns = whole_word iso_date_re ∷ whole_word month_date_re ∷ whole_word slash_date_re ∷ []
