-- ===== src/Oracle/Grounding.antt =====
-- The tokens of a draft and their score, `oracle_grounding` of balancecheck/bench/oracle.py.
use Prim.Native.Char.{Char, code}
use max_ed.Base.{
  ℕ, ◌+◌, ◌*◌, String, Bool, not, ◌||◌, List, [], ◌∷◌, ◌++◌, map, ◌==◌, if◌then◌else◌, any, filter,
  is_empty, contains, Result, ok, ◌>>=◌, Dict, get_or,
}
use max_ed.Base.Int.{ℤ, pos, sub_ℕ, eqb_ℤ}
use max_ed.Contracts.{Ledger}
use max_ed.Money.Parse.{cents_part, int_of, read_int, split_point, two_places, starts_with_minus}
use max_ed.Oracle.{truth_sets, document_figures}
use max_ed.Regex.{
  Regex, chr, seq, alt, opt, star, word_boundary, behind, chars, of_chars, digit_class, space_class,
  is_digit, plus, one_of, all_of,
}
use max_ed.Regex.Find.{Match, find_iter, split}
use max_ed.Regex.Strip.{strip, remove_char}
use max_ed.Surface.Patterns.{one, ends_sentence}

unfoldable pub amount_token_re : Regex
amount_token_re = all_of (
    opt (one b'-')
    ∷ one b'$'
    ∷ digit_class
    ∷ star (chr (λ n. is_digit n || n == b','))
    ∷ cents_part
    ∷ [])

abbrev exactly : String → Regex
unfolding chars
exactly s = all_of (map (λ c. one (code c)) (chars s))

unfoldable pub id_token_re : Regex
unfolding chars
id_token_re = all_of (
    word_boundary
    ∷ one_of (exactly "INV" ∷ exactly "PMT" ∷ exactly "CM" ∷ [])
    ∷ one b'-'
    ∷ plus digit_class
    ∷ word_boundary
    ∷ [])

unfoldable pub oracle_split_re : Regex
oracle_split_re = alt (seq (behind ends_sentence) (plus space_class)) (plus (one 10))

-- `_sentences`
unfoldable pub sentences : List Char → List (List Char)
unfolding split oracle_split_re strip
sentences text = filter (λ s. not (is_empty (strip s))) (split oracle_split_re text)

-- `s[1:]` where the text starts with the character.
abbrev pub without_first : ℕ → List Char → List Char
without_first n [] = []
without_first n (c ∷ cs) = if code c == n then cs else c ∷ cs

-- `parse_cents`; `int` raises on too many digits, and nothing here catches it.
unfoldable pub parse_cents : List Char → Result ℤ
unfolding strip split_point starts_with_minus remove_char
parse_cents token =
    let s = strip token in
    let (whole, frac) =
      split_point (remove_char b',' (without_first b'$' (without_first b'-' s))) in
    read_int whole >>= λ dollars.
    let value = dollars * 100 + int_of (two_places frac) in
    ok (if starts_with_minus s then sub_ℕ 0 value else pos value)

abbrev pub holds : ℤ → List ℤ → Bool
holds v = any (eqb_ℤ v)

-- Whether an amount is a figure of the documents that its sentence names, or of the account.
unfoldable pub verifies : Dict (List ℤ) → List ℤ → List String → ℤ → Bool
verifies figures totals (k ∷ []) value = holds value (get_or k [] figures)
verifies figures totals [] value = holds value totals
verifies figures totals ks value =
    holds value totals || any (λ k. holds value (get_or k [] figures)) ks

pub data TokenKind : Type 0 where
  amount_token id_token : TokenKind

pub record OracleScore : Type 0 where
  pub verified : ℕ
  pub total : ℕ
  pub unmatched : List (String × TokenKind)

abbrev pub no_score : OracleScore
no_score = record { verified = 0; total = 0; unmatched = [] }

abbrev pub count_token : Bool → String → TokenKind → OracleScore → OracleScore
count_token good token kind s = record {
  verified = if good then s.verified + 1 else s.verified;
  total = s.total + 1;
  unmatched = if good then s.unmatched else s.unmatched ++ ((token, kind) ∷ []);
}

unfoldable pub score_amounts : (ℤ → Bool) → List Match → OracleScore → Result OracleScore
unfolding parse_cents of_chars
score_amounts test [] s = ok s
score_amounts test (m ∷ ms) s = parse_cents m.group >>= λ value.
    score_amounts test ms (count_token (test value) (of_chars m.group) amount_token s)

unfoldable pub score_ids : List String → List Match → OracleScore → OracleScore
unfolding of_chars
score_ids ids [] s = s
score_ids ids (m ∷ ms) s =
    score_ids ids ms (count_token (contains (of_chars m.group) ids) (of_chars m.group) id_token s)

unfoldable pub score_sentences :
    Dict (List ℤ) → List ℤ → List String → List (List Char) → OracleScore → Result OracleScore
unfolding find_iter id_token_re amount_token_re of_chars verifies score_amounts
score_sentences figures totals ids [] s = ok s
score_sentences figures totals ids (t ∷ ts) s =
    let named =
      filter (λ k. contains k ids) (map (λ m. of_chars m.group) (find_iter id_token_re t)) in
    score_amounts (verifies figures totals named) (find_iter amount_token_re t) s >>= λ told.
    score_sentences figures totals ids ts told

unfoldable pub oracle_grounding : String → Ledger → Result OracleScore
unfolding truth_sets document_figures sentences score_sentences score_ids find_iter id_token_re
    chars
oracle_grounding draft l = do
  let ids = (truth_sets l).1
  (figures, totals) ← document_figures l
  told ← score_sentences figures totals ids (sentences (chars draft)) no_score
  ok (score_ids ids (find_iter id_token_re (chars draft)) told)
