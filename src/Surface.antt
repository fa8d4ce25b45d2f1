-- ===== src/Surface.antt =====
-- Claim extraction, balancecheck/drafting/surface.py: what the detector finds in a sentence, the
-- sentences of a draft, and the canonical identifiers of documents. A text is taken apart as its
-- characters; positions count them.
pub mod Patterns
pub mod Phrases
pub mod Spans
pub mod Detect
pub mod Extract
pub mod Keys
pub mod Covers
pub mod Candidates
pub mod Settled
pub mod Recall
pub mod Numbering
pub mod Intervals
pub mod Coverage
pub mod Amounts
mod Tests
use Prim.Native.Char.{Char, code}
use Prim.Native.String.{compare}
use text.Mathlib.Text.{is_lt}
use max_ed.Base.{
  ℕ, ◌+◌, ◌-◌, String, Bool, true, false, not, ◌&&◌, ◌||◌, Option, none, List, [], ◌∷◌, ◌++◌, map,
  str_eq, ltb, leb, ◌==◌, if◌then◌else◌, is_some, length, take, any, filter, is_empty, concat,
  contains, sort_by, drop,
}
use max_ed.Contracts.{Ledger, ClaimType, CheckResult, Claim, end}
use max_ed.Derive.{document_ids}
use max_ed.Regex.{match_at, start_of, chars, of_chars, is_digit, lower_code}
use max_ed.Regex.Find.{Match, find_iter, split}
use max_ed.Regex.Strip.{strip, strip_left, lower, same_word, upper}
use max_ed.Amounts.{word}
use Patterns.{sentence_split_re, explicit_id_re, loose_id_re}

-- `_Candidate`: `claim_type` is its `type`.
pub record Candidate : Type 0 where
  pub sent_idx : ℕ
  pub pos : ℕ
  pub rank : ℕ
  pub claim_type : ClaimType
  pub span : String
  pub token : String
  pub subject_id : String
  pub subject_ids : List String
  pub role : String
  pub check_result : Option CheckResult
  pub canonical_id : String

abbrev pub rank_exist : ℕ
rank_exist = 0

abbrev pub rank_amount : ℕ
rank_amount = 1

abbrev pub rank_date : ℕ
rank_date = 2

abbrev pub rank_status : ℕ
rank_status = 3

abbrev pub rank_fuzzy : ℕ
rank_fuzzy = 4

-- `split_sentences`
unfoldable pub split_sentences : List Char → List (List Char)
unfolding sentence_split_re split strip
split_sentences draft = filter (λ p. not (is_empty p)) (map strip (split sentence_split_re draft))

-- `_IntervalSet`: the intervals taken, and a claim to one more, which succeeds where it is free.
abbrev pub Interval : Type 0
Interval = ℕ × ℕ

abbrev pub overlaps : ℕ → ℕ → Interval → Bool
overlaps start stop (s, e) = ltb start e && ltb s stop

unfoldable pub claim_interval : List Interval → ℕ → ℕ → List Interval × Bool
claim_interval taken start stop =
    if any (overlaps start stop) taken
    then (taken, false)
    else (taken ++ ((start, stop) ∷ []), true)

-- `d[len(prefix) + 1 :].lstrip("0")`, and the same of a reference's digits.
abbrev strip_zeros : List Char → List Char
unfolding strip_left
strip_zeros = strip_left (λ n. n == b'0')

-- A document of the prefix whose number is that of the digits, zeros in front aside.
abbrev pub same_number : String → List Char → String → Bool
unfolding chars strip_left of_chars
same_number prefix digits d =
    let front = chars (concat (prefix ∷ "-" ∷ [])) in
    let n = length front in
    str_eq (of_chars (take n (chars d))) (of_chars front)
    && str_eq (of_chars (strip_zeros (drop n (chars d)))) (of_chars (strip_zeros digits))

-- `_canonical_prefix_id`
unfoldable pub canonical_prefix_id : String → List Char → Ledger → String
unfolding document_ids chars of_chars strip_left
canonical_prefix_id prefix digits l =
    let naive = concat (prefix ∷ "-" ∷ of_chars digits ∷ []) in
    if contains naive (document_ids l)
    then naive
    else elim (filter (same_number prefix digits) (document_ids l)) [ d ∷ [] ↦ d | _ ↦ naive ]

-- `_LOOSE_PREFIX` at the group of the kind: it is the alternative of the pattern that matched.
unfoldable pub loose_prefix : List Char → String
unfolding match_at chars
loose_prefix kind =
    if is_some (match_at (word "invoice") (start_of kind))
    then "INV"
    else if is_some (match_at (word "payment") (start_of kind))
    then "PMT"
    else "CM"

-- `_canonical_loose_id`
unfoldable pub canonical_loose_id : List Char → List Char → Ledger → String
unfolding loose_prefix canonical_prefix_id
canonical_loose_id kind digits l = canonical_prefix_id (loose_prefix kind) digits l

-- The groups of a reference's match: the letters in front, and its digits, which stand at its end.
unfoldable pub letters_of : List Char → List Char
letters_of [] = []
letters_of (c ∷ cs) =
    let rest = letters_of cs in
    if leb b'a' (lower_code (code c)) && leb (lower_code (code c)) b'z' then c ∷ rest else []

abbrev pub digits_of : List Char → List Char
digits_of = filter (λ c. is_digit (code c))

-- A mention: where a document is named, and its canonical identifier.
abbrev pub Mention : Type 0
Mention = ℕ × String

-- The identifier that the text of a match of `explicit_id_re` or of `loose_id_re` names.
unfoldable pub explicit_doc_id : List Char → Ledger → String
unfolding canonical_prefix_id letters_of upper of_chars
explicit_doc_id group l =
    canonical_prefix_id (of_chars (upper (letters_of group))) (digits_of group) l

unfoldable pub loose_doc_id : List Char → Ledger → String
unfolding canonical_loose_id
loose_doc_id group l = canonical_loose_id group (digits_of group) l

abbrev pub mention_before : Mention → Mention → Bool
mention_before (p, c) (q, d) = ltb p q || (p == q && is_lt (compare c d))

-- `id_mentions`, sorted: it is `id_positions` too.
unfoldable pub id_mentions : List Char → Ledger → List Mention
unfolding explicit_doc_id loose_doc_id find_iter explicit_id_re loose_id_re
id_mentions sentence l = sort_by mention_before (
    map (λ (m : Match). (m.start, explicit_doc_id m.group l)) (find_iter explicit_id_re sentence)
    ++ map (λ (m : Match). (m.start, loose_doc_id m.group l)) (find_iter loose_id_re sentence))

-- `preceding_doc`, `following_doc` and `nearest_doc`: the empty text where there is none.
abbrev pub last_id : String → List Mention → String
last_id d [] = d
last_id d ((p, c) ∷ ms) = last_id c ms

abbrev pub first_id : List Mention → String
first_id [] = ""
first_id ((p, c) ∷ ms) = c

unfoldable pub preceding_doc : List Mention → ℕ → String
preceding_doc ms pos = last_id "" (filter (λ (p, c). leb p pos) ms)

unfoldable pub following_doc : List Mention → ℕ → String
following_doc ms pos = first_id (filter (λ (p, c). ltb pos p) ms)

unfoldable pub nearest_doc : List Mention → ℕ → String
unfolding following_doc
nearest_doc ms pos =
    let preceding = filter (λ (p, c). leb p pos) ms in
    if is_empty preceding then following_doc ms pos else last_id "" preceding
