-- ===== src/Surface/Detect.antt =====
-- `_detect_in_sentence` of balancecheck/drafting/surface.py: the candidates of a sentence.
use Prim.Native.Char.{Char}
use max_ed.Base.{
  ℕ, String, Bool, not, ◌&&◌, ◌||◌, Option, none, some, List, [], ◌∷◌, ◌++◌, map, ltb, leb,
  if◌then◌else◌, length, filter, is_empty, concat, is_blank, contains, Result, ok, raise,
}
use max_ed.Base.Int.{ℤ}
use max_ed.Contracts.{
  Ledger, ClaimType, c_exist, c_status, c_date, c_fuzzy, unverifiable, CheckResult,
}
use max_ed.Amounts.{parse_amount_token}
use max_ed.Regex.{chars, of_chars, search_in}
use max_ed.Regex.Find.{Match, find_iter, first_match}
use max_ed.Regex.Strip.{lower, same_word}
use max_ed.Surface.{
  Candidate, rank_exist, rank_amount, rank_date, rank_status, rank_fuzzy, Mention, id_mentions,
  nearest_doc,
}
use max_ed.Surface.Phrases.{status_re, status_paraphrase_re, fuzzy_re, decomposition_re}
use max_ed.Surface.Spans.{
  Kind, resolvable, unverifiable_kind, Span, amount_spans, date_spans, classify_amount, max_of,
}

-- A candidate of the sentence: what the constructor of `_Candidate` leaves out is blank.
unfoldable pub candidate :
    ℕ
    → ℕ
    → ℕ
    → ClaimType
    → List Char
    → String
    → List String
    → String
    → Option CheckResult
    → Candidate
unfolding of_chars
candidate sent_idx pos rank claim_type sentence token subject_ids role check_result = record {
  sent_idx = sent_idx;
  pos = pos;
  rank = rank;
  claim_type = claim_type;
  span = of_chars sentence;
  token = token;
  subject_id = "";
  subject_ids = subject_ids;
  role = role;
  check_result = check_result;
  canonical_id = "";
}

abbrev pub unverifiable_result : String → String → CheckResult
unverifiable_result token detail = record {
  status = unverifiable;
  expected = "";
  actual = token;
  cited_records = [];
  detail = detail;
}

-- The verdict that a candidate for an amount starts with.
abbrev pub verdict_of : String → Result ℤ → Option CheckResult
verdict_of token (ok amount) = none
verdict_of token (raise e) =
    some (unverifiable_result token "detected amount span could not be resolved to cents")

unfoldable pub unresolved : Kind → String → Option CheckResult
unfolding parse_amount_token concat
unresolved unverifiable_kind token = some (
    unverifiable_result token (
      concat (
        "detected " ∷ token ∷ " cannot be resolved to cents against the ledger; escalated, not"
        ∷ " dropped (I11)" ∷ [])))
unresolved resolvable token = verdict_of token (parse_amount_token token)

-- `m.group(0).lower() in ("paid", "unpaid")`
abbrev pub is_payment_word : List Char → Bool
unfolding chars same_word
is_payment_word group =
    same_word (lower group) (lower (chars "paid"))
    || same_word (lower group) (lower (chars "unpaid"))

module _ (sent_idx : ℕ) (sentence : List Char) where
  -- One candidate for each document, at its first mention.
  unfoldable pub exist_candidates : List String → List Mention → List Candidate
  unfolding candidate
  exist_candidates seen [] = []
  exist_candidates seen ((pos, cid) ∷ ms) =
      let old = exist_candidates seen ms in
      let new = exist_candidates (seen ++ (cid ∷ [])) ms in
      if contains cid seen
      then old
      else record (candidate sent_idx pos rank_exist c_exist sentence cid [] "" none) {
        canonical_id = cid;
      }
        ∷ new

  -- The candidate of an amount span.
  unfoldable pub amount_candidate : List Mention → List Span → Span → Candidate
  unfolding classify_amount unresolved candidate
  amount_candidate ms spans s =
      let r = classify_amount sentence ms spans s.start s.stop in
      candidate sent_idx s.start rank_amount r.claim_type sentence s.token r.subject_ids r.role
        (unresolved s.kind s.token)

  -- `date_subjects`
  unfoldable pub date_subjects : List Mention → List Span → List Span → ℕ → List String
  unfolding nearest_doc
  date_subjects ms amounts dates pos =
      let ends : List Span → List ℕ =
        λ spans. map (λ (s : Span). s.stop) (filter (λ (s : Span). leb s.stop pos) spans) in
      let boundary = max_of 0 (ends amounts ++ ends dates) in
      let dates_in_clause = filter (λ (s : Span). leb boundary s.start && leb s.start pos) dates in
      let ids_in_clause = map (λ (p, d). d) (filter (λ (p, d). leb boundary p && ltb p pos) ms) in
      let doc = nearest_doc ms pos in
      if leb (length dates_in_clause) 1 && leb 1 (length ids_in_clause)
      then ids_in_clause
      else if is_blank doc
      then []
      else doc ∷ []

  unfoldable pub date_candidate : List Mention → List Span → List Span → Span → Candidate
  unfolding date_subjects candidate
  date_candidate ms amounts dates s =
      candidate sent_idx s.start rank_date c_date sentence s.token
        (date_subjects ms amounts dates s.start) "" none

  -- `status_hits`
  unfoldable pub status_hits : List (ℕ × String)
  unfolding decomposition_re status_re status_paraphrase_re search_in find_iter of_chars
  status_hits =
      let decomposition = search_in decomposition_re sentence in
      map (λ (m : Match). (m.start, of_chars m.group))
        (filter (λ (m : Match). not (decomposition && is_payment_word m.group))
          (find_iter status_re sentence))
      ++ map (λ (m : Match). (m.start, "paid")) (find_iter status_paraphrase_re sentence)

  unfoldable pub status_candidate : List Mention → ℕ × String → Candidate
  unfolding nearest_doc candidate
  status_candidate ms (pos, token) =
      let doc = nearest_doc ms pos in
      candidate sent_idx pos rank_status c_status sentence token
        (if is_blank doc then [] else doc ∷ []) "" none

  unfoldable pub status_candidates : List Mention → List Candidate
  unfolding status_hits status_candidate
  status_candidates ms = if is_empty ms then [] else map (status_candidate ms) status_hits

  unfoldable pub fuzzy_of : Option Match → List Candidate
  unfolding candidate
  fuzzy_of none = []
  fuzzy_of (some m) = candidate sent_idx m.start rank_fuzzy c_fuzzy sentence "" [] "" none ∷ []

  unfoldable pub fuzzy_candidates : List Candidate
  unfolding first_match fuzzy_re fuzzy_of
  fuzzy_candidates = fuzzy_of (first_match fuzzy_re sentence)

-- `_detect_in_sentence`
unfoldable pub detect_in_sentence : ℕ → List Char → Ledger → List Candidate
unfolding id_mentions amount_spans date_spans exist_candidates amount_candidate date_candidate
    status_candidates fuzzy_candidates
detect_in_sentence sent_idx sentence l =
    let ms = id_mentions sentence l in
    let amounts = amount_spans sentence in
    let dates = date_spans sentence in
    exist_candidates sent_idx sentence [] ms
    ++ (map (amount_candidate sent_idx sentence ms amounts) amounts
        ++ (map (date_candidate sent_idx sentence ms amounts dates) dates
            ++ (status_candidates sent_idx sentence ms ++ fuzzy_candidates sent_idx sentence)))
