-- ===== src/Surface/Spans.antt =====
-- The amount and date spans of a sentence, and what an amount refers to: the first part of
-- `_detect_in_sentence` of balancecheck/drafting/surface.py.
use Prim.Native.Char.{Char}
use max_ed.Base.{
  ℕ, ◌+◌, ◌-◌, String, Bool, true, false, not, ◌&&◌, ◌||◌, Option, none, some, List, [], ◌∷◌, ◌++◌,
  map, str_eq, ltb, leb, if◌then◌else◌, length, take, filter, is_blank, sort_by,
}
use max_ed.Contracts.{
  ClaimType, c_amt, c_sum, role_open, role_original, role_applied, role_total, role_unknown,
}
use max_ed.Regex.{Regex, chars, of_chars, search_in}
use max_ed.Regex.Find.{Match, find_iter}
use max_ed.Regex.Strip.{slice, upper}
use max_ed.Surface.{Interval, claim_interval, Mention, preceding_doc, following_doc}
use max_ed.Surface.Patterns.{
  currency_dollar_re, currency_prefix_re, currency_suffix_re, word_amount_re, percent_re,
  fraction_re, bare_grouped_re, bare_decimal_re, date_patterns,
}
use max_ed.Surface.Phrases.{
  sum_context_re, total_marker_re, subtotal_cue_re, balance_object_re, role_original_re,
  role_applied_re, role_open_re,
}

pub data Kind : Type 0 where
  resolvable unverifiable_kind : Kind

-- A span of the sentence, with its text.
pub record Span : Type 0 where
  pub start : ℕ
  pub stop : ℕ
  pub token : String
  pub kind : Kind

-- One match of a pattern: it is a span if its interval is free.
unfoldable pub claim_match : Kind → Match → List Interval × List Span → List Interval × List Span
unfolding claim_interval of_chars
claim_match kind m (taken, spans) =
    let (after, free) = claim_interval taken m.start m.stop in
    if free
    then (
      after,
      spans
          ++ (record { start = m.start; stop = m.stop; token = of_chars m.group; kind = kind }
              ∷ []),
    )
    else (after, spans)

unfoldable pub claim_matches :
    Kind → List Match → List Interval × List Span → List Interval × List Span
unfolding claim_match
claim_matches kind [] state = state
claim_matches kind (m ∷ ms) state = claim_matches kind ms (claim_match kind m state)

unfoldable pub claim_patterns :
    List Char → List (Regex × Kind) → List Interval × List Span → List Interval × List Span
unfolding claim_matches find_iter
claim_patterns sentence [] state = state
claim_patterns sentence ((r, kind) ∷ rs) state =
    claim_patterns sentence rs (claim_matches kind (find_iter r sentence) state)

-- The patterns of amounts, in the order of their priority.
unfoldable pub amount_patterns : List (Regex × Kind)
unfolding currency_dollar_re currency_prefix_re currency_suffix_re word_amount_re percent_re
    fraction_re bare_grouped_re bare_decimal_re
amount_patterns =
    (currency_dollar_re, resolvable)
    ∷ (currency_prefix_re, resolvable)
    ∷ (currency_suffix_re, resolvable)
    ∷ (word_amount_re, resolvable)
    ∷ (percent_re, unverifiable_kind)
    ∷ (fraction_re, unverifiable_kind)
    ∷ (bare_grouped_re, resolvable)
    ∷ (bare_decimal_re, resolvable)
    ∷ []

-- Spans that have been claimed do not start at one place, so the order of the starts is that of the
-- tuples.
abbrev pub starts_before : Span → Span → Bool
starts_before s t = ltb s.start t.start

-- The intervals and the spans of the amounts, before they are sorted.
unfoldable pub claim_amounts : List Char → List Interval × List Span
unfolding claim_patterns amount_patterns
claim_amounts sentence = claim_patterns sentence amount_patterns ([], [])

-- The dates claim their intervals after the amounts.
unfoldable pub claim_dates : List Char → List Interval × List Span
unfolding claim_patterns date_patterns claim_amounts
claim_dates sentence =
    claim_patterns sentence (map (λ r. (r, resolvable)) date_patterns)
      ((claim_amounts sentence).0, [])

-- `amount_spans` and `date_spans`
unfoldable pub amount_spans : List Char → List Span
unfolding claim_amounts
amount_spans sentence = sort_by starts_before (claim_amounts sentence).1

unfoldable pub date_spans : List Char → List Span
unfolding claim_dates
date_spans sentence = sort_by starts_before (claim_dates sentence).1

abbrev pub max_of : ℕ → List ℕ → ℕ
max_of least [] = least
max_of least (n ∷ ns) = let m = max_of least ns in if ltb m n then n else m

abbrev pub min_of : ℕ → List ℕ → ℕ
min_of most [] = most
min_of most (n ∷ ns) = let m = min_of most ns in if ltb n m then n else m

abbrev distance : ℕ → ℕ → ℕ
distance a b = if leb a b then b - a else a - b

abbrev smaller : ℕ → ℕ → ℕ
smaller a b = if leb a b then a else b

abbrev nearer : Option ℕ → ℕ → Option ℕ
nearer none d = some d
nearer (some best) d = some (smaller best d)

-- `role_distance`: from the amount at `start` to `stop` to the nearest phrase of the window.
distance_to : ℕ → ℕ → ℕ → Match → ℕ
distance_to lo start stop m =
    let ks = m.start + lo in
    let ke = m.stop + lo in
    if ltb ks stop && ltb start ke then 0 else smaller (distance ks stop) (distance start ke)

nearest_of : ℕ → ℕ → ℕ → Option ℕ → List Match → Option ℕ
unfolding distance_to
nearest_of lo start stop best [] = best
nearest_of lo start stop best (m ∷ ms) =
    nearest_of lo start stop (nearer best (distance_to lo start stop m)) ms

unfoldable pub role_distance : List Char → Regex → ℕ → ℕ → ℕ → ℕ → Option ℕ
unfolding nearest_of find_iter slice
role_distance sentence r lo hi start stop =
    nearest_of lo start stop none (find_iter r (slice lo hi sentence))

-- `per_doc` without the roles that are not in the window, and the role of the least distance: the
-- first of several.
abbrev with_distance : String → Option ℕ → List (String × ℕ)
with_distance role none = []
with_distance role (some d) = (role, d) ∷ []

abbrev nearest_role : String × ℕ → List (String × ℕ) → String × ℕ
nearest_role best [] = best
nearest_role (role, d) ((other_role, e) ∷ rs) =
    nearest_role (if ltb e d then (other_role, e) else (role, d)) rs

-- `total_near is not None and (per_min is None or total_near <= per_min)`
abbrev names_total : Option ℕ → Option ℕ → Bool
names_total none per_min = false
names_total (some t) none = true
names_total (some t) (some d) = leb t d

-- What an amount refers to: the type of its claim, its documents and its role.
pub record Referent : Type 0 where
  pub claim_type : ClaimType
  pub subject_ids : List String
  pub role : String

-- What the window of an amount shows: the values that the last part of `classify_amount` tests.
pub record Signs : Type 0 where
  pub explicit_total : Bool
  pub sum_context : Bool
  pub before : String
  pub after : String
  pub subtotal_ids : List String
  pub role : String

-- The last part of `classify_amount`.
unfoldable pub choose_referent : Signs → Referent
choose_referent s =
    if not (is_blank s.before) && not s.explicit_total
    then record { claim_type = c_amt; subject_ids = s.before ∷ []; role = s.role }
    else if s.sum_context
    then record { claim_type = c_sum; subject_ids = s.subtotal_ids; role = role_total }
    else if not (is_blank s.after)
    then record { claim_type = c_amt; subject_ids = s.after ∷ []; role = s.role }
    else record { claim_type = c_amt; subject_ids = []; role = role_unknown }

-- `invoice_ids`, and the documents of a subtotal.
unfoldable pub mentioned_invoices : List Mention → List String
unfolding upper chars of_chars
mentioned_invoices ms =
    filter (λ d. str_eq (of_chars (take 4 (upper (chars d)))) "INV-") (map (λ (p, d). d) ms)

unfoldable pub subtotal_ids : List Char → List Mention → List String
unfolding mentioned_invoices search_in subtotal_cue_re
subtotal_ids sentence ms =
    let ids = mentioned_invoices ms in
    if leb 2 (length ids) && search_in subtotal_cue_re sentence then ids else []

-- The first part of `classify_amount`.
unfoldable pub read_signs : List Char → List Mention → List Span → ℕ → ℕ → Signs
unfolding role_distance subtotal_ids preceding_doc following_doc search_in slice total_marker_re
    role_original_re role_applied_re role_open_re sum_context_re balance_object_re
read_signs sentence ms spans start stop =
    let prev_end =
      max_of 0 (map (λ (s : Span). s.stop) (filter (λ (s : Span). leb s.stop start) spans)) in
    let next_start =
      min_of (length sentence)
        (map (λ (s : Span). s.start) (filter (λ (s : Span). leb stop s.start) spans)) in
    let lo = max_of prev_end ((start - 32) ∷ []) in
    let hi = min_of next_start ((stop + 24) ∷ []) in
    let window = slice lo hi sentence in
    let total_near = role_distance sentence total_marker_re lo hi start stop in
    let per_doc =
      with_distance role_original (role_distance sentence role_original_re lo hi start stop)
      ++ (with_distance role_applied (role_distance sentence role_applied_re lo hi start stop)
          ++ with_distance role_open (role_distance sentence role_open_re lo hi start stop)) in
    let best : Option (String × ℕ) = elim per_doc [
      | [] ↦ none
      | r ∷ rs ↦ some (nearest_role r rs)
    ] in
    let explicit_total =
      names_total total_near (elim best [ none ↦ none | some (r, d) ↦ some d ]) in
    record {
      explicit_total = explicit_total;
      sum_context =
          explicit_total || (search_in sum_context_re window || search_in balance_object_re window);
      before = preceding_doc ms start;
      after = following_doc ms start;
      subtotal_ids = subtotal_ids sentence ms;
      role = elim best [ none ↦ role_unknown | some (r, d) ↦ r ];
    }

unfoldable pub classify_amount : List Char → List Mention → List Span → ℕ → ℕ → Referent
unfolding choose_referent read_signs
classify_amount sentence ms spans start stop =
    choose_referent (read_signs sentence ms spans start stop)
