-- ===== src/Surface/Extract.antt =====
-- `extract_claims` of balancecheck/drafting/surface.py.
use Prim.Native.Char.{Char}
use Prim.Native.String.{◌++◌ as append_text}
use max_ed.Base.{
  ℕ, ◌+◌, String, Bool, true, false, not, ◌&&◌, ◌||◌, List, [], ◌∷◌, ◌++◌, str_eq, ltb, ◌==◌,
  if◌then◌else◌, is_empty, contains_by, concat, is_blank, contains, sort_by,
}
use max_ed.Contracts.{Ledger, ClaimType, c_exist, c_amt, c_sum, c_status, c_date, c_fuzzy, Claim}
use max_ed.Money.{decimal}
use max_ed.Regex.{chars}
use max_ed.Surface.{Candidate, split_sentences}
use max_ed.Surface.Detect.{detect_in_sentence}

-- The candidates of the sentences from the number `sent_idx` on.
unfoldable pub detect_all : ℕ → List (List Char) → Ledger → List Candidate
unfolding detect_in_sentence
detect_all sent_idx [] l = []
detect_all sent_idx (s ∷ ss) l = detect_in_sentence sent_idx s l ++ detect_all (sent_idx + 1) ss l

-- The order of the key `(sent_idx, pos, rank)`.
abbrev pub reads_before : Candidate → Candidate → Bool
reads_before c d =
    ltb c.sent_idx d.sent_idx
    || (c.sent_idx == d.sent_idx && (ltb c.pos d.pos || (c.pos == d.pos && ltb c.rank d.rank)))

-- `candidates`, sorted
unfoldable pub candidates_of : List Char → Ledger → List Candidate
unfolding detect_all split_sentences
candidates_of draft l = sort_by reads_before (detect_all 0 (split_sentences draft) l)

abbrev pub same_type : ClaimType → ClaimType → Bool
same_type c_exist c_exist = true
same_type c_amt c_amt = true
same_type c_sum c_sum = true
same_type c_status c_status = true
same_type c_date c_date = true
same_type c_fuzzy c_fuzzy = true
same_type _ _ = false

abbrev pub is_c_exist : ClaimType → Bool
is_c_exist c_exist = true
is_c_exist c_amt = false
is_c_exist c_sum = false
is_c_exist c_status = false
is_c_exist c_date = false
is_c_exist c_fuzzy = false

abbrev pub same_texts : List String → List String → Bool
same_texts [] [] = true
same_texts (s ∷ ss) (t ∷ ts) = str_eq s t && same_texts ss ts
same_texts _ _ = false

-- The key of a detection.
pub record Key : Type 0 where
  pub claim_type : ClaimType
  pub span : String
  pub token : String
  pub subject_ids : List String
  pub role : String

abbrev pub same_key : Key → Key → Bool
same_key k j =
    same_type k.claim_type j.claim_type
    && (str_eq k.span j.span
        && (str_eq k.token j.token
            && (same_texts k.subject_ids j.subject_ids && str_eq k.role j.role)))

-- `subject_ids` and `subject_id` of a candidate's claim.
unfoldable pub subjects_of : Candidate → List String
subjects_of c =
    if not (is_empty c.subject_ids)
    then c.subject_ids
    else if is_blank c.subject_id
    then []
    else c.subject_id ∷ []

abbrev pub sole_of : List String → String
sole_of (s ∷ []) = s
sole_of _ = ""

abbrev pub key_of : Candidate → Key
key_of c = record {
  claim_type = c.claim_type;
  span = c.span;
  token = c.token;
  subject_ids = subjects_of c;
  role = c.role;
}

-- `f"{n:03d}"`
unfoldable pub padded : ℕ → String
unfolding decimal
padded n = append_text (if ltb n 10 then "00" else if ltb n 100 then "0" else "") (decimal n)

-- The claim of a candidate, which is the n-th.
unfoldable pub claim_of : String → ℕ → Candidate → Claim
unfolding padded concat subjects_of
claim_of prefix n c = record {
  claim_id = concat (prefix ∷ "-" ∷ padded n ∷ []);
  claim_type = c.claim_type;
  span = c.span;
  token = c.token;
  check_result = c.check_result;
  subject_ids = subjects_of c;
  role = c.role;
  subject_id = sole_of (subjects_of c);
}

-- What the loop over the candidates remembers: `seen_keys`, `seen_exist_ids` and `n`.
pub record Seen : Type 0 where
  pub keys : List Key
  pub exist_ids : List String
  pub n : ℕ

abbrev pub nothing_seen : Seen
nothing_seen = record { keys = []; exist_ids = []; n = 0 }

-- A document that has its claim already.
abbrev pub is_repeated_doc : Seen → Candidate → Bool
is_repeated_doc s c = is_c_exist c.claim_type && contains c.canonical_id s.exist_ids

-- The documents seen, with that of the candidate.
abbrev pub note_doc : Seen → Candidate → Seen
note_doc s c =
    if is_c_exist c.claim_type then record s { exist_ids = c.canonical_id ∷ s.exist_ids } else s

abbrev pub note_key : Seen → Candidate → Seen
unfolding subjects_of
note_key s c = record s { keys = key_of c ∷ s.keys; n = s.n + 1 }

-- The loop.
unfoldable pub claims_from : String → Seen → List Candidate → List Claim
unfolding claim_of subjects_of
claims_from prefix s [] = []
claims_from prefix s (c ∷ cs) =
    let repeated = claims_from prefix s cs in
    let noted = note_doc s c in
    let duplicate = claims_from prefix noted cs in
    let fresh = claims_from prefix (note_key noted c) cs in
    if is_repeated_doc s c
    then repeated
    else if contains_by same_key (key_of c) s.keys
    then duplicate
    else claim_of prefix (s.n + 1) c ∷ fresh

unfoldable pub extract_claims : String → String → Ledger → List Claim
unfolding candidates_of claims_from chars
extract_claims prefix draft l = claims_from prefix nothing_seen (candidates_of (chars draft) l)
