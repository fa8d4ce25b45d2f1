-- ===== src/Surface/Settled.antt =====
-- Every amount resolves to cents or is escalated: what the claims of
-- balancecheck/drafting/surface.py start with.
use Prim.Native.Char.{Char}
use max_ed.Base.{
  ℕ, String, ◌≡◌, refl, ◌≢◌, ◌⊎◌, inl, inr, Option, none, some, List, [], ◌∷◌, ◌++◌, arith,
  Bool-cases, All, contains, Result, ok, raise,
}
use max_ed.Contracts.{
  Ledger, ClaimType, c_exist, c_amt, c_sum, c_status, c_date, c_fuzzy, unverifiable, CheckResult,
}
use max_ed.Base.Int.{ℤ}
use max_ed.Amounts.{parse_amount_token}
use max_ed.Regex.Find.{Match, first_match}
use max_ed.Surface.{Candidate, Mention}
use max_ed.Surface.Phrases.{fuzzy_re}
use max_ed.Surface.Spans.{
  Kind, resolvable, unverifiable_kind, Span, Signs, read_signs, choose_referent, classify_amount,
}
use max_ed.Surface.Detect.{
  candidate, verdict_of, exist_candidates, amount_candidate, date_candidate, status_candidate,
  fuzzy_of, fuzzy_candidates, unresolved,
}
use max_ed.Surface.Candidates.{Candidates, exist_candidates-NamesDoc}
use max_ed.Surface.Covers.{NamesDoc}

abbrev pub IsAmountType : ClaimType → Type 0
IsAmountType t = (t ≡ c_amt) ⊎ (t ≡ c_sum)

-- A verdict that escalates a token, and says which.
abbrev pub Escalates : String → Option CheckResult → Type 0
Escalates token r =
    (v : CheckResult) × (r ≡ some v) × (v.status ≡ unverifiable) × (v.actual ≡ token)

-- A token with its verdict: none where it resolves to cents.
abbrev pub Resolved : String → Option CheckResult → Type 0
Resolved token r =
    ((amount : ℤ) × (parse_amount_token token ≡ ok amount) × (r ≡ none)) ⊎ Escalates token r

-- What a claim of a type starts with.
abbrev pub Settled : ClaimType → String → Option CheckResult → Type 0
Settled t token r = (IsAmountType t × Resolved token r) ⊎ (¬ IsAmountType t × (r ≡ none))

abbrev pub SettledCandidate : Candidate → Type 0
SettledCandidate c = Settled c.claim_type c.token c.check_result

verdict_of-Resolved :
    (token : String) (r : Result ℤ)
    → parse_amount_token token ≡ r
    → Resolved token (verdict_of token r)
verdict_of-Resolved token (ok amount) e = inl (amount, e, refl)
verdict_of-Resolved token (raise error) e = inr (_, refl, refl, refl)

unresolved-Resolved : (kind : Kind) (token : String) → Resolved token (unresolved kind token)
unfolding unresolved
unresolved-Resolved unverifiable_kind token = inr (_, refl, refl, refl)
unresolved-Resolved resolvable token = verdict_of-Resolved token (parse_amount_token token) refl

choose_referent-IsAmountType : (s : Signs) → IsAmountType (choose_referent s).claim_type
unfolding choose_referent
choose_referent-IsAmountType s = ground arith

pub amount_candidate-IsAmountType :
    (n : ℕ) (sentence : List Char) (ms : List Mention) (spans : List Span) (s : Span)
    → IsAmountType (amount_candidate n sentence ms spans s).claim_type
unfolding amount_candidate candidate classify_amount
amount_candidate-IsAmountType n sentence ms spans s =
    choose_referent-IsAmountType (read_signs sentence ms spans s.start s.stop)

not-IsAmountType : (t : ClaimType) → t ≢ c_amt → t ≢ c_sum → ¬ IsAmountType t
not-IsAmountType t h k (inl e) = h e
not-IsAmountType t h k (inr e) = k e

plain : (t : ClaimType) (token : String) → t ≢ c_amt → t ≢ c_sum → Settled t token none
plain t token h k = inr (not-IsAmountType t h k, refl)

exist_candidates-Settled :
    (n : ℕ) (s : List Char) (seen : List String) (ms : List Mention)
    → All SettledCandidate (exist_candidates n s seen ms)
unfolding exist_candidates candidate
exist_candidates-Settled n s seen [] = tt
exist_candidates-Settled n s seen ((at, cid) ∷ ms) = elim (Bool-cases (contains cid seen)) [
  | inl old ↦ rw old (exist_candidates-Settled n s seen ms)
  | inr new ↦
      rw new (
        plain c_exist cid (λ e. cc) (λ e. cc),
        exist_candidates-Settled n s (seen ++ (cid ∷ [])) ms,
      )
]

fuzzy_of-Settled :
    (n : ℕ) (s : List Char) (m : Option Match) → All SettledCandidate (fuzzy_of n s m)
unfolding fuzzy_of candidate
fuzzy_of-Settled n s none = tt
fuzzy_of-Settled n s (some m) = (plain c_fuzzy "" (λ e. cc) (λ e. cc), tt)

fuzzy_of-NamesDoc : (n : ℕ) (s : List Char) (m : Option Match) → All NamesDoc (fuzzy_of n s m)
unfolding fuzzy_of candidate
fuzzy_of-NamesDoc n s none = tt
fuzzy_of-NamesDoc n s (some m) = (λ t. cc, tt)

pub detect_in_sentence-Settled :
    (n : ℕ) (s : List Char) (l : Ledger) → Candidates SettledCandidate n s l
unfolding amount_candidate date_candidate status_candidate candidate fuzzy_candidates
detect_in_sentence-Settled n s l = record {
  exists = exist_candidates-Settled n s;
  amounts = λ ms spans span.
      inl
        (amount_candidate-IsAmountType n s ms spans span, unresolved-Resolved span.kind span.token);
  dates = λ ms amounts dates span. plain c_date span.token (λ e. cc) (λ e. cc);
  statuses = λ ms hit. plain c_status hit.1 (λ e. cc) (λ e. cc);
  fuzzy = fuzzy_of-Settled n s (first_match fuzzy_re s);
}

amount-NamesDoc : (c : Candidate) → IsAmountType c.claim_type → NamesDoc c
amount-NamesDoc c (inl a) e = cc
amount-NamesDoc c (inr a) e = cc

pub detect_in_sentence-NamesDoc : (n : ℕ) (s : List Char) (l : Ledger) → Candidates NamesDoc n s l
unfolding date_candidate status_candidate candidate fuzzy_candidates
detect_in_sentence-NamesDoc n s l = record {
  exists = exist_candidates-NamesDoc n s;
  amounts = λ ms spans span.
      amount-NamesDoc (amount_candidate n s ms spans span)
        (amount_candidate-IsAmountType n s ms spans span);
  dates = λ ms amounts dates span e. cc;
  statuses = λ ms hit e. cc;
  fuzzy = fuzzy_of-NamesDoc n s (first_match fuzzy_re s);
}
