-- ===== src/Gate.antt =====
-- The policy gate, gate/policy.py: the statuses it reads, its vocabulary and its corrections.
pub mod Itemization
pub mod Matrix
pub mod Gaps
pub mod Rows
pub mod Safety
pub mod Concern
pub mod Severity
pub mod Acceptable
pub mod Release
pub mod Extracted
pub mod Tests
use max_ed.Base.{
  ℕ, String, Bool, true, false, not, Option, none, some, List, [], ◌∷◌, map, if◌then◌else◌, any,
  all, concat, join, is_blank, or_text, Result, ok, ◌>>=◌,
}
use max_ed.Contracts.{
  Ledger, ClaimType, c_exist, c_amt, c_sum, c_status, c_date, c_fuzzy, CheckStatus, pass, fail,
  unsupported, cannot_determine, unverifiable, GateAction, abstain, Claim, Finding, GateDecision,
  human, records,
}
use max_ed.Derive.Ambiguity.{ambiguous_allocations}

abbrev pub revision_budget : ℕ
revision_budget = 2

abbrev pub fuzzy_revision_budget : ℕ
fuzzy_revision_budget = 1

abbrev pub reason_fabricated : String
reason_fabricated = "fabricated document reference"

abbrev pub reason_unverifiable : String
reason_unverifiable = "unverifiable quantitative claim"

abbrev pub reason_correctable : String
reason_correctable = "correctable code-check failure"

abbrev pub reason_budget_exhausted : String
reason_budget_exhausted = "revision budget exhausted"

abbrev pub reason_unsupported : String
reason_unsupported = "unsupported fuzzy claim"

abbrev pub reason_unsupported_exhausted : String
reason_unsupported_exhausted = "unsupported fuzzy claim after revision"

abbrev pub reason_cannot_determine : String
reason_cannot_determine = "fuzzy claim cannot be determined from the records"

abbrev pub reason_ambiguous : String
reason_ambiguous = "ambiguous allocation"

abbrev pub reason_all_pass : String
reason_all_pass = "all checks passed"

abbrev pub reason_loop : String
reason_loop = "revision loop"

abbrev pub reason_incomplete : String
reason_incomplete = "draft is missing required content"

abbrev pub reason_itemization : String
reason_itemization = "itemized amounts contradict the computed totals"

abbrev pub would_resolve_cannot_determine : String
would_resolve_cannot_determine = "a record or human confirmation of the claimed arrangement"

-- `_status_of`
abbrev pub status_of : Claim → Option CheckStatus
status_of c = elim c.check_result [ none ↦ none | some r ↦ some r.status ]

-- Equality of statuses, `is` in the source.
abbrev pub same_status : CheckStatus → CheckStatus → Bool
same_status pass pass = true
same_status fail fail = true
same_status unsupported unsupported = true
same_status cannot_determine cannot_determine = true
same_status unverifiable unverifiable = true
same_status _ _ = false

-- `_status_of(c) is s`
abbrev pub has_status : CheckStatus → Claim → Bool
has_status s c = elim (status_of c) [ none ↦ false | some t ↦ same_status t s ]

abbrev pub is_fuzzy : ClaimType → Bool
is_fuzzy c_exist = false
is_fuzzy c_amt = false
is_fuzzy c_sum = false
is_fuzzy c_status = false
is_fuzzy c_date = false
is_fuzzy c_fuzzy = true

abbrev pub is_existence : ClaimType → Bool
is_existence c_exist = true
is_existence c_amt = false
is_existence c_sum = false
is_existence c_status = false
is_existence c_date = false
is_existence c_fuzzy = false

-- `_CODE_FAIL_KINDS`
abbrev pub code_fail_kind : ClaimType → Option String
code_fail_kind c_exist = none
code_fail_kind c_amt = some "c_amt_fail"
code_fail_kind c_sum = some "c_sum_fail"
code_fail_kind c_status = some "c_status_fail"
code_fail_kind c_date = some "c_date_fail"
code_fail_kind c_fuzzy = none

-- `_CONTEXT_BY_TYPE`, with the default of its `get`.
abbrev context_by_type : ClaimType → String
context_by_type c_exist = "this account"
context_by_type c_amt = "this account"
context_by_type c_sum = "the total balance due"
context_by_type c_status = "this document"
context_by_type c_date = "the statement"
context_by_type c_fuzzy = "this account"

-- `c.check_result.detail if c.check_result else …`
abbrev pub detail_or : String → Claim → String
detail_or text c = elim c.check_result [ none ↦ text | some r ↦ r.detail ]

unfoldable pub correction_line : Claim → String
correction_line c =
    let unsupported_text = concat (
      "The records do not support this statement; remove it or reword it to match the records: "
      ∷ c.span ∷ []) in
    elim c.check_result [
      | none ↦ unsupported_text
      | some r ↦
          if is_blank r.expected
          then unsupported_text
          else concat (
              "The ledger shows "
              ∷ r.expected
              ∷ " for "
              ∷ or_text c.subject_id (context_by_type c.claim_type)
              ∷ "; your draft says "
              ∷ or_text r.actual (or_text c.token c.span)
              ∷ "."
              ∷ [])
    ]

unfoldable pub build_correction : List Claim → String
unfolding correction_line
build_correction failed = join "\n" (map correction_line failed)

-- A finding on a claim, and one on the whole draft.
abbrev pub claim_finding : String → Claim → String → String → Finding
claim_finding kind c detail correction = record {
  kind = kind;
  claim_id = c.claim_id;
  span = c.span;
  detail = detail;
  correction = correction;
}

abbrev pub draft_finding : String → String → String → Finding
draft_finding kind detail correction = record {
  kind = kind;
  claim_id = "";
  span = "";
  detail = detail;
  correction = correction;
}

abbrev pub gate_decision : GateAction → String → List Finding → String → GateDecision
gate_decision action reason findings payload = record {
  action = action;
  reason = reason;
  findings = findings;
  payload = payload;
}

-- The decision on the pairs that `ambiguous_allocations` returns.
unfoldable pub ambiguous_decision : List (String × List String) → Option GateDecision
ambiguous_decision [] = none
ambiguous_decision (pair ∷ pairs) =
    let findings =
      map
        (λ (p : String × List String).
          draft_finding "ambiguous_allocation"
            (concat (p.0 ∷ " could apply to any of: " ∷ join ", " p.1 ∷ [])) "")
        (pair ∷ pairs) in
    some (
      gate_decision abstain reason_ambiguous findings
        (join "; " (map (λ (f : Finding). f.detail) findings)))

unfoldable pub ambiguity_decision : Ledger → Result (Option GateDecision)
unfolding ambiguous_decision
ambiguity_decision l = ambiguous_allocations l >>= λ pairs. ok (ambiguous_decision pairs)

unfoldable pub precheck_abstain : Ledger → Result (Option GateDecision)
unfolding ambiguity_decision
precheck_abstain l = ambiguity_decision l
