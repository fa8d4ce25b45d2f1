-- ===== src/Checks/Fuzzy.antt =====
-- `check_fuzzy` of balancecheck/checks/checks.py, on the response of the model client, which is not
-- the program's: any response is admitted. The prompt is not modelled.
use max_ed.Contracts.{
  Ledger, CheckStatus, pass, fail, unsupported, cannot_determine, unverifiable, CheckResult, Claim,
}
use max_ed.Base.{
  String, Bool, true, false, not, ◌&&◌, Option, none, some, List, [], ◌∷◌, str_eq, if◌then◌else◌,
  filter, is_empty, concat, join, is_blank, or_text, contains, key_error, or_raise, Result, ok,
  raise, ◌>>=◌,
}
use max_ed.Checks.{check_result}
use max_ed.Derive.{document_ids}

-- The fields of the structured verdict, as the code reads them: the verdict may be missing, and the
-- other two have the defaults of their `get`.
pub record Verdict : Type 0 where
  pub verdict : Option String
  pub cited_record_ids : List String
  pub reason : String

-- What `client.complete` returns: `parsed` is absent where the output was not an object.
pub record Response : Type 0 where
  pub succeeded : Bool
  pub parsed : Option Verdict
  pub error : String

-- `_VERDICT_TO_STATUS[verdict]`
unfoldable pub verdict_status : String → Result CheckStatus
verdict_status v =
    if str_eq v "supported"
    then ok pass
    else if str_eq v "unsupported"
    then ok unsupported
    else if str_eq v "cannot_determine"
    then ok cannot_determine
    else raise (key_error v)

abbrev pub is_pass : CheckStatus → Bool
is_pass pass = true
is_pass fail = false
is_pass unsupported = false
is_pass cannot_determine = false
is_pass unverifiable = false

abbrev pub is_unsupported : CheckStatus → Bool
is_unsupported pass = false
is_unsupported fail = false
is_unsupported unsupported = true
is_unsupported cannot_determine = false
is_unsupported unverifiable = false

-- A verdict whose citations are all in the ledger.
unfoldable pub settle_verdict : Claim → List String → CheckStatus → String → CheckResult
settle_verdict claim valid status reason =
    if is_pass status && is_empty valid
    then check_result cannot_determine "" claim.span []
        "verifier claimed support but cited no record; support must be shown"
    else check_result status "" claim.span valid (
        if is_unsupported status && is_blank reason
        then "the ledger contains no record supporting this claim"
        else reason)

-- The verdict's text, once it is read.
unfoldable pub judge_text : Claim → Ledger → Verdict → String → Result CheckResult
judge_text claim l v text =
    let known = document_ids l in
    let valid = filter (λ r. contains r known) v.cited_record_ids in
    let invalid = filter (λ r. not (contains r known)) v.cited_record_ids in
    if not (is_empty invalid)
    then ok (
        check_result cannot_determine "" claim.span valid
          (concat ("verifier cited a nonexistent record: " ∷ join ", " invalid ∷ [])))
    else (verdict_status text >>= λ status. ok (settle_verdict claim valid status v.reason))

-- `resp.parsed["verdict"]`, whose absence nothing catches.
unfoldable pub judge_verdict : Claim → Ledger → Verdict → Result CheckResult
unfolding judge_text
judge_verdict claim l v = or_raise v.verdict (key_error "verdict") >>= judge_text claim l v

unfoldable pub check_fuzzy : Claim → Ledger → Response → Result CheckResult
check_fuzzy claim l resp =
    let failed = ok (
      check_result cannot_determine "" claim.span []
        (concat ("verifier call failed: " ∷ or_text resp.error "no structured output" ∷ []))) in
    if not resp.succeeded
    then failed
    else elim resp.parsed [ none ↦ failed | some v ↦ judge_verdict claim l v ]
