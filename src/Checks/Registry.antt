-- ===== src/Checks/Registry.antt =====
-- The registry and the runners of balancecheck/checks/checks.py. The client answers each claim that
-- is put to it: a function of the claim, since the claims of a draft have distinct identifiers.
use max_ed.Contracts.{
  Ledger, c_exist, c_amt, c_sum, c_status, c_date, c_fuzzy, code_checked, CheckResult, Claim,
}
use max_ed.Base.{
  not, some, List, if◌then◌else◌, is_some, runtime_error, Result, ok, raise, ◌>>=◌, traverse,
}
use max_ed.Checks.{check_exist}
use max_ed.Checks.Amount.{check_amount}
use max_ed.Checks.DateClaim.{check_date}
use max_ed.Checks.Fuzzy.{Response, check_fuzzy}
use max_ed.Checks.Status.{check_status}
use max_ed.Checks.Total.{check_sum}

-- `REGISTRY`, at the types that code checks; the last is not reached from `run_code_checks`.
unfoldable pub code_check : Claim → Ledger → Result CheckResult
code_check claim l = elim claim.claim_type [
  | c_exist ↦ ok (check_exist claim l)
  | c_amt ↦ check_amount claim l
  | c_sum ↦ check_sum claim l
  | c_status ↦ check_status claim l
  | c_date ↦ check_date claim l
  | c_fuzzy ↦ raise (runtime_error "check_fuzzy takes a client")
]

-- `claim.check_result = …`
abbrev pub with_result : Claim → CheckResult → Claim
with_result claim r = record claim { check_result = some r }

-- One round of `run_code_checks`.
unfoldable pub code_step : Ledger → Claim → Result Claim
code_step l claim =
    if not (code_checked claim.claim_type)
    then ok claim
    else if is_some claim.check_result
    then ok claim
    else (code_check claim l >>= λ r. ok (with_result claim r))

unfoldable pub run_code_checks : Ledger → List Claim → Result (List Claim)
run_code_checks l = traverse (code_step l)

module _ (client : Claim → Response) where
  -- One round of `run_fuzzy_checks`.
  unfoldable pub fuzzy_step : Ledger → Claim → Result Claim
  fuzzy_step l claim =
      if code_checked claim.claim_type
      then ok claim
      else if is_some claim.check_result
      then ok claim
      else (check_fuzzy claim l (client claim) >>= λ r. ok (with_result claim r))

  unfoldable pub run_fuzzy_checks : Ledger → List Claim → Result (List Claim)
  run_fuzzy_checks l = traverse (fuzzy_step l)

  unfoldable pub check_all : Ledger → List Claim → Result (List Claim)
  unfolding run_code_checks run_fuzzy_checks
  check_all l claims = run_code_checks l claims >>= λ checked. run_fuzzy_checks l checked
