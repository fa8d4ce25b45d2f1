-- ===== src/Tools/Contract.antt =====
-- The contract of `execute_tool` of balancecheck/drafting/tools.py as the executor of the agent.
use mathlib.Core.Path.{subst}
use max_ed.Base.{
  String, ◌≡◌, refl, sym, ap, inl, inr, Bool, true, not, List, [], if◌then◌else◌, ok, ◌>>=◌, OkWith,
  if-OkWith, >>=-OkWith, OkWith-ok, concat, Result, raise, Ensures, false, Error, key_error,
  value_error, overflow_error, runtime_error,
}
use max_ed.Base.Int.{eqb_ℤ, pos, pos}
use max_ed.Contracts.{Ledger, obj, Fields}
use max_ed.Agentic.{
  raised, Recovery, RequiredCall, AgenticResult, Executed, returned, required_evidence,
}
use max_ed.Agentic.Loop.{generate_agentic_revision}
use max_ed.Agentic.Session.{Session, as_result, result_ok}
use max_ed.Agentic.Total.{CarriesData, KeepsContract, generate_agentic_revision-returns}
use max_ed.Derive.{unapplied_credit_total}
use max_ed.Derive.Totals.{unapplied_cash_total-eq, unapplied_credit_total-eq, cash_sum}
use max_ed.Derive.Balance.{IsSound, validate_ledger-IsSound}
use max_ed.Derive.Validate.{validate_ledger}
use max_ed.Json.{field_of, truthy}
use max_ed.Tools.Registry.{Validator, execute_tool}
use max_ed.Tools.Answers.{Answers, execute_tool-Ensures}

never : false ≡ true → ⊥
never h = cc

Answers-CarriesData :
    (validate : Validator) (name : String) (args : Fields) (l : Ledger) (result : Fields)
    → Answers validate name args l result
    → result_ok result ≡ true
    → CarriesData result
unfolding field_of truthy
Answers-CarriesData validate name args l result (inl (fields, served, e)) h = (fields, rw e refl)
Answers-CarriesData validate name args l result (inr (none_serves, error, e)) h =
    absurd (never (subst (λ x. result_ok x ≡ true) e h))

-- What the agent sees of an exception of its executor.
abbrev raised_by : Error → Executed
raised_by (key_error s) = raised "KeyError" s
raised_by (value_error s) = raised "ValueError" s
raised_by (overflow_error s) = raised "OverflowError" s
raised_by (runtime_error s) = raised "RuntimeError" s

abbrev executed : Result Fields → Executed
executed (ok fields) = returned (obj fields)
executed (raise e) = raised_by e

-- The agent's executor is `execute_tool`.
abbrev pub executing : Validator → String → Fields → Ledger → Executed
executing validate name args l = executed (execute_tool validate name args l)

raised_by-failure : (e : Error) → result_ok (as_result (raised_by e)) ≡ true → ⊥
unfolding concat field_of truthy
raised_by-failure (key_error s) h = never h
raised_by-failure (value_error s) h = never h
raised_by-failure (overflow_error s) h = never h
raised_by-failure (runtime_error s) h = never h

executing-Carries :
    (validate : Validator) (name : String) (args : Fields) (l : Ledger)
    → result_ok (as_result (executing validate name args l)) ≡ true
    → CarriesData (as_result (executing validate name args l))
unfolding concat
executing-Carries validate name args l =
    go (execute_tool validate name args l) (execute_tool-Ensures validate name args l)
  where
    go :
        (r : Result Fields)
        → Ensures (Answers validate name args l) r
        → result_ok (as_result (executed r)) ≡ true
        → CarriesData (as_result (executed r))
    go (ok result) a h = Answers-CarriesData validate name args l result a h
    go (raise e) a h = absurd (raised_by-failure e h)

executing-KeepsContract :
    (validate : Validator) (r : Recovery) → r.executor ≡ executing validate → KeepsContract r
executing-KeepsContract validate r e name args good =
    let same : as_result (r.executor name args r.ledger)
        ≡ as_result (executing validate name args r.ledger) =
      ap (λ (f : String → Fields → Ledger → Executed). as_result (f name args r.ledger)) e in
    subst CarriesData (sym same)
      (executing-Carries validate name args r.ledger (subst (λ x. result_ok x ≡ true) same good))

-- On a ledger that validates the required evidence is determined.
unapplied_test :
    (l : Ledger)
    → IsSound l
    → OkWith
        (λ (b : Bool). Unit {0})
        (if eqb_ℤ (cash_sum l) (pos 0)
          then (unapplied_credit_total l >>= λ credit. ok (not (eqb_ℤ credit (pos 0))))
          else ok true)
unapplied_test l s =
    if-OkWith (λ b. Unit) (eqb_ℤ (cash_sum l) (pos 0)) _ _
      (λ _. rw (unapplied_credit_total-eq l s) tt) (λ _. tt)

required_evidence-returns :
    (l : Ledger) (failed : List String)
    → IsSound l
    → (required : List RequiredCall) × (required_evidence l failed ≡ ok required)
unfolding required_evidence
required_evidence-returns l failed s =
    let (required, e, _) =
      OkWith-ok (λ (x : List RequiredCall). Unit {0}) (required_evidence l failed)
        (rw (unapplied_cash_total-eq l s)
          (>>=-OkWith (λ x. Unit) (λ (b : Bool). Unit {0}) _ _ (unapplied_test l s) (λ b _. tt))) in
    (required, e)

-- A recovery whose executor is `execute_tool`, with any validator of schemas, and whose ledger
-- validates returns a result, whatever the model answers and whatever documents failed.
pub recovery_returns :
    (validate : Validator) (r : Recovery)
    → r.executor ≡ executing validate
    → validate_ledger r.ledger ≡ []
    → (result : AgenticResult) × (s : Session) × (generate_agentic_revision r ≡ ok (result, s))
recovery_returns validate r e checked =
    let (required, determined) =
      required_evidence-returns r.ledger r.failed_subject_ids
        (validate_ledger-IsSound r.ledger checked) in
    generate_agentic_revision-returns r (executing-KeepsContract validate r e) required determined
