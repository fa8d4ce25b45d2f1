-- ===== src/Agentic.antt =====
-- The bounded agent, balancecheck/drafting/agentic.py: what its setting and its session hold, the
-- evidence that it must gather, and the rules of a step. The model's client is a function of the
-- step and the prompt; `none` stands for a response that is not ok.
pub mod Session
pub mod Prompt
pub mod Loop
pub mod Budget
pub mod Evidence
pub mod Ending
pub mod Total
use max_ed.Base.{
  ℕ, zero, String, Bool, true, false, not, ◌&&◌, ◌||◌, Option, some, List, [], ◌∷◌, ◌++◌, str_eq,
  if◌then◌else◌, length, take, any, concat, is_blank, contains, Result, ok, ◌>>=◌,
}
use max_ed.Contracts.{
  Ledger, tool, final, MemoryEntry, verification, Json, str, arr, obj, Items, nil, cons, Fields,
  end, field,
}
use max_ed.Base.Int.{ℤ, pos, eqb_ℤ}
use max_ed.Derive.{unapplied_cash_total, unapplied_credit_total}
use max_ed.Json.{Python, text_of, field_of, field_values}
use max_ed.Regex.{chars, of_chars}
use max_ed.Regex.Strip.{strip, upper}

-- What the tool budgets of the configuration are. A negative number acts as zero does.
pub record Budgets : Type 0 where
  pub max_rounds : ℕ
  pub max_calls_per_round : ℕ
  pub max_total_tool_calls : ℕ

-- What an executor does: it returns a value, or it raises an exception of a kind with a text.
pub data Executed : Type 0 where
  returned : Json → Executed
  raised : String → String → Executed

-- `_RequiredCall`
pub record RequiredCall : Type 0 where
  pub name : String
  pub arguments : Fields
  pub label : String
  pub note : String

-- `AgenticResult`
pub record AgenticResult : Type 0 where
  pub text : String
  pub steps : ℕ
  pub tool_calls_executed : ℕ
  pub forced_final : Bool
  pub coverage_forced : List String
  pub prompt_sha : String

-- What a recovery is run with.
pub record Recovery : Type 0 where
  pub budgets : Budgets
  pub python : Python
  pub ledger : Ledger
  pub client : ℕ → String → Option Json
  pub executor : String → Fields → Ledger → Executed
  pub sha : String → String
  pub catalog_text : String
  pub previous_draft : String
  pub correction : String
  pub decision_reason : String
  pub failed_subject_ids : List String
  pub exemplars : List MemoryEntry
  pub gen_id : String
  pub revision_index : ℕ
  pub run_id : String

abbrev pub schema_max_calls : ℕ
schema_max_calls = 3

-- The call that one failed document requires, if it is of a kind that has a tool.
abbrev starts_upper : String → String → Bool
unfolding chars of_chars upper
starts_upper prefix s = str_eq (of_chars (take (length (chars prefix)) (upper (chars s)))) prefix

unfoldable pub document_call : String → List RequiredCall
unfolding concat chars of_chars upper
document_call doc_id =
    if starts_upper "INV-" doc_id
    then record {
      name = "get_invoice";
      arguments = field "invoice_id" (str doc_id) end;
      label = concat ("get_invoice(" ∷ doc_id ∷ ")" ∷ []);
      note = "this document failed verification";
    }
      ∷ []
    else if starts_upper "PMT-" doc_id || starts_upper "CM-" doc_id
    then record {
      name = "get_source";
      arguments = field "source_id" (str doc_id) end;
      label = concat ("get_source(" ∷ doc_id ∷ ")" ∷ []);
      note = "this document failed verification";
    }
      ∷ []
    else []

-- The loop over the failed documents; `seen` are those before, in capitals.
unfoldable pub document_calls : List String → List String → List RequiredCall
unfolding document_call strip upper chars of_chars
document_calls seen [] = []
document_calls seen (raw ∷ raws) =
    let doc_id = of_chars (strip (chars raw)) in
    let capitals = of_chars (upper (strip (chars raw))) in
    let skipped = document_calls seen raws in
    let noted = document_calls (capitals ∷ seen) raws in
    if is_blank doc_id || contains capitals seen then skipped else document_call doc_id ++ noted

abbrev plain_call : String → String → RequiredCall
plain_call name note = record { name = name; arguments = end; label = name; note = note }

-- `_required_evidence`
unfoldable pub required_evidence : Ledger → List String → Result (List RequiredCall)
unfolding document_calls
required_evidence l failed = unapplied_cash_total l >>= λ cash.
    (if eqb_ℤ cash (pos 0)
      then (unapplied_credit_total l >>= λ credit. ok (not (eqb_ℤ credit (pos 0))))
      else ok true)
    >>= λ unapplied. ok (
        plain_call "get_account_summary" "always required"
        ∷ plain_call "list_open_invoices" "always required"
        ∷ ((if unapplied
              then plain_call "list_unapplied_sources" "the account has unapplied cash or credit"
                ∷ []
              else [])
            ++ document_calls [] failed))

-- `str(value).upper()`
abbrev pub capital_text : Python → Json → String
unfolding chars of_chars upper
capital_text py v = of_chars (upper (chars (text_of py v)))

-- `wanted`
unfoldable pub wanted_of : Python → List Json → String
unfolding text_of chars of_chars upper
wanted_of py [] = ""
wanted_of py (v ∷ vs) = if is_blank (text_of py v) then wanted_of py vs else capital_text py v

abbrev pub Success : Type 0
Success = String × Fields

abbrev pub no_arguments : Fields → Bool
no_arguments end = true
no_arguments (field k v fields) = false

-- Whether one success covers the requirement.
unfoldable pub covers : Python → RequiredCall → Success → Bool
unfolding text_of field_values wanted_of chars of_chars upper
covers py req (name, args) =
    str_eq name req.name
    && (no_arguments req.arguments
        || any (λ v. str_eq (capital_text py v) (wanted_of py (field_values req.arguments)))
            (field_values args))

-- `_satisfied`
unfoldable pub satisfied : Python → RequiredCall → List Success → Bool
unfolding covers
satisfied py req successes = any (covers py req) successes

-- `_validate_step`: the step, or the problem.
pub data Step : Type 0 where
  invalid : String → Step
  tool_calls : Items → Step
  final_draft : String → Step

abbrev trimmed : String → String
unfolding strip chars of_chars
trimmed s = of_chars (strip (chars s))

-- The rules of each kind, on the list of calls and the draft.
abbrev pub calls_step : Items → String → Step
unfolding strip chars of_chars
calls_step calls draft =
    if not (is_blank (trimmed draft))
    then invalid "kind=tool_calls must carry an empty draft"
    else elim calls [
      | nil ↦ invalid "kind=tool_calls requires at least one call"
      | cons c cs ↦ tool_calls (cons c cs)
    ]

abbrev pub final_step : Items → String → Step
unfolding strip chars of_chars
final_step nil draft =
    if is_blank (trimmed draft)
    then invalid "kind=final requires a non-empty draft"
    else final_draft draft
final_step (cons c cs) draft = invalid "kind=final must carry no tool calls"

abbrev shaped_step : Bool → Option Json → Option Json → Step
unfolding strip chars of_chars
shaped_step calls (some (arr items)) (some (str draft)) =
    if calls then calls_step items draft else final_step items draft
shaped_step calls _ _ = invalid "step does not match the required shape"

abbrev kind_step : Option Json → Option Json → Option Json → Step
unfolding strip chars of_chars
kind_step (some (str kind)) calls draft =
    if str_eq kind "tool_calls"
    then shaped_step true calls draft
    else if str_eq kind "final"
    then shaped_step false calls draft
    else invalid "unknown step kind"
kind_step _ calls draft = invalid "unknown step kind"

unfoldable pub validate_step : Json → Step
unfolding field_of strip chars of_chars
validate_step (obj fields) =
    kind_step (field_of "kind" fields) (field_of "tool_calls" fields) (field_of "draft" fields)
validate_step _ = invalid "step is not a JSON object"
