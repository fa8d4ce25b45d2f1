-- ===== src/Tools/Tests.antt =====
-- A recovery on the tools: the model asks for one tool, then answers too early, and the rest of the
-- evidence is forced before its final draft; and the theorems at it.
use max_ed.Derive.Structures.{sub_days, has_unapplied}
use max_ed.Derive.Ambiguity.{ambiguous_allocations, ambiguous_from, matching_invoices}
use max_ed.Agentic.Loop.{
  run_steps, accepted, answer_turn, attempt_call, attempt_calls, call_arguments, call_name,
  conclude, final_answer, final_of, final_prompt, final_turn, force_coverage, missing_labels,
  round_prompt, step_turn, generate_agentic_revision, failed,
}
use max_ed.Agentic.Session.{
  replay_cached, attempt, cached, decide_attempt, execute, record_attempt, serve, serve_from,
  take_note, Session, new_session,
}
use max_ed.Agentic.Prompt.{build_step_prompt, exemplars_block, transcript_text}
use max_ed.Tools.{
  canonicalize_doc_id, find_source, get_account_summary, get_application_history, get_invoice,
  get_source, invoice_row, list_open_invoices, list_unapplied_sources, rows_where, source_row,
}
use max_ed.Tools.Registry.{
  Validator, Tool, schema_of, valid, invalid, breaks, end_result, found_tool, run_tool, tool_of,
  validated, execute_tool, catalog_text,
}
use max_ed.Agentic.{
  covers, document_call, document_calls, satisfied, validate_step, wanted_of, Recovery,
  RequiredCall, AgenticResult, required_evidence,
}
use max_ed.Json.{field_of, field_values, int_text, quote, set_field, text_of, to_dict, truthy}
use max_ed.Derive.{
  open_amount, unapplied_amount, invoice, source, applied_to_invoice, applied_from_source,
  document_ids, unapplied_cash_total, unapplied_credit_total, open_invoice_total, net_balance,
}
use max_ed.Money.{render, grouped, decimal}
use max_ed.Regex.{chars, of_chars}
use max_ed.Regex.Strip.{strip, strip_by, strip_left, remove_char, upper, slice}
use max_ed.Base.{
  ℕ, zero, suc, ◌≤◌, String, ◌≡◌, refl, ◌⊎◌, true, some, List, [], ◌∷◌, length, concat, join,
  is_blank, Result, ok, raise, Error, ◌≢◌,
}
use max_ed.Base.Int.{sum_ℤ, ◌+ℤ◌, ◌-ℤ◌}
use max_ed.Contracts.{Json, str, arr, obj, Items, nil, cons, Fields, end, field}
use max_ed.Agentic.Evidence.{Evidenced}
use max_ed.Agentic.Ending.{generate_agentic_revision-Ends}
use max_ed.Derive.Tests.{sample, sample_valid}
use max_ed.Tools.Contract.{executing, recovery_returns}
use max_ed.Tools.Answers.{Answers, execute_tool-Answers}

abbrev step : String → Items → String → Json
step kind calls draft = obj (
    field "kind" (str kind)
      (field "reason" (str "") (field "tool_calls" (arr calls) (field "draft" (str draft) end))))

abbrev one_argument : Fields
one_argument = field "invoice_id" (str "inv 1") end

abbrev one_call : Items
one_call =
    cons (obj (field "name" (str "get_invoice") (field "arguments" (obj one_argument) end))) nil

abbrev answer : ℕ → Json
answer zero = step "tool_calls" one_call ""
answer (suc n) = step "final" nil " The corrected reply. "

abbrev recovery : Recovery
recovery = record {
  budgets = record { max_rounds = 2; max_calls_per_round = 3; max_total_tool_calls = 6 };
  python = record { repr = λ v. ""; dict_of = λ v. ok end };
  ledger = sample;
  client = λ step prompt. some (answer step);
  executor = executing (λ args schema. valid);
  sha = λ text. "sha";
  catalog_text = catalog_text;
  previous_draft = "The balance is $1.00.";
  correction = "State the balance.";
  decision_reason = "correctable";
  failed_subject_ids = "INV-1" ∷ [];
  exemplars = [];
  gen_id = "pass1-S-A-01-r1";
  revision_index = 1;
  run_id = "r";
}

abbrev required_of : Result (List RequiredCall) → List RequiredCall
required_of (ok required) = required
required_of (raise e) = []

abbrev recovery_required : List RequiredCall
recovery_required = required_of (required_evidence sample ("INV-1" ∷ []))

abbrev recovered_of : Result (AgenticResult × Session) → AgenticResult × Session
recovered_of (ok p) = p
recovered_of (raise e) = (failed recovery 0 new_session [], new_session)

abbrev recovered : AgenticResult × Session
recovered = recovered_of (generate_agentic_revision recovery)

-- The draft is the model's last answer, stripped; it took three calls of the model and five of tools.
recovery_run :
    (required_evidence sample ("INV-1" ∷ []) ≡ ok recovery_required)
    × (generate_agentic_revision recovery ≡ ok recovered)
    × (recovered.0.text ≡ "The corrected reply.")
    × (recovered.0.steps ≡ 3)
    × (recovered.0.tool_calls_executed ≡ 5)
unfolding accepted answer_turn attempt attempt_call attempt_calls build_step_prompt cached
    call_arguments call_name canonicalize_doc_id catalog_text conclude covers decide_attempt
    document_call document_calls end_result execute execute_tool exemplars_block field_of
    field_values final_answer final_of final_prompt final_turn find_source force_coverage found_tool
    generate_agentic_revision get_account_summary get_application_history get_invoice get_source
    int_text invoice_row list_open_invoices list_unapplied_sources missing_labels quote
    record_attempt replay_cached required_evidence round_prompt rows_where run_steps run_tool
    satisfied serve serve_from set_field source_row step_turn take_note text_of to_dict tool_of
    transcript_text truthy validate_step validated wanted_of open_amount unapplied_amount invoice
    source applied_to_invoice applied_from_source document_ids render grouped decimal chars of_chars
    strip strip_by strip_left remove_char upper slice concat join unapplied_cash_total
    unapplied_credit_total open_invoice_total net_balance sum_ℤ ◌+ℤ◌ ◌-ℤ◌ sub_days has_unapplied
    ambiguous_allocations ambiguous_from matching_invoices
recovery_run = (refl, refl, refl, refl, refl)

generate_agentic_revision-Ends_example :
    (recovered.0.steps ≤ 3)
    × (recovered.0.tool_calls_executed ≤ 6)
    × (recovered.1.attempts ≡ length recovered.1.log)
    × ((is_blank recovered.0.text ≡ true)
        ⊎ Evidenced recovery.python recovery_required recovered.1.log)
generate_agentic_revision-Ends_example =
    generate_agentic_revision-Ends recovery recovery_required recovered.0 recovered.1 recovery_run.0
      recovery_run.1

recovery_returns_example :
    (result : AgenticResult) × (s : Session) × (generate_agentic_revision recovery ≡ ok (result, s))
recovery_returns_example = recovery_returns (λ args schema. valid) recovery refl sample_valid

-- A validator that asks for an argument, as the schema of a document does.
abbrev asks : Validator
asks end schema = invalid "'invoice_id' is a required property"
asks (field k v rest) schema = valid

asks_sound : (args : Fields) (t : Tool) (e : Error) → asks args (schema_of t) ≢ breaks e
asks_sound end t e = λ h. cc
asks_sound (field k v rest) t e = λ h. cc

execute_tool-Answers_example :
    (result : Fields) × (execute_tool asks "get_invoice" one_argument sample ≡ ok result)
    × Answers asks "get_invoice" one_argument sample result
execute_tool-Answers_example =
    execute_tool-Answers asks "get_invoice" one_argument sample (asks_sound one_argument)
