-- ===== src/Runner/Tests.antt =====
-- A scenario that reaches a person and one whose extractor raises, and the runner's theorems at them.
use max_ed.Runner.Loop.{
  run_rounds, round, recover, prompted, verify, finish, terminal, score_of, first_score, Setting,
  abstained, exemplars_of, run_scenario,
}
use max_ed.Runner.{generation_mode_of, govern, Outcome}
use max_ed.Score.{
  build_score_event, completeness, grounding, grounding_from, completeness_items, checklist,
  net_present, with_amount, document_item, with_figures, references,
}
use max_ed.Gate.Gaps.{derive_gap}
use max_ed.Checks.Registry.{
  check_all, run_code_checks, run_fuzzy_checks, code_step, fuzzy_step, code_check,
}
use max_ed.Checks.{check_exist, parse_claim_amount, find_document}
use max_ed.Checks.Total.{check_sum, check_account_total}
use max_ed.Amounts.{
  parse_amount_token, digit_amount_full_re, currency_marker_re, percent_word_re, fraction_word_re,
}
use max_ed.Money.Parse.{parse_dollars}
use max_ed.Derive.{
  net_balance, open_invoice_total, unapplied_cash_total, unapplied_credit_total, open_amount,
  unapplied_amount, invoice, source, applied_to_invoice, applied_from_source, document_ids,
}
use max_ed.Money.{render, grouped, decimal}
use max_ed.Regex.{chars, full_match, search_in, of_chars, match_at, sub_space}
use max_ed.Regex.Strip.{strip, strip_by, strip_left, remove_char}
use max_ed.Base.{
  String, ◌≡◌, refl, ◌⊎◌, false, none, List, [], concat, join, value_error, Result, ok, raise,
}
use max_ed.Gate.Matrix.{
  decide, match_matrix, exist_fails, unverifiable_claims, code_fails, fuzzy_unsupported,
  fuzzy_cannot, draft_rows, completeness_rows, missing_completeness, all_pass_row, guard_loop,
  repeats_earlier_hash,
}
use max_ed.Derive.Ambiguity.{ambiguous_allocations, ambiguous_from, matching_invoices}
use max_ed.Gate.Itemization.{itemization_inconsistency, something_unapplied, open_figures}
use max_ed.Contracts.{Ledger, human_gate, Claim, GateDecision, Event}
use max_ed.Gate.{reason_all_pass, ambiguous_decision, ambiguity_decision, precheck_abstain}
use max_ed.Base.Int.{◌+ℤ◌, ◌-ℤ◌, sum_ℤ}
use max_ed.Derive.Tests.{sample}
use max_ed.Gate.Tests.{fresh_claims, no_client}
use max_ed.Runner.Ending.{Ended, RoundRaises, run_scenario-Ended, run_scenario-raise}

abbrev setting_of : (String → String → Ledger → Result (List Claim)) → Setting
setting_of extract = record {
  cfg = record { agentic = false; max_recoveries = 1 };
  pass_label = "pass1";
  run_id = "r";
  memory = none;
  client = λ rev. no_client;
  extract = extract;
  sha256 = λ text. text;
  ledger_ref = λ l. "ref";
  drafter = λ exemplars rev correction. ok (record { text = "draft"; prompt_sha = "p" });
  agent = λ exemplars gen_id rev r. ok (record { text = ""; prompt_sha = "" }, []);
}

abbrev good_setting : Setting
good_setting = setting_of (λ prefix draft l. ok fresh_claims)

abbrev bad_setting : Setting
bad_setting = setting_of (λ prefix draft l. raise (value_error "no draft"))

abbrev gated : Outcome
gated = record {
  scenario_id = "S-A-01";
  gen_id = "pass1-S-A-01-r0";
  terminal_action = human_gate;
  final_draft = "draft";
  revision_count = 0;
  reason = reason_all_pass;
}

-- The log of a run.
abbrev log_of : Result (Outcome × List Event) → List Event
log_of (ok (o, log)) = log
log_of (raise e) = []

-- One run reaches a person, and one ends with the exception of its extractor.
runs :
    (run_scenario good_setting sample ≡ ok (gated, log_of (run_scenario good_setting sample)))
    × (run_scenario bad_setting sample ≡ raise (value_error "no draft"))
unfolding run_scenario run_rounds round recover prompted verify finish terminal score_of first_score
    exemplars_of generation_mode_of govern build_score_event completeness grounding grounding_from
    derive_gap precheck_abstain check_all run_code_checks run_fuzzy_checks code_step fuzzy_step
    code_check check_exist check_sum parse_claim_amount parse_amount_token parse_dollars
    check_account_total net_balance open_invoice_total unapplied_cash_total unapplied_credit_total
    open_amount unapplied_amount invoice source applied_to_invoice applied_from_source document_ids
    find_document render grouped chars full_match search_in strip strip_by strip_left remove_char
    digit_amount_full_re currency_marker_re percent_word_re fraction_word_re concat decide
    match_matrix exist_fails unverifiable_claims code_fails fuzzy_unsupported fuzzy_cannot
    draft_rows ambiguity_decision ambiguous_decision ambiguous_allocations ambiguous_from
    matching_invoices itemization_inconsistency something_unapplied open_figures completeness_rows
    missing_completeness completeness_items checklist net_present with_amount document_item
    with_figures references all_pass_row guard_loop repeats_earlier_hash join of_chars match_at
    sub_space decimal ◌-ℤ◌ sum_ℤ ◌+ℤ◌
runs = (refl, refl)

run_scenario-Ended_example :
    Ended good_setting sample (gated, log_of (run_scenario good_setting sample))
run_scenario-Ended_example =
    run_scenario-Ended good_setting sample gated (log_of (run_scenario good_setting sample)) runs.0

run_scenario-raise_example :
    (precheck_abstain sample ≡ raise (value_error "no draft"))
    ⊎ (exemplars_of bad_setting sample ≡ raise (value_error "no draft"))
    ⊎ ((d : GateDecision) × (abstained bad_setting sample d ≡ raise (value_error "no draft")))
    ⊎ RoundRaises bad_setting sample (value_error "no draft")
run_scenario-raise_example = run_scenario-raise bad_setting sample (value_error "no draft") runs.1
