-- ===== src/Runner/Assembled/Tests.antt =====
-- A run of the assembled program whose first draft reaches a person, and the theorem at it.
use max_ed.Runner.Loop.{
  run_rounds, round, recover, prompted, verify, finish, terminal, score_of, first_score,
  exemplars_of, run_scenario,
}
use max_ed.Runner.{generation_mode_of, govern, Outcome}
use max_ed.Score.{
  build_score_event, completeness, grounding, grounding_from, completeness_items, checklist,
  net_present, with_amount, document_item, with_figures, references,
}
use max_ed.Gate.Gaps.{derive_gap}
use max_ed.Gate.Matrix.{
  guard_loop, repeats_earlier_hash, decide, match_matrix, exist_fails, unverifiable_claims,
  code_fails, fuzzy_unsupported, fuzzy_cannot, draft_rows, completeness_rows, missing_completeness,
  all_pass_row,
}
use max_ed.Money.{decimal, render, grouped}
use max_ed.Drafter.{
  generate_draft, build_draft_prompt, render_ledger_block, record_lines, client_line, invoice_line,
  source_line, application_line, draft_exemplars_block, correction_block, squeeze,
}
use max_ed.Regex.Replace.{replace}
use max_ed.Derive.{
  invoice_status, net_balance, open_invoice_total, unapplied_cash_total, unapplied_credit_total,
  open_amount, unapplied_amount, invoice, source, applied_to_invoice, applied_from_source,
  document_ids,
}
use max_ed.Dates.{isoformat}
use max_ed.Checks.Registry.{
  run_code_checks, run_fuzzy_checks, code_step, fuzzy_step, code_check, check_all,
}
use max_ed.Checks.{check_exist, parse_claim_amount, find_document}
use max_ed.Checks.Total.{check_sum, check_account_total}
use max_ed.Amounts.{
  parse_amount_token, digit_amount_full_re, currency_marker_re, percent_word_re, fraction_word_re,
}
use max_ed.Money.Parse.{parse_dollars}
use max_ed.Regex.{full_match, search_in, of_chars, match_at, sub_space, chars}
use max_ed.Regex.Strip.{strip, strip_by, strip_left, remove_char, upper, slice}
use max_ed.Base.{
  String, ◌≡◌, refl, true, none, some, List, [], All, concat, join, Result, ok, raise, Any, inl,
  inr, All-map, Ensures-ok,
}
use max_ed.Derive.Ambiguity.{ambiguous_allocations, ambiguous_from, matching_invoices}
use max_ed.Gate.Itemization.{itemization_inconsistency, something_unapplied, open_figures}
use max_ed.Base.Int.{◌-ℤ◌, sum_ℤ, ◌+ℤ◌}
use max_ed.Surface.Extract.{
  candidates_of, claims_from, detect_all, claim_of, subjects_of, padded, extract_claims,
}
use max_ed.Surface.Detect.{
  detect_in_sentence, exist_candidates, amount_candidate, date_candidate, date_subjects,
  status_candidates, status_candidate, status_hits, fuzzy_candidates, fuzzy_of, candidate,
  unresolved,
}
use max_ed.Surface.{
  id_mentions, claim_interval, preceding_doc, following_doc, nearest_doc, canonical_prefix_id,
  canonical_loose_id, explicit_doc_id, loose_doc_id, loose_prefix, letters_of, split_sentences,
}
use max_ed.Surface.Spans.{
  amount_spans, date_spans, claim_dates, claim_patterns, claim_matches, claim_match,
  classify_amount, read_signs, choose_referent, subtotal_ids, mentioned_invoices, role_distance,
  amount_patterns, claim_amounts,
}
use max_ed.Surface.Patterns.{
  date_patterns, sentence_split_re, currency_dollar_re, currency_suffix_re, currency_prefix_re,
  word_amount_re, percent_re, fraction_re, bare_grouped_re, bare_decimal_re, explicit_arg_re,
  explicit_id_re, loose_arg_re, loose_kind_re, loose_id_re,
}
use max_ed.Dates.Token.{iso_date_re, month_date_re, slash_date_re, month_re}
use max_ed.Surface.Phrases.{
  status_re, status_paraphrase_re, fuzzy_re, sum_context_re, total_marker_re, subtotal_cue_re,
  balance_object_re, role_original_re, role_applied_re, role_open_re, decomposition_re,
}
use max_ed.Regex.Find.{find_from, first_match, split, split_from, find_iter}
use max_ed.Checks.Amount.{
  check_amount, check_bound_amount, acceptable_amounts, judge_bound, dedup_amounts,
  check_document_amount,
}
use max_ed.Contracts.{human_gate, Claim, Event, end}
use max_ed.Derive.Tests.{sample}
use max_ed.Gate.Extracted.{Vouches}
use max_ed.Gate.{reason_all_pass, ambiguous_decision, ambiguity_decision, precheck_abstain}
use max_ed.Gate.Tests.{no_client}
use max_ed.Runner.Assembled.{Parts, assembled, run_scenario-vouched, drafted, recovered_draft}
use max_ed.Tools.Registry.{valid}
use max_ed.Surface.Intervals.{Meets}
use max_ed.Surface.Recall.{extract_claims-Settled}
use max_ed.Surface.Settled.{Settled}
use max_ed.Gate.Release.{Unjudged}
use max_ed.Runner.Verified.{Verified, run_scenario-Verified}

abbrev reply : String
reply =
    "Your total balance due is $250.00. INV-1 is open for $200.00. INV-2 is open for $200.00. PMT-1 has $100.00 unapplied. CM-1 has $50.00 unapplied."

abbrev parts : Parts
parts = record {
  cfg = record { agentic = true; max_recoveries = 1 };
  budgets = record { max_rounds = 2; max_calls_per_round = 3; max_total_tool_calls = 6 };
  python = record { repr = λ v. ""; dict_of = λ v. ok end };
  validate = λ args schema. valid;
  pass_label = "pass1";
  run_id = "r";
  memory = none;
  verifier = λ rev. no_client;
  drafter = λ rev. record {
    system = "Draft.";
    user = "{{ledger_block}}";
    client = λ system prompt. some reply;
    sha = λ text. "sha";
  };
  agent_client = λ rev step prompt. none;
  sha = λ text. text;
  ledger_ref = λ l. "ref";
}

abbrev sent : Outcome
sent = record {
  scenario_id = "S-A-01";
  gen_id = "pass1-S-A-01-r0";
  terminal_action = human_gate;
  final_draft = reply;
  revision_count = 0;
  reason = reason_all_pass;
}

abbrev log_of : Result (Outcome × List Event) → List Event
log_of (ok (o, log)) = log
log_of (raise e) = []

sent_run :
    run_scenario (assembled parts sample) sample
    ≡ ok (sent, log_of (run_scenario (assembled parts sample) sample))
unfolding run_scenario run_rounds round recover prompted verify finish terminal score_of first_score
    exemplars_of generation_mode_of govern build_score_event completeness grounding grounding_from
    derive_gap precheck_abstain guard_loop repeats_earlier_hash decimal drafted recovered_draft
    generate_draft build_draft_prompt render_ledger_block record_lines client_line invoice_line
    source_line application_line draft_exemplars_block correction_block squeeze replace
    invoice_status isoformat check_all run_code_checks run_fuzzy_checks code_step fuzzy_step
    code_check check_exist check_sum parse_claim_amount parse_amount_token parse_dollars
    check_account_total net_balance open_invoice_total unapplied_cash_total unapplied_credit_total
    open_amount unapplied_amount invoice source applied_to_invoice applied_from_source document_ids
    find_document render grouped chars full_match search_in strip strip_by strip_left remove_char
    digit_amount_full_re currency_marker_re percent_word_re fraction_word_re concat decide
    match_matrix exist_fails unverifiable_claims code_fails fuzzy_unsupported fuzzy_cannot
    draft_rows ambiguity_decision ambiguous_decision ambiguous_allocations ambiguous_from
    matching_invoices itemization_inconsistency something_unapplied open_figures completeness_rows
    missing_completeness completeness_items checklist net_present with_amount document_item
    with_figures references all_pass_row join of_chars match_at sub_space ◌-ℤ◌ sum_ℤ ◌+ℤ◌
    extract_claims candidates_of claims_from detect_all detect_in_sentence split_sentences
    id_mentions amount_spans date_spans claim_amounts claim_dates claim_patterns claim_matches
    claim_match claim_interval amount_patterns date_patterns classify_amount read_signs
    choose_referent subtotal_ids mentioned_invoices role_distance preceding_doc following_doc
    nearest_doc exist_candidates amount_candidate date_candidate date_subjects status_candidates
    status_candidate status_hits fuzzy_candidates fuzzy_of candidate unresolved claim_of subjects_of
    padded canonical_prefix_id canonical_loose_id explicit_doc_id loose_doc_id loose_prefix
    letters_of sentence_split_re currency_dollar_re currency_suffix_re currency_prefix_re
    word_amount_re percent_re fraction_re bare_grouped_re bare_decimal_re explicit_arg_re
    explicit_id_re loose_arg_re loose_kind_re loose_id_re iso_date_re month_date_re slash_date_re
    month_re status_re status_paraphrase_re fuzzy_re sum_context_re total_marker_re subtotal_cue_re
    balance_object_re role_original_re role_applied_re role_open_re decomposition_re find_iter
    find_from first_match split split_from upper slice check_amount check_bound_amount
    acceptable_amounts judge_bound dedup_amounts check_document_amount
sent_run = refl

run_scenario-vouched_example :
    (prefix : String) × (ds : List Claim) × (check_all no_client sample
        (extract_claims prefix reply sample)
      ≡ ok ds)
    × All
        (λ t.
          All
            (λ (r, kind).
              All
                (λ m. Any (λ s. Meets m s × Any (Vouches t s) ds) (claim_amounts t).1)
                (find_iter r t))
            amount_patterns)
        (split_sentences (chars reply))
run_scenario-vouched_example =
    run_scenario-vouched parts sample sent (log_of (run_scenario (assembled parts sample) sample))
      sent_run refl

-- The program's own extractor gives claims without a verdict and amounts marked as unverifiable.
abbrev SettledClaim : Claim → Type 0
SettledClaim k = Settled k.claim_type k.token k.check_result

Settled-Unjudged : (k : Claim) → SettledClaim k → Unjudged k
Settled-Unjudged k (inl (kind, inl (amount, e, fresh))) = inl fresh
Settled-Unjudged k (inl (kind, inr (v, e, bad, tok))) = inr (v, e, bad)
Settled-Unjudged k (inr (different, fresh)) = inl fresh

extractor-Unjudged :
    (prefix draft : String) (cs : List Claim)
    → ok (extract_claims prefix draft sample) ≡ ok cs
    → All Unjudged cs
extractor-Unjudged prefix draft cs e =
    Ensures-ok (All Unjudged) (ok (extract_claims prefix draft sample))
      (All-map SettledClaim Unjudged (extract_claims prefix draft sample) Settled-Unjudged
        (extract_claims-Settled prefix draft sample))
      e

run_scenario-Verified_example : Verified (assembled parts sample) sample sent
run_scenario-Verified_example =
    run_scenario-Verified (assembled parts sample) sample sent
      (log_of (run_scenario (assembled parts sample) sample)) extractor-Unjudged sent_run refl refl
