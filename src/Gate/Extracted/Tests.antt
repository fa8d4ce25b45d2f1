-- ===== src/Gate/Extracted/Tests.antt =====
-- A draft that is read, checked and handed to a person, and the theorem at it.
use max_ed.Checks.Amount.{
  check_amount, check_bound_amount, acceptable_amounts, judge_bound, dedup_amounts,
  check_document_amount,
}
use max_ed.Checks.Registry.{
  run_code_checks, run_fuzzy_checks, code_step, fuzzy_step, code_check, check_all,
}
use max_ed.Checks.{check_exist, parse_claim_amount, find_document}
use max_ed.Checks.Total.{check_sum, check_account_total}
use max_ed.Amounts.{
  parse_amount_token, digit_amount_full_re, currency_marker_re, percent_word_re, fraction_word_re,
}
use max_ed.Money.Parse.{parse_dollars}
use max_ed.Derive.{
  net_balance, open_invoice_total, unapplied_cash_total, unapplied_credit_total, open_amount,
  unapplied_amount, invoice, source, applied_to_invoice, applied_from_source, document_ids,
}
use max_ed.Money.{render, grouped, decimal}
use max_ed.Regex.{full_match, search_in, of_chars, match_at, sub_space, chars}
use max_ed.Regex.Strip.{strip, strip_by, strip_left, remove_char, upper, slice}
use max_ed.Gate.Matrix.{
  match_matrix, exist_fails, unverifiable_claims, code_fails, fuzzy_unsupported, fuzzy_cannot,
  draft_rows, completeness_rows, missing_completeness, all_pass_row, guard_loop, decide,
}
use max_ed.Derive.Ambiguity.{ambiguous_allocations, ambiguous_from, matching_invoices}
use max_ed.Gate.Itemization.{itemization_inconsistency, something_unapplied, open_figures}
use max_ed.Score.{
  completeness_items, checklist, net_present, with_amount, document_item, with_figures, references,
}
use max_ed.Base.Int.{◌-ℤ◌, sum_ℤ, ◌+ℤ◌}
use max_ed.Surface.Extract.{
  candidates_of, claims_from, detect_all, claim_of, subjects_of, padded, extract_claims,
}
use max_ed.Surface.Detect.{
  detect_in_sentence, exist_candidates, amount_candidate, date_candidate, date_subjects,
  status_candidates, status_candidate, status_hits, fuzzy_candidates, fuzzy_of, candidate,
  unresolved,
}
use max_ed.Surface.{
  id_mentions, claim_interval, preceding_doc, following_doc, nearest_doc, canonical_prefix_id,
  canonical_loose_id, explicit_doc_id, loose_doc_id, loose_prefix, letters_of, split_sentences,
}
use max_ed.Surface.Spans.{
  amount_spans, date_spans, claim_dates, claim_patterns, claim_matches, claim_match,
  classify_amount, read_signs, choose_referent, subtotal_ids, mentioned_invoices, role_distance,
  amount_patterns, claim_amounts,
}
use max_ed.Surface.Patterns.{
  date_patterns, sentence_split_re, currency_dollar_re, currency_suffix_re, currency_prefix_re,
  word_amount_re, percent_re, fraction_re, bare_grouped_re, bare_decimal_re, explicit_arg_re,
  explicit_id_re, loose_arg_re, loose_kind_re, loose_id_re,
}
use max_ed.Dates.Token.{iso_date_re, month_date_re, slash_date_re, month_re}
use max_ed.Surface.Phrases.{
  status_re, status_paraphrase_re, fuzzy_re, sum_context_re, total_marker_re, subtotal_cue_re,
  balance_object_re, role_original_re, role_applied_re, role_open_re, decomposition_re,
}
use max_ed.Regex.Find.{find_from, first_match, split, split_from, find_iter}
use max_ed.Base.{String, ◌≡◌, refl, List, [], All, concat, join, Result, ok, raise, Any}
use max_ed.Contracts.{Ledger, human_gate, Claim}
use max_ed.Gate.{reason_all_pass, gate_decision, ambiguous_decision, ambiguity_decision}
use max_ed.Derive.Tests.{sample}
use max_ed.Gate.Extracted.{Vouches, gated_amounts_vouched}
use max_ed.Gate.Tests.{no_client}
use max_ed.Surface.Intervals.{Meets}

abbrev draft : String
draft =
    "Your total balance due is $250.00. INV-1 is open for $200.00. INV-2 is open for $200.00. PMT-1 has $100.00 unapplied. CM-1 has $50.00 unapplied."

abbrev extract : String → Ledger → Result (List Claim)
extract text l = ok (extract_claims "c" text l)

abbrev value_of : Result (List Claim) → List Claim
value_of (ok ds) = ds
value_of (raise e) = []

abbrev checked : List Claim
checked = value_of (check_all no_client sample (extract_claims "x" draft sample))

-- The claims of the draft go through the checks, and the gate hands it to a person.
draft_passes :
    (check_all no_client sample (extract_claims "x" draft sample) ≡ ok checked)
    × (decide extract checked sample 0 [] draft
        ≡ ok (gate_decision human_gate reason_all_pass [] ""))
unfolding check_all run_code_checks run_fuzzy_checks code_step fuzzy_step code_check check_exist
    check_sum parse_claim_amount parse_amount_token parse_dollars check_account_total net_balance
    open_invoice_total unapplied_cash_total unapplied_credit_total open_amount unapplied_amount
    invoice source applied_to_invoice applied_from_source document_ids find_document render grouped
    chars full_match search_in strip strip_by strip_left remove_char digit_amount_full_re
    currency_marker_re percent_word_re fraction_word_re concat decide match_matrix exist_fails
    unverifiable_claims code_fails fuzzy_unsupported fuzzy_cannot draft_rows ambiguity_decision
    ambiguous_decision ambiguous_allocations ambiguous_from matching_invoices
    itemization_inconsistency something_unapplied open_figures completeness_rows
    missing_completeness completeness_items checklist net_present with_amount document_item
    with_figures references all_pass_row guard_loop join of_chars match_at sub_space ◌-ℤ◌ sum_ℤ ◌+ℤ◌
    extract_claims candidates_of claims_from detect_all detect_in_sentence split_sentences
    id_mentions amount_spans date_spans claim_amounts claim_dates claim_patterns claim_matches
    claim_match claim_interval amount_patterns date_patterns classify_amount read_signs
    choose_referent subtotal_ids mentioned_invoices role_distance preceding_doc following_doc
    nearest_doc exist_candidates amount_candidate date_candidate date_subjects status_candidates
    status_candidate status_hits fuzzy_candidates fuzzy_of candidate unresolved claim_of subjects_of
    padded canonical_prefix_id canonical_loose_id explicit_doc_id loose_doc_id loose_prefix
    letters_of sentence_split_re currency_dollar_re currency_suffix_re currency_prefix_re
    word_amount_re percent_re fraction_re bare_grouped_re bare_decimal_re explicit_arg_re
    explicit_id_re loose_arg_re loose_kind_re loose_id_re iso_date_re month_date_re slash_date_re
    month_re status_re status_paraphrase_re fuzzy_re sum_context_re total_marker_re subtotal_cue_re
    balance_object_re role_original_re role_applied_re role_open_re decomposition_re find_iter
    find_from first_match split split_from upper slice decimal check_amount check_bound_amount
    acceptable_amounts judge_bound dedup_amounts check_document_amount
draft_passes = (refl, refl)

gated_amounts_vouched_example :
    All
      (λ t.
        All
          (λ (r, kind).
            All
              (λ m. Any (λ s. Meets m s × Any (Vouches t s) checked) (claim_amounts t).1)
              (find_iter r t))
          amount_patterns)
      (split_sentences (chars draft))
gated_amounts_vouched_example =
    gated_amounts_vouched no_client extract "x" draft sample checked 0 []
      (gate_decision human_gate reason_all_pass [] "") draft_passes.0 draft_passes.1 refl
