-- ===== src/Gate/Tests.antt =====
-- A draft that reaches a person, one that is revised, and the gate's theorems at them.
use max_ed.Base.Int.{◌+ℤ◌, ◌-ℤ◌, sum_ℤ}
use max_ed.Base.{
  ℕ, ◌<◌, String, ◌≡◌, refl, true, false, none, some, List, [], ◌∷◌, map, str_eq, all, filter,
  concat, join, Result, ok, get_or, ◌↔◌,
}
use max_ed.Contracts.{
  Ledger, ClaimType, c_exist, c_sum, c_status, pass, fail, revise, escalate, human_gate, other,
  CheckResult, Claim, GateDecision, human, CapabilityGapEvent,
}
use max_ed.Gate.{
  reason_correctable, reason_all_pass, correction_line, build_correction, claim_finding,
  gate_decision, ambiguous_decision, ambiguity_decision,
}
use max_ed.Gate.Gaps.{derive_gap, aggregate_gaps, category_value}
use max_ed.Gate.Gaps.Complete.{NamesGap, derive_gap-NamesGap, aggregate_gaps_complete}
use max_ed.Gate.Matrix.{
  repeats_earlier_hash, correctable_row, decide, match_matrix, exist_fails, unverifiable_claims,
  code_fails, fuzzy_unsupported, fuzzy_cannot, draft_rows, completeness_rows, missing_completeness,
  all_pass_row, guard_loop,
}
use max_ed.Gate.Release.{gated_draft_verified}
use max_ed.Gate.Concern.{never_verified}
use max_ed.Gate.Severity.{Rules, match_matrix-worst}
use max_ed.Gate.Acceptable.{Acceptable, decide-human_gate}
use max_ed.Gate.Safety.{decide-revise, decide-blocked}
use max_ed.Score.{
  passes, grounding, completeness, completeness_items, checklist, net_present, with_amount,
  document_item, with_figures, references,
}
use max_ed.Checks.Registry.{
  check_all, run_code_checks, run_fuzzy_checks, code_step, fuzzy_step, code_check,
}
use max_ed.Checks.{check_exist, parse_claim_amount, find_document}
use max_ed.Checks.Total.{check_sum, check_account_total}
use max_ed.Amounts.{
  parse_amount_token, digit_amount_full_re, currency_marker_re, percent_word_re, fraction_word_re,
}
use max_ed.Money.Parse.{parse_dollars}
use max_ed.Derive.{
  net_balance, open_invoice_total, unapplied_cash_total, unapplied_credit_total, open_amount,
  unapplied_amount, invoice, source, applied_to_invoice, applied_from_source, document_ids,
}
use max_ed.Money.{render, grouped}
use max_ed.Regex.{chars, full_match, search_in, of_chars, match_at, sub_space}
use max_ed.Regex.Strip.{strip, strip_by, strip_left, remove_char}
use max_ed.Derive.Ambiguity.{ambiguous_allocations, ambiguous_from, matching_invoices}
use max_ed.Gate.Itemization.{itemization_inconsistency, something_unapplied, open_figures}
use max_ed.Checks.Fuzzy.{Response}
use max_ed.Derive.Tests.{sample}

abbrev bare_claim : String → ClaimType → String → String → Claim
bare_claim claim_id claim_type span token = record {
  claim_id = claim_id;
  claim_type = claim_type;
  span = span;
  token = token;
  check_result = none;
  subject_ids = [];
  role = "";
  subject_id = "";
}

-- The claims of a draft that states the balance and names every open document.
abbrev pub fresh_claims : List Claim
fresh_claims =
    bare_claim "c1" c_sum "Your balance is $250.00." "$250.00"
    ∷ bare_claim "c2" c_exist "INV-1" "INV-1"
    ∷ bare_claim "c3" c_exist "INV-2" "INV-2"
    ∷ bare_claim "c4" c_exist "PMT-1" "PMT-1"
    ∷ bare_claim "c5" c_exist "CM-1" "CM-1"
    ∷ []

abbrev pub no_client : Claim → Response
no_client c = record { succeeded = false; parsed = none; error = "" }

abbrev fixed_extract : String → Ledger → Result (List Claim)
fixed_extract draft l = ok fresh_claims

abbrev passed : String → List String → CheckResult
passed text cited = record {
  status = pass;
  expected = text;
  actual = text;
  cited_records = cited;
  detail = "";
}

abbrev judged_claims : List Claim
judged_claims =
    record (bare_claim "c1" c_sum "Your balance is $250.00." "$250.00") {
      check_result = some (passed "$250.00" ("NET" ∷ []));
    }
    ∷ record (bare_claim "c2" c_exist "INV-1" "INV-1") {
      check_result = some (passed "INV-1" ("INV-1" ∷ []));
    }
    ∷ record (bare_claim "c3" c_exist "INV-2" "INV-2") {
      check_result = some (passed "INV-2" ("INV-2" ∷ []));
    }
    ∷ record (bare_claim "c4" c_exist "PMT-1" "PMT-1") {
      check_result = some (passed "PMT-1" ("PMT-1" ∷ []));
    }
    ∷ record (bare_claim "c5" c_exist "CM-1" "CM-1") {
      check_result = some (passed "CM-1" ("CM-1" ∷ []));
    }
    ∷ []

checked_sample : check_all no_client sample fresh_claims ≡ ok judged_claims
unfolding check_all run_code_checks run_fuzzy_checks code_step fuzzy_step code_check check_exist
    check_sum parse_claim_amount parse_amount_token parse_dollars check_account_total net_balance
    open_invoice_total unapplied_cash_total unapplied_credit_total open_amount unapplied_amount
    invoice source applied_to_invoice applied_from_source document_ids find_document render grouped
    chars full_match search_in strip strip_by strip_left remove_char digit_amount_full_re
    currency_marker_re percent_word_re fraction_word_re concat decide match_matrix exist_fails
    unverifiable_claims code_fails fuzzy_unsupported fuzzy_cannot draft_rows ambiguity_decision
    ambiguous_decision ambiguous_allocations ambiguous_from matching_invoices
    itemization_inconsistency something_unapplied open_figures completeness_rows
    missing_completeness completeness_items checklist net_present with_amount document_item
    with_figures references all_pass_row guard_loop join of_chars match_at sub_space ◌-ℤ◌ sum_ℤ ◌+ℤ◌
checked_sample = refl

decided_sample :
    decide fixed_extract judged_claims sample 0 [] "draft"
    ≡ ok (gate_decision human_gate reason_all_pass [] "")
unfolding check_all run_code_checks run_fuzzy_checks code_step fuzzy_step code_check check_exist
    check_sum parse_claim_amount parse_amount_token parse_dollars check_account_total net_balance
    open_invoice_total unapplied_cash_total unapplied_credit_total open_amount unapplied_amount
    invoice source applied_to_invoice applied_from_source document_ids find_document render grouped
    chars full_match search_in strip strip_by strip_left remove_char digit_amount_full_re
    currency_marker_re percent_word_re fraction_word_re concat decide match_matrix exist_fails
    unverifiable_claims code_fails fuzzy_unsupported fuzzy_cannot draft_rows ambiguity_decision
    ambiguous_decision ambiguous_allocations ambiguous_from matching_invoices
    itemization_inconsistency something_unapplied open_figures completeness_rows
    missing_completeness completeness_items checklist net_present with_amount document_item
    with_figures references all_pass_row guard_loop join of_chars match_at sub_space ◌-ℤ◌ sum_ℤ ◌+ℤ◌
decided_sample = refl

gated_draft_verified_example :
    (all passes judged_claims ≡ true)
    × (ambiguous_allocations sample ≡ ok [])
    × ((grounding judged_claims).0 ≡ (grounding judged_claims).1)
    × ((k : ℕ) × (completeness fixed_extract "draft" sample ≡ ok (k, k)))
gated_draft_verified_example =
    gated_draft_verified no_client fixed_extract sample fresh_claims judged_claims 0 [] "draft"
      (gate_decision human_gate reason_all_pass [] "") (refl, (refl, (refl, (refl, (refl, tt)))))
      checked_sample refl decided_sample refl

decide-human_gate_example :
    ((gate_decision human_gate reason_all_pass [] "").action ≡ human_gate)
    ↔ Acceptable fixed_extract judged_claims sample 0 "draft"
decide-human_gate_example =
    decide-human_gate fixed_extract judged_claims sample 0 "draft" []
      (gate_decision human_gate reason_all_pass [] "") refl decided_sample

-- A status that the ledger contradicts.
abbrev failed_claims : List Claim
failed_claims =
    record (bare_claim "c1" c_status "INV-1 is paid" "paid") {
      check_result = some (record {
        status = fail;
        expected = "overdue";
        actual = "paid";
        cited_records = "INV-1" ∷ [];
        detail = "";
      });
    }
    ∷ []

abbrev failed_decision : GateDecision
failed_decision =
    gate_decision revise reason_correctable
      (claim_finding "c_status_fail" (bare_claim "c1" c_status "INV-1 is paid" "paid") ""
          "The ledger shows overdue for this document; your draft says paid."
        ∷ [])
      "The ledger shows overdue for this document; your draft says paid."

failed_sample :
    decide fixed_extract failed_claims sample 1 ("h0" ∷ "h1" ∷ []) "draft" ≡ ok failed_decision
unfolding check_all run_code_checks run_fuzzy_checks code_step fuzzy_step code_check check_exist
    check_sum parse_claim_amount parse_amount_token parse_dollars check_account_total net_balance
    open_invoice_total unapplied_cash_total unapplied_credit_total open_amount unapplied_amount
    invoice source applied_to_invoice applied_from_source document_ids find_document render grouped
    chars full_match search_in strip strip_by strip_left remove_char digit_amount_full_re
    currency_marker_re percent_word_re fraction_word_re concat decide match_matrix exist_fails
    unverifiable_claims code_fails fuzzy_unsupported fuzzy_cannot draft_rows ambiguity_decision
    ambiguous_decision ambiguous_allocations ambiguous_from matching_invoices
    itemization_inconsistency something_unapplied open_figures completeness_rows
    missing_completeness completeness_items checklist net_present with_amount document_item
    with_figures references all_pass_row guard_loop correctable_row build_correction correction_line
    repeats_earlier_hash join of_chars match_at sub_space ◌-ℤ◌ sum_ℤ ◌+ℤ◌
failed_sample = refl

decide-revise_example : (1 < 2) × (repeats_earlier_hash ("h0" ∷ "h1" ∷ []) ≡ false)
decide-revise_example =
    decide-revise fixed_extract failed_claims sample 1 "draft" ("h0" ∷ "h1" ∷ []) failed_decision
      failed_sample refl

-- Before a claim that the ledger contradicts, one that was never checked decides.
abbrev mixed_claims : List Claim
mixed_claims = bare_claim "c9" c_exist "INV-1" "INV-1" ∷ failed_claims

match_matrix-worst_example :
    (d : GateDecision) × (match_matrix fixed_extract mixed_claims sample 1 "draft" ≡ ok d)
    × Rules never_verified 1 mixed_claims d
match_matrix-worst_example =
    match_matrix-worst fixed_extract mixed_claims sample 1 "draft" never_verified refl (refl, tt)

decide-blocked_example :
    (d : GateDecision) × (decide fixed_extract fresh_claims sample 0 [] "draft" ≡ ok d)
    × (d.action ≡ escalate)
decide-blocked_example = decide-blocked fixed_extract fresh_claims sample 0 "draft" [] refl

derive_gap-NamesGap_example :
    NamesGap failed_decision sample "g" (derive_gap failed_decision sample "g")
derive_gap-NamesGap_example = derive_gap-NamesGap failed_decision sample "g"

abbrev two_gaps : List CapabilityGapEvent
two_gaps =
    record {
      gen_id = "g1";
      scenario_id = "S";
      missing = other;
      detail = "";
      would_need = "";
      resolvable_by = human;
    }
    ∷ record {
      gen_id = "g2";
      scenario_id = "S";
      missing = other;
      detail = "";
      would_need = "";
      resolvable_by = human;
    }
    ∷ []

aggregate_gaps_complete_example :
    get_or "other" [] (aggregate_gaps two_gaps)
    ≡ map
        (λ (e : CapabilityGapEvent). e.gen_id)
        (filter (λ (e : CapabilityGapEvent). str_eq (category_value e.missing) "other") two_gaps)
aggregate_gaps_complete_example = aggregate_gaps_complete "other" two_gaps
