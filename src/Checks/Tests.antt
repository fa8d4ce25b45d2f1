-- ===== src/Checks/Tests.antt =====
-- Runs of the checks, and the theorems on their verdicts at them.
use max_ed.Checks.Registry.{
  check_all, run_code_checks, run_fuzzy_checks, code_step, fuzzy_step, code_check, with_result,
}
use max_ed.Checks.{check_exist, parse_claim_amount, find_document, check_result, net_label}
use max_ed.Checks.Total.{check_sum, check_account_total}
use max_ed.Amounts.{
  parse_amount_token, digit_amount_full_re, currency_marker_re, percent_word_re, fraction_word_re,
}
use max_ed.Money.Parse.{parse_dollars}
use max_ed.Derive.{
  net_balance, open_invoice_total, unapplied_cash_total, unapplied_credit_total, open_amount,
  unapplied_amount, invoice, source, applied_to_invoice, applied_from_source, document_ids,
}
use max_ed.Money.{render, grouped}
use max_ed.Regex.{chars, full_match, search_in, of_chars, match_at, sub_space}
use max_ed.Regex.Strip.{strip, strip_by, strip_left, remove_char}
use max_ed.Base.{
  ◌≡◌, refl, true, false, none, some, List, [], ◌∷◌, is_empty, All, concat, contains, ok, All₂,
}
use max_ed.Checks.Fuzzy.{
  check_fuzzy, judge_text, judge_verdict, verdict_status, settle_verdict, Response,
}
use max_ed.Contracts.{c_sum, c_fuzzy, pass, CheckResult, Claim}
use max_ed.Base.Int.{ℤ, ◌+ℤ◌, ◌-ℤ◌, sum_ℤ}
use max_ed.Checks.Frame.{Checked, check_all-Checked}
use max_ed.Checks.Support.{Figure, check_sum-Figure, check_fuzzy-Cited}
use max_ed.Derive.Tests.{sample}

abbrev total_claim : Claim
total_claim = record {
  claim_id = "c1";
  claim_type = c_sum;
  span = "Your balance is $250.00.";
  token = "$250.00";
  check_result = none;
  subject_ids = [];
  role = "";
  subject_id = "";
}

abbrev total_verdict : CheckResult
total_verdict = check_result pass "$250.00" "$250.00" (net_label ∷ []) ""

total_passes : check_sum total_claim sample ≡ ok total_verdict
unfolding check_all run_code_checks run_fuzzy_checks code_step fuzzy_step code_check check_exist
    check_sum parse_claim_amount parse_amount_token parse_dollars check_account_total net_balance
    open_invoice_total unapplied_cash_total unapplied_credit_total open_amount unapplied_amount
    invoice source applied_to_invoice applied_from_source document_ids find_document render grouped
    chars full_match search_in strip strip_by strip_left remove_char digit_amount_full_re
    currency_marker_re percent_word_re fraction_word_re concat check_fuzzy judge_text judge_verdict
    verdict_status settle_verdict of_chars match_at sub_space ◌-ℤ◌ sum_ℤ ◌+ℤ◌
total_passes = refl

check_sum-Figure_example :
    (z : ℤ) × (parse_claim_amount total_claim.token ≡ ok z) × Figure total_claim sample z
check_sum-Figure_example = check_sum-Figure total_claim sample total_verdict total_passes refl

abbrev note_claim : Claim
note_claim = record total_claim { claim_type = c_fuzzy; token = "" }

abbrev supported : Response
supported = record {
  succeeded = true;
  parsed =
      some
        (record { verdict = some "supported"; cited_record_ids = "PMT-1" ∷ []; reason = "paid" });
  error = "";
}

abbrev note_verdict : CheckResult
note_verdict = check_result pass "" "Your balance is $250.00." ("PMT-1" ∷ []) "paid"

note_passes : check_fuzzy note_claim sample supported ≡ ok note_verdict
unfolding check_fuzzy judge_text judge_verdict verdict_status settle_verdict document_ids
note_passes = refl

check_fuzzy-Cited_example :
    (is_empty note_verdict.cited_records ≡ false)
    × All (λ k. contains k (document_ids sample) ≡ true) note_verdict.cited_records
check_fuzzy-Cited_example =
    check_fuzzy-Cited note_claim sample supported note_verdict note_passes refl

abbrev two_claims : List Claim
two_claims = total_claim ∷ note_claim ∷ []

abbrev two_checked : List Claim
two_checked = with_result total_claim total_verdict ∷ with_result note_claim note_verdict ∷ []

two_run : check_all (λ c. supported) sample two_claims ≡ ok two_checked
unfolding check_all run_code_checks run_fuzzy_checks code_step fuzzy_step code_check check_exist
    check_sum parse_claim_amount parse_amount_token parse_dollars check_account_total net_balance
    open_invoice_total unapplied_cash_total unapplied_credit_total open_amount unapplied_amount
    invoice source applied_to_invoice applied_from_source document_ids find_document render grouped
    chars full_match search_in strip strip_by strip_left remove_char digit_amount_full_re
    currency_marker_re percent_word_re fraction_word_re concat check_fuzzy judge_text judge_verdict
    verdict_status settle_verdict of_chars match_at sub_space ◌-ℤ◌ sum_ℤ ◌+ℤ◌
two_run = refl

check_all-Checked_example : All₂ Checked two_claims two_checked
check_all-Checked_example = check_all-Checked (λ c. supported) sample two_claims two_checked two_run
