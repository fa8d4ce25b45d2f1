-- ===== src/Surface/Tests.antt =====
-- Runs of the extractor, and its theorems at a draft.
use max_ed.Surface.Extract.{
  candidates_of, claims_from, claim_of, subjects_of, padded, detect_all, extract_claims,
}
use max_ed.Surface.Detect.{
  detect_in_sentence, exist_candidates, amount_candidate, date_candidate, date_subjects,
  status_candidates, status_candidate, status_hits, fuzzy_candidates, fuzzy_of, candidate,
  unresolved,
}
use max_ed.Surface.{
  id_mentions, claim_interval, preceding_doc, following_doc, nearest_doc, canonical_prefix_id,
  canonical_loose_id, explicit_doc_id, loose_doc_id, loose_prefix, letters_of, split_sentences,
}
use max_ed.Surface.Spans.{
  amount_spans, date_spans, claim_dates, claim_patterns, claim_matches, claim_match,
  classify_amount, read_signs, choose_referent, subtotal_ids, mentioned_invoices, role_distance,
  amount_patterns, claim_amounts,
}
use max_ed.Surface.Patterns.{
  date_patterns, sentence_split_re, currency_dollar_re, currency_suffix_re, currency_prefix_re,
  word_amount_re, percent_re, fraction_re, bare_grouped_re, bare_decimal_re, explicit_arg_re,
  explicit_id_re, loose_arg_re, loose_kind_re, loose_id_re,
}
use max_ed.Dates.Token.{iso_date_re, month_date_re, slash_date_re, month_re}
use max_ed.Surface.Phrases.{
  status_re, status_paraphrase_re, fuzzy_re, sum_context_re, total_marker_re, subtotal_cue_re,
  balance_object_re, role_original_re, role_applied_re, role_open_re, decomposition_re,
}
use max_ed.Regex.Find.{find_from, first_match, split, split_from, find_iter}
use max_ed.Regex.Strip.{
  upper, slice, strip, strip_by, strip_left, remove_char, split_words, same_word,
}
use max_ed.Money.{decimal}
use max_ed.Amounts.{
  parse_amount_token, digit_amount_full_re, currency_marker_re, percent_word_re, fraction_word_re,
}
use max_ed.Money.Parse.{parse_dollars}
use max_ed.Amounts.Words.{words_to_dollars}
use max_ed.Regex.{full_match, search_in, match_at, sub_space, of_chars, chars}
use max_ed.Derive.{document_ids}
use max_ed.Base.{String, ◌≡◌, refl, List, [], ◌∷◌, map, All, concat, Any}
use max_ed.Contracts.{ClaimType, c_exist, c_amt, c_sum, c_status, c_date, c_fuzzy, Claim}
use max_ed.Derive.Tests.{sample}
use max_ed.Surface.Amounts.{ClaimsAmount, extract_claims-amounts}
use max_ed.Surface.Coverage.{amount_spans-Meets}
use max_ed.Surface.Covers.{Reports}
use max_ed.Surface.Intervals.{Apart, Meets}
use max_ed.Surface.Numbering.{ids_from, DistinctDocs, extract_claims-Numbered}
use max_ed.Surface.Recall.{extract_claims-Reports, extract_claims-Settled}
use max_ed.Surface.Settled.{Settled}

-- An identifier with other zeros, a date, a total, a percentage, and a paraphrase of "paid".
abbrev draft : String
draft =
    "INV-1 is open for $200.00 and invoice 0002 was issued on 2026-03-31. Your balance due is $250.00, about 50% of the total.\nNothing further is owed on PMT-1. See Invoice No. 7, inv 1."

-- What a claim is about.
abbrev about : Claim → ClaimType × String × List String × String
about k = (k.claim_type, k.token, k.subject_ids, k.role)

draft_claims :
    map about (extract_claims "c" draft sample)
    ≡ (c_exist, "INV-1", [], "")
      ∷ (c_amt, "$200.00", "INV-1" ∷ [], "open")
      ∷ (c_exist, "INV-2", [], "")
      ∷ (c_date, "2026-03-31", "INV-2" ∷ [], "")
      ∷ (c_sum, "$250.00", [], "total")
      ∷ (c_sum, "50%", [], "total")
      ∷ (c_status, "paid", "PMT-1" ∷ [], "")
      ∷ (c_fuzzy, "", [], "")
      ∷ (c_exist, "PMT-1", [], "")
      ∷ (c_exist, "INV-7", [], "")
      ∷ []
unfolding extract_claims candidates_of claims_from detect_all detect_in_sentence split_sentences
    id_mentions amount_spans date_spans claim_amounts claim_dates claim_patterns claim_matches
    claim_match claim_interval amount_patterns date_patterns classify_amount read_signs
    choose_referent subtotal_ids mentioned_invoices role_distance preceding_doc following_doc
    nearest_doc exist_candidates amount_candidate date_candidate date_subjects status_candidates
    status_candidate status_hits fuzzy_candidates fuzzy_of candidate unresolved claim_of subjects_of
    padded canonical_prefix_id canonical_loose_id explicit_doc_id loose_doc_id loose_prefix
    letters_of sentence_split_re currency_dollar_re currency_suffix_re currency_prefix_re
    word_amount_re percent_re fraction_re bare_grouped_re bare_decimal_re explicit_arg_re
    explicit_id_re loose_arg_re loose_kind_re loose_id_re iso_date_re month_date_re slash_date_re
    month_re status_re status_paraphrase_re fuzzy_re sum_context_re total_marker_re subtotal_cue_re
    balance_object_re role_original_re role_applied_re role_open_re decomposition_re find_iter
    find_from first_match split split_from upper slice decimal parse_amount_token parse_dollars
    words_to_dollars full_match search_in match_at sub_space of_chars strip strip_by strip_left
    remove_char digit_amount_full_re currency_marker_re percent_word_re fraction_word_re
    document_ids concat split_words same_word
draft_claims = refl

-- Number words resolve, a fraction does not, and a date is no amount.
worded_claims :
    map about (
      extract_claims "c"
        "We received twelve hundred dollars on 3/31/2026. Half of the balance, 9,999 and USD 350 remain."
        sample)
    ≡ (c_amt, "twelve hundred dollars", [], "")
      ∷ (c_date, "3/31/2026", [], "")
      ∷ (c_sum, "Half of the balance", [], "total")
      ∷ (c_amt, "9,999", [], "")
      ∷ (c_amt, "USD 350", [], "")
      ∷ []
unfolding extract_claims candidates_of claims_from detect_all detect_in_sentence split_sentences
    id_mentions amount_spans date_spans claim_amounts claim_dates claim_patterns claim_matches
    claim_match claim_interval amount_patterns date_patterns classify_amount read_signs
    choose_referent subtotal_ids mentioned_invoices role_distance preceding_doc following_doc
    nearest_doc exist_candidates amount_candidate date_candidate date_subjects status_candidates
    status_candidate status_hits fuzzy_candidates fuzzy_of candidate unresolved claim_of subjects_of
    padded canonical_prefix_id canonical_loose_id explicit_doc_id loose_doc_id loose_prefix
    letters_of sentence_split_re currency_dollar_re currency_suffix_re currency_prefix_re
    word_amount_re percent_re fraction_re bare_grouped_re bare_decimal_re explicit_arg_re
    explicit_id_re loose_arg_re loose_kind_re loose_id_re iso_date_re month_date_re slash_date_re
    month_re status_re status_paraphrase_re fuzzy_re sum_context_re total_marker_re subtotal_cue_re
    balance_object_re role_original_re role_applied_re role_open_re decomposition_re find_iter
    find_from first_match split split_from upper slice decimal parse_amount_token parse_dollars
    words_to_dollars full_match search_in match_at sub_space of_chars strip strip_by strip_left
    remove_char digit_amount_full_re currency_marker_re percent_word_re fraction_word_re
    document_ids concat split_words same_word
worded_claims = refl

extract_claims-Reports_example :
    All
      (λ c. Any (Reports c) (extract_claims "c" draft sample))
      (detect_all 0 (split_sentences (chars draft)) sample)
extract_claims-Reports_example = extract_claims-Reports "c" draft sample

extract_claims-Settled_example :
    All (λ k. Settled k.claim_type k.token k.check_result) (extract_claims "c" draft sample)
extract_claims-Settled_example = extract_claims-Settled "c" draft sample

extract_claims-Numbered_example :
    (map (λ (k : Claim). k.claim_id) (extract_claims "c" draft sample)
      ≡ ids_from "c" 1 (extract_claims "c" draft sample))
    × DistinctDocs (extract_claims "c" draft sample)
extract_claims-Numbered_example = extract_claims-Numbered "c" draft sample

amount_spans-Meets_example :
    All
      (λ (r, kind).
        All (λ m. Any (Meets m) (claim_amounts (chars draft)).1) (find_iter r (chars draft)))
      amount_patterns
    × Apart (claim_amounts (chars draft)).1
amount_spans-Meets_example = amount_spans-Meets (chars draft)

extract_claims-amounts_example :
    All
      (λ t.
        All
          (λ (r, kind).
            All
              (λ m.
                Any
                  (λ s. Meets m s × Any (ClaimsAmount t s) (extract_claims "c" draft sample))
                  (claim_amounts t).1)
              (find_iter r t))
          amount_patterns)
      (split_sentences (chars draft))
extract_claims-amounts_example = extract_claims-amounts "c" draft sample
