-- ===== src/Oracle/Tests.antt =====
-- The oracle on the small ledger: its figures, its score of a draft, and the theorem at it.
use max_ed.Base.{
  zero, suc, length, ◌+◌, All, ◌≡◌, refl, [], ◌∷◌, ok, ℕ, List, arith, raise, value_error,
}
use max_ed.Oracle.Grounding.{
  OracleScore, amount_token_re, id_token_re, oracle_split_re, score_amounts, score_ids,
  score_sentences, verifies, id_token, amount_token, oracle_grounding, parse_cents, sentences,
}
use max_ed.Oracle.Readable.{Readable}
use Prim.Native.Char.{Char}
use max_ed.Money.Parse.{read_int, int_of, split_point, starts_with_minus}
use max_ed.Oracle.Total.{amounts_in, oracle_grounding-returns}
use max_ed.Derive.{
  source_docs, source_doc_id, open_amount, unapplied_amount, open_invoice_total,
  unapplied_cash_total, unapplied_credit_total, net_balance,
}
use max_ed.Oracle.Agrees.{at, replayed_totals-derived}
use max_ed.Oracle.{
  add_figures, deduct, figures_of, note_originals, originals, truth_sets, open_by_invoice,
  unapplied_by_source, replayed_totals, document_figures,
}
use max_ed.Derive.Naive.{fill}
use max_ed.Base.Int.{sum_ℤ, ◌+ℤ◌, ◌-ℤ◌, pos}
use max_ed.Regex.{of_chars, match_at, chars}
use max_ed.Regex.Strip.{strip, strip_by, strip_left, remove_char}
use max_ed.Regex.Find.{find_iter, find_from, split, split_from}
use max_ed.Derive.Tests.{sample, sample_valid}

tokens_parsed :
    (parse_cents (chars "$1,250.00") ≡ ok (pos 125000))
    × (parse_cents (chars "$35") ≡ ok (pos 3500))
    × (parse_cents (chars "$7.5") ≡ ok (pos 750))
unfolding add_figures amount_token_re deduct document_figures figures_of id_token_re note_originals
    open_by_invoice oracle_grounding oracle_split_re originals parse_cents replayed_totals
    score_amounts score_ids score_sentences sentences truth_sets unapplied_by_source verifies fill
    sum_ℤ ◌+ℤ◌ ◌-ℤ◌ chars of_chars strip strip_by strip_left remove_char find_iter find_from split
    split_from split_point starts_with_minus match_at
tokens_parsed = (refl, refl, refl)

-- An amount of another invoice does not verify, nor does an unknown identifier.
draft_scored :
    oracle_grounding "You owe $250.00. INV-1 is open for $200.00. INV-2 is open for $300.00. INV-9?"
      sample
    ≡ ok (record {
      verified = 4;
      total = 6;
      unmatched = ("$300.00", amount_token) ∷ ("INV-9", id_token) ∷ [];
    })
unfolding add_figures amount_token_re deduct document_figures figures_of id_token_re note_originals
    open_by_invoice oracle_grounding oracle_split_re originals parse_cents replayed_totals
    score_amounts score_ids score_sentences sentences truth_sets unapplied_by_source verifies fill
    sum_ℤ ◌+ℤ◌ ◌-ℤ◌ chars of_chars strip strip_by strip_left remove_char find_iter find_from split
    split_from split_point starts_with_minus match_at
draft_scored = refl

replayed_totals-derived_example :
    All (λ i. open_amount sample i.id ≡ ok (at i.id (open_by_invoice sample))) sample.invoices
    × All
        (λ d.
          unapplied_amount sample (source_doc_id d)
          ≡ ok (at (source_doc_id d) (unapplied_by_source sample)))
        (source_docs sample)
    × (open_invoice_total sample ≡ ok (replayed_totals sample).open_invoice_total)
    × (unapplied_cash_total sample ≡ ok (replayed_totals sample).unapplied_cash_total)
    × (unapplied_credit_total sample ≡ ok (replayed_totals sample).unapplied_credit_total)
    × (net_balance sample ≡ ok (replayed_totals sample).net_balance)
replayed_totals-derived_example = replayed_totals-derived sample sample_valid

short_tokens :
    All
      (λ t. Readable (find_iter amount_token_re t))
      (sentences (chars "You owe $250.00 on INV-1. It is late."))
unfolding sentences amount_token_re oracle_split_re chars of_chars strip strip_by strip_left
    find_iter find_from split split_from match_at
short_tokens = ((omega arith, tt), (tt, tt))

oracle_grounding-returns_example :
    (s : OracleScore) × (oracle_grounding "You owe $250.00 on INV-1. It is late." sample ≡ ok s)
    × (s.verified + length s.unmatched ≡ s.total)
    × (s.total
        ≡ amounts_in (sentences (chars "You owe $250.00 on INV-1. It is late."))
          + length (find_iter id_token_re (chars "You owe $250.00 on INV-1. It is late.")))
oracle_grounding-returns_example =
    oracle_grounding-returns "You owe $250.00 on INV-1. It is late." sample short_tokens

-- One digit more than `int` takes.
abbrev digits : ℕ → List Char
digits zero = []
digits (suc n) = "1" ∷ digits n

too_long :
    (read_int (digits 4300) ≡ ok (int_of (digits 4300)))
    × (read_int (digits 4301)
        ≡ raise (value_error "Exceeds the limit for integer string conversion"))
too_long = (refl, refl)
