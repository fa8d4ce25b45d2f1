-- ===== src/Derive/Tests.antt =====
-- A small ledger, runs of the derivations on it, and the theorems at it.
use max_ed.Derive.{
  source_doc_id, source_doc_amount, source_docs, invoice, source, open_amount, unapplied_amount,
  applied_to_invoice, applied_from_source, invoice_status, open_invoice_total, unapplied_cash_total,
  unapplied_credit_total, net_balance, document_ids,
}
use max_ed.Derive.Allocations.{IsAmbiguous, ambiguous_allocations-IsAmbiguous}
use max_ed.Derive.Ambiguity.{ambiguous_allocations, ambiguous_from, matching_invoices}
use max_ed.Derive.Bounds.{Within, amounts-Within}
use max_ed.Base.Int.{ℤ, pos, ◌+ℤ◌, ◌-ℤ◌, sum_ℤ}
use max_ed.Contracts.{Invoice, pool_a, Ledger, outstanding, overdue}
use max_ed.Base.{◌≡◌, refl, [], ◌∷◌, All, ok}
use max_ed.Derive.Naive.{recompute_net_balance_naive}
use max_ed.Derive.Recompute.{net_balance_conservation, recompute-net_balance}
use max_ed.Derive.Validate.{problem_if, problems_of, validate_ledger}

-- Two invoices, a payment that is applied in part, and an open credit memo.
abbrev pub sample : Ledger
sample = record {
  scenario_id = "S-A-01";
  pool = pool_a;
  labels = [];
  client = record { id = "C-1"; name = "Acme"; terms_days = 30; as_of = 1000 };
  invoices =
      record { id = "INV-1"; date = 900; due = 930; amount_cents = 50000; memo = "" }
      ∷ record { id = "INV-2"; date = 980; due = 1010; amount_cents = 20000; memo = "" }
      ∷ [];
  payments =
      record { id = "PMT-1"; date = 950; amount_cents = 40000; method = "ach"; reference = "" }
      ∷ [];
  credit_memos = record { id = "CM-1"; date = 960; amount_cents = 5000; reason = "" } ∷ [];
  applications =
      record { source_id = "PMT-1"; target_invoice = "INV-1"; amount_cents = 30000 } ∷ [];
}

pub sample_valid : validate_ledger sample ≡ []
unfolding validate_ledger problem_if problems_of document_ids applied_to_invoice applied_from_source
sample_valid = refl

sample_net : net_balance sample ≡ ok (pos 25000)
unfolding net_balance open_invoice_total unapplied_cash_total unapplied_credit_total open_amount
    unapplied_amount invoice source applied_to_invoice applied_from_source sum_ℤ ◌+ℤ◌ ◌-ℤ◌
sample_net = refl

sample_naive : recompute_net_balance_naive sample ≡ ok (pos 25000)
unfolding recompute_net_balance_naive sum_ℤ ◌+ℤ◌ ◌-ℤ◌
sample_naive = refl

sample_status :
    (invoice_status sample "INV-1" ≡ ok overdue) × (invoice_status sample "INV-2" ≡ ok outstanding)
unfolding invoice_status open_amount invoice applied_to_invoice
sample_status = (refl, refl)

net_balance_conservation_example : net_balance sample ≡ ok (pos 25000)
net_balance_conservation_example = net_balance_conservation sample sample_valid

recompute-net_balance_example :
    (net : ℤ) × (net_balance sample ≡ ok net) × (recompute_net_balance_naive sample ≡ ok net)
recompute-net_balance_example = recompute-net_balance sample sample_valid

amounts-Within_example :
    All (λ (i : Invoice). Within (open_amount sample i.id) i.amount_cents) sample.invoices
    × All
        (λ d. Within (unapplied_amount sample (source_doc_id d)) (source_doc_amount d))
        (source_docs sample)
amounts-Within_example = amounts-Within sample sample_valid

-- A payment that could be for either of two invoices.
abbrev twin : Ledger
twin = record sample {
  invoices =
      record { id = "INV-1"; date = 900; due = 930; amount_cents = 40000; memo = "" }
      ∷ record { id = "INV-2"; date = 980; due = 1010; amount_cents = 40000; memo = "" }
      ∷ [];
  applications = [];
}

twin_ambiguous : ambiguous_allocations twin ≡ ok (("PMT-1", "INV-1" ∷ "INV-2" ∷ []) ∷ [])
unfolding ambiguous_allocations ambiguous_from matching_invoices open_amount unapplied_amount
    invoice source applied_to_invoice applied_from_source
twin_ambiguous = refl

ambiguous_allocations-IsAmbiguous_example :
    All (IsAmbiguous twin) (("PMT-1", "INV-1" ∷ "INV-2" ∷ []) ∷ [])
ambiguous_allocations-IsAmbiguous_example =
    ambiguous_allocations-IsAmbiguous twin (("PMT-1", "INV-1" ∷ "INV-2" ∷ []) ∷ []) twin_ambiguous
