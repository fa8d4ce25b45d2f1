-- ===== src/Derive/Bounds.antt =====
-- On a ledger that validates every open and unapplied amount lies between zero and the document's.
use max_ed.Base.Int.{ℤ, pos, sub_ℕ}
use max_ed.Contracts.{Payment, CreditMemo, Ledger}
use max_ed.Base.{
  ℕ, ◌-◌, ◌≤◌, ◌≡◌, List, [], ◌∷◌, map, arith, le→leb, All, All-append, Result, ok, All-map,
}
use max_ed.Derive.{
  payment, credit_memo, source_doc_id, source_doc_amount, source_docs, open_amount,
  applied_from_source, unapplied_amount,
}
use max_ed.Derive.Balance.{IsSound, validate_ledger-IsSound}
use max_ed.Derive.Totals.{open_amounts, unapplied_amounts}
use max_ed.Derive.Validate.{validate_ledger}

-- An amount that some call returned, within a document's.
abbrev pub Within : Result ℤ → ℕ → Type 0
Within r limit = (n : ℕ) × (r ≡ ok (pos n)) × (n ≤ limit)

Within-sub : (r : Result ℤ) (a b : ℕ) → r ≡ ok (sub_ℕ a b) → b ≤ a → Within r a
Within-sub r a b e h = (a - b, rw (e, le→leb b a h), omega arith)

pub All-both {ℓ} :
    {A : Type ℓ} (P Q : A → Type 0) (xs : List A) → All P xs → All Q xs → All (λ x. P x × Q x) xs
All-both P Q [] h k = tt
All-both P Q (x ∷ xs) h k = ((h.0, k.0), All-both P Q xs h.1 k.1)

sources_covered :
    (l : Ledger)
    → IsSound l
    → All (λ d. applied_from_source l (source_doc_id d) ≤ source_doc_amount d) (source_docs l)
sources_covered l s =
    All-append _ (map payment l.payments) (map credit_memo l.credit_memos)
      (map_payments l.payments s.payments_covered) (map_credits l.credit_memos s.credits_covered)
  where
    map_payments :
        (ps : List Payment)
        → All (λ (p : Payment). applied_from_source l p.id ≤ p.amount_cents) ps
        → All (λ d. applied_from_source l (source_doc_id d) ≤ source_doc_amount d) (map payment ps)
    map_payments [] h = tt
    map_payments (p ∷ ps) h = (h.0, map_payments ps h.1)

    map_credits :
        (cs : List CreditMemo)
        → All (λ (c : CreditMemo). applied_from_source l c.id ≤ c.amount_cents) cs
        → All
            (λ d. applied_from_source l (source_doc_id d) ≤ source_doc_amount d)
            (map credit_memo cs)
    map_credits [] h = tt
    map_credits (c ∷ cs) h = (h.0, map_credits cs h.1)

-- On a ledger that validates no lookup of its own documents raises, and no document is applied past
-- its amount: the open amount of each invoice and the unapplied amount of each payment and credit
-- memo is zero or more and at most the document's amount.
pub amounts-Within :
    (l : Ledger)
    → validate_ledger l ≡ []
    → All (λ i. Within (open_amount l i.id) i.amount_cents) l.invoices
      × All
          (λ d. Within (unapplied_amount l (source_doc_id d)) (source_doc_amount d))
          (source_docs l)
amounts-Within l h =
    let s = validate_ledger-IsSound l h in
    (
      All-map _ _ l.invoices (λ i k. Within-sub _ _ _ k.0 k.1)
          (All-both _ _ l.invoices (open_amounts l s) s.invoices_covered),
      All-map _ _ (source_docs l) (λ d k. Within-sub _ _ _ k.0 k.1)
          (All-both _ _ (source_docs l) (unapplied_amounts l s) (sources_covered l s)),
    )
