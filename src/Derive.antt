-- ===== src/Derive.antt =====
-- Derived ledger truth, balancecheck/substrate/derive.py: lookups, open and unapplied amounts, totals.
pub mod Ambiguity
pub mod Allocations
pub mod Structures
pub mod Validate
pub mod Naive
pub mod Sums
pub mod Unique
pub mod Balance
pub mod Totals
pub mod Bounds
pub mod Recompute
pub mod Tests
use max_ed.Base.Int.{ℤ, pos, sub_ℕ, ◌-ℤ◌, eqb_ℤ, sum_ℤ}
use max_ed.Contracts.{
  Date, Invoice, Payment, CreditMemo, Ledger, InvoiceStatus, paid, outstanding, overdue,
}
use max_ed.Base.{
  ℕ, ◌+◌, String, none, some, List, [], ◌∷◌, ◌++◌, map, str_eq, ltb, if◌then◌else◌, find, sum_where,
  concat, dedup, key_error, Result, ok, raise, ◌>>=◌, or_raise, traverse,
}

-- `_source` returns a payment or a credit memo.
pub data SourceDoc : Type 0 where
  payment : Payment → SourceDoc
  credit_memo : CreditMemo → SourceDoc

abbrev pub source_doc_id : SourceDoc → String
source_doc_id (payment p) = p.id
source_doc_id (credit_memo c) = c.id

abbrev pub source_doc_amount : SourceDoc → ℕ
source_doc_amount (payment p) = p.amount_cents
source_doc_amount (credit_memo c) = c.amount_cents

abbrev pub source_doc_date : SourceDoc → Date
source_doc_date (payment p) = p.date
source_doc_date (credit_memo c) = c.date

-- `list(ledger.payments) + list(ledger.credit_memos)`
abbrev pub source_docs : Ledger → List SourceDoc
source_docs l = map payment l.payments ++ map credit_memo l.credit_memos

unfoldable pub invoice : Ledger → String → Result Invoice
invoice l invoice_id =
    or_raise (find (λ i. str_eq i.id invoice_id) l.invoices)
      (key_error (concat ("no invoice " ∷ invoice_id ∷ " in " ∷ l.scenario_id ∷ [])))

unfoldable pub source : Ledger → String → Result SourceDoc
source l source_id = elim (find (λ p. str_eq p.id source_id) l.payments) [
  | some p ↦ ok (payment p)
  | none ↦ elim (find (λ c. str_eq c.id source_id) l.credit_memos) [
    | some c ↦ ok (credit_memo c)
    | none ↦ raise (
        key_error (concat ("no payment or credit memo " ∷ source_id ∷ " in " ∷ l.scenario_id ∷ [])))
  ]
]

unfoldable pub applied_to_invoice : Ledger → String → ℕ
applied_to_invoice l invoice_id =
    sum_where (λ a. str_eq a.target_invoice invoice_id) (λ a. a.amount_cents) l.applications

unfoldable pub open_amount : Ledger → String → Result ℤ
open_amount l invoice_id = do
  inv ← invoice l invoice_id
  ok (sub_ℕ inv.amount_cents (applied_to_invoice l invoice_id))

unfoldable pub applied_from_source : Ledger → String → ℕ
applied_from_source l source_id =
    sum_where (λ a. str_eq a.source_id source_id) (λ a. a.amount_cents) l.applications

unfoldable pub unapplied_amount : Ledger → String → Result ℤ
unapplied_amount l source_id = do
  doc ← source l source_id
  ok (sub_ℕ (source_doc_amount doc) (applied_from_source l source_id))

unfoldable pub invoice_status : Ledger → String → Result InvoiceStatus
invoice_status l invoice_id = do
  inv ← invoice l invoice_id
  amount ← open_amount l invoice_id
  ok (
      if eqb_ℤ amount (pos 0)
      then paid
      else if ltb inv.due l.client.as_of
      then overdue
      else outstanding)

-- `sum(f(x) for x in xs)` where the summand may raise.
abbrev pub total_of {ℓ} : {A : Type ℓ} → (A → Result ℤ) → List A → Result ℤ
total_of f xs = do amounts ← traverse f xs; ok (sum_ℤ amounts)

unfoldable pub open_invoice_total : Ledger → Result ℤ
open_invoice_total l = total_of (λ i. open_amount l i.id) l.invoices

unfoldable pub unapplied_cash_total : Ledger → Result ℤ
unapplied_cash_total l = total_of (λ p. unapplied_amount l p.id) l.payments

unfoldable pub unapplied_credit_total : Ledger → Result ℤ
unapplied_credit_total l = total_of (λ c. unapplied_amount l c.id) l.credit_memos

unfoldable pub net_balance : Ledger → Result ℤ
net_balance l = do
  open_total ← open_invoice_total l
  cash ← unapplied_cash_total l
  credit ← unapplied_credit_total l
  ok (open_total -ℤ cash -ℤ credit)

-- `document_ids`, the union of three sets.
unfoldable pub document_ids : Ledger → List String
document_ids l =
    dedup
      (map (λ i. i.id) l.invoices ++ (map (λ p. p.id) l.payments ++ map (λ c. c.id) l.credit_memos))
