-- ===== src/Drafter/Block.antt =====
-- The ledger block of a ledger that validates: it exists, and states the net of the naive replay.
use mathlib.Core.List.{append_assoc}
use max_ed.Base.{
  OkWith-ok, traverse-returns, String, ◌≡◌, refl, List, [], ◌∷◌, ◌++◌, map, All, join, Result, ok,
  All-map, All-append_split, All-of_map, OkWith,
}
use max_ed.Base.Int.{ℤ}
use max_ed.Contracts.{Payment, CreditMemo, Ledger}
use max_ed.Derive.{
  payment, credit_memo, source_doc_id, invoice, open_amount, unapplied_amount, invoice_status,
}
use max_ed.Derive.Balance.{IsSound, validate_ledger-IsSound}
use max_ed.Derive.Naive.{recompute_net_balance_naive}
use max_ed.Derive.Recompute.{recompute-net_balance}
use max_ed.Derive.Totals.{
  unapplied_of, open_sum, cash_sum, credit_sum, unapplied_amounts, open_invoice_total-eq,
  unapplied_cash_total-eq, unapplied_credit_total-eq,
}
use max_ed.Derive.Unique.{UniqueKeys-FindsSelf}
use max_ed.Derive.Validate.{validate_ledger}
use max_ed.Drafter.{invoice_line, source_line, record_lines, render_ledger_block, total_line}

abbrev Returns {ℓ} : {A : Type ℓ} → Result A → Type ℓ
Returns {A = A} m = (a : A) × (m ≡ ok a)

returns {ℓ} : {A : Type ℓ} (m : Result A) → OkWith (λ a. Unit {0}) m → Returns m
returns m h = let (a, e, _) = OkWith-ok (λ a. Unit {0}) m h in (a, e)

invoice_lines : (l : Ledger) → IsSound l → All (λ i. Returns (invoice_line l i)) l.invoices
unfolding invoice_line invoice_status open_amount invoice
invoice_lines l s =
    All-map _ _ l.invoices (λ i e. returns (invoice_line l i) (rw e tt))
      (UniqueKeys-FindsSelf (λ i. i.id) l.invoices s.invoice_keys)

source_lines :
    (l : Ledger)
    → IsSound l
    → All (λ p. Returns (source_line l p.id p.date p.amount_cents)) l.payments
      × All (λ c. Returns (source_line l c.id c.date c.amount_cents)) l.credit_memos
unfolding source_line
source_lines l s =
    let (in_cash, on_credit) =
      All-append_split (λ d. unapplied_amount l (source_doc_id d) ≡ ok (unapplied_of l d))
        (map payment l.payments) (map credit_memo l.credit_memos) (unapplied_amounts l s) in
    (
      All-map _ _ l.payments (λ p e. returns (source_line l p.id p.date p.amount_cents) (rw e tt))
          (All-of_map _ payment l.payments in_cash),
      All-map _ _ l.credit_memos
          (λ c e. returns (source_line l c.id c.date c.amount_cents) (rw e tt))
          (All-of_map _ credit_memo l.credit_memos on_credit),
    )

record_lines-Returns : (l : Ledger) → IsSound l → Returns (record_lines l)
unfolding record_lines
record_lines-Returns l s =
    let (invs, e₁) = traverse-returns (invoice_line l) l.invoices (invoice_lines l s) in
    let (pays, e₂) =
      traverse-returns (λ (p : Payment). source_line l p.id p.date p.amount_cents) l.payments
        (source_lines l s).0 in
    let (creds, e₃) =
      traverse-returns (λ (c : CreditMemo). source_line l c.id c.date c.amount_cents) l.credit_memos
        (source_lines l s).1 in
    returns (record_lines l) (rw (e₁, e₂, e₃) tt)

-- The block of a ledger that validates exists, and its last line states the net balance that the naive
-- replay of the records gives.
pub render_ledger_block-states_net :
    (l : Ledger)
    → validate_ledger l ≡ []
    → (net : ℤ) × (lines : List String) × (recompute_net_balance_naive l ≡ ok net)
      × (render_ledger_block l ≡ ok (join "\n" (lines ++ (total_line "NET BALANCE DUE" net ∷ []))))
unfolding render_ledger_block
render_ledger_block-states_net l valid =
    let s = validate_ledger-IsSound l valid in
    let (net, derived, replayed) = recompute-net_balance l valid in
    let (lines, e) = record_lines-Returns l s in
    let totals : List String =
      "TOTALS:"
      ∷ total_line "open invoice total" (open_sum l)
      ∷ total_line "unapplied cash total" (cash_sum l)
      ∷ total_line "unapplied credit total" (credit_sum l)
      ∷ [] in
    (
      net,
      lines ++ totals,
      replayed,
      rw
          (
            e,
            derived,
            open_invoice_total-eq l s,
            unapplied_cash_total-eq l s,
            unapplied_credit_total-eq l s,
            append_assoc lines totals (total_line "NET BALANCE DUE" net ∷ []),
          )
          refl,
    )
