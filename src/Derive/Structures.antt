-- ===== src/Derive/Structures.antt =====
-- `signature` of balancecheck/substrate/derive.py: the structures that the records show.
use max_ed.Base.Int.{pos, ltb_ℤ}
use max_ed.Contracts.{Date, Invoice, Payment, CreditMemo, Signature, Ledger}
use max_ed.Base.{
  ℕ, ◌-◌, String, Bool, true, false, not, ◌&&◌, ◌||◌, List, [], ◌∷◌, map, ltb, leb, ◌==◌,
  if◌then◌else◌, length, any, is_empty, dedup_by, overflow_error, Result, ok, raise, ◌>>=◌,
}
use max_ed.Derive.{applied_to_invoice, unapplied_amount}
use max_ed.Derive.Ambiguity.{ambiguous_allocations}

abbrev pub cutoff_window_days : ℕ
cutoff_window_days = 5

-- `date - timedelta(days)`: a result before the first ordinal overflows.
unfoldable pub sub_days : Date → ℕ → Result Date
sub_days date days =
    if leb date days then raise (overflow_error "date value out of range") else ok (date - days)

-- `any` over a test that may raise; it stops at the first hit.
abbrev pub any_result {ℓ} : {A : Type ℓ} → (A → Result Bool) → List A → Result Bool
any_result p [] = ok false
any_result p (x ∷ xs) = let rest = any_result p xs in p x >>= λ hit. if hit then ok true else rest

-- `unapplied_amount(ledger, id) > 0`
unfoldable pub has_unapplied : Ledger → String → Result Bool
has_unapplied l source_id = unapplied_amount l source_id >>= λ amount. ok (ltb_ℤ (pos 0) amount)

unfoldable pub near_duplicate : Ledger → Bool
near_duplicate l =
    let amounts = map (λ (i : Invoice). i.amount_cents) l.invoices in
    not (length amounts == length (dedup_by (λ a b. a == b) amounts))

unfoldable pub cutoff_risk : Ledger → Date → Bool
cutoff_risk l edge =
    any (λ p. leb edge p.date) l.payments
    || any (λ i. leb edge i.date) l.invoices
    || any (λ c. leb edge c.date) l.credit_memos

-- Some invoice with `0 < applied < amount`.
unfoldable pub has_partial : Ledger → Bool
has_partial l =
    any (λ i. ltb 0 (applied_to_invoice l i.id) && ltb (applied_to_invoice l i.id) i.amount_cents)
      l.invoices

unfoldable pub signature : Ledger → Result Signature
signature l = do
  edge ← sub_days l.client.as_of cutoff_window_days
  cash ← any_result (λ (p : Payment). has_unapplied l p.id) l.payments
  credit ← any_result (λ (c : CreditMemo). has_unapplied l c.id) l.credit_memos
  ambiguous ← ambiguous_allocations l
  ok (
      ("has_unapplied_cash", cash)
      ∷ ("has_partial", has_partial l)
      ∷ ("has_open_credit", credit)
      ∷ ("has_near_duplicate", near_duplicate l)
      ∷ ("has_cutoff_risk", cutoff_risk l edge)
      ∷ ("has_ambiguous_allocation", not (is_empty ambiguous))
      ∷ [])
