-- ===== src/Derive/Naive.antt =====
-- `recompute_net_balance_naive` of balancecheck/substrate/derive.py: the replay of the raw records
-- over two dicts. The raw JSON is that of the same ledger, so its fields are read from the record.
use max_ed.Base.Int.{ℤ, pos, ◌+ℤ◌, ◌-ℤ◌, sum_ℤ}
use max_ed.Contracts.{Invoice, Payment, CreditMemo, Application, Ledger}
use max_ed.Base.{
  ℕ, String, List, [], ◌∷◌, key_error, Result, ok, ◌>>=◌, or_raise, Dict, lookup, get_or, insert,
  values,
}

-- `d[k] = d.get(k, 0) + amount`
abbrev pub add_amount : String → ℕ → Dict ℤ → Dict ℤ
add_amount k amount d = insert k (get_or k (pos 0) d +ℤ pos amount) d

-- The loops that fill a dict from records with an identifier and an amount.
unfoldable pub fill {ℓ} : {A : Type ℓ} → (A → String) → (A → ℕ) → List A → Dict ℤ → Dict ℤ
fill id amount [] d = d
fill id amount (x ∷ xs) d = fill id amount xs (add_amount (id x) (amount x) d)

-- `d[k] -= amount`
unfoldable pub take_amount : String → ℕ → Dict ℤ → Result (Dict ℤ)
take_amount k amount d = do
  v ← or_raise (lookup k d) (key_error k)
  ok (insert k (v -ℤ pos amount) d)

-- The loop over the applications.
unfoldable pub replay : List Application → Dict ℤ × Dict ℤ → Result (Dict ℤ × Dict ℤ)
replay [] state = ok state
replay (app ∷ apps) (remaining, credit_pool) = do
  remaining' ← take_amount app.target_invoice app.amount_cents remaining
  credit_pool' ← take_amount app.source_id app.amount_cents credit_pool
  replay apps (remaining', credit_pool')

unfoldable pub recompute_net_balance_naive : Ledger → Result ℤ
unfolding fill take_amount replay
recompute_net_balance_naive l = do
  let remaining = fill (λ (i : Invoice). i.id) (λ i. i.amount_cents) l.invoices []
  let paid_in = fill (λ (p : Payment). p.id) (λ p. p.amount_cents) l.payments []
  let credit_pool = fill (λ (c : CreditMemo). c.id) (λ c. c.amount_cents) l.credit_memos paid_in
  (remaining', credit_pool') ← replay l.applications (remaining, credit_pool)
  ok (sum_ℤ (values remaining') -ℤ sum_ℤ (values credit_pool'))
