-- ===== src/Oracle.antt =====
-- The replay of the independent oracle, balancecheck/bench/oracle.py. The fixture is the raw JSON of
-- the ledger, so its fields are read from the record.
pub mod Grounding
pub mod Agrees
mod Figures
mod Readable
pub mod Total
mod Tests
use max_ed.Base.{
  ℕ, zero, ◌-◌, String, true, not, List, [], ◌∷◌, ◌++◌, map, if◌then◌else◌, filter, dedup,
  key_error, Result, ok, ◌>>=◌, or_raise, Dict, lookup, get_or, insert, values,
}
use max_ed.Contracts.{Invoice, Payment, CreditMemo, Application, Ledger}
use max_ed.Base.Int.{ℤ, pos, ◌+ℤ◌, ◌-ℤ◌, sum_ℤ, eqb_ℤ, ltb_ℤ}
use max_ed.Derive.Naive.{add_amount, fill}

-- The loops over the applications: `d[k] = d.get(k, 0) - amount`
abbrev pub sub_amount : String → ℕ → Dict ℤ → Dict ℤ
sub_amount k amount d = insert k (get_or k (pos 0) d -ℤ pos amount) d

unfoldable pub deduct : (Application → String) → List Application → Dict ℤ → Dict ℤ
deduct key [] d = d
deduct key (app ∷ apps) d = deduct key apps (sub_amount (key app) app.amount_cents d)

unfoldable pub open_by_invoice : Ledger → Dict ℤ
unfolding fill deduct
open_by_invoice l =
    deduct (λ app. app.target_invoice) l.applications
      (fill (λ (i : Invoice). i.id) (λ i. i.amount_cents) l.invoices [])

unfoldable pub unapplied_by_source : Ledger → Dict ℤ
unfolding fill deduct
unapplied_by_source l =
    deduct (λ app. app.source_id) l.applications
      (fill (λ (c : CreditMemo). c.id) (λ c. c.amount_cents) l.credit_memos
        (fill (λ (p : Payment). p.id) (λ p. p.amount_cents) l.payments []))

-- The sum over a set of identifiers.
abbrev pub sum_over : List String → Dict ℤ → ℤ
sum_over ids d = sum_ℤ (map (λ k. get_or k (pos 0) d) (dedup ids))

pub record Totals : Type 0 where
  pub open_invoice_total : ℤ
  pub unapplied_cash_total : ℤ
  pub unapplied_credit_total : ℤ
  pub net_balance : ℤ

unfoldable pub replayed_totals : Ledger → Totals
unfolding open_by_invoice unapplied_by_source
replayed_totals l =
    let open_total = sum_ℤ (values (open_by_invoice l)) in
    let cash = sum_over (map (λ (p : Payment). p.id) l.payments) (unapplied_by_source l) in
    let credit = sum_over (map (λ (c : CreditMemo). c.id) l.credit_memos) (unapplied_by_source l) in
    record {
      open_invoice_total = open_total;
      unapplied_cash_total = cash;
      unapplied_credit_total = credit;
      net_balance = open_total -ℤ cash -ℤ credit;
    }

abbrev pub totals_of : Totals → List ℤ
totals_of t =
    t.open_invoice_total ∷ t.unapplied_cash_total ∷ t.unapplied_credit_total ∷ t.net_balance ∷ []

-- Zero is a true figure only where the net balance is zero.
abbrev pub discard_zero : Totals → List ℤ → List ℤ
discard_zero t truth =
    if eqb_ℤ t.net_balance (pos 0) then truth else filter (λ v. not (eqb_ℤ v (pos 0))) truth

-- The sets as lists; the second is that of the document identifiers.
unfoldable pub truth_sets : Ledger → List ℤ × List String
unfolding replayed_totals open_by_invoice unapplied_by_source
truth_sets l =
    let t = replayed_totals l in
    let amounts =
      map (λ (i : Invoice). pos i.amount_cents) l.invoices
      ++ map (λ (p : Payment). pos p.amount_cents) l.payments
      ++ map (λ (c : CreditMemo). pos c.amount_cents) l.credit_memos in
    let truth =
      amounts ++ values (open_by_invoice l) ++ values (unapplied_by_source l) ++ totals_of t in
    let ids =
      map (λ (i : Invoice). i.id) l.invoices
      ++ map (λ (p : Payment). p.id) l.payments
      ++ map (λ (c : CreditMemo). c.id) l.credit_memos in
    (discard_zero t truth, ids)

-- `originals`, whose later entries replace earlier ones.
unfoldable pub note_originals {ℓ} : {A : Type ℓ} → (A → String) → (A → ℕ) → List A → Dict ℤ → Dict ℤ
note_originals id amount [] d = d
note_originals id amount (x ∷ xs) d = note_originals id amount xs (insert (id x) (pos (amount x)) d)

unfoldable pub originals : Ledger → Dict ℤ
unfolding note_originals
originals l =
    note_originals (λ (i : Invoice). i.id) (λ i. i.amount_cents) l.invoices
      (note_originals (λ (c : CreditMemo). c.id) (λ c. c.amount_cents) l.credit_memos
        (note_originals (λ (p : Payment). p.id) (λ p. p.amount_cents) l.payments []))

-- The figures of one document: its original amount, what is left of it, and what of it is applied.
unfoldable pub figures_of : Dict ℤ → Dict ℤ → Dict ℤ → String → Result (List ℤ)
figures_of first left applied k = do
  original ← or_raise (lookup k first) (key_error k)
  rest ← or_raise (lookup k left) (key_error k)
  let used = get_or k (pos 0) applied
  ok (original ∷ rest ∷ (if ltb_ℤ (pos 0) used then used ∷ [] else []))

unfoldable pub add_figures :
    (String → Result (List ℤ)) → List String → Dict (List ℤ) → Result (Dict (List ℤ))
add_figures figures_for [] figures = ok figures
add_figures figures_for (k ∷ ks) figures = do
  figs ← figures_for k
  add_figures figures_for ks (insert k figs figures)

unfoldable pub document_figures : Ledger → Result (Dict (List ℤ) × List ℤ)
unfolding fill originals figures_of add_figures replayed_totals open_by_invoice unapplied_by_source
document_figures l = do
  let applied_to =
      fill (λ (a : Application). a.target_invoice) (λ a. a.amount_cents) l.applications []
  let applied_from = fill (λ (a : Application). a.source_id) (λ a. a.amount_cents) l.applications []
  invoices ←
      add_figures (figures_of (originals l) (open_by_invoice l) applied_to)
        (map (λ (i : Invoice). i.id) l.invoices) []
  figures ←
      add_figures (figures_of (originals l) (unapplied_by_source l) applied_from)
        (dedup
          (map (λ (p : Payment). p.id) l.payments ++ map (λ (c : CreditMemo). c.id) l.credit_memos))
        invoices
  let t = replayed_totals l
  ok (figures, discard_zero t (totals_of t))
