-- ===== src/Derive/Totals.antt =====
-- The totals of a sound ledger: every lookup succeeds, and the sums are those of the records.
use max_ed.Base.Int.{ℤ, sub_ℕ, ◌-ℤ◌, sub_ℕ_parts, int_laws, sum_ℤ, sum_ℤ-sub}
use max_ed.Contracts.{Invoice, Payment, CreditMemo, Application, Ledger}
use max_ed.Base.{
  ℕ, ◌+◌, String, ◌≡◌, refl, ap, none, some, List, [], ◌∷◌, ◌++◌, map, arith, str_eq, find,
  sum_where, sum_by, All, ok, All-map, All-append_split, All-of_map, sum_by-append, sum_by-map,
  traverse-eq-ok,
}
use max_ed.Derive.{
  SourceDoc, payment, credit_memo, source_doc_id, source_doc_amount, source_docs, invoice, source,
  applied_to_invoice, open_amount, applied_from_source, unapplied_amount, open_invoice_total,
  unapplied_cash_total, unapplied_credit_total, net_balance,
}
use max_ed.Derive.Balance.{IsSound}
use max_ed.Derive.Sums.{sum-applied}
use max_ed.Derive.Unique.{find_key, UniqueKeys-FindsSelf}
use max_ed.Derive.Validate.{source_ids}

-- The open amount of an invoice of the ledger, and the unapplied amount of a source.
abbrev pub open_of : Ledger → Invoice → ℤ
open_of l i = sub_ℕ i.amount_cents (applied_to_invoice l i.id)

abbrev pub unapplied_of : Ledger → SourceDoc → ℤ
unapplied_of l d = sub_ℕ (source_doc_amount d) (applied_from_source l (source_doc_id d))

pub open_amounts :
    (l : Ledger) → IsSound l → All (λ i. open_amount l i.id ≡ ok (open_of l i)) l.invoices
unfolding open_amount invoice
open_amounts l s =
    All-map _ _ l.invoices (λ i e. rw e)
      (UniqueKeys-FindsSelf (λ i. i.id) l.invoices s.invoice_keys)

pub map-source_doc_id : (l : Ledger) → map source_doc_id (source_docs l) ≡ source_ids l
map-source_doc_id l = go l.payments
  where
    credits : (cs : List CreditMemo) → map source_doc_id (map credit_memo cs) ≡ map (λ c. c.id) cs
    credits [] = refl
    credits (c ∷ cs) = ap (◌∷◌ c.id) (credits cs)

    go :
        (ps : List Payment)
        → map source_doc_id (map payment ps ++ map credit_memo l.credit_memos)
          ≡ map (λ p. p.id) ps ++ map (λ c. c.id) l.credit_memos
    go [] = credits l.credit_memos
    go (p ∷ ps) = ap (◌∷◌ p.id) (go ps)

-- The two searches of `source` are one search of all the sources.
find_credit :
    (k : String) (cs : List CreditMemo)
    → find_key source_doc_id k (map credit_memo cs)
      ≡ elim (find (λ c. str_eq c.id k) cs) [ none ↦ none | some c ↦ some (credit_memo c) ]
find_credit k [] = refl
find_credit k (c ∷ cs) = ground (arith, find_credit k cs)

find_source :
    (k : String) (ps : List Payment) (cs : List CreditMemo)
    → find_key source_doc_id k (map payment ps ++ map credit_memo cs)
      ≡ elim (find (λ p. str_eq p.id k) ps) [
        | none ↦ elim (find (λ c. str_eq c.id k) cs) [ none ↦ none | some c ↦ some (credit_memo c) ]
        | some p ↦ some (payment p)
      ]
find_source k [] cs = find_credit k cs
find_source k (p ∷ ps) cs = ground (arith, find_source k ps cs)

source_found :
    (l : Ledger) (d : SourceDoc) (k : String)
    → find_key source_doc_id k (source_docs l) ≡ some d
    → source l k ≡ ok d
unfolding source
source_found l d k h = ground (arith, find_source k l.payments l.credit_memos)

pub unapplied_amounts :
    (l : Ledger)
    → IsSound l
    → All (λ d. unapplied_amount l (source_doc_id d) ≡ ok (unapplied_of l d)) (source_docs l)
unfolding unapplied_amount
unapplied_amounts l s =
    All-map _ _ (source_docs l) (λ d e. rw (source_found l d (source_doc_id d) e))
      (UniqueKeys-FindsSelf source_doc_id (source_docs l) (rw (map-source_doc_id l) s.source_keys))

payments_unapplied :
    (l : Ledger)
    → IsSound l
    → All (λ p. unapplied_amount l p.id ≡ ok (unapplied_of l (payment p))) l.payments
payments_unapplied l s =
    All-of_map _ payment l.payments
      (All-append_split _ (map payment l.payments) (map credit_memo l.credit_memos)
        (unapplied_amounts l s)).0

credits_unapplied :
    (l : Ledger)
    → IsSound l
    → All (λ c. unapplied_amount l c.id ≡ ok (unapplied_of l (credit_memo c))) l.credit_memos
credits_unapplied l s =
    All-of_map _ credit_memo l.credit_memos
      (All-append_split _ (map payment l.payments) (map credit_memo l.credit_memos)
        (unapplied_amounts l s)).1

-- The three totals as values.
abbrev pub open_sum : Ledger → ℤ
open_sum l = sum_ℤ (map (open_of l) l.invoices)

abbrev pub cash_sum : Ledger → ℤ
cash_sum l = sum_ℤ (map (λ p. unapplied_of l (payment p)) l.payments)

abbrev pub credit_sum : Ledger → ℤ
credit_sum l = sum_ℤ (map (λ c. unapplied_of l (credit_memo c)) l.credit_memos)

pub open_invoice_total-eq : (l : Ledger) → IsSound l → open_invoice_total l ≡ ok (open_sum l)
unfolding open_invoice_total
open_invoice_total-eq l s = rw (traverse-eq-ok _ (open_of l) l.invoices (open_amounts l s))

pub unapplied_cash_total-eq : (l : Ledger) → IsSound l → unapplied_cash_total l ≡ ok (cash_sum l)
unfolding unapplied_cash_total
unapplied_cash_total-eq l s =
    rw (traverse-eq-ok _ (λ p. unapplied_of l (payment p)) l.payments (payments_unapplied l s))

pub unapplied_credit_total-eq :
    (l : Ledger) → IsSound l → unapplied_credit_total l ≡ ok (credit_sum l)
unfolding unapplied_credit_total
unapplied_credit_total-eq l s =
    rw (
      traverse-eq-ok _ (λ c. unapplied_of l (credit_memo c)) l.credit_memos (credits_unapplied l s))

pub net_balance-eq :
    (l : Ledger) → IsSound l → net_balance l ≡ ok (open_sum l -ℤ cash_sum l -ℤ credit_sum l)
unfolding net_balance
net_balance-eq l s =
    rw (open_invoice_total-eq l s, unapplied_cash_total-eq l s, unapplied_credit_total-eq l s)

abbrev pub invoiced : Ledger → ℕ
invoiced l = sum_by (λ (i : Invoice). i.amount_cents) l.invoices

abbrev pub paid_in : Ledger → ℕ
paid_in l = sum_by (λ (p : Payment). p.amount_cents) l.payments

abbrev pub credited : Ledger → ℕ
credited l = sum_by (λ (c : CreditMemo). c.amount_cents) l.credit_memos

pub applied_to_sum :
    (l : Ledger)
    → IsSound l
    → sum_by (λ i. applied_to_invoice l i.id) l.invoices
      ≡ sum_by (λ a. a.amount_cents) l.applications
unfolding applied_to_invoice
applied_to_sum l s =
    sum-applied (λ i. i.id) (λ a. a.target_invoice) (λ a. a.amount_cents) l.applications l.invoices
      s.invoice_keys s.targets

applied_from_sum :
    (l : Ledger)
    → IsSound l
    → sum_by (λ p. applied_from_source l p.id) l.payments
        + sum_by (λ c. applied_from_source l c.id) l.credit_memos
      ≡ sum_by (λ a. a.amount_cents) l.applications
unfolding applied_from_source
applied_from_sum l s =
    let all =
      sum-applied source_doc_id (λ (a : Application). a.source_id) (λ a. a.amount_cents)
        l.applications (source_docs l) (rw (map-source_doc_id l) s.source_keys)
        (rw (map-source_doc_id l) s.sources) in
    omega (
      arith,
      all,
      sum_by-append
          (λ d.
            sum_where (λ (a : Application). str_eq a.source_id (source_doc_id d))
              (λ a. a.amount_cents) l.applications)
          (map payment l.payments) (map credit_memo l.credit_memos),
      sum_by-map
          (λ d.
            sum_where (λ (a : Application). str_eq a.source_id (source_doc_id d))
              (λ a. a.amount_cents) l.applications)
          payment l.payments,
      sum_by-map
          (λ d.
            sum_where (λ (a : Application). str_eq a.source_id (source_doc_id d))
              (λ a. a.amount_cents) l.applications)
          credit_memo l.credit_memos,
    )

-- The net of a sound ledger is what was invoiced less what came in, however it is applied.
pub net_balance-conserved :
    (l : Ledger) → IsSound l → net_balance l ≡ ok (sub_ℕ (invoiced l) (paid_in l + credited l))
net_balance-conserved l s = rw (net_balance-eq l s) (
    ap ok (
      omega (
        int_laws,
        sub_ℕ_parts (invoiced l) (paid_in l + credited l),
        applied_to_sum l s,
        applied_from_sum l s,
        sum_ℤ-sub (λ (i : Invoice). i.amount_cents) (λ i. applied_to_invoice l i.id) l.invoices,
        sum_ℤ-sub (λ (p : Payment). p.amount_cents) (λ p. applied_from_source l p.id) l.payments,
        sum_ℤ-sub (λ (c : CreditMemo). c.amount_cents) (λ c. applied_from_source l c.id)
            l.credit_memos,
      )))
