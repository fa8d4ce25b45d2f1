-- ===== src/Derive/Balance.antt =====
-- What the validation establishes, and the totals of a ledger that passes it.
use max_ed.Contracts.{Date, Invoice, Payment, CreditMemo, Application, Ledger}
use max_ed.Base.{
  ℕ, ◌+◌, ◌≤◌, String, ◌≡◌, refl, Bool, true, false, List, [], ◌∷◌, ◌++◌, map, arith, ==_iff,
  length, All, length-append, append-eq-nil, contains, All-map, length-map, not-false,
}
use max_ed.Derive.{applied_to_invoice, applied_from_source, document_ids}
use max_ed.Derive.Unique.{UniqueKeys, UniqueKeys-of_count, UniqueKeys-append}
use max_ed.Derive.Validate.{
  problem_if, problems_of, invoice_ids, source_ids, application_problems, invoice_problems,
  source_problems, validate_ledger,
}

-- The facts about a validated ledger.
pub record IsSound (l : Ledger) : Type 0 where
  pub invoice_keys : UniqueKeys (invoice_ids l)
  pub source_keys : UniqueKeys (source_ids l)
  pub targets : All (λ a. contains a.target_invoice (invoice_ids l) ≡ true) l.applications
  pub sources : All (λ a. contains a.source_id (source_ids l) ≡ true) l.applications
  pub invoices_covered : All (λ i. applied_to_invoice l i.id ≤ i.amount_cents) l.invoices
  pub payments_covered : All (λ p. applied_from_source l p.id ≤ p.amount_cents) l.payments
  pub credits_covered : All (λ c. applied_from_source l c.id ≤ c.amount_cents) l.credit_memos

no_problem : (failed : Bool) (text : String) → problem_if failed text ≡ [] → failed ≡ false
unfolding problem_if
no_problem true text h = cc
no_problem false text h = refl

no_problems {ℓ} :
    {A : Type ℓ} (f : A → List String) (xs : List A)
    → problems_of f xs ≡ []
    → All (λ x. f x ≡ []) xs
unfolding problems_of
no_problems f [] h = tt
no_problems f (x ∷ xs) h =
    let (hx, hxs) = append-eq-nil (f x) (problems_of f xs) h in (hx, no_problems f xs hxs)

-- The count of the set of identifiers, against the three lists.
unique_ids :
    (l : Ledger)
    → length (document_ids l) ≡ length l.invoices + length l.payments + length l.credit_memos
    → UniqueKeys (invoice_ids l ++ source_ids l)
unfolding document_ids
unique_ids l h = UniqueKeys-of_count (invoice_ids l ++ source_ids l) (
    omega (
      arith,
      length-append (invoice_ids l) (source_ids l),
      length-append (map (λ (p : Payment). p.id) l.payments)
          (map (λ (c : CreditMemo). c.id) l.credit_memos),
      length-map (λ (i : Invoice). i.id) l.invoices,
      length-map (λ (p : Payment). p.id) l.payments,
      length-map (λ (c : CreditMemo). c.id) l.credit_memos,
    ))

application_known :
    (l : Ledger) (a : Application)
    → application_problems l a ≡ []
    → (contains a.source_id (source_ids l) ≡ true)
      × (contains a.target_invoice (invoice_ids l) ≡ true)
unfolding problem_if
application_known l a h = ground arith

invoice_covered :
    (l : Ledger) (i : Invoice)
    → invoice_problems l i ≡ []
    → applied_to_invoice l i.id ≤ i.amount_cents
unfolding problem_if
invoice_covered l i h = ground arith

source_covered :
    (l : Ledger) (word id : String) (amount : ℕ) (date : Date)
    → source_problems l word id amount date ≡ []
    → applied_from_source l id ≤ amount
unfolding problem_if
source_covered l word id amount date h = ground arith

pub validate_ledger-IsSound : (l : Ledger) → validate_ledger l ≡ [] → IsSound l
unfolding validate_ledger
validate_ledger-IsSound l h =
    let (count, h₁) = append-eq-nil _ _ h in
    let (apps, h₂) = append-eq-nil _ _ h₁ in
    let (invs, h₃) = append-eq-nil _ _ h₂ in
    let (pays, creds) = append-eq-nil _ _ h₃ in
    let counted = no_problem _ _ count in
    let same = (==_iff _ _).0 (not-false _ counted) in
    let (ik, sk, _) = UniqueKeys-append (invoice_ids l) (source_ids l) (unique_ids l same) in
    let known = All-map _ _ l.applications (application_known l) (no_problems _ _ apps) in
    record {
      invoice_keys = ik;
      source_keys = sk;
      targets = All-map _ _ l.applications (λ a k. k.1) known;
      sources = All-map _ _ l.applications (λ a k. k.0) known;
      invoices_covered = All-map _ _ l.invoices (invoice_covered l) (no_problems _ _ invs);
      payments_covered =
          All-map _ _ l.payments (λ p. source_covered l _ p.id p.amount_cents p.date)
            (no_problems _ _ pays);
      credits_covered =
          All-map _ _ l.credit_memos (λ c. source_covered l _ c.id c.amount_cents c.date)
            (no_problems _ _ creds);
    }
