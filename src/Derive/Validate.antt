-- ===== src/Derive/Validate.antt =====
-- `validate_ledger` of balancecheck/substrate/derive.py: the list of the ledger's problems.
use max_ed.Contracts.{Date, Invoice, Application, Ledger}
use max_ed.Base.{
  ℕ, ◌+◌, String, Bool, not, List, [], ◌∷◌, ◌++◌, map, ltb, ◌==◌, if◌then◌else◌, length, concat,
  contains,
}
use max_ed.Derive.{applied_to_invoice, applied_from_source, document_ids}

-- `if failed: problems.append(text)`
unfoldable pub problem_if : Bool → String → List String
problem_if failed text = if failed then text ∷ [] else []

-- The problems of each element, in order.
unfoldable pub problems_of {ℓ} : {A : Type ℓ} → (A → List String) → List A → List String
problems_of f [] = []
problems_of f (x ∷ xs) = f x ++ problems_of f xs

abbrev pub invoice_ids : Ledger → List String
invoice_ids l = map (λ i. i.id) l.invoices

abbrev pub source_ids : Ledger → List String
source_ids l = map (λ p. p.id) l.payments ++ map (λ c. c.id) l.credit_memos

abbrev pub application_problems : Ledger → Application → List String
application_problems l a =
    problem_if (not (contains a.source_id (source_ids l)))
      (concat ("application from unknown source " ∷ a.source_id ∷ []))
    ++ problem_if (not (contains a.target_invoice (invoice_ids l)))
        (concat ("application to unknown invoice " ∷ a.target_invoice ∷ []))

abbrev pub invoice_problems : Ledger → Invoice → List String
invoice_problems l i =
    problem_if (ltb i.amount_cents (applied_to_invoice l i.id))
      (concat ("invoice " ∷ i.id ∷ " over-applied" ∷ []))
    ++ (problem_if (ltb i.due i.date) (concat ("invoice " ∷ i.id ∷ " due before issue date" ∷ []))
        ++ problem_if (ltb l.client.as_of i.date)
            (concat ("invoice " ∷ i.id ∷ " dated after as_of" ∷ [])))

-- The two problems of a payment or a credit memo, which differ in the word for it.
abbrev pub source_problems : Ledger → String → String → ℕ → Date → List String
source_problems l word id amount date =
    problem_if (ltb amount (applied_from_source l id)) (concat (word ∷ id ∷ " over-applied" ∷ []))
    ++ problem_if (ltb l.client.as_of date) (concat (word ∷ id ∷ " dated after as_of" ∷ []))

unfoldable pub validate_ledger : Ledger → List String
validate_ledger l =
    problem_if
      (not
        (length (document_ids l) == length l.invoices + length l.payments + length l.credit_memos))
      "duplicate document IDs"
    ++ (problems_of (application_problems l) l.applications
        ++ (problems_of (invoice_problems l) l.invoices
            ++ (problems_of (λ p. source_problems l "payment " p.id p.amount_cents p.date)
                  l.payments
                ++ problems_of (λ c. source_problems l "credit memo " c.id c.amount_cents c.date)
                    l.credit_memos)))
