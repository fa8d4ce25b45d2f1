-- ===== src/Oracle/Figures.antt =====
-- The figures of the oracle, `document_figures` of balancecheck/bench/oracle.py, exist for every ledger: each
-- identifier that they look up is a key of the replay.
use max_ed.Base.{
  true, >>=-OkWith, OkWith, ℕ, String, ◌≡◌, refl, inl, inr, ◌||◌, List, [], ◌∷◌, ◌++◌, map, arith,
  eq_refl, Bool-cases, All, contains, dedup, Dict, get_or, insert, All-map,
}
use max_ed.Derive.Unique.{contains-append}
use max_ed.Derive.Recompute.{has_key-fill, has_key, has_key-insert}
use max_ed.Derive.Naive.{fill}
use max_ed.Oracle.{
  originals, open_by_invoice, unapplied_by_source, document_figures, sub_amount, deduct,
  note_originals, figures_of, add_figures,
}
use max_ed.Base.Int.{ℤ, pos, ◌-ℤ◌}
use max_ed.Contracts.{Invoice, Payment, CreditMemo, Application, Ledger}

has_key-note_originals {ℓ} :
    {A : Type ℓ} (id : A → String) (amount : A → ℕ) (k : String) (xs : List A) (d : Dict ℤ)
    → has_key k (note_originals id amount xs d) ≡ (contains k (map id xs) || has_key k d)
unfolding note_originals
has_key-note_originals id amount k [] d = refl
has_key-note_originals id amount k (x ∷ xs) d =
    rw
      (
        has_key-note_originals id amount k xs (insert (id x) (pos (amount x)) d),
        has_key-insert (id x) k (pos (amount x)) d,
      )
      (ground arith)

has_key-deduct :
    (key : Application → String) (k : String) (apps : List Application) (d : Dict ℤ)
    → has_key k d ≡ true
    → has_key k (deduct key apps d) ≡ true
unfolding deduct
has_key-deduct key k [] d h = h
has_key-deduct key k (a ∷ apps) d h =
    has_key-deduct key k apps (sub_amount (key a) a.amount_cents d) (
      rw (has_key-insert (key a) k (get_or (key a) (pos 0) d -ℤ pos a.amount_cents) d, h)
        (ground arith))

abbrev AnyBook : Dict (List ℤ) → Type 0
AnyBook d = Unit

figures_of-returns :
    (first left applied : Dict ℤ) (k : String)
    → has_key k first ≡ true
    → has_key k left ≡ true
    → OkWith (λ (figs : List ℤ). Unit {0}) (figures_of first left applied k)
unfolding figures_of
figures_of-returns first left applied k h g = ground (arith, h, g)

add_figures-returns :
    (first left applied : Dict ℤ) (ks : List String) (d : Dict (List ℤ))
    → All (λ k. (has_key k first ≡ true) × (has_key k left ≡ true)) ks
    → OkWith AnyBook (add_figures (figures_of first left applied) ks d)
unfolding add_figures
add_figures-returns first left applied [] d h = tt
add_figures-returns first left applied (k ∷ ks) d h =
    >>=-OkWith AnyBook (λ figs. Unit {0}) (figures_of first left applied k) _
      (figures_of-returns first left applied k h.0.0 h.0.1)
      (λ figs _. add_figures-returns first left applied ks (insert k figs d) h.1)

-- Each member of a list is in it, and a set of the members has only members.
members : (ks : List String) → All (λ k. contains k ks ≡ true) ks
members [] = tt
members (k ∷ ks) = (rw (eq_refl k) refl, All-map _ _ ks (λ j e. ground (arith, e)) (members ks))

All-dedup : (P : String → Type 0) (ks : List String) → All P ks → All P (dedup ks)
All-dedup P [] h = tt
All-dedup P (k ∷ ks) h = elim (Bool-cases (contains k ks)) [
  | inl known ↦ rw known (All-dedup P ks h.1)
  | inr fresh ↦ rw fresh (h.0, All-dedup P ks h.1)
]

module _ (l : Ledger) where
  abbrev invoice_keys : List String
  invoice_keys = map (λ (i : Invoice). i.id) l.invoices

  abbrev payment_keys : List String
  payment_keys = map (λ (p : Payment). p.id) l.payments

  abbrev credit_keys : List String
  credit_keys = map (λ (c : CreditMemo). c.id) l.credit_memos

  original_known :
      (k : String)
      → has_key k (originals l)
        ≡ (contains k invoice_keys || (contains k credit_keys || contains k payment_keys))
  unfolding originals
  original_known k =
      let paid_in = note_originals (λ (p : Payment). p.id) (λ p. p.amount_cents) l.payments [] in
      let noted =
        note_originals (λ (c : CreditMemo). c.id) (λ c. c.amount_cents) l.credit_memos paid_in in
      rw
        (
          has_key-note_originals (λ (i : Invoice). i.id) (λ i. i.amount_cents) k l.invoices noted,
          has_key-note_originals (λ (c : CreditMemo). c.id) (λ c. c.amount_cents) k l.credit_memos
              paid_in,
          has_key-note_originals (λ (p : Payment). p.id) (λ p. p.amount_cents) k l.payments [],
        )
        (ground arith)

  invoices_known :
      All
        (λ k. (has_key k (originals l) ≡ true) × (has_key k (open_by_invoice l) ≡ true))
        invoice_keys
  unfolding open_by_invoice
  invoices_known =
      All-map _ _ invoice_keys
        (λ k e.
          let filled = has_key-fill (λ (i : Invoice). i.id) (λ i. i.amount_cents) k l.invoices [] in
          (
            rw (original_known k) (ground (arith, e)),
            has_key-deduct (λ a. a.target_invoice) k l.applications
                (fill (λ (i : Invoice). i.id) (λ i. i.amount_cents) l.invoices [])
                (rw filled (ground (arith, e))),
          ))
        (members invoice_keys)

  sources_known :
      All
        (λ k. (has_key k (originals l) ≡ true) × (has_key k (unapplied_by_source l) ≡ true))
        (payment_keys ++ credit_keys)
  unfolding unapplied_by_source
  sources_known =
      All-map _ _ (payment_keys ++ credit_keys)
        (λ k e.
          let paid_in = fill (λ (p : Payment). p.id) (λ p. p.amount_cents) l.payments [] in
          let split = contains-append k payment_keys credit_keys in
          let cash = has_key-fill (λ (p : Payment). p.id) (λ p. p.amount_cents) k l.payments [] in
          let credit =
            has_key-fill (λ (c : CreditMemo). c.id) (λ c. c.amount_cents) k l.credit_memos
              paid_in in
          (
            rw (original_known k) (ground (arith, split, e)),
            has_key-deduct (λ a. a.source_id) k l.applications
                (fill (λ (c : CreditMemo). c.id) (λ c. c.amount_cents) l.credit_memos paid_in)
                (rw credit (ground (arith, split, e, cash))),
          ))
        (members (payment_keys ++ credit_keys))

  abbrev pub AnyFigures : Dict (List ℤ) × List ℤ → Type 0
  AnyFigures p = Unit

  pub document_figures-returns : OkWith AnyFigures (document_figures l)
  unfolding document_figures
  document_figures-returns =
      >>=-OkWith AnyFigures AnyBook
        (add_figures (figures_of (originals l) (open_by_invoice l) _) invoice_keys []) _
        (add_figures-returns (originals l) (open_by_invoice l) _ invoice_keys [] invoices_known)
        (λ invoices _.
          >>=-OkWith AnyFigures AnyBook
            (add_figures (figures_of (originals l) (unapplied_by_source l) _)
              (dedup (payment_keys ++ credit_keys)) invoices)
            _
            (add_figures-returns (originals l) (unapplied_by_source l) _
              (dedup (payment_keys ++ credit_keys)) invoices
              (All-dedup _ (payment_keys ++ credit_keys) sources_known))
            (λ figures _. tt))
