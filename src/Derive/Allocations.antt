-- ===== src/Derive/Allocations.antt =====
-- What an ambiguous allocation is: money that fits the open amounts of several invoices.
use max_ed.Base.{
  ◌≤◌, String, ◌≡◌, refl, ap, ◌∙◌, inl, inr, Bool, true, false, ◌&&◌, List, [], ◌∷◌, map, arith,
  leb, if◌then◌else◌, leb→le, Bool-cases, &&_left, length, All, Result, ok, ◌>>=◌, filter_result,
  >>=-eq-ok, Ensures, Ensures-ok, >>=-Ensures,
}
use max_ed.Contracts.{Invoice, Ledger}
use max_ed.Base.Int.{ℤ, pos, ltb_ℤ, leb_ℤ, eqb_ℤ, eqb_ℤ_iff}
use max_ed.Derive.{SourceDoc, source_doc_id, source_docs, open_amount, unapplied_amount}
use max_ed.Derive.Ambiguity.{matching_invoices, ambiguous_from, ambiguous_allocations}

module _ {ℓ} {A : Type ℓ} (p : A → Result Bool) where
  -- What a filter keeps has passed its test.
  filter_result-All : (xs : List A) → Ensures (All (λ x. p x ≡ ok true)) (filter_result p xs)
  filter_result-All [] = tt
  filter_result-All (x ∷ xs) = >>=-Ensures (All (λ y. p y ≡ ok true)) (p x) _ (λ keep e.
      >>=-Ensures (All (λ y. p y ≡ ok true)) (filter_result p xs) _ (λ rest k.
        go keep rest e
          (Ensures-ok (All (λ y. p y ≡ ok true)) (filter_result p xs) (filter_result-All xs) k)))
    where
      go :
          (keep : Bool) (rest : List A)
          → p x ≡ ok keep
          → All (λ y. p y ≡ ok true) rest
          → All (λ y. p y ≡ ok true) (if keep then x ∷ rest else rest)
      go true rest e h = (e, h)
      go false rest e h = h

-- An invoice whose open amount is the given one.
abbrev pub Fits : Ledger → ℤ → String → Type 0
Fits l un k = open_amount l k ≡ ok un

-- A source whose money is left and fits two invoices or more.
abbrev pub IsAmbiguous : Ledger → String × List String → Type 0
IsAmbiguous l pair =
    (un : ℤ) × (unapplied_amount l pair.0 ≡ ok un)
    × (ltb_ℤ (pos 0) un ≡ true)
    × (2 ≤ length pair.1)
    × All (Fits l un) pair.1

test_lem :
    (l : Ledger) (un : ℤ) (k : String)
    → (open_amount l k >>= λ amount. ok (eqb_ℤ amount un && ltb_ℤ (pos 0) un)) ≡ ok true
    → Fits l un k
test_lem l un k h =
    let (amount, e, test) =
      >>=-eq-ok (open_amount l k) (λ amount. ok (eqb_ℤ amount un && ltb_ℤ (pos 0) un)) h in
    let same : (eqb_ℤ amount un && ltb_ℤ (pos 0) un) ≡ true = cc in
    e ∙ ap ok ((eqb_ℤ_iff amount un).0 (&&_left _ _ same))

matching_invoices-Fits : (l : Ledger) (un : ℤ) → Ensures (All (Fits l un)) (matching_invoices l un)
unfolding matching_invoices
matching_invoices-Fits l un =
    let test : Invoice → Result Bool =
      λ i. open_amount l i.id >>= λ amount. ok (eqb_ℤ amount un && ltb_ℤ (pos 0) un) in
    >>=-Ensures (All (Fits l un)) (filter_result test l.invoices) _ (λ found e. ids found (
      Ensures-ok (All (λ i. test i ≡ ok true)) (filter_result test l.invoices)
        (filter_result-All test l.invoices) e))
  where
    ids :
        (found : List Invoice)
        → All
            (λ (i : Invoice).
              (open_amount l i.id >>= λ amount. ok (eqb_ℤ amount un && ltb_ℤ (pos 0) un)) ≡ ok true)
            found
        → All (Fits l un) (map (λ (i : Invoice). i.id) found)
    ids [] h = tt
    ids (i ∷ is) h = (test_lem l un i.id h.0, ids is h.1)

positive : (z : ℤ) → leb_ℤ z (pos 0) ≡ false → ltb_ℤ (pos 0) z ≡ true
positive z h = ground arith

ambiguous_from-IsAmbiguous :
    (l : Ledger) (docs : List SourceDoc) → Ensures (All (IsAmbiguous l)) (ambiguous_from l docs)
unfolding ambiguous_from
ambiguous_from-IsAmbiguous l [] = tt
ambiguous_from-IsAmbiguous l (doc ∷ docs) =
    let Good : List (String × List String) → Type 0 = All (IsAmbiguous l) in
    >>=-Ensures Good (unapplied_amount l (source_doc_id doc)) _ (λ un eu.
      >>=-Ensures Good (if leb_ℤ un (pos 0) then ok [] else matching_invoices l un) _ (λ matches em.
        >>=-Ensures Good (ambiguous_from l docs) _ (λ rest er.
          let later =
            Ensures-ok Good (ambiguous_from l docs) (ambiguous_from-IsAmbiguous l docs) er in
          go un matches rest eu em later)))
  where
    fitting :
        (un : ℤ) (matches : List String) (b : Bool)
        → leb_ℤ un (pos 0) ≡ b
        → (if b then ok [] else matching_invoices l un) ≡ ok matches
        → leb 2 (length matches) ≡ true
        → (ltb_ℤ (pos 0) un ≡ true) × All (Fits l un) matches
    fitting un matches true e h two =
        let none_match : [] ≡ matches = cc in
        absurd (omega (arith, leb→le 2 (length matches) two, ap length none_match))
    fitting un matches false e h two = (
      positive un e,
      Ensures-ok (All (Fits l un)) (matching_invoices l un) (matching_invoices-Fits l un) h,
    )

    go :
        (un : ℤ) (matches : List String) (rest : List (String × List String))
        → unapplied_amount l (source_doc_id doc) ≡ ok un
        → (if leb_ℤ un (pos 0) then ok [] else matching_invoices l un) ≡ ok matches
        → All (IsAmbiguous l) rest
        → All
            (IsAmbiguous l)
            (if leb 2 (length matches) then (source_doc_id doc, matches) ∷ rest else rest)
    go un matches rest eu em later = elim (Bool-cases (leb 2 (length matches))) [
      | inl two ↦
          let (left_over, fits) = fitting un matches (leb_ℤ un (pos 0)) refl em two in
          rw two ((un, eu, left_over, leb→le 2 (length matches) two, fits), later)
      | inr fewer ↦ rw fewer later
    ]

-- Every pair that `ambiguous_allocations` returns is a payment or credit memo with money left, and two
-- invoices or more whose open amount is exactly that money.
pub ambiguous_allocations-IsAmbiguous :
    (l : Ledger) (pairs : List (String × List String))
    → ambiguous_allocations l ≡ ok pairs
    → All (IsAmbiguous l) pairs
unfolding ambiguous_allocations
ambiguous_allocations-IsAmbiguous l pairs h =
    Ensures-ok (All (IsAmbiguous l)) _ (ambiguous_from-IsAmbiguous l (source_docs l)) h
