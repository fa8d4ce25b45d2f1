-- ===== src/Gate/Rows.antt =====
-- The matrix as a relation: each row with its condition, the first match winning, apart from the
-- control flow of `_match_matrix`.
use max_ed.Base.{
  ℕ, String, ◌≡◌, refl, ◌≢◌, true, false, not, Option, none, some, List, [], ◌∷◌, if◌then◌else◌,
  is_empty, Result, ok, ◌>>=◌, Ensures, Ensures-ok, if-Ensures, >>=-Ensures,
}
use max_ed.Contracts.{Ledger, Claim, Finding, GateDecision}
use max_ed.Gate.{ambiguity_decision}
use max_ed.Gate.Itemization.{itemization_inconsistency}
use max_ed.Gate.Matrix.{
  exist_fails, unverifiable_claims, code_fails, fuzzy_unsupported, fuzzy_cannot, fabricated_row,
  unverifiable_row, correctable_row, unsupported_row, cannot_determine_row, itemization_row,
  incomplete_row, all_pass_row, missing_completeness, completeness_rows, draft_rows, match_matrix,
}

-- The first five rows are empty.
abbrev pub NoFailure : List Claim → Type 0
NoFailure cs =
    (exist_fails cs ≡ [])
    × (unverifiable_claims cs ≡ [])
    × (code_fails cs ≡ [])
    × (fuzzy_unsupported cs ≡ [])
    × (fuzzy_cannot cs ≡ [])

pub data Row (extract : String → Ledger → Result (List Claim)) (cs : List Claim) (l : Ledger)
    (n : ℕ) (draft : String) (d : GateDecision) : Type 0 where
  on_fabricated :
      (exist_fails cs ≢ []) → d ≡ fabricated_row (exist_fails cs) → Row extract cs l n draft d
  on_unverifiable :
      exist_fails cs ≡ []
      → (unverifiable_claims cs ≢ [])
      → d ≡ unverifiable_row (unverifiable_claims cs)
      → Row extract cs l n draft d
  on_correctable :
      exist_fails cs ≡ []
      → unverifiable_claims cs ≡ []
      → (code_fails cs ≢ [])
      → d ≡ correctable_row n (code_fails cs)
      → Row extract cs l n draft d
  on_unsupported :
      exist_fails cs ≡ []
      → unverifiable_claims cs ≡ []
      → code_fails cs ≡ []
      → (fuzzy_unsupported cs ≢ [])
      → d ≡ unsupported_row n (fuzzy_unsupported cs)
      → Row extract cs l n draft d
  on_cannot :
      exist_fails cs ≡ []
      → unverifiable_claims cs ≡ []
      → code_fails cs ≡ []
      → fuzzy_unsupported cs ≡ []
      → (fuzzy_cannot cs ≢ [])
      → d ≡ cannot_determine_row (fuzzy_cannot cs)
      → Row extract cs l n draft d
  on_ambiguous : NoFailure cs → ambiguity_decision l ≡ ok (some d) → Row extract cs l n draft d
  on_itemization :
      NoFailure cs
      → ambiguity_decision l ≡ ok none
      → (f : Finding) → itemization_inconsistency cs l ≡ ok (some f)
      → d ≡ itemization_row n f
      → Row extract cs l n draft d
  on_incomplete :
      NoFailure cs
      → ambiguity_decision l ≡ ok none
      → itemization_inconsistency cs l ≡ ok none
      → (missing : List (String × String)) → missing_completeness extract cs l draft ≡ ok missing
      → (missing ≢ [])
      → d ≡ incomplete_row n missing
      → Row extract cs l n draft d
  on_all_pass :
      NoFailure cs
      → ambiguity_decision l ≡ ok none
      → itemization_inconsistency cs l ≡ ok none
      → missing_completeness extract cs l draft ≡ ok []
      → d ≡ all_pass_row
      → Row extract cs l n draft d

module _ {ℓ} {A : Type ℓ} where
  empty_of : (xs : List A) → not (is_empty xs) ≡ false → xs ≡ []
  empty_of [] h = refl
  empty_of (x ∷ xs) h = cc

  nonempty_of : (xs : List A) → not (is_empty xs) ≡ true → xs ≢ []
  nonempty_of [] h = cc
  nonempty_of (x ∷ xs) h = λ e. cc

module _ (extract : String → Ledger → Result (List Claim)) (cs : List Claim) (l : Ledger) (n : ℕ)
    (draft : String) where
  completeness_rows-Row :
      NoFailure cs
      → ambiguity_decision l ≡ ok none
      → itemization_inconsistency cs l ≡ ok none
      → Ensures (Row extract cs l n draft) (completeness_rows extract cs l n draft)
  unfolding completeness_rows
  completeness_rows-Row h a i = >>=-Ensures _ (missing_completeness extract cs l draft) _ go
    where
      go :
          (missing : List (String × String))
          → missing_completeness extract cs l draft ≡ ok missing
          → Row extract cs l n draft
              (if not (is_empty missing) then incomplete_row n missing else all_pass_row)
      go [] e = on_all_pass h a i e refl
      go (m ∷ ms) e = on_incomplete h a i (m ∷ ms) e (λ q. cc) refl

  draft_rows-Row :
      NoFailure cs → Ensures (Row extract cs l n draft) (draft_rows extract cs l n draft)
  unfolding draft_rows
  draft_rows-Row h = >>=-Ensures _ (ambiguity_decision l) _ ambiguous
    where
      itemized :
          ambiguity_decision l ≡ ok none
          → (o : Option Finding) → itemization_inconsistency cs l ≡ ok o
          → Ensures (Row extract cs l n draft) (elim o [
            | some f ↦ ok (itemization_row n f)
            | none ↦ completeness_rows extract cs l n draft
          ])
      itemized a none e = completeness_rows-Row h a e
      itemized a (some f) e = on_itemization h a f e refl

      ambiguous :
          (o : Option GateDecision)
          → ambiguity_decision l ≡ ok o
          → Ensures (Row extract cs l n draft) (elim o [
            | some d ↦ ok d
            | none ↦ itemization_inconsistency cs l >>= λ inconsistency. elim inconsistency [
              | some f ↦ ok (itemization_row n f)
              | none ↦ completeness_rows extract cs l n draft
            ]
          ])
      ambiguous none e = >>=-Ensures _ (itemization_inconsistency cs l) _ (itemized e)
      ambiguous (some d) e = on_ambiguous h e

  -- The control flow of the matrix, read back as its rows.
  pub match_matrix-Row :
      (d : GateDecision) → match_matrix extract cs l n draft ≡ ok d → Row extract cs l n draft d
  unfolding match_matrix
  match_matrix-Row d = Ensures-ok (Row extract cs l n draft) _ (
      if-Ensures _ (not (is_empty (exist_fails cs))) _ _ (λ b. on_fabricated (nonempty_of _ b) refl)
        (λ b1.
          if-Ensures _ (not (is_empty (unverifiable_claims cs))) _ _
            (λ b. on_unverifiable (empty_of _ b1) (nonempty_of _ b) refl)
            (λ b2.
              if-Ensures _ (not (is_empty (code_fails cs))) _ _
                (λ b. on_correctable (empty_of _ b1) (empty_of _ b2) (nonempty_of _ b) refl)
                (λ b3.
                  if-Ensures _ (not (is_empty (fuzzy_unsupported cs))) _ _
                    (λ b.
                      on_unsupported (empty_of _ b1) (empty_of _ b2) (empty_of _ b3)
                        (nonempty_of _ b) refl)
                    (λ b4.
                      if-Ensures _ (not (is_empty (fuzzy_cannot cs))) _ _
                        (λ b.
                          on_cannot (empty_of _ b1) (empty_of _ b2) (empty_of _ b3) (empty_of _ b4)
                            (nonempty_of _ b) refl)
                        (λ b5. draft_rows-Row (
                          empty_of _ b1,
                          empty_of _ b2,
                          empty_of _ b3,
                          empty_of _ b4,
                          empty_of _ b5,
                        )))))))
