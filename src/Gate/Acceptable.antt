-- ===== src/Gate/Acceptable.antt =====
-- What `decide` of gate/policy.py hands to a person, without its lists: a draft without any concern.
use max_ed.Base.{
  ℕ, String, ◌≡◌, refl, sym, ◌∙◌, inl, inr, Bool, true, false, not, ◌&&◌, ◌||◌, Option, none, some,
  List, [], ◌∷◌, map, arith, Bool-cases, all, filter, is_blank, Result, ok, All, >>=-eq-ok, ◌↔◌,
}
use max_ed.Contracts.{Ledger, human_gate, Claim, GateDecision}
use max_ed.Gate.{ambiguity_decision, ambiguous_decision}
use max_ed.Derive.Ambiguity.{ambiguous_allocations}
use max_ed.Gate.Itemization.{itemization_inconsistency}
use max_ed.Gate.Matrix.{
  draft_rows, completeness_rows, all_pass_row, guard_loop, match_matrix, decide,
  missing_completeness,
}
use max_ed.Gate.Safety.{decide-Clean}
use max_ed.Score.{Item, completeness_items}
use max_ed.Gate.Concern.{
  Concern, fabricated, never_verified, contradicted, unsupported_text, undetermined, concern_of,
  is_concern, raises, exist_fails-eq, unverifiable_claims-eq, code_fails-eq, fuzzy_unsupported-eq,
  fuzzy_cannot-eq,
}

no_concern :
    (o : Option Concern)
    → is_concern fabricated o ≡ false
    → is_concern never_verified o ≡ false
    → is_concern contradicted o ≡ false
    → is_concern unsupported_text o ≡ false
    → is_concern undetermined o ≡ false
    → o ≡ none
no_concern none h1 h2 h3 h4 h5 = refl
no_concern (some fabricated) h1 h2 h3 h4 h5 = cc
no_concern (some never_verified) h1 h2 h3 h4 h5 = cc
no_concern (some contradicted) h1 h2 h3 h4 h5 = cc
no_concern (some unsupported_text) h1 h2 h3 h4 h5 = cc
no_concern (some undetermined) h1 h2 h3 h4 h5 = cc

filter-head :
    (p : Claim → Bool) (c : Claim) (cs : List Claim)
    → filter p (c ∷ cs) ≡ []
    → (p c ≡ false) × (filter p cs ≡ [])
filter-head p c cs h = elim (Bool-cases (p c)) [
  | inl kept ↦ absurd (ground arith)
  | inr gone ↦ (gone, rw gone at h)
]

quiet :
    (cs : List Claim)
    → filter (raises fabricated) cs ≡ []
    → filter (raises never_verified) cs ≡ []
    → filter (raises contradicted) cs ≡ []
    → filter (raises unsupported_text) cs ≡ []
    → filter (raises undetermined) cs ≡ []
    → All (λ c. concern_of c ≡ none) cs
quiet [] h1 h2 h3 h4 h5 = tt
quiet (c ∷ cs) h1 h2 h3 h4 h5 =
    let a = filter-head (raises fabricated) c cs h1 in
    let b = filter-head (raises never_verified) c cs h2 in
    let d = filter-head (raises contradicted) c cs h3 in
    let e = filter-head (raises unsupported_text) c cs h4 in
    let f = filter-head (raises undetermined) c cs h5 in
    (no_concern (concern_of c) a.0 b.0 d.0 e.0 f.0, quiet cs a.1 b.1 d.1 e.1 f.1)

quiet-filter :
    (k : Concern) (cs : List Claim) → All (λ c. concern_of c ≡ none) cs → filter (raises k) cs ≡ []
quiet-filter k [] h = refl
quiet-filter k (c ∷ cs) h = rw (h.0, quiet-filter k cs h.1)

-- Every item that applies is there, as no item is missing.
abbrev pub met : Item → Bool
met i = not i.applicable || i.present

met-missing :
    (items : List Item)
    → (all met items ≡ true) ↔ (
        map {B = String × String}
          (λ (i : Item). (i.name, i.hint))
          (filter (λ (i : Item). i.applicable && not i.present) items)
        ≡ [])
met-missing [] = ((λ h. refl), (λ h. refl))
met-missing (i ∷ items) = elim (Bool-cases i.applicable) [
  | inl applies ↦ elim (Bool-cases i.present) [
    | inl there ↦ rw (applies, there) (met-missing items)
    | inr absent ↦ rw (applies, absent) ((λ h. cc), (λ h. cc))
  ]
  | inr exempt ↦ rw exempt (met-missing items)
]

module _ (extract : String → Ledger → Result (List Claim)) (cs : List Claim) (l : Ledger) (n : ℕ)
    (draft : String) where
  -- No claim raises a concern, the ledger has no ambiguous allocation, the itemization is consistent,
  -- and each item of the checklist that applies is in the draft.
  abbrev pub Acceptable : Type 0
  Acceptable =
      All (λ c. concern_of c ≡ none) cs
      × (ambiguous_allocations l ≡ ok [])
      × (itemization_inconsistency cs l ≡ ok none)
      × ((items : List Item) × (completeness_items extract draft l ≡ ok items)
          × (all met items ≡ true))

  missing-met :
      is_blank draft ≡ false
      → missing_completeness extract cs l draft ≡ ok []
      → (items : List Item) × (completeness_items extract draft l ≡ ok items)
        × (all met items ≡ true)
  unfolding missing_completeness
  missing-met b h =
      let (items, ei, em) =
        >>=-eq-ok (completeness_items extract draft l)
          (λ items. ok (
            map {B = String × String} (λ (i : Item). (i.name, i.hint))
              (filter (λ (i : Item). i.applicable && not i.present) items)))
          (rw b at h) in
      (items, ei, (met-missing items).1 cc)

  Acceptable-passes :
      (hs : List String)
      → is_blank draft ≡ false
      → Acceptable
      → decide extract cs l n hs draft ≡ ok all_pass_row
  unfolding decide match_matrix draft_rows ambiguity_decision ambiguous_decision completeness_rows
      missing_completeness guard_loop all_pass_row
  Acceptable-passes hs b (fine, unambiguous, consistent, (items, ei, there)) =
      rw
        (
          exist_fails-eq cs,
          unverifiable_claims-eq cs,
          code_fails-eq cs,
          fuzzy_unsupported-eq cs,
          fuzzy_cannot-eq cs,
          quiet-filter fabricated cs fine,
          quiet-filter never_verified cs fine,
          quiet-filter contradicted cs fine,
          quiet-filter unsupported_text cs fine,
          quiet-filter undetermined cs fine,
          unambiguous,
          consistent,
          b,
          ei,
          (met-missing items).0 there,
        )
        refl

  -- A draft that is not empty and on which `decide` returns a decision is handed to a person exactly
  -- where it is acceptable: each claim has a verdict that raises no concern for its kind, the ledger
  -- has no ambiguous allocation, the itemization is consistent, and each item of the checklist that
  -- applies is in the draft. It holds at any revision and whatever the drafts before it.
  pub decide-human_gate :
      (hs : List String) (d : GateDecision)
      → is_blank draft ≡ false
      → decide extract cs l n hs draft ≡ ok d
      → (d.action ≡ human_gate) ↔ Acceptable
  unfolding all_pass_row
  decide-human_gate hs d b e = (
    (λ a.
        let ((h1, h2, h3, h4, h5), unambiguous, consistent, complete) =
          decide-Clean extract cs l n draft hs d e a in
        (
          quiet cs (sym (exist_fails-eq cs) ∙ h1) (sym (unverifiable_claims-eq cs) ∙ h2)
              (sym (code_fails-eq cs) ∙ h3) (sym (fuzzy_unsupported-eq cs) ∙ h4)
              (sym (fuzzy_cannot-eq cs) ∙ h5),
          unambiguous,
          consistent,
          missing-met b complete,
        )),
    (λ fit. let same = sym e ∙ Acceptable-passes hs b fit in ground (arith, same)),
  )
