-- ===== src/Gate/Severity.antt =====
-- How severe a claim is for its draft, apart from the lists of gate/policy.py: the decision of
-- `_match_matrix` is the one on the most severe concern.
use max_ed.Base.{
  ℕ, String, ◌≡◌, refl, inl, inr, Bool, true, false, List, [], ◌∷◌, map, arith, ltb, if◌then◌else◌,
  Bool-cases, any, filter, is_empty, Result, ok, All,
}
use max_ed.Contracts.{Ledger, GateAction, revise, escalate, Claim, Finding, GateDecision}
use max_ed.Gate.{
  reason_fabricated, reason_unverifiable, reason_correctable, reason_budget_exhausted,
  reason_unsupported, reason_unsupported_exhausted, reason_cannot_determine,
}
use max_ed.Gate.Matrix.{
  fabricated_row, unverifiable_row, correctable_row, unsupported_row, cannot_determine_row,
  match_matrix,
}
use max_ed.Gate.Concern.{
  Concern, fabricated, never_verified, contradicted, unsupported_text, undetermined, worse_than,
  raises, exist_fails-eq, unverifiable_claims-eq, code_fails-eq, fuzzy_unsupported-eq,
  fuzzy_cannot-eq,
}

filter-none : (p : Claim → Bool) (cs : List Claim) → any p cs ≡ false → filter p cs ≡ []
filter-none p [] h = refl
filter-none p (c ∷ cs) h = ground (arith, filter-none p cs)

filter-some :
    (p : Claim → Bool) (cs : List Claim) → any p cs ≡ true → is_empty (filter p cs) ≡ false
filter-some p [] h = cc
filter-some p (c ∷ cs) h = ground (arith, filter-some p cs)

-- What the policy asks for on a concern: the model may revise what the ledger contradicts twice, and
-- an unsupported statement once; all else goes to a person as an escalation.
abbrev pub action_for : Concern → ℕ → GateAction
action_for fabricated n = escalate
action_for never_verified n = escalate
action_for contradicted n = if ltb n 2 then revise else escalate
action_for unsupported_text n = if ltb n 1 then revise else escalate
action_for undetermined n = escalate

abbrev pub reason_for : Concern → ℕ → String
reason_for fabricated n = reason_fabricated
reason_for never_verified n = reason_unverifiable
reason_for contradicted n = if ltb n 2 then reason_correctable else reason_budget_exhausted
reason_for unsupported_text n = if ltb n 1 then reason_unsupported else reason_unsupported_exhausted
reason_for undetermined n = reason_cannot_determine

-- The decision on a concern: its findings name the claims that raise it, in their order.
abbrev pub Rules : Concern → ℕ → List Claim → GateDecision → Type 0
Rules k n cs d =
    (d.action ≡ action_for k n)
    × (d.reason ≡ reason_for k n)
    × (map (λ (f : Finding). f.claim_id) d.findings
        ≡ map (λ (c : Claim). c.claim_id) (filter (raises k) cs))

ids_kept :
    (f : Claim → Finding) (cs : List Claim)
    → ((c : Claim) → (f c).claim_id ≡ c.claim_id)
    → map (λ (g : Finding). g.claim_id) (map f cs) ≡ map (λ (c : Claim). c.claim_id) cs
ids_kept f [] h = refl
ids_kept f (c ∷ cs) h = rw (h c, ids_kept f cs h)

module _ (n : ℕ) (cs : List Claim) where
  fabricated-Rules : Rules fabricated n cs (fabricated_row (filter (raises fabricated) cs))
  unfolding fabricated_row
  fabricated-Rules = (refl, refl, ids_kept _ _ (λ c. refl))

  unverifiable-Rules :
      Rules never_verified n cs (unverifiable_row (filter (raises never_verified) cs))
  unfolding unverifiable_row
  unverifiable-Rules = (refl, refl, ids_kept _ _ (λ c. refl))

  correctable-Rules : Rules contradicted n cs (correctable_row n (filter (raises contradicted) cs))
  unfolding correctable_row
  correctable-Rules = elim (Bool-cases (ltb n 2)) [
    | inl early ↦ rw early (refl, refl, ids_kept _ _ (λ c. refl))
    | inr late ↦ rw late (refl, refl, ids_kept _ _ (λ c. refl))
  ]

  unsupported-Rules :
      Rules unsupported_text n cs (unsupported_row n (filter (raises unsupported_text) cs))
  unfolding unsupported_row
  unsupported-Rules = elim (Bool-cases (ltb n 1)) [
    | inl early ↦ rw early (refl, refl, ids_kept _ _ (λ c. refl))
    | inr late ↦ rw late (refl, refl, ids_kept _ _ (λ c. refl))
  ]

  cannot_determine-Rules :
      Rules undetermined n cs (cannot_determine_row (filter (raises undetermined) cs))
  unfolding cannot_determine_row
  cannot_determine-Rules = (refl, refl, ids_kept _ _ (λ c. refl))

module _ (extract : String → Ledger → Result (List Claim)) (cs : List Claim) (l : Ledger) (n : ℕ)
    (draft : String) where
  -- Where some claim raises a concern and none raises a more severe one, the matrix decides on that
  -- concern: with its action at this revision, its reason, and findings that name exactly the claims
  -- that raise it. Most severe are fabricated documents, then claims that are unverifiable or were
  -- never checked, then what the ledger contradicts, what the records do not support, and what they
  -- do not determine: whatever the ledger, the draft and the extractor.
  pub match_matrix-worst :
      (k : Concern)
      → any (raises k) cs ≡ true
      → All (λ j. any (raises j) cs ≡ false) (worse_than k)
      → (d : GateDecision) × (match_matrix extract cs l n draft ≡ ok d) × Rules k n cs d
  unfolding match_matrix
  match_matrix-worst fabricated here h = (
    fabricated_row (filter (raises fabricated) cs),
    rw (exist_fails-eq cs, filter-some _ cs here) refl,
    fabricated-Rules n cs,
  )
  match_matrix-worst never_verified here h = (
    unverifiable_row (filter (raises never_verified) cs),
    rw (exist_fails-eq cs, unverifiable_claims-eq cs, filter-none _ cs h.0, filter-some _ cs here)
        refl,
    unverifiable-Rules n cs,
  )
  match_matrix-worst contradicted here h = (
    correctable_row n (filter (raises contradicted) cs),
    rw
        (
          exist_fails-eq cs,
          unverifiable_claims-eq cs,
          code_fails-eq cs,
          filter-none _ cs h.0,
          filter-none _ cs h.1.0,
          filter-some _ cs here,
        )
        refl,
    correctable-Rules n cs,
  )
  match_matrix-worst unsupported_text here h = (
    unsupported_row n (filter (raises unsupported_text) cs),
    rw
        (
          exist_fails-eq cs,
          unverifiable_claims-eq cs,
          code_fails-eq cs,
          fuzzy_unsupported-eq cs,
          filter-none _ cs h.0,
          filter-none _ cs h.1.0,
          filter-none _ cs h.1.1.0,
          filter-some _ cs here,
        )
        refl,
    unsupported-Rules n cs,
  )
  match_matrix-worst undetermined here h = (
    cannot_determine_row (filter (raises undetermined) cs),
    rw
        (
          exist_fails-eq cs,
          unverifiable_claims-eq cs,
          code_fails-eq cs,
          fuzzy_unsupported-eq cs,
          fuzzy_cannot-eq cs,
          filter-none _ cs h.0,
          filter-none _ cs h.1.0,
          filter-none _ cs h.1.1.0,
          filter-none _ cs h.1.1.1.0,
          filter-some _ cs here,
        )
        refl,
    cannot_determine-Rules n cs,
  )
