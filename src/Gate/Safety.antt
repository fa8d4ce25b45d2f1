-- ===== src/Gate/Safety.antt =====
-- What `decide` promises: bounded revisions, the order of severity, and what lies behind a draft
-- that goes to a person.
use max_ed.Base.{
  ℕ, ◌<◌, String, ◌≡◌, refl, sym, ap, ◌∙◌, ◌≢◌, inl, inr, Bool, true, false, not, ◌&&◌, ◌||◌,
  Option, none, some, List, [], ◌∷◌, arith, ltb, if◌then◌else◌, ltb→lt, Bool-cases, is_some, any,
  filter, is_empty, Result, ok, raise, ◌>>=◌, >>=-eq-ok, Ensures-ok, >>=-Ensures,
}
use max_ed.Contracts.{
  Ledger, fail, unverifiable, GateAction, revise, abstain, escalate, human_gate, Claim,
  GateDecision,
}
use max_ed.Gate.{
  reason_loop, status_of, has_status, is_existence, gate_decision, ambiguous_decision,
  ambiguity_decision,
}
use max_ed.Derive.Ambiguity.{ambiguous_allocations}
use max_ed.Gate.Itemization.{itemization_inconsistency}
use max_ed.Gate.Matrix.{
  exist_fails, unverifiable_claims, fabricated_row, unverifiable_row, correctable_row,
  unsupported_row, cannot_determine_row, itemization_row, incomplete_row, all_pass_row,
  repeats_earlier_hash, is_revise, guard_loop, looped, missing_completeness, match_matrix, decide,
}
use max_ed.Gate.Rows.{
  NoFailure, Row, on_fabricated, on_unverifiable, on_correctable, on_unsupported, on_cannot,
  on_ambiguous, on_itemization, on_incomplete, on_all_pass, match_matrix-Row,
}

ambiguity_decision-none :
    (l : Ledger) → ambiguity_decision l ≡ ok none → ambiguous_allocations l ≡ ok []
unfolding ambiguity_decision ambiguous_decision
ambiguity_decision-none l h = go (ambiguous_allocations l) h
  where
    go :
        (m : Result (List (String × List String)))
        → (m >>= λ pairs. ok (ambiguous_decision pairs)) ≡ ok none
        → m ≡ ok []
    go (ok []) e = refl
    go (ok (p ∷ ps)) e = cc
    go (raise x) e = cc

-- A decision that is there abstains.
abbrev IsAbstain : Option GateDecision → Type 0
IsAbstain none = Unit
IsAbstain (some d) = d.action ≡ abstain

ambiguous_decision-IsAbstain :
    (pairs : List (String × List String)) → IsAbstain (ambiguous_decision pairs)
unfolding ambiguous_decision
ambiguous_decision-IsAbstain [] = tt
ambiguous_decision-IsAbstain (p ∷ ps) = refl

pub ambiguity_decision-abstain :
    (l : Ledger) (d : GateDecision) → ambiguity_decision l ≡ ok (some d) → d.action ≡ abstain
unfolding ambiguity_decision
ambiguity_decision-abstain l d h =
    Ensures-ok IsAbstain _
      (>>=-Ensures IsAbstain (ambiguous_allocations l) _
        (λ pairs e. ambiguous_decision-IsAbstain pairs))
      h

-- Of a revision and an escalation, the revision only within the budget.
budget_lt :
    (n budget : ℕ) (x y : GateDecision)
    → y.action ≡ escalate
    → (if ltb n budget then x else y).action ≡ revise
    → n < budget
budget_lt n budget x y h e = ltb→lt n budget (go (ltb n budget) e)
  where
    go : (b : Bool) → (if b then x else y).action ≡ revise → b ≡ true
    go true e = refl
    go false e = cc

not_gated :
    (b : Bool) (x y : GateDecision)
    → y.action ≡ escalate
    → x.action ≡ revise
    → (if b then x else y).action ≢ human_gate
not_gated true x y h k = λ e. cc
not_gated false x y h k = λ e. cc

guard_loop-revise :
    (hs : List String) (m : GateDecision)
    → (guard_loop hs m).action ≡ revise
    → (m.action ≡ revise) × (repeats_earlier_hash hs ≡ false)
unfolding guard_loop
guard_loop-revise hs m a = go m.action (repeats_earlier_hash hs) refl a
  where
    go :
        (x : GateAction) (b : Bool)
        → m.action ≡ x
        → (if is_revise x && b
            then gate_decision escalate reason_loop m.findings (looped hs)
            else m).action
          ≡ revise
        → (m.action ≡ revise) × (b ≡ false)
    go revise true h e = cc
    go revise false h e = (h, refl)
    go abstain b h e = cc
    go escalate b h e = cc
    go human_gate b h e = cc

guard_loop-human_gate :
    (hs : List String) (m : GateDecision)
    → (guard_loop hs m).action ≡ human_gate
    → m.action ≡ human_gate
unfolding guard_loop
guard_loop-human_gate hs m a = go (is_revise m.action && repeats_earlier_hash hs) a
  where
    go :
        (b : Bool)
        → (if b then gate_decision escalate reason_loop m.findings (looped hs) else m).action
          ≡ human_gate
        → m.action ≡ human_gate
    go true e = cc
    go false e = e

-- A claim that stops the draft at once.
abbrev pub blocking : Claim → Bool
blocking c =
    (is_existence c.claim_type && has_status fail c)
    || (has_status unverifiable c || not (is_some (status_of c)))

-- A claim that a filter keeps.
any-filter :
    (p : Claim → Bool) (cs : List Claim) → any p cs ≡ true → not (is_empty (filter p cs)) ≡ true
any-filter p [] h = cc
any-filter p (c ∷ cs) h = ground (arith, any-filter p cs)

any-or :
    (p q : Claim → Bool) (cs : List Claim)
    → any (λ c. p c || q c) cs ≡ true
    → any p cs ≡ false
    → any q cs ≡ true
any-or p q [] h k = h
any-or p q (c ∷ cs) h k = ground (arith, any-or p q cs)

filter-any :
    (p : Claim → Bool) (cs : List Claim) → not (is_empty (filter p cs)) ≡ false → any p cs ≡ false
filter-any p [] h = refl
filter-any p (c ∷ cs) h = ground (arith, filter-any p cs)

module _ (extract : String → Ledger → Result (List Claim)) (cs : List Claim) (l : Ledger) (n : ℕ)
    (draft : String) where
  Row-revise : (d : GateDecision) → Row extract cs l n draft d → d.action ≡ revise → n < 2
  unfolding fabricated_row unverifiable_row correctable_row unsupported_row cannot_determine_row
      itemization_row incomplete_row all_pass_row
  Row-revise d (on_fabricated h e) a = cc
  Row-revise d (on_unverifiable h1 h e) a = cc
  Row-revise d (on_correctable h1 h2 h e) a =
      budget_lt n 2 _ _ refl (sym (ap (λ (x : GateDecision). x.action) e) ∙ a)
  Row-revise d (on_unsupported h1 h2 h3 h e) a =
      omega (arith, budget_lt n 1 _ _ refl (sym (ap (λ (x : GateDecision). x.action) e) ∙ a))
  Row-revise d (on_cannot h1 h2 h3 h4 h e) a = cc
  Row-revise d (on_ambiguous h e) a = let h = ambiguity_decision-abstain l d e in cc
  Row-revise d (on_itemization h ha f i e) a =
      budget_lt n 2 _ _ refl (sym (ap (λ (x : GateDecision). x.action) e) ∙ a)
  Row-revise d (on_incomplete h ha i m em q e) a =
      budget_lt n 2 _ _ refl (sym (ap (λ (x : GateDecision). x.action) e) ∙ a)
  Row-revise d (on_all_pass h ha i m e) a = cc

  -- What lies behind a draft that goes to a person.
  abbrev pub Clean : Type 0
  Clean =
      NoFailure cs
      × (ambiguous_allocations l ≡ ok [])
      × (itemization_inconsistency cs l ≡ ok none)
      × (missing_completeness extract cs l draft ≡ ok [])

  Row-human_gate : (d : GateDecision) → Row extract cs l n draft d → d.action ≡ human_gate → Clean
  unfolding fabricated_row unverifiable_row correctable_row unsupported_row cannot_determine_row
      itemization_row incomplete_row all_pass_row
  Row-human_gate d (on_fabricated h e) a = cc
  Row-human_gate d (on_unverifiable h1 h e) a = cc
  Row-human_gate d (on_correctable h1 h2 h e) a =
      absurd (not_gated _ _ _ refl refl (sym (ap (λ (x : GateDecision). x.action) e) ∙ a))
  Row-human_gate d (on_unsupported h1 h2 h3 h e) a =
      absurd (not_gated _ _ _ refl refl (sym (ap (λ (x : GateDecision). x.action) e) ∙ a))
  Row-human_gate d (on_cannot h1 h2 h3 h4 h e) a = cc
  Row-human_gate d (on_ambiguous h e) a = let h = ambiguity_decision-abstain l d e in cc
  Row-human_gate d (on_itemization h ha f i e) a =
      absurd (not_gated _ _ _ refl refl (sym (ap (λ (x : GateDecision). x.action) e) ∙ a))
  Row-human_gate d (on_incomplete h ha i m em q e) a =
      absurd (not_gated _ _ _ refl refl (sym (ap (λ (x : GateDecision). x.action) e) ∙ a))
  Row-human_gate d (on_all_pass h ha i m e) a = (h, ambiguity_decision-none l ha, i, m)

  -- The matrix's decision behind the one that `decide` returns.
  decide_lem :
      (hs : List String) (d : GateDecision)
      → decide extract cs l n hs draft ≡ ok d
      → (m : GateDecision) × Row extract cs l n draft m × (guard_loop hs m ≡ d)
  unfolding decide
  decide_lem hs d e =
      let (m, em, eg) =
        >>=-eq-ok (match_matrix extract cs l n draft) (λ x. ok (guard_loop hs x)) e in
      (m, match_matrix-Row extract cs l n draft m em, cc)

  -- Whatever the claims, the ledger and the draft: a decision to revise comes only below the
  -- revision budget of two, and never for a draft whose hash already appeared.
  pub decide-revise :
      (hs : List String) (d : GateDecision)
      → decide extract cs l n hs draft ≡ ok d
      → d.action ≡ revise
      → (n < 2) × (repeats_earlier_hash hs ≡ false)
  decide-revise hs d e a =
      let (m, row, eg) = decide_lem hs d e in
      let (am, again) = guard_loop-revise hs m (ap (λ (x : GateDecision). x.action) eg ∙ a) in
      (Row-revise m row am, again)

  -- What the rows say of a draft that a person is handed.
  pub decide-Clean :
      (hs : List String) (d : GateDecision)
      → decide extract cs l n hs draft ≡ ok d
      → d.action ≡ human_gate
      → Clean
  decide-Clean hs d e a =
      let (m, row, eg) = decide_lem hs d e in
      Row-human_gate m row (guard_loop-human_gate hs m (ap (λ (x : GateDecision). x.action) eg ∙ a))

  -- Where some claim of existence has failed, or some claim is unverifiable or was never checked,
  -- `decide` returns a decision and it escalates: at any revision, whatever the other claims, the
  -- draft, the earlier drafts and the extractor.
  pub decide-blocked :
      (hs : List String)
      → any blocking cs ≡ true
      → (d : GateDecision) × (decide extract cs l n hs draft ≡ ok d) × (d.action ≡ escalate)
  unfolding decide match_matrix exist_fails unverifiable_claims
  decide-blocked hs h = elim (Bool-cases (not (is_empty (exist_fails cs)))) [
    | inl fake ↦ (fabricated_row (exist_fails cs), rw (fake), refl)
    | inr real ↦
        let stuck = any-filter _ cs (any-or _ _ cs h (filter-any _ cs real)) in
        (unverifiable_row (unverifiable_claims cs), rw (real, stuck), refl)
  ]
