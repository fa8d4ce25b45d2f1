-- ===== src/Gate/Release.antt =====
-- The checks, the gate and the scorer together: what a draft that reaches a person has been through.
use mathlib.Core.Path.{subst}
use max_ed.Base.{
  All-map, ℕ, String, ◌≡◌, refl, ap, ◌∙◌, ◌⊎◌, inl, inr, Bool, true, false, not, ◌&&◌, ◌||◌, none,
  List, [], ◌∷◌, map, arith, Bool-cases, is_some, length, all, filter, All, is_blank, Result, ok,
  >>=-eq-ok, All₂, or_left, some,
}
use max_ed.Contracts.{
  Ledger, ClaimType, c_exist, c_amt, c_sum, c_status, c_date, c_fuzzy, code_checked, CheckStatus,
  pass, fail, unsupported, cannot_determine, unverifiable, human_gate, Claim, GateDecision,
  CheckResult,
}
use max_ed.Gate.{status_of, same_status, has_status, is_fuzzy, is_existence, code_fail_kind}
use max_ed.Checks.Frame.{Checked, check_all-Checked}
use max_ed.Checks.Fuzzy.{Response, is_pass}
use max_ed.Checks.Registry.{check_all}
use max_ed.Checks.FuzzyVerdicts.{FuzzyStatus}
use max_ed.Checks.Verdicts.{CodeStatus}
use max_ed.Derive.Ambiguity.{ambiguous_allocations}
use max_ed.Gate.Matrix.{
  exist_fails, unverifiable_claims, code_fails, fuzzy_unsupported, fuzzy_cannot, decide,
  missing_completeness,
}
use max_ed.Gate.Rows.{NoFailure}
use max_ed.Gate.Safety.{decide-Clean}
use max_ed.Score.{Item, passes, grounding, completeness, completeness_items}
use max_ed.Score.Grounding.{grounding_counts}

-- A filter that keeps nothing.
filter-nil : (p : Claim → Bool) (cs : List Claim) → filter p cs ≡ [] → All (λ c. p c ≡ false) cs
filter-nil p [] h = tt
filter-nil p (c ∷ cs) h = ground (arith, filter-nil p cs)

-- A status that a kind of claim can get.
abbrev StatusOf : ClaimType → CheckStatus → Type 0
StatusOf t s = (code_checked t ≡ true × CodeStatus s) ⊎ (code_checked t ≡ false × FuzzyStatus s)

-- A status that the kind can get and that no row matches is a pass.
unmatched-pass :
    (t : ClaimType) (s : CheckStatus)
    → StatusOf t s
    → (is_existence t && same_status s fail) ≡ false
    → same_status s unverifiable ≡ false
    → (is_some (code_fail_kind t) && same_status s fail) ≡ false
    → (is_fuzzy t && same_status s unsupported) ≡ false
    → (is_fuzzy t && same_status s cannot_determine) ≡ false
    → s ≡ pass
unmatched-pass t pass j h1 h2 h3 h4 h5 = refl
unmatched-pass t unverifiable j h1 h2 h3 h4 h5 = cc
unmatched-pass c_fuzzy unsupported j h1 h2 h3 h4 h5 = cc
unmatched-pass c_fuzzy cannot_determine j h1 h2 h3 h4 h5 = cc
unmatched-pass c_fuzzy fail j h1 h2 h3 h4 h5 = ground arith
unmatched-pass c_exist fail j h1 h2 h3 h4 h5 = cc
unmatched-pass c_amt fail j h1 h2 h3 h4 h5 = cc
unmatched-pass c_sum fail j h1 h2 h3 h4 h5 = cc
unmatched-pass c_status fail j h1 h2 h3 h4 h5 = cc
unmatched-pass c_date fail j h1 h2 h3 h4 h5 = cc
unmatched-pass t s (inl (kind, inl e)) h1 h2 h3 h4 h5 = e
unmatched-pass t s (inl (kind, inr (inl e))) h1 h2 h3 h4 h5 = ground arith
unmatched-pass t s (inl (kind, inr (inr e))) h1 h2 h3 h4 h5 = ground arith
unmatched-pass t s (inr (kind, j)) h1 h2 h3 h4 h5 = ground arith

-- No row matches the claim.
abbrev pub Unmatched : Claim → Type 0
Unmatched c =
    ((is_existence c.claim_type && has_status fail c) ≡ false)
    × ((has_status unverifiable c || not (is_some (status_of c))) ≡ false)
    × ((is_some (code_fail_kind c.claim_type) && has_status fail c) ≡ false)
    × ((is_fuzzy c.claim_type && has_status unsupported c) ≡ false)
    × ((is_fuzzy c.claim_type && has_status cannot_determine c) ≡ false)

All-zip :
    (P Q R S T : Claim → Type 0) (cs : List Claim)
    → All P cs
    → All Q cs
    → All R cs
    → All S cs
    → All T cs
    → All (λ c. P c × Q c × R c × S c × T c) cs
All-zip P Q R S T [] p q r s t = tt
All-zip P Q R S T (c ∷ cs) p q r s t =
    ((p.0, q.0, r.0, s.0, t.0), All-zip P Q R S T cs p.1 q.1 r.1 s.1 t.1)

pub NoFailure-Unmatched : (cs : List Claim) → NoFailure cs → All Unmatched cs
unfolding exist_fails unverifiable_claims code_fails fuzzy_unsupported fuzzy_cannot
NoFailure-Unmatched cs (h1, h2, h3, h4, h5) =
    All-zip _ _ _ _ _ cs (filter-nil _ cs h1) (filter-nil _ cs h2) (filter-nil _ cs h3)
      (filter-nil _ cs h4) (filter-nil _ cs h5)

-- A fresh claim that the pass has judged and that no row matches has passed.
pub Checked-passes :
    (c d : Claim) → Checked c d → c.check_result ≡ none → Unmatched d → passes d ≡ true
Checked-passes c d (inl (full, same)) fresh u = cc
Checked-passes c d (inr (r, eq, empty, judged)) fresh u =
    let (h1, h2, h3, h4, h5) = subst Unmatched eq u in
    let p = unmatched-pass c.claim_type r.status judged h1 (or_left _ _ h2) h3 h4 h5 in
    ap passes eq ∙ ap is_pass p

-- A claim that the checks still have to judge, or one that was marked as unverifiable before them.
abbrev pub Unjudged : Claim → Type 0
Unjudged c =
    (c.check_result ≡ none)
    ⊎ ((v : CheckResult) × (c.check_result ≡ some v) × (v.status ≡ unverifiable))

-- A claim marked as unverifiable stays so, and then a row matches it.
Unjudged-passes : (c d : Claim) → Checked c d → Unjudged c → Unmatched d → passes d ≡ true
Unjudged-passes c d h (inl fresh) u = Checked-passes c d h fresh u
Unjudged-passes c d (inl (full, same)) (inr (v, e, bad)) u =
    ground (arith, ap (λ (x : Claim). x.check_result) same)
Unjudged-passes c d (inr (r, eq, empty, judged)) (inr (v, e, bad)) u = cc

All₂-passes :
    (cs ds : List Claim)
    → All₂ Checked cs ds
    → All Unjudged cs
    → All Unmatched ds
    → all passes ds ≡ true
All₂-passes [] [] h f u = refl
All₂-passes [] (d ∷ ds) h f u = absurd h
All₂-passes (c ∷ cs) [] h f u = absurd h
All₂-passes (c ∷ cs) (d ∷ ds) h f u =
    let one = Unjudged-passes c d h.0 f.0 u.0 in
    let rest = All₂-passes cs ds h.1 f.1 u.1 in rw (one, rest)

all-filter : (p q : Claim → Bool) (cs : List Claim) → all p cs ≡ true → all p (filter q cs) ≡ true
all-filter p q [] h = refl
all-filter p q (c ∷ cs) h = ground (arith, all-filter p q cs)

-- The items that apply and are absent are none: the present ones are all that apply.
counts_full :
    (items : List Item)
    → map {B = String × String}
        (λ (i : Item). (i.name, i.hint))
        (filter (λ (i : Item). i.applicable && not i.present) items)
      ≡ []
    → length (filter (λ (i : Item). i.present) (filter (λ (i : Item). i.applicable) items))
      ≡ length (filter (λ (i : Item). i.applicable) items)
counts_full [] h = refl
counts_full (i ∷ items) h = elim (Bool-cases i.applicable) [
  | inl applies ↦ elim (Bool-cases i.present) [
    | inl there ↦ ground (arith, counts_full items)
    | inr absent ↦ ground arith
  ]
  | inr exempt ↦ ground (arith, counts_full items)
]

module _ (client : Claim → Response) (extract : String → Ledger → Result (List Claim)) where
  completeness-full :
      (cs : List Claim) (l : Ledger) (draft : String)
      → is_blank draft ≡ false
      → missing_completeness extract cs l draft ≡ ok []
      → (k : ℕ) × (completeness extract draft l ≡ ok (k, k))
  unfolding missing_completeness completeness
  completeness-full cs l draft b h =
      let (items, ei, em) =
        >>=-eq-ok (completeness_items extract draft l)
          (λ items. ok (
            map {B = String × String} (λ (i : Item). (i.name, i.hint))
              (filter (λ (i : Item). i.applicable && not i.present) items)))
          (rw b at h) in
      (length (filter (λ (i : Item). i.applicable) items), rw (ei, counts_full items cc))

  -- What lies behind a draft for a person, also where some claims came to the checks as unverifiable.
  pub gated_marked_verified :
      (l : Ledger) (cs ds : List Claim) (n : ℕ) (hs : List String) (draft : String)
      (d : GateDecision)
      → All Unjudged cs
      → check_all client l cs ≡ ok ds
      → is_blank draft ≡ false
      → decide extract ds l n hs draft ≡ ok d
      → d.action ≡ human_gate
      → (all passes ds ≡ true)
        × (ambiguous_allocations l ≡ ok [])
        × ((grounding ds).0 ≡ (grounding ds).1)
        × ((k : ℕ) × (completeness extract draft l ≡ ok (k, k)))
  gated_marked_verified l cs ds n hs draft d fresh checked text decided gated =
      let (no_failure, unambiguous, consistent, complete) =
        decide-Clean extract ds l n draft hs d decided gated in
      let good =
        All₂-passes cs ds (check_all-Checked client l cs ds checked) fresh
          (NoFailure-Unmatched ds no_failure) in
      (
        good,
        unambiguous,
        (grounding_counts ds).3.1
            (all-filter passes (λ (c : Claim). code_checked c.claim_type) ds good),
        completeness-full ds l draft text complete,
      )

  -- A draft that is not empty, whose claims had no verdict before the checks and went through them,
  -- and that `decide` hands to a person, is one whose claims all pass; the ledger has no ambiguous
  -- allocation; and the scorer gives it full marks, for grounding and for completeness: whatever the
  -- client, the extractor, the revision and the drafts before it.
  pub gated_draft_verified :
      (l : Ledger) (cs ds : List Claim) (n : ℕ) (hs : List String) (draft : String)
      (d : GateDecision)
      → All (λ c. c.check_result ≡ none) cs
      → check_all client l cs ≡ ok ds
      → is_blank draft ≡ false
      → decide extract ds l n hs draft ≡ ok d
      → d.action ≡ human_gate
      → (all passes ds ≡ true)
        × (ambiguous_allocations l ≡ ok [])
        × ((grounding ds).0 ≡ (grounding ds).1)
        × ((k : ℕ) × (completeness extract draft l ≡ ok (k, k)))
  gated_draft_verified l cs ds n hs draft d fresh checked text decided gated =
      gated_marked_verified l cs ds n hs draft d (All-map _ _ cs (λ c. inl) fresh) checked text
        decided gated
