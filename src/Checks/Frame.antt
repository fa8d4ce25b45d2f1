-- ===== src/Checks/Frame.antt =====
-- What a pass of `check_all` leaves alone and what it fills in.
use mathlib.Core.Path.{subst, ap}
use max_ed.Base.{
  ◌≡◌, refl, ap, ◌∙◌, ◌⊎◌, inl, inr, Bool, true, false, not, Option, none, some, List,
  if◌then◌else◌, is_some, Result, ok, raise, ◌>>=◌, >>=-eq-ok, All₂, All₂-trans, traverse-All₂,
  not-true, not-false,
}
use max_ed.Contracts.{Ledger, code_checked, CheckResult, Claim}
use max_ed.Checks.Registry.{
  code_check, code_step, run_code_checks, fuzzy_step, run_fuzzy_checks, check_all, with_result,
}
use max_ed.Checks.Fuzzy.{Response, check_fuzzy}
use max_ed.Checks.FuzzyVerdicts.{FuzzyStatus, check_fuzzy-FuzzyStatus}
use max_ed.Checks.Verdicts.{CodeStatus, code_check-Coded}

-- The verdict has a status that its kind of claim can get.
abbrev pub Judged : Claim → CheckResult → Type 0
Judged c r =
    (code_checked c.claim_type ≡ true × CodeStatus r.status)
    ⊎ (code_checked c.claim_type ≡ false × FuzzyStatus r.status)

-- What the whole pass does to one claim: a verdict that was there stays, a missing one is filled
-- in, and nothing else changes.
abbrev pub Checked : Claim → Claim → Type 0
Checked c d =
    (is_some c.check_result ≡ true × d ≡ c)
    ⊎ ((r : CheckResult) × (d ≡ with_result c r) × (c.check_result ≡ none) × Judged c r)

-- One round, which skips some claims.
abbrev Stepped : Bool → Option CheckResult → Result CheckResult → Claim → Claim → Type 0
Stepped skip o m c d =
    (is_some o ≡ true × d ≡ c)
    ⊎ (skip ≡ true × d ≡ c)
    ⊎ ((r : CheckResult) × (d ≡ with_result c r) × (o ≡ none) × (skip ≡ false) × (m ≡ ok r))

stepped :
    (skip : Bool) (o : Option CheckResult) (m : Result CheckResult) (c d : Claim)
    → (if skip then ok c else if is_some o then ok c else (m >>= λ r. ok (with_result c r))) ≡ ok d
    → Stepped skip o m c d
stepped true o m c d e = inr (inl (refl, cc))
stepped false (some r) m c d e = inl (refl, cc)
stepped false none (ok r) c d e = inr (inr (r, cc, refl, refl, refl))
stepped false none (raise x) c d e = cc

code_step-Stepped :
    (l : Ledger) (c d : Claim)
    → code_step l c ≡ ok d
    → Stepped (not (code_checked c.claim_type)) c.check_result (code_check c l) c d
unfolding code_step
code_step-Stepped l c d e = stepped (not (code_checked c.claim_type)) c.check_result _ c d e

module _ (client : Claim → Response) where
  fuzzy_step-Stepped :
      (l : Ledger) (c d : Claim)
      → fuzzy_step client l c ≡ ok d
      → Stepped (code_checked c.claim_type) c.check_result (check_fuzzy c l (client c)) c d
  unfolding fuzzy_step
  fuzzy_step-Stepped l c d e = stepped (code_checked c.claim_type) c.check_result _ c d e

  fuzzy_step-Checked :
      (l : Ledger) (c e : Claim)
      → code_checked c.claim_type ≡ false
      → fuzzy_step client l c ≡ ok e
      → Checked c e
  fuzzy_step-Checked l c e kind k = elim (fuzzy_step-Stepped l c e k) [
    | inl (full, same) ↦ inl (full, same)
    | inr (inl (skipped, same)) ↦ cc
    | inr (inr (r, eq, empty, kind', call)) ↦
        inr (r, eq, empty, inr (kind, check_fuzzy-FuzzyStatus c l (client c) call))
  ]

  -- Both rounds on one claim.
  steps-Checked :
      (l : Ledger) (c d e : Claim)
      → code_step l c ≡ ok d
      → fuzzy_step client l d ≡ ok e
      → Checked c e
  steps-Checked l c d e h k = elim (code_step-Stepped l c d h) [
    | inl (full, same) ↦ elim (fuzzy_step-Stepped l d e k) [
      | inl (full', same') ↦ inl (full, same' ∙ same)
      | inr (inl (skipped, same')) ↦ inl (full, same' ∙ same)
      | inr (inr (r, eq, empty, kind, call)) ↦ cc
    ]
    | inr (inl (kind, same)) ↦
        fuzzy_step-Checked l c e (not-true _ kind)
          (subst (λ x. fuzzy_step client l x ≡ ok e) same k)
    | inr (inr (r, eq, empty, kind, call)) ↦ elim (fuzzy_step-Stepped l d e k) [
      | inl (full', same') ↦
          inr (r, same' ∙ eq, empty, inl (not-false _ kind, code_check-Coded c l call))
      | inr (inl (skipped, same')) ↦
          inr (r, same' ∙ eq, empty, inl (not-false _ kind, code_check-Coded c l call))
      | inr (inr (r', eq', empty', kind', call')) ↦
          let full = ap (λ (x : Claim). x.check_result) eq in cc
    ]
  ]

  -- A pass of both checkers that returns has given every claim a verdict its kind can get, kept the
  -- verdicts that were there, and changed nothing else: no claim is dropped, added or reordered.
  pub check_all-Checked :
      (l : Ledger) (cs ds : List Claim) → check_all client l cs ≡ ok ds → All₂ Checked cs ds
  unfolding check_all run_code_checks run_fuzzy_checks
  check_all-Checked l cs ds e =
      let (bs, h, k) =
        >>=-eq-ok (run_code_checks l cs) (λ checked. run_fuzzy_checks client l checked) e in
      All₂-trans _ _ Checked cs bs ds (λ c d x p q. steps-Checked l c d x p q)
        (traverse-All₂ (code_step l) cs bs h) (traverse-All₂ (fuzzy_step client l) bs ds k)
