-- ===== src/Score/Grounding.antt =====
-- The two counts of `grounding`, against independent counts.
use max_ed.Base.{
  ℕ, ◌+◌, ◌≤◌, ◌≡◌, refl, ◌↔◌, inl, inr, Bool, true, List, [], ◌∷◌, arith, Bool-cases, length, all,
  filter, length-filter-le,
}
use max_ed.Contracts.{code_checked, Claim}
use max_ed.Score.{passes, grounding_from, grounding}

grounding_from_lem :
    (p t : ℕ) (cs : List Claim)
    → ((grounding_from p t cs).0
        ≡ p + length (filter passes (filter (λ (c : Claim). code_checked c.claim_type) cs)))
      × ((grounding_from p t cs).1
          ≡ t + length (filter (λ (c : Claim). code_checked c.claim_type) cs))
unfolding grounding_from
grounding_from_lem p t [] = (omega arith, omega arith)
grounding_from_lem p t (c ∷ cs) =
    let skipped = grounding_from_lem p t cs in
    let passed = grounding_from_lem (p + 1) (t + 1) cs in
    let failed = grounding_from_lem p (t + 1) cs in
    elim (Bool-cases (code_checked c.claim_type)) [
      | inl counted ↦ elim (Bool-cases (passes c)) [
        | inl good ↦ (ground (arith, passed.0), ground (arith, passed.1))
        | inr bad ↦ (ground (arith, failed.0), ground (arith, failed.1))
      ]
      | inr other_kind ↦ (ground (arith, skipped.0), ground (arith, skipped.1))
    ]

module _ {ℓ} {A : Type ℓ} (p : A → Bool) where
  length-filter-eq : (xs : List A) → length (filter p xs) ≡ length xs → all p xs ≡ true
  length-filter-eq [] h = refl
  length-filter-eq (x ∷ xs) h = ground (arith, length-filter-eq xs, length-filter-le p xs)

  length-filter-all : (xs : List A) → all p xs ≡ true → length (filter p xs) ≡ length xs
  length-filter-all [] h = refl
  length-filter-all (x ∷ xs) h = ground (arith, length-filter-all xs)

-- The two counters of the loop count the claims that code checks, and those of them that pass: the
-- first is never above the second, and they are equal exactly when every claim that code checks
-- passes.
pub grounding_counts :
    (cs : List Claim)
    → (let checked = filter (λ (c : Claim). code_checked c.claim_type) cs in
        ((grounding cs).0 ≡ length (filter passes checked))
        × ((grounding cs).1 ≡ length checked)
        × ((grounding cs).0 ≤ (grounding cs).1)
        × (((grounding cs).0 ≡ (grounding cs).1) ↔ (all passes checked ≡ true)))
unfolding grounding
grounding_counts cs =
    let (h, k) = grounding_from_lem 0 0 cs in
    let checked = filter (λ (c : Claim). code_checked c.claim_type) cs in
    let bound = length-filter-le passes checked in
    (
      omega (arith, h),
      omega (arith, k),
      omega (arith, h, k, bound),
      (
        (λ e. length-filter-eq passes checked (omega (arith, h, k, e))),
        (λ e. omega (arith, h, k, length-filter-all passes checked e)),
      ),
    )
