-- ===== src/Money/Percent.antt =====
-- `whole_percent` rounds to the nearest whole percent, and a tie to the even one.
use native.Mathlib.Nat.{div-add-mod'}
use max_ed.Base.Int.{pos}
use max_ed.Base.{
  ℕ, ◌+◌, ◌*◌, ◌/◌, ◌%◌, ◌≤◌, ◌<◌, ◌≡◌, ◌≢◌, inl, inr, arith, ltb, ◌==◌, ==_iff, tests, Bool-cases,
  ok,
}
use max_ed.Money.{round_half_even, whole_percent}

-- What it means that q is the value of p / t rounded half to even.
pub record RoundsTo (p t q : ℕ) : Type 0 where
  pub above : 2 * (q * t) ≤ 2 * p + t
  pub below : 2 * p ≤ 2 * (q * t) + t
  pub tie_above : 2 * (q * t) ≡ 2 * p + t → q % 2 ≡ 0
  pub tie_below : 2 * p ≡ 2 * (q * t) + t → q % 2 ≡ 0

RoundsTo-down :
    (q r p t : ℕ) → q * t + r ≡ p → r < t → 2 * r ≤ t → (2 * r ≡ t → q % 2 ≡ 0) → RoundsTo p t q
RoundsTo-down q r p t e h low tie = record {
  above = omega arith;
  below = omega arith;
  tie_above = λ k. absurd (omega arith);
  tie_below = λ k. tie (omega arith);
}

RoundsTo-up :
    (q r p t : ℕ)
    → q * t + r ≡ p
    → r < t
    → t ≤ 2 * r
    → (2 * r ≡ t → q % 2 ≢ 0)
    → RoundsTo p t (q + 1)
RoundsTo-up q r p t e h high tie = record {
  above = omega arith;
  below = omega arith;
  tie_above = λ k. let odd : q % 2 ≢ 0 = tie (omega arith) in omega arith;
  tie_below = λ k. absurd (omega arith);
}

round_half_even-RoundsTo :
    (q r p t : ℕ) → q * t + r ≡ p → r < t → RoundsTo p t (round_half_even q r t)
round_half_even-RoundsTo q r p t e h = elim (Bool-cases (ltb (2 * r) t)) [
  | inl low ↦ rw low (RoundsTo-down q r p t e h (omega tests) (λ k. omega tests))
  | inr not_low ↦ rw not_low (elim (Bool-cases (ltb t (2 * r))) [
    | inl high ↦ rw high (RoundsTo-up q r p t e h (omega tests) (λ k. omega tests))
    | inr not_high ↦ rw not_high (elim (Bool-cases (q % 2 == 0)) [
      | inl even ↦ rw even (RoundsTo-down q r p t e h (ground arith) (λ k. (==_iff _ _).0 even))
      | inr odd ↦ rw odd (RoundsTo-up q r p t e h (ground arith) (λ k. ground arith))
    ])
  ])
]

-- For a part of zero or more and a positive total the call returns the percentage rounded half to
-- even: off by at most half a percent of the total, and even where it is off by exactly half.
pub whole_percent_rounds :
    (part total : ℕ)
    → 0 < total
    → (q : ℕ) × (whole_percent (pos part) (pos total) ≡ ok q) × RoundsTo (part * 100) total q
unfolding whole_percent
whole_percent_rounds part total h =
    let q = part * 100 / total in
    let r = part * 100 % total in
    (
      round_half_even q r total,
      ground arith,
      round_half_even-RoundsTo q r (part * 100) total (div-add-mod' (part * 100) total)
          (omega arith),
    )
