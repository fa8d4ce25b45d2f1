-- ===== src/Derive/Sums.antt =====
-- Sums over applications: what goes to each of a list of documents adds up to all that is applied.
use max_ed.Base.{
  ℕ, ◌+◌, String, ◌≡◌, refl, inl, inr, true, false, List, [], ◌∷◌, map, arith, str_eq, eq_iff,
  if◌then◌else◌, Bool-cases, sum_where, sum_by, All, contains,
}
use max_ed.Derive.Unique.{UniqueKeys, str_eq_comm}

module _ {ℓ κ} {A : Type ℓ} {B : Type κ} (key : A → String) (target : B → String)
    (amount : B → ℕ) where
  -- What the applications bring to one document.
  abbrev pub applied : List B → String → ℕ
  applied bs k = sum_where (λ b. str_eq (target b) k) amount bs

  share : String → ℕ → List A → ℕ
  share t n = sum_by (λ x. if str_eq t (key x) then n else 0)

  share_none :
      (t : String) (n : ℕ) (xs : List A) → contains t (map key xs) ≡ false → share t n xs ≡ 0
  unfolding share
  share_none t n [] h = refl
  share_none t n (x ∷ xs) h = ground (arith, str_eq_comm t (key x), share_none t n xs)

  share_once :
      (t : String) (n : ℕ) (xs : List A)
      → UniqueKeys (map key xs)
      → contains t (map key xs) ≡ true
      → share t n xs ≡ n
  unfolding share
  share_once t n [] u h = cc
  share_once t n (x ∷ xs) u h = elim (Bool-cases (str_eq t (key x))) [
    | inl same ↦
        let e : t ≡ key x = (eq_iff t (key x)).0 same in
        rw same (omega (arith, share_none t n xs (rw e u.0)))
    | inr other ↦ rw other (ground (arith, str_eq_comm t (key x), share_once t n xs u.1))
  ]

  sum-applied-cons :
      (b : B) (bs : List B) (xs : List A)
      → sum_by (λ x. applied (b ∷ bs) (key x)) xs
        ≡ share (target b) (amount b) xs + sum_by (λ x. applied bs (key x)) xs
  unfolding share
  sum-applied-cons b bs [] = refl
  sum-applied-cons b bs (x ∷ xs) = omega (arith, sum-applied-cons b bs xs)

  sum-applied-nil : (xs : List A) → sum_by (λ x. applied [] (key x)) xs ≡ 0
  sum-applied-nil [] = refl
  sum-applied-nil (x ∷ xs) = omega (arith, sum-applied-nil xs)

  -- Every application goes to exactly one of the documents.
  pub sum-applied :
      (bs : List B) (xs : List A)
      → UniqueKeys (map key xs)
      → All (λ b. contains (target b) (map key xs) ≡ true) bs
      → sum_by (λ x. applied bs (key x)) xs ≡ sum_by amount bs
  sum-applied [] xs u h = sum-applied-nil xs
  sum-applied (b ∷ bs) xs u h = omega (
    arith,
    sum-applied-cons b bs xs,
    share_once (target b) (amount b) xs u h.0,
    sum-applied bs xs u h.1,
  )
