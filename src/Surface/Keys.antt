-- ===== src/Surface/Keys.antt =====
-- The tests of the extractor's keys decide equality.
use max_ed.Base.{
  String, ◌≡◌, refl, inl, inr, true, List, [], ◌∷◌, arith, str_eq, eq_iff, Bool-cases, contains_by,
  contains, Any,
}
use max_ed.Contracts.{ClaimType, c_exist, c_amt, c_sum, c_status, c_date, c_fuzzy}
use max_ed.Surface.Extract.{same_type, same_texts, Key, same_key}

pub same_type-eq : (a b : ClaimType) → same_type a b ≡ true → a ≡ b
same_type-eq c_exist c_exist h = refl
same_type-eq c_amt c_amt h = refl
same_type-eq c_sum c_sum h = refl
same_type-eq c_status c_status h = refl
same_type-eq c_date c_date h = refl
same_type-eq c_fuzzy c_fuzzy h = refl
same_type-eq _ _ h = cc

same_texts-eq : (ss ts : List String) → same_texts ss ts ≡ true → ss ≡ ts
same_texts-eq [] [] h = refl
same_texts-eq [] (t ∷ ts) h = cc
same_texts-eq (s ∷ ss) [] h = cc
same_texts-eq (s ∷ ss) (t ∷ ts) h = ground (arith, eq_iff s t, same_texts-eq ss ts)

pub same_key-eq : (j k : Key) → same_key j k ≡ true → j ≡ k
same_key-eq j k h = ground (
  arith,
  same_type-eq j.claim_type k.claim_type,
  eq_iff j.span k.span,
  eq_iff j.token k.token,
  same_texts-eq j.subject_ids k.subject_ids,
  eq_iff j.role k.role,
)

pub contains_by-Any :
    (k : Key) (ks : List Key) → contains_by same_key k ks ≡ true → Any (λ j. j ≡ k) ks
contains_by-Any k [] h = cc
contains_by-Any k (j ∷ ks) h = elim (Bool-cases (same_key j k)) [
  | inl e ↦ inl (same_key-eq j k e)
  | inr e ↦ inr (contains_by-Any k ks (rw e at h))
]

pub contains-Any : (s : String) (ss : List String) → contains s ss ≡ true → Any (λ t. t ≡ s) ss
contains-Any s [] h = cc
contains-Any s (t ∷ ss) h = elim (Bool-cases (str_eq t s)) [
  | inl e ↦ inl ((eq_iff t s).0 e)
  | inr e ↦ inr (contains-Any s ss (rw e at h))
]
