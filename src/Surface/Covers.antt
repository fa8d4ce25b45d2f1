-- ===== src/Surface/Covers.antt =====
-- Nothing detected is dropped: the loop of `extract_claims` of balancecheck/drafting/surface.py.
use mathlib.Core.Path.{subst}
use max_ed.Base.{
  ℕ, ◌+◌, String, ◌≡◌, refl, sym, ◌⊎◌, inl, inr, true, false, List, [], ◌∷◌, Bool-cases, &&_left,
  &&_right, contains_by, All, All-map, Any, Any-map,
}
use max_ed.Contracts.{ClaimType, c_exist, c_amt, c_sum, c_status, c_date, c_fuzzy, Claim}
use max_ed.Surface.{Candidate}
use max_ed.Surface.Keys.{contains_by-Any, contains-Any}
use max_ed.Surface.Extract.{
  same_key, Key, key_of, claim_of, Seen, is_repeated_doc, note_doc, note_key, claims_from,
  is_c_exist,
}

-- The key of a claim: all that it says of the draft.
abbrev pub claim_key : Claim → Key
claim_key k = record {
  claim_type = k.claim_type;
  span = k.span;
  token = k.token;
  subject_ids = k.subject_ids;
  role = k.role;
}

claim_of-key :
    (prefix : String) (n : ℕ) (c : Candidate) → claim_key (claim_of prefix n c) ≡ key_of c
unfolding claim_of
claim_of-key prefix n c = refl

-- A key tells of a candidate: it is the candidate's, or that of the claim of its document.
abbrev pub Tells : Candidate → Key → Type 0
Tells c k =
    (k ≡ key_of c)
    ⊎ ((c.claim_type ≡ c_exist) × (k.claim_type ≡ c_exist) × (k.token ≡ c.canonical_id))

abbrev pub Reports : Candidate → Claim → Type 0
Reports c k = Tells c (claim_key k)

-- A candidate for a document carries its identifier as the token.
abbrev pub NamesDoc : Candidate → Type 0
NamesDoc c = c.claim_type ≡ c_exist → c.token ≡ c.canonical_id

-- What the loop knows of a candidate already.
abbrev pub Known : Seen → Candidate → Type 0
Known s c =
    Any (Tells c) s.keys ⊎ ((c.claim_type ≡ c_exist) × Any (λ i. i ≡ c.canonical_id) s.exist_ids)

Tells-trans :
    (c d : Candidate)
    → NamesDoc c
    → c.claim_type ≡ c_exist
    → d.claim_type ≡ c_exist
    → c.canonical_id ≡ d.canonical_id
    → (k : Key) → k ≡ key_of c
    → Tells d k
Tells-trans c d names hc hd e k h = inr (hd, cc, cc (names hc))

is_c_exist-eq : (t : ClaimType) → is_c_exist t ≡ true → t ≡ c_exist
is_c_exist-eq c_exist h = refl
is_c_exist-eq c_amt h = cc
is_c_exist-eq c_sum h = cc
is_c_exist-eq c_status h = cc
is_c_exist-eq c_date h = cc
is_c_exist-eq c_fuzzy h = cc

-- What is known after a candidate's document was noted, was known or is told by the candidate's key.
noted-Known :
    (s : Seen) (c d : Candidate)
    → NamesDoc c
    → Known (note_doc s c) d
    → Known s d ⊎ Tells d (key_of c)
noted-Known s c d names h = elim (Bool-cases (is_c_exist c.claim_type)) [
  | inr e ↦ inl (rw e at h)
  | inl e ↦ go (is_c_exist-eq c.claim_type e) (rw e at h)
]
  where
    go :
        c.claim_type ≡ c_exist
        → Known (record s { exist_ids = c.canonical_id ∷ s.exist_ids }) d
        → Known s d ⊎ Tells d (key_of c)
    go hc (inl k) = inl (inl k)
    go hc (inr (hd, inl e)) = inr (Tells-trans c d names hc hd e (key_of c) refl)
    go hc (inr (hd, inr a)) = inl (inr (hd, a))

-- The loop's three ways on from a candidate.
pub data Way (prefix : String) (s : Seen) (c : Candidate) (cs : List Candidate) (out : List Claim)
    : Type 0 where
  repeats : is_repeated_doc s c ≡ true → out ≡ claims_from prefix s cs → Way prefix s c cs out
  duplicates :
      contains_by same_key (key_of c) s.keys ≡ true
      → out ≡ claims_from prefix (note_doc s c) cs
      → Way prefix s c cs out
  emits :
      is_repeated_doc s c ≡ false
      → contains_by same_key (key_of c) s.keys ≡ false
      → out ≡ claim_of prefix (s.n + 1) c ∷ claims_from prefix (note_key (note_doc s c) c) cs
      → Way prefix s c cs out

module _ (prefix : String) where
  pub claims_from-Way :
      (s : Seen) (c : Candidate) (cs : List Candidate)
      → Way prefix s c cs (claims_from prefix s (c ∷ cs))
  unfolding claims_from
  claims_from-Way s c cs = elim (Bool-cases (is_repeated_doc s c)) [
    | inl old ↦ repeats old (rw old)
    | inr new ↦ elim (Bool-cases (contains_by same_key (key_of c) s.keys)) [
      | inl dup ↦ duplicates dup (rw (new, dup))
      | inr fresh ↦ emits new fresh (rw (new, fresh))
    ]
  ]

  -- What a candidate's own key tells is told by the keys that are seen, where it is one of them.
  Tells-Known :
      (s : Seen) (c d : Candidate)
      → contains_by same_key (key_of c) s.keys ≡ true
      → Tells d (key_of c)
      → Known s d
  Tells-Known s c d dup h = inl (
      Any-map (λ j. j ≡ key_of c) (Tells d) s.keys (λ j e. subst (Tells d) (sym e) h)
        (contains_by-Any (key_of c) s.keys dup))

  -- What is known after a candidate whose key was seen, or whose claim was added.
  after_doc :
      (s : Seen) (c d : Candidate) (out : List Claim)
      → NamesDoc c
      → contains_by same_key (key_of c) s.keys ≡ true
      → Any (Reports d) out ⊎ Known (note_doc s c) d
      → Any (Reports d) out ⊎ Known s d
  after_doc s c d out names dup (inl a) = inl a
  after_doc s c d out names dup (inr k) = elim (noted-Known s c d names k) [
    | inl known ↦ inr known
    | inr told ↦ inr (Tells-Known s c d dup told)
  ]

  before :
      (s : Seen) (c d : Candidate) (n : ℕ) (out : List Claim)
      → NamesDoc c
      → Known (note_doc s c) d
      → Any (Reports d) (claim_of prefix n c ∷ out) ⊎ Known s d
  unfolding claim_of
  before s c d n out names k = elim (noted-Known s c d names k) [
    | inl known ↦ inr known
    | inr told ↦ inl (inl told)
  ]

  after_claim :
      (s : Seen) (c d : Candidate) (n : ℕ) (out : List Claim)
      → NamesDoc c
      → Any (Reports d) out ⊎ Known (note_key (note_doc s c) c) d
      → Any (Reports d) (claim_of prefix n c ∷ out) ⊎ Known s d
  unfolding claim_of
  after_claim s c d n out names (inl a) = inl (inr a)
  after_claim s c d n out names (inr (inl (inl told))) = inl (inl told)
  after_claim s c d n out names (inr (inl (inr k))) = before s c d n out names (inl k)
  after_claim s c d n out names (inr (inr k)) = before s c d n out names (inr k)

  abbrev pub Reported : Seen → List Claim → List Candidate → Type 0
  Reported s out = All (λ d. Any (Reports d) out ⊎ Known s d)

  -- Each candidate is reported, or was known before.
  pub claims_from-Reports :
      (s : Seen) (cs : List Candidate) → All NamesDoc cs → Reported s (claims_from prefix s cs) cs
  claims_from-Reports s [] h = tt
  claims_from-Reports s (c ∷ cs) h = elim (claims_from-Way s c cs) [
    | repeats old e ↦
        let ih = claims_from-Reports s cs h.1 in
        subst (λ out. Reported s out (c ∷ cs)) (sym e)
          (
            inr (
                inr (
                  is_c_exist-eq c.claim_type (&&_left (is_c_exist c.claim_type) _ old),
                  contains-Any c.canonical_id s.exist_ids
                      (&&_right (is_c_exist c.claim_type) _ old),
                )),
            ih,
          )
    | duplicates dup e ↦
        let ih = claims_from-Reports (note_doc s c) cs h.1 in
        subst (λ out. Reported s out (c ∷ cs)) (sym e)
          (
            inr (Tells-Known s c c dup (inl refl)),
            All-map _ _ cs (λ d k. after_doc s c d _ h.0 dup k) ih,
          )
    | emits new fresh e ↦
        let ih = claims_from-Reports (note_key (note_doc s c) c) cs h.1 in
        subst (λ out. Reported s out (c ∷ cs)) (sym e)
          (
            inl (inl (inl (claim_of-key prefix (s.n + 1) c))),
            All-map _ _ cs (λ d k. after_claim s c d (s.n + 1) _ h.0 k) ih,
          )
  ]
