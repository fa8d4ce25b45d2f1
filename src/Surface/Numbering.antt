-- ===== src/Surface/Numbering.antt =====
-- The numbers of the claims of `extract_claims`, balancecheck/drafting/surface.py, and their
-- documents.
use mathlib.Core.Path.{subst}
use max_ed.Base.{
  ℕ, ◌+◌, String, ◌≡◌, refl, sym, ap, ◌≢◌, false, List, [], ◌∷◌, map, arith, eq_iff, All, concat,
  contains, All-map, All-sort_by,
}
use max_ed.Contracts.{Ledger, c_exist, Claim}
use max_ed.Regex.{chars}
use max_ed.Surface.{Candidate, split_sentences}
use max_ed.Surface.Candidates.{detect_all-All}
use max_ed.Surface.Covers.{repeats, duplicates, emits, claims_from-Way, NamesDoc}
use max_ed.Surface.Extract.{
  Seen, nothing_seen, claims_from, claim_of, is_repeated_doc, note_doc, note_key, candidates_of,
  reads_before, extract_claims, padded,
}
use max_ed.Surface.Settled.{detect_in_sentence-NamesDoc}

-- The identifiers of claims that are numbered from `n` on.
abbrev pub ids_from : String → ℕ → List Claim → List String
ids_from prefix n [] = []
ids_from prefix n (k ∷ ks) = concat (prefix ∷ "-" ∷ padded n ∷ []) ∷ ids_from prefix (n + 1) ks

abbrev Numbered : String → ℕ → List Claim → Type 0
Numbered prefix n ks = map (λ (k : Claim). k.claim_id) ks ≡ ids_from prefix n ks

note_doc-n : (s : Seen) (c : Candidate) → (note_doc s c).n ≡ s.n
note_doc-n s c = ground arith

claims_from-Numbered :
    (prefix : String) (s : Seen) (cs : List Candidate)
    → Numbered prefix (s.n + 1) (claims_from prefix s cs)
unfolding claims_from claim_of
claims_from-Numbered prefix s [] = refl
claims_from-Numbered prefix s (c ∷ cs) = elim (claims_from-Way prefix s c cs) [
  | repeats old e ↦ subst (Numbered prefix (s.n + 1)) (sym e) (claims_from-Numbered prefix s cs)
  | duplicates dup e ↦
      let ih = claims_from-Numbered prefix (note_doc s c) cs in
      subst (Numbered prefix (s.n + 1)) (sym e) (
        subst (λ n. Numbered prefix (n + 1) (claims_from prefix (note_doc s c) cs)) (note_doc-n s c)
          ih)
  | emits new fresh e ↦
      let ih = claims_from-Numbered prefix (note_key (note_doc s c) c) cs in
      subst (Numbered prefix (s.n + 1)) (sym e) (
        ap (◌∷◌ (concat (prefix ∷ "-" ∷ padded (s.n + 1) ∷ []))) (
          subst
            (λ n. Numbered prefix (n + 1 + 1) (claims_from prefix (note_key (note_doc s c) c) cs))
            (note_doc-n s c) ih))
]

abbrev IsNew : List String → Claim → Type 0
IsNew ids k = k.claim_type ≡ c_exist → contains k.token ids ≡ false

-- Of two claims of existence the later one is for another document.
abbrev pub DistinctDocs : List Claim → Type 0
DistinctDocs [] = Unit
DistinctDocs (k ∷ ks) =
    (k.claim_type ≡ c_exist → All (λ (j : Claim). j.claim_type ≡ c_exist → j.token ≢ k.token) ks)
    × DistinctDocs ks

contains-skip :
    (s t : String) (ss : List String) → contains s (t ∷ ss) ≡ false → contains s ss ≡ false
contains-skip s t ss h = ground arith

note_doc-IsNew :
    (s : Seen) (c : Candidate) (k : Claim) → IsNew (note_doc s c).exist_ids k → IsNew s.exist_ids k
note_doc-IsNew s c k h t = ground (arith, h t)

emitted-IsNew :
    (prefix : String) (s : Seen) (c : Candidate) (n : ℕ)
    → NamesDoc c
    → is_repeated_doc s c ≡ false
    → IsNew s.exist_ids (claim_of prefix n c)
unfolding claim_of
emitted-IsNew prefix s c n names new t = ground (arith, names t)

claims_from-IsNew :
    (prefix : String) (s : Seen) (cs : List Candidate)
    → All NamesDoc cs
    → All (IsNew s.exist_ids) (claims_from prefix s cs)
unfolding claims_from
claims_from-IsNew prefix s [] h = tt
claims_from-IsNew prefix s (c ∷ cs) h = elim (claims_from-Way prefix s c cs) [
  | repeats old e ↦ subst (All (IsNew s.exist_ids)) (sym e) (claims_from-IsNew prefix s cs h.1)
  | duplicates dup e ↦
      let ih = claims_from-IsNew prefix (note_doc s c) cs h.1 in
      subst (All (IsNew s.exist_ids)) (sym e) (All-map _ _ _ (note_doc-IsNew s c) ih)
  | emits new fresh e ↦
      let ih = claims_from-IsNew prefix (note_key (note_doc s c) c) cs h.1 in
      subst (All (IsNew s.exist_ids)) (sym e)
        (emitted-IsNew prefix s c (s.n + 1) h.0 new, All-map _ _ _ (note_doc-IsNew s c) ih)
]

noted_ne :
    (prefix : String) (s : Seen) (c : Candidate) (n : ℕ) (j : Claim)
    → NamesDoc c
    → (claim_of prefix n c).claim_type ≡ c_exist
    → IsNew (note_doc s c).exist_ids j
    → j.claim_type ≡ c_exist
    → j.token ≢ (claim_of prefix n c).token
unfolding claim_of
noted_ne prefix s c n j names t new tj e =
    ground (arith, names t, new tj, eq_iff c.canonical_id j.token)

claims_from-DistinctDocs :
    (prefix : String) (s : Seen) (cs : List Candidate)
    → All NamesDoc cs
    → DistinctDocs (claims_from prefix s cs)
unfolding claims_from
claims_from-DistinctDocs prefix s [] h = tt
claims_from-DistinctDocs prefix s (c ∷ cs) h = elim (claims_from-Way prefix s c cs) [
  | repeats old e ↦ subst DistinctDocs (sym e) (claims_from-DistinctDocs prefix s cs h.1)
  | duplicates dup e ↦
      subst DistinctDocs (sym e) (claims_from-DistinctDocs prefix (note_doc s c) cs h.1)
  | emits new fresh e ↦
      let s' = note_key (note_doc s c) c in
      subst DistinctDocs (sym e) (
        λ t.
            All-map (IsNew s'.exist_ids) _ (claims_from prefix s' cs)
              (λ j n. noted_ne prefix s c (s.n + 1) j h.0 t n) (claims_from-IsNew prefix s' cs h.1),
        claims_from-DistinctDocs prefix s' cs h.1,
      )
]

-- Whatever the draft and the ledger: the claims are numbered in their order from 001 on, and no two
-- claims of existence are for one document.
pub extract_claims-Numbered :
    (prefix draft : String) (l : Ledger)
    → (map (λ (k : Claim). k.claim_id) (extract_claims prefix draft l)
        ≡ ids_from prefix 1 (extract_claims prefix draft l))
      × DistinctDocs (extract_claims prefix draft l)
unfolding extract_claims candidates_of
extract_claims-Numbered prefix draft l =
    let ss = split_sentences (chars draft) in
    (
      claims_from-Numbered prefix nothing_seen (candidates_of (chars draft) l),
      claims_from-DistinctDocs prefix nothing_seen (candidates_of (chars draft) l) (
          All-sort_by NamesDoc reads_before _
            (detect_all-All NamesDoc l (λ n s. detect_in_sentence-NamesDoc n s l) 0 ss)),
    )
