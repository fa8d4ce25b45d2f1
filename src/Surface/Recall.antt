-- ===== src/Surface/Recall.antt =====
-- `extract_claims` of balancecheck/drafting/surface.py: every detection is reported, and each amount
-- resolves or is escalated.
use mathlib.Core.Path.{subst}
use max_ed.Base.{
  ℕ, ◌+◌, String, sym, ◌⊎◌, inl, inr, List, [], ◌∷◌, All, All-map, sort_by, Any, All-sort_by,
  All-of_sort_by,
}
use max_ed.Contracts.{Ledger, Claim}
use max_ed.Regex.{chars}
use max_ed.Surface.{Candidate, split_sentences}
use max_ed.Surface.Candidates.{detect_all-All}
use max_ed.Surface.Covers.{
  repeats, duplicates, emits, claims_from-Way, NamesDoc, Reports, Known, claims_from-Reports,
}
use max_ed.Surface.Extract.{
  Seen, nothing_seen, claims_from, claim_of, note_doc, note_key, detect_all, candidates_of,
  reads_before, extract_claims,
}
use max_ed.Surface.Settled.{
  Settled, SettledCandidate, detect_in_sentence-Settled, detect_in_sentence-NamesDoc,
}

-- Whatever the draft and the ledger: each candidate of each sentence is reported by a claim. That
-- claim has the candidate's type, sentence, token, documents and role; for a document it may be the
-- claim of existence of the same identifier from an earlier mention.
pub extract_claims-Reports :
    (prefix draft : String) (l : Ledger)
    → All
        (λ c. Any (Reports c) (extract_claims prefix draft l))
        (detect_all 0 (split_sentences (chars draft)) l)
unfolding extract_claims candidates_of
extract_claims-Reports prefix draft l =
    let found = detect_all 0 (split_sentences (chars draft)) l in
    let names = All-sort_by NamesDoc reads_before found (
      detect_all-All NamesDoc l (λ n s. detect_in_sentence-NamesDoc n s l) 0
        (split_sentences (chars draft))) in
    All-of_sort_by _ reads_before found (
      All-map _ _ (sort_by reads_before found) fresh
        (claims_from-Reports prefix nothing_seen (sort_by reads_before found) names))
  where
    fresh :
        (c : Candidate)
        → Any (Reports c) (extract_claims prefix draft l) ⊎ Known nothing_seen c
        → Any (Reports c) (extract_claims prefix draft l)
    fresh c (inl a) = a
    fresh c (inr (inl a)) = absurd a
    fresh c (inr (inr a)) = absurd a.1

-- What holds of the claim of every candidate, whatever its number, holds of every claim.
claims_from-All :
    (P : Claim → Type 0) (prefix : String) (s : Seen) (cs : List Candidate)
    → All (λ c. (n : ℕ) → P (claim_of prefix n c)) cs
    → All P (claims_from prefix s cs)
unfolding claims_from
claims_from-All P prefix s [] h = tt
claims_from-All P prefix s (c ∷ cs) h = elim (claims_from-Way prefix s c cs) [
  | repeats old e ↦ subst (All P) (sym e) (claims_from-All P prefix s cs h.1)
  | duplicates dup e ↦ subst (All P) (sym e) (claims_from-All P prefix (note_doc s c) cs h.1)
  | emits new fresh e ↦
      subst (All P) (sym e)
        (h.0 (s.n + 1), claims_from-All P prefix (note_key (note_doc s c) c) cs h.1)
]

-- Whatever the draft and the ledger: a claim for an amount or a sum starts without a verdict, and
-- then its token resolves to cents, or it starts as unverifiable with its token as what was found;
-- every other claim starts without a verdict.
pub extract_claims-Settled :
    (prefix draft : String) (l : Ledger)
    → All (λ k. Settled k.claim_type k.token k.check_result) (extract_claims prefix draft l)
unfolding extract_claims candidates_of claim_of
extract_claims-Settled prefix draft l =
    let found = detect_all 0 (split_sentences (chars draft)) l in
    claims_from-All (λ k. Settled k.claim_type k.token k.check_result) prefix nothing_seen
      (sort_by reads_before found)
      (All-map SettledCandidate _ (sort_by reads_before found) (λ c h n. h)
        (All-sort_by SettledCandidate reads_before found (
          detect_all-All SettledCandidate l (λ n s. detect_in_sentence-Settled n s l) 0
            (split_sentences (chars draft)))))
