-- ===== src/Surface/Amounts.antt =====
-- No amount is lost: from a match in a sentence to a claim of `extract_claims`,
-- balancecheck/drafting/surface.py.
use Prim.Native.Char.{Char}
use max_ed.Base.{
  ℕ, ◌+◌, String, ◌≡◌, refl, inl, inr, List, [], ◌∷◌, map, All, All-map, All-append_split,
  All-of_map, Any, Any-map, Any-All, All-of_sort_by,
}
use max_ed.Contracts.{Ledger, Claim}
use max_ed.Regex.{chars, of_chars}
use max_ed.Regex.Find.{find_iter}
use max_ed.Surface.{Candidate, split_sentences, id_mentions}
use max_ed.Surface.Coverage.{amount_spans-Meets}
use max_ed.Surface.Covers.{Reports}
use max_ed.Surface.Detect.{amount_candidate, exist_candidates, detect_in_sentence}
use max_ed.Surface.Extract.{detect_all, extract_claims}
use max_ed.Surface.Intervals.{Meets}
use max_ed.Surface.Recall.{extract_claims-Reports}
use max_ed.Surface.Settled.{IsAmountType, amount_candidate-IsAmountType}
use max_ed.Surface.Spans.{Span, amount_patterns, claim_amounts, amount_spans, starts_before}

-- A claim for the amount of a span of the sentence.
abbrev pub ClaimsAmount : List Char → Span → Claim → Type 0
ClaimsAmount sentence s k =
    IsAmountType k.claim_type × (k.span ≡ of_chars sentence) × (k.token ≡ s.token)

-- The report of an amount's candidate is a claim for its amount.
Reports-ClaimsAmount :
    (c : Candidate) (sentence : List Char) (s : Span)
    → IsAmountType c.claim_type
    → c.span ≡ of_chars sentence
    → c.token ≡ s.token
    → (k : Claim) → Reports c k
    → ClaimsAmount sentence s k
Reports-ClaimsAmount c sentence s (inl t) e f k (inl r) = (inl (cc), cc, cc)
Reports-ClaimsAmount c sentence s (inr t) e f k (inl r) = (inr (cc), cc, cc)
Reports-ClaimsAmount c sentence s (inl t) e f k (inr r) = cc
Reports-ClaimsAmount c sentence s (inr t) e f k (inr r) = cc

module _ (claims : List Claim) (l : Ledger) where
  sentence-amounts :
      (n : ℕ) (sentence : List Char)
      → All (λ c. Any (Reports c) claims) (detect_in_sentence n sentence l)
      → All (λ s. Any (ClaimsAmount sentence s) claims) (claim_amounts sentence).1
  unfolding detect_in_sentence amount_spans
  sentence-amounts n sentence h =
      let ms = id_mentions sentence l in
      let spans = amount_spans sentence in
      let rest = (All-append_split _ (exist_candidates n sentence [] ms) _ h).1 in
      let reported =
        All-of_map _ (amount_candidate n sentence ms spans) spans
          (All-append_split _ (map (amount_candidate n sentence ms spans) spans) _ rest).0 in
      All-of_sort_by _ starts_before (claim_amounts sentence).1 (
        All-map _ _ spans
          (λ s a.
            Any-map _ _ claims
              (Reports-ClaimsAmount (amount_candidate n sentence ms spans s) sentence s
                (amount_candidate-IsAmountType n sentence ms spans s) refl refl)
              a)
          reported)

  sentences-amounts :
      (n : ℕ) (ss : List (List Char))
      → All (λ c. Any (Reports c) claims) (detect_all n ss l)
      → All (λ t. All (λ s. Any (ClaimsAmount t s) claims) (claim_amounts t).1) ss
  unfolding detect_all
  sentences-amounts n [] h = tt
  sentences-amounts n (t ∷ ss) h =
      let parts = All-append_split _ (detect_in_sentence n t l) _ h in
      (sentence-amounts n t parts.0, sentences-amounts (n + 1) ss parts.1)

  matches-amounts :
      (t : List Char)
      → All (λ s. Any (ClaimsAmount t s) claims) (claim_amounts t).1
      → All
          (λ (r, kind).
            All
              (λ m. Any (λ s. Meets m s × Any (ClaimsAmount t s) claims) (claim_amounts t).1)
              (find_iter r t))
          amount_patterns
  matches-amounts t h =
      All-map _ _ amount_patterns
        (λ (r, kind) ms.
          All-map _ _ (find_iter r t)
            (λ m a. Any-All (Meets m) _ _ (claim_amounts t).1 (λ s met claimed. (met, claimed)) a h)
            ms)
        (amount_spans-Meets t).0

-- Whatever the draft and the ledger: for each match of a pattern of amounts in a sentence there is a
-- span that is the match or has a character in common with it, and a claim for an amount or a sum
-- with that sentence and with the token of the span.
pub extract_claims-amounts :
    (prefix draft : String) (l : Ledger)
    → All
        (λ t.
          All
            (λ (r, kind).
              All
                (λ m.
                  Any
                    (λ s. Meets m s × Any (ClaimsAmount t s) (extract_claims prefix draft l))
                    (claim_amounts t).1)
                (find_iter r t))
            amount_patterns)
        (split_sentences (chars draft))
extract_claims-amounts prefix draft l =
    All-map _ _ (split_sentences (chars draft)) (matches-amounts (extract_claims prefix draft l) l)
      (sentences-amounts (extract_claims prefix draft l) l 0 (split_sentences (chars draft))
        (extract_claims-Reports prefix draft l))
