-- ===== src/Surface/Coverage.antt =====
-- The amounts and the dates of a sentence of balancecheck/drafting/surface.py: every match of a
-- pattern meets a span, and the spans are disjoint.
use Prim.Native.Char.{Char}
use max_ed.Base.{refl, List, [], ◌∷◌, ◌++◌, All, All-map, Any}
use max_ed.Regex.{Regex}
use max_ed.Regex.Find.{Match, find_iter}
use max_ed.Surface.Intervals.{
  Apart, Meets, State, IsClaimed, claim_match-IsClaimed, claim_match-Meets, claim_match-keeps,
}
use max_ed.Surface.Spans.{
  Kind, Span, claim_match, claim_matches, claim_patterns, amount_patterns, claim_amounts,
}

module _ (earlier : List Span) where
  claim_matches-IsClaimed :
      (kind : Kind) (ms : List Match) (state : State)
      → IsClaimed earlier state
      → IsClaimed earlier (claim_matches kind ms state)
  unfolding claim_matches
  claim_matches-IsClaimed kind [] state c = c
  claim_matches-IsClaimed kind (m ∷ ms) state c =
      claim_matches-IsClaimed kind ms (claim_match kind m state)
        (claim_match-IsClaimed earlier kind m state c)

  claim_matches-keeps :
      (P : Span → Type 0) (kind : Kind) (ms : List Match) (state : State)
      → Any P (earlier ++ state.1)
      → Any P (earlier ++ (claim_matches kind ms state).1)
  unfolding claim_matches
  claim_matches-keeps P kind [] state a = a
  claim_matches-keeps P kind (m ∷ ms) state a =
      claim_matches-keeps P kind ms (claim_match kind m state)
        (claim_match-keeps earlier P kind m state a)

  claim_matches-Meets :
      (kind : Kind) (ms : List Match) (state : State)
      → IsClaimed earlier state
      → All (λ m. Any (Meets m) (earlier ++ (claim_matches kind ms state).1)) ms
  unfolding claim_matches
  claim_matches-Meets kind [] state c = tt
  claim_matches-Meets kind (m ∷ ms) state c =
      let next = claim_match kind m state in
      (
        claim_matches-keeps (Meets m) kind ms next (claim_match-Meets earlier kind m state c),
        claim_matches-Meets kind ms next (claim_match-IsClaimed earlier kind m state c),
      )

  module _ (sentence : List Char) where
    claim_patterns-IsClaimed :
        (rs : List (Regex × Kind)) (state : State)
        → IsClaimed earlier state
        → IsClaimed earlier (claim_patterns sentence rs state)
    unfolding claim_patterns
    claim_patterns-IsClaimed [] state c = c
    claim_patterns-IsClaimed ((r, kind) ∷ rs) state c =
        claim_patterns-IsClaimed rs (claim_matches kind (find_iter r sentence) state)
          (claim_matches-IsClaimed kind (find_iter r sentence) state c)

    claim_patterns-keeps :
        (P : Span → Type 0) (rs : List (Regex × Kind)) (state : State)
        → Any P (earlier ++ state.1)
        → Any P (earlier ++ (claim_patterns sentence rs state).1)
    unfolding claim_patterns
    claim_patterns-keeps P [] state a = a
    claim_patterns-keeps P ((r, kind) ∷ rs) state a =
        claim_patterns-keeps P rs (claim_matches kind (find_iter r sentence) state)
          (claim_matches-keeps P kind (find_iter r sentence) state a)

    claim_patterns-Meets :
        (rs : List (Regex × Kind)) (state : State)
        → IsClaimed earlier state
        → All
            (λ (r, kind).
              All
                (λ m. Any (Meets m) (earlier ++ (claim_patterns sentence rs state).1))
                (find_iter r sentence))
            rs
    unfolding claim_patterns
    claim_patterns-Meets [] state c = tt
    claim_patterns-Meets ((r, kind) ∷ rs) state c =
        let ms = find_iter r sentence in
        let next = claim_matches kind ms state in
        (
          All-map _ _ ms (λ m a. claim_patterns-keeps (Meets m) rs next a)
              (claim_matches-Meets kind ms state c),
          claim_patterns-Meets rs next (claim_matches-IsClaimed kind ms state c),
        )

no_claims : IsClaimed [] ([], [])
no_claims = record { intervals = refl; apart = tt }

-- In every sentence: each match of a pattern of amounts is one of the amount spans, or has a
-- character in common with one; and no two of the spans have.
pub amount_spans-Meets :
    (sentence : List Char)
    → All
        (λ (r, kind). All (λ m. Any (Meets m) (claim_amounts sentence).1) (find_iter r sentence))
        amount_patterns
      × Apart (claim_amounts sentence).1
unfolding claim_amounts
amount_spans-Meets sentence = (
  claim_patterns-Meets [] sentence amount_patterns ([], []) no_claims,
  (claim_patterns-IsClaimed [] sentence amount_patterns ([], []) no_claims).apart,
)
