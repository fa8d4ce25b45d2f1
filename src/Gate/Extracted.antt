-- ===== src/Gate/Extracted.antt =====
-- The gate of balancecheck/gate/policy.py on the claims that balancecheck/drafting/surface.py reads
-- from the draft: what a person is handed has no amount that was not checked.
mod Tests
use mathlib.Core.Path.{subst}
use Prim.Native.Char.{Char}
use max_ed.Base.{
  ℕ, String, ◌≡◌, sym, ap, inl, inr, true, List, [], ◌∷◌, arith, All, Result, ok, All-map, All₂,
  Any, Any-map,
}
use max_ed.Contracts.{Ledger, human_gate, Claim, GateDecision}
use max_ed.Base.Int.{ℤ}
use max_ed.Amounts.{parse_amount_token}
use max_ed.Checks.Frame.{Checked, check_all-Checked}
use max_ed.Checks.Fuzzy.{Response}
use max_ed.Checks.Registry.{check_all, with_result}
use max_ed.Gate.Matrix.{decide}
use max_ed.Gate.Release.{Unmatched, NoFailure-Unmatched, Checked-passes}
use max_ed.Gate.Safety.{decide-Clean}
use max_ed.Regex.{chars}
use max_ed.Regex.Find.{find_iter}
use max_ed.Score.{passes}
use max_ed.Surface.{split_sentences}
use max_ed.Surface.Amounts.{ClaimsAmount, extract_claims-amounts}
use max_ed.Surface.Extract.{extract_claims}
use max_ed.Surface.Intervals.{Meets}
use max_ed.Surface.Recall.{extract_claims-Settled}
use max_ed.Surface.Settled.{Escalates, Settled}
use max_ed.Surface.Spans.{Span, amount_patterns, claim_amounts}

-- A claim for the amount of the span, which resolves to cents, and which the checks passed.
abbrev pub Vouches : List Char → Span → Claim → Type 0
Vouches t s k =
    ClaimsAmount t s k
    × (passes k ≡ true)
    × ((amount : ℤ) × (parse_amount_token s.token ≡ ok amount))

abbrev SettledClaim : Claim → Type 0
SettledClaim k = Settled k.claim_type k.token k.check_result

-- The verdict that escalates an amount stays, and then some row matches.
Escalates-matched : (c d : Claim) → Checked c d → Escalates c.token c.check_result → Unmatched d → ⊥
Escalates-matched c d (inl (full, same)) (v, e, bad, tok) u =
    ground (arith, ap (λ (x : Claim). x.check_result) same)
Escalates-matched c d (inr (r, eq, empty, judged)) (v, e, bad, tok) u = cc

Checked-ClaimsAmount :
    (t : List Char) (s : Span) (c d : Claim) → Checked c d → ClaimsAmount t s c → ClaimsAmount t s d
unfolding with_result
Checked-ClaimsAmount t s c d (inl (full, same)) a = subst (ClaimsAmount t s) (sym same) a
Checked-ClaimsAmount t s c d (inr (r, eq, empty, judged)) a = subst (ClaimsAmount t s) (sym eq) a

passed-Vouches :
    (t : List Char) (s : Span) (c d : Claim)
    → Checked c d
    → SettledClaim c
    → Unmatched d
    → ClaimsAmount t s c
    → Vouches t s d
passed-Vouches t s c d k (inr (different, fresh)) u a = absurd (different a.0)
passed-Vouches t s c d k (inl (kind, inr stuck)) u a = absurd (Escalates-matched c d k stuck u)
passed-Vouches t s c d k (inl (kind, inl (amount, e, fresh))) u a = (
  Checked-ClaimsAmount t s c d k a,
  Checked-passes c d k fresh u,
  (amount, subst (λ x. parse_amount_token x ≡ ok amount) a.2 e),
)

-- A claim among those that were extracted is one among those that were checked.
Any-Vouches :
    (t : List Char) (s : Span) (cs ds : List Claim)
    → All₂ Checked cs ds
    → All SettledClaim cs
    → All Unmatched ds
    → Any (ClaimsAmount t s) cs
    → Any (Vouches t s) ds
Any-Vouches t s [] ds k h u a = absurd a
Any-Vouches t s (c ∷ cs) [] k h u a = absurd k
Any-Vouches t s (c ∷ cs) (d ∷ ds) k h u (inl a) = inl (passed-Vouches t s c d k.0 h.0 u.0 a)
Any-Vouches t s (c ∷ cs) (d ∷ ds) k h u (inr a) = inr (Any-Vouches t s cs ds k.1 h.1 u.1 a)

module _ (client : Claim → Response) (extract : String → Ledger → Result (List Claim)) where
  -- Where the claims that are extracted from a draft have gone through the checks and `decide` hands
  -- the draft to a person: for each match of a pattern of amounts in a sentence of the draft there
  -- is a span that is the match or has a character in common with it, the span's token resolves to
  -- cents, and a claim for an amount or a sum with that sentence and token has passed.
  pub gated_amounts_vouched :
      (prefix draft : String) (l : Ledger) (ds : List Claim) (n : ℕ) (hs : List String)
      (d : GateDecision)
      → check_all client l (extract_claims prefix draft l) ≡ ok ds
      → decide extract ds l n hs draft ≡ ok d
      → d.action ≡ human_gate
      → All
          (λ t.
            All
              (λ (r, kind).
                All
                  (λ m. Any (λ s. Meets m s × Any (Vouches t s) ds) (claim_amounts t).1)
                  (find_iter r t))
              amount_patterns)
          (split_sentences (chars draft))
  gated_amounts_vouched prefix draft l ds n hs d checked decided gated =
      let cs = extract_claims prefix draft l in
      let pass = check_all-Checked client l cs ds checked in
      let settled = extract_claims-Settled prefix draft l in
      let unmatched =
        NoFailure-Unmatched ds (decide-Clean extract ds l n draft hs d decided gated).0 in
      All-map _ _ (split_sentences (chars draft))
        (λ t rs.
          All-map _ _ amount_patterns
            (λ (r, kind) ms.
              All-map _ _ (find_iter r t)
                (λ m a.
                  Any-map _ _ (claim_amounts t).1
                    (λ s (met, claimed).
                      (met, Any-Vouches t s cs ds pass settled unmatched claimed))
                    a)
                ms)
            rs)
        (extract_claims-amounts prefix draft l)
