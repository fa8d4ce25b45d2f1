-- ===== src/Oracle/Total.antt =====
-- The score of the oracle, balancecheck/bench/oracle.py, exists for every ledger where `int` reads the
-- amounts of the draft, and each token is counted once.
use Prim.Native.Char.{Char}
use max_ed.Oracle.Figures.{AnyFigures, document_figures-returns}
use max_ed.Oracle.Readable.{Readable, parse_cents-returns}
use mathlib.Core.Path.{subst}
use max_ed.Base.{
  filter, true, false, ok, >>=-OkWith, OkWith-ok, OkWith, length-append, length, ◌+◌, Bool, ℕ,
  String, ◌≡◌, refl, List, [], ◌∷◌, map, arith, All, contains, Dict,
}
use max_ed.Oracle.Grounding.{
  parse_cents, verifies, id_token_re, amount_token_re, no_score, TokenKind, amount_token, id_token,
  OracleScore, count_token, score_amounts, score_ids, score_sentences, oracle_grounding, sentences,
}
use max_ed.Regex.Find.{find_iter, Match}
use max_ed.Regex.{of_chars, chars}
use max_ed.Oracle.{document_figures, truth_sets}
use max_ed.Base.Int.{ℤ}
use max_ed.Contracts.{Ledger}

-- So many tokens were counted, and each has verified or is listed as unmatched.
abbrev Counted : ℕ → OracleScore → Type 0
Counted n s = (s.verified + length s.unmatched ≡ s.total) × (s.total ≡ n)

count_token-Counted :
    (n : ℕ) (good : Bool) (token : String) (kind : TokenKind) (s : OracleScore)
    → Counted n s
    → Counted (n + 1) (count_token good token kind s)
count_token-Counted n true token kind s h = (omega (arith, h.0), omega (arith, h.1))
count_token-Counted n false token kind s h =
    (omega (arith, h.0, length-append s.unmatched ((token, kind) ∷ [])), omega (arith, h.1))

score_amounts-Counted :
    (n : ℕ) (test : ℤ → Bool) (ms : List Match) (s : OracleScore)
    → Readable ms
    → Counted n s
    → OkWith (Counted (n + length ms)) (score_amounts test ms s)
unfolding score_amounts
score_amounts-Counted n test [] s short h = (h.0, omega (arith, h.1))
score_amounts-Counted n test (m ∷ ms) s short h =
    let longer : n + 1 + length ms ≡ n + length (m ∷ ms) = omega arith in
    >>=-OkWith _ (λ (v : ℤ). Unit {0}) (parse_cents m.group) _ (parse_cents-returns m.group short.0)
      (λ v _.
        let told = count_token (test v) (of_chars m.group) amount_token s in
        subst (λ k. OkWith (Counted k) (score_amounts test ms told)) longer
          (score_amounts-Counted (n + 1) test ms told short.1
            (count_token-Counted n (test v) (of_chars m.group) amount_token s h)))

score_ids-Counted :
    (n : ℕ) (ids : List String) (ms : List Match) (s : OracleScore)
    → Counted n s
    → Counted (n + length ms) (score_ids ids ms s)
unfolding score_ids
score_ids-Counted n ids [] s h = (h.0, omega (arith, h.1))
score_ids-Counted n ids (m ∷ ms) s h =
    let longer : n + 1 + length ms ≡ n + length (m ∷ ms) = omega arith in
    let good = contains (of_chars m.group) ids in
    let told = count_token good (of_chars m.group) id_token s in
    subst (λ k. Counted k (score_ids ids ms told)) longer
      (score_ids-Counted (n + 1) ids ms told
        (count_token-Counted n good (of_chars m.group) id_token s h))

-- The amounts in some sentences.
abbrev pub amounts_in : List (List Char) → ℕ
amounts_in [] = 0
amounts_in (t ∷ ts) = length (find_iter amount_token_re t) + amounts_in ts

score_sentences-Counted :
    (n : ℕ) (figures : Dict (List ℤ)) (totals : List ℤ) (ids : List String) (ts : List (List Char))
    (s : OracleScore)
    → All (λ t. Readable (find_iter amount_token_re t)) ts
    → Counted n s
    → OkWith (Counted (n + amounts_in ts)) (score_sentences figures totals ids ts s)
unfolding score_sentences
score_sentences-Counted n figures totals ids [] s short h = (h.0, omega (arith, h.1))
score_sentences-Counted n figures totals ids (t ∷ ts) s short h =
    let named =
      filter (λ k. contains k ids) (map (λ m. of_chars m.group) (find_iter id_token_re t)) in
    let here = n + length (find_iter amount_token_re t) in
    let longer : here + amounts_in ts ≡ n + amounts_in (t ∷ ts) = omega arith in
    >>=-OkWith _ (Counted here)
      (score_amounts (verifies figures totals named) (find_iter amount_token_re t) s) _
      (score_amounts-Counted n (verifies figures totals named) (find_iter amount_token_re t) s
        short.0 h)
      (λ told k.
        subst (λ m. OkWith (Counted m) (score_sentences figures totals ids ts told)) longer
          (score_sentences-Counted here figures totals ids ts told short.1 k))

-- Where no amount in a sentence of the draft has more than 4300 characters, as many digits as `int`
-- reads, the oracle gives a score, whatever the ledger. It counts each amount of each sentence and
-- each identifier of the draft, and each of them has verified or is listed as unmatched, once.
pub oracle_grounding-returns :
    (draft : String) (l : Ledger)
    → All (λ t. Readable (find_iter amount_token_re t)) (sentences (chars draft))
    → (s : OracleScore) × (oracle_grounding draft l ≡ ok s)
      × (s.verified + length s.unmatched ≡ s.total)
      × (s.total
          ≡ amounts_in (sentences (chars draft)) + length (find_iter id_token_re (chars draft)))
unfolding oracle_grounding
oracle_grounding-returns draft l short =
    let ids = (truth_sets l).1 in
    let tokens = find_iter id_token_re (chars draft) in
    let texts = sentences (chars draft) in
    let from_0 : 0 + amounts_in texts ≡ amounts_in texts = omega arith in
    let (s, returned, counted) =
      OkWith-ok (Counted (amounts_in texts + length tokens)) (oracle_grounding draft l) (
        >>=-OkWith _ (AnyFigures l) (document_figures l) _ (document_figures-returns l)
          (λ (figures, totals) _.
            >>=-OkWith _ (Counted (amounts_in texts))
              (score_sentences figures totals ids texts no_score) _
              (subst (λ k. OkWith (Counted k) (score_sentences figures totals ids texts no_score))
                from_0
                (score_sentences-Counted 0 figures totals ids texts no_score short (refl, refl)))
              (λ told k. score_ids-Counted (amounts_in texts) ids tokens told k))) in
    (s, returned, counted.0, counted.1)
