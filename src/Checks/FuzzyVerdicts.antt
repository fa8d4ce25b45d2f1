-- ===== src/Checks/FuzzyVerdicts.antt =====
-- Which verdicts the fuzzy verifier can give.
use max_ed.Base.{
  String, ◌≡◌, ◌⊎◌, inl, inr, not, List, arith, Bool-cases, Option-cases, filter, is_empty,
  contains, ok, >>=-eq-ok, or_raise, key_error,
}
use max_ed.Contracts.{Ledger, CheckStatus, pass, unsupported, cannot_determine, CheckResult, Claim}
use max_ed.Checks.Fuzzy.{
  Response, Verdict, check_fuzzy, judge_text, judge_verdict, settle_verdict, verdict_status,
}
use max_ed.Derive.{document_ids}

-- The verdicts of the fuzzy verifier.
abbrev pub FuzzyStatus : CheckStatus → Type 0
FuzzyStatus s = (s ≡ pass) ⊎ (s ≡ unsupported) ⊎ (s ≡ cannot_determine)

verdict_status-FuzzyStatus :
    (v : String) {s : CheckStatus} → verdict_status v ≡ ok s → FuzzyStatus s
unfolding verdict_status
verdict_status-FuzzyStatus v e = ground arith

settle_verdict-FuzzyStatus :
    (c : Claim) (ids : List String) (s : CheckStatus) (t : String)
    → FuzzyStatus s
    → FuzzyStatus (settle_verdict c ids s t).status
unfolding settle_verdict
settle_verdict-FuzzyStatus c ids s t h = ground arith

judge_text-FuzzyStatus :
    (c : Claim) (l : Ledger) (v : Verdict) (text : String) {r : CheckResult}
    → judge_text c l v text ≡ ok r
    → FuzzyStatus r.status
unfolding judge_text
judge_text-FuzzyStatus c l v text {r} e =
    elim (Bool-cases
      (not (is_empty (filter (λ k. not (contains k (document_ids l))) v.cited_record_ids)))) [
        | inl bad ↦ ground arith
        | inr good ↦
            let ids = filter (λ k. contains k (document_ids l)) v.cited_record_ids in
            let (s, es, er) =
              >>=-eq-ok (verdict_status text) (λ status. ok (settle_verdict c ids status v.reason))
                (rw good at e) in
            let h =
              settle_verdict-FuzzyStatus c ids s v.reason (verdict_status-FuzzyStatus text es) in
            ground arith
      ]

judge_verdict-FuzzyStatus :
    (c : Claim) (l : Ledger) (v : Verdict) {r : CheckResult}
    → judge_verdict c l v ≡ ok r
    → FuzzyStatus r.status
unfolding judge_verdict
judge_verdict-FuzzyStatus c l v {r} e =
    let (text, et, er) =
      >>=-eq-ok (or_raise v.verdict (key_error "verdict")) (judge_text c l v) e in
    judge_text-FuzzyStatus c l v text er

-- The fuzzy verifier gives a verdict of its own kind, whatever the client answers.
pub check_fuzzy-FuzzyStatus :
    (c : Claim) (l : Ledger) (resp : Response) {r : CheckResult}
    → check_fuzzy c l resp ≡ ok r
    → FuzzyStatus r.status
unfolding check_fuzzy
check_fuzzy-FuzzyStatus c l resp {r} e = elim (Option-cases resp.parsed) [
  | inl nothing ↦ ground arith
  | inr (v, parsed) ↦ ground (arith, judge_verdict-FuzzyStatus c l v {r = r})
]
