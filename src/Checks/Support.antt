-- ===== src/Checks/Support.antt =====
-- What a verdict `pass` of `check_sum` and of `check_fuzzy` says of the ledger.
use max_ed.Base.{
  String, ◌≡◌, refl, sym, ap, ◌∙◌, ◌⊎◌, inl, inr, Bool, true, false, not, ◌&&◌, Option, none, some,
  List, [], ◌∷◌, arith, if◌then◌else◌, &&_left, filter, is_empty, All, concat, or_text, contains,
  key_error, value_error, overflow_error, runtime_error, Result, ok, raise, ◌>>=◌, not-false,
  or_raise,
}
use max_ed.Contracts.{
  Ledger, CheckStatus, pass, fail, cannot_determine, unverifiable, CheckResult, Claim,
}
use max_ed.Base.Int.{ℤ, eqb_ℤ, eqb_ℤ_iff}
use mathlib.Core.Path.{subst}
use max_ed.Checks.{check_result, parse_claim_amount, on_value_error}
use max_ed.Checks.Fuzzy.{
  Response, Verdict, check_fuzzy, judge_text, judge_verdict, settle_verdict, verdict_status,
}
use max_ed.Checks.Total.{
  check_sum, check_subtotal, check_account_total, check_other_total, other_total_result,
  bound_invoices, open_invoice_ids, subtotal_re,
}
use max_ed.Derive.{open_amount, net_balance, open_invoice_total, total_of, document_ids}
use max_ed.Regex.{search_in, chars}

-- The figure is one of the ledger: its net balance, its open total, or the open total of the
-- invoices that the claim names.
abbrev pub Figure : Claim → Ledger → ℤ → Type 0
Figure c l z =
    (net_balance l ≡ ok z)
    ⊎ (open_invoice_total l ≡ ok z)
    ⊎ ((is_empty (bound_invoices c l) ≡ false)
        × (total_of (open_amount l) (bound_invoices c l) ≡ ok z))

-- A call that passes has a figure of the ledger.
abbrev Backed : Claim → Ledger → ℤ → Result CheckResult → Type 0
Backed c l z (ok r) = r.status ≡ pass → Figure c l z
Backed c l z (raise e) = Unit

module _ (c : Claim) (l : Ledger) (z : ℤ) where
  >>=-Backed {ℓ} :
      {A : Type ℓ} (m : Result A) (f : A → Result CheckResult)
      → ((a : A) → m ≡ ok a → Backed c l z (f a))
      → Backed c l z (m >>= f)
  >>=-Backed (ok a) f h = h a refl
  >>=-Backed (raise e) f h = tt

  if-Backed :
      (b : Bool) (x y : Result CheckResult)
      → (b ≡ true → Backed c l z x)
      → (b ≡ false → Backed c l z y)
      → Backed c l z (if b then x else y)
  if-Backed true x y hx hy = hx refl
  if-Backed false x y hx hy = hy refl

  verdict-Backed :
      (b : Bool) (x y : CheckResult)
      → (b ≡ true → Figure c l z)
      → y.status ≡ fail
      → Backed c l z (ok (if b then x else y))
  verdict-Backed true x y h k e = h refl
  verdict-Backed false x y h k e = cc

  check_subtotal-Backed :
      is_empty (bound_invoices c l) ≡ false → Backed c l z (check_subtotal l (bound_invoices c l) z)
  unfolding check_subtotal
  check_subtotal-Backed h = >>=-Backed (total_of (open_amount l) (bound_invoices c l)) _ (λ a eq.
      verdict-Backed (eqb_ℤ z a) _ _
        (λ same. inr (inr (h, eq ∙ ap ok (sym ((eqb_ℤ_iff z a).0 same))))) refl)

  check_account_total-Backed :
      (net : ℤ) → net_balance l ≡ ok net → Backed c l z (check_account_total c l z net)
  unfolding check_account_total check_other_total other_total_result
  check_account_total-Backed net h =
      if-Backed (eqb_ℤ z net) _ _ (λ same e. inl (h ∙ ap ok (sym ((eqb_ℤ_iff z net).0 same))))
        (λ differs. >>=-Backed (open_invoice_total l) _ (λ open_total eq.
          let stated = eqb_ℤ z open_total && not (eqb_ℤ open_total net) in
          if-Backed (not stated) _ _ (λ b e. cc)
            (λ b.
              if-Backed (search_in subtotal_re (chars c.span)) _ _
                (λ hit. >>=-Backed (open_invoice_ids l) _ (λ ids ei e. inr (
                  inl (
                    eq
                    ∙ ap ok
                        (sym ((eqb_ℤ_iff z open_total).0 (&&_left _ _ (not-false stated b))))))))
                (λ miss e. cc))))

on_value_error-Backed :
    (c : Claim) (l : Ledger) (m : Result ℤ) (f : ℤ → Result CheckResult)
    (g : String → Result CheckResult) (r : CheckResult)
    → ((z : ℤ) → Backed c l z (f z))
    → ((t : String) (q : CheckResult) → g t ≡ ok q → q.status ≡ unverifiable)
    → on_value_error m f g ≡ ok r
    → r.status ≡ pass
    → (z : ℤ) × (m ≡ ok z) × Figure c l z
on_value_error-Backed c l (ok z) f g r hf hg e p = (z, refl, subst (Backed c l z) e (hf z) p)
on_value_error-Backed c l (raise (value_error t)) f g r hf hg e p = let h = hg t r e in cc
on_value_error-Backed c l (raise (key_error t)) f g r hf hg e p = cc
on_value_error-Backed c l (raise (overflow_error t)) f g r hf hg e p = cc
on_value_error-Backed c l (raise (runtime_error t)) f g r hf hg e p = cc

-- A claim of a total that passes has a token that resolves to cents, and the amount is the ledger's
-- net balance, its open-invoice total, or the open total of the invoices that the claim names.
pub check_sum-Figure :
    (c : Claim) (l : Ledger) (r : CheckResult)
    → check_sum c l ≡ ok r
    → r.status ≡ pass
    → (z : ℤ) × (parse_claim_amount c.token ≡ ok z) × Figure c l z
unfolding check_sum
check_sum-Figure c l r e p =
    on_value_error-Backed c l (parse_claim_amount c.token) _ _ r
      (λ z. >>=-Backed c l z (net_balance l) _ (λ net h.
        if-Backed c l z (is_empty (bound_invoices c l)) _ _
          (λ none_bound. check_account_total-Backed c l z net h) (check_subtotal-Backed c l z)))
      (λ t q h. cc) e p

-- What passes a filter has its test.
All-kept : (p : String → Bool) (xs : List String) → All (λ k. p k ≡ true) (filter p xs)
All-kept p [] = tt
All-kept p (x ∷ xs) = ground (arith, All-kept p xs)

settle_verdict-cited :
    (c : Claim) (l : Ledger) (ids : List String) (s : CheckStatus) (t : String)
    → All (λ k. contains k (document_ids l) ≡ true) ids
    → (settle_verdict c ids s t).status ≡ pass
    → (is_empty (settle_verdict c ids s t).cited_records ≡ false)
      × All (λ k. contains k (document_ids l) ≡ true) (settle_verdict c ids s t).cited_records
unfolding settle_verdict
settle_verdict-cited c l ids s t h p = ground arith

-- A call that passes cites documents of the ledger.
abbrev Cited : Ledger → Result CheckResult → Type 0
Cited l (raise e) = Unit
Cited l (ok r) =
    r.status ≡ pass
    → (is_empty r.cited_records ≡ false)
      × All (λ k. contains k (document_ids l) ≡ true) r.cited_records

judge_text-Cited :
    (c : Claim) (l : Ledger) (v : Verdict) (text : String) → Cited l (judge_text c l v text)
unfolding judge_text
judge_text-Cited c l v text =
    let kept = All-kept (λ k. contains k (document_ids l)) v.cited_record_ids in
    go (not (is_empty (filter (λ k. not (contains k (document_ids l))) v.cited_record_ids))) _ _
      (λ e. cc) (bind (verdict_status text) _ (λ s p. settle_verdict-cited c l _ s v.reason kept p))
  where
    go :
        (b : Bool) (x y : Result CheckResult) → Cited l x → Cited l y → Cited l (if b then x else y)
    go true x y h k = h
    go false x y h k = k

    bind :
        (m : Result CheckStatus) (f : CheckStatus → CheckResult)
        → ((s : CheckStatus) → Cited l (ok (f s)))
        → Cited l (m >>= λ s. ok (f s))
    bind (ok s) f h = h s
    bind (raise e) f h = tt

judge_verdict-Cited : (c : Claim) (l : Ledger) (v : Verdict) → Cited l (judge_verdict c l v)
unfolding judge_verdict
judge_verdict-Cited c l v = go v.verdict
  where
    go : (o : Option String) → Cited l (or_raise o (key_error "verdict") >>= judge_text c l v)
    go none = tt
    go (some text) = judge_text-Cited c l v text

-- A fuzzy claim passes only with citations, all of them documents of the ledger: whatever the
-- client answers.
pub check_fuzzy-Cited :
    (c : Claim) (l : Ledger) (resp : Response) (r : CheckResult)
    → check_fuzzy c l resp ≡ ok r
    → r.status ≡ pass
    → (is_empty r.cited_records ≡ false)
      × All (λ k. contains k (document_ids l) ≡ true) r.cited_records
unfolding check_fuzzy
check_fuzzy-Cited c l resp r e = subst (Cited l) e (go resp.succeeded resp.parsed)
  where
    go :
        (b : Bool) (o : Option Verdict)
        → Cited l (
            let failed = ok (
              check_result cannot_determine "" c.span [] (
                concat
                  ("verifier call failed: " ∷ or_text resp.error "no structured output" ∷ []))) in
            if not b then failed else elim o [ none ↦ failed | some v ↦ judge_verdict c l v ])
    go false o = λ p. cc
    go true none = λ p. cc
    go true (some v) = judge_verdict-Cited c l v
