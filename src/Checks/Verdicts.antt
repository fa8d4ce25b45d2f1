-- ===== src/Checks/Verdicts.antt =====
-- Which verdicts a claim of code can get.
use mathlib.Core.Path.{subst}
use max_ed.Base.Int.{ℤ, eqb_ℤ}
use max_ed.Contracts.{
  Ledger, ClaimType, c_exist, c_amt, c_sum, c_status, c_date, c_fuzzy, CheckStatus, pass, fail,
  unverifiable, InvoiceStatus, CheckResult, Claim,
}
use max_ed.Base.{
  String, ◌≡◌, refl, ◌⊎◌, inl, inr, Bool, true, false, not, List, [], ◌∷◌, if◌then◌else◌, is_empty,
  is_blank, key_error, value_error, overflow_error, runtime_error, Result, ok, raise, ◌>>=◌,
}
use max_ed.Checks.{
  check_exist, parse_claim_amount, on_value_error, find_document, bound_docs, no_subject_context,
  Context, received, remit, plain, Document, missing, is_invoice_doc,
}
use max_ed.Checks.Amount.{
  check_amount, check_bound_amount, check_document_amount, judge_bound, check_unbound_amount,
  check_remitted, check_received, check_plain, acceptable_amounts, payment_amounts,
}
use max_ed.Checks.DateClaim.{
  check_date, check_free_date, check_bound_date, bound_found, date_matches,
}
use max_ed.Checks.Registry.{code_check}
use max_ed.Checks.Status.{
  check_status, judge_status, sole_subject, is_status_word, known_status_words, status_words,
}
use max_ed.Checks.Total.{
  check_sum, check_subtotal, check_account_total, check_other_total, other_total_result,
  bound_invoices, open_invoice_ids, subtotal_re,
}
use max_ed.Derive.{net_balance, open_invoice_total, open_amount, invoice_status, total_of}
use max_ed.Dates.Token.{parse_date_token}
use max_ed.Regex.{search_in, chars}

-- The verdicts of code.
abbrev pub CodeStatus : CheckStatus → Type 0
CodeStatus s = (s ≡ pass) ⊎ (s ≡ fail) ⊎ (s ≡ unverifiable)

-- A call that returns gives a verdict of code.
abbrev Coded : Result CheckResult → Type 0
Coded (ok r) = CodeStatus r.status
Coded (raise e) = Unit

module _ {ℓ} {A : Type ℓ} where
  >>=-Coded :
      (m : Result A) (f : A → Result CheckResult) → ((a : A) → Coded (f a)) → Coded (m >>= f)
  >>=-Coded (ok a) f h = h a
  >>=-Coded (raise e) f h = tt

  on_value_error-Coded :
      (m : Result A) (f : A → Result CheckResult) (g : String → Result CheckResult)
      → ((a : A) → Coded (f a))
      → ((t : String) → Coded (g t))
      → Coded (on_value_error m f g)
  on_value_error-Coded (ok a) f g hf hg = hf a
  on_value_error-Coded (raise (value_error t)) f g hf hg = hg t
  on_value_error-Coded (raise (key_error t)) f g hf hg = tt
  on_value_error-Coded (raise (overflow_error t)) f g hf hg = tt
  on_value_error-Coded (raise (runtime_error t)) f g hf hg = tt

if-Coded : (b : Bool) (x y : Result CheckResult) → Coded x → Coded y → Coded (if b then x else y)
if-Coded true x y hx hy = hx
if-Coded false x y hx hy = hy

-- Either of two verdicts of code.
if-CodeStatus :
    (b : Bool) (x y : CheckResult)
    → CodeStatus x.status
    → CodeStatus y.status
    → CodeStatus (if b then x else y).status
if-CodeStatus true x y hx hy = hx
if-CodeStatus false x y hx hy = hy

check_exist-CodeStatus : (c : Claim) (l : Ledger) → CodeStatus (check_exist c l).status
unfolding check_exist
check_exist-CodeStatus c l = if-CodeStatus _ _ _ (inl refl) (inr (inl refl))

judge_bound-CodeStatus :
    (c : Claim) (k : String) (z : ℤ) (zs : List ℤ) → CodeStatus (judge_bound c k z zs).status
unfolding judge_bound
judge_bound-CodeStatus c k z zs = if-CodeStatus _ _ _ (inl refl) (inr (inl refl))

check_document_amount-Coded :
    (c : Claim) (l : Ledger) (k : String) (z : ℤ) (d : Document)
    → Coded (check_document_amount c l k z d)
unfolding check_document_amount
check_document_amount-Coded c l k z missing = >>=-Coded (net_balance l) _ (λ net. inr (inl refl))
check_document_amount-Coded c l k z d =
    >>=-Coded (acceptable_amounts l d c.role) _ (λ amounts. judge_bound-CodeStatus c k z _)

check_remitted-CodeStatus : (z net : ℤ) → CodeStatus (check_remitted z net).status
unfolding check_remitted
check_remitted-CodeStatus z net = if-CodeStatus _ _ _ (inl refl) (inr (inl refl))

check_received-Coded : (l : Ledger) (z : ℤ) → Coded (check_received l z)
unfolding check_received
check_received-Coded l z =
    >>=-Coded (payment_amounts l) _ (λ amounts. if-CodeStatus _ _ _ (inl refl) (inr (inl refl)))

check_plain-Coded : (l : Ledger) (z net : ℤ) → Coded (check_plain l z net)
unfolding check_plain
check_plain-Coded l z net = if-Coded (eqb_ℤ z net) _ _ (inl refl) (
    >>=-Coded (open_invoice_total l) _
      (λ open_total. if-CodeStatus _ _ _ (inr (inl refl)) (inr (inr refl))))

check_unbound_amount-Coded : (c : Claim) (l : Ledger) (z : ℤ) → Coded (check_unbound_amount c l z)
unfolding check_unbound_amount
check_unbound_amount-Coded c l z =
    >>=-Coded (net_balance l) _ (λ net. go net (no_subject_context c.span))
  where
    go :
        (net : ℤ) (context : Context)
        → Coded (elim context [
          | remit ↦ ok (check_remitted z net)
          | received ↦ check_received l z
          | plain ↦ check_plain l z net
        ])
    go net remit = check_remitted-CodeStatus z net
    go net received = check_received-Coded l z
    go net plain = check_plain-Coded l z net

check_amount-Coded : (c : Claim) (l : Ledger) → Coded (check_amount c l)
unfolding check_amount check_bound_amount
check_amount-Coded c l =
    on_value_error-Coded (parse_claim_amount c.token) _ _ (λ z. go z (bound_docs c))
      (λ t. inr (inr refl))
  where
    go :
        (z : ℤ) (docs : List String)
        → Coded (elim docs [
          | subject ∷ [] ↦ check_bound_amount c l subject z
          | _ ↦ check_unbound_amount c l z
        ])
    go z [] = check_unbound_amount-Coded c l z
    go z (k ∷ []) = check_document_amount-Coded c l k z (find_document l k)
    go z (k ∷ j ∷ ks) = check_unbound_amount-Coded c l z

other_total_result-Coded :
    (c : Claim) (l : Ledger) (z : ℤ) (b : Bool) (failed : String → CheckResult)
    → ((t : String) → CodeStatus (failed t).status)
    → Coded (other_total_result c l z b failed)
unfolding other_total_result
other_total_result-Coded c l z b failed h = if-Coded (not b) _ _ (h _) (
    if-Coded (search_in subtotal_re (chars c.span)) _ _
      (>>=-Coded (open_invoice_ids l) _ (λ ids. inl refl)) (h _))

check_sum-Coded : (c : Claim) (l : Ledger) → Coded (check_sum c l)
unfolding check_sum check_account_total check_other_total check_subtotal
check_sum-Coded c l =
    on_value_error-Coded (parse_claim_amount c.token) _ _
      (λ z. >>=-Coded (net_balance l) _ (λ net.
        if-Coded (is_empty (bound_invoices c l)) _ _
          (if-Coded (eqb_ℤ z net) _ _ (inl refl) (
            >>=-Coded (open_invoice_total l) _
              (λ open_total. other_total_result-Coded c l z _ _ (λ t. inr (inl refl)))))
          (>>=-Coded (total_of (open_amount l) (bound_invoices c l)) _
            (λ subtotal. if-CodeStatus _ _ _ (inl refl) (inr (inl refl))))))
      (λ t. inr (inr refl))

judge_status-CodeStatus :
    (c : Claim) (k : String) (s : InvoiceStatus) → CodeStatus (judge_status c k s).status
unfolding judge_status
judge_status-CodeStatus c k s =
    if-CodeStatus (not (is_status_word c.token known_status_words)) _ _ (inr (inl refl))
      (if-CodeStatus (is_status_word c.token (status_words s)) _ _ (inl refl) (inr (inl refl)))

check_status-Coded : (c : Claim) (l : Ledger) → Coded (check_status c l)
unfolding check_status
check_status-Coded c l = if-Coded (is_blank (sole_subject c)) _ _ (inr (inr refl)) (
    if-Coded (not (is_invoice_doc (find_document l (sole_subject c)))) _ _ (inr (inr refl)) (
      >>=-Coded (invoice_status l (sole_subject c)) _ (judge_status-CodeStatus c (sole_subject c))))

check_date-Coded : (c : Claim) (l : Ledger) → Coded (check_date c l)
unfolding check_date check_free_date check_bound_date
check_date-Coded c l =
    on_value_error-Coded (parse_date_token c.token) _ _
      (λ d.
        if-CodeStatus (is_empty (bound_found c l)) (check_free_date c l d)
          (check_bound_date c l (bound_found c l) d)
          (if-CodeStatus (not (is_empty (date_matches l d))) _ _ (inl refl) (inr (inl refl)))
          (if-CodeStatus _ _ _ (inl refl) (inr (inl refl))))
      (λ t. inr (inr refl))

-- The registry gives a claim of code a verdict of code.
pub code_check-Coded :
    (c : Claim) (l : Ledger) {r : CheckResult} → code_check c l ≡ ok r → CodeStatus r.status
unfolding code_check
code_check-Coded c l {r} e = subst Coded e (go c.claim_type)
  where
    go :
        (t : ClaimType)
        → Coded (elim t [
          | c_exist ↦ ok (check_exist c l)
          | c_amt ↦ check_amount c l
          | c_sum ↦ check_sum c l
          | c_status ↦ check_status c l
          | c_date ↦ check_date c l
          | c_fuzzy ↦ raise (runtime_error "check_fuzzy takes a client")
        ])
    go c_exist = check_exist-CodeStatus c l
    go c_amt = check_amount-Coded c l
    go c_sum = check_sum-Coded c l
    go c_status = check_status-Coded c l
    go c_date = check_date-Coded c l
    go c_fuzzy = tt
