-- ===== src/Checks.antt =====
-- The check registry, balancecheck/checks/checks.py: lookups and the helpers of the checkers. The
-- text of a Python exception is kept without the offending token's repr.
pub mod Amount
pub mod Total
pub mod Status
pub mod DateClaim
pub mod Fuzzy
pub mod Registry
pub mod Verdicts
pub mod FuzzyVerdicts
pub mod Support
pub mod Frame
mod Tests
use max_ed.Base.Int.{ℤ}
use max_ed.Contracts.{
  Invoice, Payment, CreditMemo, Ledger, CheckStatus, pass, fail, other, CheckResult, Claim, field,
}
use max_ed.Base.{
  String, Bool, true, false, not, none, some, List, [], ◌∷◌, str_eq, if◌then◌else◌, any, find,
  is_empty, is_blank, contains, Error, key_error, value_error, overflow_error, runtime_error,
  Result, ok, raise,
}
use max_ed.Amounts.{parse_amount_token, whole_word, word, spaced}
use max_ed.Derive.{document_ids}
use max_ed.Money.Parse.{parse_dollars}
use max_ed.Regex.{
  Regex, ilit, seq, alt, opt, word_boundary, search_in, chars, space_class, plus, one_of, all_of,
}

abbrev pub net_label : String
net_label = "NET"

-- What `_find_document` returns.
pub data Document : Type 0 where
  invoice_doc : Invoice → Document
  payment_doc : Payment → Document
  credit_doc : CreditMemo → Document
  missing : Document

unfoldable pub find_document : Ledger → String → Document
find_document l doc_id = elim (find (λ i. str_eq i.id doc_id) l.invoices) [
  | some i ↦ invoice_doc i
  | none ↦ elim (find (λ p. str_eq p.id doc_id) l.payments) [
    | some p ↦ payment_doc p
    | none ↦ elim (find (λ c. str_eq c.id doc_id) l.credit_memos) [
      | some c ↦ credit_doc c
      | none ↦ missing
    ]
  ]
]

abbrev pub is_invoice_doc : Document → Bool
is_invoice_doc (invoice_doc i) = true
is_invoice_doc (payment_doc p) = false
is_invoice_doc (credit_doc c) = false
is_invoice_doc missing = false

abbrev pub is_found : Document → Bool
is_found (invoice_doc i) = true
is_found (payment_doc p) = true
is_found (credit_doc c) = true
is_found missing = false

-- `_bound_docs`
abbrev pub bound_docs : Claim → List String
bound_docs c =
    if not (is_empty c.subject_ids)
    then c.subject_ids
    else if is_blank c.subject_id
    then []
    else c.subject_id ∷ []

-- What `_no_subject_context` tells apart.
pub data Context : Type 0 where
  received remit plain : Context

unfoldable pub remit_context_re : Regex
unfolding chars
remit_context_re = whole_word (
    one_of (
      spaced ("remit" ∷ [])
      ∷ spaced ("send" ∷ [])
      ∷ spaced ("wire" ∷ [])
      ∷ spaced ("transfer" ∷ [])
      ∷ spaced ("please" ∷ "pay" ∷ [])
      ∷ spaced ("pay" ∷ "us" ∷ [])
      ∷ spaced ("kindly" ∷ "send" ∷ [])
      ∷ spaced ("kindly" ∷ "wire" ∷ [])
      ∷ spaced ("kindly" ∷ "pay" ∷ [])
      ∷ []))

unfoldable pub received_context_re : Regex
unfolding chars
received_context_re = whole_word (
    one_of (
      seq (spaced ("receive" ∷ [])) (opt (spaced ("d" ∷ [])))
      ∷ spaced ("we" ∷ "got" ∷ [])
      ∷ spaced ("thank" ∷ "you" ∷ "for" ∷ "your" ∷ "payment" ∷ [])
      ∷ []))

unfoldable pub no_subject_context : String → Context
unfolding remit_context_re received_context_re chars
no_subject_context span =
    if search_in received_context_re (chars span)
    then received
    else if search_in remit_context_re (chars span)
    then remit
    else plain

-- `_parse_amount`: a ValueError passes, any other exception falls back to `parse_dollars`.
unfoldable pub parse_claim_amount : String → Result ℤ
unfolding chars
parse_claim_amount token = elim (parse_amount_token token) [
  | ok amount ↦ ok amount
  | raise e ↦ elim e [
    | value_error text ↦ raise (value_error text)
    | key_error text ↦ parse_dollars (chars token)
    | overflow_error text ↦ parse_dollars (chars token)
    | runtime_error text ↦ parse_dollars (chars token)
  ]
]

-- `str(exc)`
abbrev pub error_text : Error → String
error_text (key_error text) = text
error_text (value_error text) = text
error_text (overflow_error text) = text
error_text (runtime_error text) = text

-- `try: … except ValueError`: the second call handles a ValueError, another exception passes.
abbrev pub on_value_error {ℓ κ} :
    {A : Type ℓ} {B : Type κ} → Result A → (A → Result B) → (String → Result B) → Result B
on_value_error (ok a) f handler = f a
on_value_error (raise (value_error text)) f handler = handler text
on_value_error (raise (key_error text)) f handler = raise (key_error text)
on_value_error (raise (overflow_error text)) f handler = raise (overflow_error text)
on_value_error (raise (runtime_error text)) f handler = raise (runtime_error text)

-- A `CheckResult`, field by field.
abbrev pub check_result : CheckStatus → String → String → List String → String → CheckResult
check_result status expected actual cited detail = record {
  status = status;
  expected = expected;
  actual = actual;
  cited_records = cited;
  detail = detail;
}

unfoldable pub check_exist : Claim → Ledger → CheckResult
check_exist claim l =
    if contains claim.token (document_ids l)
    then check_result pass claim.token claim.token (claim.token ∷ []) ""
    else check_result fail "" claim.token [] "no such document in the ledger"
