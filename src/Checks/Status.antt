-- ===== src/Checks/Status.antt =====
-- `check_status` of balancecheck/checks/checks.py.
use max_ed.Contracts.{
  Ledger, pass, fail, unverifiable, InvoiceStatus, paid, outstanding, overdue, status_value,
  CheckResult, Claim,
}
use max_ed.Base.{
  ℕ, String, Bool, true, false, not, ◌&&◌, List, [], ◌∷◌, ◌++◌, if◌then◌else◌, any, concat,
  is_blank, Result, ok, ◌>>=◌,
}
use max_ed.Checks.{find_document, is_invoice_doc, bound_docs, check_result}
use max_ed.Derive.{invoice_status}
use max_ed.Regex.{chars, is_space}
use max_ed.Regex.Strip.{lower, split_words, same_word}

-- `_STATUS_COMPAT`
abbrev pub status_words : InvoiceStatus → List String
status_words paid = "paid" ∷ "settled" ∷ "cleared" ∷ []
status_words outstanding = "outstanding" ∷ "unpaid" ∷ "open" ∷ []
status_words overdue = "overdue" ∷ "past due" ∷ "outstanding" ∷ "unpaid" ∷ "open" ∷ []

-- The words of a text, as lists of numbers.
abbrev pub words_of : String → List (List ℕ)
unfolding chars split_words
words_of s = split_words is_space (lower (chars s))

abbrev same_words : List (List ℕ) → List (List ℕ) → Bool
same_words [] [] = true
same_words (v ∷ vs) (w ∷ ws) = same_word v w && same_words vs ws
same_words _ _ = false

-- Whether `" ".join(token.lower().split())` is one of the words.
unfoldable pub is_status_word : String → List String → Bool
unfolding chars split_words same_word
is_status_word token = any (λ w. same_words (words_of token) (words_of w))

-- `_KNOWN_STATUS_WORDS`
abbrev pub known_status_words : List String
known_status_words = status_words paid ++ (status_words outstanding ++ status_words overdue)

-- The verdict on a status word for an invoice with a derived status.
unfoldable pub judge_status : Claim → String → InvoiceStatus → CheckResult
unfolding is_status_word
judge_status claim subject derived =
    let value = status_value derived in
    if not (is_status_word claim.token known_status_words)
    then check_result fail value claim.token (subject ∷ [])
        (concat ("unrecognized status word " ∷ claim.token ∷ []))
    else if is_status_word claim.token (status_words derived)
    then check_result pass value claim.token (subject ∷ []) ""
    else check_result fail value claim.token (subject ∷ [])
        (concat ("the ledger derives " ∷ value ∷ " for " ∷ subject ∷ []))

-- `bound[0] if len(bound) == 1 else ""`
abbrev pub sole_subject : Claim → String
sole_subject claim = elim (bound_docs claim) [ subject ∷ [] ↦ subject | _ ↦ "" ]

unfoldable pub check_status : Claim → Ledger → Result CheckResult
check_status claim l =
    let subject = sole_subject claim in
    if is_blank subject
    then ok (check_result unverifiable "" claim.token [] "status claim with no resolvable document")
    else if not (is_invoice_doc (find_document l subject))
    then ok (
        check_result unverifiable "" claim.token []
          (concat ("status claim about " ∷ subject ∷ ", which is not an invoice" ∷ [])))
    else (invoice_status l subject >>= λ derived. ok (judge_status claim subject derived))
