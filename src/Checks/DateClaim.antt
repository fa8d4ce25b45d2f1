-- ===== src/Checks/DateClaim.antt =====
-- `check_date` of balancecheck/checks/checks.py.
use max_ed.Contracts.{Date, Ledger, pass, fail, unverifiable, CheckResult, Claim}
use max_ed.Base.{
  String, Bool, false, not, ◌||◌, Option, none, some, List, [], ◌∷◌, ◌++◌, map, ltb, ◌==◌,
  if◌then◌else◌, filter, is_empty, concat, join, Result, ok,
}
use max_ed.Checks.{
  Document, invoice_doc, payment_doc, credit_doc, missing, find_document, is_found, bound_docs,
  on_value_error, check_result,
}
use max_ed.Dates.{isoformat}
use max_ed.Dates.Token.{parse_date_token}

-- `carries`: the claimed date is one of the document's.
abbrev pub carries : Date → Document → Bool
carries claimed (invoice_doc i) = i.date == claimed || i.due == claimed
carries claimed (payment_doc p) = p.date == claimed
carries claimed (credit_doc c) = c.date == claimed
carries claimed missing = false

abbrev pub document_date : Document → Option Date
document_date (invoice_doc i) = some i.date
document_date (payment_doc p) = some p.date
document_date (credit_doc c) = some c.date
document_date missing = none

-- `sorted({…})`: a date goes to its place, once.
unfoldable pub insert_date : Date → List Date → List Date
insert_date d [] = d ∷ []
insert_date d (e ∷ es) =
    if d == e then e ∷ es else if ltb d e then d ∷ e ∷ es else e ∷ insert_date d es

unfoldable pub sorted_dates : Ledger → List String → List Date
unfolding insert_date
sorted_dates l [] = []
sorted_dates l (b ∷ bs) = elim (document_date (find_document l b)) [
  | some d ↦ insert_date d (sorted_dates l bs)
  | none ↦ sorted_dates l bs
]

-- The documents that the claim is bound to and that exist.
abbrev pub bound_found : Claim → Ledger → List String
bound_found claim l = filter (λ d. is_found (find_document l d)) (bound_docs claim)

unfoldable pub check_bound_date : Claim → Ledger → List String → Date → CheckResult
unfolding sorted_dates
check_bound_date claim l bound claimed =
    let missing_ids = filter (λ d. not (carries claimed (find_document l d))) bound in
    if is_empty missing_ids
    then check_result pass (isoformat claimed) claim.token bound ""
    else check_result fail (join ", " (map isoformat (sorted_dates l bound))) claim.token bound (
        if ltb l.client.as_of claimed
        then "date is after the statement as_of"
        else concat ("date is not carried by " ∷ join ", " missing_ids ∷ []))

-- The documents, and the statement itself, that carry a date.
unfoldable pub date_matches : Ledger → Date → List String
date_matches l claimed =
    map (λ i. i.id) (filter (λ i. carries claimed (invoice_doc i)) l.invoices)
    ++ (map (λ p. p.id) (filter (λ p. carries claimed (payment_doc p)) l.payments)
        ++ (map (λ c. c.id) (filter (λ c. carries claimed (credit_doc c)) l.credit_memos)
            ++ (if claimed == l.client.as_of then "AS_OF" ∷ [] else [])))

unfoldable pub check_free_date : Claim → Ledger → Date → CheckResult
check_free_date claim l claimed =
    let matches = date_matches l claimed in
    if not (is_empty matches)
    then check_result pass (isoformat claimed) claim.token matches ""
    else check_result fail "no such date in the ledger; remove it or cite a document date"
        claim.token []
        (if ltb l.client.as_of claimed
          then "date is after the statement as_of"
          else "date matches no document date, due date, or the statement as_of")

unfoldable pub check_date : Claim → Ledger → Result CheckResult
check_date claim l =
    on_value_error (parse_date_token claim.token)
      (λ claimed. ok (
        if is_empty (bound_found claim l)
        then check_free_date claim l claimed
        else check_bound_date claim l (bound_found claim l) claimed))
      (λ text. ok (
        check_result unverifiable "" claim.token []
          (concat ("date token could not be resolved: " ∷ text ∷ []))))
