-- ===== src/Checks/Amount.antt =====
-- `check_amount` of balancecheck/checks/checks.py.
use max_ed.Base.Int.{ℤ, pos, eqb_ℤ}
use max_ed.Contracts.{
  Payment, Ledger, pass, fail, unverifiable, CheckResult, role_open, role_original, role_applied,
  Claim,
}
use max_ed.Base.{
  String, Bool, not, ◌&&◌, ◌||◌, List, [], ◌∷◌, map, str_eq, if◌then◌else◌, any, filter, is_empty,
  sum_by, contains_by, concat, join, is_blank, Result, ok, ◌>>=◌, traverse,
}
use max_ed.Checks.{
  Document, invoice_doc, payment_doc, credit_doc, missing, find_document, bound_docs, received,
  remit, plain, no_subject_context, parse_claim_amount, on_value_error, check_result, net_label,
}
use max_ed.Derive.{
  open_amount, applied_to_invoice, unapplied_amount, applied_from_source, net_balance,
  open_invoice_total,
}
use max_ed.Money.{render}

-- `_dedup`: the first of equal amounts stays.
unfoldable pub dedup_amounts : List ℤ → List ℤ → List ℤ
dedup_amounts seen [] = []
dedup_amounts seen (v ∷ vs) =
    let new = v ∷ dedup_amounts (v ∷ seen) vs in
    let old = dedup_amounts seen vs in if contains_by eqb_ℤ v seen then old else new

-- `by_role.get(claim.role, by_role[UNKNOWN])`, on the original, the left and the applied amount.
abbrev pub role_amounts : String → ℤ → ℤ → ℤ → List ℤ
role_amounts role original left applied =
    if str_eq role role_open
    then left ∷ []
    else if str_eq role role_original
    then original ∷ []
    else if str_eq role role_applied
    then applied ∷ []
    else original ∷ left ∷ []

-- The amounts that a found document supports in a role.
unfoldable pub acceptable_amounts : Ledger → Document → String → Result (List ℤ)
acceptable_amounts l (invoice_doc i) role = do
  left ← open_amount l i.id
  ok (role_amounts role (pos i.amount_cents) left (pos (applied_to_invoice l i.id)))
acceptable_amounts l (payment_doc p) role = do
  left ← unapplied_amount l p.id
  ok (role_amounts role (pos p.amount_cents) left (pos (applied_from_source l p.id)))
acceptable_amounts l (credit_doc c) role = do
  left ← unapplied_amount l c.id
  ok (role_amounts role (pos c.amount_cents) left (pos (applied_from_source l c.id)))
acceptable_amounts l missing role = ok []

-- The verdict on an amount of a document, against the amounts that are accepted.
unfoldable pub judge_bound : Claim → String → ℤ → List ℤ → CheckResult
judge_bound claim subject claimed acceptable =
    let note = if is_blank claim.role then "" else concat (" (" ∷ claim.role ∷ ")" ∷ []) in
    if contains_by eqb_ℤ claimed acceptable
    then check_result pass (render claimed) (render claimed) (subject ∷ []) ""
    else check_result fail (join " or " (map render acceptable)) (render claimed) (subject ∷ [])
        (concat ("amount does not match " ∷ subject ∷ note ∷ []))

unfoldable pub check_document_amount : Claim → Ledger → String → ℤ → Document → Result CheckResult
check_document_amount claim l subject claimed missing = do
  net ← net_balance l
  ok (
      check_result fail (render net) (render claimed) []
        (concat ("amount attached to " ∷ subject ∷ ", which is not in the ledger" ∷ [])))
check_document_amount claim l subject claimed doc = do
  amounts ← acceptable_amounts l doc claim.role
  ok (judge_bound claim subject claimed (dedup_amounts [] amounts))

-- The amount is attached to one document.
unfoldable pub check_bound_amount : Claim → Ledger → String → ℤ → Result CheckResult
unfolding check_document_amount
check_bound_amount claim l subject claimed =
    check_document_amount claim l subject claimed (find_document l subject)

-- The draft tells the client what to pay.
unfoldable pub check_remitted : ℤ → ℤ → CheckResult
check_remitted claimed net =
    if eqb_ℤ claimed net
    then check_result pass (render claimed) (render claimed) (net_label ∷ []) ""
    else check_result fail (render net) (render claimed) (net_label ∷ [])
        "asks the client to pay an amount that is not the net balance"

-- Each payment with its unapplied amount.
unfoldable pub payment_amounts : Ledger → Result (List (Payment × ℤ))
payment_amounts l =
    traverse (λ (p : Payment). unapplied_amount l p.id >>= λ un. ok (p, un)) l.payments

abbrev pub payment_matches : ℤ → Payment × ℤ → Bool
payment_matches claimed (p, un) = eqb_ℤ (pos p.amount_cents) claimed || eqb_ℤ un claimed

-- The draft says that money came in.
unfoldable pub check_received : Ledger → ℤ → Result CheckResult
check_received l claimed = do
  amounts ← payment_amounts l
  let matched = map (λ (p, un). p.id) (filter (payment_matches claimed) amounts)
  let total = sum_by (λ (p : Payment). p.amount_cents) l.payments
  ok (
      if any (payment_matches claimed) amounts || eqb_ℤ (pos total) claimed
      then check_result pass (render claimed) (render claimed)
          (if is_empty matched then "PAYMENTS-TOTAL" ∷ [] else matched) ""
      else check_result fail "a recorded payment amount" (render claimed) []
          "asserts a received amount matching no payment on the ledger")

unfoldable pub check_plain : Ledger → ℤ → ℤ → Result CheckResult
check_plain l claimed net =
    if eqb_ℤ claimed net
    then ok (check_result pass (render claimed) (render claimed) (net_label ∷ []) "")
    else (open_invoice_total l >>= λ open_total. ok (
        if eqb_ℤ claimed open_total && not (eqb_ℤ open_total net)
        then check_result fail (render net) (render claimed) (net_label ∷ [])
            "states the open-invoice total and ignores unapplied cash or credits"
        else check_result unverifiable "" (render claimed) []
            "amount is attached to no document and asserts no checkable total; escalated rather than matched against unrelated ledger figures"))

unfoldable pub check_unbound_amount : Claim → Ledger → ℤ → Result CheckResult
check_unbound_amount claim l claimed = do
  net ← net_balance l
  elim (no_subject_context claim.span) [
    | remit ↦ ok (check_remitted claimed net)
    | received ↦ check_received l claimed
    | plain ↦ check_plain l claimed net
  ]

unfoldable pub check_amount : Claim → Ledger → Result CheckResult
check_amount claim l =
    on_value_error (parse_claim_amount claim.token)
      (λ claimed. elim (bound_docs claim) [
        | subject ∷ [] ↦ check_bound_amount claim l subject claimed
        | _ ↦ check_unbound_amount claim l claimed
      ])
      (λ text. ok (
        check_result unverifiable "" claim.token []
          (concat ("amount token could not be resolved to cents: " ∷ text ∷ []))))
