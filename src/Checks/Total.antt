-- ===== src/Checks/Total.antt =====
-- `check_sum` of balancecheck/checks/checks.py.
use max_ed.Base.Int.{ℤ, pos, ltb_ℤ, eqb_ℤ}
use max_ed.Contracts.{Invoice, Ledger, pass, fail, unverifiable, CheckResult, Claim}
use max_ed.Base.{
  Bool, String, not, ◌&&◌, List, [], ◌∷◌, map, if◌then◌else◌, filter, is_empty, concat, Result, ok,
  ◌>>=◌, filter_result,
}
use max_ed.Checks.{
  find_document, is_invoice_doc, bound_docs, parse_claim_amount, on_value_error, check_result,
  net_label,
}
use max_ed.Amounts.{spaced, whole_word}
use max_ed.Derive.{open_amount, net_balance, open_invoice_total, total_of}
use max_ed.Money.{render}
use max_ed.Regex.{Regex, seq, opt, search_in, chars, one_of}

-- `\b(?:invoices?|line\s+items?|open\s+items?)\b`
unfoldable pub subtotal_re : Regex
unfolding chars
subtotal_re = whole_word (
    seq
      (one_of (
        spaced ("invoice" ∷ [])
        ∷ spaced ("line" ∷ "item" ∷ [])
        ∷ spaced ("open" ∷ "item" ∷ [])
        ∷ []))
      (opt (spaced ("s" ∷ []))))

-- The bound documents that are invoices.
abbrev pub bound_invoices : Claim → Ledger → List String
bound_invoices claim l = filter (λ d. is_invoice_doc (find_document l d)) (bound_docs claim)

-- A total over named invoices.
unfoldable pub check_subtotal : Ledger → List String → ℤ → Result CheckResult
check_subtotal l bound claimed = do
  subtotal ← total_of (open_amount l) bound
  ok (
      if eqb_ℤ claimed subtotal
      then check_result pass (render subtotal) (render claimed) bound
          "a true subtotal over the named invoices"
      else check_result fail (render subtotal) (render claimed) bound
          "does not equal the open total of the named invoices")

-- `[inv.id for inv in ledger.invoices if open_amount(inv.id) > 0]`
unfoldable pub open_invoice_ids : Ledger → Result (List String)
open_invoice_ids l = do
  found ←
      filter_result (λ (i : Invoice). open_amount l i.id >>= λ amount. ok (ltb_ℤ (pos 0) amount))
        l.invoices
  ok (map (λ i. i.id) found)

unfoldable pub other_total_result :
    Claim → Ledger → ℤ → Bool → (String → CheckResult) → Result CheckResult
unfolding subtotal_re chars
other_total_result claim l claimed stated_open failed =
    if not stated_open
    then ok (failed "does not match the computed balance")
    else if search_in subtotal_re (chars claim.span)
    then (open_invoice_ids l >>= λ open_ids. ok (
        check_result pass (render claimed) (render claimed) open_ids
          "a true open-invoice subtotal, distinct from the net balance"))
    else ok (failed "states the open-invoice total and ignores unapplied cash or credits")

-- A total of the account that is not the net balance.
unfoldable pub check_other_total : Claim → Ledger → ℤ → ℤ → Result CheckResult
check_other_total claim l claimed net = do
  open_total ← open_invoice_total l
  let stated_open = eqb_ℤ claimed open_total && not (eqb_ℤ open_total net)
  let failed =
      λ (detail : String). check_result fail (render net) (render claimed) (net_label ∷ []) detail
  other_total_result claim l claimed stated_open failed

unfoldable pub check_account_total : Claim → Ledger → ℤ → ℤ → Result CheckResult
check_account_total claim l claimed net =
    if eqb_ℤ claimed net
    then ok (check_result pass (render net) (render claimed) (net_label ∷ []) "")
    else check_other_total claim l claimed net

unfoldable pub check_sum : Claim → Ledger → Result CheckResult
check_sum claim l =
    on_value_error (parse_claim_amount claim.token)
      (λ claimed. net_balance l >>= λ net.
        if is_empty (bound_invoices claim l)
        then check_account_total claim l claimed net
        else check_subtotal l (bound_invoices claim l) claimed)
      (λ text. ok (
        check_result unverifiable "" claim.token []
          (concat ("total token could not be resolved to cents: " ∷ text ∷ []))))
