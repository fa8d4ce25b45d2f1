-- ===== src/Tools.antt =====
-- The read-only tools of the agent, balancecheck/drafting/tools.py: canonical identifiers, rows and
-- the six tools. A result is an object of JSON.
pub mod Registry
pub mod Answers
pub mod Contract
mod Tests
use max_ed.Base.{
  ℕ, String, not, Option, none, some, List, [], ◌∷◌, ◌++◌, map, str_eq, if◌then◌else◌, any, filter,
  find, concat, Error, runtime_error, Result, ok, raise, ◌>>=◌, or_raise, Dict, get_or, insert,
  keys,
}
use max_ed.Contracts.{
  Invoice, Application, Signature, Ledger, status_value, Json, bool, num, str, arr, obj, Items, nil,
  cons, Fields, end, field,
}
use max_ed.Base.Int.{ℤ, pos, ltb_ℤ}
use max_ed.Dates.{isoformat}
use max_ed.Derive.{
  SourceDoc, payment, credit_memo, source_doc_id, source_doc_amount, source_doc_date, source_docs,
  applied_to_invoice, open_amount, applied_from_source, unapplied_amount, invoice_status,
  open_invoice_total, unapplied_cash_total, unapplied_credit_total, net_balance,
}
use max_ed.Derive.Structures.{signature}
use max_ed.Json.{set_field}
use max_ed.Money.{render}
use max_ed.Regex.{chars, of_chars, full_match}
use max_ed.Regex.Strip.{strip}
use max_ed.Surface.{explicit_doc_id, loose_doc_id}
use max_ed.Surface.Patterns.{explicit_arg_re, loose_arg_re}

-- How a tool's function ends: with its data, a `ToolError`, or another exception.
pub data ToolEnd : Type 0 where
  gives : Fields → ToolEnd
  tool_error : String → ToolEnd
  fails : Error → ToolEnd

abbrev pub from_result : Result Fields → ToolEnd
from_result (ok fields) = gives fields
from_result (raise e) = fails e

-- `canonicalize_doc_id`
unfoldable pub canonicalize_doc_id : String → Ledger → String
unfolding explicit_doc_id loose_doc_id explicit_arg_re loose_arg_re full_match strip chars of_chars
canonicalize_doc_id raw l =
    let text = strip (chars raw) in
    if full_match explicit_arg_re text
    then explicit_doc_id text l
    else if full_match loose_arg_re text
    then loose_doc_id text l
    else of_chars text

abbrev pub fields_of : List (String × Json) → Fields
fields_of [] = end
fields_of ((k, v) ∷ kvs) = field k v (fields_of kvs)

abbrev pub items_of : List Fields → Items
items_of [] = nil
items_of (f ∷ fs) = cons (obj f) (items_of fs)

-- A money value: rendered, and in cents under a key of its own.
abbrev pub money : String → String → ℤ → List (String × Json)
unfolding render
money key cents_key amount = (key, str (render amount)) ∷ (cents_key, num amount) ∷ []

-- `_invoice_row`
unfoldable pub invoice_row : Ledger → String → Result (List (String × Json))
unfolding applied_to_invoice open_amount invoice_status isoformat render
invoice_row l invoice_id = do
  inv ← or_raise (find (λ (i : Invoice). str_eq i.id invoice_id) l.invoices) (runtime_error "")
  open_amt ← open_amount l invoice_id
  status ← invoice_status l invoice_id
  ok (
      ("id", str inv.id)
      ∷ ("date", str (isoformat inv.date))
      ∷ ("due", str (isoformat inv.due))
      ∷ (money "original" "original_cents" (pos inv.amount_cents)
          ++ (money "applied" "applied_cents" (pos (applied_to_invoice l invoice_id))
              ++ (money "open" "open_cents" open_amt
                  ++ (("status", str (status_value status)) ∷ ("memo", str inv.memo) ∷ [])))))

-- What only one kind of source has, and its type.
abbrev source_type : SourceDoc → String
source_type (payment p) = "payment"
source_type (credit_memo c) = "credit_memo"

abbrev source_details : SourceDoc → List (String × Json)
source_details (payment p) = ("method", str p.method) ∷ ("reference", str p.reference) ∷ []
source_details (credit_memo c) = ("reason", str c.reason) ∷ []

-- `_source_row`
unfoldable pub source_row : Ledger → SourceDoc → Result (List (String × Json))
unfolding applied_from_source unapplied_amount isoformat render
source_row l doc = do
  unapplied ← unapplied_amount l (source_doc_id doc)
  ok (
      ("type", str (source_type doc))
      ∷ ("id", str (source_doc_id doc))
      ∷ ("date", str (isoformat (source_doc_date doc)))
      ∷ (money "original" "original_cents" (pos (source_doc_amount doc))
          ++ (money "applied" "applied_cents" (pos (applied_from_source l (source_doc_id doc)))
              ++ (money "unapplied" "unapplied_cents" unapplied ++ source_details doc))))

abbrev bools_of : Signature → List (String × Json)
bools_of [] = []
bools_of ((label, b) ∷ sig) = (label, bool b) ∷ bools_of sig

unfoldable pub get_account_summary : Ledger → Result Fields
unfolding open_invoice_total unapplied_cash_total unapplied_credit_total net_balance signature
    isoformat render
get_account_summary l = do
  open_total ← open_invoice_total l
  cash ← unapplied_cash_total l
  credit ← unapplied_credit_total l
  net ← net_balance l
  sig ← signature l
  ok (
      fields_of (
        ("client_id", str l.client.id)
        ∷ ("client_name", str l.client.name)
        ∷ ("as_of", str (isoformat l.client.as_of))
        ∷ (money "open_invoice_total" "open_invoice_total_cents" open_total
            ++ (money "unapplied_cash_total" "unapplied_cash_total_cents" cash
                ++ (money "unapplied_credit_total" "unapplied_credit_total_cents" credit
                    ++ (money "net_balance_due" "net_balance_due_cents" net
                        ++ (("signature", obj (fields_of (bools_of sig))) ∷ [])))))))

-- A comprehension whose test and element may raise.
unfoldable pub rows_where {ℓ} :
    {A : Type ℓ}
    → (A → Result ℤ)
    → (A → Result (List (String × Json)))
    → List A
    → Result (List Fields)
rows_where amount row [] = ok []
rows_where amount row (x ∷ xs) =
    let rest = rows_where amount row xs in
    amount x >>= λ n.
    if ltb_ℤ (pos 0) n then (row x >>= λ kvs. rest >>= λ rows. ok (fields_of kvs ∷ rows)) else rest

unfoldable pub list_open_invoices : Ledger → Result Fields
unfolding invoice_row open_amount rows_where
list_open_invoices l = do
  rows ← rows_where (λ (i : Invoice). open_amount l i.id) (λ i. invoice_row l i.id) l.invoices
  ok (field "open_invoices" (arr (items_of rows)) end)

unfoldable pub list_unapplied_sources : Ledger → Result Fields
unfolding source_row unapplied_amount rows_where
list_unapplied_sources l = do
  rows ← rows_where (λ d. unapplied_amount l (source_doc_id d)) (source_row l) (source_docs l)
  ok (field "unapplied_sources" (arr (items_of rows)) end)

-- The applications of a document: its end in each of them, and the amount.
abbrev application_item : String → String → Application → Fields
unfolding render
application_item key end_id a =
    fields_of ((key, str end_id) ∷ money "amount" "amount_cents" (pos a.amount_cents))

abbrev with_applications : List (String × Json) → List Fields → Fields
with_applications row applications =
    fields_of (row ++ (("applications", arr (items_of applications)) ∷ []))

-- `get_invoice`
unfoldable pub get_invoice : Ledger → String → ToolEnd
unfolding canonicalize_doc_id invoice_row concat render
get_invoice l invoice_id =
    let canon = canonicalize_doc_id invoice_id l in
    if not (any (λ (i : Invoice). str_eq i.id canon) l.invoices)
    then tool_error (concat ("unknown invoice " ∷ canon ∷ []))
    else from_result (
        invoice_row l canon >>= λ row. ok (
          with_applications row (
            map (λ (a : Application). application_item "source_id" a.source_id a)
              (filter (λ (a : Application). str_eq a.target_invoice canon) l.applications))))

-- The document of `get_source`.
unfoldable pub find_source : Ledger → String → Option SourceDoc
find_source l canon = find (λ d. str_eq (source_doc_id d) canon) (source_docs l)

abbrev source_end : Ledger → String → Option SourceDoc → ToolEnd
unfolding source_row concat render
source_end l canon none = tool_error (concat ("unknown source " ∷ canon ∷ []))
source_end l canon (some doc) = from_result (
    source_row l doc >>= λ row. ok (
      with_applications row (
        map (λ (a : Application). application_item "target_invoice" a.target_invoice a)
          (filter (λ (a : Application). str_eq a.source_id canon) l.applications))))

-- `get_source`
unfoldable pub get_source : Ledger → String → ToolEnd
unfolding canonicalize_doc_id find_source source_row concat render
get_source l source_id =
    let canon = canonicalize_doc_id source_id l in
    if any (λ (i : Invoice). str_eq i.id canon) l.invoices
    then tool_error (
        concat (
          canon
          ∷ " is an invoice; get_source accepts payment (PMT-*) and credit memo (CM-*) IDs only. Use get_invoice for invoices."
          ∷ []))
    else source_end l canon (find_source l canon)

-- `source_types`: the type of each source, a credit memo's in place of that of a payment of its name.
abbrev insert_types : List SourceDoc → Dict String → Dict String
insert_types [] types = types
insert_types (d ∷ ds) types = insert_types ds (insert (source_doc_id d) (source_type d) types)

abbrev pub source_types : Ledger → Dict String
source_types l = insert_types (source_docs l) []

abbrev applied_totals : (String → ℕ) → List String → Fields → Fields
unfolding set_field render
applied_totals total [] out = out
applied_totals total (k ∷ ks) out =
    applied_totals total ks
      (set_field k (obj (fields_of (money "applied" "applied_cents" (pos (total k))))) out)

unfoldable pub get_application_history : Ledger → Result Fields
unfolding applied_to_invoice applied_from_source set_field render
get_application_history l =
    let types = source_types l in
    ok (
      fields_of (
        (
          "applications",
          arr (
              items_of (
                map
                  (λ (a : Application). fields_of (
                    ("source_id", str a.source_id)
                    ∷ ("target_invoice", str a.target_invoice)
                    ∷ (money "amount" "amount_cents" (pos a.amount_cents)
                        ++ (("source_type", str (get_or a.source_id "unknown" types)) ∷ []))))
                  l.applications)),
        )
        ∷ (
          "applied_by_invoice",
          obj (applied_totals (applied_to_invoice l) (map (λ (i : Invoice). i.id) l.invoices) end),
        )
        ∷ ("applied_by_source", obj (applied_totals (applied_from_source l) (keys types) end))
        ∷ []))
