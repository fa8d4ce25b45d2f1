-- ===== src/Tools/Registry.antt =====
-- The registry, the catalog and the executor of balancecheck/drafting/tools.py. The validator of
-- JSON schemas is a library's: it is an argument.
use max_ed.Base.{
  String, true, false, Option, none, some, List, [], ◌∷◌, str_eq, if◌then◌else◌, concat, Error,
  key_error, value_error, overflow_error, runtime_error, Result, ok, raise,
}
use max_ed.Contracts.{Ledger, Json, bool, str, arr, obj, Items, nil, cons, Fields, end, field}
use max_ed.Json.{dumps}
use max_ed.Tools.{
  ToolEnd, gives, tool_error, fails, from_result, get_account_summary, list_open_invoices,
  get_invoice, list_unapplied_sources, get_source, get_application_history,
}

pub data Tool : Type 0 where
  account_summary open_invoices one_invoice unapplied_sources one_source application_history : Tool

abbrev pub all_tools : List Tool
all_tools =
    account_summary ∷ open_invoices ∷ one_invoice ∷ unapplied_sources ∷ one_source
    ∷ application_history ∷ []

abbrev pub name_of : Tool → String
name_of account_summary = "get_account_summary"
name_of open_invoices = "list_open_invoices"
name_of one_invoice = "get_invoice"
name_of unapplied_sources = "list_unapplied_sources"
name_of one_source = "get_source"
name_of application_history = "get_application_history"

-- `_no_args_schema` and `_id_schema`
abbrev pub no_args_schema : Fields
no_args_schema =
    field "type" (str "object")
      (field "properties" (obj end) (field "additionalProperties" (bool false) end))

abbrev pub id_schema : String → String → Fields
id_schema name description = field "type" (str "object") (
    field "properties"
      (obj (
        field name (obj (field "type" (str "string") (field "description" (str description) end)))
          end))
      (field "required" (arr (cons (str name) nil))
        (field "additionalProperties" (bool false) end)))

abbrev pub schema_of : Tool → Fields
schema_of one_invoice =
    id_schema "invoice_id" "Invoice ID, e.g. INV-3063; tolerant forms like 'inv 3063' work."
schema_of one_source =
    id_schema "source_id" "Payment or credit memo ID, e.g. PMT-0278 or CM-0025; not invoices."
schema_of account_summary = no_args_schema
schema_of open_invoices = no_args_schema
schema_of unapplied_sources = no_args_schema
schema_of application_history = no_args_schema

abbrev description_of : Tool → String
description_of account_summary =
    "Account totals: open invoice total, unapplied cash and credit totals, net balance due, and the detected structure signature."
description_of open_invoices =
    "Every invoice with an open amount, with original, applied, and open amounts, derived status, and memo."
description_of one_invoice =
    "One invoice by ID: dates, original, applied, and open amounts, derived status, and every application targeting it."
description_of unapplied_sources =
    "Every payment or credit memo with money not yet applied to any invoice, with applied and unapplied amounts."
description_of one_source =
    "One payment or credit memo by ID: applied and unapplied totals and every application from it."
description_of application_history =
    "Every application of money onto invoices, plus applied totals grouped per invoice and per source."

-- `tool_catalog`
abbrev catalog_items : List Tool → Items
catalog_items [] = nil
catalog_items (t ∷ ts) =
    cons
      (obj (
        field "name" (str (name_of t)) (
          field "description" (str (description_of t))
            (field "parameters" (obj (schema_of t)) end))))
      (catalog_items ts)

abbrev pub tool_catalog : Json
tool_catalog = arr (catalog_items all_tools)

-- `_catalog_text` of balancecheck/drafting/agentic.py
unfoldable pub catalog_text : String
unfolding dumps
catalog_text = dumps tool_catalog

-- `TOOL_REGISTRY.get(name)`
abbrev pub find_tool : String → List Tool → Option Tool
find_tool name [] = none
find_tool name (t ∷ ts) = if str_eq (name_of t) name then some t else find_tool name ts

unfoldable pub tool_of : String → Option Tool
tool_of name = find_tool name all_tools

-- `fn(ledger, **arguments)`: arguments that the function does not take raise a `TypeError`, and an
-- identifier that is no text an `AttributeError`; no argument that fits its schema does.
abbrev without_arguments : Fields → ToolEnd → ToolEnd
without_arguments end e = e
without_arguments (field k v fields) e = fails (runtime_error "TypeError: unexpected argument")

abbrev with_id : String → Fields → (String → ToolEnd) → ToolEnd
with_id name (field k (str id) end) f =
    if str_eq k name then f id else fails (runtime_error "TypeError: unexpected argument")
with_id name (field k v end) f =
    if str_eq k name
    then fails (runtime_error "AttributeError: no text")
    else fails (runtime_error "TypeError: unexpected argument")
with_id name _ f = fails (runtime_error "TypeError: wrong arguments")

unfoldable pub run_tool : Tool → Ledger → Fields → ToolEnd
unfolding get_account_summary list_open_invoices get_invoice list_unapplied_sources get_source
    get_application_history
run_tool account_summary l args = without_arguments args (from_result (get_account_summary l))
run_tool open_invoices l args = without_arguments args (from_result (list_open_invoices l))
run_tool one_invoice l args = with_id "invoice_id" args (get_invoice l)
run_tool unapplied_sources l args = without_arguments args (from_result (list_unapplied_sources l))
run_tool one_source l args = with_id "source_id" args (get_source l)
run_tool application_history l args =
    without_arguments args (from_result (get_application_history l))

abbrev pub refusal : String → Fields
refusal error = field "ok" (bool false) (field "error" (str error) end)

-- `f"{type(exc).__name__}: {exc}"`
abbrev pub exception_text : Error → String
unfolding concat
exception_text (key_error s) = concat ("KeyError: " ∷ s ∷ [])
exception_text (value_error s) = concat ("ValueError: " ∷ s ∷ [])
exception_text (overflow_error s) = concat ("OverflowError: " ∷ s ∷ [])
exception_text (runtime_error s) = s

unfoldable pub end_result : ToolEnd → Fields
unfolding concat
end_result (gives fields) = field "ok" (bool true) (field "data" (obj fields) end)
end_result (tool_error text) = refusal text
end_result (fails e) = refusal (exception_text e)

-- What `jsonschema.validate` does: it returns, it raises the `ValidationError` that the executor
-- catches, or it raises something else.
pub data Validation : Type 0 where
  valid : Validation
  invalid : String → Validation
  breaks : Error → Validation

abbrev pub Validator : Type 0
Validator = Fields → Fields → Validation

unfoldable pub validated : String → Tool → Ledger → Fields → Validation → Result Fields
unfolding run_tool end_result concat
validated name t l args (invalid message) =
    ok (refusal (concat ("invalid arguments for " ∷ name ∷ ": " ∷ message ∷ [])))
validated name t l args (breaks e) = raise e
validated name t l args valid = ok (end_result (run_tool t l args))

unfoldable pub found_tool : Validator → String → Option Tool → Fields → Ledger → Result Fields
unfolding validated concat
found_tool validate name none args l = ok (refusal (concat ("unknown tool '" ∷ name ∷ "'" ∷ [])))
found_tool validate name (some t) args l = validated name t l args (validate args (schema_of t))

-- `execute_tool`
unfoldable pub execute_tool : Validator → String → Fields → Ledger → Result Fields
unfolding tool_of found_tool
execute_tool validate name args l = found_tool validate name (tool_of name) args l
