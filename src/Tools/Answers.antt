-- ===== src/Tools/Answers.antt =====
-- What `execute_tool` of balancecheck/drafting/tools.py answers: the object of the tool that serves the
-- call, or a refusal.
use max_ed.Base.{
  String, ◌≡◌, refl, sym, ap, ◌⊎◌, inl, inr, true, Option, none, some, List, [], ok, Ensures,
  Ensures-ok, ◌≢◌, ◌∷◌, str_eq, eq_iff, Bool-cases, arith, Error, ◌∙◌,
}
use max_ed.Contracts.{Ledger, bool, obj, Fields, end, field}
use max_ed.Tools.{ToolEnd, gives, tool_error, fails}
use max_ed.Tools.Registry.{
  find_tool, all_tools, name_of, Validation, valid, invalid, breaks, account_summary, open_invoices,
  one_invoice, unapplied_sources, one_source, application_history, Validator, Tool, execute_tool,
  tool_of, found_tool, validated, schema_of, end_result, refusal, exception_text, run_tool,
}

abbrev pub success : Fields → Fields
success fields = field "ok" (bool true) (field "data" (obj fields) end)

tool_of-name : (t : Tool) → tool_of (name_of t) ≡ some t
unfolding tool_of
tool_of-name account_summary = refl
tool_of-name open_invoices = refl
tool_of-name one_invoice = refl
tool_of-name unapplied_sources = refl
tool_of-name one_source = refl
tool_of-name application_history = refl

find_tool-name :
    (name : String) (ts : List Tool) (t : Tool) → find_tool name ts ≡ some t → name_of t ≡ name
find_tool-name name [] t h = cc
find_tool-name name (u ∷ ts) t h = elim (Bool-cases (str_eq (name_of u) name)) [
  | inl same ↦
      let u_is : u ≡ t = ground (arith, same) in
      ap name_of (sym u_is) ∙ (eq_iff (name_of u) name).0 same
  | inr other_name ↦ find_tool-name name ts t (rw other_name at h)
]

module _ (validate : Validator) (name : String) (args : Fields) (l : Ledger) where
  -- A tool of that name takes the arguments by its schema and gives the object.
  abbrev pub Serves : Fields → Type 0
  Serves fields =
      (t : Tool) × (name_of t ≡ name)
      × (validate args (schema_of t) ≡ valid)
      × (run_tool t l args ≡ gives fields)

  -- What the executor answers with: the object of the tool that serves the call, or, where none
  -- does, a refusal with a text.
  abbrev pub Answers : Fields → Type 0
  Answers result =
      ((fields : Fields) × Serves fields × (result ≡ success fields))
      ⊎ (((fields : Fields) → ¬ Serves fields) × (error : String) × (result ≡ refusal error))

  -- A refusal, where no tool that the name finds takes the arguments and gives an object.
  refuses :
      (error : String)
      → ((t : Tool)
          → tool_of name ≡ some t
          → validate args (schema_of t) ≡ valid
          → (fields : Fields) → run_tool t l args ≡ gives fields
          → ⊥)
      → Answers (refusal error)
  refuses error none_fits = inr (
    (λ fields (u, same, fits, ran).
        none_fits u (ap tool_of (sym same) ∙ tool_of-name u) fits fields ran),
    error,
    refl,
  )

  ran-Answers :
      (t : Tool) (e : ToolEnd)
      → tool_of name ≡ some t
      → validate args (schema_of t) ≡ valid
      → run_tool t l args ≡ e
      → name_of t ≡ name
      → Answers (end_result e)
  unfolding end_result
  ran-Answers t (gives fields) found fits ran named = inl (fields, (t, named, fits, ran), refl)
  ran-Answers t (tool_error text) found fits ran named =
      refuses text (λ u known fits' fields ran'. cc)
  ran-Answers t (fails e) found fits ran named =
      refuses (exception_text e) (λ u known fits' fields ran'. cc)

  validated-Answers :
      (t : Tool) (v : Validation)
      → tool_of name ≡ some t
      → validate args (schema_of t) ≡ v
      → name_of t ≡ name
      → Ensures Answers (validated name t l args v)
  unfolding validated
  validated-Answers t (invalid message) found fits named =
      refuses _ (λ u known fits' fields ran'. cc)
  validated-Answers t (breaks e) found fits named = tt
  validated-Answers t valid found fits named =
      ran-Answers t (run_tool t l args) found fits refl named

  found_tool-Answers :
      (o : Option Tool) → tool_of name ≡ o → Ensures Answers (found_tool validate name o args l)
  unfolding found_tool tool_of
  found_tool-Answers none e = refuses _ (λ u known fits' fields ran'. cc)
  found_tool-Answers (some t) e =
      validated-Answers t (validate args (schema_of t)) e refl (find_tool-name name all_tools t e)

  pub execute_tool-Ensures : Ensures Answers (execute_tool validate name args l)
  unfolding execute_tool
  execute_tool-Ensures = found_tool-Answers (tool_of name) refl

  found_tool-returns :
      (o : Option Tool)
      → ((t : Tool) (e : Error) → validate args (schema_of t) ≢ breaks e)
      → (result : Fields) × (found_tool validate name o args l ≡ ok result)
  unfolding found_tool validated
  found_tool-returns none sound = (_, refl)
  found_tool-returns (some t) sound = go (validate args (schema_of t)) refl
    where
      go :
          (v : Validation)
          → validate args (schema_of t) ≡ v
          → (result : Fields) × (validated name t l args v ≡ ok result)
      go valid e = (_, refl)
      go (invalid message) e = (_, refl)
      go (breaks x) e = absurd (sound t x e)

  -- Where the validator either accepts the arguments or refuses them with a message, `execute_tool`
  -- returns, whatever the name, the arguments and the ledger. It returns a success exactly where a
  -- tool has that name, the arguments fit that tool's schema, and the tool gives an object, which is
  -- then the data; otherwise it returns a failure with a text: for an unknown name, refused
  -- arguments, and every exception of the tool.
  pub execute_tool-Answers :
      ((t : Tool) (e : Error) → validate args (schema_of t) ≢ breaks e)
      → (result : Fields) × (execute_tool validate name args l ≡ ok result) × Answers result
  unfolding execute_tool
  execute_tool-Answers sound =
      let (result, e) = found_tool-returns (tool_of name) sound in
      (result, e, Ensures-ok Answers _ execute_tool-Ensures e)
