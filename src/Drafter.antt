-- ===== src/Drafter.antt =====
-- The ledger block, the prompt and the drafting call of balancecheck/drafting/drafter.py.
pub mod Block
mod Tests
use Prim.Native.Char.{Char, code}
use max_ed.Base.{
  ℕ, ◌+◌, String, ◌&&◌, Option, none, List, [], ◌∷◌, ◌++◌, map, leb, ◌==◌, if◌then◌else◌, is_empty,
  concat, join, is_blank, runtime_error, Result, ok, ◌>>=◌, or_raise, traverse,
}
use max_ed.Agentic.Prompt.{stripped, example_lines}
use max_ed.Base.Int.{ℤ, pos}
use max_ed.Contracts.{
  Date, Invoice, Payment, CreditMemo, Application, Ledger, status_value, MemoryEntry, generation,
}
use max_ed.Dates.{isoformat}
use max_ed.Derive.{
  applied_to_invoice, applied_from_source, open_amount, unapplied_amount, invoice_status,
  open_invoice_total, unapplied_cash_total, unapplied_credit_total, net_balance,
}
use max_ed.Money.{render, decimal}
use max_ed.Regex.{chars, of_chars}
use max_ed.Regex.Replace.{replace}

unfoldable pub client_line : Ledger → String
unfolding concat decimal isoformat
client_line l = concat (
    "CLIENT: "
    ∷ l.client.name
    ∷ " ("
    ∷ l.client.id
    ∷ ") | terms: net "
    ∷ decimal l.client.terms_days
    ∷ " | as_of "
    ∷ isoformat l.client.as_of
    ∷ [])

unfoldable pub invoice_line : Ledger → Invoice → Result String
unfolding applied_to_invoice open_amount invoice_status concat isoformat render
invoice_line l inv = do
  open_amt ← open_amount l inv.id
  status ← invoice_status l inv.id
  ok (
      concat (
        "  "
        ∷ inv.id
        ∷ " | date "
        ∷ isoformat inv.date
        ∷ " | due "
        ∷ isoformat inv.due
        ∷ " | amount "
        ∷ render (pos inv.amount_cents)
        ∷ " | applied "
        ∷ render (pos (applied_to_invoice l inv.id))
        ∷ " | open "
        ∷ render open_amt
        ∷ " | "
        ∷ status_value status
        ∷ []))

-- The line of a payment or of a credit memo.
unfoldable pub source_line : Ledger → String → Date → ℕ → Result String
unfolding applied_from_source unapplied_amount concat isoformat render
source_line l id date amount = do
  unapplied ← unapplied_amount l id
  ok (
      concat (
        "  "
        ∷ id
        ∷ " | date "
        ∷ isoformat date
        ∷ " | amount "
        ∷ render (pos amount)
        ∷ " | applied "
        ∷ render (pos (applied_from_source l id))
        ∷ " | unapplied "
        ∷ render unapplied
        ∷ []))

unfoldable pub application_line : Application → String
unfolding concat render
application_line app =
    concat (
      "  "
      ∷ app.source_id
      ∷ " -> "
      ∷ app.target_invoice
      ∷ ": "
      ∷ render (pos app.amount_cents)
      ∷ [])

-- A header and its lines, or a line that there are none.
abbrev pub section : String → List String → List String
section header lines = header ∷ (if is_empty lines then "  (none)" ∷ [] else lines)

abbrev pub total_line : String → ℤ → String
unfolding concat render
total_line label amount = concat ("  " ∷ label ∷ ": " ∷ render amount ∷ [])

-- The lines above those of the totals.
unfoldable pub record_lines : Ledger → Result (List String)
unfolding client_line invoice_line source_line application_line
record_lines l = do
  invoices ← traverse (invoice_line l) l.invoices
  payments ← traverse (λ (p : Payment). source_line l p.id p.date p.amount_cents) l.payments
  credits ← traverse (λ (c : CreditMemo). source_line l c.id c.date c.amount_cents) l.credit_memos
  ok (
      (client_line l ∷ section "INVOICES:" invoices)
      ++ section "PAYMENTS:" payments
      ++ section "CREDIT MEMOS:" credits
      ++ section "APPLICATIONS:" (map application_line l.applications))

unfoldable pub render_ledger_block : Ledger → Result String
unfolding record_lines open_invoice_total unapplied_cash_total unapplied_credit_total net_balance
    join concat render
render_ledger_block l = do
  lines ← record_lines l
  open_total ← open_invoice_total l
  cash ← unapplied_cash_total l
  credit ← unapplied_credit_total l
  net ← net_balance l
  ok (
      join "\n" (
        lines
        ++ ("TOTALS:"
            ∷ total_line "open invoice total" open_total
            ∷ total_line "unapplied cash total" cash
            ∷ total_line "unapplied credit total" credit
            ∷ total_line "NET BALANCE DUE" net
            ∷ [])))

unfoldable pub draft_exemplars_block : List MemoryEntry → String
unfolding example_lines join
draft_exemplars_block es =
    if is_empty es
    then ""
    else join "\n" (
        "Examples of replies our reviewers approved for similar accounts:"
        ∷ example_lines 1 (map (λ (e : MemoryEntry). stripped e.final_text) es))

unfoldable pub correction_block : String → String
unfolding concat
correction_block correction =
    if is_blank correction
    then ""
    else concat (
        "REVISION REQUIRED. Your previous draft failed verification:"
        ∷ "\n"
        ∷ stripped correction
        ∷ "\nFix ONLY those errors and change nothing else in the draft."
        ∷ [])

-- `_BLANK_RUN_RE.sub("\n\n", user)`: of a run of newlines only the first two stay; `seen` of the
-- current run went before.
unfoldable pub squeeze : ℕ → List Char → List Char
squeeze seen [] = []
squeeze seen (c ∷ cs) =
    let newline = code c == 10 in
    let rest = squeeze (if newline then seen + 1 else 0) cs in
    if newline && leb 2 seen then rest else c ∷ rest

-- The template's sections, the client, which gives the text where the call succeeded, and the hash.
pub record Drafter : Type 0 where
  pub system : String
  pub user : String
  pub client : String → String → Option String
  pub sha : String → String

unfoldable pub build_draft_prompt : Drafter → Ledger → List MemoryEntry → String → Result String
unfolding render_ledger_block draft_exemplars_block correction_block squeeze replace chars of_chars
build_draft_prompt d l exemplars correction = do
  block ← render_ledger_block l
  let filled = replace "{{correction_block}}" (correction_block correction) (
      replace "{{exemplars_block}}" (draft_exemplars_block exemplars)
        (replace "{{ledger_block}}" block d.user))
  ok (stripped (of_chars (squeeze 0 (chars filled))))

pub record DraftResult : Type 0 where
  pub text : String
  pub system : String
  pub prompt : String
  pub prompt_sha : String

unfoldable pub generate_draft : Drafter → Ledger → List MemoryEntry → String → Result DraftResult
unfolding build_draft_prompt
generate_draft d l exemplars correction = do
  prompt ← build_draft_prompt d l exemplars correction
  text ← or_raise (d.client d.system prompt) (runtime_error "draft generation failed")
  ok (record { text = text; system = d.system; prompt = prompt; prompt_sha = d.sha prompt })
