-- ===== src/Agentic/Prompt.antt =====
-- The prompt of a step, `_build_step_prompt` of balancecheck/drafting/agentic.py. The ledger's block
-- is no part of it.
use max_ed.Base.{
  ℕ, ◌+◌, String, Bool, not, List, [], ◌∷◌, ◌++◌, map, if◌then◌else◌, filter, is_empty, concat,
  join, is_blank,
}
use max_ed.Contracts.{MemoryEntry, obj}
use max_ed.Agentic.{RequiredCall, Recovery}
use max_ed.Agentic.Session.{Entry, note, call}
use max_ed.Json.{dumps}
use max_ed.Money.{decimal}
use max_ed.Regex.{chars, of_chars}
use max_ed.Regex.Strip.{strip}

abbrev pub stripped : String → String
unfolding strip chars of_chars
stripped s = of_chars (strip (chars s))

-- The examples that are not empty, and their numbered lines.
abbrev example_texts : List MemoryEntry → List String
unfolding strip chars of_chars
example_texts es =
    filter (λ t. not (is_blank t)) (map (λ (e : MemoryEntry). stripped e.final_text) es)

unfoldable pub example_lines : ℕ → List String → List String
unfolding concat decimal
example_lines n [] = []
example_lines n (t ∷ ts) =
    concat ("--- EXAMPLE " ∷ decimal n ∷ " START ---" ∷ [])
    ∷ t
    ∷ concat ("--- EXAMPLE " ∷ decimal n ∷ " END ---" ∷ [])
    ∷ example_lines (n + 1) ts

-- `_exemplars_block`
unfoldable pub exemplars_block : List MemoryEntry → String
unfolding example_lines join strip chars of_chars
exemplars_block es =
    let texts = example_texts es in
    if is_empty texts
    then ""
    else join "\n"
        ("Examples of replies our reviewers approved for similar accounts:" ∷ example_lines 1 texts)

-- `_transcript_text`
abbrev entry_line : Entry → String
unfolding concat dumps
entry_line (note text) = concat ("NOTE: " ∷ text ∷ [])
entry_line (call name args result) =
    concat ("CALL " ∷ name ∷ " " ∷ dumps (obj args) ∷ " -> " ∷ dumps (obj result) ∷ [])

unfoldable pub transcript_text : List Entry → String
unfolding concat dumps join
transcript_text [] = "(no tool calls yet)"
transcript_text (e ∷ es) = join "\n" (map entry_line (e ∷ es))

abbrev required_line : RequiredCall → String
unfolding concat
required_line req = concat ("- " ∷ req.label ∷ " (" ∷ req.note ∷ ")" ∷ [])

abbrev final_instruction : String
final_instruction =
    "NO TOOL ROUNDS REMAIN. You MUST return kind=\"final\" now, with an empty tool_calls list and the complete corrected draft in the draft field."

abbrev step_instruction : String
step_instruction =
    "Return exactly one JSON step now: kind \"tool_calls\" to gather missing evidence, or kind \"final\" with the complete corrected draft once every required piece of evidence has succeeded."

-- What is left of the budgets.
pub record Remaining : Type 0 where
  pub rounds : ℕ
  pub calls_per_round : ℕ
  pub total_calls : ℕ

unfoldable pub build_step_prompt :
    Recovery → List RequiredCall → List Entry → Remaining → Bool → String
unfolding exemplars_block transcript_text concat join decimal strip chars of_chars
build_step_prompt r required transcript left forced_final =
    let examples = exemplars_block r.exemplars in
    join "\n\n" (
      "A drafted balance-due reply failed deterministic verification. Gather evidence with the tools, then return the complete corrected reply."
      ∷ concat ("PREVIOUS DRAFT (failed verification):\n" ∷ stripped r.previous_draft ∷ [])
      ∷ concat ("VERIFICATION DECISION:\n" ∷ stripped r.decision_reason ∷ [])
      ∷ concat ("REQUIRED CORRECTION (fix exactly this):\n" ∷ stripped r.correction ∷ [])
      ∷ ((if is_blank examples then [] else examples ∷ [])
          ++ (concat ("AVAILABLE TOOLS (read-only account records):\n" ∷ r.catalog_text ∷ [])
              ∷ concat (
                  "REQUIRED EVIDENCE (each call must succeed before a final draft is accepted):\n"
                  ∷ join "\n" (map required_line required)
                  ∷ [])
              ∷ concat ("TOOL TRANSCRIPT SO FAR:\n" ∷ transcript_text transcript ∷ [])
              ∷ concat (
                  "REMAINING BUDGETS:\n- tool rounds remaining (including this step): "
                  ∷ decimal left.rounds
                  ∷ "\n- max tool calls per round: "
                  ∷ decimal left.calls_per_round
                  ∷ "\n- total tool calls remaining: "
                  ∷ decimal left.total_calls
                  ∷ [])
              ∷ (if forced_final then final_instruction else step_instruction)
              ∷ [])))
