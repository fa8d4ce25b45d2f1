-- ===== src/Drafter/Tests.antt =====
-- The block and a prompt of the small ledger, and the theorem at it.
use max_ed.Drafter.{
  client_line, invoice_line, source_line, application_line, record_lines, draft_exemplars_block,
  correction_block, squeeze, build_draft_prompt, Drafter, generate_draft, render_ledger_block,
  total_line,
}
use max_ed.Regex.Replace.{replace}
use max_ed.Regex.Strip.{strip, strip_by, strip_left}
use max_ed.Money.{render, grouped, decimal}
use max_ed.Derive.{
  open_amount, unapplied_amount, invoice, source, applied_to_invoice, applied_from_source,
  open_invoice_total, unapplied_cash_total, unapplied_credit_total, net_balance, invoice_status,
}
use max_ed.Base.Int.{sum_ℤ, ◌+ℤ◌, ◌-ℤ◌, ℤ}
use max_ed.Dates.{isoformat}
use max_ed.Agentic.Prompt.{example_lines}
use max_ed.Base.{String, ◌≡◌, refl, some, List, [], ◌∷◌, ◌++◌, concat, join, ok}
use max_ed.Derive.Naive.{recompute_net_balance_naive}
use max_ed.Derive.Tests.{sample, sample_valid}
use max_ed.Drafter.Block.{render_ledger_block-states_net}
use max_ed.Regex.{chars, of_chars}

abbrev drafter : Drafter
drafter = record {
  system = "Draft.";
  user = "{{exemplars_block}}\n\n{{correction_block}}\n\nA\n\n\n\nB";
  client = λ system prompt. some prompt;
  sha = λ text. "sha";
}

-- The blank lines that the empty blocks leave are squeezed.
draft_made :
    generate_draft drafter sample [] ""
    ≡ ok (record { text = "A\n\nB"; system = "Draft."; prompt = "A\n\nB"; prompt_sha = "sha" })
unfolding client_line invoice_line source_line application_line record_lines render_ledger_block
    draft_exemplars_block correction_block squeeze build_draft_prompt generate_draft replace chars
    of_chars strip strip_by strip_left concat join render grouped decimal open_amount
    unapplied_amount invoice source applied_to_invoice applied_from_source open_invoice_total
    unapplied_cash_total unapplied_credit_total net_balance invoice_status sum_ℤ ◌+ℤ◌ ◌-ℤ◌ isoformat
    example_lines
draft_made = refl

render_ledger_block-states_net_example :
    (net : ℤ) × (lines : List String) × (recompute_net_balance_naive sample ≡ ok net)
    × (render_ledger_block sample
        ≡ ok (join "\n" (lines ++ (total_line "NET BALANCE DUE" net ∷ []))))
render_ledger_block-states_net_example = render_ledger_block-states_net sample sample_valid
