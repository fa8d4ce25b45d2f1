-- ===== src/Runner/Assembled.antt =====
-- The runner with its own parts: `run_scenario` of balancecheck/runner.py on the extractor, the drafter
-- and the bounded agent of balancecheck/drafting, with the tools as the agent's executor.
mod Tests
use mathlib.Core.Path.{subst}
use max_ed.Base.{ℕ, String, ◌≡◌, refl, Option, List, All, Result, ok, ◌>>=◌, Any, OkWith}
use max_ed.Agentic.{Recovery, Budgets}
use max_ed.Agentic.Loop.{generate_agentic_revision}
use max_ed.Checks.Fuzzy.{Response}
use max_ed.Checks.Registry.{check_all}
use max_ed.Contracts.{Ledger, human_gate, Claim, MemoryEntry, Event, Json}
use max_ed.Drafter.{Drafter, generate_draft}
use max_ed.Gate.Extracted.{Vouches, gated_amounts_vouched}
use max_ed.Json.{Python}
use max_ed.Regex.{chars}
use max_ed.Regex.Find.{find_iter}
use max_ed.Runner.{Config, Outcome, Draft, Rounds}
use max_ed.Runner.Ending.{run_scenario-Ended}
use max_ed.Runner.Loop.{Setting, run_scenario}
use max_ed.Surface.{split_sentences}
use max_ed.Surface.Extract.{extract_claims}
use max_ed.Surface.Intervals.{Meets}
use max_ed.Surface.Spans.{amount_patterns, claim_amounts}
use max_ed.Tools.Contract.{executing}
use max_ed.Tools.Registry.{Validator, catalog_text}

-- What is not the program's own: the configuration, the memory, the model in each of its tasks, the
-- hash, and the validator of schemas. The drafter's model may answer otherwise in each revision.
pub record Parts : Type 0 where
  pub cfg : Config
  pub budgets : Budgets
  pub python : Python
  pub validate : Validator
  pub pass_label : String
  pub run_id : String
  pub memory : Option (List MemoryEntry)
  pub verifier : ℕ → Claim → Response
  pub drafter : ℕ → Drafter
  pub agent_client : ℕ → ℕ → String → Option Json
  pub sha : String → String
  pub ledger_ref : Ledger → String

module _ (p : Parts) (l : Ledger) where
  abbrev recovery_of : List MemoryEntry → String → ℕ → Rounds → Recovery
  recovery_of exemplars gen_id rev r = record {
    budgets = p.budgets;
    python = p.python;
    ledger = l;
    client = p.agent_client rev;
    executor = executing p.validate;
    sha = p.sha;
    catalog_text = catalog_text;
    previous_draft = r.previous_draft;
    correction = r.correction;
    decision_reason = r.previous_reason;
    failed_subject_ids = r.failed_ids;
    exemplars = exemplars;
    gen_id = gen_id;
    revision_index = rev;
    run_id = p.run_id;
  }

  unfoldable pub drafted : List MemoryEntry → ℕ → String → Result Draft
  unfolding generate_draft
  drafted exemplars rev correction = generate_draft (p.drafter rev) l exemplars correction >>= λ d.
      ok (record { text = d.text; prompt_sha = d.prompt_sha })

  unfoldable pub recovered_draft :
      List MemoryEntry → String → ℕ → Rounds → Result (Draft × List Event)
  unfolding generate_agentic_revision
  recovered_draft exemplars gen_id rev r =
      generate_agentic_revision (recovery_of exemplars gen_id rev r) >>= λ a.
      ok (record { text = a.0.text; prompt_sha = a.0.prompt_sha }, a.1.log)

  abbrev pub extractor : String → String → Ledger → Result (List Claim)
  extractor prefix draft ledger = ok (extract_claims prefix draft ledger)

  abbrev pub assembled : Setting
  assembled = record {
    cfg = p.cfg;
    pass_label = p.pass_label;
    run_id = p.run_id;
    memory = p.memory;
    client = p.verifier;
    extract = extractor;
    sha256 = p.sha;
    ledger_ref = p.ledger_ref;
    drafter = drafted;
    agent = recovered_draft;
  }

  -- A run of the assembled program that hands a draft to a person has checked the claims that the
  -- extractor finds in that draft; and for each match of a pattern of amounts in a sentence of the
  -- draft there is a span that is the match or has a character in common with it, whose token
  -- resolves to cents and which a passing claim for an amount or a sum, with that sentence and token,
  -- answers for: whatever the models answer, in drafting, in recovery and in verification.
  pub run_scenario-vouched :
      (o : Outcome) (log : List Event)
      → run_scenario assembled l ≡ ok (o, log)
      → o.terminal_action ≡ human_gate
      → (prefix : String) × (ds : List Claim) × (check_all
            (p.verifier o.revision_count)
            l
            (extract_claims prefix o.final_draft l)
          ≡ ok ds)
        × All
            (λ t.
              All
                (λ (r, kind).
                  All
                    (λ m. Any (λ s. Meets m s × Any (Vouches t s) ds) (claim_amounts t).1)
                    (find_iter r t))
                amount_patterns)
            (split_sentences (chars o.final_draft))
  run_scenario-vouched o log run gated =
      let (bounded, settled, release) = run_scenario-Ended assembled l o log run in
      let r = release gated in
      let fresh : r.fresh ≡ extract_claims r.gen_id o.final_draft l =
        subst (OkWith (λ cs. cs ≡ extract_claims r.gen_id o.final_draft l)) r.extracted refl in
      let checked : check_all (p.verifier o.revision_count) l
            (extract_claims r.gen_id o.final_draft l)
          ≡ ok r.claims =
        subst (λ cs. check_all (p.verifier o.revision_count) l cs ≡ ok r.claims) fresh r.checked in
      (
        r.gen_id,
        r.claims,
        checked,
        gated_amounts_vouched (p.verifier o.revision_count) (extractor "c") r.gen_id o.final_draft l
            r.claims o.revision_count r.hashes r.decision checked r.decided r.gated,
      )
