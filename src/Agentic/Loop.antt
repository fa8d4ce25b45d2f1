-- ===== src/Agentic/Loop.antt =====
-- `generate_agentic_revision` of balancecheck/drafting/agentic.py: the rounds, the coverage that is
-- forced after them, and the final step.
use max_ed.Base.{
  ℕ, zero, suc, ◌+◌, ◌-◌, String, Bool, true, false, not, Option, none, some, List, [], ◌∷◌, ◌++◌,
  map, leb, if◌then◌else◌, filter, is_empty, concat, join, Result, ok, ◌>>=◌,
}
use max_ed.Base.Int.{pos, negsuc}
use max_ed.Contracts.{Json, str, obj, Items, nil, cons, end}
use max_ed.Agentic.{
  RequiredCall, AgenticResult, Recovery, schema_max_calls, required_evidence, satisfied, Step,
  invalid, tool_calls, final_draft, validate_step,
}
use max_ed.Agentic.Prompt.{build_step_prompt, stripped}
use max_ed.Agentic.Session.{Session, new_session, take_note, attempt, or_json}
use max_ed.Json.{field_of}
use max_ed.Regex.{chars, of_chars}
use max_ed.Regex.Strip.{strip}

-- The name and the arguments of a call: one that is no object has neither.
unfoldable pub call_name : Json → Json
unfolding field_of
call_name (obj fields) = or_json (field_of "name" fields) (str "")
call_name _ = str ""

unfoldable pub call_arguments : Json → Json
unfolding field_of
call_arguments (obj fields) = or_json (field_of "arguments" fields) (obj end)
call_arguments _ = obj end

module _ (r : Recovery) where
  abbrev pub calls_per_round : ℕ
  calls_per_round =
      if leb schema_max_calls r.budgets.max_calls_per_round
      then schema_max_calls
      else r.budgets.max_calls_per_round

  -- `missing_labels`
  unfoldable pub missing_labels : List RequiredCall → Session → List String
  unfolding satisfied
  missing_labels required s =
      map (λ (req : RequiredCall). req.label)
        (filter (λ req. not (satisfied r.python req s.successes)) required)

  -- One tool call of a step.
  unfoldable pub attempt_call : ℕ → ℕ → Json → Session → Result (Bool × Session)
  unfolding attempt call_name call_arguments
  attempt_call round_index call_index c s =
      attempt r (call_name c) (call_arguments c) (pos round_index) call_index
        (leb calls_per_round call_index) s

  unfoldable pub attempt_calls : ℕ → ℕ → Items → Session → Result Session
  unfolding attempt_call
  attempt_calls round_index call_index nil s = ok s
  attempt_calls round_index call_index (cons c cs) s =
      attempt_call round_index call_index c s >>= λ after.
      attempt_calls round_index (call_index + 1) cs after.1

  -- The prompt of a round, with the rounds that are left, and that of the final step.
  unfoldable pub round_prompt : List RequiredCall → ℕ → Session → String
  unfolding build_step_prompt
  round_prompt required left s =
      build_step_prompt r required s.transcript
        (record {
          rounds = left;
          calls_per_round = calls_per_round;
          total_calls = r.budgets.max_total_tool_calls - s.executed_count;
        })
        false

  unfoldable pub final_prompt : List RequiredCall → Session → String
  unfolding build_step_prompt
  final_prompt required s =
      build_step_prompt r required s.transcript
        (record { rounds = 0; calls_per_round = calls_per_round; total_calls = 0 }) true

  unfoldable pub accepted : String → ℕ → Session → Bool → List String → String → AgenticResult
  unfolding strip chars of_chars
  accepted draft steps s forced_final coverage prompt = record {
    text = stripped draft;
    steps = steps;
    tool_calls_executed = s.executed_count;
    forced_final = forced_final;
    coverage_forced = coverage;
    prompt_sha = r.sha prompt;
  }

  abbrev pub failed : ℕ → Session → List String → AgenticResult
  failed steps s coverage = record {
    text = "";
    steps = steps;
    tool_calls_executed = s.executed_count;
    forced_final = true;
    coverage_forced = coverage;
    prompt_sha = "";
  }

  -- How a round ends.
  pub data Turn : Type 0 where
    done : AgenticResult → Session → Turn
    next : Session → Turn

  -- A final draft before its evidence is noted, and the next round begins.
  unfoldable pub final_turn : List RequiredCall → String → ℕ → String → Session → Turn
  unfolding missing_labels take_note concat join accepted
  final_turn required prompt steps draft s =
      let missing = missing_labels required s in
      if is_empty missing
      then done (accepted draft steps s false [] prompt) s
      else next (
          take_note
            (concat ("final rejected: missing required evidence: " ∷ join ", " missing ∷ [])) s)

  unfoldable pub step_turn : List RequiredCall → String → ℕ → ℕ → Step → Session → Result Turn
  unfolding attempt_calls final_turn
  step_turn required prompt round_index steps (invalid problem) s = ok (next s)
  step_turn required prompt round_index steps (final_draft draft) s =
      ok (final_turn required prompt steps draft s)
  step_turn required prompt round_index steps (tool_calls calls) s =
      attempt_calls round_index 0 calls s >>= λ after. ok (next after)

  unfoldable pub answer_turn :
      List RequiredCall → String → ℕ → ℕ → Option Json → Session → Result Turn
  unfolding step_turn validate_step
  answer_turn required prompt round_index steps none s = ok (next s)
  answer_turn required prompt round_index steps (some parsed) s =
      step_turn required prompt round_index steps (validate_step parsed) s

  -- The forced coverage: the tools that succeeded, and the session.
  unfoldable pub force_coverage :
      ℕ → List String → List RequiredCall → Session → Result (List String × Session)
  unfolding satisfied attempt
  force_coverage index coverage [] s = ok (coverage, s)
  force_coverage index coverage (req ∷ reqs) s =
      let skipped = force_coverage index coverage reqs s in
      let forced : Result (List String × Session) =
        attempt r (str req.name) (obj req.arguments) (negsuc 0) index false s >>= λ after.
        force_coverage (index + 1) (if after.0 then coverage ++ (req.name ∷ []) else coverage) reqs
          after.1 in
      if satisfied r.python req s.successes then skipped else forced

  -- The end of the final step: only a final draft is taken.
  unfoldable pub final_of : String → ℕ → List String → Step → Session → AgenticResult
  unfolding accepted
  final_of prompt steps coverage (final_draft draft) s = accepted draft steps s true coverage prompt
  final_of prompt steps coverage (invalid problem) s = failed steps s coverage
  final_of prompt steps coverage (tool_calls calls) s = failed steps s coverage

  unfoldable pub final_answer : String → ℕ → List String → Option Json → Session → AgenticResult
  unfolding validate_step final_of
  final_answer prompt steps coverage none s = failed steps s coverage
  final_answer prompt steps coverage (some parsed) s =
      final_of prompt steps coverage (validate_step parsed) s

  -- What follows the rounds.
  unfoldable pub conclude : List RequiredCall → ℕ → Session → Result (AgenticResult × Session)
  unfolding force_coverage missing_labels final_prompt final_answer
  conclude required steps s = force_coverage 0 [] required s >>= λ forced.
      let coverage = forced.0 in
      let after = forced.1 in
      if is_empty (missing_labels required after)
      then (let prompt = final_prompt required after in
          ok (final_answer prompt (steps + 1) coverage (r.client steps prompt) after, after))
      else ok (failed steps after coverage, after)

  -- The rounds: `left` are still to come. Each asks the model once.
  unfoldable pub run_steps : ℕ → List RequiredCall → ℕ → Session → Result (AgenticResult × Session)
  unfolding answer_turn round_prompt conclude
  run_steps zero required round_index s = conclude required round_index s
  run_steps (suc left) required round_index s =
      let prompt = round_prompt required (suc left) s in
      answer_turn required prompt round_index (round_index + 1) (r.client round_index prompt) s
      >>= λ turn. elim turn [
        | done result after ↦ ok (result, after)
        | next after ↦ run_steps left required (round_index + 1) after
      ]

  unfoldable pub generate_agentic_revision : Result (AgenticResult × Session)
  unfolding required_evidence run_steps
  generate_agentic_revision = required_evidence r.ledger r.failed_subject_ids >>= λ required.
      run_steps r.budgets.max_rounds required 0 new_session
