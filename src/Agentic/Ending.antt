-- ===== src/Agentic/Ending.antt =====
-- How a recovery of balancecheck/drafting/agentic.py ends: within its budgets, and with a draft only
-- where the required evidence is in the log.
use mathlib.Core.Path.{subst}
use max_ed.Base.Int.{pos, negsuc}
use max_ed.Base.{
  ℕ, zero, suc, ◌+◌, ◌≤◌, String, ◌≡◌, refl, ◌⊎◌, inl, inr, Bool, true, false, Option, none, some,
  List, [], ◌∷◌, arith, leb, Bool-cases, length, is_empty, is_blank, ok, Ensures, Ensures-ok,
  if-Ensures, >>=-Ensures,
}
use max_ed.Contracts.{Json, str, obj, Items, nil, cons}
use max_ed.Agentic.{
  Recovery, RequiredCall, AgenticResult, satisfied, Step, invalid, tool_calls, final_draft,
  validate_step, required_evidence,
}
use max_ed.Agentic.Budget.{
  IsSession, Kept, attempt-IsSession, new_session-IsSession, take_note-IsSession,
}
use max_ed.Agentic.Loop.{
  Turn, done, next, missing_labels, attempt_call, attempt_calls, final_turn, step_turn, answer_turn,
  round_prompt, final_prompt, force_coverage, final_answer, conclude, run_steps,
  generate_agentic_revision, failed, accepted, calls_per_round, call_name, call_arguments, final_of,
}
use max_ed.Agentic.Session.{Session, new_session, attempt}
use max_ed.Agentic.Evidence.{Evidenced, missing_labels-Evidenced}

module _ (r : Recovery) where
  -- What a recovery that returns has kept, `limit` steps being allowed.
  pub record Ends (required : List RequiredCall) (limit : ℕ) (p : AgenticResult × Session)
      : Type 0 where
    pub session : IsSession r p.1
    pub steps : p.0.steps ≤ limit
    pub executed : p.0.tool_calls_executed ≡ p.1.executed_count
    pub evidence : is_blank p.0.text ≡ false → Evidenced r.python required p.1.log

  failed-Ends :
      (required : List RequiredCall) (limit steps : ℕ) (s : Session) (coverage : List String)
      → IsSession r s
      → steps ≤ limit
      → Ends required limit (failed r steps s coverage, s)
  failed-Ends required limit steps s coverage h le = record {
    session = h;
    steps = le;
    executed = refl;
    evidence = λ e. cc;
  }

  accepted-Ends :
      (required : List RequiredCall) (limit steps : ℕ) (s : Session) (draft : String)
      (forced : Bool) (coverage : List String) (prompt : String)
      → IsSession r s
      → steps ≤ limit
      → is_empty (missing_labels r required s) ≡ true
      → Ends required limit (accepted r draft steps s forced coverage prompt, s)
  unfolding accepted
  accepted-Ends required limit steps s draft forced coverage prompt h le e = record {
    session = h;
    steps = le;
    executed = refl;
    evidence = λ _. missing_labels-Evidenced r required s h e;
  }

  attempt_call-IsSession :
      (round index : ℕ) (c : Json) (s : Session)
      → IsSession r s
      → Ensures (Kept r) (attempt_call r round index c s)
  unfolding attempt_call
  attempt_call-IsSession round index c s h =
      attempt-IsSession r (call_name c) (call_arguments c) (pos round) index
        (leb (calls_per_round r) index) s h

  attempt_calls-IsSession :
      (round index : ℕ) (calls : Items) (s : Session)
      → IsSession r s
      → Ensures (IsSession r) (attempt_calls r round index calls s)
  unfolding attempt_calls
  attempt_calls-IsSession round index nil s h = h
  attempt_calls-IsSession round index (cons c cs) s h =
      >>=-Ensures (IsSession r) (attempt_call r round index c s) _ (λ after e.
        attempt_calls-IsSession round (index + 1) cs after.1 (
          Ensures-ok (Kept r) (attempt_call r round index c s)
            (attempt_call-IsSession round index c s h) e))

  -- A round ends the recovery well, or leaves a session for the next.
  abbrev TurnEnds : List RequiredCall → ℕ → Turn r → Type 0
  TurnEnds required limit (done result s) = Ends required limit (result, s)
  TurnEnds required limit (next s) = IsSession r s

  final_turn-Ends :
      (required : List RequiredCall) (limit steps : ℕ) (prompt draft : String) (s : Session)
      → IsSession r s
      → steps ≤ limit
      → TurnEnds required limit (final_turn r required prompt steps draft s)
  unfolding final_turn
  final_turn-Ends required limit steps prompt draft s h le =
      elim (Bool-cases (is_empty (missing_labels r required s))) [
        | inl e ↦ rw e (accepted-Ends required limit steps s draft false [] prompt h le e)
        | inr e ↦ rw e (take_note-IsSession r _ s h)
      ]

  step_turn-Ends :
      (required : List RequiredCall) (limit round steps : ℕ) (prompt : String) (step : Step)
      (s : Session)
      → IsSession r s
      → steps ≤ limit
      → Ensures (TurnEnds required limit) (step_turn r required prompt round steps step s)
  unfolding step_turn
  step_turn-Ends required limit round steps prompt (invalid problem) s h le = h
  step_turn-Ends required limit round steps prompt (final_draft draft) s h le =
      final_turn-Ends required limit steps prompt draft s h le
  step_turn-Ends required limit round steps prompt (tool_calls calls) s h le =
      >>=-Ensures (TurnEnds required limit) (attempt_calls r round 0 calls s) _ (λ after e.
        Ensures-ok (IsSession r) (attempt_calls r round 0 calls s)
          (attempt_calls-IsSession round 0 calls s h) e)

  answer_turn-Ends :
      (required : List RequiredCall) (limit round steps : ℕ) (prompt : String)
      (answer : Option Json) (s : Session)
      → IsSession r s
      → steps ≤ limit
      → Ensures (TurnEnds required limit) (answer_turn r required prompt round steps answer s)
  unfolding answer_turn
  answer_turn-Ends required limit round steps prompt none s h le = h
  answer_turn-Ends required limit round steps prompt (some parsed) s h le =
      step_turn-Ends required limit round steps prompt (validate_step parsed) s h le

  force_coverage-IsSession :
      (index : ℕ) (coverage : List String) (reqs : List RequiredCall) (s : Session)
      → IsSession r s
      → Ensures (λ p. IsSession r p.1) (force_coverage r index coverage reqs s)
  unfolding force_coverage
  force_coverage-IsSession index coverage [] s h = h
  force_coverage-IsSession index coverage (req ∷ reqs) s h =
      if-Ensures (λ p. IsSession r p.1) (satisfied r.python req s.successes) _ _
        (λ _. force_coverage-IsSession index coverage reqs s h)
        (λ _.
          >>=-Ensures (λ p. IsSession r p.1)
            (attempt r (str req.name) (obj req.arguments) (negsuc 0) index false s) _
            (λ after e. force_coverage-IsSession (index + 1) _ reqs after.1 (
              Ensures-ok (Kept r)
                (attempt r (str req.name) (obj req.arguments) (negsuc 0) index false s)
                (attempt-IsSession r (str req.name) (obj req.arguments) (negsuc 0) index false s h)
                e)))

  final_of-Ends :
      (required : List RequiredCall) (limit steps : ℕ) (coverage : List String) (prompt : String)
      (step : Step) (s : Session)
      → IsSession r s
      → steps ≤ limit
      → is_empty (missing_labels r required s) ≡ true
      → Ends required limit (final_of r prompt steps coverage step s, s)
  unfolding final_of
  final_of-Ends required limit steps coverage prompt (final_draft draft) s h le e =
      accepted-Ends required limit steps s draft true coverage prompt h le e
  final_of-Ends required limit steps coverage prompt (invalid problem) s h le e =
      failed-Ends required limit steps s coverage h le
  final_of-Ends required limit steps coverage prompt (tool_calls calls) s h le e =
      failed-Ends required limit steps s coverage h le

  final_answer-Ends :
      (required : List RequiredCall) (limit steps : ℕ) (coverage : List String) (prompt : String)
      (answer : Option Json) (s : Session)
      → IsSession r s
      → steps ≤ limit
      → is_empty (missing_labels r required s) ≡ true
      → Ends required limit (final_answer r prompt steps coverage answer s, s)
  unfolding final_answer
  final_answer-Ends required limit steps coverage prompt none s h le e =
      failed-Ends required limit steps s coverage h le
  final_answer-Ends required limit steps coverage prompt (some parsed) s h le e =
      final_of-Ends required limit steps coverage prompt (validate_step parsed) s h le e

  conclude-Ends :
      (required : List RequiredCall) (steps : ℕ) (s : Session)
      → IsSession r s
      → Ensures (Ends required (steps + 1)) (conclude r required steps s)
  unfolding conclude
  conclude-Ends required steps s h =
      >>=-Ensures (Ends required (steps + 1)) (force_coverage r 0 [] required s) _ (λ forced e.
        let kept =
          Ensures-ok (λ p. IsSession r p.1) (force_coverage r 0 [] required s)
            (force_coverage-IsSession 0 [] required s h) e in
        if-Ensures (Ends required (steps + 1)) (is_empty (missing_labels r required forced.1)) _ _
          (λ full.
            final_answer-Ends required (steps + 1) (steps + 1) forced.0
              (final_prompt r required forced.1) (r.client steps (final_prompt r required forced.1))
              forced.1 kept (omega arith) full)
          (λ _. failed-Ends required (steps + 1) steps forced.1 forced.0 kept (omega arith)))

  -- What follows a round, where the rounds that are left end well.
  turn-Ends :
      (required : List RequiredCall) (limit round left : ℕ) (t : Turn r)
      → ((after : Session)
          → IsSession r after
          → Ensures (Ends required limit) (run_steps r left required (round + 1) after))
      → TurnEnds required limit t
      → Ensures (Ends required limit) (elim t [
        | done result after ↦ ok (result, after)
        | next after ↦ run_steps r left required (round + 1) after
      ])
  turn-Ends required limit round left (done result after) rest k = k
  turn-Ends required limit round left (next after) rest k = rest after k

  run_steps-Ends :
      (left : ℕ) (required : List RequiredCall) (round limit : ℕ) (s : Session)
      → IsSession r s
      → round + left + 1 ≡ limit
      → Ensures (Ends required limit) (run_steps r left required round s)
  unfolding run_steps
  run_steps-Ends zero required round limit s h e =
      let same : round + 1 ≡ limit = omega arith in
      subst (λ n. Ensures (Ends required n) (conclude r required round s)) same
        (conclude-Ends required round s h)
  run_steps-Ends (suc left) required round limit s h e =
      let prompt = round_prompt r required (suc left) s in
      let turn = answer_turn r required prompt round (round + 1) (r.client round prompt) s in
      >>=-Ensures (Ends required limit) turn _ (λ t et.
        turn-Ends required limit round left t
          (λ after k. run_steps-Ends left required (round + 1) limit after k (omega arith))
          (Ensures-ok (TurnEnds required limit) turn
            (answer_turn-Ends required limit round (round + 1) prompt (r.client round prompt) s h
              (omega arith))
            et))

  -- A recovery that returns counts at most one step for each round and one more, and at most the
  -- allowed number of executed tools, and has logged one event for each attempt. Its text is blank,
  -- or the log holds for each required call a tool call that succeeded and covers it: whatever the
  -- model answered and whatever the executor did.
  pub generate_agentic_revision-Ends :
      (required : List RequiredCall) (result : AgenticResult) (s : Session)
      → required_evidence r.ledger r.failed_subject_ids ≡ ok required
      → generate_agentic_revision r ≡ ok (result, s)
      → (result.steps ≤ r.budgets.max_rounds + 1)
        × (result.tool_calls_executed ≤ r.budgets.max_total_tool_calls)
        × (s.attempts ≡ length s.log)
        × ((is_blank result.text ≡ true) ⊎ Evidenced r.python required s.log)
  unfolding generate_agentic_revision
  generate_agentic_revision-Ends required result s e returned =
      let run = run_steps r r.budgets.max_rounds required 0 new_session in
      let h : Ends required (r.budgets.max_rounds + 1) (result, s) =
        Ensures-ok (Ends required (r.budgets.max_rounds + 1)) run
          (run_steps-Ends r.budgets.max_rounds required 0 (r.budgets.max_rounds + 1) new_session
            (new_session-IsSession r) (omega arith))
          (rw e at returned) in
      let grounded : (is_blank result.text ≡ true) ⊎ Evidenced r.python required s.log =
        elim (Bool-cases (is_blank result.text)) [
          | inl blank ↦ inl blank
          | inr written ↦ inr (h.evidence written)
        ] in
      (h.steps, omega (arith, h.executed, h.session.within), h.session.logged, grounded)
