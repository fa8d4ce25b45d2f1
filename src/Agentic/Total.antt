-- ===== src/Agentic/Total.antt =====
-- A recovery of balancecheck/drafting/agentic.py returns: whatever the model answers, where the
-- executor keeps its contract that a success carries an object as its data.
use mathlib.Core.Path.{subst}
use max_ed.Base.{
  ℕ, zero, suc, ◌+◌, String, ◌≡◌, refl, inl, inr, Bool, true, false, not, ◌&&◌, Option, none, some,
  List, [], ◌∷◌, str_eq, leb, Bool-cases, is_empty, All, is_blank, ok, OkWith, if-OkWith,
  >>=-OkWith, OkWith-ok,
}
use max_ed.Base.Int.{ℤ, pos, negsuc}
use max_ed.Contracts.{Json, str, obj, Items, nil, cons, Fields}
use max_ed.Agentic.{
  Recovery, RequiredCall, AgenticResult, Step, invalid, tool_calls, final_draft, satisfied,
  validate_step, required_evidence,
}
use max_ed.Agentic.Loop.{
  Turn, done, next, missing_labels, call_name, call_arguments, calls_per_round, attempt_call,
  attempt_calls, final_turn, step_turn, answer_turn, round_prompt, force_coverage, conclude,
  run_steps, generate_agentic_revision,
}
use max_ed.Agentic.Session.{
  Session, new_session, CacheKey, Attempt, take_note, cached, execute, replay_cached, serve_from,
  serve, decide_attempt, record_attempt, attempt, as_result, result_ok, arguments_of, tool_name_of,
}
use max_ed.Json.{to_dict, field_of, is_object, dumps}

-- A result with an object as its data.
abbrev pub CarriesData : Fields → Type 0
CarriesData result = (fields : Fields) × (field_of "data" result ≡ some (obj fields))

-- The contract of the executor: a success carries an object.
abbrev pub KeepsContract : Recovery → Type 0
KeepsContract r =
    (name : String) (args : Fields)
    → result_ok (as_result (r.executor name args r.ledger)) ≡ true
    → CarriesData (as_result (r.executor name args r.ledger))

abbrev CacheCarries : List (CacheKey × Fields) → Type 0
CacheCarries = All (λ (k, result). CarriesData result)

abbrev Good : Session → Type 0
Good s = CacheCarries s.cache

module _ (r : Recovery) (contract : KeepsContract r) where
  abbrev GoodAttempt : Attempt → Type 0
  GoodAttempt a = CacheCarries a.cache

  execute-Good :
      (key : CacheKey) (args : Fields) (s : Session)
      → Good s
      → GoodAttempt (execute r.python key (as_result (r.executor key.0 args r.ledger)) s)
  unfolding execute
  execute-Good key args s h =
      elim (Bool-cases (result_ok (as_result (r.executor key.0 args r.ledger)))) [
        | inl e ↦ rw e (contract key.0 args e, h)
        | inr e ↦ rw e h
      ]

  replay_cached-Good :
      (result : Fields) (s : Session)
      → CarriesData result
      → Good s
      → OkWith GoodAttempt (replay_cached r.python result s)
  unfolding replay_cached to_dict
  replay_cached-Good result s (fields, e) h = rw e h

  cached-Carries :
      (key : CacheKey) (cache : List (CacheKey × Fields)) (result : Fields)
      → CacheCarries cache
      → cached key cache ≡ some result
      → CarriesData result
  unfolding cached
  cached-Carries key [] result h e = cc
  cached-Carries key ((j, found) ∷ cache) result h e =
      elim (Bool-cases (str_eq j.0 key.0 && str_eq j.1 key.1)) [
        | inl same ↦
            let eq : some found ≡ some result = rw same at e in
            let eq' : found ≡ result = cc in subst CarriesData eq' h.0
        | inr different ↦ cached-Carries key cache result h.1 (rw different at e)
      ]

  serve_from-Good :
      (key : CacheKey) (args : Fields) (found : Option Fields) (s : Session)
      → cached key s.cache ≡ found
      → Good s
      → OkWith GoodAttempt (serve_from r key args found s)
  unfolding serve_from
  serve_from-Good key args (some result) s e h =
      replay_cached-Good result s (cached-Carries key s.cache result h e) h
  serve_from-Good key args none s e h =
      if-OkWith GoodAttempt (leb r.budgets.max_total_tool_calls s.executed_count) _ _ (λ _. h)
        (λ _. execute-Good key args s h)

  decide_attempt-Good :
      (name : String) (arguments : Json) (over : Bool) (s : Session)
      → Good s
      → OkWith GoodAttempt (decide_attempt r name arguments over s)
  unfolding decide_attempt serve
  decide_attempt-Good name arguments over s h =
      let key : CacheKey = (name, dumps (obj (arguments_of arguments))) in
      if-OkWith GoodAttempt (is_blank name) _ _ (λ _. h)
        (λ _.
          if-OkWith GoodAttempt (not (is_object arguments)) _ _ (λ _. h)
            (λ _.
              if-OkWith GoodAttempt over _ _ (λ _. h)
                (λ _. serve_from-Good key (arguments_of arguments) (cached key s.cache) s refl h)))

  attempt-Good :
      (name arguments : Json) (round : ℤ) (index : ℕ) (over : Bool) (s : Session)
      → Good s
      → OkWith (λ p. Good p.1) (attempt r name arguments round index over s)
  unfolding attempt record_attempt
  attempt-Good name arguments round index over s h =
      >>=-OkWith (λ p. Good p.1) GoodAttempt
        (decide_attempt r (tool_name_of r.python name) arguments over s) _
        (decide_attempt-Good (tool_name_of r.python name) arguments over s h) (λ a g. g)

  attempt_calls-Good :
      (round index : ℕ) (calls : Items) (s : Session)
      → Good s
      → OkWith Good (attempt_calls r round index calls s)
  unfolding attempt_calls attempt_call
  attempt_calls-Good round index nil s h = h
  attempt_calls-Good round index (cons c cs) s h =
      >>=-OkWith Good (λ p. Good p.1)
        (attempt r (call_name c) (call_arguments c) (pos round) index
          (leb (calls_per_round r) index) s)
        _
        (attempt-Good (call_name c) (call_arguments c) (pos round) index
          (leb (calls_per_round r) index) s h)
        (λ after g. attempt_calls-Good round (index + 1) cs after.1 g)

  abbrev GoodTurn : Turn r → Type 0
  GoodTurn (done result s) = Unit
  GoodTurn (next s) = Good s

  final_turn-Good :
      (required : List RequiredCall) (prompt : String) (steps : ℕ) (draft : String) (s : Session)
      → Good s
      → GoodTurn (final_turn r required prompt steps draft s)
  unfolding final_turn take_note
  final_turn-Good required prompt steps draft s h =
      elim (Bool-cases (is_empty (missing_labels r required s))) [
        | inl e ↦ rw e tt
        | inr e ↦ rw e h
      ]

  step_turn-Good :
      (required : List RequiredCall) (prompt : String) (round steps : ℕ) (step : Step) (s : Session)
      → Good s
      → OkWith GoodTurn (step_turn r required prompt round steps step s)
  unfolding step_turn
  step_turn-Good required prompt round steps (invalid problem) s h = h
  step_turn-Good required prompt round steps (final_draft draft) s h =
      final_turn-Good required prompt steps draft s h
  step_turn-Good required prompt round steps (tool_calls calls) s h =
      >>=-OkWith GoodTurn Good (attempt_calls r round 0 calls s) _
        (attempt_calls-Good round 0 calls s h) (λ after g. g)

  answer_turn-Good :
      (required : List RequiredCall) (prompt : String) (round steps : ℕ) (answer : Option Json)
      (s : Session)
      → Good s
      → OkWith GoodTurn (answer_turn r required prompt round steps answer s)
  unfolding answer_turn
  answer_turn-Good required prompt round steps none s h = h
  answer_turn-Good required prompt round steps (some parsed) s h =
      step_turn-Good required prompt round steps (validate_step parsed) s h

  force_coverage-Good :
      (index : ℕ) (coverage : List String) (reqs : List RequiredCall) (s : Session)
      → Good s
      → OkWith (λ p. Good p.1) (force_coverage r index coverage reqs s)
  unfolding force_coverage
  force_coverage-Good index coverage [] s h = h
  force_coverage-Good index coverage (req ∷ reqs) s h =
      if-OkWith (λ p. Good p.1) (satisfied r.python req s.successes) _ _
        (λ _. force_coverage-Good index coverage reqs s h)
        (λ _.
          >>=-OkWith (λ p. Good p.1) (λ p. Good p.1)
            (attempt r (str req.name) (obj req.arguments) (negsuc 0) index false s) _
            (attempt-Good (str req.name) (obj req.arguments) (negsuc 0) index false s h)
            (λ after g. force_coverage-Good (index + 1) _ reqs after.1 g))

  abbrev AnyResult : AgenticResult × Session → Type 0
  AnyResult p = Unit

  conclude-returns :
      (required : List RequiredCall) (steps : ℕ) (s : Session)
      → Good s
      → OkWith AnyResult (conclude r required steps s)
  unfolding conclude
  conclude-returns required steps s h =
      >>=-OkWith AnyResult (λ p. Good p.1) (force_coverage r 0 [] required s) _
        (force_coverage-Good 0 [] required s h)
        (λ forced g.
          if-OkWith AnyResult (is_empty (missing_labels r required forced.1)) _ _ (λ _. tt)
            (λ _. tt))

  turn-returns :
      (required : List RequiredCall) (round left : ℕ) (t : Turn r)
      → ((after : Session)
          → Good after
          → OkWith AnyResult (run_steps r left required (round + 1) after))
      → GoodTurn t
      → OkWith AnyResult (elim t [
        | done result after ↦ ok (result, after)
        | next after ↦ run_steps r left required (round + 1) after
      ])
  turn-returns required round left (done result after) rest g = tt
  turn-returns required round left (next after) rest g = rest after g

  run_steps-returns :
      (left : ℕ) (required : List RequiredCall) (round : ℕ) (s : Session)
      → Good s
      → OkWith AnyResult (run_steps r left required round s)
  unfolding run_steps
  run_steps-returns zero required round s h = conclude-returns required round s h
  run_steps-returns (suc left) required round s h =
      let prompt = round_prompt r required (suc left) s in
      >>=-OkWith AnyResult GoodTurn
        (answer_turn r required prompt round (round + 1) (r.client round prompt) s) _
        (answer_turn-Good required prompt round (round + 1) (r.client round prompt) s h)
        (λ t g.
          turn-returns required round left t
            (λ after k. run_steps-returns left required (round + 1) after k) g)

  -- Where the executor keeps its contract and the unapplied totals of the ledger exist, a recovery
  -- returns, whatever the model answers: no call of a tool, cached or not, ends it with an exception.
  pub generate_agentic_revision-returns :
      (required : List RequiredCall)
      → required_evidence r.ledger r.failed_subject_ids ≡ ok required
      → (result : AgenticResult) × (s : Session) × (generate_agentic_revision r ≡ ok (result, s))
  unfolding generate_agentic_revision
  generate_agentic_revision-returns required e =
      let (p, returned, _) =
        OkWith-ok AnyResult (run_steps r r.budgets.max_rounds required 0 new_session)
          (run_steps-returns r.budgets.max_rounds required 0 new_session tt) in
      (p.0, p.1, rw e returned)
