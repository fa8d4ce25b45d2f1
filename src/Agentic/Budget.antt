-- ===== src/Agentic/Budget.antt =====
-- What every session of balancecheck/drafting/agentic.py keeps: the budget of executions, one event
-- for each attempt, and a logged success behind each success it counts.
use max_ed.Base.{
  ℕ, ◌+◌, ◌≤◌, String, ◌≡◌, refl, inl, Bool, true, false, not, Option, none, some, List, [], ◌∷◌,
  ◌++◌, arith, leb, if◌then◌else◌, tests, length, All, length-append, All-append, is_blank, All-map,
  Ensures, Ensures-ok, if-Ensures, >>=-Ensures, Any, Any-append_left, Any-append_right, leb-false,
}
use max_ed.Base.Int.{ℤ}
use max_ed.Contracts.{ToolCallEvent, tool_call, Event, Json, null, obj, Fields}
use max_ed.Agentic.{Recovery, Success}
use max_ed.Agentic.Session.{
  Session, new_session, take_note, cached, CacheKey, Attempt, execute, replay_cached, serve,
  decide_attempt, serve_from, record_attempt, attempt, as_result, attempt_event, or_json,
  arguments_of, tool_name_of,
}
use max_ed.Json.{Python, to_dict, field_of, is_object, dumps}

-- An event of a call of the tool, with the arguments, that succeeded.
abbrev pub Supports : Success → Event → Type 0
Supports (name, args) e =
    (t : ToolCallEvent) × (e.body ≡ tool_call t)
    × (t.tool_name ≡ name)
    × (t.arguments ≡ args)
    × (t.succeeded ≡ true)

-- Every success of the list stands in the log.
abbrev pub Supported : List Event → List Success → Type 0
Supported log = All (λ success. Any (Supports success) log)

pub record IsSession (r : Recovery) (s : Session) : Type 0 where
  pub within : s.executed_count ≤ r.budgets.max_total_tool_calls
  pub logged : s.attempts ≡ length s.log
  pub supported : Supported s.log s.successes

module _ (r : Recovery) where
  abbrev Within : Attempt → Type 0
  Within a = a.executed_count ≤ r.budgets.max_total_tool_calls

  execute-count :
      (py : Python) (key : CacheKey) (result : Fields) (s : Session)
      → (execute py key result s).executed_count ≡ s.executed_count + 1
  unfolding execute
  execute-count py key result s = ground arith

  replay_cached-Within :
      (py : Python) (result : Fields) (s : Session)
      → s.executed_count ≤ r.budgets.max_total_tool_calls
      → Ensures Within (replay_cached py result s)
  unfolding replay_cached
  replay_cached-Within py result s h =
      >>=-Ensures Within (to_dict py (or_json (field_of "data" result) null)) _ (λ fields e. h)

  serve_from-Within :
      (key : CacheKey) (args : Fields) (found : Option Fields) (s : Session)
      → s.executed_count ≤ r.budgets.max_total_tool_calls
      → Ensures Within (serve_from r key args found s)
  unfolding serve_from
  serve_from-Within key args (some result) s h = replay_cached-Within r.python result s h
  serve_from-Within key args none s h =
      if-Ensures Within (leb r.budgets.max_total_tool_calls s.executed_count) _ _ (λ full. h)
        (λ room. omega (
          tests,
          execute-count r.python key (as_result (r.executor key.0 args r.ledger)) s,
          leb-false _ _ room,
          h,
        ))

  decide_attempt-Within :
      (name : String) (arguments : Json) (over : Bool) (s : Session)
      → s.executed_count ≤ r.budgets.max_total_tool_calls
      → Ensures Within (decide_attempt r name arguments over s)
  unfolding decide_attempt serve
  decide_attempt-Within name arguments over s h =
      if-Ensures Within (is_blank name) _ _ (λ _. h)
        (λ _.
          if-Ensures Within (not (is_object arguments)) _ _ (λ _. h)
            (λ _.
              if-Ensures Within over _ _ (λ _. h)
                (λ _.
                  serve_from-Within (name, dumps (obj (arguments_of arguments)))
                    (arguments_of arguments)
                    (cached (name, dumps (obj (arguments_of arguments))) s.cache) s h)))

  Supported-more :
      (log more : List Event) (ss : List Success) → Supported log ss → Supported (log ++ more) ss
  Supported-more log more ss h =
      All-map _ _ ss (λ success a. Any-append_left (Supports success) log more a) h

  added-Supported :
      (success : Success) (log : List Event) (e : Event) (ss : List Success) (b : Bool)
      → (b ≡ true → Supports success e)
      → Supported log ss
      → Supported (log ++ (e ∷ [])) (if b then ss ++ (success ∷ []) else ss)
  added-Supported success log e ss false f h = Supported-more log (e ∷ []) ss h
  added-Supported success log e ss true f h =
      All-append _ ss (success ∷ []) (Supported-more log (e ∷ []) ss h)
        (Any-append_right (Supports success) log (e ∷ []) (inl (f refl)), tt)

  record_attempt-IsSession :
      (name : String) (args : Fields) (round : ℤ) (index : ℕ) (s : Session) (a : Attempt)
      → IsSession r s
      → Within a
      → IsSession r (record_attempt r name args round index s a)
  unfolding record_attempt
  record_attempt-IsSession name args round index s a h w =
      let event = attempt_event r name args round index a in
      record {
        within = w;
        logged = omega (arith, h.logged, length-append {0} s.log (event ∷ []));
        supported =
            added-Supported (name, args) s.log event s.successes a.succeeded
              (λ e. (_, refl, refl, refl, e)) h.supported;
      }

  abbrev pub Kept : Bool × Session → Type 0
  Kept p = IsSession r p.1

  pub attempt-IsSession :
      (name arguments : Json) (round : ℤ) (index : ℕ) (over : Bool) (s : Session)
      → IsSession r s
      → Ensures Kept (attempt r name arguments round index over s)
  unfolding attempt
  attempt-IsSession name arguments round index over s h =
      let tool = tool_name_of r.python name in
      >>=-Ensures Kept (decide_attempt r tool arguments over s) _ (λ a e.
        record_attempt-IsSession tool (arguments_of arguments) round index s a h (
          Ensures-ok Within (decide_attempt r tool arguments over s)
            (decide_attempt-Within tool arguments over s h.within) e))

  pub new_session-IsSession : IsSession r new_session
  new_session-IsSession = record { within = omega arith; logged = refl; supported = tt }

  pub take_note-IsSession :
      (text : String) (s : Session) → IsSession r s → IsSession r (take_note text s)
  unfolding take_note
  take_note-IsSession text s h = record {
    within = h.within;
    logged = h.logged;
    supported = h.supported;
  }
