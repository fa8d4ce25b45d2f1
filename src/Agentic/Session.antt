-- ===== src/Agentic/Session.antt =====
-- `_ToolSession` of balancecheck/drafting/agentic.py: execution, caching, budgets, and one event for
-- each attempt. The log holds the events that the session appends.
use max_ed.Base.{
  ℕ, ◌+◌, String, Bool, true, false, not, ◌&&◌, Option, none, some, List, [], ◌∷◌, ◌++◌, str_eq,
  leb, if◌then◌else◌, concat, is_blank, Result, ok, ◌>>=◌,
}
use max_ed.Base.Int.{ℤ}
use max_ed.Contracts.{tool_call, Event, Json, null, bool, str, obj, Fields, end, field}
use max_ed.Agentic.{Executed, returned, raised, Recovery, Success}
use max_ed.Json.{Python, dumps, field_of, set_field, truthy, is_object, text_of, to_dict}

-- An entry of the transcript.
pub data Entry : Type 0 where
  note : String → Entry
  call : String → Fields → Fields → Entry

-- The key of a cached result: the tool and its arguments, printed.
abbrev pub CacheKey : Type 0
CacheKey = String × String

pub record Session : Type 0 where
  pub transcript : List Entry
  pub successes : List Success
  pub cache : List (CacheKey × Fields)
  pub executed_count : ℕ
  pub attempts : ℕ
  pub log : List Event

abbrev pub new_session : Session
new_session = record {
  transcript = [];
  successes = [];
  cache = [];
  executed_count = 0;
  attempts = 0;
  log = [];
}

unfoldable pub take_note : String → Session → Session
take_note text s = record s { transcript = s.transcript ++ (note text ∷ []) }

unfoldable pub cached : CacheKey → List (CacheKey × Fields) → Option Fields
cached k [] = none
cached k ((j, result) ∷ cache) =
    if str_eq j.0 k.0 && str_eq j.1 k.1 then some result else cached k cache

-- What an attempt comes to, before it is recorded.
pub record Attempt : Type 0 where
  pub succeeded : Bool
  pub error : String
  pub result : Fields
  pub cache : List (CacheKey × Fields)
  pub executed_count : ℕ

-- `{"ok": False, "error": error}`
abbrev pub failure_result : String → Fields
failure_result error = field "ok" (bool false) (field "error" (str error) end)

abbrev pub refuse_call : String → Session → Attempt
refuse_call error s = record {
  succeeded = false;
  error = error;
  result = failure_result error;
  cache = s.cache;
  executed_count = s.executed_count;
}

-- The result of an execution: a value that is no dict, or an exception, is a failure.
abbrev pub as_result : Executed → Fields
unfolding concat
as_result (returned (obj fields)) = fields
as_result (returned _) = failure_result "non-dict tool result"
as_result (raised kind text) = failure_result (concat ("tool raised " ∷ kind ∷ ": " ∷ text ∷ []))

abbrev pub or_json : Option Json → Json → Json
or_json none v = v
or_json (some w) v = w

-- `bool(result.get("ok"))`
abbrev pub result_ok : Fields → Bool
unfolding truthy field_of
result_ok result = truthy (or_json (field_of "ok" result) null)

-- A call that is executed.
unfoldable pub execute : Python → CacheKey → Fields → Session → Attempt
unfolding truthy field_of text_of
execute py key result s =
    if result_ok result
    then record {
      succeeded = true;
      error = "";
      result = result;
      cache = (key, result) ∷ s.cache;
      executed_count = s.executed_count + 1;
    }
    else record {
      succeeded = false;
      error = text_of py (or_json (field_of "error" result) (str "tool call failed"));
      result = result;
      cache = s.cache;
      executed_count = s.executed_count + 1;
    }

-- A call that was made before: its data, marked as cached.
unfoldable pub replay_cached : Python → Fields → Session → Result Attempt
unfolding field_of to_dict set_field
replay_cached py result s = to_dict py (or_json (field_of "data" result) null) >>= λ fields.
    ok (record {
      succeeded = true;
      error = "";
      result =
          field "ok" (bool true) (field "data" (obj (set_field "cached" (bool true) fields)) end);
      cache = s.cache;
      executed_count = s.executed_count;
    })

abbrev pub arguments_of : Json → Fields
arguments_of (obj fields) = fields
arguments_of _ = end

-- `str(name or "")`
abbrev pub tool_name_of : Python → Json → String
unfolding truthy text_of
tool_name_of py name = if truthy name then text_of py name else ""

module _ (r : Recovery) where
  -- A call that is well formed and within the budget of its round, with what the cache has for it.
  unfoldable pub serve_from : CacheKey → Fields → Option Fields → Session → Result Attempt
  unfolding replay_cached execute
  serve_from key args (some result) s = replay_cached r.python result s
  serve_from key args none s =
      if leb r.budgets.max_total_tool_calls s.executed_count
      then ok (refuse_call "total tool budget exhausted" s)
      else ok (execute r.python key (as_result (r.executor key.0 args r.ledger)) s)

  unfoldable pub serve : String → Fields → Session → Result Attempt
  unfolding cached dumps serve_from
  serve name args s =
      let key : CacheKey = (name, dumps (obj args)) in serve_from key args (cached key s.cache) s

  unfoldable pub decide_attempt : String → Json → Bool → Session → Result Attempt
  unfolding serve
  decide_attempt name arguments over_round_budget s =
      if is_blank name
      then ok (refuse_call "invalid tool call: missing tool name" s)
      else if not (is_object arguments)
      then ok (refuse_call "invalid tool call: arguments must be an object" s)
      else if over_round_budget
      then ok (refuse_call "per-round tool budget exceeded" s)
      else serve name (arguments_of arguments) s

  abbrev pub attempt_event : String → Fields → ℤ → ℕ → Attempt → Event
  attempt_event name args round_index call_index a = record {
    run_id = r.run_id;
    body = tool_call (record {
      gen_id = r.gen_id;
      revision_index = r.revision_index;
      round_index = round_index;
      call_index = call_index;
      tool_name = name;
      arguments = args;
      result = a.result;
      succeeded = a.succeeded;
      error = a.error;
    });
  }

  -- What every attempt leaves in the session.
  unfoldable pub record_attempt : String → Fields → ℤ → ℕ → Session → Attempt → Session
  record_attempt name args round_index call_index s a = record {
    transcript = s.transcript ++ (call name args a.result ∷ []);
    successes = if a.succeeded then s.successes ++ ((name, args) ∷ []) else s.successes;
    cache = a.cache;
    executed_count = a.executed_count;
    attempts = s.attempts + 1;
    log = s.log ++ (attempt_event name args round_index call_index a ∷ []);
  }

  -- `attempt`: whether it succeeded, and the session after it.
  unfoldable pub attempt : Json → Json → ℤ → ℕ → Bool → Session → Result (Bool × Session)
  unfolding decide_attempt record_attempt text_of truthy
  attempt name arguments round_index call_index over_round_budget s =
      let tool_name = tool_name_of r.python name in
      decide_attempt tool_name arguments over_round_budget s >>= λ a.
      ok (a.succeeded, record_attempt tool_name (arguments_of arguments) round_index call_index s a)
