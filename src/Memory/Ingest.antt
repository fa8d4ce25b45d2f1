-- ===== src/Memory/Ingest.antt =====
-- The ingest of human decisions, memory/ingest.py. The state is the log, the store and the consumed
-- offset; the fixtures are read by Pydantic, and the hash is that of the store's file: parameters.
pub mod Once
use Prim.Native.Char.{Char}
use max_ed.Base.{
  ℕ, ◌+◌, String, Bool, true, false, not, Option, none, some, List, [], ◌∷◌, ◌++◌, str_eq, ltb,
  if◌then◌else◌, length, concat, key_error, Result, ok, raise, ◌>>=◌,
}
use max_ed.Contracts.{
  pool_a, Ledger, HumanAction, approve, edit, decline, human, MemoryEntry, HumanDecisionEvent,
  EventBody, run_start, generation, verification, human_decision, capability_gap, ingest, score,
  judgment, tool_call, trace, Event,
}
use max_ed.Derive.Structures.{signature}
use max_ed.Memory.{add, is_pool_a}
use max_ed.Money.{decimal}
use max_ed.Spine.{line_count, append_event, events_with_offsets}

pub record Memory : Type 0 where
  pub log : List Char
  pub store : List MemoryEntry
  pub consumed : ℕ

-- What `ingest` counts.
pub record Counts : Type 0 where
  pub added : ℕ
  pub evicted : ℕ
  pub refused_pool_b : ℕ
  pub skipped_decline : ℕ

-- The entries to add and the two counts of what is passed over.
pub record Batch : Type 0 where
  pub pending : List MemoryEntry
  pub refused : ℕ
  pub skipped : ℕ

abbrev is_decline : HumanAction → Bool
is_decline approve = false
is_decline edit = false
is_decline decline = true

-- `_WEIGHT_BY_ACTION[action]`
unfoldable pub weight_by_action : HumanAction → Result ℕ
weight_by_action edit = ok 2
weight_by_action approve = ok 1
weight_by_action decline = raise (key_error "decline")

-- `f"mem-{offset:06d}"`
abbrev zeros : ℕ → String
zeros n =
    if ltb n 10
    then "00000"
    else if ltb n 100
    then "0000"
    else if ltb n 1000
    then "000"
    else if ltb n 10000
    then "00"
    else if ltb n 100000
    then "0"
    else ""

unfoldable pub entry_id_of : ℕ → String
entry_id_of offset = concat ("mem-" ∷ zeros offset ∷ decimal offset ∷ [])

abbrev pub refuse : Batch → Batch
refuse b = record b { refused = b.refused + 1 }

abbrev pub skip_decline : Batch → Batch
skip_decline b = record b { skipped = b.skipped + 1 }

unfoldable pub entry_of : ℕ → HumanDecisionEvent → Ledger → Result MemoryEntry
unfolding weight_by_action entry_id_of
entry_of offset e l = signature l >>= λ sig. weight_by_action e.action >>= λ weight. ok (record {
  entry_id = entry_id_of offset;
  source_gen_id = e.gen_id;
  scenario_id = e.scenario_id;
  pool = pool_a;
  signature = sig;
  weight = weight;
  final_text = e.final_text;
  human_action = e.action;
  note = e.reason;
  ingested_offset = offset;
})

-- The body of `EventBody` that the ingest consumes.
abbrev pub decision_of : EventBody → Option HumanDecisionEvent
decision_of (human_decision e) = some e
decision_of (run_start e) = none
decision_of (generation e) = none
decision_of (verification e) = none
decision_of (capability_gap e) = none
decision_of (ingest e) = none
decision_of (score e) = none
decision_of (judgment e) = none
decision_of (tool_call e) = none
decision_of (trace e) = none

module _ (load_ledger : String → Result Ledger) where
  -- One round of the first loop.
  unfoldable pub collect_step : ℕ → HumanDecisionEvent → Batch → Result Batch
  unfolding entry_of
  collect_step offset e b =
      if not (str_eq e.pool "A")
      then ok (refuse b)
      else if is_decline e.action
      then ok (skip_decline b)
      else (load_ledger e.scenario_id >>= λ l.
          if not (is_pool_a l.pool)
          then ok (refuse b)
          else (entry_of offset e l >>= λ entry.
              ok (record b { pending = b.pending ++ (entry ∷ []) })))

  unfoldable pub collect : List (ℕ × Event) → Batch → Result Batch
  unfolding collect_step
  collect [] b = ok b
  collect ((offset, e) ∷ es) b =
      elim (decision_of e.body) [ none ↦ ok b | some d ↦ collect_step offset d b ] >>= λ c.
      collect es c

-- The second loop: the store, and how many entries it evicted.
unfoldable pub add_all : List MemoryEntry → List MemoryEntry → Result (List MemoryEntry × ℕ)
unfolding add
add_all [] store = ok (store, 0)
add_all (e ∷ es) store =
    add e store >>= λ after. add_all es after.0 >>= λ rest. ok (rest.0, length after.1 + rest.1)

module _ (newline : Char) (dump : Event → List Char) (parse : List Char → Result Event)
    (load_ledger : String → Result Ledger) (state_hash : List MemoryEntry → String) where
  -- The event that the ingest logs; its run is the default.
  abbrev pub ingest_event : ℕ → ℕ → ℕ → List MemoryEntry → Event
  ingest_event consumed added evicted store = record {
    run_id = "";
    body = ingest (record {
      consumed_through_offset = consumed;
      entries_added = added;
      entries_evicted = evicted;
      memory_state_hash = state_hash store;
    });
  }

  -- What `ingest` does with the batch.
  unfoldable pub settle : Memory → Batch → Result (Memory × Counts)
  unfolding add_all append_event line_count
  settle m b = add_all b.pending m.store >>= λ stored.
      let consumed = line_count m.log in
      let event = ingest_event consumed (length b.pending) stored.1 stored.0 in
      ok (
        record {
          log = (append_event newline dump event m.log).1;
          store = stored.0;
          consumed = consumed;
        },
        record {
          added = length b.pending;
          evicted = stored.1;
          refused_pool_b = b.refused;
          skipped_decline = b.skipped;
        },
      )

  unfoldable pub run_ingest : Memory → Result (Memory × Counts)
  unfolding settle collect events_with_offsets
  run_ingest m = events_with_offsets parse m.consumed m.log >>= λ events.
      collect load_ledger events (record { pending = []; refused = 0; skipped = 0 }) >>= λ b.
      settle m b
