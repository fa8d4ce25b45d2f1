-- ===== src/Memory/Tests.antt =====
-- A decision that the ingest takes in, and the theorems of the memory at it.
use max_ed.Memory.{evict, oldest, is_entry, in_class, class_key, older, add}
use max_ed.Base.{
  String, ◌≡◌, refl, ap, true, false, not, Option, none, some, List, [], ◌∷◌, arith, ◌==◌,
  if◌then◌else◌, all, is_empty, concat, Result, ok,
}
use max_ed.Memory.Ingest.{
  settle, collect, collect_step, entry_of, weight_by_action, entry_id_of, add_all, Memory, Counts,
  decision_of, run_ingest,
}
use max_ed.Spine.{
  events_with_offsets, text_lines, translate, events_from, lines, lines_onto, line_count,
  append_event, torn_tail, is_newline,
}
use max_ed.Derive.Structures.{
  signature, sub_days, has_unapplied, near_duplicate, cutoff_risk, has_partial,
}
use max_ed.Derive.Ambiguity.{ambiguous_allocations, ambiguous_from, matching_invoices}
use max_ed.Derive.{
  open_amount, unapplied_amount, invoice, source, applied_to_invoice, applied_from_source,
}
use max_ed.Money.{decimal}
use Prim.Native.Char.{Char, code}
use max_ed.Contracts.{
  pool_a, Ledger, approve, MemoryEntry, HumanDecisionEvent, human_decision, ingest, Event,
}
use max_ed.Derive.Tests.{sample}
use max_ed.Memory.Cap.{IsStore, add-IsStore}
use max_ed.Memory.Ingest.Once.{run_ingest-IsStore, run_ingest-twice}
use max_ed.Spine.Reading.{plain}
use max_ed.Regex.Strip.{strip, strip_by, strip_left}

abbrev quiet_event : Event
quiet_event = record {
  run_id = "";
  body = ingest (record {
    consumed_through_offset = 0;
    entries_added = 0;
    entries_evicted = 0;
    memory_state_hash = "empty";
  });
}

abbrev approval : HumanDecisionEvent
approval = record {
  gen_id = "g";
  scenario_id = "S-A-01";
  pool = "A";
  action = approve;
  final_text = "text";
  reason = "";
}

-- A printer of one letter: `d` for a human decision, `x` for another event.
abbrev print_event : Event → List Char
print_event e = elim (decision_of e.body) [ none ↦ "x" ∷ [] | some d ↦ "d" ∷ [] ]

abbrev parse_event : List Char → Result Event
parse_event [] = ok quiet_event
parse_event (c ∷ cs) =
    if code c == 100
    then ok (record { run_id = ""; body = human_decision approval })
    else ok quiet_event

abbrev sample_ledger : String → Result Ledger
sample_ledger scenario_id = ok sample

abbrev no_hash : List MemoryEntry → String
no_hash es = ""

abbrev fresh_memory : Memory
fresh_memory = record { log = "d" ∷ "\n" ∷ []; store = []; consumed = 0 }

empty-IsStore : IsStore []
empty-IsStore = record { capped = λ key. omega arith; pool_a_only = refl }

abbrev approved_entry : MemoryEntry
approved_entry = record {
  entry_id = "mem-000000";
  source_gen_id = "g";
  scenario_id = "S-A-01";
  pool = pool_a;
  signature =
      ("has_unapplied_cash", true)
      ∷ ("has_partial", true)
      ∷ ("has_open_credit", true)
      ∷ ("has_near_duplicate", false)
      ∷ ("has_cutoff_risk", false)
      ∷ ("has_ambiguous_allocation", false)
      ∷ [];
  weight = 1;
  final_text = "text";
  human_action = approve;
  note = "";
  ingested_offset = 0;
}

added_entry : add approved_entry [] ≡ ok (approved_entry ∷ [], [])
unfolding add evict oldest is_entry in_class class_key older concat
added_entry = refl

add-IsStore_example : IsStore (approved_entry ∷ [])
add-IsStore_example =
    add-IsStore approved_entry [] (approved_entry ∷ [], []) empty-IsStore added_entry

abbrev ingested : Memory × Counts
ingested = (
  record { log = "d" ∷ "\n" ∷ "x" ∷ "\n" ∷ []; store = approved_entry ∷ []; consumed = 1 },
  record { added = 1; evicted = 0; refused_pool_b = 0; skipped_decline = 0 },
)

ingested_run :
    run_ingest "\n" print_event parse_event sample_ledger no_hash fresh_memory ≡ ok ingested
unfolding add evict oldest is_entry in_class class_key older concat run_ingest settle collect
    collect_step entry_of weight_by_action entry_id_of add_all events_with_offsets text_lines
    translate events_from lines lines_onto line_count append_event torn_tail strip strip_by
    strip_left signature sub_days has_unapplied near_duplicate cutoff_risk has_partial
    ambiguous_allocations ambiguous_from matching_invoices open_amount unapplied_amount invoice
    source applied_to_invoice applied_from_source decimal
ingested_run = refl

run_ingest-IsStore_example : IsStore (approved_entry ∷ [])
run_ingest-IsStore_example =
    run_ingest-IsStore "\n" print_event parse_event sample_ledger no_hash fresh_memory ingested
      empty-IsStore ingested_run

printed_line : (e : Event) → all (λ c. not (is_newline c)) (print_event e) ≡ true
printed_line e = go (decision_of e.body)
  where
    go :
        (o : Option HumanDecisionEvent)
        → all (λ c. not (is_newline c)) (elim o [ none ↦ "x" ∷ [] | some d ↦ "d" ∷ [] ]) ≡ true
    go none = refl
    go (some d) = refl

printed_plain : (e : Event) → plain (print_event e) ≡ true
printed_plain e = go (decision_of e.body)
  where
    go :
        (o : Option HumanDecisionEvent)
        → plain (elim o [ none ↦ "x" ∷ [] | some d ↦ "d" ∷ [] ]) ≡ true
    go none = refl
    go (some d) = refl

printed_text : (e : Event) → is_empty (strip (print_event e)) ≡ false
unfolding strip strip_by strip_left
printed_text e = go (decision_of e.body)
  where
    go :
        (o : Option HumanDecisionEvent)
        → is_empty (strip (elim o [ none ↦ "x" ∷ [] | some d ↦ "d" ∷ [] ])) ≡ false
    go none = refl
    go (some d) = refl

parsed_kind :
    (e : Event)
    → decision_of e.body ≡ none
    → (parsed : Event) × (parse_event (strip (print_event e)) ≡ ok parsed)
      × (decision_of parsed.body ≡ none)
unfolding strip strip_by strip_left
parsed_kind e h = (
  quiet_event,
  ap
      (λ (o : Option HumanDecisionEvent).
        parse_event (strip (elim o [ none ↦ "x" ∷ [] | some d ↦ "d" ∷ [] ])))
      h,
  refl,
)

run_ingest-twice_example :
    (again : Memory) × (run_ingest "\n" print_event parse_event sample_ledger no_hash ingested.0
      ≡ ok (again, record { added = 0; evicted = 0; refused_pool_b = 0; skipped_decline = 0 }))
    × (again.store ≡ approved_entry ∷ [])
run_ingest-twice_example =
    run_ingest-twice "\n" print_event parse_event sample_ledger no_hash fresh_memory ingested refl
      printed_line printed_plain refl printed_text parsed_kind ingested_run
