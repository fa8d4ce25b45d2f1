-- ===== src/Spine/Tests.antt =====
-- An append to a log whose last line is torn, and the log's theorems at it.
use Prim.Native.Char.{Char}
use max_ed.Base.{
  ◌+◌, ◌≤◌, ◌≡◌, refl, false, List, [], ◌∷◌, ◌++◌, arith, length, is_empty, Result, ok,
}
use max_ed.Contracts.{ingest, Event}
use max_ed.Regex.Strip.{strip, strip_by, strip_left}
use max_ed.Spine.{
  text_lines, translate, lines, lines_onto, events_from, line_count, append_event,
  events_with_offsets,
}
use max_ed.Spine.Append.{append_event-lines}
use max_ed.Spine.Reading.{read-append_event}

abbrev quiet_event : Event
quiet_event = record {
  run_id = "r";
  body = ingest (record {
    consumed_through_offset = 0;
    entries_added = 0;
    entries_evicted = 0;
    memory_state_hash = "empty";
  });
}

abbrev print_event : Event → List Char
print_event e = "x" ∷ []

abbrev parse_event : List Char → Result Event
parse_event line = ok quiet_event

abbrev torn_log : List Char
torn_log = "x" ∷ "\n" ∷ "x" ∷ []

append_event-lines_example :
    (lines (append_event "\n" print_event quiet_event torn_log).1
      ≡ lines torn_log ++ (print_event quiet_event ∷ []))
    × ((append_event "\n" print_event quiet_event torn_log).0 ≡ length (lines torn_log))
    × (line_count (append_event "\n" print_event quiet_event torn_log).1
        ≡ (append_event "\n" print_event quiet_event torn_log).0 + 1)
append_event-lines_example = append_event-lines "\n" print_event quiet_event torn_log refl refl

torn_offset : 0 ≤ (append_event "\n" print_event quiet_event torn_log).0
torn_offset = omega arith

torn_read :
    events_with_offsets parse_event 0 torn_log ≡ ok ((0, quiet_event) ∷ (1, quiet_event) ∷ [])
unfolding events_with_offsets events_from text_lines translate lines lines_onto strip strip_by
    strip_left
torn_read = refl

not_blank : is_empty (strip ("x" ∷ [])) ≡ false
unfolding strip strip_by strip_left
not_blank = refl

read-append_event_example :
    events_with_offsets parse_event 0 (append_event "\n" print_event quiet_event torn_log).1
    ≡ ok (
        ((0, quiet_event) ∷ (1, quiet_event) ∷ [])
        ++ (((append_event "\n" print_event quiet_event torn_log).0, quiet_event) ∷ []))
read-append_event_example =
    read-append_event parse_event 0 "\n" print_event quiet_event quiet_event torn_log
      ((0, quiet_event) ∷ (1, quiet_event) ∷ []) refl refl refl refl not_blank refl torn_offset
      torn_read

-- A carriage return inside a line: the reader goes through two lines, and the counter sees one.
abbrev returned_log : List Char
returned_log = "x" ∷ "\r" ∷ "x" ∷ "\n" ∷ []

lines_differ : (length (text_lines returned_log) ≡ 2) × (line_count returned_log ≡ 1)
unfolding text_lines translate lines lines_onto line_count
lines_differ = (refl, refl)
