-- ===== src/Spine.antt =====
-- The event log, spine/events.py, as the characters of its file. The appender and the counter of lines
-- open the file in binary, where a line ends with the newline character alone; the readers open it as
-- text, where a carriage return, alone or before a newline, ends one too. The printer and the parser
-- of events are Pydantic's: parameters here.
pub mod Append
pub mod Reading
mod Tests
use Prim.Native.Char.{Char, code}
use max_ed.Base.{
  ℕ, ◌+◌, Bool, true, false, not, List, [], ◌∷◌, ◌++◌, map, ltb, ◌==◌, if◌then◌else◌, length,
  is_empty, Result, ok, ◌>>=◌,
}
use max_ed.Contracts.{Event, end}
use max_ed.Regex.Strip.{strip}

abbrev pub is_newline : Char → Bool
is_newline c = code c == 10

-- The lines of a file, without their newlines; a last line without one counts. `line` is the current
-- one, and says whether something of it was read.
unfoldable pub lines_onto : List Char → Bool → List Char → List (List Char)
lines_onto line open_line [] = if open_line then line ∷ [] else []
lines_onto line open_line (c ∷ cs) =
    let closed = line ∷ lines_onto [] false cs in
    let longer = lines_onto (line ++ (c ∷ [])) true cs in if is_newline c then closed else longer

unfoldable pub lines : List Char → List (List Char)
unfolding lines_onto
lines = lines_onto [] false

unfoldable pub line_count : List Char → ℕ
unfolding lines
line_count log = length (lines log)

-- The last byte is not a newline, where there is one.
unfoldable pub torn_tail : List Char → Bool
torn_tail [] = false
torn_tail (c ∷ []) = not (is_newline c)
torn_tail (c ∷ d ∷ cs) = torn_tail (d ∷ cs)

abbrev pub is_return : Char → Bool
is_return c = code c == 13

-- The newlines that text mode reads: a carriage return is one, together with a newline behind it.
unfoldable pub translate : List Char → List Char
translate [] = []
translate (c ∷ []) = (if is_return c then "\n" else c) ∷ []
translate (c ∷ d ∷ cs) =
    let rest = translate (d ∷ cs) in
    if is_return c then (if is_newline d then rest else "\n" ∷ rest) else c ∷ rest

-- The lines that a reader goes through.
unfoldable pub text_lines : List Char → List (List Char)
unfolding lines translate
text_lines log = lines (translate log)

module _ (newline : Char) (dump : Event → List Char) where
  -- `append_event`: the offset, and the file after it.
  unfoldable pub append_event : Event → List Char → ℕ × List Char
  unfolding line_count torn_tail
  append_event e log = (
    line_count log,
    log ++ ((if torn_tail log then newline ∷ [] else []) ++ (dump e ++ (newline ∷ []))),
  )

module _ (parse : List Char → Result Event) where
  -- The loop of `read_events`, which skips the lines before the start and the blank ones; each event
  -- with its line's number, as `_events_with_offsets` of memory/ingest.py has it.
  unfoldable pub events_from : ℕ → ℕ → List (List Char) → Result (List (ℕ × Event))
  events_from start n [] = ok []
  events_from start n (line ∷ rest) =
      let more = events_from start (n + 1) rest in
      if ltb n start
      then more
      else if is_empty (strip line)
      then more
      else (parse (strip line) >>= λ e. more >>= λ es. ok ((n, e) ∷ es))

  unfoldable pub events_with_offsets : ℕ → List Char → Result (List (ℕ × Event))
  unfolding events_from text_lines
  events_with_offsets start log = events_from start 0 (text_lines log)

  unfoldable pub read_events : ℕ → List Char → Result (List Event)
  unfolding events_with_offsets
  read_events start log =
      events_with_offsets start log >>= λ pairs. ok (map (λ (p : ℕ × Event). p.1) pairs)
