-- ===== src/Spine/Append.antt =====
-- What an append does to the lines of the log, a torn one at its end included.
use Prim.Native.Char.{Char}
use mathlib.Core.List.{append-nil, append_assoc}
use max_ed.Base.{
  ◌+◌, ◌≡◌, refl, ap, ◌∙◌, inl, inr, Bool, true, false, not, List, [], ◌∷◌, ◌++◌, if◌then◌else◌,
  Bool-cases, &&_left, &&_right, length, all, length-append, not-true,
}
use max_ed.Contracts.{Event}
use max_ed.Spine.{is_newline, lines_onto, lines, line_count, torn_tail, append_event}

-- Text without a newline, then one, closes a line.
lines_onto-closed :
    (nl : Char) (line : List Char) (open_line : Bool) (text : List Char)
    → is_newline nl ≡ true
    → all (λ c. not (is_newline c)) text ≡ true
    → lines_onto line open_line (text ++ (nl ∷ [])) ≡ (line ++ text) ∷ []
unfolding lines_onto
lines_onto-closed nl line open_line [] h k = rw (h, append-nil line)
lines_onto-closed nl line open_line (c ∷ text) h k =
    let quiet = not-true (is_newline c) (&&_left _ _ k) in
    let rest = lines_onto-closed nl (line ++ (c ∷ [])) true text h (&&_right _ _ k) in
    rw (quiet, rest, append_assoc line (c ∷ []) text)

lines-dump :
    (nl : Char) (text : List Char)
    → is_newline nl ≡ true
    → all (λ c. not (is_newline c)) text ≡ true
    → lines (text ++ (nl ∷ [])) ≡ text ∷ []
unfolding lines
lines-dump nl text h k = lines_onto-closed nl [] false text h k

-- What comes after a log that is not empty starts on a line of its own.
lines_onto-append :
    (nl c : Char) (cs line : List Char) (open_line : Bool) (more : List Char)
    → is_newline nl ≡ true
    → lines_onto line open_line ((c ∷ cs) ++ ((if torn_tail (c ∷ cs) then nl ∷ [] else []) ++ more))
      ≡ lines_onto line open_line (c ∷ cs) ++ lines more
unfolding lines_onto lines torn_tail
lines_onto-append nl c [] line open_line more h = elim (Bool-cases (is_newline c)) [
  | inl closes ↦ rw (closes)
  | inr torn ↦ rw (torn, h)
]
lines_onto-append nl c (d ∷ cs) line open_line more h =
    let closed = lines_onto-append nl d cs [] false more h in
    let longer = lines_onto-append nl d cs (line ++ (c ∷ [])) true more h in
    elim (Bool-cases (is_newline c)) [
      | inl closes ↦ rw (closes, closed)
      | inr goes_on ↦ rw (goes_on, longer)
    ]

lines-append :
    (nl : Char) (log more : List Char)
    → is_newline nl ≡ true
    → lines (log ++ ((if torn_tail log then nl ∷ [] else []) ++ more)) ≡ lines log ++ lines more
unfolding lines lines_onto torn_tail
lines-append nl [] more h = refl
lines-append nl (c ∷ cs) more h = lines_onto-append nl c cs [] false more h

-- An append puts the event on a line of its own at the end, also after a line that a crash has cut
-- short, and changes no other line; the offset that it returns is the number of that line.
pub append_event-lines :
    (nl : Char) (dump : Event → List Char) (e : Event) (log : List Char)
    → is_newline nl ≡ true
    → all (λ c. not (is_newline c)) (dump e) ≡ true
    → (lines (append_event nl dump e log).1 ≡ lines log ++ (dump e ∷ []))
      × ((append_event nl dump e log).0 ≡ length (lines log))
      × (line_count (append_event nl dump e log).1 ≡ (append_event nl dump e log).0 + 1)
unfolding append_event line_count
append_event-lines nl dump e log h k =
    let one = lines-dump nl (dump e) h k in
    let all_lines = lines-append nl log (dump e ++ (nl ∷ [])) h ∙ ap (λ ls. lines log ++ ls) one in
    (all_lines, refl, ap length all_lines ∙ length-append (lines log) (dump e ∷ []))
