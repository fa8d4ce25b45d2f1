-- ===== src/Spine/Reading.antt =====
-- Reading the log back: an append is seen by every later reader, at the offset it returned.
use Prim.Native.Char.{Char}
use mathlib.Core.Path.{subst}
use max_ed.Base.{
  ℕ, ◌+◌, ◌≤◌, ◌≡◌, ap, ◌∙◌, inl, inr, true, false, not, List, [], ◌∷◌, ◌++◌, arith, ltb, ltb→lt,
  tests, Bool-cases, length, Bool, refl, sym, if◌then◌else◌, all, is_empty, Result, ok, ◌>>=◌,
  >>=-eq-ok,
}
use max_ed.Contracts.{Event}
use max_ed.Regex.Strip.{strip}
use max_ed.Spine.{
  is_return, translate, text_lines, torn_tail, is_newline, lines, append_event, events_from,
  events_with_offsets,
}
use max_ed.Spine.Append.{append_event-lines}

-- No carriage return in a text.
abbrev pub plain : List Char → Bool
plain = all (λ c. not (is_return c))

translate-plain : (text : List Char) → plain text ≡ true → translate text ≡ text
unfolding translate
translate-plain [] h = refl
translate-plain (c ∷ []) h = ground arith
translate-plain (c ∷ d ∷ cs) h = ground (arith, translate-plain (d ∷ cs))

-- Both ways to read a log without carriage returns have the same lines.
pub text_lines-plain : (log : List Char) → plain log ≡ true → text_lines log ≡ lines log
unfolding text_lines
text_lines-plain log h = ap lines (translate-plain log h)

plain-append : (xs ys : List Char) → plain xs ≡ true → plain ys ≡ true → plain (xs ++ ys) ≡ true
plain-append [] ys h k = k
plain-append (x ∷ xs) ys h k = ground (arith, plain-append xs ys)

plain-newline : (nl : Char) → is_newline nl ≡ true → plain (nl ∷ []) ≡ true
plain-newline nl h = ground arith

append_event-plain :
    (nl : Char) (dump : Event → List Char) (e : Event) (log : List Char)
    → is_newline nl ≡ true
    → plain (dump e) ≡ true
    → plain log ≡ true
    → plain (append_event nl dump e log).1 ≡ true
unfolding append_event
append_event-plain nl dump e log h k old =
    let last = plain-newline nl h in
    plain-append log _ old (
      plain-append (if torn_tail log then nl ∷ [] else []) (dump e ++ (nl ∷ []))
        (sealed (torn_tail log) last) (plain-append (dump e) (nl ∷ []) k last))
  where
    sealed : (b : Bool) → plain (nl ∷ []) ≡ true → plain (if b then nl ∷ [] else []) ≡ true
    sealed true last = last
    sealed false last = refl

module _ (parse : List Char → Result Event) (start : ℕ) where
  shift :
      (m n : ℕ) (ys : List (List Char)) {fs : List (ℕ × Event)}
      → m ≡ n
      → events_from parse start m ys ≡ ok fs
      → events_from parse start n ys ≡ ok fs
  shift m n ys {fs} e k = subst (λ j. events_from parse start j ys ≡ ok fs) e k

  joined : (xs es fs : List (ℕ × Event)) → ok xs ≡ ok es → ok (xs ++ fs) ≡ ok (es ++ fs)
  joined xs es fs h = ap (λ (r : Result (List (ℕ × Event))). r >>= λ ws. ok (ws ++ fs)) h

  events_from-append :
      (n : ℕ) (xs ys : List (List Char)) (es fs : List (ℕ × Event))
      → events_from parse start n xs ≡ ok es
      → events_from parse start (n + length xs) ys ≡ ok fs
      → events_from parse start n (xs ++ ys) ≡ ok (es ++ fs)
  unfolding events_from
  events_from-append n [] ys es fs h k = shift (n + 0) n ys (omega arith) k ∙ joined [] es fs h
  events_from-append n (x ∷ xs) ys es fs h k =
      let k' = shift (n + length (x ∷ xs)) (n + 1 + length xs) ys (omega arith) k in
      elim (Bool-cases (ltb n start)) [
        | inl before ↦ rw (before, events_from-append (n + 1) xs ys es fs (rw before at h) k')
        | inr from_here ↦ elim (Bool-cases (is_empty (strip x))) [
          | inl blank ↦ rw (
            from_here,
            blank,
            events_from-append (n + 1) xs ys es fs (rw (from_here, blank) at h) k',
          )
          | inr text ↦
              let (e, ep, er) =
                >>=-eq-ok (parse (strip x))
                  (λ e. events_from parse start (n + 1) xs >>= λ ws. ok ((n, e) ∷ ws))
                  (rw (from_here, text) at h) in
              let (rest, et, ees) =
                >>=-eq-ok (events_from parse start (n + 1) xs) (λ ws. ok ((n, e) ∷ ws)) er in
              rw (from_here, text, ep, events_from-append (n + 1) xs ys rest fs et k')
                (joined ((n, e) ∷ rest) es fs ees)
        ]
      ]

  one_line_read :
      (line : List Char) (e : Event) (n : ℕ)
      → is_empty (strip line) ≡ false
      → parse (strip line) ≡ ok e
      → start ≤ n
      → events_from parse start n (line ∷ []) ≡ ok ((n, e) ∷ [])
  unfolding events_from
  one_line_read line e n text round_trip reached = elim (Bool-cases (ltb n start)) [
    | inl before ↦ absurd (omega (tests, ltb→lt n start before))
    | inr from_here ↦ rw (from_here, text, round_trip)
  ]

  -- A log without carriage returns that reads back reads back after an append, with what the new
  -- line parses to as its last event, at the offset that the append returned, although the append
  -- counts lines in binary and the reader goes by text: from any start up to that offset, and also
  -- where the last line had lost its newline. The printed event has no newline and no carriage
  -- return, and is not blank.
  pub read-append_event :
      (nl : Char) (dump : Event → List Char) (e parsed : Event) (log : List Char)
      (es : List (ℕ × Event))
      → is_newline nl ≡ true
      → all (λ c. not (is_newline c)) (dump e) ≡ true
      → plain (dump e) ≡ true
      → plain log ≡ true
      → is_empty (strip (dump e)) ≡ false
      → parse (strip (dump e)) ≡ ok parsed
      → start ≤ (append_event nl dump e log).0
      → events_with_offsets parse start log ≡ ok es
      → events_with_offsets parse start (append_event nl dump e log).1
        ≡ ok (es ++ (((append_event nl dump e log).0, parsed) ∷ []))
  unfolding events_with_offsets
  read-append_event nl dump e parsed log es h one_line one_text plain_log text back reached old =
      let (all_lines, offset, count) = append_event-lines nl dump e log h one_line in
      let n = (append_event nl dump e log).0 in
      let one = one_line_read (dump e) parsed n text back reached in
      let after =
        text_lines-plain (append_event nl dump e log).1
          (append_event-plain nl dump e log h one_text plain_log) in
      ap (events_from parse start 0) (after ∙ all_lines)
      ∙ events_from-append 0 (lines log) (dump e ∷ []) es ((n, parsed) ∷ [])
          (ap (events_from parse start 0) (sym (text_lines-plain log plain_log)) ∙ old)
          (shift n (0 + length (lines log)) (dump e ∷ []) (omega (arith, offset)) one)
