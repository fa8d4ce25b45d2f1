-- ===== src/Memory/Ingest/Once.antt =====
-- The ingest keeps the store well-formed, and adds nothing the second time.
use Prim.Native.Char.{Char}
use max_ed.Base.{
  ℕ, ◌+◌, ◌≤◌, String, ◌≡◌, refl, ap, ◌∙◌, true, false, not, none, List, [], ◌∷◌, arith, lt→ltb,
  length, all, is_empty, Result, ok, Ensures, Ensures-ok, >>=-Ensures,
}
use max_ed.Contracts.{Ledger, MemoryEntry, Event}
use max_ed.Memory.{add}
use max_ed.Memory.Cap.{IsStore, add-IsStore}
use max_ed.Memory.Ingest.{
  Memory, Counts, Batch, decision_of, collect, add_all, ingest_event, settle, run_ingest,
}
use max_ed.Regex.Strip.{strip}
use max_ed.Spine.{is_newline, lines, line_count, append_event, events_from, events_with_offsets}
use max_ed.Spine.Append.{append_event-lines}
use max_ed.Spine.Reading.{plain, text_lines-plain, read-append_event}

add_all-IsStore :
    (es store : List MemoryEntry)
    → IsStore store
    → Ensures (λ (r : List MemoryEntry × ℕ). IsStore r.0) (add_all es store)
unfolding add_all
add_all-IsStore [] store s = s
add_all-IsStore (e ∷ es) store s =
    let Good : List MemoryEntry × ℕ → Type 0 = λ r. IsStore r.0 in
    >>=-Ensures Good (add e store) _ (λ after h.
      let s' = add-IsStore e store after s h in
      >>=-Ensures Good (add_all es after.0) _
        (λ rest k. Ensures-ok Good (add_all es after.0) (add_all-IsStore es after.0 s') k))

-- The lines before the start are skipped.
events_from-before :
    (parse : List Char → Result Event) (start n : ℕ) (xs : List (List Char))
    → n + length xs ≤ start
    → events_from parse start n xs ≡ ok []
unfolding events_from
events_from-before parse start n [] h = refl
events_from-before parse start n (x ∷ xs) h = rw (
  lt→ltb n start (omega (arith, h)),
  events_from-before parse start (n + 1) xs (omega (arith, h)),
)

line_count-eq : (log : List Char) → line_count log ≡ length (lines log)
unfolding line_count
line_count-eq log = refl

events_with_offsets-eq :
    (parse : List Char → Result Event) (start : ℕ) (log : List Char)
    → plain log ≡ true
    → events_with_offsets parse start log ≡ events_from parse start 0 (lines log)
unfolding events_with_offsets
events_with_offsets-eq parse start log h = ap (events_from parse start 0) (text_lines-plain log h)

module _ (newline : Char) (dump : Event → List Char) (parse : List Char → Result Event)
    (load_ledger : String → Result Ledger) (state_hash : List MemoryEntry → String) where
  settle-IsStore :
      (m : Memory) (b : Batch)
      → IsStore m.store
      → Ensures
          (λ (r : Memory × Counts). IsStore r.0.store)
          (settle newline dump parse load_ledger state_hash m b)
  unfolding settle
  settle-IsStore m b s =
      let Good : Memory × Counts → Type 0 = λ r. IsStore r.0.store in
      >>=-Ensures Good (add_all b.pending m.store) _ (λ stored h.
        Ensures-ok (λ (r : List MemoryEntry × ℕ). IsStore r.0) (add_all b.pending m.store)
          (add_all-IsStore b.pending m.store s) h)

  -- An ingest that returns leaves a well-formed store well-formed, whatever the log and the fixtures
  -- hold: at most three entries in each class, and Pool A alone.
  pub run_ingest-IsStore :
      (m : Memory) (after : Memory × Counts)
      → IsStore m.store
      → run_ingest newline dump parse load_ledger state_hash m ≡ ok after
      → IsStore after.0.store
  unfolding run_ingest
  run_ingest-IsStore m after s h =
      let Good : Memory × Counts → Type 0 = λ r. IsStore r.0.store in
      Ensures-ok Good _
        (>>=-Ensures Good (events_with_offsets parse m.consumed m.log) _ (λ events e.
          >>=-Ensures Good (collect load_ledger events _) _ (λ b k. settle-IsStore m b s)))
        h

  -- What an ingest leaves: the consumed offset is the number of lines that the log had, and the log
  -- has one more event.
  record Settled (m : Memory) (after : Memory) : Type 0 where
    pub event : Event
    pub is_ingest : decision_of event.body ≡ none
    pub log_after : after.log ≡ (append_event newline dump event m.log).1
    pub consumed_after : after.consumed ≡ line_count m.log

  settle-Settled :
      (m : Memory) (b : Batch)
      → Ensures
          (λ (r : Memory × Counts). Settled m r.0)
          (settle newline dump parse load_ledger state_hash m b)
  unfolding settle
  settle-Settled m b =
      >>=-Ensures (λ (r : Memory × Counts). Settled m r.0) (add_all b.pending m.store) _
        (λ stored h. record {
          event =
              ingest_event newline dump parse load_ledger state_hash (line_count m.log)
                (length b.pending) stored.1 stored.0;
          is_ingest = refl;
          log_after = refl;
          consumed_after = refl;
        })

  -- An ingest that reads one event, which is no human decision.
  quiet-ingest :
      (m : Memory) (n : ℕ) (e : Event)
      → events_with_offsets parse m.consumed m.log ≡ ok ((n, e) ∷ [])
      → decision_of e.body ≡ none
      → (again : Memory) × (run_ingest newline dump parse load_ledger state_hash m
          ≡ ok (again, record { added = 0; evicted = 0; refused_pool_b = 0; skipped_decline = 0 }))
        × (again.store ≡ m.store)
  unfolding run_ingest collect settle add_all
  quiet-ingest m n e h k = (
    record {
      log =
          (append_event newline dump
            (ingest_event newline dump parse load_ledger state_hash (line_count m.log) 0 0 m.store)
            m.log).1;
      store = m.store;
      consumed = line_count m.log;
    },
    rw (h, k),
    refl,
  )

  -- A second ingest right after one that returned also returns, adds and evicts nothing, counts
  -- nothing, and leaves the store as it was: whatever lines the log held, however it ended, but
  -- without carriage returns in it. The printed events have no newline and no carriage return and are
  -- not blank, and one that is no human decision parses as one that is none.
  pub run_ingest-twice :
      (m : Memory) (after : Memory × Counts)
      → is_newline newline ≡ true
      → ((e : Event) → all (λ c. not (is_newline c)) (dump e) ≡ true)
      → ((e : Event) → plain (dump e) ≡ true)
      → plain m.log ≡ true
      → ((e : Event) → is_empty (strip (dump e)) ≡ false)
      → ((e : Event)
          → decision_of e.body ≡ none
          → (parsed : Event) × (parse (strip (dump e)) ≡ ok parsed)
            × (decision_of parsed.body ≡ none))
      → run_ingest newline dump parse load_ledger state_hash m ≡ ok after
      → (again : Memory) × (run_ingest newline dump parse load_ledger state_hash after.0
          ≡ ok (again, record { added = 0; evicted = 0; refused_pool_b = 0; skipped_decline = 0 }))
        × (again.store ≡ after.0.store)
  unfolding run_ingest
  run_ingest-twice m after nl one_line one_text plain_log text kind h =
      let Good : Memory × Counts → Type 0 = λ r. Settled m r.0 in
      let done : Settled m after.0 =
        Ensures-ok Good _
          (>>=-Ensures Good (events_with_offsets parse m.consumed m.log) _ (λ events e.
            >>=-Ensures Good (collect load_ledger events _) _ (λ b k. settle-Settled m b)))
          h in
      let (parsed, back, plain) = kind done.event done.is_ingest in
      let (all_lines, offset, count) =
        append_event-lines newline dump done.event m.log nl (one_line done.event) in
      let at_end = done.consumed_after ∙ line_count-eq m.log in
      let old = events_from-before parse after.0.consumed 0 (lines m.log) (omega (arith, at_end)) in
      let read =
        read-append_event parse after.0.consumed newline dump done.event parsed m.log [] nl
          (one_line done.event) (one_text done.event) plain_log (text done.event) back
          (omega (arith, at_end, offset))
          (events_with_offsets-eq parse after.0.consumed m.log plain_log ∙ old) in
      quiet-ingest after.0 (append_event newline dump done.event m.log).0 parsed
        (ap (events_with_offsets parse after.0.consumed) done.log_after ∙ read) plain
