-- ===== src/Runner/Loop.antt =====
-- `run_scenario` of runner.py.
use max_ed.Base.{
  ℕ, zero, suc, ◌+◌, String, Option, none, some, List, [], ◌∷◌, ◌++◌, ◌==◌, if◌then◌else◌, concat,
  is_blank, runtime_error, Result, ok, raise, ◌>>=◌,
}
use max_ed.Contracts.{
  Ledger, GateAction, escalate, Claim, GateDecision, GenerationMode, prompt_initial,
  prompt_revision, agentic_recovery, Stage, first_pass, final, MemoryEntry, EventBody, generation,
  verification, capability_gap, score, Event,
}
use max_ed.Gate.{gate_decision, precheck_abstain}
use max_ed.Checks.Fuzzy.{Response}
use max_ed.Checks.Registry.{check_all}
use max_ed.Derive.Structures.{signature}
use max_ed.Gate.Gaps.{derive_gap}
use max_ed.Gate.Matrix.{is_revise, decide}
use max_ed.Memory.{retrieve}
use max_ed.Money.{decimal}
use max_ed.Runner.{
  max_revisions, agentic_exhausted, Config, Outcome, Draft, Rounds, Next, again, done,
  failed_subject_ids, generation_mode_of, govern,
}
use max_ed.Score.{build_score_event}

-- `range(n)`, from a first number.
abbrev pub range_from : ℕ → ℕ → List ℕ
range_from first zero = []
range_from first (suc n) = first ∷ range_from (first + 1) n

-- What the scenario is run with.
pub record Setting : Type 0 where
  pub cfg : Config
  pub pass_label : String
  pub run_id : String
  pub memory : Option (List MemoryEntry)
  pub client : ℕ → Claim → Response
  pub extract : String → String → Ledger → Result (List Claim)
  pub sha256 : String → String
  pub ledger_ref : Ledger → String
  pub drafter : List MemoryEntry → ℕ → String → Result Draft
  pub agent : List MemoryEntry → String → ℕ → Rounds → Result (Draft × List Event)

module _ (s : Setting) (l : Ledger) where
  abbrev logged : EventBody → Event
  logged body = record { run_id = s.run_id; body = body }

  abbrev pub gen_id_of : ℕ → String
  gen_id_of rev = concat (s.pass_label ∷ "-" ∷ l.scenario_id ∷ "-r" ∷ decimal rev ∷ [])

  abbrev pub verified : String → List Claim → GateDecision → Event
  verified gen_id claims d =
      logged (verification (record { gen_id = gen_id; claims = claims; decision = d }))

  abbrev gap_events : GateDecision → String → List Event
  gap_events d gen_id = elim (derive_gap d l gen_id) [
    | none ↦ []
    | some gap ↦ logged (capability_gap gap) ∷ []
  ]

  unfoldable pub score_of : String → Stage → List Claim → String → ℕ → GateAction → Result Event
  unfolding build_score_event
  score_of gen_id stage claims draft rev action =
      build_score_event (s.extract "c") gen_id l.scenario_id s.pass_label stage claims draft l rev
        action
      >>= λ e. ok (logged (score e))

  -- `_terminal`
  unfoldable pub terminal :
      String → GateDecision → List Claim → String → ℕ → List Event → Result Next
  unfolding score_of
  terminal gen_id d claims draft rev log = score_of gen_id final claims draft rev d.action >>= λ e.
      ok (
        done
          (record {
            scenario_id = l.scenario_id;
            gen_id = gen_id;
            terminal_action = d.action;
            final_draft = draft;
            revision_count = rev;
            reason = d.reason;
          })
          (log ++ (gap_events d gen_id ++ (e ∷ []))))

  -- The score of the first draft.
  unfoldable pub first_score : ℕ → List Claim → String → GateAction → Result (List Event)
  unfolding score_of
  first_score rev claims draft action =
      if rev == 0
      then (score_of (gen_id_of rev) first_pass claims draft 0 action >>= λ e. ok (e ∷ []))
      else ok []

  -- The end of a round, on the decision that governs.
  unfoldable pub finish : ℕ → Rounds → String → List Claim → List Event → GateDecision → Result Next
  unfolding terminal first_score
  finish rev r draft claims log d = first_score rev claims draft d.action >>= λ scores.
      let log = log ++ (verified (gen_id_of rev) claims d ∷ scores) in
      if is_revise d.action
      then ok (
          again (record r {
            correction = d.payload;
            previous_draft = draft;
            previous_reason = d.reason;
            failed_ids = failed_subject_ids claims;
            log = log;
          }))
      else terminal (gen_id_of rev) d claims draft rev log

  -- The event of a draft.
  abbrev pub generated : ℕ → GenerationMode → Draft → Event
  generated rev mode draft = logged (
      generation (record {
        gen_id = gen_id_of rev;
        scenario_id = l.scenario_id;
        pool = l.pool;
        pass_label = s.pass_label;
        ledger_ref = s.ledger_ref l;
        prompt_sha = draft.prompt_sha;
        draft = draft.text;
        revision_index = rev;
        is_first_pass = rev == 0;
        generation_mode = mode;
      }))

  -- A round on a draft: the log has the draft's own events.
  unfoldable pub verify : ℕ → Rounds → GenerationMode → Draft → List Event → Result Next
  unfolding finish decide check_all
  verify rev r mode draft log =
      let hashes = r.draft_hashes ++ (s.sha256 draft.text ∷ []) in
      s.extract (gen_id_of rev) draft.text l >>= λ fresh.
      check_all (s.client rev) l fresh >>= λ claims.
      decide (s.extract "c") claims l rev hashes draft.text >>= λ d.
      finish rev (record r { draft_hashes = hashes }) draft.text claims
        (log ++ (generated rev mode draft ∷ [])) (govern s.cfg rev r.recoveries d)

  -- The agent gave no draft.
  unfoldable pub exhausted : ℕ → Rounds → List Event → Result Next
  unfolding terminal
  exhausted rev r log =
      let d = gate_decision escalate agentic_exhausted [] r.correction in
      terminal (gen_id_of rev) d [] "" rev (log ++ (verified (gen_id_of rev) [] d ∷ []))

  unfoldable pub recover : List MemoryEntry → ℕ → Rounds → Result Next
  unfolding verify exhausted
  recover exemplars rev r =
      let r = record r { recoveries = r.recoveries + 1 } in
      s.agent exemplars (gen_id_of rev) rev r >>= λ answer.
      if is_blank answer.0.text
      then exhausted rev r (r.log ++ answer.1)
      else verify rev r agentic_recovery answer.0 (r.log ++ answer.1)

  unfoldable pub prompted : List MemoryEntry → ℕ → Rounds → GenerationMode → Result Next
  unfolding verify
  prompted exemplars rev r mode =
      s.drafter exemplars rev r.correction >>= λ draft. verify rev r mode draft r.log

  -- One round of the loop.
  unfoldable pub round : List MemoryEntry → ℕ → Rounds → Result Next
  unfolding recover prompted
  round exemplars rev r = elim (generation_mode_of s.cfg rev r.recoveries) [
    | agentic_recovery ↦ recover exemplars rev r
    | prompt_initial ↦ prompted exemplars rev r prompt_initial
    | prompt_revision ↦ prompted exemplars rev r prompt_revision
  ]

  abbrev pub loop_exceeded : String
  loop_exceeded =
      "revision loop exceeded its budget without a terminal decision; policy.decide must escalate at the budget boundary"

  unfoldable pub run_rounds : List MemoryEntry → List ℕ → Rounds → Result (Outcome × List Event)
  unfolding round
  run_rounds exemplars [] r = raise (runtime_error loop_exceeded)
  run_rounds exemplars (rev ∷ revs) r = round exemplars rev r >>= λ next. elim next [
    | again r' ↦ run_rounds exemplars revs r'
    | done o log ↦ ok (o, log)
  ]

  -- The scenario that is abstained from before drafting.
  unfoldable pub abstained : GateDecision → Result (Outcome × List Event)
  unfolding score_of
  abstained d =
      let gen_id = gen_id_of 0 in
      score_of gen_id first_pass [] "" 0 d.action >>= λ first.
      score_of gen_id final [] "" 0 d.action >>= λ last. ok (
        record {
          scenario_id = l.scenario_id;
          gen_id = gen_id;
          terminal_action = d.action;
          final_draft = "";
          revision_count = 0;
          reason = d.reason;
        },
        verified gen_id [] d ∷ (gap_events d gen_id ++ (first ∷ last ∷ [])),
      )

  unfoldable pub exemplars_of : Result (List MemoryEntry)
  exemplars_of = elim s.memory [
    | none ↦ ok []
    | some es ↦ signature l >>= λ sig. ok (retrieve sig 3 es)
  ]

  abbrev pub no_rounds : Rounds
  no_rounds = record {
    draft_hashes = [];
    correction = "";
    previous_draft = "";
    previous_reason = "";
    failed_ids = [];
    recoveries = 0;
    log = [];
  }

  unfoldable pub run_scenario : Result (Outcome × List Event)
  unfolding run_rounds abstained exemplars_of
  run_scenario = precheck_abstain l >>= λ pre. elim pre [
    | some d ↦ abstained d
    | none ↦ exemplars_of >>= λ exemplars.
        run_rounds exemplars (range_from 0 (max_revisions + 1)) no_rounds
  ]
