-- ===== src/Runner/Verified.antt =====
-- The whole path of a draft that reaches a person: runner, checks, gate and scorer.
use max_ed.Base.{ℕ, String, ◌≡◌, true, false, List, [], all, All, is_blank, ok}
use max_ed.Contracts.{Ledger, human_gate, Claim, Event}
use max_ed.Derive.Ambiguity.{ambiguous_allocations}
use max_ed.Gate.Release.{Unjudged, gated_marked_verified}
use max_ed.Runner.{Outcome}
use max_ed.Runner.Bounded.{Released}
use max_ed.Runner.Ending.{run_scenario-Ended}
use max_ed.Runner.Loop.{Setting, run_scenario}
use max_ed.Score.{passes, grounding, completeness}

module _ (s : Setting) (l : Ledger) where
  -- The way of the draft of an outcome, and what is true of its claims, as the checks left them.
  pub record Verified (o : Outcome) : Type 0 where
    pub path : Released s l o
    pub all_pass : all passes path.claims ≡ true
    pub unambiguous : ambiguous_allocations l ≡ ok []
    pub grounded : (grounding path.claims).0 ≡ (grounding path.claims).1
    pub complete : (k : ℕ) × (completeness (s.extract "c") o.final_draft l ≡ ok (k, k))

  -- A scenario that returns an outcome for a person, with a draft that is not empty, returns one
  -- whose claims went through the checks and all pass, on a ledger without ambiguous allocations, and
  -- the scorer gives it full marks: whatever the drafter, the agent, the client and the
  -- configuration, for an extractor each of whose claims has no verdict yet or is already marked as
  -- unverifiable.
  pub run_scenario-Verified :
      (o : Outcome) (log : List Event)
      → ((prefix draft : String) (cs : List Claim)
          → s.extract prefix draft l ≡ ok cs
          → All Unjudged cs)
      → run_scenario s l ≡ ok (o, log)
      → o.terminal_action ≡ human_gate
      → is_blank o.final_draft ≡ false
      → Verified o
  run_scenario-Verified o log unjudged run gated text =
      let (bounded, settled, release) = run_scenario-Ended s l o log run in
      let r = release gated in
      let fresh = unjudged r.gen_id o.final_draft r.fresh r.extracted in
      let (good, unambiguous, grounded, complete) =
        gated_marked_verified (s.client o.revision_count) (s.extract "c") l r.fresh r.claims
          o.revision_count r.hashes o.final_draft r.decision fresh r.checked text r.decided
          r.gated in
      record {
        path = r;
        all_pass = good;
        unambiguous = unambiguous;
        grounded = grounded;
        complete = complete;
      }
