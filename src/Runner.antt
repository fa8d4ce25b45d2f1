-- ===== src/Runner.antt =====
-- The loop of runner.py: generate, verify, decide; revise at most twice. The log is the list of the
-- events that are appended. The drafter, the agent and the digest are arguments, and so is the
-- extractor: the drafter is asked with the revision and the correction, the agent with what
-- `generate_agentic_revision` is given of the round before, and it returns the events it logs.
pub mod Loop
pub mod Bounded
pub mod Ending
pub mod Verified
pub mod Assembled
mod Tests
use max_ed.Base.{
  ℕ, String, Bool, not, ◌&&◌, none, some, List, [], ◌∷◌, ◌++◌, ltb, leb, ◌==◌, if◌then◌else◌,
  is_empty, is_blank, contains,
}
use max_ed.Contracts.{
  GateAction, revise, escalate, Claim, GateDecision, GenerationMode, prompt_initial,
  prompt_revision, agentic_recovery, Event,
}
use max_ed.Checks.Fuzzy.{is_pass}
use max_ed.Gate.Matrix.{is_revise}

abbrev pub max_revisions : ℕ
max_revisions = 2

abbrev pub agentic_exhausted : String
agentic_exhausted = "agentic_recovery_exhausted"

-- What the loop reads of the configuration.
pub record Config : Type 0 where
  pub agentic : Bool
  pub max_recoveries : ℕ

pub record Outcome : Type 0 where
  pub scenario_id : String
  pub gen_id : String
  pub terminal_action : GateAction
  pub final_draft : String
  pub revision_count : ℕ
  pub reason : String

-- A draft with the hash of its prompt.
pub record Draft : Type 0 where
  pub text : String
  pub prompt_sha : String

-- What the rounds before leave to the next: the hashes of the drafts, the last correction, draft and
-- reason, the documents of the failed claims, the recoveries, and the log.
pub record Rounds : Type 0 where
  pub draft_hashes : List String
  pub correction : String
  pub previous_draft : String
  pub previous_reason : String
  pub failed_ids : List String
  pub recoveries : ℕ
  pub log : List Event

-- How a round ends.
pub data Next : Type 0 where
  again : Rounds → Next
  done : Outcome → List Event → Next

-- `_failed_subject_ids`
abbrev pub add_new : List String → List String → List String
add_new [] out = out
add_new (k ∷ ks) out =
    add_new ks (if not (is_blank k) && not (contains k out) then out ++ (k ∷ []) else out)

abbrev pub failed_subjects : Claim → List String
failed_subjects c = elim c.check_result [
  | none ↦ []
  | some r ↦
      if is_pass r.status
      then []
      else if not (is_empty c.subject_ids)
      then c.subject_ids
      else if is_blank c.subject_id
      then []
      else c.subject_id ∷ []
]

unfoldable pub failed_from : List String → List Claim → List String
failed_from out [] = out
failed_from out (c ∷ cs) = failed_from (add_new (failed_subjects c) out) cs

unfoldable pub failed_subject_ids : List Claim → List String
unfolding failed_from
failed_subject_ids = failed_from []

-- The mode of a round.
unfoldable pub generation_mode_of : Config → ℕ → ℕ → GenerationMode
generation_mode_of cfg rev recoveries =
    if rev == 0
    then prompt_initial
    else if cfg.agentic && ltb recoveries cfg.max_recoveries
    then agentic_recovery
    else prompt_revision

-- The conversion of a decision to revise once the recoveries are spent.
unfoldable pub govern : Config → ℕ → ℕ → GateDecision → GateDecision
govern cfg rev recoveries d =
    if is_revise d.action && (cfg.agentic && (leb cfg.max_recoveries recoveries && ltb 0 rev))
    then record d { action = escalate; reason = agentic_exhausted }
    else d
