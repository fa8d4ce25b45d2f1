-- ===== src/Contracts/Events.antt =====
-- The events of balancecheck/contracts/models.py, one constructor for each `event_type`. The clock
-- fields `ts` and `decided_at` are left out: no code but the log's own lines carries them.
use max_ed.Base.{ℕ, String, List, Bool}
use max_ed.Base.Int.{ℤ}
use max_ed.Contracts.Claims.{Claim, GateDecision, HumanAction, GapCategory, GateAction}
use max_ed.Contracts.JsonValues.{Fields}
use max_ed.Contracts.Records.{Pool, Signature}

-- The literal types of `GenerationEvent.generation_mode`, `CapabilityGapEvent.resolvable_by` and
-- `ScoreEvent.stage`.
pub data GenerationMode : Type 0 where
  prompt_initial prompt_revision agentic_recovery : GenerationMode

pub data Resolver : Type 0 where
  human tool records nobody : Resolver

pub data Stage : Type 0 where
  first_pass final : Stage

-- The weight is 2.0 or 1.0 in the source: a whole number here.
pub record MemoryEntry : Type 0 where
  pub entry_id : String
  pub source_gen_id : String
  pub scenario_id : String
  pub pool : Pool
  pub signature : Signature
  pub weight : ℕ
  pub final_text : String
  pub human_action : HumanAction
  pub note : String
  pub ingested_offset : ℕ

pub record RunStartEvent : Type 0 where
  pub pass_label : String
  pub seed : ℤ
  pub git_sha : String
  pub model_name : String
  pub model_digest : String
  pub config_hash : String
  pub pool : String
  pub memory_state_hash : String

pub record GenerationEvent : Type 0 where
  pub gen_id : String
  pub scenario_id : String
  pub pool : Pool
  pub pass_label : String
  pub ledger_ref : String
  pub prompt_sha : String
  pub draft : String
  pub revision_index : ℕ
  pub is_first_pass : Bool
  pub generation_mode : GenerationMode

pub record VerificationEvent : Type 0 where
  pub gen_id : String
  pub claims : List Claim
  pub decision : GateDecision

-- `pool` is free text here: the ingest tests it.
pub record HumanDecisionEvent : Type 0 where
  pub gen_id : String
  pub scenario_id : String
  pub pool : String
  pub action : HumanAction
  pub final_text : String
  pub reason : String

pub record CapabilityGapEvent : Type 0 where
  pub gen_id : String
  pub scenario_id : String
  pub missing : GapCategory
  pub detail : String
  pub would_need : String
  pub resolvable_by : Resolver

pub record IngestEvent : Type 0 where
  pub consumed_through_offset : ℕ
  pub entries_added : ℕ
  pub entries_evicted : ℕ
  pub memory_state_hash : String

pub record ScoreEvent : Type 0 where
  pub gen_id : String
  pub scenario_id : String
  pub pass_label : String
  pub stage : Stage
  pub grounding_checked : ℕ
  pub grounding_total : ℕ
  pub completeness_present : ℕ
  pub completeness_total : ℕ
  pub revision_count : ℕ
  pub terminal_action : GateAction

pub record JudgmentEvent : Type 0 where
  pub gen_id : String
  pub pair_id : String
  pub mode : String
  pub ordering : String
  pub scores : Fields
  pub verdict : String
  pub prompt_sha : String
  pub parse_ok : Bool
  pub judge_model : String

pub record ToolCallEvent : Type 0 where
  pub gen_id : String
  pub revision_index : ℕ
  pub round_index : ℤ
  pub call_index : ℕ
  pub tool_name : String
  pub arguments : Fields
  pub result : Fields
  pub succeeded : Bool
  pub error : String

pub record TraceEvent : Type 0 where
  pub task : String
  pub prompt_sha : String
  pub prompt : String
  pub output : String
  pub model_name : String
  pub attempt : ℕ
  pub succeeded : Bool
  pub error : String
  pub meta : Fields

pub data EventBody : Type 0 where
  run_start : RunStartEvent → EventBody
  generation : GenerationEvent → EventBody
  verification : VerificationEvent → EventBody
  human_decision : HumanDecisionEvent → EventBody
  capability_gap : CapabilityGapEvent → EventBody
  ingest : IngestEvent → EventBody
  score : ScoreEvent → EventBody
  judgment : JudgmentEvent → EventBody
  tool_call : ToolCallEvent → EventBody
  trace : TraceEvent → EventBody

-- `EventBase`: each event carries its run.
pub record Event : Type 0 where
  pub run_id : String
  pub body : EventBody
