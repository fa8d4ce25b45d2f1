-- ===== src/Gate/Gaps.antt =====
-- Capability gaps, gate/gaps.py. The run identifier, which the caller sets, is no field of the event
-- here.
pub mod Complete
use max_ed.Base.{
  String, Option, none, some, List, [], ◌∷◌, ◌++◌, str_eq, if◌then◌else◌, or_text, Dict, get_or,
  insert,
}
use max_ed.Contracts.{
  Ledger, revise, abstain, escalate, human_gate, GapCategory, allocation_reference,
  remittance_advice, document_absent, ambiguous_reference, unverifiable_quant, tool_absent, other,
  GateDecision, Resolver, human, tool, CapabilityGapEvent,
}
use max_ed.Gate.{
  reason_fabricated, reason_unverifiable, reason_cannot_determine, would_resolve_cannot_determine,
}

abbrev pub gap_event :
    String → String → GapCategory → String → String → Resolver → CapabilityGapEvent
gap_event gen_id scenario_id missing detail would_need resolvable_by = record {
  gen_id = gen_id;
  scenario_id = scenario_id;
  missing = missing;
  detail = detail;
  would_need = would_need;
  resolvable_by = resolvable_by;
}

-- The gap of an ESCALATE, by its reason.
unfoldable pub escalation_gap : GateDecision → Ledger → String → CapabilityGapEvent
escalation_gap d l gen_id =
    let detail = or_text d.payload d.reason in
    if str_eq d.reason reason_unverifiable
    then gap_event gen_id l.scenario_id unverifiable_quant detail
        "a claim normalizer for non-canonical amount phrasing" tool
    else if str_eq d.reason reason_cannot_determine
    then gap_event gen_id l.scenario_id ambiguous_reference detail would_resolve_cannot_determine
        human
    else if str_eq d.reason reason_fabricated
    then gap_event gen_id l.scenario_id document_absent detail
        "drafter constrained to the document set" tool
    else gap_event gen_id l.scenario_id other detail
        "human review of a draft the loop could not converge" human

unfoldable pub derive_gap : GateDecision → Ledger → String → Option CapabilityGapEvent
unfolding escalation_gap
derive_gap d l gen_id = elim d.action [
  | human_gate ↦ none
  | revise ↦ none
  | abstain ↦ some (
      gap_event gen_id l.scenario_id allocation_reference (or_text d.payload d.reason)
        "remittance advice tying the payment to an invoice" human)
  | escalate ↦ some (escalation_gap d l gen_id)
]

-- `GapCategory.value`
unfoldable pub category_value : GapCategory → String
category_value allocation_reference = "allocation_reference"
category_value remittance_advice = "remittance_advice"
category_value document_absent = "document_absent"
category_value ambiguous_reference = "ambiguous_reference"
category_value unverifiable_quant = "unverifiable_quantitative_claim"
category_value tool_absent = "tool_absent"
category_value other = "other"

-- `out.setdefault(key, []).append(gen_id)`
abbrev pub append_at : String → String → Dict (List String) → Dict (List String)
append_at k g d = insert k (get_or k [] d ++ (g ∷ [])) d

unfoldable pub aggregate_onto : Dict (List String) → List CapabilityGapEvent → Dict (List String)
unfolding category_value
aggregate_onto out [] = out
aggregate_onto out (e ∷ es) = aggregate_onto (append_at (category_value e.missing) e.gen_id out) es

unfoldable pub aggregate_gaps : List CapabilityGapEvent → Dict (List String)
unfolding aggregate_onto
aggregate_gaps = aggregate_onto []
