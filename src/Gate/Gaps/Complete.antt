-- ===== src/Gate/Gaps/Complete.antt =====
-- No terminal failure is without a gap, and the fold of the gaps loses none.
use max_ed.Base.{
  String, ◌≡◌, refl, sym, ap, ◌∙◌, ◌≢◌, ◌↔◌, ◌⊎◌, inl, inr, Bool, true, false, Option, none, some,
  List, [], ◌∷◌, ◌++◌, map, str_eq, eq_iff, if◌then◌else◌, filter, or_text, Dict, lookup, get_or,
  lookup-insert,
}
use max_ed.Contracts.{
  Ledger, GateAction, revise, abstain, escalate, human_gate, GapCategory, allocation_reference,
  remittance_advice, document_absent, ambiguous_reference, unverifiable_quant, tool_absent, other,
  GateDecision, Resolver, human, tool, CapabilityGapEvent,
}
use max_ed.Gate.{
  reason_fabricated, reason_unverifiable, reason_cannot_determine, would_resolve_cannot_determine,
}
use mathlib.Core.List.{append-nil, append_assoc}
use max_ed.Gate.Gaps.{
  derive_gap, category_value, append_at, aggregate_onto, aggregate_gaps, escalation_gap, gap_event,
}

-- The event that a decision has, where it has one.
abbrev pub NamesGap : GateDecision → Ledger → String → Option CapabilityGapEvent → Type 0
NamesGap d l g none = (d.action ≡ revise) ⊎ (d.action ≡ human_gate)
NamesGap d l g (some e) =
    ((d.action ≡ abstain) ⊎ (d.action ≡ escalate))
    × (e.gen_id ≡ g)
    × (e.scenario_id ≡ l.scenario_id)
    × (e.detail ≡ or_text d.payload d.reason)
    × ((e.missing ≡ allocation_reference) ↔ (d.action ≡ abstain))

-- A gap of an escalation: it tells the decision and does not blame the allocation.
record Tells (d : GateDecision) (l : Ledger) (g : String) (e : CapabilityGapEvent) : Type 0 where
  told : (e.gen_id ≡ g) × (e.scenario_id ≡ l.scenario_id) × (e.detail ≡ or_text d.payload d.reason)
  blame : e.missing ≢ allocation_reference

abbrev is_allocation : GapCategory → Bool
is_allocation allocation_reference = true
is_allocation remittance_advice = false
is_allocation document_absent = false
is_allocation ambiguous_reference = false
is_allocation unverifiable_quant = false
is_allocation tool_absent = false
is_allocation other = false

not_allocation : (c : GapCategory) → is_allocation c ≡ false → c ≢ allocation_reference
not_allocation c h e = cc

module _ (d : GateDecision) (l : Ledger) (g : String) where
  if-Tells :
      (b : Bool) {x y : CapabilityGapEvent}
      → Tells d l g x
      → Tells d l g y
      → Tells d l g (if b then x else y)
  if-Tells true h k = h
  if-Tells false h k = k

  gap_event-Tells :
      (c : GapCategory) (need : String) (by_whom : Resolver)
      → is_allocation c ≡ false
      → Tells d l g (gap_event g l.scenario_id c (or_text d.payload d.reason) need by_whom)
  gap_event-Tells c need by_whom h = record {
    told = (refl, refl, refl);
    blame = not_allocation c h;
  }

  escalation_gap-Tells : Tells d l g (escalation_gap d l g)
  unfolding escalation_gap
  escalation_gap-Tells =
      if-Tells (str_eq d.reason reason_unverifiable)
        (gap_event-Tells unverifiable_quant "a claim normalizer for non-canonical amount phrasing"
          tool refl)
        (if-Tells (str_eq d.reason reason_cannot_determine)
          (gap_event-Tells ambiguous_reference would_resolve_cannot_determine human refl)
          (if-Tells (str_eq d.reason reason_fabricated)
            (gap_event-Tells document_absent "drafter constrained to the document set" tool refl)
            (gap_event-Tells other "human review of a draft the loop could not converge" human
              refl)))

-- A decision has a capability gap exactly when it abstains or escalates, whatever its reason: the
-- gap names the generation and the scenario, tells the payload or else the reason, and blames the
-- allocation exactly when the decision abstains.
pub derive_gap-NamesGap :
    (d : GateDecision) (l : Ledger) (g : String) → NamesGap d l g (derive_gap d l g)
unfolding derive_gap
derive_gap-NamesGap d l g = go d.action refl
  where
    go :
        (a : GateAction)
        → d.action ≡ a
        → NamesGap d l g (elim a [
          | human_gate ↦ none
          | revise ↦ none
          | abstain ↦ some (
              gap_event g l.scenario_id allocation_reference
                (or_text d.payload d.reason)
                "remittance advice tying the payment to an invoice"
                human)
          | escalate ↦ some (escalation_gap d l g)
        ])
    go revise h = inl h
    go human_gate h = inr h
    go abstain h = (inl h, refl, refl, refl, (λ e. h, λ e. refl))
    go escalate h =
        let told = escalation_gap-Tells d l g in
        (inr h, told.told.0, told.told.1, told.told.2, ((λ e. absurd (told.blame e)), (λ e. cc)))

-- The gap events of one category.
abbrev in_category : String → List CapabilityGapEvent → List String
in_category k es =
    map (λ (e : CapabilityGapEvent). e.gen_id)
      (filter (λ (e : CapabilityGapEvent). str_eq (category_value e.missing) k) es)

get_or-append_at :
    (k j g : String) (d : Dict (List String))
    → get_or j [] (append_at k g d)
      ≡ (if str_eq k j then get_or j [] d ++ (g ∷ []) else get_or j [] d)
get_or-append_at k j g d =
    ap (λ (o : Option (List String)). elim o [ none ↦ [] | some w ↦ w ])
      (lookup-insert k j (get_or k [] d ++ (g ∷ [])) d)
    ∙ go (str_eq k j) refl
  where
    go :
        (b : Bool)
        → str_eq k j ≡ b
        → (elim (if b then some (get_or k [] d ++ (g ∷ [])) else lookup j d) [
          | none ↦ []
          | some w ↦ w
        ])
          ≡ (if b then get_or j [] d ++ (g ∷ []) else get_or j [] d)
    go true e = ap (λ x. get_or x [] d ++ (g ∷ [])) ((eq_iff k j).0 e)
    go false e = refl

aggregate_onto_lem :
    (j : String) (es : List CapabilityGapEvent) (d : Dict (List String))
    → get_or j [] (aggregate_onto d es) ≡ get_or j [] d ++ in_category j es
unfolding aggregate_onto
aggregate_onto_lem j [] d = sym (append-nil _)
aggregate_onto_lem j (e ∷ es) d =
    aggregate_onto_lem j es (append_at (category_value e.missing) e.gen_id d)
    ∙ ap (λ xs. xs ++ in_category j es) (get_or-append_at (category_value e.missing) j e.gen_id d)
    ∙ step (str_eq (category_value e.missing) j)
  where
    step :
        (b : Bool)
        → (if b then get_or j [] d ++ (e.gen_id ∷ []) else get_or j [] d) ++ in_category j es
          ≡ get_or j [] d
            ++ map
                (λ (e : CapabilityGapEvent). e.gen_id)
                (if b
                  then e
                    ∷ filter (λ (e : CapabilityGapEvent). str_eq (category_value e.missing) j) es
                  else filter (λ (e : CapabilityGapEvent). str_eq (category_value e.missing) j) es)
    step true = append_assoc (get_or j [] d) (e.gen_id ∷ []) (in_category j es)
    step false = refl

-- The fold has, under each category, the generations of the events of that category, in their order:
-- none is lost, doubled or put elsewhere.
pub aggregate_gaps_complete :
    (k : String) (es : List CapabilityGapEvent)
    → get_or k [] (aggregate_gaps es)
      ≡ map
          (λ (e : CapabilityGapEvent). e.gen_id)
          (filter (λ (e : CapabilityGapEvent). str_eq (category_value e.missing) k) es)
unfolding aggregate_gaps
aggregate_gaps_complete k es = aggregate_onto_lem k es []
