-- ===== src/Gate/Matrix.antt =====
-- The decision matrix and `decide` of gate/policy.py. The extractor that the completeness row reads
-- the draft with is an argument, as in the scorer.
use max_ed.Base.{
  ℕ, String, Bool, true, false, not, ◌&&◌, ◌||◌, none, some, List, [], ◌∷◌, map, ltb, if◌then◌else◌,
  is_some, any, filter, is_empty, concat, join, is_blank, contains, Result, ok, ◌>>=◌,
}
use max_ed.Contracts.{
  Ledger, fail, unsupported, cannot_determine, unverifiable, GateAction, revise, abstain, escalate,
  human_gate, Claim, Finding, GateDecision,
}
use max_ed.Base.Int.{ℤ, pos, eqb_ℤ}
use max_ed.Derive.{net_balance}
use max_ed.Gate.{
  revision_budget, fuzzy_revision_budget, reason_fabricated, reason_unverifiable,
  reason_correctable, reason_budget_exhausted, reason_unsupported, reason_unsupported_exhausted,
  reason_cannot_determine, reason_all_pass, reason_loop, reason_incomplete, reason_itemization,
  would_resolve_cannot_determine, status_of, has_status, is_fuzzy, is_existence, code_fail_kind,
  detail_or, correction_line, build_correction, claim_finding, draft_finding, gate_decision,
  ambiguity_decision,
}
use max_ed.Gate.Itemization.{itemization_inconsistency}
use max_ed.Money.{render}
use max_ed.Score.{Item, cites_net, completeness_items}

-- The five lists that the matrix reads off the claims.
unfoldable pub exist_fails : List Claim → List Claim
exist_fails = filter (λ c. is_existence c.claim_type && has_status fail c)

unfoldable pub unverifiable_claims : List Claim → List Claim
unverifiable_claims = filter (λ c. has_status unverifiable c || not (is_some (status_of c)))

unfoldable pub code_fails : List Claim → List Claim
code_fails = filter (λ c. is_some (code_fail_kind c.claim_type) && has_status fail c)

unfoldable pub fuzzy_unsupported : List Claim → List Claim
fuzzy_unsupported = filter (λ c. is_fuzzy c.claim_type && has_status unsupported c)

unfoldable pub fuzzy_cannot : List Claim → List Claim
fuzzy_cannot = filter (λ c. is_fuzzy c.claim_type && has_status cannot_determine c)

-- The findings of a row, each with its detail and no correction.
abbrev row_findings : String → String → List Claim → List Finding
row_findings kind text cs = map (λ (c : Claim). claim_finding kind c (detail_or text c) "") cs

-- Row 1.
unfoldable pub fabricated_row : List Claim → GateDecision
fabricated_row cs =
    gate_decision escalate reason_fabricated (row_findings "c_exist_fail" "" cs)
      (join "; " (map (λ (c : Claim). concat (c.span ∷ " [" ∷ c.token ∷ "]" ∷ [])) cs))

-- Row 2.
unfoldable pub unverifiable_row : List Claim → GateDecision
unverifiable_row cs =
    gate_decision escalate reason_unverifiable
      (row_findings "unverifiable_quant" "claim was never checked" cs)
      (join "; " (map (λ (c : Claim). c.span) cs))

-- Row 3.
unfoldable pub correctable_row : ℕ → List Claim → GateDecision
correctable_row revision_index cs =
    let findings =
      map
        (λ (c : Claim).
          claim_finding (elim (code_fail_kind c.claim_type) [ none ↦ "" | some kind ↦ kind ]) c
            (detail_or "" c) (correction_line c))
        cs in
    if ltb revision_index revision_budget
    then gate_decision revise reason_correctable findings (build_correction cs)
    else gate_decision escalate reason_budget_exhausted findings (build_correction cs)

-- Row 4.
unfoldable pub unsupported_row : ℕ → List Claim → GateDecision
unsupported_row revision_index cs =
    let findings =
      map (λ (c : Claim). claim_finding "fuzzy_unsupported" c (detail_or "" c) (correction_line c))
        cs in
    let payload = join "; " (map (λ (c : Claim). c.span) cs) in
    if ltb revision_index fuzzy_revision_budget
    then gate_decision revise reason_unsupported findings payload
    else gate_decision escalate reason_unsupported_exhausted findings payload

-- Row 5.
unfoldable pub cannot_determine_row : List Claim → GateDecision
cannot_determine_row cs =
    gate_decision escalate reason_cannot_determine (row_findings "fuzzy_cannot_determine" "" cs) (
      join "; " (
        map
          (λ (c : Claim).
            concat (c.span ∷ " | would resolve: " ∷ would_resolve_cannot_determine ∷ []))
          cs))

-- Row 7, on an inconsistency.
unfoldable pub itemization_row : ℕ → Finding → GateDecision
itemization_row revision_index f =
    if ltb revision_index revision_budget
    then gate_decision revise reason_itemization (f ∷ []) f.correction
    else gate_decision escalate reason_itemization (f ∷ []) f.detail

-- Row 8, on the missing items and their hints.
unfoldable pub incomplete_row : ℕ → List (String × String) → GateDecision
incomplete_row revision_index missing =
    let findings =
      map
        (λ (m : String × String).
          draft_finding (concat ("missing_" ∷ m.0 ∷ []))
            (concat ("required content absent: " ∷ m.0 ∷ [])) m.1)
        missing in
    if ltb revision_index revision_budget
    then gate_decision revise reason_incomplete findings
        (join " " (map (λ (f : Finding). f.correction) findings))
    else gate_decision escalate reason_incomplete findings
        (join "; " (map (λ (f : Finding). f.detail) findings))

-- Row 9.
unfoldable pub all_pass_row : GateDecision
all_pass_row = gate_decision human_gate reason_all_pass [] ""

-- Without a draft, the completeness row asks for a passing claim that cites the net balance.
unfoldable pub missing_net : List Claim → ℤ → List (String × String)
missing_net claims net =
    if not (eqb_ℤ net (pos 0)) && not (any cites_net claims)
    then (
      "net_balance_stated",
      concat (
          "The draft never states the balance due. The ledger computes "
          ∷ render net
          ∷ "; state it exactly once as the balance due."
          ∷ []),
    )
      ∷ []
    else []

-- `_repeats_earlier_hash`
abbrev last_of : String → List String → String
last_of h [] = h
last_of h (k ∷ ks) = last_of k ks

abbrev but_last : String → List String → List String
but_last h [] = []
but_last h (k ∷ ks) = h ∷ but_last k ks

unfoldable pub repeats_earlier_hash : List String → Bool
repeats_earlier_hash [] = false
repeats_earlier_hash (h ∷ hs) = contains (last_of h hs) (but_last h hs)

abbrev pub is_revise : GateAction → Bool
is_revise revise = true
is_revise abstain = false
is_revise escalate = false
is_revise human_gate = false

-- `draft_hashes[-1]`
abbrev pub looped : List String → String
looped [] = ""
looped (h ∷ hs) = last_of h hs

-- The conversion at the end of `decide`.
unfoldable pub guard_loop : List String → GateDecision → GateDecision
guard_loop hashes d =
    if is_revise d.action && repeats_earlier_hash hashes
    then gate_decision escalate reason_loop d.findings (looped hashes)
    else d

module _ (extract : String → Ledger → Result (List Claim)) where
  unfoldable pub missing_completeness :
      List Claim → Ledger → String → Result (List (String × String))
  unfolding missing_net
  missing_completeness claims l draft =
      if not (is_blank draft)
      then (completeness_items extract draft l >>= λ items. ok (
          map (λ (i : Item). (i.name, i.hint))
            (filter (λ (i : Item). i.applicable && not i.present) items)))
      else (net_balance l >>= λ net. ok (missing_net claims net))

  -- Rows 8 and 9.
  unfoldable pub completeness_rows : List Claim → Ledger → ℕ → String → Result GateDecision
  unfolding missing_completeness incomplete_row all_pass_row
  completeness_rows claims l revision_index draft =
      missing_completeness claims l draft >>= λ missing.
      ok (if not (is_empty missing) then incomplete_row revision_index missing else all_pass_row)

  -- Rows 6 to 9.
  unfoldable pub draft_rows : List Claim → Ledger → ℕ → String → Result GateDecision
  unfolding completeness_rows itemization_row
  draft_rows claims l revision_index draft = ambiguity_decision l >>= λ ambiguity. elim ambiguity [
    | some d ↦ ok d
    | none ↦ itemization_inconsistency claims l >>= λ inconsistency. elim inconsistency [
      | some f ↦ ok (itemization_row revision_index f)
      | none ↦ completeness_rows claims l revision_index draft
    ]
  ]

  unfoldable pub match_matrix : List Claim → Ledger → ℕ → String → Result GateDecision
  unfolding exist_fails unverifiable_claims code_fails fuzzy_unsupported fuzzy_cannot fabricated_row
      unverifiable_row correctable_row unsupported_row cannot_determine_row draft_rows
  match_matrix claims l revision_index draft =
      if not (is_empty (exist_fails claims))
      then ok (fabricated_row (exist_fails claims))
      else if not (is_empty (unverifiable_claims claims))
      then ok (unverifiable_row (unverifiable_claims claims))
      else if not (is_empty (code_fails claims))
      then ok (correctable_row revision_index (code_fails claims))
      else if not (is_empty (fuzzy_unsupported claims))
      then ok (unsupported_row revision_index (fuzzy_unsupported claims))
      else if not (is_empty (fuzzy_cannot claims))
      then ok (cannot_determine_row (fuzzy_cannot claims))
      else draft_rows claims l revision_index draft

  unfoldable pub decide : List Claim → Ledger → ℕ → List String → String → Result GateDecision
  unfolding match_matrix guard_loop
  decide claims l revision_index draft_hashes draft =
      match_matrix claims l revision_index draft >>= λ decision.
      ok (guard_loop draft_hashes decision)
