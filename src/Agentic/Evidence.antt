-- ===== src/Agentic/Evidence.antt =====
-- The required evidence of balancecheck/drafting/agentic.py in the log of a session: where no label is
-- missing, each required call has a logged tool call that succeeded and covers it.
use max_ed.Base.{
  ◌≡◌, inl, inr, true, List, [], ◌∷◌, arith, Bool-cases, is_empty, All, Any, Any-map, Any-All,
  Any-elim,
}
use max_ed.Contracts.{ToolCallEvent, tool_call, Event}
use max_ed.Agentic.{Recovery, RequiredCall, Success, covers, satisfied}
use max_ed.Agentic.Budget.{Supports, IsSession}
use max_ed.Agentic.Loop.{missing_labels}
use max_ed.Agentic.Session.{Session}
use max_ed.Json.{Python}

-- The log holds a tool call that succeeded and covers the requirement.
abbrev pub Evidence : Python → RequiredCall → Event → Type 0
Evidence py req e =
    (t : ToolCallEvent) × (e.body ≡ tool_call t)
    × (t.succeeded ≡ true)
    × (covers py req (t.tool_name, t.arguments) ≡ true)

abbrev pub Evidenced : Python → List RequiredCall → List Event → Type 0
Evidenced py required log = All (λ req. Any (Evidence py req) log) required

satisfied-Any :
    (py : Python) (req : RequiredCall) (ss : List Success)
    → satisfied py req ss ≡ true
    → Any (λ success. covers py req success ≡ true) ss
unfolding satisfied
satisfied-Any py req [] h = cc
satisfied-Any py req (success ∷ ss) h = elim (Bool-cases (covers py req success)) [
  | inl e ↦ inl e
  | inr e ↦ inr (satisfied-Any py req ss (rw e at h))
]

covered-Evidence :
    (py : Python) (req : RequiredCall) (log : List Event) (success : Success)
    → covers py req success ≡ true
    → Any (Supports success) log
    → Any (Evidence py req) log
covered-Evidence py req log (name, args) c a =
    Any-map (Supports (name, args)) (Evidence py req) log
      (λ e (t, body, named, given, good). (t, body, good, rw (named, given) c)) a

module _ (r : Recovery) where
  -- With no label missing, every requirement has its evidence.
  pub missing_labels-Evidenced :
      (required : List RequiredCall) (s : Session)
      → IsSession r s
      → is_empty (missing_labels r required s) ≡ true
      → Evidenced r.python required s.log
  unfolding missing_labels
  missing_labels-Evidenced [] s h e = tt
  missing_labels-Evidenced (req ∷ required) s h e =
      elim (Bool-cases (satisfied r.python req s.successes)) [
        | inr lacking ↦ ground arith
        | inl found ↦ (
          Any-elim (λ success. (covers r.python req success ≡ true) × Any (Supports success) s.log)
              s.successes (λ success (c, a). covered-Evidence r.python req s.log success c a)
              (Any-All _ _ _ s.successes (λ success c a. (c, a))
                (satisfied-Any r.python req s.successes found) h.supported),
          missing_labels-Evidenced required s h (ground arith),
        )
      ]
