-- ===== src/Runner/Ending.antt =====
-- How a scenario ends: in one terminal outcome, or in the exception of a call that raised.
use max_ed.Base.{
  ℕ, ◌≤◌, ◌≡◌, refl, ap, ◌∙◌, ◌≢◌, ◌⊎◌, inl, inr, Option, none, some, List, [], ◌∷◌, arith, All,
  Error, Result, ok, raise, ◌>>=◌, Ensures, Ensures-ok, >>=-Ensures,
}
use max_ed.Contracts.{
  Ledger, GateAction, revise, abstain, human_gate, GateDecision, first_pass, final, MemoryEntry,
  Event,
}
use max_ed.Gate.{ambiguity_decision, precheck_abstain}
use max_ed.Runner.{Outcome, Rounds, Next, again, done}
use max_ed.Runner.Bounded.{Released, Ends, round-Ends}
use max_ed.Gate.Safety.{ambiguity_decision-abstain}
use max_ed.Runner.Loop.{
  Setting, round, run_rounds, abstained, exemplars_of, no_rounds, run_scenario, gen_id_of, score_of,
}

module _ (s : Setting) (l : Ledger) where
  -- An outcome that is terminal, within two revisions.
  abbrev pub Ended : Outcome × List Event → Type 0
  Ended r =
      (r.0.revision_count ≤ 2)
      × (r.0.terminal_action ≢ revise)
      × (r.0.terminal_action ≡ human_gate → Released s l r.0)

  run_rounds-Ended :
      (exemplars : List MemoryEntry) (revs : List ℕ) (r : Rounds)
      → All (λ rev. rev ≤ 2) revs
      → Ensures Ended (run_rounds s l exemplars revs r)
  unfolding run_rounds
  run_rounds-Ended exemplars [] r h = tt
  run_rounds-Ended exemplars (rev ∷ revs) r h =
      >>=-Ensures Ended (round s l exemplars rev r) _ (λ next e.
        go next
          (Ensures-ok (Ends s l rev) (round s l exemplars rev r) (round-Ends s l exemplars rev r) e)
          (λ r'. run_rounds-Ended exemplars revs r' h.1) h.0)
    where
      go :
          (next : Next)
          → Ends s l rev next
          → ((r' : Rounds) → Ensures Ended (run_rounds s l exemplars revs r'))
          → rev ≤ 2
          → Ensures Ended
              (elim next [ again r' ↦ run_rounds s l exemplars revs r' | done o log ↦ ok (o, log) ])
      go (again r') t ih k = ih r'
      go (done o log) t ih k = (omega (arith, t.at_revision, k), t.settled, t.released)

  -- The last round is the one that may not ask for another.
  abbrev Closing : List ℕ → Type 0
  Closing [] = ⊥
  Closing (rev ∷ revs) = elim revs [ [] ↦ 2 ≤ rev | next ∷ rest ↦ Closing revs ]

  -- Some round raised it.
  abbrev pub RoundRaises : Error → Type 0
  RoundRaises e =
      (exemplars : List MemoryEntry) × (rev : ℕ) × (r : Rounds) × (round s l exemplars rev r
        ≡ raise e)

  run_rounds-raise :
      (exemplars : List MemoryEntry) (revs : List ℕ) (r : Rounds) (e : Error)
      → Closing revs
      → run_rounds s l exemplars revs r ≡ raise e
      → RoundRaises e
  unfolding run_rounds
  run_rounds-raise exemplars [] r e c h = absurd c
  run_rounds-raise exemplars (rev ∷ []) r e c h =
      go (round s l exemplars rev r) refl
        (λ next k.
          Ensures-ok (Ends s l rev) (round s l exemplars rev r) (round-Ends s l exemplars rev r) k)
        h
    where
      go :
          (m : Result Next)
          → round s l exemplars rev r ≡ m
          → ((next : Next) → round s l exemplars rev r ≡ ok next → Ends s l rev next)
          → (m >>= λ next. elim next [
            | again r' ↦ run_rounds s l exemplars [] r'
            | done o log ↦ ok (o, log)
          ])
            ≡ raise e
          → RoundRaises e
      go (raise x) k ends h = let same : x ≡ e = cc in (exemplars, rev, r, k ∙ ap raise same)
      go (ok (done o log)) k ends h = cc
      go (ok (again r')) k ends h = absurd (omega (arith, ends (again r') k, c))
  run_rounds-raise exemplars (rev ∷ later ∷ revs) r e c h =
      go (round s l exemplars rev r) refl
        (λ r' k. run_rounds-raise exemplars (later ∷ revs) r' e c k) h
    where
      go :
          (m : Result Next)
          → round s l exemplars rev r ≡ m
          → ((r' : Rounds) → run_rounds s l exemplars (later ∷ revs) r' ≡ raise e → RoundRaises e)
          → (m >>= λ next. elim next [
            | again r' ↦ run_rounds s l exemplars (later ∷ revs) r'
            | done o log ↦ ok (o, log)
          ])
            ≡ raise e
          → RoundRaises e
      go (raise x) k ih h = let same : x ≡ e = cc in (exemplars, rev, r, k ∙ ap raise same)
      go (ok (done o log)) k ih h = cc
      go (ok (again r')) k ih h = ih r' h

  abstain_settled : (a : GateAction) → a ≡ abstain → a ≢ revise
  abstain_settled a h e = cc

  abstain_ungated : (a : GateAction) → a ≡ abstain → a ≢ human_gate
  abstain_ungated a h e = cc

  abstained-Ended : (d : GateDecision) → d.action ≡ abstain → Ensures Ended (abstained s l d)
  unfolding abstained
  abstained-Ended d h =
      >>=-Ensures Ended (score_of s l (gen_id_of s l 0) first_pass [] "" 0 d.action) _ (λ first e.
        >>=-Ensures Ended (score_of s l (gen_id_of s l 0) final [] "" 0 d.action) _ (λ last k.
          (omega arith, abstain_settled d.action h, λ g. absurd (abstain_ungated d.action h g))))

  -- A scenario that returns ends in one outcome after at most two revisions, and its action is not to
  -- revise. Where the outcome is handed to a person, its draft's claims went through the checks and
  -- the gate decided so on them: whatever the drafter, the agent, the client, the extractor, the
  -- memory and the configuration.
  pub run_scenario-Ended :
      (o : Outcome) (log : List Event) → run_scenario s l ≡ ok (o, log) → Ended (o, log)
  unfolding run_scenario precheck_abstain
  run_scenario-Ended o log h = Ensures-ok Ended _ (>>=-Ensures Ended (ambiguity_decision l) _ go) h
    where
      go :
          (pre : Option GateDecision)
          → ambiguity_decision l ≡ ok pre
          → Ensures Ended (elim pre [
            | some d ↦ abstained s l d
            | none ↦ exemplars_of s l >>= λ exemplars.
                run_rounds s l exemplars (0 ∷ 1 ∷ 2 ∷ []) (no_rounds s l)
          ])
      go none e = >>=-Ensures Ended (exemplars_of s l) _ (λ exemplars k.
          run_rounds-Ended exemplars (0 ∷ 1 ∷ 2 ∷ []) (no_rounds s l)
            (omega arith, (omega arith, (omega arith, tt))))
      go (some d) e = abstained-Ended d (ambiguity_decision-abstain l d e)

  -- An exception of a scenario is one that the precheck, the retrieval of exemplars, the scoring of
  -- an abstention or some round has raised: the loop itself never runs out of revisions, so its own
  -- RuntimeError is not reached.
  pub run_scenario-raise :
      (e : Error)
      → run_scenario s l ≡ raise e
      → (precheck_abstain l ≡ raise e)
        ⊎ (exemplars_of s l ≡ raise e)
        ⊎ ((d : GateDecision) × (abstained s l d ≡ raise e))
        ⊎ RoundRaises e
  unfolding run_scenario
  run_scenario-raise e h = outer (precheck_abstain l) refl h
    where
      inner :
          (m : Result (List MemoryEntry))
          → (m >>= λ exemplars. run_rounds s l exemplars (0 ∷ 1 ∷ 2 ∷ []) (no_rounds s l)) ≡ raise e
          → (m ≡ raise e) ⊎ RoundRaises e
      inner (raise x) k = let same : x ≡ e = cc in inl (ap raise same)
      inner (ok exemplars) k =
          inr (run_rounds-raise exemplars (0 ∷ 1 ∷ 2 ∷ []) (no_rounds s l) e (omega arith) k)

      outer :
          (m : Result (Option GateDecision))
          → precheck_abstain l ≡ m
          → (m >>= λ pre. elim pre [
            | some d ↦ abstained s l d
            | none ↦ exemplars_of s l >>= λ exemplars.
                run_rounds s l exemplars (0 ∷ 1 ∷ 2 ∷ []) (no_rounds s l)
          ])
            ≡ raise e
          → (m ≡ raise e)
            ⊎ (exemplars_of s l ≡ raise e)
            ⊎ ((d : GateDecision) × (abstained s l d ≡ raise e))
            ⊎ RoundRaises e
      outer (raise x) k h = let same : x ≡ e = cc in inl (ap raise same)
      outer (ok (some d)) k h = inr (inr (inl (d, h)))
      outer (ok none) k h = elim (inner (exemplars_of s l) h) [
        | inl missing ↦ inr (inl missing)
        | inr raised ↦ inr (inr (inr raised))
      ]
