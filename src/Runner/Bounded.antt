-- ===== src/Runner/Bounded.antt =====
-- A scenario ends in one terminal outcome within two revisions, and one that goes to a person has
-- been verified.
use max_ed.Base.{
  ℕ, ◌+◌, ◌<◌, String, ◌≡◌, refl, ap, ◌∙◌, ◌≢◌, Bool, true, false, ◌&&◌, List, [], ◌∷◌, ◌++◌, ltb,
  leb, if◌then◌else◌, is_blank, ok, Ensures, if-Ensures, >>=-Ensures,
}
use max_ed.Contracts.{
  Ledger, GateAction, revise, abstain, escalate, human_gate, Claim, GateDecision, GenerationMode,
  prompt_initial, prompt_revision, agentic_recovery, final, MemoryEntry, Event,
}
use max_ed.Gate.{gate_decision}
use max_ed.Checks.Registry.{check_all}
use max_ed.Gate.Matrix.{is_revise, decide}
use max_ed.Gate.Safety.{decide-revise}
use max_ed.Runner.{
  failed_subject_ids, agentic_exhausted, Outcome, Draft, Rounds, Next, again, done,
  generation_mode_of, govern,
}
use max_ed.Runner.Loop.{
  score_of, first_score, gen_id_of, verified, generated, Setting, terminal, finish, verify,
  exhausted, recover, prompted, round,
}

module _ (s : Setting) (l : Ledger) where
  -- The draft went through the checks and the gate, which handed it to a person.
  pub record Released (o : Outcome) : Type 0 where
    pub gen_id : String
    pub hashes : List String
    pub fresh : List Claim
    pub claims : List Claim
    pub decision : GateDecision
    pub extracted : s.extract gen_id o.final_draft l ≡ ok fresh
    pub checked : check_all (s.client o.revision_count) l fresh ≡ ok claims
    pub decided :
        decide (s.extract "c") claims l o.revision_count hashes o.final_draft ≡ ok decision
    pub gated : decision.action ≡ human_gate

  -- A terminal outcome at a revision.
  pub record Terminal (rev : ℕ) (o : Outcome) : Type 0 where
    pub at_revision : o.revision_count ≡ rev
    pub settled : o.terminal_action ≢ revise
    pub released : o.terminal_action ≡ human_gate → Released o

  -- What a round may end in: another round only below the second revision.
  abbrev pub Ends : ℕ → Next → Type 0
  Ends rev (again r) = rev < 2
  Ends rev (done o log) = Terminal rev o

  terminal-Ends :
      (gen_id : String) (d : GateDecision) (claims : List Claim) (draft : String) (rev : ℕ)
      (log : List Event)
      → d.action ≢ revise
      → (d.action ≡ human_gate
          → (o : Outcome) → o.final_draft ≡ draft
          → o.revision_count ≡ rev
          → Released o)
      → Ensures (Ends rev) (terminal s l gen_id d claims draft rev log)
  unfolding terminal
  terminal-Ends gen_id d claims draft rev log h k =
      >>=-Ensures (Ends rev) (score_of s l gen_id final claims draft rev d.action) _
        (λ e eq. record { at_revision = refl; settled = h; released = λ g. k g _ refl refl })

  not_revise : (a : GateAction) → is_revise a ≡ false → a ≢ revise
  not_revise a h e = cc

  is_revise-eq : (a : GateAction) → is_revise a ≡ true → a ≡ revise
  is_revise-eq revise h = refl
  is_revise-eq abstain h = cc
  is_revise-eq escalate h = cc
  is_revise-eq human_gate h = cc

  finish-Ends :
      (rev : ℕ) (r : Rounds) (draft : String) (claims : List Claim) (log : List Event)
      (d : GateDecision)
      → (d.action ≡ revise → rev < 2)
      → (d.action ≡ human_gate
          → (o : Outcome) → o.final_draft ≡ draft
          → o.revision_count ≡ rev
          → Released o)
      → Ensures (Ends rev) (finish s l rev r draft claims log d)
  unfolding finish
  finish-Ends rev r draft claims log d h k =
      >>=-Ensures (Ends rev) (first_score s l rev claims draft d.action) _ (λ scores eq.
        if-Ensures (Ends rev) (is_revise d.action)
          (ok (
            again (record r {
              correction = d.payload;
              previous_draft = draft;
              previous_reason = d.reason;
              failed_ids = failed_subject_ids claims;
              log = log ++ (verified s l (gen_id_of s l rev) claims d ∷ scores);
            })))
          (terminal s l (gen_id_of s l rev) d claims draft rev
            (log ++ (verified s l (gen_id_of s l rev) claims d ∷ scores)))
          (λ b. h (is_revise-eq d.action b))
          (λ b.
            terminal-Ends (gen_id_of s l rev) d claims draft rev
              (log ++ (verified s l (gen_id_of s l rev) claims d ∷ scores)) (not_revise d.action b)
              k))

  -- The decision that governs revises or gates only where the gate's own does.
  govern-revise :
      (rev n : ℕ) (d : GateDecision) → (govern s.cfg rev n d).action ≡ revise → d.action ≡ revise
  unfolding govern
  govern-revise rev n d h =
      go (is_revise d.action && (s.cfg.agentic && (leb s.cfg.max_recoveries n && ltb 0 rev))) h
    where
      go :
          (b : Bool)
          → (if b then record d { action = escalate; reason = agentic_exhausted } else d).action
            ≡ revise
          → d.action ≡ revise
      go true e = cc
      go false e = e

  govern-human_gate :
      (rev n : ℕ) (d : GateDecision)
      → (govern s.cfg rev n d).action ≡ human_gate
      → d.action ≡ human_gate
  unfolding govern
  govern-human_gate rev n d h =
      go (is_revise d.action && (s.cfg.agentic && (leb s.cfg.max_recoveries n && ltb 0 rev))) h
    where
      go :
          (b : Bool)
          → (if b then record d { action = escalate; reason = agentic_exhausted } else d).action
            ≡ human_gate
          → d.action ≡ human_gate
      go true e = cc
      go false e = e

  verify-Ends :
      (rev : ℕ) (r : Rounds) (mode : GenerationMode) (draft : Draft) (log : List Event)
      → Ensures (Ends rev) (verify s l rev r mode draft log)
  unfolding verify
  verify-Ends rev r mode draft log =
      let hashes = r.draft_hashes ++ (s.sha256 draft.text ∷ []) in
      >>=-Ensures (Ends rev) (s.extract (gen_id_of s l rev) draft.text l) _ (λ fresh ef.
        >>=-Ensures (Ends rev) (check_all (s.client rev) l fresh) _ (λ claims ec.
          >>=-Ensures (Ends rev) (decide (s.extract "c") claims l rev hashes draft.text) _ (λ d ed.
            finish-Ends rev (record r { draft_hashes = hashes }) draft.text claims
              (log ++ (generated s l rev mode draft ∷ [])) (govern s.cfg rev r.recoveries d)
              (λ a.
                (decide-revise (s.extract "c") claims l rev draft.text hashes d ed
                  (govern-revise rev r.recoveries d a)).0)
              (λ a o same_draft same_rev. record {
                gen_id = gen_id_of s l rev;
                hashes = hashes;
                fresh = fresh;
                claims = claims;
                decision = d;
                extracted = ap (λ x. s.extract (gen_id_of s l rev) x l) same_draft ∙ ef;
                checked = ap (λ x. check_all (s.client x) l fresh) same_rev ∙ ec;
                decided =
                    ap (λ x. decide (s.extract "c") claims l x hashes o.final_draft) same_rev
                    ∙ (ap (λ x. decide (s.extract "c") claims l rev hashes x) same_draft ∙ ed);
                gated = govern-human_gate rev r.recoveries d a;
              }))))

  escalate_settled : escalate ≢ revise
  escalate_settled e = cc

  escalate_ungated : escalate ≢ human_gate
  escalate_ungated e = cc

  exhausted-Ends :
      (rev : ℕ) (r : Rounds) (log : List Event) → Ensures (Ends rev) (exhausted s l rev r log)
  unfolding exhausted
  exhausted-Ends rev r log =
      let d = gate_decision escalate agentic_exhausted [] r.correction in
      terminal-Ends (gen_id_of s l rev) d [] "" rev
        (log ++ (verified s l (gen_id_of s l rev) [] d ∷ [])) escalate_settled
        (λ e. absurd (escalate_ungated e))

  pub round-Ends :
      (exemplars : List MemoryEntry) (rev : ℕ) (r : Rounds)
      → Ensures (Ends rev) (round s l exemplars rev r)
  unfolding round recover prompted
  round-Ends exemplars rev r = go (generation_mode_of s.cfg rev r.recoveries)
    where
      go :
          (m : GenerationMode)
          → Ensures (Ends rev) (elim m [
            | agentic_recovery ↦ recover s l exemplars rev r
            | prompt_initial ↦ prompted s l exemplars rev r prompt_initial
            | prompt_revision ↦ prompted s l exemplars rev r prompt_revision
          ])
      go prompt_initial =
          >>=-Ensures (Ends rev) (s.drafter exemplars rev r.correction) _
            (λ draft e. verify-Ends rev r prompt_initial draft r.log)
      go prompt_revision =
          >>=-Ensures (Ends rev) (s.drafter exemplars rev r.correction) _
            (λ draft e. verify-Ends rev r prompt_revision draft r.log)
      go agentic_recovery =
          let r' = record r { recoveries = r.recoveries + 1 } in
          >>=-Ensures (Ends rev) (s.agent exemplars (gen_id_of s l rev) rev r') _ (λ answer e.
            if-Ensures (Ends rev) (is_blank answer.0.text)
              (exhausted s l rev r' (r.log ++ answer.1))
              (verify s l rev r' agentic_recovery answer.0 (r.log ++ answer.1))
              (λ b. exhausted-Ends rev r' (r.log ++ answer.1))
              (λ b. verify-Ends rev r' agentic_recovery answer.0 (r.log ++ answer.1)))
