-- ===== src/Pairwise/Symmetry.antt =====
-- The verdict of balancecheck/bench/pairwise.py does not depend on which draft is called a.
use max_ed.Derive.Unique.{str_eq_comm}
use mathlib.Core.Path.{subst}
use max_ed.Base.{
  String, ◌≡◌, refl, sym, ap, inl, inr, Bool, true, false, not, ◌&&◌, Option, none, some, List, [],
  ◌∷◌, arith, str_eq, eq_iff, if◌then◌else◌, Bool-cases, concat, key_error, Result, ok, or_raise,
  >>=-eq-ok, Ensures, Ensures-ok, >>=-Ensures, OkWith,
}
use max_ed.Contracts.{Event, Json, null, bool, num, str, arr, obj}
use max_ed.Json.{Python, field_of, text_of}
use max_ed.Pairwise.{
  Judge, Judgment, Pairwise, map_winner, read_answer, judge_order, judgment_event,
  build_pairwise_prompt, settle_orders, pairwise_both_orders,
}

-- The verdict with the names of the drafts exchanged.
abbrev pub other_draft : String → String
other_draft v = if str_eq v "a" then "b" else if str_eq v "b" then "a" else v

other_draft-other_draft : (v : String) → other_draft (other_draft v) ≡ v
other_draft-other_draft v = elim (Bool-cases (str_eq v "a")) [
  | inl is_a ↦ rw is_a (sym ((eq_iff v "a").0 is_a))
  | inr not_a ↦ elim (Bool-cases (str_eq v "b")) [
    | inl is_b ↦ rw (not_a, is_b) (sym ((eq_iff v "b").0 is_b))
    | inr not_b ↦ rw (not_a, not_b, not_a, not_b) refl
  ]
]

-- Two tests that imply each other give the same.
same_test : (b c : Bool) → (b ≡ true → c ≡ true) → (c ≡ true → b ≡ true) → b ≡ c
same_test true c f g = sym (f refl)
same_test false true f g = g refl
same_test false false f g = refl

str_eq-other_draft : (v w : String) → str_eq (other_draft v) (other_draft w) ≡ str_eq v w
str_eq-other_draft v w =
    let back = other_draft-other_draft v in
    let forth = other_draft-other_draft w in
    same_test (str_eq (other_draft v) (other_draft w)) (str_eq v w)
      (λ e.
        let same : other_draft (other_draft v) ≡ other_draft (other_draft w) =
          ap other_draft ((eq_iff (other_draft v) (other_draft w)).0 e) in
        let equal : v ≡ w = cc in (eq_iff v w).1 equal)
      (λ e. (eq_iff (other_draft v) (other_draft w)).1 (ap other_draft ((eq_iff v w).0 e)))

-- The two orders.
abbrev order : Bool → String
order true = "ab"
order false = "ba"

map_winner-other_draft :
    (first : Bool) (winner : String)
    → Ensures
        (λ v. map_winner winner (order (not first)) ≡ ok (other_draft v))
        (map_winner winner (order first))
unfolding map_winner
map_winner-other_draft first winner = elim (Bool-cases (str_eq winner "tie")) [
  | inl tie ↦ rw tie refl
  | inr no_tie ↦ elim (Bool-cases (str_eq winner "1")) [
    | inl one ↦ elim (Bool-cases first) [
      | inl f ↦ rw (no_tie, one, f) refl
      | inr f ↦ rw (no_tie, one, f) refl
    ]
    | inr not_one ↦ elim (Bool-cases (str_eq winner "2")) [
      | inl two ↦ elim (Bool-cases first) [
        | inl f ↦ rw (no_tie, not_one, two, f) refl
        | inr f ↦ rw (no_tie, not_one, two, f) refl
      ]
      | inr not_two ↦ rw (no_tie, not_one, not_two) tt
    ]
  ]
]

-- The same answer in the other order names the other draft.
abbrev mirror : Judgment → Judgment
mirror v = record { verdict = other_draft v.verdict; parse_ok = v.parse_ok; scores = v.scores }

abbrev MirroredIn : Python → Bool → Option Json → Judgment → Type 0
MirroredIn py first answer v = read_answer py (order (not first)) answer ≡ ok (mirror v)

read_answer-other_draft :
    (py : Python) (first : Bool) (answer : Option Json)
    → Ensures (MirroredIn py first answer) (read_answer py (order first) answer)
unfolding read_answer
read_answer-other_draft py first none = refl
read_answer-other_draft py first (some null) = refl
read_answer-other_draft py first (some (bool b)) = refl
read_answer-other_draft py first (some (num n)) = refl
read_answer-other_draft py first (some (str s)) = refl
read_answer-other_draft py first (some (arr items)) = refl
read_answer-other_draft py first (some (obj fields)) =
    >>=-Ensures (MirroredIn py first (some (obj fields)))
      (or_raise (field_of "winner" fields) (key_error "winner")) _
      (λ winner found.
        >>=-Ensures (MirroredIn py first (some (obj fields)))
          (map_winner (text_of py winner) (order first)) _
          (λ verdict mapped.
            let same =
              Ensures-ok
                (λ v. map_winner (text_of py winner) (order (not first)) ≡ ok (other_draft v))
                (map_winner (text_of py winner) (order first))
                (map_winner-other_draft first (text_of py winner)) mapped in
            rw (found, same) refl))

settle_orders-mirror :
    (v w : Judgment)
    → ((settle_orders (mirror w) (mirror v)).verdict ≡ other_draft (settle_orders v w).verdict)
      × ((settle_orders (mirror w) (mirror v)).flipped ≡ (settle_orders v w).flipped)
unfolding settle_orders
settle_orders-mirror v w =
    let back = str_eq-other_draft w.verdict v.verdict in
    let turned = str_eq_comm w.verdict v.verdict in
    elim (Bool-cases (v.parse_ok && w.parse_ok && str_eq v.verdict w.verdict)) [
      | inl agree ↦
          let same = (eq_iff v.verdict w.verdict).0 (ground arith) in
          let swapped : (w.parse_ok
                && v.parse_ok
                && str_eq (other_draft w.verdict) (other_draft v.verdict))
              ≡ true =
            ground arith in
          rw (agree, swapped) (ap other_draft (sym same), refl)
      | inr differ ↦
          let swapped : (w.parse_ok
                && v.parse_ok
                && str_eq (other_draft w.verdict) (other_draft v.verdict))
              ≡ false =
            ground arith in
          rw (differ, swapped) (refl, refl)
    ]

module _ (j : Judge) (run_id pair_id ledger_block stub_key_prefix : String)
    (keyless : (k k' s u : String) → j.client k s u ≡ j.client k' s u) where
  abbrev judged : String → String → String → Result (Judgment × Event)
  judged = judge_order j run_id pair_id ledger_block stub_key_prefix

  -- A prompt judged in the other order gives the mirrored answer.
  judge_order-mirror :
      (first : Bool) (x y : String) (v : Judgment) (e : Event)
      → judged (order first) x y ≡ ok (v, e)
      → (e' : Event) × (judged (order (not first)) x y ≡ ok (mirror v, e'))
  unfolding judge_order build_pairwise_prompt
  judge_order-mirror first x y v e h =
      let key = concat (stub_key_prefix ∷ ":" ∷ order first ∷ []) in
      let turned = concat (stub_key_prefix ∷ ":" ∷ order (not first) ∷ []) in
      let prompt = build_pairwise_prompt j.user x y ledger_block in
      let (v', read, made) =
        >>=-eq-ok (read_answer j.python (order first) (j.client key j.system prompt)) _ h in
      let same : v' ≡ v = subst (OkWith (λ r. v' ≡ r.0)) made refl in
      let mirrored =
        Ensures-ok (MirroredIn j.python first (j.client key j.system prompt)) _
          (read_answer-other_draft j.python first (j.client key j.system prompt)) read in
      (
        judgment_event j run_id pair_id ledger_block stub_key_prefix (order (not first)) prompt
            (mirror v'),
        rw (keyless turned key j.system prompt, mirrored, same) refl,
      )

  -- Where the client answers by the prompts alone and a pair is judged, the pair with its drafts exchanged
  -- gets the same verdict with their names exchanged, and counts as flipped just where it did.
  pub pairwise_both_orders-other_draft :
      (draft_a draft_b : String) (p : Pairwise) (log : List Event)
      → pairwise_both_orders j run_id pair_id ledger_block stub_key_prefix draft_a draft_b
        ≡ ok (p, log)
      → (q : Pairwise) × (log' : List Event) × (pairwise_both_orders j run_id pair_id ledger_block
            stub_key_prefix draft_b draft_a
          ≡ ok (q, log'))
        × (q.verdict ≡ other_draft p.verdict)
        × (q.flipped ≡ p.flipped)
  unfolding pairwise_both_orders
  pairwise_both_orders-other_draft draft_a draft_b p log h =
      let (ab, judged_ab, h₁) = >>=-eq-ok (judged "ab" draft_a draft_b) _ h in
      let (ba, judged_ba, h₂) = >>=-eq-ok (judged "ba" draft_b draft_a) _ h₁ in
      let (e₁, first) = judge_order-mirror false draft_b draft_a ba.0 ba.1 judged_ba in
      let (e₂, second) = judge_order-mirror true draft_a draft_b ab.0 ab.1 judged_ab in
      let (verdict, flipped) = settle_orders-mirror ab.0 ba.0 in
      let same : p ≡ settle_orders ab.0 ba.0 =
        subst (OkWith (λ r. r.0 ≡ settle_orders ab.0 ba.0)) h₂ refl in
      (
        settle_orders (mirror ba.0) (mirror ab.0),
        e₁ ∷ e₂ ∷ [],
        rw (first, second) refl,
        subst (λ x. (settle_orders (mirror ba.0) (mirror ab.0)).verdict ≡ other_draft x.verdict)
            (sym same) verdict,
        subst (λ x. (settle_orders (mirror ba.0) (mirror ab.0)).flipped ≡ x.flipped) (sym same)
            flipped,
      )
