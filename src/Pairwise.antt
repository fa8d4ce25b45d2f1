-- ===== src/Pairwise.antt =====
-- Two drafts judged against each other in both orders, balancecheck/bench/pairwise.py.
pub mod Symmetry
mod Tests
use max_ed.Base.{
  String, Bool, true, false, not, ◌&&◌, Option, some, List, [], ◌∷◌, str_eq, if◌then◌else◌, concat,
  or_text, key_error, value_error, Result, ok, raise, ◌>>=◌, or_raise,
}
use max_ed.Contracts.{other, judgment, Event, Json, obj, Fields, end}
use max_ed.Json.{Python, field_of, text_of}
use max_ed.Regex.Replace.{replace}

-- The judge: the two sections of the prompt's template, and the client, which takes a stub key, the
-- system prompt and the prompt, and gives the parsed answer where the call succeeded.
pub record Judge : Type 0 where
  pub python : Python
  pub system : String
  pub user : String
  pub client : String → String → String → Option Json
  pub sha : String → String
  pub judge_model : String

unfoldable pub map_winner : String → String → Result String
map_winner winner ordering =
    if str_eq winner "tie"
    then ok "tie"
    else if not (str_eq winner "1") && not (str_eq winner "2")
    then raise (value_error "unknown pairwise winner")
    else if str_eq ordering "ab"
    then ok (if str_eq winner "1" then "a" else "b")
    else if str_eq ordering "ba"
    then ok (if str_eq winner "1" then "b" else "a")
    else raise (value_error "unknown ordering")

unfoldable pub build_pairwise_prompt : String → String → String → String → String
unfolding replace
build_pairwise_prompt user draft_1 draft_2 ledger_block =
    replace "{{draft_2}}" draft_2
      (replace "{{draft_1}}" draft_1 (replace "{{ledger_block}}" ledger_block user))

-- What one order gives.
pub record Judgment : Type 0 where
  pub verdict : String
  pub parse_ok : Bool
  pub scores : Fields

abbrev pub no_judgment : Judgment
no_judgment = record { verdict = ""; parse_ok = false; scores = end }

unfoldable pub read_answer : Python → String → Option Json → Result Judgment
unfolding field_of text_of map_winner
read_answer py ordering (some (obj fields)) = do
  winner ← or_raise (field_of "winner" fields) (key_error "winner")
  verdict ← map_winner (text_of py winner) ordering
  ok (record { verdict = verdict; parse_ok = true; scores = fields })
read_answer py ordering _ = ok no_judgment

pub record Pairwise : Type 0 where
  pub verdict : String
  pub flipped : Bool
  pub ab : Judgment
  pub ba : Judgment

-- The two orders agree, or it is a tie.
unfoldable pub settle_orders : Judgment → Judgment → Pairwise
settle_orders ab ba =
    if ab.parse_ok && ba.parse_ok && str_eq ab.verdict ba.verdict
    then record { verdict = ab.verdict; flipped = false; ab = ab; ba = ba }
    else record { verdict = "tie"; flipped = true; ab = ab; ba = ba }

module _ (j : Judge) (run_id pair_id ledger_block stub_key_prefix : String) where
  abbrev pub judgment_event : String → String → Judgment → Event
  judgment_event ordering prompt v = record {
    run_id = run_id;
    body = judgment (record {
      gen_id = "";
      pair_id = pair_id;
      mode = "pairwise";
      ordering = ordering;
      scores = v.scores;
      verdict = v.verdict;
      prompt_sha = j.sha prompt;
      parse_ok = v.parse_ok;
      judge_model = or_text j.judge_model "stub";
    });
  }

  -- One round of the loop over the orders: the prompt shows `first` before `second`.
  unfoldable pub judge_order : String → String → String → Result (Judgment × Event)
  unfolding build_pairwise_prompt read_answer concat
  judge_order ordering first second = do
    let prompt = build_pairwise_prompt j.user first second ledger_block
    v ←
        read_answer j.python ordering
          (j.client (concat (stub_key_prefix ∷ ":" ∷ ordering ∷ [])) j.system prompt)
    ok (v, judgment_event ordering prompt v)

  unfoldable pub pairwise_both_orders : String → String → Result (Pairwise × List Event)
  unfolding judge_order settle_orders
  pairwise_both_orders draft_a draft_b = do
    ab ← judge_order "ab" draft_a draft_b
    ba ← judge_order "ba" draft_b draft_a
    ok (settle_orders ab.0 ba.0, ab.1 ∷ ba.1 ∷ [])
