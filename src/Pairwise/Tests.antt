-- ===== src/Pairwise/Tests.antt =====
-- A judge that likes the reply with the balance, asked about two replies in both orders.
use max_ed.Pairwise.{
  judge_order, settle_orders, read_answer, map_winner, build_pairwise_prompt, Judge, Pairwise,
  pairwise_both_orders,
}
use max_ed.Regex.Replace.{replace}
use max_ed.Regex.{chars, of_chars}
use max_ed.Json.{field_of, text_of}
use max_ed.Base.{
  String, ◌≡◌, refl, false, Option, some, List, [], str_eq, if◌then◌else◌, length, concat, Result,
  ok, raise,
}
use max_ed.Contracts.{Event, Json, str, obj, end, field}
use max_ed.Pairwise.Symmetry.{other_draft, pairwise_both_orders-other_draft}

abbrev says : String → Option Json
says winner = some (obj (field "winner" (str winner) (field "rationale" (str "") end)))

-- The prompt decides, whatever the stub key.
abbrev judge : Judge
judge = record {
  python = record { repr = λ v. ""; dict_of = λ v. ok end };
  system = "Judge.";
  user = "{{draft_1}} or {{draft_2}}?";
  client =
      λ key system prompt. says (if str_eq prompt "Hello. or $1.00 is due.?" then "2" else "1");
  sha = λ text. "sha";
  judge_model = "";
}

abbrev judged : String → String → Result (Pairwise × List Event)
judged = pairwise_both_orders judge "r" "p" "" "k"

abbrev pair_of : Result (Pairwise × List Event) → Pairwise × List Event
pair_of (ok p) = p
pair_of (raise e) = (
  record {
    verdict = "";
    flipped = false;
    ab = record { verdict = ""; parse_ok = false; scores = end };
    ba = record { verdict = ""; parse_ok = false; scores = end };
  },
  [],
)

abbrev given : Pairwise × List Event
given = pair_of (judged "Hello." "$1.00 is due.")

given_returned : judged "Hello." "$1.00 is due." ≡ ok given
unfolding pairwise_both_orders judge_order settle_orders read_answer map_winner
    build_pairwise_prompt replace chars of_chars field_of text_of concat
given_returned = refl

-- The second draft wins in both orders, and one event is logged for each.
given_verdict : (given.0.verdict ≡ "b") × (given.0.flipped ≡ false) × (length given.1 ≡ 2)
unfolding pairwise_both_orders judge_order settle_orders read_answer map_winner
    build_pairwise_prompt replace chars of_chars field_of text_of concat
given_verdict = (refl, refl, refl)

pairwise_both_orders-other_draft_example :
    (q : Pairwise) × (log' : List Event) × (judged "$1.00 is due." "Hello." ≡ ok (q, log'))
    × (q.verdict ≡ other_draft given.0.verdict)
    × (q.flipped ≡ given.0.flipped)
pairwise_both_orders-other_draft_example =
    pairwise_both_orders-other_draft judge "r" "p" "" "k" (λ k k' s u. refl) "Hello."
      "$1.00 is due." given.0 given.1 given_returned
