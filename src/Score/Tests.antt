-- ===== src/Score/Tests.antt =====
-- A run of the scorer's counts.
use max_ed.Base.{◌≤◌, ◌≡◌, ◌↔◌, true, some, List, [], ◌∷◌, length, all, filter}
use max_ed.Contracts.{
  ClaimType, c_amt, c_date, c_fuzzy, code_checked, CheckStatus, pass, fail, Claim,
}
use max_ed.Score.{passes, grounding}
use max_ed.Score.Grounding.{grounding_counts}

abbrev checked_as : ClaimType → CheckStatus → Claim
checked_as claim_type status = record {
  claim_id = "c";
  claim_type = claim_type;
  span = "";
  token = "";
  check_result =
      some
        (record { status = status; expected = ""; actual = ""; cited_records = []; detail = "" });
  subject_ids = [];
  role = "";
  subject_id = "";
}

-- One claim that passes, one that fails, and one that code does not check.
abbrev three_claims : List Claim
three_claims = checked_as c_amt pass ∷ checked_as c_date fail ∷ checked_as c_fuzzy pass ∷ []

grounding_counts_example :
    (let checked = filter (λ (c : Claim). code_checked c.claim_type) three_claims in
      ((grounding three_claims).0 ≡ length (filter passes checked))
      × ((grounding three_claims).1 ≡ length checked)
      × ((grounding three_claims).0 ≤ (grounding three_claims).1)
      × (((grounding three_claims).0 ≡ (grounding three_claims).1) ↔ (all passes checked ≡ true)))
grounding_counts_example = grounding_counts three_claims
