-- ===== src/Score.antt =====
-- The scorer, bench/score.py. What `extract_claims` of drafting/surface.py reads from a draft is an
-- argument here: the scorer is modelled for every extractor.
pub mod Grounding
mod Tests
use max_ed.Base.{
  ℕ, ◌+◌, String, Bool, true, false, not, ◌&&◌, ◌||◌, none, some, List, [], ◌∷◌, map, str_eq,
  if◌then◌else◌, length, any, all, filter, is_empty, concat, join, contains, Result, ok, ◌>>=◌,
  traverse, filter_result,
}
use max_ed.Regex.Strip.{strip}
use max_ed.Contracts.{
  Ledger, ClaimType, c_exist, c_amt, c_sum, c_status, c_date, c_fuzzy, code_checked, CheckStatus,
  GateAction, paid, Claim, Stage, ScoreEvent,
}
use max_ed.Base.Int.{ℤ, pos, ltb_ℤ, eqb_ℤ}
use max_ed.Amounts.{spaced}
use max_ed.Checks.{bound_docs, net_label}
use max_ed.Checks.Registry.{run_code_checks}
use max_ed.Checks.Fuzzy.{is_pass}
use max_ed.Derive.{open_amount, unapplied_amount, net_balance}
use max_ed.Money.{render}
use max_ed.Regex.{Regex, ilit, seq, alt, opt, search_in, chars, space_class, plus, one_of}

-- `c.check_result is not None and c.check_result.status is CheckStatus.PASS`
abbrev pub passes : Claim → Bool
passes c = elim c.check_result [ none ↦ false | some r ↦ is_pass r.status ]

-- `grounding`, the loop with its two counters.
unfoldable pub grounding_from : ℕ → ℕ → List Claim → ℕ × ℕ
grounding_from passed total [] = (passed, total)
grounding_from passed total (c ∷ cs) =
    let skipped = grounding_from passed total cs in
    let counted = grounding_from (if passes c then passed + 1 else passed) (total + 1) cs in
    if not (code_checked c.claim_type) then skipped else counted

unfoldable pub grounding : List Claim → ℕ × ℕ
unfolding grounding_from
grounding cs = grounding_from 0 0 cs

-- One item of the checklist.
pub record Item : Type 0 where
  pub name : String
  pub applicable : Bool
  pub present : Bool
  pub hint : String

abbrev is_exist : ClaimType → Bool
is_exist c_exist = true
is_exist c_amt = false
is_exist c_sum = false
is_exist c_status = false
is_exist c_date = false
is_exist c_fuzzy = false

abbrev pub is_amount : ClaimType → Bool
is_amount c_exist = false
is_amount c_amt = true
is_amount c_sum = false
is_amount c_status = false
is_amount c_date = false
is_amount c_fuzzy = false

abbrev is_sum : ClaimType → Bool
is_sum c_exist = false
is_sum c_amt = false
is_sum c_sum = true
is_sum c_status = false
is_sum c_date = false
is_sum c_fuzzy = false

-- `references`, over the passing claims.
unfoldable pub references : List Claim → String → Bool
references passing doc_id =
    any
      (λ (c : Claim).
        (is_exist c.claim_type && str_eq c.token doc_id)
        || (is_amount c.claim_type && contains doc_id (bound_docs c)))
      passing

-- A passing claim cites the net balance.
abbrev pub cites_net : Claim → Bool
cites_net c = elim c.check_result [
  | none ↦ false
  | some r ↦ is_pass r.status && contains net_label r.cited_records
]

-- `no\s+balance|nothing\s+(?:further\s+)?(?:is\s+)?owed|fully\s+paid|paid\s+in\s+full`
unfoldable pub nothing_owed_re : Regex
unfolding chars
nothing_owed_re = one_of (
    spaced ("no" ∷ "balance" ∷ [])
    ∷ seq (ilit (chars "nothing")) (
        seq (plus space_class) (
          seq (opt (seq (ilit (chars "further")) (plus space_class)))
            (seq (opt (seq (ilit (chars "is")) (plus space_class))) (ilit (chars "owed")))))
    ∷ spaced ("fully" ∷ "paid" ∷ [])
    ∷ spaced ("paid" ∷ "in" ∷ "full" ∷ [])
    ∷ [])

unfoldable pub net_present : List Claim → String → ℤ → Bool
unfolding nothing_owed_re chars
net_present passing draft net =
    any (λ (c : Claim). is_sum c.claim_type && cites_net c) passing
    || (eqb_ℤ net (pos 0) && search_in nothing_owed_re (chars draft))

-- The documents with a positive figure, in the ledger's order.
unfoldable pub with_amount : (String → Result ℤ) → List String → Result (List String)
with_amount amount ids = filter_result (λ k. amount k >>= λ z. ok (ltb_ℤ (pos 0) z)) ids

-- A checklist item on the documents that must be referenced.
unfoldable pub document_item : String → String → List Claim → List String → Item
unfolding references
document_item name hint passing ids = record {
  name = name;
  applicable = not (is_empty ids);
  present = not (is_empty ids) && all (references passing) ids;
  hint = hint;
}

-- `f"{p.id} ({render(...)})"`
unfoldable pub with_figures : (String → Result ℤ) → List String → Result (List String)
with_figures amount ids =
    traverse (λ k. amount k >>= λ z. ok (concat (k ∷ " (" ∷ render z ∷ ")" ∷ []))) ids

-- The four items, on the passing claims.
unfoldable pub checklist : List Claim → String → Ledger → Result (List Item)
unfolding net_present with_amount document_item with_figures
checklist passing draft l = do
  net ← net_balance l
  open_ids ← with_amount (open_amount l) (map (λ i. i.id) l.invoices)
  cash_ids ← with_amount (unapplied_amount l) (map (λ p. p.id) l.payments)
  cash_texts ← with_figures (unapplied_amount l) cash_ids
  credit_ids ← with_amount (unapplied_amount l) (map (λ c. c.id) l.credit_memos)
  credit_texts ← with_figures (unapplied_amount l) credit_ids
  ok (
      record {
        name = "net_balance_stated";
        applicable = true;
        present = net_present passing draft net;
        hint =
            concat
              ("state the balance due, " ∷ render net ∷ ", as the account total exactly once" ∷ []);
      }
      ∷ document_item "open_invoices_itemized"
          (concat ("itemize every open invoice by its ID: " ∷ join ", " open_ids ∷ [])) passing
          open_ids
      ∷ document_item "unapplied_cash_mentioned"
          (concat ("mention the unapplied payment(s) by ID: " ∷ join ", " cash_texts ∷ [])) passing
          cash_ids
      ∷ document_item "open_credit_mentioned"
          (concat ("mention the open credit memo(s) by ID: " ∷ join ", " credit_texts ∷ [])) passing
          credit_ids
      ∷ [])

module _ (extract : String → Ledger → Result (List Claim)) where
  unfoldable pub completeness_items : String → Ledger → Result (List Item)
  unfolding checklist run_code_checks chars
  completeness_items draft l =
      if is_empty (strip (chars draft))
      then ok []
      else (extract draft l >>= λ claims.
          run_code_checks l claims >>= λ checked. checklist (filter passes checked) draft l)

  unfoldable pub completeness : String → Ledger → Result (ℕ × ℕ)
  unfolding completeness_items
  completeness draft l = do
    items ← completeness_items draft l
    let applicable = filter (λ (i : Item). i.applicable) items
    ok (length (filter (λ (i : Item). i.present) applicable), length applicable)

  unfoldable pub build_score_event :
      (gen_id scenario_id pass_label : String)
      → Stage
      → List Claim
      → String
      → Ledger
      → ℕ
      → GateAction
      → Result ScoreEvent
  unfolding completeness grounding
  build_score_event gen_id scenario_id pass_label stage claims draft l revision_count action = do
    counts ← completeness draft l
    ok (record {
      gen_id = gen_id;
      scenario_id = scenario_id;
      pass_label = pass_label;
      stage = stage;
      grounding_checked = (grounding claims).0;
      grounding_total = (grounding claims).1;
      completeness_present = counts.0;
      completeness_total = counts.1;
      revision_count = revision_count;
      terminal_action = action;
    })
