-- ===== src/Gate/Itemization.antt =====
-- `_itemization_inconsistency` of gate/policy.py: the amounts that a draft states against each open
-- invoice must sum to the open total when nothing is unapplied.
use Prim.Native.String.{compare}
use text.Mathlib.Text.{is_lt}
use max_ed.Base.{
  String, Bool, true, not, ◌&&◌, Option, none, some, List, [], ◌∷◌, map, str_eq, ltb, if◌then◌else◌,
  is_some, length, all, is_empty, concat, join, contains, dedup, Result, ok, ◌>>=◌, Dict, lookup,
  insert, keys, values,
}
use max_ed.Contracts.{Invoice, Ledger, pass, role_open, role_unknown, Claim, Finding}
use max_ed.Base.Int.{ℤ, pos, ltb_ℤ, eqb_ℤ, sum_ℤ}
use max_ed.Checks.{parse_claim_amount, on_value_error, bound_docs}
use max_ed.Derive.{open_amount, unapplied_cash_total, unapplied_credit_total, open_invoice_total}
use max_ed.Gate.{has_status, draft_finding}
use max_ed.Money.{render}
use max_ed.Score.{is_amount}

-- `{i.id: open_amount(i.id) for i in invoices if open_amount(i.id) > 0}`, from the dictionary so far.
unfoldable pub open_figures : Ledger → Dict ℤ → List Invoice → Result (Dict ℤ)
open_figures l d [] = ok d
open_figures l d (i ∷ is) = open_amount l i.id >>= λ amount.
    if ltb_ℤ (pos 0) amount then open_figures l (insert i.id amount d) is else open_figures l d is

-- The two dictionaries of the loop.
pub record Figures : Type 0 where
  pub open_figs : Dict ℤ
  pub unknown_figs : Dict ℤ

-- `set(c.subject_ids) or …` of one element.
abbrev pub sole_bound : Claim → Option String
sole_bound c = elim (dedup (bound_docs c)) [
  | [] ↦ none
  | k ∷ ks ↦ if is_empty ks then some k else none
]

-- `d.setdefault(k, v)`
abbrev pub set_default : String → ℤ → Dict ℤ → Dict ℤ
set_default k v d = elim (lookup k d) [ none ↦ insert k v d | some w ↦ d ]

unfoldable pub note_figure : Claim → String → ℤ → Figures → Figures
note_figure c k value f =
    if str_eq c.role role_open
    then record f { open_figs = insert k value f.open_figs }
    else if str_eq c.role role_unknown
    then record f { unknown_figs = set_default k value f.unknown_figs }
    else f

-- One round of the loop.
unfoldable pub figure_step : Dict ℤ → Claim → Figures → Result Figures
unfolding note_figure
figure_step invoices c f =
    if not (is_amount c.claim_type && has_status pass c) then ok f else elim (sole_bound c) [
      | none ↦ ok f
      | some k ↦
          if not (is_some (lookup k invoices))
          then ok f
          else on_value_error (parse_claim_amount c.token) (λ value. ok (note_figure c k value f))
              (λ text. ok f)
    ]

unfoldable pub figures_from : Dict ℤ → Figures → List Claim → Result Figures
unfolding figure_step
figures_from invoices f [] = ok f
figures_from invoices f (c ∷ cs) = figure_step invoices c f >>= λ g. figures_from invoices g cs

-- `open_figs.get(sid, unknown_figs.get(sid))`
abbrev pub figure_of : Figures → String → Option ℤ
figure_of f k = elim (lookup k f.open_figs) [ none ↦ lookup k f.unknown_figs | some v ↦ some v ]

-- The figures of the invoices that have one.
unfoldable pub itemized : Figures → List String → Dict ℤ
itemized f [] = []
itemized f (k ∷ ks) = elim (figure_of f k) [
  | none ↦ itemized f ks
  | some v ↦ insert k v (itemized f ks)
]

-- `set(a) == set(b)`
abbrev same_set : List String → List String → Bool
same_set xs ys = all (λ x. contains x ys) xs && all (λ y. contains y xs) ys

-- `sorted(open_invoices.items())`; the keys differ, so the figures are never compared.
abbrev insert_sorted : String × ℤ → List (String × ℤ) → List (String × ℤ)
insert_sorted p [] = p ∷ []
insert_sorted p (q ∷ qs) = if is_lt (compare p.0 q.0) then p ∷ q ∷ qs else q ∷ insert_sorted p qs

abbrev sorted_items : Dict ℤ → List (String × ℤ)
sorted_items [] = []
sorted_items (p ∷ ps) = insert_sorted p (sorted_items ps)

unfoldable itemization_finding : Dict ℤ → ℤ → ℤ → Finding
itemization_finding invoices itemized_sum open_total =
    draft_finding "itemization_inconsistent"
      (concat (
        "itemized invoice amounts sum to "
        ∷ render itemized_sum
        ∷ " but the open-invoice total is "
        ∷ render open_total
        ∷ []))
      (concat (
        "The itemized amounts contradict the computed balance: list each open invoice at its OPEN amount ("
        ∷ join ", "
            (map (λ (p : String × ℤ). concat (p.0 ∷ " " ∷ render p.1 ∷ [])) (sorted_items invoices))
        ∷ ")."
        ∷ []))

-- The test at the end.
unfoldable pub compare_itemized : Ledger → Dict ℤ → Dict ℤ → Result (Option Finding)
unfolding itemization_finding
compare_itemized l invoices items =
    if not (same_set (keys items) (keys invoices))
    then ok none
    else (open_invoice_total l >>= λ open_total. ok (
        if eqb_ℤ (sum_ℤ (values items)) open_total
        then none
        else some (itemization_finding invoices (sum_ℤ (values items)) open_total)))

-- `unapplied_cash_total(…) != 0 or unapplied_credit_total(…) != 0`
unfoldable pub something_unapplied : Ledger → Result Bool
something_unapplied l = unapplied_cash_total l >>= λ cash.
    if not (eqb_ℤ cash (pos 0))
    then ok true
    else (unapplied_credit_total l >>= λ credit. ok (not (eqb_ℤ credit (pos 0))))

unfoldable pub itemization_inconsistency : List Claim → Ledger → Result (Option Finding)
unfolding open_figures something_unapplied figures_from itemized compare_itemized
itemization_inconsistency claims l = open_figures l [] l.invoices >>= λ invoices.
    if ltb (length invoices) 2
    then ok none
    else (something_unapplied l >>= λ unapplied.
        if unapplied
        then ok none
        else (figures_from invoices (record { open_figs = []; unknown_figs = [] }) claims >>= λ f.
            compare_itemized l invoices (itemized f (keys invoices))))
