-- ===== src/Derive/Ambiguity.antt =====
-- `ambiguous_allocations` of balancecheck/substrate/derive.py.
use max_ed.Base.Int.{ℤ, pos, ltb_ℤ, leb_ℤ, eqb_ℤ}
use max_ed.Contracts.{Invoice, Ledger}
use max_ed.Base.{
  String, ◌&&◌, List, [], ◌∷◌, map, leb, if◌then◌else◌, length, Result, ok, ◌>>=◌, filter_result,
}
use max_ed.Derive.{SourceDoc, source_doc_id, source_docs, open_amount, unapplied_amount}

-- The identifiers of the invoices whose open amount is the given one.
unfoldable pub matching_invoices : Ledger → ℤ → Result (List String)
matching_invoices l un = do
  found ←
      filter_result
        (λ (i : Invoice). open_amount l i.id >>= λ amount. ok (eqb_ℤ amount un && ltb_ℤ (pos 0) un))
        l.invoices
  ok (map (λ i. i.id) found)

-- The loop over the sources.
unfoldable pub ambiguous_from : Ledger → List SourceDoc → Result (List (String × List String))
ambiguous_from l [] = ok []
ambiguous_from l (doc ∷ docs) = do
  un ← unapplied_amount l (source_doc_id doc)
  matches ← if leb_ℤ un (pos 0) then ok [] else matching_invoices l un
  rest ← ambiguous_from l docs
  ok (if leb 2 (length matches) then (source_doc_id doc, matches) ∷ rest else rest)

unfoldable pub ambiguous_allocations : Ledger → Result (List (String × List String))
unfolding ambiguous_from
ambiguous_allocations l = ambiguous_from l (source_docs l)
