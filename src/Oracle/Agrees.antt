-- ===== src/Oracle/Agrees.antt =====
-- The replay of the oracle and the derivations of balancecheck/substrate/derive.py agree.
use mathlib.Core.Path.{subst}
use max_ed.Derive.{
  payment, credit_memo, source_doc_id, source_doc_amount, source_docs, applied_to_invoice,
  applied_from_source, open_amount, unapplied_amount, open_invoice_total, unapplied_cash_total,
  unapplied_credit_total, net_balance,
}
use max_ed.Derive.Balance.{IsSound, validate_ledger-IsSound}
use max_ed.Derive.Bounds.{All-both}
use max_ed.Derive.Recompute.{held, held-insert, held-fill}
use max_ed.Derive.Totals.{
  open_of, unapplied_of, open_sum, cash_sum, credit_sum, open_amounts, unapplied_amounts,
  open_invoice_total-eq, unapplied_cash_total-eq, unapplied_credit_total-eq, net_balance-eq,
  applied_to_sum, map-source_doc_id,
}
use max_ed.Base.Int.{sum_ℤ-sub, ℤ, pos, sub_ℕ, ◌+ℤ◌, ◌-ℤ◌, sub_ℕ_parts, int_laws, sum_ℤ, SameValue}
use max_ed.Derive.Unique.{UniqueKeys-append, UniqueKeys, str_eq_comm}
use max_ed.Derive.Validate.{validate_ledger}
use max_ed.Oracle.{
  sum_over, replayed_totals, sub_amount, deduct, open_by_invoice, unapplied_by_source,
}
use max_ed.Base.{
  ℕ, String, ◌≡◌, refl, ap, inl, inr, false, List, [], ◌∷◌, ◌++◌, map, arith, str_eq, eq_iff,
  eq_refl, if◌then◌else◌, Bool-cases, sum_where, sum_by, All, contains, dedup, ok, Dict, get_or,
  insert, values, lookup-insert, All-map, All-append_split, All-of_map,
}
use max_ed.Contracts.{Invoice, Payment, CreditMemo, Application, Ledger}
use max_ed.Derive.Naive.{add_amount, fill}

abbrev pub at : String → Dict ℤ → ℤ
at k d = get_or k (pos 0) d

at-insert :
    (k j : String) (v : ℤ) (d : Dict ℤ) → at j (insert k v d) ≡ (if str_eq k j then v else at j d)
at-insert k j v d = ground (arith, lookup-insert k j v d)

at-add_amount :
    (k j : String) (n : ℕ) (d : Dict ℤ)
    → SameValue (at j (add_amount k n d)) (at j d +ℤ pos (if str_eq k j then n else 0))
at-add_amount k j n d = elim (Bool-cases (str_eq k j)) [
  | inl same ↦
      let here : at k d ≡ at j d = ap (λ i. at i d) ((eq_iff k j).0 same) in
      rw (at-insert k j (at k d +ℤ pos n) d, same, here) (omega int_laws)
  | inr apart ↦ rw (at-insert k j (at k d +ℤ pos n) d, apart) (omega int_laws)
]

at-sub_amount :
    (k j : String) (n : ℕ) (d : Dict ℤ)
    → SameValue (at j (sub_amount k n d) +ℤ pos (if str_eq k j then n else 0)) (at j d)
at-sub_amount k j n d = elim (Bool-cases (str_eq k j)) [
  | inl same ↦
      let here : at k d ≡ at j d = ap (λ i. at i d) ((eq_iff k j).0 same) in
      rw (at-insert k j (at k d -ℤ pos n) d, same, here) (omega int_laws)
  | inr apart ↦ rw (at-insert k j (at k d -ℤ pos n) d, apart) (omega int_laws)
]

module _ {ℓ} {A : Type ℓ} (id : A → String) (amount : A → ℕ) where
  abbrev brought : String → List A → ℕ
  brought k = sum_where (λ x. str_eq (id x) k) amount

  at-fill :
      (k : String) (xs : List A) (d : Dict ℤ)
      → SameValue (at k (fill id amount xs d)) (at k d +ℤ pos (brought k xs))
  unfolding fill
  at-fill k [] d = omega int_laws
  at-fill k (x ∷ xs) d =
      omega (
        int_laws,
        at-fill k xs (add_amount (id x) (amount x) d),
        at-add_amount (id x) k (amount x) d,
      )

  brought-absent : (k : String) (xs : List A) → contains k (map id xs) ≡ false → brought k xs ≡ 0
  brought-absent k [] h = refl
  brought-absent k (x ∷ xs) h = ground (arith, str_eq_comm k (id x), brought-absent k xs)

  others_apart :
      (k : String) (xs : List A)
      → contains k (map id xs) ≡ false
      → All (λ x. str_eq k (id x) ≡ false) xs
  others_apart k [] h = tt
  others_apart k (x ∷ xs) h = (
    ground (arith, str_eq_comm k (id x)),
    others_apart k xs (ground (arith, str_eq_comm k (id x))),
  )

  -- Each record brings its own amount where no identifier is repeated.
  brought-once : (xs : List A) → UniqueKeys (map id xs) → All (λ x. brought (id x) xs ≡ amount x) xs
  brought-once [] u = tt
  brought-once (x ∷ xs) u = (
    rw (eq_refl (id x)) (omega (arith, brought-absent (id x) xs u.0)),
    All-map _ _ xs (λ y (apart, own). rw apart (omega (arith, own)))
        (All-both _ _ xs (others_apart (id x) xs u.0) (brought-once xs u.1)),
  )

  fill-append :
      (xs ys : List A) (d : Dict ℤ)
      → fill id amount (xs ++ ys) d ≡ fill id amount ys (fill id amount xs d)
  unfolding fill
  fill-append [] ys d = refl
  fill-append (x ∷ xs) ys d = fill-append xs ys (add_amount (id x) (amount x) d)

  fill-map {κ} :
      {B : Type κ} (f : B → A) (ys : List B) (d : Dict ℤ)
      → fill id amount (map f ys) d ≡ fill (λ y. id (f y)) (λ y. amount (f y)) ys d
  unfolding fill
  fill-map f [] d = refl
  fill-map f (y ∷ ys) d = fill-map f ys (add_amount (id (f y)) (amount (f y)) d)

module _ (key : Application → String) where
  abbrev applied_at : String → List Application → ℕ
  applied_at k = sum_where (λ a. str_eq (key a) k) (λ a. a.amount_cents)

  at-deduct :
      (k : String) (apps : List Application) (d : Dict ℤ)
      → SameValue (at k (deduct key apps d) +ℤ pos (applied_at k apps)) (at k d)
  unfolding deduct
  at-deduct k [] d = omega int_laws
  at-deduct k (a ∷ apps) d = omega (
    int_laws,
    at-deduct k apps (sub_amount (key a) a.amount_cents d),
    at-sub_amount (key a) k a.amount_cents d,
  )

-- What is left of each record after the applications.
left_of {ℓ} :
    {A : Type ℓ} (id : A → String) (amount : A → ℕ) (key : Application → String)
    (apps : List Application) (xs : List A)
    → UniqueKeys (map id xs)
    → All
        (λ x.
          at (id x) (deduct key apps (fill id amount xs []))
          ≡ sub_ℕ (amount x) (applied_at key (id x) apps))
        xs
left_of id amount key apps xs u =
    All-map _ _ xs
      (λ x own. omega (
        int_laws,
        own,
        sub_ℕ_parts (amount x) (applied_at key (id x) apps),
        at-deduct key (id x) apps (fill id amount xs []),
        at-fill id amount (id x) xs [],
      ))
      (brought-once id amount xs u)

held-deduct :
    (key : Application → String) (apps : List Application) (d : Dict ℤ)
    → SameValue (held (deduct key apps d) +ℤ pos (sum_by (λ a. a.amount_cents) apps)) (held d)
unfolding deduct
held-deduct key [] d = omega int_laws
held-deduct key (a ∷ apps) d = omega (
  int_laws,
  held-deduct key apps (sub_amount (key a) a.amount_cents d),
  held-insert (key a) (at (key a) d -ℤ pos a.amount_cents) d,
)

dedup_unique : (ks : List String) → UniqueKeys ks → dedup ks ≡ ks
dedup_unique [] u = refl
dedup_unique (k ∷ ks) u = rw (u.0, dedup_unique ks u.1) refl

map-records {ℓ} :
    {A : Type ℓ} (id : A → String) (f : String → ℤ) (g : A → ℤ) (xs : List A)
    → All (λ x. f (id x) ≡ g x) xs
    → map f (map id xs) ≡ map g xs
map-records id f g [] h = refl
map-records id f g (x ∷ xs) h = rw (h.0, map-records id f g xs h.1) refl

sum_over-records {ℓ} :
    {A : Type ℓ} (id : A → String) (g : A → ℤ) (d : Dict ℤ) (xs : List A)
    → UniqueKeys (map id xs)
    → All (λ x. at (id x) d ≡ g x) xs
    → sum_over (map id xs) d ≡ sum_ℤ (map g xs)
sum_over-records id g d xs u h =
    rw (dedup_unique (map id xs) u, map-records id (λ k. at k d) g xs h) refl

module _ (l : Ledger) (s : IsSound l) where
  open_left : All (λ i. at i.id (open_by_invoice l) ≡ open_of l i) l.invoices
  unfolding open_by_invoice applied_to_invoice
  open_left =
      left_of (λ (i : Invoice). i.id) (λ i. i.amount_cents) (λ a. a.target_invoice) l.applications
        l.invoices s.invoice_keys

  source_left :
      All (λ d. at (source_doc_id d) (unapplied_by_source l) ≡ unapplied_of l d) (source_docs l)
  unfolding unapplied_by_source applied_from_source
  source_left =
      let left =
        left_of source_doc_id source_doc_amount (λ (a : Application). a.source_id) l.applications
          (source_docs l) (rw (map-source_doc_id l) s.source_keys) in
      let books : fill source_doc_id source_doc_amount (source_docs l) []
          ≡ fill (λ (c : CreditMemo). c.id) (λ c. c.amount_cents) l.credit_memos
              (fill (λ (p : Payment). p.id) (λ p. p.amount_cents) l.payments []) =
        rw
          (
            fill-append source_doc_id source_doc_amount (map payment l.payments)
                (map credit_memo l.credit_memos) [],
            fill-map source_doc_id source_doc_amount payment l.payments [],
            fill-map source_doc_id source_doc_amount credit_memo l.credit_memos,
          )
          refl in
      subst
        (λ b.
          All
            (λ d.
              at (source_doc_id d) (deduct (λ a. a.source_id) l.applications b) ≡ unapplied_of l d)
            (source_docs l))
        books left

  open_total : sum_ℤ (values (open_by_invoice l)) ≡ open_sum l
  unfolding open_by_invoice sum_ℤ
  open_total =
      let book = fill (λ (i : Invoice). i.id) (λ i. i.amount_cents) l.invoices [] in
      omega (
        int_laws,
        held-deduct (λ a. a.target_invoice) l.applications book,
        held-fill (λ (i : Invoice). i.id) (λ i. i.amount_cents) l.invoices [],
        applied_to_sum l s,
        sum_ℤ-sub (λ (i : Invoice). i.amount_cents) (λ i. applied_to_invoice l i.id) l.invoices,
      )

  sources_split :
      All (λ p. at p.id (unapplied_by_source l) ≡ unapplied_of l (payment p)) l.payments
      × All (λ c. at c.id (unapplied_by_source l) ≡ unapplied_of l (credit_memo c)) l.credit_memos
  sources_split =
      let (in_cash, on_credit) =
        All-append_split _ (map payment l.payments) (map credit_memo l.credit_memos) source_left in
      (All-of_map _ payment l.payments in_cash, All-of_map _ credit_memo l.credit_memos on_credit)

  ids_unique :
      UniqueKeys (map (λ (p : Payment). p.id) l.payments)
      × UniqueKeys (map (λ (c : CreditMemo). c.id) l.credit_memos)
  ids_unique =
      let (in_cash, on_credit, _) =
        UniqueKeys-append (map (λ (p : Payment). p.id) l.payments)
          (map (λ (c : CreditMemo). c.id) l.credit_memos) s.source_keys in
      (in_cash, on_credit)

  totals_same : replayed_totals l ≡ record {
    open_invoice_total = open_sum l;
    unapplied_cash_total = cash_sum l;
    unapplied_credit_total = credit_sum l;
    net_balance = open_sum l -ℤ cash_sum l -ℤ credit_sum l;
  }
  unfolding replayed_totals
  totals_same =
      rw
        (
          open_total,
          sum_over-records (λ (p : Payment). p.id) (λ p. unapplied_of l (payment p))
              (unapplied_by_source l) l.payments ids_unique.0 sources_split.0,
          sum_over-records (λ (c : CreditMemo). c.id) (λ c. unapplied_of l (credit_memo c))
              (unapplied_by_source l) l.credit_memos ids_unique.1 sources_split.1,
        )
        refl

-- On a ledger that validates the replay of the oracle gives what the derivations give: for each
-- invoice its open amount, for each payment and credit memo its unapplied amount, and the four totals
-- of the account.
pub replayed_totals-derived :
    (l : Ledger)
    → validate_ledger l ≡ []
    → All (λ i. open_amount l i.id ≡ ok (at i.id (open_by_invoice l))) l.invoices
      × All
          (λ d.
            unapplied_amount l (source_doc_id d)
            ≡ ok (at (source_doc_id d) (unapplied_by_source l)))
          (source_docs l)
      × (open_invoice_total l ≡ ok (replayed_totals l).open_invoice_total)
      × (unapplied_cash_total l ≡ ok (replayed_totals l).unapplied_cash_total)
      × (unapplied_credit_total l ≡ ok (replayed_totals l).unapplied_credit_total)
      × (net_balance l ≡ ok (replayed_totals l).net_balance)
replayed_totals-derived l valid =
    let s = validate_ledger-IsSound l valid in
    (
      All-map _ _ l.invoices (λ i (a, b). rw b a)
          (All-both _ _ l.invoices (open_amounts l s) (open_left l s)),
      All-map _ _ (source_docs l) (λ d (a, b). rw b a)
          (All-both _ _ (source_docs l) (unapplied_amounts l s) (source_left l s)),
      rw (totals_same l s) (open_invoice_total-eq l s),
      rw (totals_same l s) (unapplied_cash_total-eq l s),
      rw (totals_same l s) (unapplied_credit_total-eq l s),
      rw (totals_same l s) (net_balance-eq l s),
    )
