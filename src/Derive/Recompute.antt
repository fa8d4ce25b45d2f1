-- ===== src/Derive/Recompute.antt =====
-- The replay of the raw records agrees with the derived net balance (invariant I2).
use max_ed.Base.Int.{ℤ, pos, sub_ℕ, ◌+ℤ◌, ◌-ℤ◌, sub_ℕ_parts, int_laws, sum_ℤ, SameValue}
use max_ed.Contracts.{Invoice, Payment, CreditMemo, Application, Ledger}
use max_ed.Base.{
  ℕ, ◌+◌, String, ◌≡◌, refl, ap, Bool, true, ◌||◌, List, [], ◌∷◌, map, arith, str_eq, is_some,
  sum_by, All, contains, ok, Dict, lookup, get_or, insert, values, lookup-insert, All-map,
}
use max_ed.Derive.{net_balance}
use max_ed.Derive.Balance.{IsSound, validate_ledger-IsSound}
use max_ed.Derive.Naive.{add_amount, fill, take_amount, replay, recompute_net_balance_naive}
use max_ed.Derive.Totals.{invoiced, paid_in, credited, net_balance-conserved}
use max_ed.Derive.Unique.{contains-append}
use max_ed.Derive.Validate.{validate_ledger}

abbrev pub has_key : String → Dict ℤ → Bool
has_key k d = is_some (lookup k d)

abbrev pub held : Dict ℤ → ℤ
held d = sum_ℤ (values d)

pub held-insert :
    (k : String) (v : ℤ) (d : Dict ℤ)
    → SameValue (held (insert k v d) +ℤ get_or k (pos 0) d) (held d +ℤ v)
unfolding sum_ℤ
held-insert k v [] = omega int_laws
held-insert k v ((j, w) ∷ d) = grind (int_laws, held-insert k v d)

held-add_amount :
    (k : String) (n : ℕ) (d : Dict ℤ) → SameValue (held (add_amount k n d)) (held d +ℤ pos n)
held-add_amount k n d = omega (int_laws, held-insert k (get_or k (pos 0) d +ℤ pos n) d)

pub has_key-insert :
    (k j : String) (v : ℤ) (d : Dict ℤ) → has_key j (insert k v d) ≡ (str_eq k j || has_key j d)
has_key-insert k j v d = rw (lookup-insert k j v d) (ground arith)

module _ {ℓ} {A : Type ℓ} (id : A → String) (amount : A → ℕ) where
  pub held-fill :
      (xs : List A) (d : Dict ℤ)
      → SameValue (held (fill id amount xs d)) (held d +ℤ pos (sum_by amount xs))
  unfolding fill
  held-fill [] d = omega int_laws
  held-fill (x ∷ xs) d =
      omega (
        int_laws,
        held-fill xs (add_amount (id x) (amount x) d),
        held-add_amount (id x) (amount x) d,
      )

  pub has_key-fill :
      (k : String) (xs : List A) (d : Dict ℤ)
      → has_key k (fill id amount xs d) ≡ (contains k (map id xs) || has_key k d)
  unfolding fill
  has_key-fill k [] d = refl
  has_key-fill k (x ∷ xs) d =
      rw (has_key-fill k xs (add_amount (id x) (amount x) d), has_key-insert (id x) k)
        (ground arith)

-- One deduction from a known entry succeeds, lowers the sum and keeps the entries.
take_amount_lem :
    (k : String) (n : ℕ) (d : Dict ℤ)
    → has_key k d ≡ true
    → (d' : Dict ℤ) × (take_amount k n d ≡ ok d')
      × SameValue (held d' +ℤ pos n) (held d)
      × ((j : String) → has_key j d ≡ true → has_key j d' ≡ true)
unfolding take_amount
take_amount_lem k n d h =
    let v = get_or k (pos 0) d -ℤ pos n in
    (
      insert k v d,
      ground arith,
      omega (int_laws, held-insert k v d),
      (λ j e. rw (has_key-insert k j v d, e) (ground arith)),
    )

abbrev Known : (Application → String) → List Application → Dict ℤ → Type 0
Known key apps d = All (λ a. has_key (key a) d ≡ true) apps

abbrev applied_sum : List Application → ℕ
applied_sum = sum_by (λ a. a.amount_cents)

replay_lem :
    (apps : List Application) (r c : Dict ℤ)
    → Known (λ a. a.target_invoice) apps r
    → Known (λ a. a.source_id) apps c
    → (r' : Dict ℤ) × (c' : Dict ℤ) × (replay apps (r, c) ≡ ok (r', c'))
      × SameValue (held r' +ℤ pos (applied_sum apps)) (held r)
      × SameValue (held c' +ℤ pos (applied_sum apps)) (held c)
unfolding replay
replay_lem [] r c hr hc = (r, c, refl, omega int_laws, omega int_laws)
replay_lem (a ∷ apps) r c hr hc =
    let (r₁, er, sr, kr) = take_amount_lem a.target_invoice a.amount_cents r hr.0 in
    let (c₁, ec, sc, kc) = take_amount_lem a.source_id a.amount_cents c hc.0 in
    let (r', c', e, tr, tc) =
      replay_lem apps r₁ c₁ (All-map _ _ apps (λ b. kr b.target_invoice) hr.1)
        (All-map _ _ apps (λ b. kc b.source_id) hc.1) in
    (r', c', rw (er, ec) e, omega int_laws, omega int_laws)

held-nil : SameValue (held []) (pos 0)
unfolding sum_ℤ
held-nil = refl

invoices-Known :
    (l : Ledger)
    → IsSound l
    → Known
        (λ a. a.target_invoice)
        l.applications
        (fill (λ (i : Invoice). i.id) (λ i. i.amount_cents) l.invoices [])
invoices-Known l s =
    All-map _ _ l.applications
      (λ a e. ground (
        arith,
        e,
        has_key-fill (λ (i : Invoice). i.id) (λ i. i.amount_cents) a.target_invoice l.invoices [],
      ))
      s.targets

sources-Known :
    (l : Ledger)
    → IsSound l
    → Known
        (λ a. a.source_id)
        l.applications
        (fill
          (λ (c : CreditMemo). c.id)
          (λ c. c.amount_cents)
          l.credit_memos
          (fill (λ (p : Payment). p.id) (λ p. p.amount_cents) l.payments []))
sources-Known l s =
    All-map _ _ l.applications
      (λ a e. ground (
        arith,
        e,
        contains-append a.source_id (map (λ (p : Payment). p.id) l.payments)
            (map (λ (c : CreditMemo). c.id) l.credit_memos),
        has_key-fill (λ (c : CreditMemo). c.id) (λ c. c.amount_cents) a.source_id l.credit_memos
            (fill (λ (p : Payment). p.id) (λ p. p.amount_cents) l.payments []),
        has_key-fill (λ (p : Payment). p.id) (λ p. p.amount_cents) a.source_id l.payments [],
      ))
      s.sources

recompute_sound :
    (l : Ledger)
    → IsSound l
    → recompute_net_balance_naive l ≡ ok (sub_ℕ (invoiced l) (paid_in l + credited l))
unfolding recompute_net_balance_naive
recompute_sound l s =
    let r = fill (λ (i : Invoice). i.id) (λ i. i.amount_cents) l.invoices [] in
    let p = fill (λ (p : Payment). p.id) (λ p. p.amount_cents) l.payments [] in
    let c = fill (λ (c : CreditMemo). c.id) (λ c. c.amount_cents) l.credit_memos p in
    let (r', c', e, tr, tc) =
      replay_lem l.applications r c (invoices-Known l s) (sources-Known l s) in
    let nothing : SameValue (held []) (pos 0) = held-nil in
    rw e (
      ap ok (
        omega (
          int_laws,
          sub_ℕ_parts (invoiced l) (paid_in l + credited l),
          held-fill (λ (i : Invoice). i.id) (λ i. i.amount_cents) l.invoices [],
          held-fill (λ (p : Payment). p.id) (λ p. p.amount_cents) l.payments [],
          held-fill (λ (c : CreditMemo). c.id) (λ c. c.amount_cents) l.credit_memos p,
        )))

-- A ledger that validates has a net balance, which is what was invoiced less what was paid and
-- credited, however the money is applied to invoices.
pub net_balance_conservation :
    (l : Ledger)
    → validate_ledger l ≡ []
    → net_balance l ≡ ok (sub_ℕ (invoiced l) (paid_in l + credited l))
net_balance_conservation l h = net_balance-conserved l (validate_ledger-IsSound l h)

-- On a ledger that validates neither computation raises, and the replay of the raw records gives
-- the derived net balance.
pub recompute-net_balance :
    (l : Ledger)
    → validate_ledger l ≡ []
    → (net : ℤ) × (net_balance l ≡ ok net) × (recompute_net_balance_naive l ≡ ok net)
recompute-net_balance l h =
    let s = validate_ledger-IsSound l h in
    (sub_ℕ (invoiced l) (paid_in l + credited l), net_balance-conserved l s, recompute_sound l s)
