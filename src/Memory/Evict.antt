-- ===== src/Memory/Evict.antt =====
-- The loop that evicts the oldest entries of a class, and the counts that it leaves.
use mathlib.Core.Path.{subst}
use max_ed.Base.{
  insert_by, sort_by, ℕ, zero, suc, ◌+◌, ◌≤◌, String, ◌≡◌, refl, sym, ◌⊎◌, inl, inr, Bool, true,
  false, Option, none, some, List, [], ◌∷◌, arith, eq_refl, ltb, if◌then◌else◌, ==_iff, Bool-cases,
  &&_left, length, any, filter,
}
use max_ed.Contracts.{MemoryEntry}
use max_ed.Memory.{
  class_cap, in_class, older, oldest, remove_first, is_entry, remove_entry, class_size, evict,
}

module _ {ℓ} {A : Type ℓ} (lt : A → A → Bool) (p : A → Bool) where
  count-insert_by :
      (x : A) (xs : List A) → length (filter p (insert_by lt x xs)) ≡ length (filter p (x ∷ xs))
  count-insert_by x [] = refl
  count-insert_by x (y ∷ ys) = ground (arith, count-insert_by x ys)

  -- Sorting keeps each count.
  pub count-sort_by : (xs : List A) → length (filter p (sort_by lt xs)) ≡ length (filter p xs)
  count-sort_by [] = refl
  count-sort_by (x ∷ xs) = ground (arith, count-sort_by xs, count-insert_by x (sort_by lt xs))

module _ {ℓ} {A : Type ℓ} (q p : A → Bool) where
  -- A removal raises no count.
  count-remove_first-le :
      (xs : List A) → length (filter q (remove_first p xs)) ≤ length (filter q xs)
  count-remove_first-le [] = omega arith
  count-remove_first-le (x ∷ xs) = ground (arith, count-remove_first-le xs)

  -- It takes one from the count of a test that what it removes passes.
  count-remove_first :
      (xs : List A)
      → ((x : A) → p x ≡ true → q x ≡ true)
      → any p xs ≡ true
      → length (filter q (remove_first p xs)) + 1 ≡ length (filter q xs)
  count-remove_first [] f h = cc
  count-remove_first (x ∷ xs) f h = ground (arith, f x, count-remove_first xs f)

-- The oldest entry is the head or the oldest of the rest.
oldest-cons :
    (key : List Bool) (e o : MemoryEntry) (es : List MemoryEntry)
    → oldest key (e ∷ es) ≡ some o
    → ((in_class key e ≡ true) × (o ≡ e)) ⊎ (oldest key es ≡ some o)
unfolding oldest
oldest-cons key e o es h = go (in_class key e) (oldest key es) refl h
  where
    go :
        (b : Bool) (rest : Option MemoryEntry)
        → in_class key e ≡ b
        → (if b
            then elim rest [ none ↦ some e | some r ↦ if older r e then some r else some e ]
            else rest)
          ≡ some o
        → ((in_class key e ≡ true) × (o ≡ e)) ⊎ (rest ≡ some o)
    go false rest k h = inr h
    go true none k h = inl (k, cc)
    go true (some r) k h = elim (Bool-cases (older r e)) [
      | inl yes_older ↦ inr (ground arith)
      | inr not_older ↦ inl (k, ground arith)
    ]

is_entry_refl :
    (key : List Bool) (o : MemoryEntry) → in_class key o ≡ true → is_entry key o o ≡ true
unfolding is_entry
is_entry_refl key o h =
    rw (h, (==_iff o.ingested_offset o.ingested_offset).1 refl, eq_refl o.entry_id)

-- The oldest entry of a class is in the list.
any-oldest :
    (key : List Bool) (o : MemoryEntry) (es : List MemoryEntry)
    → oldest key es ≡ some o
    → any (is_entry key o) es ≡ true
unfolding oldest
any-oldest key o [] h = cc
any-oldest key o (e ∷ es) h = elim (oldest-cons key e o es h) [
  | inl (mine, same) ↦
      let hit = subst (λ x. is_entry key x e ≡ true) (sym same) (is_entry_refl key e mine) in
      rw (hit)
  | inr later ↦ ground (arith, any-oldest key o es later)
]

-- A class that is not empty has an oldest entry.
oldest-none :
    (key : List Bool) (es : List MemoryEntry) → oldest key es ≡ none → class_size key es ≡ 0
unfolding oldest
oldest-none key [] h = refl
oldest-none key (e ∷ es) h = go (in_class key e) (oldest key es) h (oldest-none key es)
  where
    go :
        (b : Bool) (rest : Option MemoryEntry)
        → (if b
            then elim rest [ none ↦ some e | some r ↦ if older r e then some r else some e ]
            else rest)
          ≡ none
        → (rest ≡ none → class_size key es ≡ 0)
        → length (if b then e ∷ filter (in_class key) es else filter (in_class key) es) ≡ 0
    go false rest k ih = ih k
    go true none k ih = cc
    go true (some r) k ih = elim (Bool-cases (older r e)) [
      | inl yes_older ↦ let k' = rw yes_older at k in cc
      | inr not_older ↦ let k' = rw not_older at k in cc
    ]

is_entry-in_class :
    (key : List Bool) (o e : MemoryEntry) → is_entry key o e ≡ true → in_class key e ≡ true
unfolding is_entry
is_entry-in_class key o e h = &&_left _ _ h

le_of_ltb : (a b : ℕ) → ltb a b ≡ false → b ≤ a
le_of_ltb a b h = ground arith

-- A property of what one round of the loop leaves.
evict-suc :
    (P : List MemoryEntry → Type 0) (fuel : ℕ) (key : List Bool) (es : List MemoryEntry)
    → (ltb class_cap (class_size key es) ≡ false → P es)
    → (oldest key es ≡ none → P es)
    → ((x : MemoryEntry) → oldest key es ≡ some x → P (evict fuel key (remove_entry key x es)).0)
    → P (evict (suc fuel) key es).0
unfolding evict
evict-suc P fuel key es small none_left more =
    go (ltb class_cap (class_size key es)) (oldest key es) refl refl
  where
    go :
        (b : Bool) (o : Option MemoryEntry)
        → ltb class_cap (class_size key es) ≡ b
        → oldest key es ≡ o
        → P
            (if◌then◌else◌ {A = List MemoryEntry × List String} b
              (elim o [
                | none ↦ (es, [])
                | some x ↦
                    let rest = evict fuel key (remove_entry key x es) in
                    (rest.0, x.entry_id ∷ rest.1)
              ])
              (es, [])).0
    go false o e k = small e
    go true none e k = none_left k
    go true (some x) e k = more x k

-- The loop raises no count.
pub count-evict-le :
    (q : MemoryEntry → Bool) (fuel : ℕ) (key : List Bool) (es : List MemoryEntry)
    → length (filter q (evict fuel key es).0) ≤ length (filter q es)
unfolding evict
count-evict-le q zero key es = omega arith
count-evict-le q (suc fuel) key es =
    evict-suc (λ ks. length (filter q ks) ≤ length (filter q es)) fuel key es (λ e. omega arith)
      (λ e. omega arith)
      (λ x e. omega (
        arith,
        count-evict-le q fuel key (remove_entry key x es),
        count-remove_first-le q (is_entry key x) es,
      ))

-- It leaves its class within the cap where the fuel covers the class.
pub evict-cap :
    (fuel : ℕ) (key : List Bool) (es : List MemoryEntry)
    → class_size key es ≤ fuel
    → class_size key (evict fuel key es).0 ≤ class_cap
unfolding evict
evict-cap zero key es h = omega arith
evict-cap (suc fuel) key es h =
    evict-suc (λ ks. class_size key ks ≤ class_cap) fuel key es
      (le_of_ltb class_cap (class_size key es)) (λ k. omega (arith, oldest-none key es k))
      (λ x k.
        let taken =
          count-remove_first (in_class key) (is_entry key x) es (is_entry-in_class key x)
            (any-oldest key x es k) in
        evict-cap fuel key (remove_entry key x es) (omega (arith, taken, h)))
