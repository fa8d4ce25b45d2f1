-- ===== src/Memory/Cap.antt =====
-- The store stays within its cap for each class, and holds Pool A alone, whatever is added.
use mathlib.Core.Path.{subst}
use max_ed.Base.{
  sort_by, ◌+◌, ◌≤◌, String, ◌≡◌, refl, ap, inl, inr, Bool, true, false, not, List, [], ◌∷◌, ◌++◌,
  arith, str_eq, if◌then◌else◌, Bool-cases, length, any, filter, length-filter-le, ok, Ensures-ok,
  if-Ensures, not-false,
}
use max_ed.Contracts.{MemoryEntry}
use max_ed.Memory.Evict.{count-sort_by, count-evict-le, evict-cap}
use max_ed.Memory.{
  class_cap, class_key, same_bits, in_class, older, sort_by, class_size, evict, is_pool_a, add,
}

same_bits-eq : (xs ys : List Bool) → same_bits xs ys ≡ true → xs ≡ ys
same_bits-eq [] [] h = refl
same_bits-eq (true ∷ xs) (true ∷ ys) h = ap (λ zs. true ∷ zs) (same_bits-eq xs ys h)
same_bits-eq (false ∷ xs) (false ∷ ys) h = ap (λ zs. false ∷ zs) (same_bits-eq xs ys h)
same_bits-eq [] (y ∷ ys) h = cc
same_bits-eq (true ∷ xs) [] h = cc
same_bits-eq (false ∷ xs) [] h = cc
same_bits-eq (true ∷ xs) (false ∷ ys) h = cc
same_bits-eq (false ∷ xs) (true ∷ ys) h = cc

in_class-eq :
    (key : List Bool) (e : MemoryEntry) → in_class key e ≡ true → class_key e.signature ≡ key
unfolding in_class
in_class-eq key e h = same_bits-eq (class_key e.signature) key h

-- The well-formed stores: at most the cap of each class, and Pool A alone.
pub record IsStore (es : List MemoryEntry) : Type 0 where
  pub capped : (key : List Bool) → class_size key es ≤ class_cap
  pub pool_a_only : length (filter (λ (e : MemoryEntry). not (is_pool_a e.pool)) es) ≡ 0

count-snoc :
    (q : MemoryEntry → Bool) (es : List MemoryEntry) (e : MemoryEntry)
    → length (filter q (es ++ (e ∷ []))) ≡ length (filter q es) + (if q e then 1 else 0)
count-snoc q [] e = ground arith
count-snoc q (x ∷ es) e = ground (arith, count-snoc q es e)

-- What a fresh entry of Pool A leaves.
fresh-IsStore :
    (e : MemoryEntry) (es : List MemoryEntry)
    → IsStore es
    → is_pool_a e.pool ≡ true
    → (let more = es ++ (e ∷ []) in
        IsStore (sort_by older (evict (length more) (class_key e.signature) more).0))
fresh-IsStore e es s pool =
    let more = es ++ (e ∷ []) in
    let mine = class_key e.signature in
    let kept = (evict (length more) mine more).0 in
    record {
      capped = λ key.
          let sorted = count-sort_by older (in_class key) kept in
          elim (Bool-cases (in_class key e)) [
            | inl hit ↦
                let same = in_class-eq key e hit in
                let cap =
                  evict-cap (length more) mine more (length-filter-le (in_class mine) more) in
                omega (arith, sorted, subst (λ k. class_size k kept ≤ class_cap) same cap)
            | inr miss ↦
                let snoc = rw miss at (count-snoc (in_class key) es e) in
                omega (
                  arith,
                  sorted,
                  snoc,
                  count-evict-le (in_class key) (length more) mine more,
                  s.capped key,
                )
          ];
      pool_a_only =
          let bad = λ (x : MemoryEntry). not (is_pool_a x.pool) in
          let snoc = rw pool at (count-snoc bad es e) in
          omega (
            arith,
            count-sort_by older bad kept,
            snoc,
            count-evict-le bad (length more) mine more,
            s.pool_a_only,
          );
    }

-- Whatever entry is added to a well-formed store, the store after it is well-formed: at most three
-- entries in each class, and Pool A alone.
pub add-IsStore :
    (e : MemoryEntry) (es : List MemoryEntry) (after : List MemoryEntry × List String)
    → IsStore es
    → add e es ≡ ok after
    → IsStore after.0
unfolding add
add-IsStore e es after s h =
    let Good : List MemoryEntry × List String → Type 0 = λ r. IsStore r.0 in
    Ensures-ok Good _
      (if-Ensures Good (not (is_pool_a e.pool)) _ _ (λ b. tt)
        (λ b.
          if-Ensures Good (any (λ (x : MemoryEntry). str_eq x.entry_id e.entry_id) es) _ _ (λ d. s)
            (λ d. fresh-IsStore e es s (not-false _ b))))
      h
