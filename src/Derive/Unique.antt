-- ===== src/Derive/Unique.antt =====
-- Lists of identifiers with no repetition, as the validation's count of a set finds them.
use max_ed.Base.{
  ◌≤◌, String, ◌≡◌, refl, false, ◌||◌, Option, none, some, List, [], ◌∷◌, ◌++◌, map, arith, str_eq,
  eq_iff, eq_refl, length, find, All, contains, dedup,
}

-- No identifier is listed twice.
abbrev pub UniqueKeys : List String → Type 0
UniqueKeys [] = Unit
UniqueKeys (k ∷ ks) = (contains k ks ≡ false) × UniqueKeys ks

pub str_eq_comm : (s t : String) → str_eq s t ≡ str_eq t s
str_eq_comm s t = ground (arith, eq_iff s t, eq_iff t s)

length-dedup-le : (ks : List String) → length (dedup ks) ≤ length ks
length-dedup-le [] = omega arith
length-dedup-le (k ∷ ks) = ground (arith, length-dedup-le ks)

-- A set that has as many members as the list has elements shows that none is repeated.
pub UniqueKeys-of_count : (ks : List String) → length (dedup ks) ≡ length ks → UniqueKeys ks
UniqueKeys-of_count [] h = tt
UniqueKeys-of_count (k ∷ ks) h = ground (arith, length-dedup-le ks, UniqueKeys-of_count ks)

pub contains-append :
    (k : String) (ks js : List String) → contains k (ks ++ js) ≡ (contains k ks || contains k js)
contains-append k [] js = refl
contains-append k (i ∷ ks) js = ground (arith, contains-append k ks js)

-- No element of the first list is in the second.
abbrev pub Disjoint : List String → List String → Type 0
Disjoint [] js = Unit
Disjoint (k ∷ ks) js = (contains k js ≡ false) × Disjoint ks js

pub UniqueKeys-append :
    (ks js : List String) → UniqueKeys (ks ++ js) → UniqueKeys ks × UniqueKeys js × Disjoint ks js
UniqueKeys-append [] js h = (tt, h, tt)
UniqueKeys-append (k ∷ ks) js h =
    let (uk, uj, d) = UniqueKeys-append ks js h.1 in
    (
      (ground (arith, contains-append k ks js), uk),
      uj,
      (ground (arith, contains-append k ks js), d),
    )

module _ {ℓ} {A : Type ℓ} (key : A → String) where
  -- The first element with an identifier.
  abbrev pub find_key : String → List A → Option A
  find_key k xs = find (λ x. str_eq (key x) k) xs

  -- Each element of the list is what a search for its identifier finds.
  abbrev pub FindsSelf : List A → List A → Type ℓ
  FindsSelf ys = All (λ x. find_key (key x) ys ≡ some x)

  find_key-absent :
      (k : String) (xs : List A) → contains k (map key xs) ≡ false → find_key k xs ≡ none
  find_key-absent k [] h = refl
  find_key-absent k (x ∷ xs) h = ground (arith, find_key-absent k xs)

  pub find_key-append_absent :
      (k : String) (xs ys : List A)
      → contains k (map key xs) ≡ false
      → find_key k (xs ++ ys) ≡ find_key k ys
  find_key-append_absent k [] ys h = refl
  find_key-append_absent k (x ∷ xs) ys h = ground (arith, find_key-append_absent k xs ys)

  ne_of_contains :
      (k : String) (y : A) (ys : List A)
      → contains k (map key (y ∷ ys)) ≡ false
      → (str_eq k (key y) ≡ false) × (contains k (map key ys) ≡ false)
  ne_of_contains k y ys h = ground (arith, str_eq_comm k (key y))

  FindsSelf-cons :
      (x : A) (zs ys : List A)
      → contains (key x) (map key ys) ≡ false
      → FindsSelf zs ys
      → FindsSelf (x ∷ zs) ys
  FindsSelf-cons x zs [] h f = tt
  FindsSelf-cons x zs (y ∷ ys) h f =
      let (ne, rest) = ne_of_contains (key x) y ys h in (rw ne f.0, FindsSelf-cons x zs ys rest f.1)

  pub UniqueKeys-FindsSelf : (xs : List A) → UniqueKeys (map key xs) → FindsSelf xs xs
  UniqueKeys-FindsSelf [] h = tt
  UniqueKeys-FindsSelf (x ∷ xs) h =
      (rw eq_refl, FindsSelf-cons x xs xs h.0 (UniqueKeys-FindsSelf xs h.1))
