-- ===== src/Base/Elements.antt =====
-- What holds of some element of a list, and what sorting keeps.
use max_ed.Base.Lists.{All, insert_by, sort_by}
use max_ed.Base.Tests.{if◌then◌else◌, Bool-cases}
use mathlib.Core.Path.{◌≡◌, refl}
use mathlib.Core.Logic.{◌⊎◌, inl, inr}
use mathlib.Core.Bool.{Bool, true, false}
use mathlib.Core.List.{List, [], ◌∷◌, ◌++◌}

module _ {ℓ} {A : Type ℓ} where
  -- Some element of the list.
  abbrev pub Any : (A → Type 0) → List A → Type 0
  Any P [] = ⊥
  Any P (x ∷ xs) = P x ⊎ Any P xs

  pub Any-map : (P Q : A → Type 0) (xs : List A) → ((x : A) → P x → Q x) → Any P xs → Any Q xs
  Any-map P Q [] f h = h
  Any-map P Q (x ∷ xs) f (inl p) = inl (f x p)
  Any-map P Q (x ∷ xs) f (inr h) = inr (Any-map P Q xs f h)

  pub Any-append_left : (P : A → Type 0) (xs ys : List A) → Any P xs → Any P (xs ++ ys)
  Any-append_left P [] ys h = absurd h
  Any-append_left P (x ∷ xs) ys (inl p) = inl p
  Any-append_left P (x ∷ xs) ys (inr h) = inr (Any-append_left P xs ys h)

  pub Any-append_right : (P : A → Type 0) (xs ys : List A) → Any P ys → Any P (xs ++ ys)
  Any-append_right P [] ys h = h
  Any-append_right P (x ∷ xs) ys h = inr (Any-append_right P xs ys h)

  -- What holds of some element and of every one holds of one of them together.
  pub Any-All {κ} :
      (P : A → Type 0) (Q : A → Type κ) (R : A → Type 0) (xs : List A)
      → ((x : A) → P x → Q x → R x)
      → Any P xs
      → All Q xs
      → Any R xs
  Any-All P Q R [] f a h = absurd a
  Any-All P Q R (x ∷ xs) f (inl p) h = inl (f x p h.0)
  Any-All P Q R (x ∷ xs) f (inr a) h = inr (Any-All P Q R xs f a h.1)

  -- Where each element gives the conclusion, some element gives it.
  pub Any-elim {κ} :
      {C : Type κ} (P : A → Type 0) (xs : List A) → ((x : A) → P x → C) → Any P xs → C
  Any-elim P [] f h = absurd h
  Any-elim P (x ∷ xs) f (inl p) = f x p
  Any-elim P (x ∷ xs) f (inr h) = Any-elim P xs f h

  -- What holds of every element of the list that is sorted.
  All-insert_by {κ} :
      (P : A → Type κ) (lt : A → A → Bool) (x : A) (xs : List A)
      → P x
      → All P xs
      → All P (insert_by lt x xs)
  All-insert_by P lt x [] p h = (p, tt)
  All-insert_by P lt x (y ∷ ys) p h = elim (Bool-cases (lt y x)) [
    | inl e ↦ rw e (h.0, All-insert_by P lt x ys p h.1)
    | inr e ↦ rw e (p, h)
  ]

  pub All-sort_by {κ} :
      (P : A → Type κ) (lt : A → A → Bool) (xs : List A) → All P xs → All P (sort_by lt xs)
  All-sort_by P lt [] h = tt
  All-sort_by P lt (x ∷ xs) h = All-insert_by P lt x (sort_by lt xs) h.0 (All-sort_by P lt xs h.1)

  if-All {κ} :
      (P : A → Type κ) (b : Bool) (xs ys : List A)
      → All P (if b then xs else ys)
      → ((b ≡ true) × All P xs) ⊎ ((b ≡ false) × All P ys)
  if-All P true xs ys h = inl (refl, h)
  if-All P false xs ys h = inr (refl, h)

  All-of_insert_by {κ} :
      (P : A → Type κ) (lt : A → A → Bool) (x : A) (xs : List A)
      → All P (insert_by lt x xs)
      → P x × All P xs
  All-of_insert_by P lt x [] h = h
  All-of_insert_by P lt x (y ∷ ys) h = elim (if-All P (lt y x) _ _ h) [
    | inl (e, k) ↦ let (p, hs) = All-of_insert_by P lt x ys k.1 in (p, (k.0, hs))
    | inr (e, k) ↦ k
  ]

  pub All-of_sort_by {κ} :
      (P : A → Type κ) (lt : A → A → Bool) (xs : List A) → All P (sort_by lt xs) → All P xs
  All-of_sort_by P lt [] h = tt
  All-of_sort_by P lt (x ∷ xs) h =
      let (p, hs) = All-of_insert_by P lt x (sort_by lt xs) h in (p, All-of_sort_by P lt xs hs)
