-- ===== src/Base/Results.antt =====
-- A Python call that may raise: its value, or the exception with its text.
use max_ed.Base.Lists.{All, All₂}
use max_ed.Base.Tests.{if◌then◌else◌}
use Prim.Native.String.{String}
use mathlib.Core.Path.{◌≡◌, refl, subst}
use mathlib.Core.Bool.{Bool, true, false}
use mathlib.Core.List.{List, [], ◌∷◌, map}
use mathlib.Core.Option.{Option, none, some}

pub data Error : Type 0 where
  key_error value_error overflow_error runtime_error : String → Error

pub data Result {ℓ} (A : Type ℓ) : Type ℓ where
  ok : A → Result A
  raise : Error → Result A

infixl 5 ◌>>=◌
abbrev pub ◌>>=◌ {ℓ κ} : {A : Type ℓ} {B : Type κ} → Result A → (A → Result B) → Result B
raise e >>= next = raise e
ok a >>= next = next a

module _ {ℓ} {A : Type ℓ} where
  abbrev pub or_raise : Option A → Error → Result A
  or_raise none e = raise e
  or_raise (some a) e = ok a

-- A comprehension over calls that may raise: the first raise ends it.
abbrev pub traverse {ℓ κ} : {A : Type ℓ} {B : Type κ} → (A → Result B) → List A → Result (List B)
traverse f [] = ok []
traverse f (x ∷ xs) = do y ← f x; ys ← traverse f xs; ok (y ∷ ys)

-- A filter whose test may raise.
abbrev pub filter_result {ℓ} : {A : Type ℓ} → (A → Result Bool) → List A → Result (List A)
filter_result p [] = ok []
filter_result p (x ∷ xs) = do
  keep ← p x
  rest ← filter_result p xs
  ok (if keep then x ∷ rest else rest)

module _ {ℓ κ} {A : Type ℓ} {B : Type κ} where
  -- What two calls in a chain returned, where the chain returns.
  pub >>=-eq-ok :
      {last : B} (first : Result A) (next : A → Result B)
      → (first >>= next) ≡ ok last
      → (middle : A) × (first ≡ ok middle) × (next middle ≡ ok last)
  >>=-eq-ok (raise e) next returned = cc
  >>=-eq-ok (ok middle) next returned = (middle, refl, returned)

-- Calls whose values are known give a comprehension of these values.
pub traverse-eq-ok {ℓ κ} :
    {A : Type ℓ} {B : Type κ} (f : A → Result B) (g : A → B) (xs : List A)
    → All (λ x. f x ≡ ok (g x)) xs
    → traverse f xs ≡ ok (map g xs)
traverse-eq-ok f g [] h = refl
traverse-eq-ok f g (x ∷ xs) h = rw (h.0, traverse-eq-ok f g xs h.1)

-- A result that returns a value with the property.
abbrev pub OkWith {ℓ} : {A : Type ℓ} → (A → Type 0) → Result A → Type 0
OkWith P (ok a) = P a
OkWith P (raise e) = ⊥

-- A comprehension that returns has a value for each element.
pub traverse-All₂ {ℓ} :
    {A : Type ℓ} {B : Type 0} (f : A → Result B) (xs : List A) (ys : List B)
    → traverse f xs ≡ ok ys
    → All₂ (λ x y. f x ≡ ok y) xs ys
traverse-All₂ f [] ys e = subst (OkWith (All₂ (λ x y. f x ≡ ok y) [])) e tt
traverse-All₂ f (x ∷ xs) ys e =
    let (z, ez, e1) = >>=-eq-ok (f x) (λ y. traverse f xs >>= λ zs. ok (y ∷ zs)) e in
    let (zs, ezs, e2) = >>=-eq-ok (traverse f xs) (λ zs. ok (z ∷ zs)) e1 in
    subst (OkWith (All₂ (λ x y. f x ≡ ok y) (x ∷ xs))) e2 (ez, traverse-All₂ f xs zs ezs)

-- Calls that all return give a comprehension that returns.
pub traverse-returns {ℓ κ} :
    {A : Type ℓ} {B : Type κ} (f : A → Result B) (xs : List A)
    → All (λ x. (y : B) × (f x ≡ ok y)) xs
    → (ys : List B) × (traverse f xs ≡ ok ys)
traverse-returns f [] h = ([], refl)
traverse-returns f (x ∷ xs) h =
    let (y, ey) = h.0 in let (ys, eys) = traverse-returns f xs h.1 in (y ∷ ys, rw (ey, eys) refl)

-- What a call that returns has: nothing is said of one that raises.
abbrev pub Ensures {ℓ} : {A : Type ℓ} → (A → Type 0) → Result A → Type 0
Ensures Q (ok a) = Q a
Ensures Q (raise e) = Unit

module _ {ℓ} {A : Type ℓ} (Q : A → Type 0) where
  pub Ensures-ok : (m : Result A) {a : A} → Ensures Q m → m ≡ ok a → Q a
  Ensures-ok m h e = subst (Ensures Q) e h

  pub if-Ensures :
      (b : Bool) (x y : Result A)
      → (b ≡ true → Ensures Q x)
      → (b ≡ false → Ensures Q y)
      → Ensures Q (if b then x else y)
  if-Ensures true x y h k = h refl
  if-Ensures false x y h k = k refl

  pub >>=-Ensures {κ} :
      {B : Type κ} (m : Result B) (f : B → Result A)
      → ((b : B) → m ≡ ok b → Ensures Q (f b))
      → Ensures Q (m >>= f)
  >>=-Ensures (ok b) f h = h b refl
  >>=-Ensures (raise e) f h = tt

  pub if-OkWith :
      (b : Bool) (x y : Result A)
      → (b ≡ true → OkWith Q x)
      → (b ≡ false → OkWith Q y)
      → OkWith Q (if b then x else y)
  if-OkWith true x y h k = h refl
  if-OkWith false x y h k = k refl

  pub >>=-OkWith {κ} :
      {B : Type κ} (P : B → Type 0) (m : Result B) (f : B → Result A)
      → OkWith P m
      → ((b : B) → P b → OkWith Q (f b))
      → OkWith Q (m >>= f)
  >>=-OkWith P (ok b) f h g = g b h
  >>=-OkWith P (raise e) f h g = absurd h

  pub OkWith-ok : (m : Result A) → OkWith Q m → (a : A) × (m ≡ ok a) × Q a
  OkWith-ok (ok a) h = (a, refl, h)
  OkWith-ok (raise e) h = absurd h
