-- ===== src/Regex/Find.antt =====
-- `re.finditer` and `re.split` for patterns that take at least one character.
use Prim.Native.Char.{Char}
use max_ed.Base.{ℕ, zero, suc, ◌+◌, ◌-◌, Option, none, some, List, [], ◌∷◌, length, take}
use mathlib.Core.List.{reverse}
use max_ed.Regex.{Regex, match_at}

-- A match: where it starts and ends, and what it matched.
pub record Match : Type 0 where
  pub start : ℕ
  pub stop : ℕ
  pub group : List Char

-- `skip` characters belong to the match that was found last.
unfoldable pub find_from : Regex → ℕ → ℕ → List Char → List Char → List Match
unfolding match_at
find_from r skip at before [] = []
find_from r (suc skip) at before (c ∷ cs) = find_from r skip (at + 1) (c ∷ before) cs
find_from r zero at before (c ∷ cs) =
    let here = match_at r (record { before = before; rest = c ∷ cs }) in
    elim here [
      | none ↦ find_from r 0 (at + 1) (c ∷ before) cs
      | some p ↦
          let taken = length (c ∷ cs) - length p.rest in
          record { start = at; stop = at + taken; group = take taken (c ∷ cs) }
          ∷ find_from r (taken - 1) (at + 1) (c ∷ before) cs
    ]

-- `r.finditer(s)`
unfoldable pub find_iter : Regex → List Char → List Match
unfolding find_from
find_iter r cs = find_from r 0 0 [] cs

-- `r.search(s)`
unfoldable pub first_match : Regex → List Char → Option Match
unfolding find_iter
first_match r cs = elim (find_iter r cs) [ [] ↦ none | m ∷ ms ↦ some m ]

-- `r.split(s)`: the texts between the matches; `piece` is the current one, last first.
unfoldable pub split_from : Regex → ℕ → List Char → List Char → List Char → List (List Char)
unfolding match_at
split_from r skip piece before [] = reverse piece ∷ []
split_from r (suc skip) piece before (c ∷ cs) = split_from r skip piece (c ∷ before) cs
split_from r zero piece before (c ∷ cs) =
    let here = match_at r (record { before = before; rest = c ∷ cs }) in
    elim here [
      | none ↦ split_from r 0 (c ∷ piece) (c ∷ before) cs
      | some p ↦
          reverse piece ∷ split_from r (length (c ∷ cs) - length p.rest - 1) [] (c ∷ before) cs
    ]

unfoldable pub split : Regex → List Char → List (List Char)
unfolding split_from
split r cs = split_from r 0 [] [] cs
