-- ===== src/Oracle/Readable.antt =====
-- The amounts that `parse_cents` of balancecheck/bench/oracle.py reads: those whose digits `int` takes.
use Prim.Native.Char.{Char, code}
use mathlib.Core.List.{reverse, reverse_aux}
use max_ed.Base.{
  OkWith, ◌≤◌, ◌+◌, ℕ, Bool, not, ◌==◌, length-filter-le, ok, length, ◌≡◌, List, [], ◌∷◌, arith,
  All,
}
use max_ed.Base.Int.{ℤ}
use max_ed.Money.Parse.{digit_limit, read_int, int_of, split_point}
use max_ed.Oracle.Grounding.{without_first, parse_cents}
use max_ed.Regex.{is_space}
use max_ed.Regex.Find.{Match}
use max_ed.Regex.Strip.{strip, strip_by, strip_left, remove_char}

-- What is left of a token is no longer than the token.
length-strip_left : (test : ℕ → Bool) (cs : List Char) → length (strip_left test cs) ≤ length cs
unfolding strip_left
length-strip_left test [] = omega arith
length-strip_left test (c ∷ cs) = ground (arith, length-strip_left test cs)

length-reverse_aux : (xs ys : List Char) → length (reverse_aux xs ys) ≡ length xs + length ys
length-reverse_aux [] ys = omega arith
length-reverse_aux (x ∷ xs) ys = omega (arith, length-reverse_aux xs (x ∷ ys))

length-reverse : (xs : List Char) → length (reverse xs) ≡ length xs
length-reverse xs = omega (arith, length-reverse_aux xs [])

length-strip : (cs : List Char) → length (strip cs) ≤ length cs
unfolding strip strip_by
length-strip cs =
    let left = strip_left is_space cs in
    let both = strip_left is_space (reverse left) in
    omega (
      arith,
      length-reverse both,
      length-strip_left is_space (reverse left),
      length-reverse left,
      length-strip_left is_space cs,
    )

length-without_first : (n : ℕ) (cs : List Char) → length (without_first n cs) ≤ length cs
length-without_first n [] = omega arith
length-without_first n (c ∷ cs) = ground arith

length-split_point : (cs : List Char) → length (split_point cs).0 ≤ length cs
unfolding split_point
length-split_point [] = omega arith
length-split_point (c ∷ cs) = ground (arith, length-split_point cs)

read_int-returns :
    (digits : List Char) → length digits ≤ digit_limit → read_int digits ≡ ok (int_of digits)
read_int-returns digits h = ground arith

pub parse_cents-returns :
    (token : List Char)
    → length token ≤ digit_limit
    → OkWith (λ (v : ℤ). Unit {0}) (parse_cents token)
unfolding parse_cents remove_char
parse_cents-returns token h =
    let s = strip token in
    let bare = without_first b'$' (without_first b'-' s) in
    let short = read_int-returns (split_point (remove_char b',' bare)).0 (
      omega (
        arith,
        h,
        length-split_point (remove_char b',' bare),
        length-filter-le (λ c. not (code c == b',')) bare,
        length-without_first b'$' (without_first b'-' s),
        length-without_first b'-' s,
        length-strip token,
      )) in
    rw short tt

-- Tokens that `int` reads.
abbrev pub Readable : List Match → Type 0
Readable = All (λ (m : Match). length m.group ≤ digit_limit)
