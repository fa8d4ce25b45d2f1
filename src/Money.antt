-- ===== src/Money.antt =====
-- Money as integer cents, balancecheck/substrate/money.py.
pub mod Percent
pub mod Parse
mod Tests
use Prim.Native.Char.{Char}
use Prim.Native.String.{◌++◌ as append_text}
use max_ed.Base.Int.{ℤ, pos, pos_part, neg_part, ltb_ℤ, leb_ℤ}
use max_ed.Base.{
  ℕ, zero, suc, ◌+◌, ◌*◌, ◌/◌, ◌%◌, String, Bool, ◌||◌, [], ◌∷◌, ltb, ◌==◌, if◌then◌else◌, concat,
  Result, ok, raise, value_error,
}

-- The character of a decimal digit.
abbrev digit_char : ℕ → Char
digit_char zero = "0"
digit_char (suc zero) = "1"
digit_char (suc (suc zero)) = "2"
digit_char (suc (suc (suc zero))) = "3"
digit_char (suc (suc (suc (suc zero)))) = "4"
digit_char (suc (suc (suc (suc (suc zero))))) = "5"
digit_char (suc (suc (suc (suc (suc (suc zero)))))) = "6"
digit_char (suc (suc (suc (suc (suc (suc (suc zero))))))) = "7"
digit_char (suc (suc (suc (suc (suc (suc (suc (suc zero)))))))) = "8"
digit_char _ = "9"

digit : ℕ → String
digit d = String.◌∷◌ (digit_char d) String.[]

-- Python's `str(n)`, before the text `acc`. Each round takes a digit, so `n + 1` rounds suffice.
decimal_onto : ℕ → ℕ → String → String
unfolding digit
decimal_onto zero n acc = acc
decimal_onto (suc fuel) n acc =
    let rest = decimal_onto fuel (n / 10) (append_text (digit (n % 10)) acc) in
    if ltb n 10 then append_text (digit n) acc else rest

unfoldable pub decimal : ℕ → String
unfolding decimal_onto
decimal n = decimal_onto (suc n) n ""

-- `f"{n:02d}"` for n < 100, and the three digits of a group.
two_digits : ℕ → String
unfolding digit
two_digits n = append_text (digit (n / 10 % 10)) (digit (n % 10))

three_digits : ℕ → String
unfolding digit two_digits
three_digits n = append_text (digit (n / 100 % 10)) (two_digits n)

-- `f"{n:,}"`: groups of three digits, with commas.
grouped_onto : ℕ → ℕ → String → String
unfolding decimal three_digits
grouped_onto zero n acc = acc
grouped_onto (suc fuel) n acc =
    let rest =
      grouped_onto fuel (n / 1000) (append_text "," (append_text (three_digits (n % 1000)) acc)) in
    if ltb n 1000 then append_text (decimal n) acc else rest

unfoldable pub grouped : ℕ → String
unfolding grouped_onto
grouped n = grouped_onto (suc n) n ""

unfoldable pub render : ℤ → String
unfolding grouped two_digits concat
render amount =
    let cents = pos_part amount + neg_part amount in
    let sign = if ltb_ℤ amount (pos 0) then "-" else "" in
    concat (sign ∷ "$" ∷ grouped (cents / 100) ∷ "." ∷ two_digits (cents % 100) ∷ [])

-- The rounding of `whole_percent`, on the quotient and the remainder.
abbrev round_half_even : ℕ → ℕ → ℕ → ℕ
round_half_even q r total =
    if ltb (2 * r) total
    then q
    else if ltb total (2 * r)
    then q + 1
    else if q % 2 == 0
    then q
    else q + 1

unfoldable pub whole_percent : ℤ → ℤ → Result ℕ
whole_percent part total =
    if leb_ℤ total (pos 0) || ltb_ℤ part (pos 0)
    then raise (value_error "whole_percent expects part >= 0 and total > 0")
    else let p = pos_part part * 100 in
      let t = pos_part total in ok (round_half_even (p / t) (p % t) t)
