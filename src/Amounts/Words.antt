-- ===== src/Amounts/Words.antt =====
-- `_words_to_dollars` of balancecheck/drafting/surface.py: a phrase of number words.
use Prim.Native.Char.{code}
use max_ed.Base.{
  ℕ, ◌+◌, ◌*◌, String, Bool, ◌||◌, Option, none, some, List, [], ◌∷◌, map, ◌==◌, if◌then◌else◌,
  is_empty, value_error, Result, ok, raise, ◌>>=◌,
}
use max_ed.Regex.{chars, is_space}
use max_ed.Regex.Strip.{split_words, same_word}

-- `_UNITS`
abbrev pub units : List (String × ℕ)
units =
    ("one", 1)
    ∷ ("two", 2)
    ∷ ("three", 3)
    ∷ ("four", 4)
    ∷ ("five", 5)
    ∷ ("six", 6)
    ∷ ("seven", 7)
    ∷ ("eight", 8)
    ∷ ("nine", 9)
    ∷ ("ten", 10)
    ∷ ("eleven", 11)
    ∷ ("twelve", 12)
    ∷ ("thirteen", 13)
    ∷ ("fourteen", 14)
    ∷ ("fifteen", 15)
    ∷ ("sixteen", 16)
    ∷ ("seventeen", 17)
    ∷ ("eighteen", 18)
    ∷ ("nineteen", 19)
    ∷ ("twenty", 20)
    ∷ ("thirty", 30)
    ∷ ("forty", 40)
    ∷ ("fifty", 50)
    ∷ ("sixty", 60)
    ∷ ("seventy", 70)
    ∷ ("eighty", 80)
    ∷ ("ninety", 90)
    ∷ []

unfoldable pub is_text : String → List ℕ → Bool
unfolding chars same_word
is_text s word = same_word (map (λ c. code c) (chars s)) word

unfoldable pub unit_value : List (String × ℕ) → List ℕ → Option ℕ
unfolding is_text
unit_value [] word = none
unit_value ((s, n) ∷ us) word = if is_text s word then some n else unit_value us word

-- `current or 1`
abbrev pub or_one : ℕ → ℕ
or_one n = if n == 0 then 1 else n

-- One round of the loop, on `total` and `current`.
unfoldable pub add_word : List ℕ → ℕ × ℕ → Result (ℕ × ℕ)
unfolding is_text unit_value
add_word word (total, current) =
    if is_text "and" word then ok (total, current) else elim (unit_value units word) [
      | some n ↦ ok (total, current + n)
      | none ↦
          if is_text "hundred" word
          then ok (total, or_one current * 100)
          else if is_text "thousand" word
          then ok (total + or_one current * 1000, 0)
          else raise (value_error "unknown number word")
    ]

unfoldable pub add_words : List (List ℕ) → ℕ × ℕ → Result (ℕ × ℕ)
unfolding add_word
add_words [] state = ok state
add_words (word ∷ words) state = add_word word state >>= λ next. add_words words next

unfoldable pub words_to_dollars : List ℕ → Result ℕ
unfolding add_words split_words
words_to_dollars text =
    let tokens = split_words (λ n. is_space n || n == b'-') text in
    if is_empty tokens
    then raise (value_error "empty number-word phrase")
    else (add_words tokens (0, 0) >>= λ (total, current).
        if total + current == 0
        then raise (value_error "number-word phrase resolved to nothing")
        else ok (total + current))
