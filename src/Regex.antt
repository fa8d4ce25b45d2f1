-- ===== src/Regex.antt =====
-- The part of Python's `re` and of `str` that the program uses: a backtracking matcher over the
-- characters of a text, greedy and leftmost as Python's. `\d`, `\s` and `\w` are their ASCII parts.
pub mod Strip
pub mod Replace
pub mod Find
mod Tests
use Prim.Native.Char.{Char, code}
use max_ed.Base.{
  ℕ, zero, suc, ◌+◌, ◌-◌, String, Bool, true, false, not, ◌&&◌, ◌||◌, Option, none, some, List, [],
  ◌∷◌, ltb, leb, ◌==◌, if◌then◌else◌, is_some, length,
}

-- The characters of a text, and the text of characters.
unfoldable pub chars : String → List Char
chars String.[] = []
chars (String.◌∷◌ c s) = c ∷ chars s

unfoldable pub of_chars : List Char → String
of_chars [] = ""
of_chars (c ∷ s) = String.◌∷◌ c (of_chars s)

-- `str.lower` on a character's number.
abbrev pub lower_code : ℕ → ℕ
lower_code n = if leb b'A' n && leb n b'Z' then n + 32 else n

abbrev pub is_digit : ℕ → Bool
is_digit n = leb b'0' n && leb n b'9'

abbrev pub is_space : ℕ → Bool
is_space n = n == 32 || (leb 9 n && leb n 13) || (leb 28 n && leb n 31)

-- `\w`
abbrev pub is_word : ℕ → Bool
is_word n = is_digit n || n == b'_' || (leb b'a' (lower_code n) && leb (lower_code n) b'z')

pub data Regex : Type 0 where
  -- the empty pattern, and one character that passes a test
  empty : Regex
  chr : (ℕ → Bool) → Regex
  -- a literal text, with or without regard to case
  lit : List Char → Regex
  ilit : List Char → Regex
  seq : Regex → Regex → Regex
  alt : Regex → Regex → Regex
  opt : Regex → Regex
  star : Regex → Regex
  -- `r{n,m}`: at least n times, and at most m more
  rep : ℕ → ℕ → Regex → Regex
  -- `\b`, `$`, and a test of the characters before, the last of them first
  word_boundary : Regex
  at_end : Regex
  behind : (List Char → Bool) → Regex

-- Where a match stands: the characters before, the last first, and the characters that are left.
pub record Place : Type 0 where
  pub before : List Char
  pub rest : List Char

abbrev pub step_over : List Char → Char → List Char → Place
step_over before c cs = record { before = c ∷ before; rest = cs }

-- A matcher tries the places where its pattern can end, in order of preference, on what follows.
abbrev pub Follow : Type 0
Follow = Place → Option Place

abbrev pub Matcher : Type 0
Matcher = Place → Follow → Option Place

one_char : (ℕ → Bool) → List Char → List Char → Follow → Option Place
one_char test before [] k = none
one_char test before (c ∷ cs) k = elim (test (code c)) [
  | true ↦ k (step_over before c cs)
  | false ↦ none
]

literal : (ℕ → ℕ) → List Char → Matcher
unfolding one_char
literal fold [] p k = k p
literal fold (c ∷ cs) p k =
    one_char (λ n. fold n == fold (code c)) p.before p.rest (λ p'. literal fold cs p' k)

-- `r*`: each further round takes at least one character, so as many rounds as characters suffice.
rounds : Matcher → ℕ → Matcher
rounds m zero p k = k p
rounds m (suc fuel) p k =
    let round = m p (λ p'. elim (ltb (length p'.rest) (length p.rest)) [
      | true ↦ rounds m fuel p' k
      | false ↦ none
    ]) in
    elim round [ some q ↦ some q | none ↦ k p ]

up_to : Matcher → ℕ → Matcher
up_to m zero p k = k p
up_to m (suc n) p k = elim (m p (λ p'. up_to m n p' k)) [ some q ↦ some q | none ↦ k p ]

times : Matcher → ℕ → Matcher → Matcher
times m zero last p k = last p k
times m (suc n) last p k = m p (λ p'. times m n last p' k)

is_word_char : Option Char → Bool
is_word_char none = false
is_word_char (some c) = is_word (code c)

head_char : List Char → Option Char
head_char [] = none
head_char (c ∷ cs) = some c

pub run : Regex → Matcher
unfolding one_char literal rounds up_to times is_word_char head_char
run empty p k = k p
run (chr test) p k = one_char test p.before p.rest k
run (lit cs) p k = literal (λ n. n) cs p k
run (ilit cs) p k = literal lower_code cs p k
run (seq r s) p k = run r p (λ p'. run s p' k)
run (alt r s) p k = elim (run r p k) [ some q ↦ some q | none ↦ run s p k ]
run (opt r) p k = elim (run r p k) [ some q ↦ some q | none ↦ k p ]
run (star r) p k = rounds (run r) (length p.rest) p k
run (rep n m r) p k = times (run r) n (up_to (run r) m) p k
run word_boundary p k =
    let here = is_word_char (head_char p.before) in
    let next = is_word_char (head_char p.rest) in
    elim ((here && not next) || (not here && next)) [ true ↦ k p | false ↦ none ]
run at_end p k = elim p.rest [ [] ↦ k p | c ∷ cs ↦ none ]
run (behind test) p k = elim (test p.before) [ true ↦ k p | false ↦ none ]

abbrev pub start_of : List Char → Place
start_of cs = record { before = []; rest = cs }

-- `re.fullmatch(r, s)`, as a test.
unfoldable pub full_match : Regex → List Char → Bool
unfolding run
full_match r cs = is_some (run r (start_of cs) (λ p. elim p.rest [ [] ↦ some p | c ∷ rest ↦ none ]))

-- `re.match(r, s)`: the place where the first match from here ends.
unfoldable pub match_at : Regex → Place → Option Place
unfolding run
match_at r p = run r p some

search_from : Regex → List Char → List Char → Bool
unfolding match_at
search_from r before [] = is_some (match_at r (record { before = before; rest = [] }))
search_from r before (c ∷ cs) = elim (match_at r (record { before = before; rest = c ∷ cs })) [
  | some p ↦ true
  | none ↦ search_from r (c ∷ before) cs
]

-- `re.search(r, s)`, as a test.
unfoldable pub search_in : Regex → List Char → Bool
unfolding search_from
search_in r cs = search_from r [] cs

-- `r.sub(" ", s)` for a pattern that takes at least one character. `skip` characters belong to the
-- match that was replaced last.
sub_from : Regex → ℕ → List Char → List Char → List Char
unfolding match_at
sub_from r skip before [] = []
sub_from r (suc skip) before (c ∷ cs) = sub_from r skip (c ∷ before) cs
sub_from r zero before (c ∷ cs) =
    let here = match_at r (record { before = before; rest = c ∷ cs }) in
    elim here [
      | none ↦ c ∷ sub_from r 0 (c ∷ before) cs
      | some p ↦ " " ∷ sub_from r (length (c ∷ cs) - length p.rest - 1) (c ∷ before) cs
    ]

unfoldable pub sub_space : Regex → List Char → List Char
unfolding sub_from
sub_space r cs = sub_from r 0 [] cs

-- Shorthands for patterns.
abbrev pub digit_class : Regex
digit_class = chr is_digit

abbrev pub space_class : Regex
space_class = chr is_space

abbrev pub plus : Regex → Regex
plus r = seq r (star r)

abbrev pub one_of : List Regex → Regex
one_of [] = chr (λ n. false)
one_of (r ∷ []) = r
one_of (r ∷ s ∷ rs) = alt r (one_of (s ∷ rs))

abbrev pub all_of : List Regex → Regex
all_of [] = empty
all_of (r ∷ []) = r
all_of (r ∷ s ∷ rs) = seq r (all_of (s ∷ rs))
