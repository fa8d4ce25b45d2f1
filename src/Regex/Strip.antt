-- ===== src/Regex/Strip.antt =====
-- `str.strip`, `str.lstrip`, `str.split` and `str.replace`, on the characters of a text.
use Prim.Native.Char.{Char, code}
use mathlib.Core.List.{reverse}
use max_ed.Base.{
  ℕ, ◌-◌, Bool, true, false, not, ◌&&◌, none, some, List, [], ◌∷◌, map, leb, ◌==◌, if◌then◌else◌,
  get_elem?, take, filter, is_empty, drop,
}
use max_ed.Regex.{chars, is_space, lower_code}

-- `s.lstrip(chars)`, the set of characters given as a test.
unfoldable pub strip_left : (ℕ → Bool) → List Char → List Char
strip_left test [] = []
strip_left test (c ∷ cs) = if test (code c) then strip_left test cs else c ∷ cs

unfoldable pub strip_by : (ℕ → Bool) → List Char → List Char
unfolding strip_left
strip_by test cs = reverse (strip_left test (reverse (strip_left test cs)))

-- `s.strip()`
unfoldable pub strip : List Char → List Char
unfolding strip_by
strip = strip_by is_space

-- `s.lower()`, as the numbers of the characters.
abbrev pub lower : List Char → List ℕ
lower = map (λ c. lower_code (code c))

-- `s.replace(c, "")`
unfoldable pub remove_char : ℕ → List Char → List Char
remove_char n = filter (λ c. not (code c == n))

-- Words between runs of characters that pass a test; `word` is the current one, last first.
split_onto : (ℕ → Bool) → List ℕ → List ℕ → List (List ℕ)
split_onto test word [] = if is_empty word then [] else reverse word ∷ []
split_onto test word (n ∷ ns) =
    let next = split_onto test [] ns in
    let more = split_onto test (n ∷ word) ns in
    if test n then (if is_empty word then next else reverse word ∷ next) else more

-- `[t for t in re.split(r"[...]+", s) if t]`; with blanks for the class, `s.split()`.
unfoldable pub split_words : (ℕ → Bool) → List ℕ → List (List ℕ)
unfolding split_onto
split_words test ns = split_onto test [] ns

-- Equality of words, given by the numbers of their characters.
unfoldable pub same_word : List ℕ → List ℕ → Bool
same_word [] [] = true
same_word (m ∷ ms) (n ∷ ns) = m == n && same_word ms ns
same_word _ _ = false

abbrev capitals : List Char
unfolding chars
capitals = chars "ABCDEFGHIJKLMNOPQRSTUVWXYZ"

abbrev upper_char : Char → Char
upper_char c =
    if leb b'a' (code c) && leb (code c) b'z'
    then (elim (get_elem? capitals (code c - b'a')) [ none ↦ c | some d ↦ d ])
    else c

-- `s.upper()`
unfoldable pub upper : List Char → List Char
unfolding chars
upper = map upper_char

-- `s[lo:hi]`
unfoldable pub slice : ℕ → ℕ → List Char → List Char
slice lo hi cs = take (hi - lo) (drop lo cs)
