-- ===== src/Regex/Replace.antt =====
-- `str.replace` on the characters of a text, for a text to replace that is not empty.
use Prim.Native.Char.{Char, code}
use max_ed.Base.{
  ℕ, zero, suc, ◌-◌, String, Bool, true, false, ◌&&◌, List, [], ◌∷◌, ◌++◌, ◌==◌, if◌then◌else◌,
  length,
}
use max_ed.Regex.{chars, of_chars}

abbrev begins_with : List Char → List Char → Bool
begins_with [] cs = true
begins_with (x ∷ xs) [] = false
begins_with (x ∷ xs) (c ∷ cs) = code x == code c && begins_with xs cs

-- `skip` characters still belong to an occurrence that was replaced.
replace_from : List Char → List Char → ℕ → List Char → List Char
replace_from old new skip [] = []
replace_from old new (suc skip) (c ∷ cs) = replace_from old new skip cs
replace_from old new zero (c ∷ cs) =
    let next = replace_from old new 0 cs in
    let after = replace_from old new (length old - 1) cs in
    if begins_with old (c ∷ cs) then new ++ after else c ∷ next

-- `text.replace(old, new)`
unfoldable pub replace : String → String → String → String
unfolding replace_from chars of_chars
replace old new text = of_chars (replace_from (chars old) (chars new) 0 (chars text))
