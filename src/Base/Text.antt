-- ===== src/Base/Text.antt =====
-- Texts: joining, membership, and the set of the texts of a list.
use max_ed.Base.Lists.{contains_by, dedup_by}
use max_ed.Base.Tests.{if◌then◌else◌}
use Prim.Native.String.{String, ◌++◌ as append_text}
use mathlib.Core.Bool.{Bool}
use mathlib.Core.List.{List, [], ◌∷◌}
use text.Mathlib.Text.{◌==◌ as str_eq}

-- An f-string: its pieces, one after the other.
unfoldable pub concat : List String → String
concat [] = ""
concat (s ∷ ss) = append_text s (concat ss)

-- `sep.join(parts)`
unfoldable pub join : String → List String → String
join sep [] = ""
join sep (s ∷ []) = s
join sep (s ∷ t ∷ ss) = append_text s (append_text sep (join sep (t ∷ ss)))

abbrev pub is_blank : String → Bool
is_blank s = str_eq s ""

-- `s or t`
abbrev pub or_text : String → String → String
or_text s t = if is_blank s then t else s

-- `k in keys`
abbrev pub contains : String → List String → Bool
contains = contains_by str_eq

-- `set(keys)`
abbrev pub dedup : List String → List String
dedup = dedup_by str_eq
