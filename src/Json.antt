-- ===== src/Json.antt =====
-- The part of Python's `json` and of its truth values that the source uses, on JSON values.
mod Tests
use Prim.Native.Char.{Char, code}
use Prim.Native.String.{compare, ◌++◌ as append_text}
use text.Mathlib.Text.{is_lt}
use max_ed.Base.Int.{ℤ, pos, negsuc}
use max_ed.Base.{
  ℕ, suc, ◌+◌, ◌-◌, ◌/◌, ◌%◌, String, Bool, true, false, not, ◌&&◌, Option, none, some, List, [],
  ◌∷◌, ◌++◌, str_eq, leb, ◌==◌, if◌then◌else◌, get_elem?, concat, join, is_blank, Result, ok, keys,
  values, sort_by,
}
use max_ed.Contracts.{Json, null, bool, num, str, arr, obj, Items, nil, cons, Fields, end, field}
use max_ed.Money.{decimal}
use max_ed.Regex.{chars, of_chars}

-- `str(n)` for an integer.
unfoldable pub int_text : ℤ → String
unfolding decimal
int_text (pos n) = decimal n
int_text (negsuc n) = append_text "-" (decimal (suc n))

abbrev hex_digits : List Char
unfolding chars
hex_digits = chars "0123456789abcdef"

hex : ℕ → String
unfolding of_chars chars
hex n = elim (get_elem? hex_digits (n % 16)) [ none ↦ "" | some c ↦ of_chars (c ∷ []) ]

-- `\uXXXX`
unicode_escape : ℕ → String
unfolding hex concat
unicode_escape n = concat ("\\u" ∷ hex (n / 4096) ∷ hex (n / 256) ∷ hex (n / 16) ∷ hex n ∷ [])

-- A character of a JSON text: what is not printable ASCII is escaped, in two halves above 0xFFFF.
escape_char : Char → String
unfolding unicode_escape of_chars
escape_char c =
    let n = code c in
    if n == 34
    then "\\\""
    else if n == 92
    then "\\\\"
    else if n == 10
    then "\\n"
    else if n == 13
    then "\\r"
    else if n == 9
    then "\\t"
    else if n == 8
    then "\\b"
    else if n == 12
    then "\\f"
    else if leb 32 n && leb n 126
    then of_chars (c ∷ [])
    else if leb n 65535
    then unicode_escape n
    else append_text (unicode_escape (55296 + (n - 65536) / 1024))
        (unicode_escape (56320 + (n - 65536) % 1024))

escape : List Char → String
unfolding escape_char
escape [] = ""
escape (c ∷ cs) = append_text (escape_char c) (escape cs)

unfoldable pub quote : String → String
unfolding escape concat chars
quote s = concat ("\"" ∷ escape (chars s) ∷ "\"" ∷ [])

abbrev key_before : String × String → String × String → Bool
key_before (j, v) (k, w) = is_lt (compare j k)

-- The members of an object, in the order of their keys.
members : List (String × String) → List String
unfolding quote concat
members [] = []
members ((k, v) ∷ kvs) = concat (quote k ∷ ":" ∷ v ∷ []) ∷ members kvs

-- `json.dumps(value, sort_keys=True, separators=(",", ":"))`
unfoldable mutual
  unfolding quote int_text members concat join

  pub dumps : Json → String
  dumps null = "null"
  dumps (bool true) = "true"
  dumps (bool false) = "false"
  dumps (num n) = int_text n
  dumps (str s) = quote s
  dumps (arr items) = concat ("[" ∷ join "," (dump_items items) ∷ "]" ∷ [])
  dumps (obj fields) =
      concat ("{" ∷ join "," (members (sort_by key_before (dump_fields fields))) ∷ "}" ∷ [])

  pub dump_items : Items → List String
  dump_items nil = []
  dump_items (cons v items) = dumps v ∷ dump_items items

  pub dump_fields : Fields → List (String × String)
  dump_fields end = []
  dump_fields (field k v fields) = (k, dumps v) ∷ dump_fields fields

-- `d.get(k)`, `d[k] = v`, and the values of a dict.
unfoldable pub field_of : String → Fields → Option Json
field_of k end = none
field_of k (field j v fields) = if str_eq j k then some v else field_of k fields

unfoldable pub set_field : String → Json → Fields → Fields
set_field k v end = field k v end
set_field k v (field j w fields) =
    if str_eq j k then field j v fields else field j w (set_field k v fields)

unfoldable pub field_values : Fields → List Json
field_values end = []
field_values (field k v fields) = v ∷ field_values fields

-- `bool(value)`
unfoldable pub truthy : Json → Bool
truthy null = false
truthy (bool b) = b
truthy (num (pos n)) = not (n == 0)
truthy (num (negsuc n)) = true
truthy (str s) = not (is_blank s)
truthy (arr nil) = false
truthy (arr (cons v items)) = true
truthy (obj end) = false
truthy (obj (field k v fields)) = true

abbrev pub is_object : Json → Bool
is_object null = false
is_object (bool b) = false
is_object (num n) = false
is_object (str s) = false
is_object (arr items) = false
is_object (obj fields) = true

-- What Python does with a value that the source does not expect: `str` of a list or an object, and
-- `dict` of a value that is true and no object.
pub record Python : Type 0 where
  pub repr : Json → String
  pub dict_of : Json → Result Fields

-- `str(value)`
unfoldable pub text_of : Python → Json → String
unfolding int_text
text_of py null = "None"
text_of py (bool true) = "True"
text_of py (bool false) = "False"
text_of py (num n) = int_text n
text_of py (str s) = s
text_of py (arr items) = py.repr (arr items)
text_of py (obj fields) = py.repr (obj fields)

-- `dict(value or {})`
unfoldable pub to_dict : Python → Json → Result Fields
unfolding truthy
to_dict py (obj fields) = ok fields
to_dict py v = if truthy v then py.dict_of v else ok end
