-- ===== src/Memory.antt =====
-- The memory store, memory/store.py. The state is the list of entries that the file holds; the JSON
-- file that carries it between calls is not modelled.
pub mod Evict
pub mod Cap
pub mod Ingest
mod Tests
use Prim.Native.String.{compare}
use text.Mathlib.Text.{is_lt}
use max_ed.Base.{
  ℕ, zero, suc, ◌<◌, String, Bool, true, false, not, ◌&&◌, ◌||◌, Option, none, some, List, [], ◌∷◌,
  ◌++◌, map, str_eq, ltb, sort_by, ◌==◌, if◌then◌else◌, length, take, any, filter, concat,
  value_error, Result, ok, raise, get_or,
}
use max_ed.Contracts.{Pool, pool_a, pool_b, structure_labels, Signature, MemoryEntry}

abbrev pub class_cap : ℕ
class_cap = 3

-- `bool(signature.get(label, False))`
abbrev pub has_label : Signature → String → Bool
has_label s label = get_or label false s

unfoldable pub class_key : Signature → List Bool
class_key s = map (has_label s) structure_labels

unfoldable pub signature_overlap : Signature → Signature → ℕ
signature_overlap query candidate =
    length (filter (λ label. has_label query label && has_label candidate label) structure_labels)

-- Equality of bit tuples.
abbrev pub same_bits : List Bool → List Bool → Bool
same_bits [] [] = true
same_bits (true ∷ xs) (true ∷ ys) = same_bits xs ys
same_bits (false ∷ xs) (false ∷ ys) = same_bits xs ys
same_bits _ _ = false

unfoldable pub in_class : List Bool → MemoryEntry → Bool
unfolding class_key
in_class key e = same_bits (class_key e.signature) key

-- `(e.ingested_offset, e.entry_id) < (f.ingested_offset, f.entry_id)`
unfoldable pub older : MemoryEntry → MemoryEntry → Bool
older e f =
    ltb e.ingested_offset f.ingested_offset
    || (e.ingested_offset == f.ingested_offset && is_lt (compare e.entry_id f.entry_id))

-- `min` over the class: the first of the oldest entries.
unfoldable pub oldest : List Bool → List MemoryEntry → Option MemoryEntry
unfolding older in_class
oldest key [] = none
oldest key (e ∷ es) =
    let rest = oldest key es in
    if in_class key e
    then elim rest [ none ↦ some e | some o ↦ if older o e then some o else some e ]
    else rest

-- The list without the first element that passes.
abbrev pub remove_first {ℓ} : {A : Type ℓ} → (A → Bool) → List A → List A
remove_first p [] = []
remove_first p (x ∷ xs) = if p x then xs else x ∷ remove_first p xs

-- `entries.remove(oldest)`: the first entry of the class with its offset and identifier, which the
-- oldest one is.
unfoldable pub is_entry : List Bool → MemoryEntry → MemoryEntry → Bool
is_entry key o e =
    in_class key e && (e.ingested_offset == o.ingested_offset && str_eq e.entry_id o.entry_id)

abbrev pub remove_entry : List Bool → MemoryEntry → List MemoryEntry → List MemoryEntry
remove_entry key o es = remove_first (is_entry key o) es

abbrev pub class_size : List Bool → List MemoryEntry → ℕ
class_size key es = length (filter (in_class key) es)

-- The loop of `add`, on fuel: the entries that stay and the identifiers of those evicted.
unfoldable pub evict : ℕ → List Bool → List MemoryEntry → List MemoryEntry × List String
unfolding oldest is_entry
evict zero key es = (es, [])
evict (suc fuel) key es =
    if ltb class_cap (class_size key es)
    then elim (oldest key es) [
      | none ↦ (es, [])
      | some o ↦ let rest = evict fuel key (remove_entry key o es) in (rest.0, o.entry_id ∷ rest.1)
    ]
    else (es, [])

abbrev pub is_pool_a : Pool → Bool
is_pool_a pool_a = true
is_pool_a pool_b = false

-- `add`: the store after it and the identifiers evicted. The entries are written in the order of
-- their offsets and identifiers.
unfoldable pub add : MemoryEntry → List MemoryEntry → Result (List MemoryEntry × List String)
unfolding evict older class_key
add entry es =
    if not (is_pool_a entry.pool)
    then raise (
        value_error (
          concat (
            "memory refuses pool 'B' entry '" ∷ entry.entry_id
            ∷ "': only Pool A enters memory (invariant I7)" ∷ [])))
    else if any (λ (e : MemoryEntry). str_eq e.entry_id entry.entry_id) es
    then ok (es, [])
    else (let more = es ++ (entry ∷ []) in
        let kept = evict (length more) (class_key entry.signature) more in
        ok (sort_by older kept.0, kept.1))

-- The key of `ranked`, compared: exact class first, then overlap, weight and offset, each the
-- greater first, and the identifier at last.
unfoldable pub ranks_before : Signature → MemoryEntry → MemoryEntry → Bool
unfolding signature_overlap class_key in_class
ranks_before query e f =
    let exact_e = in_class (class_key query) e in
    let exact_f = in_class (class_key query) f in
    let overlap_e = signature_overlap query e.signature in
    let overlap_f = signature_overlap query f.signature in
    if exact_e && not exact_f
    then true
    else if not exact_e && exact_f
    then false
    else if not (overlap_e == overlap_f)
    then ltb overlap_f overlap_e
    else if not (e.weight == f.weight)
    then ltb f.weight e.weight
    else if not (e.ingested_offset == f.ingested_offset)
    then ltb f.ingested_offset e.ingested_offset
    else is_lt (compare e.entry_id f.entry_id)

-- The relevance floor.
unfoldable pub relevant : Signature → MemoryEntry → Bool
unfolding signature_overlap class_key in_class
relevant query e = ltb 0 (signature_overlap query e.signature) || in_class (class_key query) e

unfoldable pub retrieve : Signature → ℕ → List MemoryEntry → List MemoryEntry
unfolding relevant ranks_before
retrieve query k es = take k (sort_by (ranks_before query) (filter (relevant query) es))
