-- ===== src/Properties/Lookup.antt =====
-- A table of properties as a map from keys to values.
use hamang_server.Prelude.{
  List, Option, [], arith, if◌then◌else◌, none, refl, some, suc, true, ℕ, ◌∷◌, ◌≡◌, ◌≤◌, ◌⊎◌,
}
use hamang_server.Text.{Bytes, bytes_eq, bytes_eq_iff}
use hamang_server.Properties.{
  HashTable, HashValue, insert_or_assign, remove_all_properties, set_property,
}

unfoldable pub lookup : Bytes → List (Bytes × HashValue) → Option HashValue
lookup key [] = none
lookup key ((k, v) ∷ entries) = if bytes_eq k key then some v else lookup key entries

lookup-insert_or_assign :
    (entries : List (Bytes × HashValue)) (key : Bytes) (v : HashValue) (key' : Bytes)
    → lookup key' (insert_or_assign entries key v)
      ≡ (if bytes_eq key key' then some v else lookup key' entries)
unfolding lookup insert_or_assign
lookup-insert_or_assign [] key v key' = refl
lookup-insert_or_assign ((k, w) ∷ entries) key v key' = ground (
  arith,
  lookup-insert_or_assign entries key v key',
  bytes_eq_iff k key,
  bytes_eq_iff k key',
  bytes_eq_iff key key',
)

-- Setting a property gives its key the new type and value and leaves every other key as it was;
-- removing all leaves no key; and neither changes the table's name.
pub lookup-set_property :
    (t : HashTable) (key type_name value key' : Bytes)
    → (lookup key' (set_property t key type_name value).custom_property ≡ (
        if bytes_eq key key'
        then some (record { type_name = type_name; value = value })
        else lookup key' t.custom_property))
      × (lookup key' (remove_all_properties t).custom_property ≡ none)
      × ((set_property t key type_name value).name ≡ t.name)
      × ((remove_all_properties t).name ≡ t.name)
unfolding set_property remove_all_properties lookup
lookup-set_property t key type_name value key' =
    (lookup-insert_or_assign t.custom_property key _ key', refl, refl, refl)

-- How often a key stands in a table.
abbrev pub occurrences : Bytes → List (Bytes × HashValue) → ℕ
occurrences key [] = 0
occurrences key ((k, v) ∷ entries) =
    let rest = occurrences key entries in if bytes_eq k key then suc rest else rest

abbrev HasDistinctKeys : List (Bytes × HashValue) → Type 0
HasDistinctKeys entries = (key : Bytes) → occurrences key entries ≤ 1

occurrences-insert_or_assign :
    (entries : List (Bytes × HashValue)) (key : Bytes) (v : HashValue) (key' : Bytes)
    → occurrences key' (insert_or_assign entries key v) ≤ occurrences key' entries
      ⊎ ((bytes_eq key key' ≡ true)
          × (occurrences key' entries ≡ 0)
          × (occurrences key' (insert_or_assign entries key v) ≡ 1))
unfolding insert_or_assign
occurrences-insert_or_assign [] key v key' = ground arith
occurrences-insert_or_assign ((k, w) ∷ entries) key v key' = ground (
  arith,
  occurrences-insert_or_assign entries key v key',
  bytes_eq_iff k key,
  bytes_eq_iff k key',
  bytes_eq_iff key key',
)

-- If no key stands twice in a table, then none does when a property has been set.
set_property-HasDistinctKeys :
    (t : HashTable) (key type_name value : Bytes)
    → HasDistinctKeys t.custom_property
    → HasDistinctKeys (set_property t key type_name value).custom_property
unfolding set_property
set_property-HasDistinctKeys t key type_name value h key' = ground (
  arith,
  occurrences-insert_or_assign t.custom_property key
      (record { type_name = type_name; value = value }) key',
  h key',
)
