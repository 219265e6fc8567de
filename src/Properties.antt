-- ===== src/Properties.antt =====
-- HashTable.h and HashTable.cpp: the custom properties of the room and of each player. The list
-- holds the entries in the table's order of iteration, which the language leaves open: here a new
-- key goes to the end. The mutex makes each operation one step.
pub mod Lookup
use hamang_server.Prelude.{List, [], if◌then◌else◌, length, pos, ◌++◌, ◌∷◌}
use hamang_server.Text.{Bytes, bytes_eq, codes}
use hamang_server.Text.Decimal.{to_string}
use hamang_server.Protocol.{net_delim}
use hamang_server.Message.{NetworkMessage, append}

pub record HashValue : Type 0 where
  pub type_name : Bytes
  pub value : Bytes

pub record HashTable : Type 0 where
  pub name : Bytes
  pub custom_property : List (Bytes × HashValue)

abbrev pub new_hash_table : HashTable
new_hash_table = record { name = codes "Server"; custom_property = [] }

-- `insert_or_assign`
unfoldable pub insert_or_assign :
    List (Bytes × HashValue) → Bytes → HashValue → List (Bytes × HashValue)
insert_or_assign [] key v = (key, v) ∷ []
insert_or_assign ((k, w) ∷ entries) key v =
    if bytes_eq k key then (key, v) ∷ entries else (k, w) ∷ insert_or_assign entries key v

unfoldable pub set_property : HashTable → Bytes → Bytes → Bytes → HashTable
unfolding insert_or_assign
set_property t key type_name value = record t {
  custom_property =
      insert_or_assign t.custom_property key (record { type_name = type_name; value = value });
}

unfoldable pub remove_all_properties : HashTable → HashTable
remove_all_properties t = record t { custom_property = [] }

-- The loop of `EncodeToNetwork`.
unfoldable pub encode_entries : List (Bytes × HashValue) → NetworkMessage → NetworkMessage
encode_entries [] m = m
encode_entries ((key, v) ∷ entries) m =
    encode_entries entries (append (append (append m key) v.type_name) v.value)

unfoldable pub encode_to_network : HashTable → NetworkMessage → NetworkMessage
unfolding encode_entries
encode_to_network t m =
    encode_entries t.custom_property (append m (to_string (pos (length t.custom_property))))

-- The overload that returns a text, in which the delimiter stands before each word.
encode_entries_text : List (Bytes × HashValue) → Bytes → Bytes
encode_entries_text [] message = message
encode_entries_text ((key, v) ∷ entries) message =
    encode_entries_text entries
      (message ++ net_delim ∷ key ++ net_delim ∷ v.type_name ++ net_delim ∷ v.value)

unfoldable pub encode_to_text : HashTable → Bytes
unfolding encode_entries_text
encode_to_text t =
    encode_entries_text t.custom_property (net_delim ∷ to_string (pos (length t.custom_property)))

-- The lines that `PrintProperties` writes.
unfoldable pub print_properties : Bytes → List (Bytes × HashValue) → List Bytes
print_properties name [] = []
print_properties name ((key, v) ∷ entries) =
    (name ++ codes " |\t" ++ key ++ codes "|\t" ++ v.type_name ++ codes "|\t" ++ v.value)
    ∷ print_properties name entries
