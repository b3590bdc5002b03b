-- ===== src/Rdb/Load.antt =====
-- RDB.Load of pkg/persistence/rdb.go.
use shoredb.Base.{
  ℕ, zero, suc, ◌+◌, ◌*◌, ◌/◌, ◌%◌, ◌^◌, ◌⊎◌, inl, inr, Option, none, some, List, [], ◌∷◌, Bytes,
  codes, str_eq, leb, ◌==◌, if◌then◌else◌, length, get_elem?, take, drop,
}
use shoredb.Base.{set}
use shoredb.Base.Dict.{insert}
use shoredb.Datastruct.Lists.{r_push}
use shoredb.Datastruct.Sets.{s_add}
use shoredb.Datastruct.Hashes.{FieldMap, h_mset}
use shoredb.Database.{
  Time, Database, Databases, num_databases, get_or_create_list, get_or_create_set,
  get_or_create_hash,
}
use shoredb.Rdb.{op_eof, op_select_db, op_resize_db, type_string, type_list, type_set, type_hash}

-- The errors of Load, without the causes that they wrap.
pub data LoadError : Type 0 where
  read_header invalid_header unexpected_end read_checksum : LoadError
  read_index index_range read_db_size read_expires_size no_database : LoadError
  read_string_key read_string_value : LoadError
  read_list_key read_list_length read_list_item : LoadError
  read_set_key read_set_length read_set_member : LoadError
  read_hash_key read_hash_length read_hash_field read_hash_value : LoadError
  unknown_opcode : ℕ → LoadError

-- A length in two bytes, whose first is given, and one in four.
abbrev pub second_byte : ℕ → Bytes → Option (ℕ × Bytes)
second_byte b [] = none
second_byte b (c ∷ s) = some (b % 64 * 2 ^ 8 + c, s)

abbrev pub four_bytes : Bytes → Option (ℕ × Bytes)
four_bytes (a ∷ b ∷ c ∷ d ∷ s) = some (a * 2 ^ 24 + b * 2 ^ 16 + c * 2 ^ 8 + d, s)
four_bytes _ = none

-- readLength: `none` is a read that failed. `b & 0x3F` is `b % 64` and `(b & 0xC0) >> 6` is `b / 64 % 4`.
unfoldable pub read_length : Bytes → Option (ℕ × Bytes)
read_length [] = none
read_length (b ∷ s) =
    if b / 64 % 4 == 0
    then some (b % 64, s)
    else if b / 64 % 4 == 1
    then second_byte b s
    else four_bytes s

-- io.ReadFull
abbrev pub read_bytes : ℕ → Bytes → Option (Bytes × Bytes)
read_bytes n s = if leb n (length s) then some (take n s, drop n s) else none

-- readString
unfoldable pub read_string : Bytes → Option (Bytes × Bytes)
unfolding read_length
read_string s = elim (read_length s) [ none ↦ none | some (n, rest) ↦ read_bytes n rest ]

-- The loop that reads the items of a list or the members of a set.
unfoldable pub read_strings : ℕ → Bytes → Option (List Bytes × Bytes)
unfolding read_string
read_strings zero s = some ([], s)
read_strings (suc n) s = elim (read_string s) [
  | none ↦ none
  | some (item, rest) ↦ elim (read_strings n rest) [
    | none ↦ none
    | some (items, left) ↦ some (item ∷ items, left)
  ]
]

-- The loop that reads the fields of a hash into a map: a field, or the error of its value.
unfoldable pub read_fields : ℕ → FieldMap → Bytes → FieldMap × (LoadError ⊎ Bytes)
unfolding read_string
read_fields zero fields s = (fields, inr s)
read_fields (suc n) fields s = elim (read_string s) [
  | none ↦ (fields, inl read_hash_field)
  | some (field, rest) ↦ elim (read_string rest) [
    | none ↦ (fields, inl read_hash_value)
    | some (value, left) ↦ read_fields n (insert field value fields) left
  ]
]

-- A round of Load's loop: the input that is left, the current database's number and the databases;
-- or the end of Load, `none` without an error.
pub data Round : Type 0 where
  next : Bytes → ℕ → Databases → Round
  stop : Databases → Option LoadError → Round

-- The step behind a read, or the error that Load returns for it.
abbrev pub attempt {ℓ} :
    {A : Type ℓ} → Option (A × Bytes) → LoadError → Databases → (A → Bytes → Round) → Round
attempt none e dbs k = stop dbs (some e)
attempt (some (a, rest)) e dbs k = k a rest

-- `r.dbAt(currentDB)`, and a change of the database there.
abbrev pub change_at : Option Database → Databases → ℕ → Bytes → (Database → Database) → Round
change_at none dbs current rest f = stop dbs (some no_database)
change_at (some db) dbs current rest f = next rest current (set dbs current (f db))

abbrev pub change : Databases → ℕ → Bytes → (Database → Database) → Round
change dbs current rest f = change_at (get_elem? dbs current) dbs current rest f

-- opEOF
unfoldable pub load_end : Bytes → Databases → Round
load_end s dbs = if leb 8 (length s) then stop dbs none else stop dbs (some read_checksum)

-- opSelectDB
unfoldable pub load_index : Bytes → Databases → Round
unfolding read_length
load_index s dbs = attempt (read_length s) read_index dbs λ index rest.
    if leb num_databases index then stop dbs (some index_range) else next rest index dbs

-- opResizeDB
unfoldable pub load_sizes : Bytes → ℕ → Databases → Round
unfolding read_length
load_sizes s current dbs = attempt (read_length s) read_db_size dbs λ db_size rest.
    attempt (read_length rest) read_expires_size dbs λ expires_size left. next left current dbs

-- typeString
unfoldable pub load_string : Bytes → ℕ → Databases → Round
unfolding read_string
load_string s current dbs = attempt (read_string s) read_string_key dbs λ key rest.
    attempt (read_string rest) read_string_value dbs
      λ value left. change dbs current left (λ db. record db { store = insert key value db.store })

-- `list.RPush(items...)` on the list under the key
unfoldable pub push_items : Time → Bytes → List Bytes → Database → Database
unfolding get_or_create_list r_push
push_items now key items db =
    let (db', list) = get_or_create_list now key db in
    record db' { lists = insert key (r_push items list).0 db'.lists }

-- typeList
unfoldable pub load_list : Time → Bytes → ℕ → Databases → Round
unfolding read_string read_strings push_items
load_list now s current dbs = attempt (read_string s) read_list_key dbs λ key rest.
    attempt (read_length rest) read_list_length dbs λ n items_in.
      attempt (read_strings n items_in) read_list_item dbs
        λ items left. change dbs current left (push_items now key items)

-- `set.SAdd(members...)` on the set under the key
unfoldable pub add_members : Time → Bytes → List Bytes → Database → Database
unfolding get_or_create_set s_add
add_members now key members db =
    let (db', set) = get_or_create_set now key db in
    record db' { sets = insert key (s_add members set).0 db'.sets }

-- typeSet
unfoldable pub load_set : Time → Bytes → ℕ → Databases → Round
unfolding read_string read_strings add_members
load_set now s current dbs = attempt (read_string s) read_set_key dbs λ key rest.
    attempt (read_length rest) read_set_length dbs λ n members_in.
      attempt (read_strings n members_in) read_set_member dbs
        λ members left. change dbs current left (add_members now key members)

-- `hash.HMSet(fields)` on the hash under the key
unfoldable pub put_fields : Time → Bytes → FieldMap → Database → Database
unfolding get_or_create_hash h_mset
put_fields now key fields db =
    let (db', hash) = get_or_create_hash now key db in
    record db' { hashes = insert key (h_mset fields hash) db'.hashes }

abbrev pub fields_round : Time → Bytes → ℕ → Databases → FieldMap × (LoadError ⊎ Bytes) → Round
fields_round now key current dbs (fields, inl e) = stop dbs (some e)
fields_round now key current dbs (fields, inr left) =
    change dbs current left (put_fields now key fields)

-- typeHash
unfoldable pub load_hash : Time → Bytes → ℕ → Databases → Round
unfolding read_string read_fields put_fields
load_hash now s current dbs = attempt (read_string s) read_hash_key dbs λ key rest.
    attempt (read_length rest) read_hash_length dbs
      λ n fields_in. fields_round now key current dbs (read_fields n [] fields_in)

unfoldable pub load_round : Time → Bytes → ℕ → Databases → Round
unfolding load_end load_index load_sizes load_string load_list load_set load_hash
load_round now [] current dbs = stop dbs (some unexpected_end)
load_round now (op ∷ s) current dbs =
    if op == op_eof
    then load_end s dbs
    else if op == op_select_db
    then load_index s dbs
    else if op == op_resize_db
    then load_sizes s current dbs
    else if op == type_string
    then load_string s current dbs
    else if op == type_list
    then load_list now s current dbs
    else if op == type_set
    then load_set now s current dbs
    else if op == type_hash
    then load_hash now s current dbs
    else stop dbs (some (unknown_opcode op))

-- Load's loop, with fuel: `none` stands for fuel that ran out.
unfoldable pub load_loop : ℕ → Time → Bytes → ℕ → Databases → Option (Databases × Option LoadError)
unfolding load_round
load_loop zero now s current dbs = none
load_loop (suc f) now s current dbs = elim (load_round now s current dbs) [
  | next rest current' dbs' ↦ load_loop f now rest current' dbs'
  | stop dbs' result ↦ some (dbs', result)
]

-- RDB.Load on a file: what it makes of the databases, and its error. Every round reads a byte at least.
unfoldable pub load_rdb : Time → Bytes → Databases → Option (Databases × Option LoadError)
unfolding load_loop
load_rdb now file dbs = elim (read_bytes 12 file) [
  | none ↦ some (dbs, some read_header)
  | some (header, rest) ↦
      if str_eq (take 8 header) (codes "DATABASE")
      then load_loop (length rest + 1) now rest 0 dbs
      else some (dbs, some invalid_header)
]
