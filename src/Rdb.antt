-- ===== src/Rdb.antt =====
-- pkg/persistence/rdb.go: the snapshot, as the bytes of its file. The calls of the operating system
-- around them (the temporary file, its flush and its renaming) are taken to succeed.
pub mod Load
pub mod Codec
pub mod Rebuild
pub mod Sections
pub mod Entries
pub mod Fill
pub mod Restore
pub mod Rounds
pub mod Reads
pub mod Returns
pub mod RoundTrip
use shoredb.Base.{
  ℕ, zero, suc, ◌+◌, ◌-◌, ◌*◌, ◌/◌, ◌%◌, ◌^◌, ◌≤◌, ◌<◌, ◌≡◌, refl, sym, ap, ◌∙◌, ◌≢◌, ◌↔◌, ◌⊎◌, inl,
  inr, Bool, true, false, not, ◌&&◌, ◌||◌, Option, none, some, List, [], ◌∷◌, ◌++◌, map, append-nil,
  append_assoc, arith, Bytes, codes, str_eq, str_eq_iff, str_eq_refl, ltb, leb, ◌==◌, ==_iff,
  if◌then◌else◌, Bool-cases, Option-cases, is_some, length, get_elem?, take, drop, length-append,
}
use shoredb.Base.{set}
use shoredb.Base.Int.{pos, negsuc}
use shoredb.Base.Dict.{insert, keys}
use shoredb.Datastruct.Lists.{Items, r_push, l_range}
use shoredb.Datastruct.Sets.{Members, s_add, s_members}
use shoredb.Datastruct.Hashes.{FieldMap, h_mset, h_get_all}
use shoredb.Database.{
  Time, Database, Databases, num_databases, get_or_create_list, get_or_create_set,
  get_or_create_hash,
}

-- rdbHeader
abbrev pub rdb_header : Bytes
rdb_header = codes "DATABASE0009"

abbrev pub op_select_db : ℕ
op_select_db = 0xFE

abbrev pub op_eof : ℕ
op_eof = 0xFF

abbrev pub op_resize_db : ℕ
op_resize_db = 0xFB

abbrev pub type_string : ℕ
type_string = 0

abbrev pub type_list : ℕ
type_list = 1

abbrev pub type_set : ℕ
type_set = 2

abbrev pub type_hash : ℕ
type_hash = 4

-- `binary.Write` of a uint32 in big-endian order: the number modulo 2 ^ 32.
abbrev pub big_endian : ℕ → Bytes
big_endian n = (n / 2 ^ 24 % 256) ∷ (n / 2 ^ 16 % 256) ∷ (n / 2 ^ 8 % 256) ∷ (n % 256) ∷ []

-- writeLength, on a length. The bit 0x40 is not among those of `n >> 8`, so `|` is a sum.
unfoldable pub write_length : ℕ → Bytes
write_length n =
    if ltb n 64
    then n ∷ []
    else if ltb n 16384
    then (n / 2 ^ 8 + 0x40) ∷ (n % 256) ∷ []
    else 0x80 ∷ big_endian n

-- writeString
unfoldable pub write_string : Bytes → Bytes
unfolding write_length
write_string s = write_length (length s) ++ s

unfoldable pub write_strings : List Bytes → Bytes
unfolding write_string
write_strings [] = []
write_strings (s ∷ ss) = write_string s ++ write_strings ss

unfoldable pub write_fields : FieldMap → Bytes
unfolding write_string
write_fields [] = []
write_fields ((field, value) ∷ fields) =
    write_string field ++ (write_string value ++ write_fields fields)

unfoldable pub save_strings : List (Bytes × Bytes) → Bytes
unfolding write_string
save_strings [] = []
save_strings ((key, value) ∷ store) =
    type_string ∷ (write_string key ++ (write_string value ++ save_strings store))

-- An entry of a container, left out if it is empty.
abbrev pub save_list : Bytes → Items → Bytes
save_list key [] = []
save_list key (item ∷ items) =
    type_list
    ∷ (write_string key ++ (write_length (length (item ∷ items)) ++ write_strings (item ∷ items)))

abbrev pub save_set : Bytes → List Bytes → Bytes
save_set key [] = []
save_set key (member ∷ members) =
    type_set
    ∷ (write_string key
        ++ (write_length (length (member ∷ members)) ++ write_strings (member ∷ members)))

abbrev pub save_hash : Bytes → FieldMap → Bytes
save_hash key [] = []
save_hash key (entry ∷ fields) =
    type_hash
    ∷ (write_string key
        ++ (write_length (length (entry ∷ fields)) ++ write_fields (entry ∷ fields)))

unfoldable pub save_lists : List (Bytes × Items) → Bytes
unfolding l_range write_strings
save_lists [] = []
save_lists ((key, items) ∷ lists) =
    save_list key (l_range (pos 0) (negsuc 0) items) ++ save_lists lists

unfoldable pub save_sets : List (Bytes × Members) → Bytes
unfolding write_strings
save_sets [] = []
save_sets ((key, members) ∷ sets) = save_set key (s_members members) ++ save_sets sets

unfoldable pub save_hashes : List (Bytes × FieldMap) → Bytes
unfolding write_fields
save_hashes [] = []
save_hashes ((key, fields) ∷ hashes) = save_hash key (h_get_all fields) ++ save_hashes hashes

abbrev pub total_keys : Database → ℕ
total_keys db = length db.store + length db.lists + length db.sets + length db.hashes

-- saveDatabase
unfoldable pub save_database : ℕ → Database → Bytes
unfolding save_strings save_lists save_sets save_hashes
save_database index db =
    if total_keys db == 0
    then []
    else op_select_db
      ∷ (write_length index
          ++ (op_resize_db
              ∷ (write_length (total_keys db)
                  ++ (write_length 0
                      ++ (save_strings db.store
                          ++ (save_lists db.lists
                              ++ (save_sets db.sets ++ save_hashes db.hashes)))))))

-- The loop of Save over the databases from a number on.
unfoldable pub save_databases : ℕ → Databases → Bytes
unfolding save_database
save_databases index [] = []
save_databases index (db ∷ dbs) = save_database index db ++ save_databases (suc index) dbs

abbrev pub checksum : Bytes
checksum = 0 ∷ 0 ∷ 0 ∷ 0 ∷ 0 ∷ 0 ∷ 0 ∷ 0 ∷ []

-- RDB.Save: the content of the file.
unfoldable pub save_rdb : Databases → Bytes
unfolding save_databases
save_rdb dbs = rdb_header ++ (save_databases 0 dbs ++ (op_eof ∷ checksum))
