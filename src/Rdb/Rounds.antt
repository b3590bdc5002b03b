-- ===== src/Rdb/Rounds.antt =====
-- The rounds of Load over a snapshot, counted against its bytes.
use shoredb.Base.{
  ℕ, suc, ◌+◌, ◌≤◌, inl, inr, [], ◌∷◌, ◌++◌, arith, Bytes, ◌==◌, if◌then◌else◌, Bool-cases, length,
  length-append,
}
use shoredb.Base.Dict.{Dict}
use shoredb.Datastruct.Lists.{Items}
use shoredb.Datastruct.Sets.{Members, s_members}
use shoredb.Datastruct.Hashes.{FieldMap, h_get_all}
use shoredb.Database.{Database, Databases}
use shoredb.Rdb.{
  op_resize_db, write_length, write_string, save_strings, save_lists, save_sets, save_hashes,
  save_list, save_set, save_hash, save_database, save_databases, total_keys,
}
use shoredb.Rdb.Sections.{AllFit}
use shoredb.Rdb.Entries.{FitsList, FitsSet, FitsHash, l_range-whole}
use shoredb.Rdb.Restore.{Storable, rounds}

abbrev pub all_rounds : Databases → ℕ
all_rounds [] = 0
all_rounds (db ∷ dbs) = (if total_keys db == 0 then 0 else rounds db) + all_rounds dbs

length-write_length : (n : ℕ) → 1 ≤ length (write_length n)
unfolding write_length
length-write_length n = ground arith

length-save_strings : (m : Dict Bytes) → length m ≤ length (save_strings m)
unfolding save_strings
length-save_strings [] = omega arith
length-save_strings ((key, value) ∷ m) = ground (
  arith,
  length-save_strings m,
  length-append (write_string key) (write_string value ++ save_strings m),
  length-append (write_string value) (save_strings m),
)

length-save_lists : (m : Dict Items) → AllFit FitsList m → length m ≤ length (save_lists m)
unfolding save_lists
length-save_lists [] h = omega arith
length-save_lists ((key, []) ∷ m) ((fits, filled), more) = absurd (omega arith)
length-save_lists ((key, item ∷ items) ∷ m) (fits, more) = rw (l_range-whole (item ∷ items)) (
    ground (
      arith,
      length-save_lists m more,
      length-append (save_list key (item ∷ items)) (save_lists m),
    ))

length-save_sets : (m : Dict Members) → AllFit FitsSet m → length m ≤ length (save_sets m)
unfolding save_sets
length-save_sets [] h = omega arith
length-save_sets ((key, []) ∷ m) ((fits, filled, distinct), more) = absurd (omega arith)
length-save_sets ((key, member ∷ members) ∷ m) (fits, more) = ground (
  arith,
  length-save_sets m more,
  length-append (save_set key (s_members (member ∷ members))) (save_sets m),
)

length-save_hashes : (m : Dict FieldMap) → AllFit FitsHash m → length m ≤ length (save_hashes m)
unfolding save_hashes
length-save_hashes [] h = omega arith
length-save_hashes ((key, []) ∷ m) ((fits, filled), more) = absurd (omega arith)
length-save_hashes ((key, field ∷ fields) ∷ m) (fits, more) = ground (
  arith,
  length-save_hashes m more,
  length-append (save_hash key (h_get_all (field ∷ fields))) (save_hashes m),
)

-- Load takes no more rounds than there are bytes.
length-save_database :
    (index : ℕ) (db : Database)
    → Storable db
    → (if total_keys db == 0 then 0 else rounds db) ≤ length (save_database index db)
unfolding save_database
length-save_database index db h = elim (Bool-cases (total_keys db == 0)) [
  | inl e ↦ rw e (omega arith)
  | inr e ↦
      let hashes = save_hashes db.hashes in
      let sets = save_sets db.sets ++ hashes in
      let lists = save_lists db.lists ++ sets in
      let strings = save_strings db.store ++ lists in
      let sizes = write_length (total_keys db) ++ (write_length 0 ++ strings) in
      rw
        (
          e,
          length-append (write_length index) (op_resize_db ∷ sizes),
          length-append (write_length (total_keys db)) (write_length 0 ++ strings),
          length-append (write_length 0) strings,
          length-append (save_strings db.store) lists,
          length-append (save_lists db.lists) sets,
          length-append (save_sets db.sets) hashes,
        )
        (ground (
          arith,
          length-save_strings db.store,
          length-save_lists db.lists h.lists,
          length-save_sets db.sets h.sets,
          length-save_hashes db.hashes h.hashes,
        ))
]

pub all_rounds-bytes :
    (index : ℕ) (dbs : Databases)
    → AllFit Storable dbs
    → all_rounds dbs ≤ length (save_databases index dbs)
unfolding save_databases
all_rounds-bytes index [] h = omega arith
all_rounds-bytes index (db ∷ dbs) (here, more) =
    rw (length-append (save_database index db) (save_databases (suc index) dbs)) (
      let this = length-save_database index db here in
      let others = all_rounds-bytes (suc index) dbs more in omega arith)
