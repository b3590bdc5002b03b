-- ===== src/Rdb/Restore.antt =====
-- One database of a snapshot: saveDatabase of pkg/persistence/rdb.go and Load.
use shoredb.Base.{
  ℕ, suc, ◌+◌, ◌^◌, ◌<◌, ◌≡◌, refl, ap, ◌∙◌, false, [], ◌∷◌, ◌++◌, append_assoc, arith, Bytes, ◌==◌,
  length,
}
use shoredb.Base.{set}
use shoredb.Database.{Time, Database, Databases, num_databases, new_database}
use shoredb.Database.Expiry.{AreMaps}
use shoredb.Rdb.{
  write_length, save_strings, save_lists, save_sets, save_hashes, save_database, total_keys,
  op_select_db, op_resize_db,
}
use shoredb.Rdb.Load.{load_round, load_index, load_sizes, load_loop, next}
use shoredb.Rdb.Codec.{read_length-write_length}
use shoredb.Rdb.Sections.{loop-next, AllFit, put_all}
use shoredb.Rdb.Entries.{
  FitsString, FitsList, FitsSet, FitsHash, put_string, put_list, put_set, put_hash, entries_loaded,
}
use shoredb.Rdb.Fill.{undated, strings_filled, lists_filled, sets_filled, hashes_filled}

-- What a database must be for its snapshot to hold it: maps without a key twice, no empty container, and
-- less than 2 ^ 32 of everything that is counted.
pub record Storable (db : Database) : Type 0 where
  pub maps : AreMaps db
  pub strings : AllFit FitsString db.store
  pub lists : AllFit FitsList db.lists
  pub sets : AllFit FitsSet db.sets
  pub hashes : AllFit FitsHash db.hashes
  pub few : total_keys db < 2 ^ 32

-- A database as a snapshot has it: without its deadlines.
abbrev pub without_deadlines : Database → Database
without_deadlines db = undated db.store db.lists db.sets db.hashes

index_round :
    (now : Time) (index j : ℕ) (rest : Bytes) (dbs : Databases)
    → index < num_databases
    → load_round now (op_select_db ∷ (write_length index ++ rest)) j dbs ≡ next rest index dbs
unfolding load_round load_index
index_round now index j rest dbs h =
    rw (read_length-write_length index rest (omega arith)) (ground arith)

sizes_round :
    (now : Time) (n j : ℕ) (rest : Bytes) (dbs : Databases)
    → n < 2 ^ 32
    → load_round now (op_resize_db ∷ (write_length n ++ (write_length 0 ++ rest))) j dbs
      ≡ next rest j dbs
unfolding load_round load_sizes
sizes_round now n j rest dbs h =
    rw
      (
        read_length-write_length n (write_length 0 ++ rest) h,
        read_length-write_length 0 rest (omega arith),
      )
      refl

all_put :
    (now : Time) (db : Database)
    → Storable db
    → put_all (put_hash now) db.hashes (
        put_all
          (put_set now)
          db.sets
          (put_all (put_list now) db.lists (put_all put_string db.store new_database)))
      ≡ without_deadlines db
all_put now db h =
    rw
      (
        strings_filled db.store [] [] [] [] h.maps.store,
        lists_filled now db.lists db.store [] [] [] h.maps.lists,
        sets_filled now db.sets db.store db.lists [] [] h.maps.sets h.sets,
      )
      (hashes_filled now db.hashes db.store db.lists db.sets [] h.maps.hashes h.hashes)

-- The bytes of a database that is not empty, with what stands behind them.
save_database-bytes :
    (index : ℕ) (db : Database) (rest : Bytes)
    → (total_keys db == 0) ≡ false
    → save_database index db ++ rest
      ≡ op_select_db
        ∷ (write_length index
            ++ (op_resize_db
                ∷ (write_length (total_keys db)
                    ++ (write_length 0
                        ++ (save_strings db.store
                            ++ (save_lists db.lists
                                ++ (save_sets db.sets ++ (save_hashes db.hashes ++ rest))))))))
unfolding save_database
save_database-bytes index db rest h =
    let hashes = save_hashes db.hashes in
    let sets = save_sets db.sets ++ hashes in
    let lists = save_lists db.lists ++ sets in
    let strings = save_strings db.store ++ lists in
    let sizes = write_length (total_keys db) ++ (write_length 0 ++ strings) in
    rw
      (
        h,
        append_assoc (write_length index) (op_resize_db ∷ sizes) rest,
        append_assoc (write_length (total_keys db)) (write_length 0 ++ strings) rest,
        append_assoc (write_length 0) strings rest,
        append_assoc (save_strings db.store) lists rest,
        append_assoc (save_lists db.lists) sets rest,
        append_assoc (save_sets db.sets) hashes rest,
      )
      refl

-- The rounds of Load over a database that is not empty.
abbrev pub rounds : Database → ℕ
rounds db = 2 + (length db.store + (length db.lists + (length db.sets + length db.hashes)))

pub database_loaded :
    (now : Time) (dbs : Databases) (index j f : ℕ) (db : Database) (rest : Bytes)
    → index < length dbs
    → index < num_databases
    → Storable db
    → (total_keys db == 0) ≡ false
    → load_loop (rounds db + f) now (save_database index db ++ rest) j (set dbs index new_database)
      ≡ load_loop f now rest index (set dbs index (without_deadlines db))
database_loaded now dbs index j f db rest inside h ok filled =
    let strings_in =
      save_strings db.store
      ++ (save_lists db.lists ++ (save_sets db.sets ++ (save_hashes db.hashes ++ rest))) in
    let sizes_in = write_length (total_keys db) ++ (write_length 0 ++ strings_in) in
    let g = length db.store + (length db.lists + (length db.sets + (length db.hashes + f))) in
    let start = set dbs index new_database in
    let count : rounds db + f ≡ suc (suc g) = omega arith in
    rw (count, save_database-bytes index db rest filled)
      (loop-next (suc g) now (op_select_db ∷ (write_length index ++ (op_resize_db ∷ sizes_in)))
          (op_resize_db ∷ sizes_in) j index start start
          (index_round now index j (op_resize_db ∷ sizes_in) start h)
        ∙ loop-next g now (op_resize_db ∷ sizes_in) strings_in index index start start
            (sizes_round now (total_keys db) index strings_in start ok.few)
        ∙ entries_loaded now dbs index inside new_database db f rest ok.strings ok.lists ok.sets
            ok.hashes
        ∙ ap (λ loaded. load_loop f now rest index (set dbs index loaded)) (all_put now db ok))
