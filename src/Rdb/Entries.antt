-- ===== src/Rdb/Entries.antt =====
-- The entries of a database, section by section: saveDatabase of pkg/persistence/rdb.go and the reads
-- of Load.
use shoredb.Base.{
  ℕ, zero, suc, ◌+◌, ◌^◌, ◌≤◌, ◌<◌, ◌≡◌, refl, ap, ◌∙◌, List, [], ◌∷◌, ◌++◌, append_assoc, arith,
  Bytes, length, take,
}
use shoredb.Base.{set}
use shoredb.Base.Int.{pos, negsuc, ◌+ℤ◌}
use shoredb.Base.Dict.{insert, keys, IsMap}
use shoredb.Datastruct.Lists.{Items, l_range, from_end}
use shoredb.Datastruct.Sets.{Members}
use shoredb.Datastruct.Hashes.{FieldMap}
use shoredb.Database.{Time, Database, Databases}
use shoredb.Rdb.{
  write_length, write_string, write_strings, write_fields, save_strings, save_lists, save_sets,
  save_hashes, save_list, save_set, save_hash,
}
use shoredb.Rdb.Load.{push_items, add_members, put_fields, load_round, load_loop, next}
use shoredb.Rdb.Codec.{AreShort, AreShortFields}
use shoredb.Rdb.Sections.{
  string_round, list_round, set_round, hash_round, AllFit, put_all, section_loaded,
}

-- What an entry must be for its lengths to be written in 32 bits: a container is not empty, and holds no
-- member or field twice.
abbrev pub FitsString : Bytes × Bytes → Type 0
FitsString (key, value) = (length key < 2 ^ 32) × (length value < 2 ^ 32)

abbrev pub FitsList : Bytes × Items → Type 0
FitsList (key, items) =
    ((length key < 2 ^ 32) × (length items < 2 ^ 32) × AreShort items) × (0 < length items)

abbrev pub FitsSet : Bytes × Members → Type 0
FitsSet (key, members) =
    ((length key < 2 ^ 32) × (length (keys members) < 2 ^ 32) × AreShort (keys members))
    × (0 < length members)
    × IsMap members

abbrev pub FitsHash : Bytes × FieldMap → Type 0
FitsHash (key, fields) =
    ((length key < 2 ^ 32) × (length fields < 2 ^ 32) × AreShortFields fields × IsMap fields)
    × (0 < length fields)

abbrev pub put_string : Bytes × Bytes → Database → Database
put_string (key, value) db = record db { store = insert key value db.store }

abbrev pub put_list : Time → Bytes × Items → Database → Database
put_list now (key, items) db = push_items now key items db

abbrev pub put_set : Time → Bytes × Members → Database → Database
put_set now (key, members) db = add_members now key (keys members) db

abbrev pub put_hash : Time → Bytes × FieldMap → Database → Database
put_hash now (key, fields) db = put_fields now key fields db

take_all : (items : Items) (n : ℕ) → length items ≤ n → take n items ≡ items
take_all [] zero h = refl
take_all [] (suc n) h = refl
take_all (x ∷ items) zero h = absurd (omega arith)
take_all (x ∷ items) (suc n) h = ap (◌∷◌ x) (take_all items n (omega arith))

-- `LRange(0, -1)` is the whole list.
pub l_range-whole : (items : Items) → l_range (pos 0) (negsuc 0) items ≡ items
unfolding l_range
l_range-whole [] = refl
l_range-whole (x ∷ items) =
    rw last_index (ground (arith, take_all (x ∷ items) (length items + 1) (omega arith)))
  where
    last_index : from_end (suc (length items)) (negsuc 0) ≡ pos (length items)
    last_index = unfold ◌+ℤ◌ in ground arith

entry_bytes : (a b c rest : Bytes) → (a ++ (b ++ c)) ++ rest ≡ a ++ (b ++ (c ++ rest))
entry_bytes a b c rest = rw (append_assoc a (b ++ c) rest, append_assoc b c rest) refl

module _ (now : Time) (dbs : Databases) (i : ℕ) (h : i < length dbs) where
  string_entry :
      (e : Bytes × Bytes) (es : List (Bytes × Bytes)) (rest : Bytes) (db : Database)
      → FitsString e
      → load_round now (save_strings (e ∷ es) ++ rest) i (set dbs i db)
        ≡ next (save_strings es ++ rest) i (set dbs i (put_string e db))
  unfolding save_strings
  string_entry (key, value) es rest db fits =
      rw
        (
          append_assoc (write_string key) (write_string value ++ save_strings es) rest,
          append_assoc (write_string value) (save_strings es) rest,
        )
        (string_round now key value (save_strings es ++ rest) dbs i db h fits)

  list_entry :
      (e : Bytes × Items) (es : List (Bytes × Items)) (rest : Bytes) (db : Database)
      → FitsList e
      → load_round now (save_lists (e ∷ es) ++ rest) i (set dbs i db)
        ≡ next (save_lists es ++ rest) i (set dbs i (put_list now e db))
  unfolding save_lists
  list_entry (key, []) es rest db (fits, filled) = absurd (omega arith)
  list_entry (key, item ∷ items) es rest db (fits, filled) =
      rw
        (
          l_range-whole (item ∷ items),
          append_assoc (save_list key (item ∷ items)) (save_lists es) rest,
          entry_bytes (write_string key) (write_length (suc (length items)))
              (write_strings (item ∷ items)) (save_lists es ++ rest),
        )
        (list_round now key (item ∷ items) (save_lists es ++ rest) dbs i db h fits)

  set_entry :
      (e : Bytes × Members) (es : List (Bytes × Members)) (rest : Bytes) (db : Database)
      → FitsSet e
      → load_round now (save_sets (e ∷ es) ++ rest) i (set dbs i db)
        ≡ next (save_sets es ++ rest) i (set dbs i (put_set now e db))
  unfolding save_sets
  set_entry (key, []) es rest db (fits, filled, distinct) = absurd (omega arith)
  set_entry (key, (m, u) ∷ members) es rest db (fits, filled, distinct) =
      rw
        (
          append_assoc (save_set key (m ∷ keys members)) (save_sets es) rest,
          entry_bytes (write_string key) (write_length (suc (length (keys members))))
              (write_strings (m ∷ keys members)) (save_sets es ++ rest),
        )
        (set_round now key (m ∷ keys members) (save_sets es ++ rest) dbs i db h fits)

  hash_entry :
      (e : Bytes × FieldMap) (es : List (Bytes × FieldMap)) (rest : Bytes) (db : Database)
      → FitsHash e
      → load_round now (save_hashes (e ∷ es) ++ rest) i (set dbs i db)
        ≡ next (save_hashes es ++ rest) i (set dbs i (put_hash now e db))
  unfolding save_hashes
  hash_entry (key, []) es rest db (fits, filled) = absurd (omega arith)
  hash_entry (key, (f, v) ∷ fields) es rest db (fits, filled) =
      rw
        (
          append_assoc (save_hash key ((f, v) ∷ fields)) (save_hashes es) rest,
          entry_bytes (write_string key) (write_length (suc (length fields)))
              (write_fields ((f, v) ∷ fields)) (save_hashes es ++ rest),
        )
        (hash_round now key ((f, v) ∷ fields) (save_hashes es ++ rest) dbs i db h fits)

  -- The four sections, one behind another.
  pub entries_loaded :
      (db saved : Database) (f : ℕ) (rest : Bytes)
      → AllFit FitsString saved.store
      → AllFit FitsList saved.lists
      → AllFit FitsSet saved.sets
      → AllFit FitsHash saved.hashes
      → load_loop
          (length saved.store
            + (length saved.lists + (length saved.sets + (length saved.hashes + f))))
          now
          (save_strings saved.store
            ++ (save_lists saved.lists
                ++ (save_sets saved.sets ++ (save_hashes saved.hashes ++ rest))))
          i
          (set dbs i db)
        ≡ load_loop f now rest i (
            set dbs i (
              put_all (put_hash now) saved.hashes (
                put_all
                  (put_set now)
                  saved.sets
                  (put_all (put_list now) saved.lists (put_all put_string saved.store db)))))
  unfolding save_strings save_lists save_sets save_hashes
  entries_loaded db saved f rest strings lists sets hashes =
      let hashes_in = save_hashes saved.hashes ++ rest in
      let sets_in = save_sets saved.sets ++ hashes_in in
      let lists_in = save_lists saved.lists ++ sets_in in
      let a = put_all put_string saved.store db in
      let b = put_all (put_list now) saved.lists a in
      let c = put_all (put_set now) saved.sets b in
      section_loaded FitsString save_strings put_string now dbs i refl string_entry saved.store
        (length saved.lists + (length saved.sets + (length saved.hashes + f))) lists_in db strings
      ∙ section_loaded FitsList save_lists (put_list now) now dbs i refl list_entry saved.lists
          (length saved.sets + (length saved.hashes + f)) sets_in a lists
      ∙ section_loaded FitsSet save_sets (put_set now) now dbs i refl set_entry saved.sets
          (length saved.hashes + f) hashes_in b sets
      ∙ section_loaded FitsHash save_hashes (put_hash now) now dbs i refl hash_entry saved.hashes f
          rest c hashes
