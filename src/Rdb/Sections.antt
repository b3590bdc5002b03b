-- ===== src/Rdb/Sections.antt =====
-- The rounds of Load over what saveDatabase writes for the entries of a database.
use shoredb.Base.{
  ℕ, zero, suc, ◌+◌, ◌^◌, ◌<◌, ◌≡◌, refl, ap, ◌∙◌, List, [], ◌∷◌, ◌++◌, arith, Bytes, length,
}
use shoredb.Base.{set, get_elem?-set_self}
use shoredb.Base.Dict.{insert, IsMap}
use shoredb.Datastruct.Hashes.{FieldMap}
use shoredb.Database.{Time, Database, Databases}
use shoredb.Rdb.{
  write_length, write_string, write_strings, write_fields, type_string, type_list, type_set,
  type_hash,
}
use shoredb.Rdb.Load.{
  next, change, push_items, add_members, put_fields, load_round, load_string, load_list, load_set,
  load_hash, load_loop,
}
use shoredb.Rdb.Codec.{
  AreShort, AreShortFields, read_length-write_length, read_string-write_string,
  read_strings-write_strings, read_fields-write_fields,
}
use shoredb.Rdb.Rebuild.{insert_all-nil}

set-set {ℓ} : {A : Type ℓ} (xs : List A) (i : ℕ) (v w : A) → set (set xs i v) i w ≡ set xs i w
set-set [] i v w = refl
set-set (x ∷ xs) zero v w = refl
set-set (x ∷ xs) (suc i) v w = ap (◌∷◌ x) (set-set xs i v w)

-- A change of the database that a round before has put at the current number.
change-set :
    (dbs : Databases) (i : ℕ) (rest : Bytes) (f : Database → Database) (db : Database)
    → i < length dbs
    → change (set dbs i db) i rest f ≡ next rest i (set dbs i (f db))
change-set dbs i rest f db h =
    rw (get_elem?-set_self dbs i db h) (ap (next rest i) (set-set dbs i db (f db)))

pub string_round :
    (now : Time) (key value rest : Bytes) (dbs : Databases) (i : ℕ) (db : Database)
    → i < length dbs
    → (length key < 2 ^ 32) × (length value < 2 ^ 32)
    → load_round now
        (type_string ∷ (write_string key ++ (write_string value ++ rest)))
        i
        (set dbs i db)
      ≡ next rest i (set dbs i (record db { store = insert key value db.store }))
unfolding load_round load_string
string_round now key value rest dbs i db h (hk, hv) =
    rw
      (
        read_string-write_string key (write_string value ++ rest) hk,
        read_string-write_string value rest hv,
      )
      (change-set dbs i rest (λ db. record db { store = insert key value db.store }) db h)

pub list_round :
    (now : Time) (key : Bytes) (items : List Bytes) (rest : Bytes) (dbs : Databases) (i : ℕ)
    (db : Database)
    → i < length dbs
    → (length key < 2 ^ 32) × (length items < 2 ^ 32) × AreShort items
    → load_round now
        (type_list
          ∷ (write_string key ++ (write_length (length items) ++ (write_strings items ++ rest))))
        i
        (set dbs i db)
      ≡ next rest i (set dbs i (push_items now key items db))
unfolding load_round load_list
list_round now key items rest dbs i db h (hk, hl, hs) =
    rw
      (
        read_string-write_string key (write_length (length items) ++ (write_strings items ++ rest))
            hk,
        read_length-write_length (length items) (write_strings items ++ rest) hl,
        read_strings-write_strings items rest hs,
      )
      (change-set dbs i rest (push_items now key items) db h)

pub set_round :
    (now : Time) (key : Bytes) (items : List Bytes) (rest : Bytes) (dbs : Databases) (i : ℕ)
    (db : Database)
    → i < length dbs
    → (length key < 2 ^ 32) × (length items < 2 ^ 32) × AreShort items
    → load_round now
        (type_set
          ∷ (write_string key ++ (write_length (length items) ++ (write_strings items ++ rest))))
        i
        (set dbs i db)
      ≡ next rest i (set dbs i (add_members now key items db))
unfolding load_round load_set
set_round now key items rest dbs i db h (hk, hl, hs) =
    rw
      (
        read_string-write_string key (write_length (length items) ++ (write_strings items ++ rest))
            hk,
        read_length-write_length (length items) (write_strings items ++ rest) hl,
        read_strings-write_strings items rest hs,
      )
      (change-set dbs i rest (add_members now key items) db h)

pub hash_round :
    (now : Time) (key : Bytes) (fields : FieldMap) (rest : Bytes) (dbs : Databases) (i : ℕ)
    (db : Database)
    → i < length dbs
    → (length key < 2 ^ 32) × (length fields < 2 ^ 32) × AreShortFields fields × IsMap fields
    → load_round now
        (type_hash
          ∷ (write_string key ++ (write_length (length fields) ++ (write_fields fields ++ rest))))
        i
        (set dbs i db)
      ≡ next rest i (set dbs i (put_fields now key fields db))
unfolding load_round load_hash
hash_round now key fields rest dbs i db h (hk, hl, hs, hm) =
    rw
      (
        read_string-write_string key (write_length (length fields) ++ (write_fields fields ++ rest))
            hk,
        read_length-write_length (length fields) (write_fields fields ++ rest) hl,
        read_fields-write_fields fields [] rest hs,
        insert_all-nil fields hm,
      )
      (change-set dbs i rest (put_fields now key fields) db h)

pub loop-next :
    (f : ℕ) (now : Time) (s rest : Bytes) (i j : ℕ) (dbs dbs' : Databases)
    → load_round now s i dbs ≡ next rest j dbs'
    → load_loop (suc f) now s i dbs ≡ load_loop f now rest j dbs'
unfolding load_loop
loop-next f now s rest i j dbs dbs' e = rw (load_loop, e) refl

zero_plus : (n : ℕ) → 0 + n ≡ n
zero_plus n = omega arith

abbrev pub AllFit {ℓ} : {E : Type 0} → (E → Type ℓ) → List E → Type ℓ
AllFit Fits [] = Unit
AllFit Fits (e ∷ es) = Fits e × AllFit Fits es

abbrev pub put_all : {E : Type 0} → (E → Database → Database) → List E → Database → Database
put_all put [] db = db
put_all put (e ∷ es) db = put_all put es (put e db)

-- The rounds over a section of entries, from what one entry does.
module _ {ℓ} {E : Type 0} (Fits : E → Type ℓ) (save : List E → Bytes)
    (put : E → Database → Database) (now : Time) (dbs : Databases) (i : ℕ) where
  pub section_loaded :
      (save [] ≡ [])
      → ((e : E) (es : List E) (rest : Bytes) (db : Database)
          → Fits e
          → load_round now (save (e ∷ es) ++ rest) i (set dbs i db)
            ≡ next (save es ++ rest) i (set dbs i (put e db)))
      → (es : List E) (f : ℕ) (rest : Bytes) (db : Database) → AllFit Fits es
      → load_loop (length es + f) now (save es ++ rest) i (set dbs i db)
        ≡ load_loop f now rest i (set dbs i (put_all put es db))
  section_loaded nothing round [] f rest db h = rw (nothing, zero_plus f) refl
  section_loaded nothing round (e ∷ es) f rest db (here, more) =
      let count : length (e ∷ es) + f ≡ suc (length es + f) = omega arith in
      rw count (
        loop-next (length es + f) now (save (e ∷ es) ++ rest) (save es ++ rest) i i (set dbs i db)
          (set dbs i (put e db)) (round e es rest db here)
        ∙ section_loaded nothing round es f rest (put e db) more)
