-- ===== src/Database.antt =====
-- pkg/commands/database.go: one logical database, and the sixteen of a server.
-- The maps hold the containers' contents: no command keeps a container beyond its own end, and
-- the commands are taken one after another. The readings of the clock are arguments.
pub mod Expiry
pub mod Deletion
use shoredb.Base.{
  ℕ, zero, suc, ◌+◌, ◌-◌, ◌*◌, ◌/◌, ◌%◌, ◌^◌, ◌≤◌, ◌<◌, ◌≡◌, refl, sym, ap, ◌∙◌, ◌≢◌, ◌↔◌, ◌⊎◌, inl,
  inr, Bool, true, false, not, ◌&&◌, ◌||◌, Option, none, some, List, [], ◌∷◌, ◌++◌, map, append-nil,
  append_assoc, arith, Bytes, codes, str_eq, str_eq_iff, str_eq_refl, ltb, leb, ◌==◌, ==_iff,
  if◌then◌else◌, Bool-cases, Option-cases, is_some, length, get_elem?, set, take, drop,
  length-append,
}
use shoredb.Base.Int.{ℤ, pos, ltb_ℤ}
use shoredb.Base.Dict.{Dict, lookup, insert, erase, has, keys}
use shoredb.Datastruct.Lists.{Items, new_list}
use shoredb.Datastruct.Sets.{Members, new_set}
use shoredb.Datastruct.Hashes.{FieldMap, new_hash}

-- An instant, in nanoseconds.
abbrev pub Time : Type 0
Time = ℤ

pub record Database : Type 0 where
  pub store : Dict Bytes
  pub lists : Dict Items
  pub sets : Dict Members
  pub hashes : Dict FieldMap
  pub expires : Dict Time

-- NewDatabase
abbrev pub new_database : Database
new_database = record { store = []; lists = []; sets = []; hashes = []; expires = [] }

-- The five calls of `delete` in expireIfNeeded.
abbrev pub evict : Bytes → Database → Database
evict key db = record {
  store = erase key db.store;
  lists = erase key db.lists;
  sets = erase key db.sets;
  hashes = erase key db.hashes;
  expires = erase key db.expires;
}

-- `ok && !time.Now().Before(exp)`
abbrev pub is_due : Time → Option Time → Bool
is_due now none = false
is_due now (some exp) = not (ltb_ℤ now exp)

-- expireIfNeeded
unfoldable pub expire_if_needed : Time → Bytes → Database → Database
expire_if_needed now key db = if is_due now (lookup key db.expires) then evict key db else db

-- The keys that SweepExpired collects: `now.After(exp)`.
unfoldable pub due_keys : Time → Dict Time → List Bytes
due_keys now [] = []
due_keys now ((key, exp) ∷ expires) =
    let rest = due_keys now expires in if ltb_ℤ exp now then key ∷ rest else rest

unfoldable pub expire_each : Time → List Bytes → Database → Database
unfolding expire_if_needed
expire_each now [] db = db
expire_each now (key ∷ keys) db = expire_each now keys (expire_if_needed now key db)

-- SweepExpired
unfoldable pub sweep_expired : Time → Database → Database
unfolding due_keys expire_each
sweep_expired now db = expire_each now (due_keys now db.expires) db

-- GetList, GetSet and GetHash
unfoldable pub get_list : Time → Bytes → Database → Database × Option Items
unfolding expire_if_needed
get_list now key db = let db' = expire_if_needed now key db in (db', lookup key db'.lists)

unfoldable pub get_set : Time → Bytes → Database → Database × Option Members
unfolding expire_if_needed
get_set now key db = let db' = expire_if_needed now key db in (db', lookup key db'.sets)

unfoldable pub get_hash : Time → Bytes → Database → Database × Option FieldMap
unfolding expire_if_needed
get_hash now key db = let db' = expire_if_needed now key db in (db', lookup key db'.hashes)

-- The container that is found, or a new one that the map then holds.
abbrev pub list_or_new : Bytes → Database → Option Items → Database × Items
list_or_new key db (some list) = (db, list)
list_or_new key db none = (record db { lists = insert key new_list db.lists }, new_list)

abbrev pub set_or_new : Bytes → Database → Option Members → Database × Members
set_or_new key db (some set) = (db, set)
set_or_new key db none = (record db { sets = insert key new_set db.sets }, new_set)

abbrev pub hash_or_new : Bytes → Database → Option FieldMap → Database × FieldMap
hash_or_new key db (some hash) = (db, hash)
hash_or_new key db none = (record db { hashes = insert key new_hash db.hashes }, new_hash)

-- GetOrCreateList, GetOrCreateSet and GetOrCreateHash
unfoldable pub get_or_create_list : Time → Bytes → Database → Database × Items
unfolding expire_if_needed
get_or_create_list now key db =
    let db' = expire_if_needed now key db in list_or_new key db' (lookup key db'.lists)

unfoldable pub get_or_create_set : Time → Bytes → Database → Database × Members
unfolding expire_if_needed
get_or_create_set now key db =
    let db' = expire_if_needed now key db in set_or_new key db' (lookup key db'.sets)

unfoldable pub get_or_create_hash : Time → Bytes → Database → Database × FieldMap
unfolding expire_if_needed
get_or_create_hash now key db =
    let db' = expire_if_needed now key db in hash_or_new key db' (lookup key db'.hashes)

abbrev one_if : Bool → ℕ
one_if b = if b then 1 else 0

-- DeleteKey: the result counts the maps that held the key.
unfoldable pub delete_key : Time → Bytes → Database → Database × ℕ
unfolding expire_if_needed
delete_key now key db =
    let db' = expire_if_needed now key db in
    (
      evict key db',
      one_if (has key db'.store)
          + one_if (has key db'.lists)
          + one_if (has key db'.sets)
          + one_if (has key db'.hashes),
    )

-- keyExistsLocked of expire_commands.go, and the tests of KeyExists.
abbrev pub key_exists_locked : Bytes → Database → Bool
key_exists_locked key db =
    if has key db.store
    then true
    else if has key db.lists
    then true
    else if has key db.sets
    then true
    else if has key db.hashes
    then true
    else false

-- KeyExists
unfoldable pub key_exists : Time → Bytes → Database → Database × Bool
unfolding expire_if_needed
key_exists now key db = let db' = expire_if_needed now key db in (db', key_exists_locked key db')

-- GetKeyType
unfoldable pub get_key_type : Time → Bytes → Database → Database × Bytes
unfolding expire_if_needed
get_key_type now key db =
    let db' = expire_if_needed now key db in
    (
      db',
      (if has key db'.store
          then codes "string"
          else if has key db'.lists
          then codes "list"
          else if has key db'.sets
          then codes "set"
          else if has key db'.hashes
          then codes "hash"
          else codes "none"),
    )

-- NumDatabases
abbrev pub num_databases : ℕ
num_databases = 16

-- The databases of a MultiDB.
abbrev pub Databases : Type 0
Databases = List Database

-- NewMultiDB
abbrev pub new_databases : Databases
new_databases = fresh num_databases
  where
    fresh : ℕ → Databases
    fresh zero = []
    fresh (suc n) = new_database ∷ fresh n

-- MultiDB.DB; `none` stands for the panic of an index out of range.
abbrev pub db_at : Databases → ℕ → Option Database
db_at dbs index = get_elem? dbs index

-- MultiDB.SweepExpired
unfoldable pub sweep_all : Time → Databases → Databases
unfolding sweep_expired
sweep_all now [] = []
sweep_all now (db ∷ dbs) = sweep_expired now db ∷ sweep_all now dbs
