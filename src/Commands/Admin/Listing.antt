-- ===== src/Commands/Admin/Listing.antt =====
-- KEYS, DBSIZE and COMMAND of pkg/commands/admin_commands.go against the maps and the tables.
use shoredb.Base.{
  suc, ◌-◌, ◌≡◌, refl, ap, ◌∙◌, Bool, true, false, ◌&&◌, ◌||◌, List, [], ◌∷◌, ◌++◌, map, arith,
  Bytes, codes, str_eq, str_eq_iff, leb, length, length-append,
}
use shoredb.Base.Dict.{Dict, lookup, has, keys}
use shoredb.Resp.{Value, array, to_list, bulk_string, str}
use shoredb.Datastruct.Sets.Counts.{among}
use shoredb.Commands.{Env, bulk_array, number_reply}
use shoredb.Database.{Database, sweep_expired}
use shoredb.Commands.Admin.{
  filter, matching_keys, keys_cmd, dbsize, find_command_spec, get_keys, step_keys,
}
use shoredb.Server.{to_upper}

among-append :
    (key : Bytes) (xs ys : List Bytes) → among key (xs ++ ys) ≡ (among key xs || among key ys)
among-append key [] ys = refl
among-append key (x ∷ xs) ys = ground (arith, among-append key xs ys)

among-filter :
    (p : Bytes → Bool) (key : Bytes) (ks : List Bytes)
    → among key (filter p ks) ≡ (p key && among key ks)
among-filter p key [] = ground arith
among-filter p key (k ∷ ks) = ground (arith, among-filter p key ks, str_eq_iff k key)

among-keys : {V : Type 0} (key : Bytes) (m : Dict V) → among key (keys m) ≡ has key m
unfolding lookup
among-keys key [] = refl
among-keys key ((k, v) ∷ m) = ground (arith, among-keys key m, str_eq_iff k key, str_eq_iff key k)

-- A key is in a map of the database.
abbrev pub holds : Bytes → Database → Bool
holds key db = has key db.store || (has key db.lists || (has key db.sets || has key db.hashes))

matching_keys_lem :
    (p : Bytes → Bool) (db : Database) (key : Bytes)
    → among key (matching_keys p db) ≡ (p key && holds key db)
unfolding matching_keys
matching_keys_lem p db key = ground (
  arith,
  among-append key (filter p (keys db.store))
      (filter p (keys db.lists) ++ (filter p (keys db.sets) ++ filter p (keys db.hashes))),
  among-append key (filter p (keys db.lists))
      (filter p (keys db.sets) ++ filter p (keys db.hashes)),
  among-append key (filter p (keys db.sets)) (filter p (keys db.hashes)),
  among-filter p key (keys db.store),
  among-filter p key (keys db.lists),
  among-filter p key (keys db.sets),
  among-filter p key (keys db.hashes),
  among-keys key db.store,
  among-keys key db.lists,
  among-keys key db.sets,
  among-keys key db.hashes,
)

-- The texts of a reply.
abbrev pub reply_texts : Value → List Bytes
reply_texts (array vs) = map str (to_list vs)
reply_texts _ = []

reply_texts-bulk_array : (ks : List Bytes) → reply_texts (bulk_array ks) ≡ ks
reply_texts-bulk_array [] = refl
reply_texts-bulk_array (k ∷ ks) = ap (◌∷◌ k) (reply_texts-bulk_array ks)

-- KEYS lists exactly the keys that match its pattern and stand in a map of the database, once the keys
-- that are due are swept away; for any function in the place of filepath.Match.
pub keys_cmd_lists :
    (matches : Bytes → Bytes → Bool) (env : Env) (pattern key : Bytes) (db : Database)
    → among key (reply_texts (keys_cmd matches env (bulk_string pattern ∷ []) db).1)
      ≡ (matches pattern key && holds key (sweep_expired env.now db))
unfolding keys_cmd
keys_cmd_lists matches env pattern key db =
    ap (among key)
      (reply_texts-bulk_array (matching_keys (matches pattern) (sweep_expired env.now db)))
    ∙ matching_keys_lem (matches pattern) (sweep_expired env.now db) key

length-filter_all :
    (p : Bytes → Bool) (ks : List Bytes)
    → ((k : Bytes) → p k ≡ true)
    → length (filter p ks) ≡ length ks
length-filter_all p [] h = refl
length-filter_all p (k ∷ ks) h = rw (h k) (ap suc (length-filter_all p ks h))

length-keys : {V : Type 0} (m : Dict V) → length (keys m) ≡ length m
length-keys [] = refl
length-keys ((k, v) ∷ m) = ap suc (length-keys m)

-- DBSIZE counts as many keys as KEYS lists for a pattern that matches every key.
pub dbsize_counts :
    (matches : Bytes → Bytes → Bool) (env : Env) (pattern : Bytes) (args : List Value)
    (db : Database)
    → ((key : Bytes) → matches pattern key ≡ true)
    → (dbsize env args db).1
      ≡ number_reply (length (reply_texts (keys_cmd matches env (bulk_string pattern ∷ []) db).1))
unfolding dbsize keys_cmd matching_keys
dbsize_counts matches env pattern args db h =
    let p = matches pattern in
    let swept = sweep_expired env.now db in
    let hashes = filter p (keys swept.hashes) in
    let sets = filter p (keys swept.sets) ++ hashes in
    let lists = filter p (keys swept.lists) ++ sets in
    rw
      (
        reply_texts-bulk_array (matching_keys p swept),
        length-append (filter p (keys swept.store)) lists,
        length-append (filter p (keys swept.lists)) sets,
        length-append (filter p (keys swept.sets)) hashes,
        length-filter_all p (keys swept.store) h,
        length-filter_all p (keys swept.lists) h,
        length-filter_all p (keys swept.sets) h,
        length-filter_all p (keys swept.hashes) h,
        length-keys swept.store,
        length-keys swept.lists,
        length-keys swept.sets,
        length-keys swept.hashes,
      )
      (ap number_reply (omega arith))

-- The arguments of MSET.
abbrev pub flat_pairs : List (Bytes × Bytes) → List Value
flat_pairs [] = []
flat_pairs ((key, value) ∷ pairs) = bulk_string key ∷ bulk_string value ∷ flat_pairs pairs

step_keys-flat_pairs :
    (pairs : List (Bytes × Bytes))
    → step_keys 2 0 (length (flat_pairs pairs)) (flat_pairs pairs) ≡ keys pairs
step_keys-flat_pairs [] = refl
step_keys-flat_pairs ((key, value) ∷ pairs) = ap (◌∷◌ key) (step_keys-flat_pairs pairs)

-- COMMAND GETKEYS of an MSET gives the keys that the MSET sets, in their order.
pub get_keys-mset :
    (key value : Bytes) (pairs : List (Bytes × Bytes))
    → get_keys (bulk_string (codes "MSET") ∷ flat_pairs ((key, value) ∷ pairs))
      ≡ bulk_array (key ∷ keys pairs)
unfolding get_keys find_command_spec to_upper str_eq
get_keys-mset key value pairs =
    let n = suc (suc (length (flat_pairs pairs))) in
    let some_args : leb n 0 ≡ false = ground arith in
    let whole : n - 0 ≡ n = omega arith in
    let behind : leb n 1 ≡ false = ground arith in
    rw (some_args, whole, behind, whole)
      (ap (λ ks. bulk_array (key ∷ ks)) (step_keys-flat_pairs pairs))
