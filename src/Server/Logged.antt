-- ===== src/Server/Logged.antt =====
-- The commands that stand in the log, run by their handlers.
use shoredb.Base.{ℕ, ◌+◌, ◌≡◌, refl, false, Option, none, some, List, [], ◌∷◌, map, arith, Bytes}
use shoredb.Base.Dict.{lookup, erase}
use shoredb.Resp.{bulk_string}
use shoredb.Datastruct.Lists.{Items, l_pop, r_pop}
use shoredb.Datastruct.Sets.{Members}
use shoredb.Datastruct.Hashes.{FieldMap}
use shoredb.Database.{
  Time, delete_key, expire_if_needed, evict, Database, get_list, get_set, get_hash,
  get_or_create_list, get_or_create_set, get_or_create_hash, list_or_new, set_or_new, hash_or_new,
}
use shoredb.Commands.{Env, texts}
use shoredb.Commands.Strings.{set, del, del_loop}
use shoredb.Commands.Lists.{lpush, rpush, pop_found, popped, lpop, rpop}
use shoredb.Commands.Sets.{sadd, srem, rem_members}
use shoredb.Commands.Hashes.{hset, hdel, del_from}
use shoredb.Server.Replay.Handlers.{
  Logged, set_value, push_left, push_right, pop_left, pop_right, add_members, remove_members,
  set_field, delete_fields, delete_keys, handler_of, args_of, no_deadlines,
}
use shoredb.Server.Process.{is_error}

pop_expires :
    (key : Bytes) (db : Database) (r : Items × Option Bytes)
    → (popped key db r).0.expires ≡ db.expires
pop_expires key db (items, none) = refl
pop_expires key db (items, some value) = ground arith

pop_found-expires :
    (pop : Items → Items × Option Bytes) (key : Bytes) (db : Database) (found : Option Items)
    → (pop_found pop key db found).0.expires ≡ db.expires
pop_found-expires pop key db none = refl
pop_found-expires pop key db (some list) = pop_expires key db (pop list)

list_or_new-expires :
    (key : Bytes) (db : Database) (found : Option Items)
    → (list_or_new key db found).0.expires ≡ db.expires
list_or_new-expires key db none = refl
list_or_new-expires key db (some list) = refl

set_or_new-expires :
    (key : Bytes) (db : Database) (found : Option Members)
    → (set_or_new key db found).0.expires ≡ db.expires
set_or_new-expires key db none = refl
set_or_new-expires key db (some list) = refl

hash_or_new-expires :
    (key : Bytes) (db : Database) (found : Option FieldMap)
    → (hash_or_new key db found).0.expires ≡ db.expires
hash_or_new-expires key db none = refl
hash_or_new-expires key db (some list) = refl

rem_members-expires :
    (members : List Bytes) (key : Bytes) (db : Database) (found : Option Members)
    → (rem_members members key db found).0.expires ≡ db.expires
rem_members-expires members key db none = refl
rem_members-expires members key db (some list) = ground arith

del_from-expires :
    (fields : List Bytes) (key : Bytes) (db : Database) (found : Option FieldMap)
    → (del_from fields key db found).0.expires ≡ db.expires
del_from-expires fields key db none = refl
del_from-expires fields key db (some list) = ground arith

del_loop-expires :
    (now : Time) (keys : List Bytes) (db : Database) (n : ℕ)
    → (del_loop now keys (no_deadlines db) n).0.expires ≡ []
unfolding del_loop delete_key expire_if_needed lookup erase
del_loop-expires now [] db n = refl
del_loop-expires now (key ∷ keys) db n =
    del_loop-expires now keys (evict key db) (n + (delete_key now key (no_deadlines db)).1)

-- A command of `Logged`, on a database without deadlines, leaves one without deadlines.
pub handler-expires :
    (command : Logged) (env : Env) (key : Bytes) (db : Database)
    → (handler_of command env (args_of key command) (no_deadlines db)).0.expires ≡ []
unfolding set del lpush rpush lpop rpop sadd srem hset hdel get_list get_set get_hash
    get_or_create_list get_or_create_set get_or_create_hash lookup erase
handler-expires (set_value value) env key db = refl
handler-expires (push_left value values) env key db =
    list_or_new-expires key (no_deadlines db) (lookup key db.lists)
handler-expires (push_right value values) env key db =
    list_or_new-expires key (no_deadlines db) (lookup key db.lists)
handler-expires pop_left env key db =
    pop_found-expires l_pop key (no_deadlines db) (lookup key db.lists)
handler-expires pop_right env key db =
    pop_found-expires r_pop key (no_deadlines db) (lookup key db.lists)
handler-expires (add_members member members) env key db =
    set_or_new-expires key (no_deadlines db) (lookup key db.sets)
handler-expires (remove_members member members) env key db =
    rem_members-expires (texts (map bulk_string (member ∷ members))) key (no_deadlines db)
      (lookup key db.sets)
handler-expires (set_field field value) env key db =
    hash_or_new-expires key (no_deadlines db) (lookup key db.hashes)
handler-expires (delete_fields field fields) env key db =
    del_from-expires (texts (map bulk_string (field ∷ fields))) key (no_deadlines db)
      (lookup key db.hashes)
handler-expires (delete_keys keys) env key db =
    del_loop-expires env.now (texts (map bulk_string (key ∷ keys))) db 0

pop_found-answers :
    (pop : Items → Items × Option Bytes) (key : Bytes) (db : Database) (found : Option Items)
    → is_error (pop_found pop key db found).1 ≡ false
pop_found-answers pop key db none = refl
pop_found-answers pop key db (some list) = go (pop list)
  where
    go : (r : Items × Option Bytes) → is_error (popped key db r).1 ≡ false
    go (items, none) = refl
    go (items, some value) = refl

rem_members-answers :
    (members : List Bytes) (key : Bytes) (db : Database) (found : Option Members)
    → is_error (rem_members members key db found).1 ≡ false
rem_members-answers members key db none = refl
rem_members-answers members key db (some list) = refl

del_from-answers :
    (fields : List Bytes) (key : Bytes) (db : Database) (found : Option FieldMap)
    → is_error (del_from fields key db found).1 ≡ false
del_from-answers fields key db none = refl
del_from-answers fields key db (some list) = refl

-- A command of `Logged` answers no error.
pub handler-answers :
    (command : Logged) (env : Env) (key : Bytes) (db : Database)
    → is_error (handler_of command env (args_of key command) db).1 ≡ false
unfolding set del lpush rpush lpop rpop sadd srem hset hdel get_list get_set get_hash
handler-answers (set_value value) env key db = refl
handler-answers (push_left value values) env key db = refl
handler-answers (push_right value values) env key db = refl
handler-answers pop_left env key db =
    let (db', found) = get_list env.now key db in pop_found-answers l_pop key db' found
handler-answers pop_right env key db =
    let (db', found) = get_list env.now key db in pop_found-answers r_pop key db' found
handler-answers (add_members member members) env key db = refl
handler-answers (remove_members member members) env key db =
    let (db', found) = get_set env.now key db in
    rem_members-answers (texts (map bulk_string (member ∷ members))) key db' found
handler-answers (set_field field value) env key db = refl
handler-answers (delete_fields field fields) env key db =
    let (db', found) = get_hash env.now key db in
    del_from-answers (texts (map bulk_string (field ∷ fields))) key db' found
handler-answers (delete_keys keys) env key db = refl
