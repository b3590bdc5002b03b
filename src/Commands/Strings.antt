-- ===== src/Commands/Strings.antt =====
-- pkg/commands/string_commands.go, without the commands of the snapshot.
pub mod Counters
pub mod Keys
use shoredb.Base.{
  ℕ, zero, suc, ◌+◌, ◌-◌, ◌*◌, ◌/◌, ◌%◌, ◌^◌, ◌≤◌, ◌<◌, ◌≡◌, refl, sym, ap, ◌∙◌, ◌≢◌, ◌↔◌, ◌⊎◌, inl,
  inr, Bool, true, false, not, ◌&&◌, ◌||◌, Option, none, some, List, [], ◌∷◌, ◌++◌, map, append-nil,
  append_assoc, arith, Bytes, codes, str_eq, str_eq_iff, str_eq_refl, ltb, leb, ◌==◌, ==_iff,
  if◌then◌else◌, Bool-cases, Option-cases, is_some, length, get_elem?, take, drop, length-append,
}
use shoredb.Base.Int.{ℤ, pos, negsuc, ◌+ℤ◌, neg_ℤ, wrap}
use shoredb.Base.Dict.{lookup, insert, erase}
use shoredb.Strconv.{atoi, itoa}
use shoredb.Resp.{Value, Values, simple_string, bulk_string, integer, array, null, of_list, str}
use shoredb.Database.{Time, Database, expire_if_needed, delete_key, key_exists, get_key_type}
use shoredb.Commands.{Env, Handler, wrong_number, not_an_integer, ok_reply, number_reply, texts}

unfoldable pub ping : Handler
ping env [] db = (db, simple_string (codes "PONG"))
ping env (arg ∷ args) db = (db, bulk_string (str arg))

-- `db.Store[key] = value; delete(db.Expires, key)`
abbrev pub set_string : Bytes → Bytes → Database → Database
set_string key value db = record db {
  store = insert key value db.store;
  expires = erase key db.expires;
}

unfoldable pub set : Handler
set env (key ∷ value ∷ []) db = (set_string (str key) (str value) db, ok_reply)
set env _ db = (db, wrong_number (codes "set"))

abbrev pub bulk_or_null : Option Bytes → Value
bulk_or_null none = null
bulk_or_null (some value) = bulk_string value

unfoldable pub get : Handler
unfolding expire_if_needed
get env (key ∷ []) db =
    let db' = expire_if_needed env.now (str key) db in
    (db', bulk_or_null (lookup (str key) db'.store))
get env _ db = (db, wrong_number (codes "get"))

unfoldable pub del_loop : Time → List Bytes → Database → ℕ → Database × ℕ
unfolding delete_key
del_loop now [] db deleted = (db, deleted)
del_loop now (key ∷ keys) db deleted =
    let (db', n) = delete_key now key db in del_loop now keys db' (deleted + n)

unfoldable pub del : Handler
unfolding del_loop
del env [] db = (db, wrong_number (codes "del"))
del env (arg ∷ args) db =
    let (db', deleted) = del_loop env.now (texts (arg ∷ args)) db 0 in (db', number_reply deleted)

unfoldable pub exists_loop : Time → List Bytes → Database → ℕ → Database × ℕ
unfolding key_exists
exists_loop now [] db count = (db, count)
exists_loop now (key ∷ keys) db count =
    let (db', found) = key_exists now key db in
    exists_loop now keys db' (if found then count + 1 else count)

unfoldable pub exists : Handler
unfolding exists_loop
exists env [] db = (db, wrong_number (codes "exists"))
exists env (arg ∷ args) db =
    let (db', count) = exists_loop env.now (texts (arg ∷ args)) db 0 in (db', number_reply count)

-- `for i := 0; i < len(args); i += 2`: the arguments come in pairs.
unfoldable pub set_pairs : List Value → Database → Database
set_pairs (key ∷ value ∷ args) db = set_pairs args (set_string (str key) (str value) db)
set_pairs _ db = db

unfoldable pub mset : Handler
unfolding set_pairs
mset env args db =
    if ltb (length args) 2 || not (length args % 2 == 0)
    then (db, wrong_number (codes "mset"))
    else (set_pairs args db, ok_reply)

unfoldable pub expire_keys : Time → List Bytes → Database → Database
unfolding expire_if_needed
expire_keys now [] db = db
expire_keys now (key ∷ keys) db = expire_keys now keys (expire_if_needed now key db)

unfoldable pub mget : Handler
unfolding expire_keys
mget env [] db = (db, wrong_number (codes "mget"))
mget env (arg ∷ args) db =
    let keys = texts (arg ∷ args) in
    let db' = expire_keys env.now keys db in
    (db', array (of_list (map (λ key. bulk_or_null (lookup key db'.store)) keys)))

unfoldable pub type_cmd : Handler
unfolding get_key_type
type_cmd env (key ∷ []) db =
    let (db', name) = get_key_type env.now (str key) db in (db', simple_string name)
type_cmd env _ db = (db, wrong_number (codes "type"))

abbrev pub or_zero : Option Bytes → Bytes
or_zero none = codes "0"
or_zero (some value) = value

-- What `increment` does with the number that it has read.
abbrev pub add_amount : Bytes → ℤ → Database → Option ℤ → Database × Value
add_amount key amount db none = (db, not_an_integer)
add_amount key amount db (some n) =
    let total = wrap (n +ℤ amount) in
    (record db { store = insert key (itoa total) db.store }, integer total)

unfoldable pub increment : Time → Database → Bytes → ℤ → Database × Value
unfolding expire_if_needed
increment now db key amount =
    let db' = expire_if_needed now key db in
    add_amount key amount db' (atoi (or_zero (lookup key db'.store)))

unfoldable pub incr : Handler
unfolding increment
incr env (key ∷ []) db = increment env.now db (str key) (pos 1)
incr env _ db = (db, wrong_number (codes "incr"))

unfoldable pub decr : Handler
unfolding increment
decr env (key ∷ []) db = increment env.now db (str key) (negsuc 0)
decr env _ db = (db, wrong_number (codes "decr"))

abbrev pub increment_by : Time → Database → Bytes → Option ℤ → Database × Value
increment_by now db key none = (db, not_an_integer)
increment_by now db key (some n) = increment now db key n

unfoldable pub incrby : Handler
unfolding increment
incrby env (key ∷ amount ∷ []) db = increment_by env.now db (str key) (atoi (str amount))
incrby env _ db = (db, wrong_number (codes "incrby"))

abbrev pub negate : Option ℤ → Option ℤ
negate none = none
negate (some n) = some (wrap (neg_ℤ n))

unfoldable pub decrby : Handler
unfolding increment
decrby env (key ∷ amount ∷ []) db = increment_by env.now db (str key) (negate (atoi (str amount)))
decrby env _ db = (db, wrong_number (codes "decrby"))
