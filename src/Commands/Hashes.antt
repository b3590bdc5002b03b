-- ===== src/Commands/Hashes.antt =====
-- pkg/commands/hash_commands.go
use shoredb.Base.{
  ℕ, ◌%◌, Bool, false, not, ◌&&◌, ◌||◌, Option, none, some, List, [], ◌∷◌, map, Bytes, codes,
  str_eq, ltb, ◌==◌, if◌then◌else◌, length,
}
use shoredb.Base.Int.{ℤ}
use shoredb.Base.Dict.{insert, erase}
use shoredb.Strconv.{atoi}
use shoredb.Resp.{Value, bulk_string, integer, array, of_list, nil, null, str}
use shoredb.Datastruct.Hashes.{
  FieldMap, h_set, h_get, h_del, h_exists, h_get_all, h_keys, h_vals, h_len, h_mset, h_mget,
  h_incr_by,
}
use shoredb.Database.{Database, get_hash, get_or_create_hash}
use shoredb.Commands.{
  Env, Handler, error, wrong_number, not_an_integer, ok_reply, number_reply, bulk_array, texts,
}

-- The hash under the key is changed in place.
abbrev pub update_hash : Bytes → FieldMap → Database → Database
update_hash key fields db = record db { hashes = insert key fields db.hashes }

-- The change, and `if hash.HLen() == 0 { delete(db.Hashes, key) }`
abbrev pub shrink_hash : Bytes → FieldMap → Database → Database
shrink_hash key fields db =
    if h_len fields == 0
    then record db { hashes = erase key db.hashes }
    else update_hash key fields db

unfoldable pub hset : Handler
unfolding get_or_create_hash h_set
hset env (key ∷ field ∷ value ∷ []) db =
    let (db', hash) = get_or_create_hash env.now (str key) db in
    let (hash', is_new) = h_set (str field) (str value) hash in
    (update_hash (str key) hash' db', number_reply (if is_new then 1 else 0))
hset env _ db = (db, wrong_number (codes "hset"))

abbrev pub value_reply : Option Bytes → Value
value_reply none = null
value_reply (some value) = bulk_string value

abbrev get_from : Bytes → Option FieldMap → Value
get_from field none = null
get_from field (some hash) = value_reply (h_get field hash)

unfoldable pub hget : Handler
unfolding get_hash
hget env (key ∷ field ∷ []) db =
    let (db', found) = get_hash env.now (str key) db in (db', get_from (str field) found)
hget env _ db = (db, wrong_number (codes "hget"))

abbrev pub del_from : List Bytes → Bytes → Database → Option FieldMap → Database × Value
del_from fields key db none = (db, number_reply 0)
del_from fields key db (some hash) =
    let (hash', deleted) = h_del fields hash in (shrink_hash key hash' db, number_reply deleted)

unfoldable pub hdel : Handler
unfolding get_hash h_del
hdel env (key ∷ field ∷ args) db =
    let (db', found) = get_hash env.now (str key) db in
    del_from (texts (field ∷ args)) (str key) db' found
hdel env _ db = (db, wrong_number (codes "hdel"))

abbrev exists_in : Bytes → Option FieldMap → Bool
exists_in field none = false
exists_in field (some hash) = h_exists field hash

unfoldable pub hexists : Handler
unfolding get_hash
hexists env (key ∷ field ∷ []) db =
    let (db', found) = get_hash env.now (str key) db in
    (db', number_reply (if exists_in (str field) found then 1 else 0))
hexists env _ db = (db, wrong_number (codes "hexists"))

-- `result = append(result, field, value)` for each field
abbrev pub flat_fields : FieldMap → List Bytes
flat_fields [] = []
flat_fields ((field, value) ∷ fields) = field ∷ value ∷ flat_fields fields

-- An array made from a hash, empty where there is none.
abbrev array_from : (FieldMap → List Bytes) → Option FieldMap → Value
array_from list none = array nil
array_from list (some hash) = bulk_array (list hash)

unfoldable pub hgetall : Handler
unfolding get_hash
hgetall env (key ∷ []) db =
    let (db', found) = get_hash env.now (str key) db in
    (db', array_from (λ hash. flat_fields (h_get_all hash)) found)
hgetall env _ db = (db, wrong_number (codes "hgetall"))

unfoldable pub hkeys : Handler
unfolding get_hash
hkeys env (key ∷ []) db =
    let (db', found) = get_hash env.now (str key) db in (db', array_from h_keys found)
hkeys env _ db = (db, wrong_number (codes "hkeys"))

unfoldable pub hvals : Handler
unfolding get_hash
hvals env (key ∷ []) db =
    let (db', found) = get_hash env.now (str key) db in (db', array_from h_vals found)
hvals env _ db = (db, wrong_number (codes "hvals"))

abbrev len_of : Option FieldMap → ℕ
len_of none = 0
len_of (some hash) = h_len hash

unfoldable pub hlen : Handler
unfolding get_hash
hlen env (key ∷ []) db =
    let (db', found) = get_hash env.now (str key) db in (db', number_reply (len_of found))
hlen env _ db = (db, wrong_number (codes "hlen"))

-- `pairs[field] = value` for the arguments in pairs
unfoldable pub pair_up : List Value → FieldMap → FieldMap
pair_up (field ∷ value ∷ args) pairs = pair_up args (insert (str field) (str value) pairs)
pair_up _ pairs = pairs

abbrev mset_into : Env → List Value → Database → Database × Value
mset_into env [] db = (db, wrong_number (codes "hmset"))
mset_into env (key ∷ args) db =
    let (db', hash) = get_or_create_hash env.now (str key) db in
    (update_hash (str key) (h_mset (pair_up args []) hash) db', ok_reply)

unfoldable pub hmset : Handler
unfolding get_or_create_hash pair_up h_mset
hmset env args db =
    if ltb (length args) 3 || length args % 2 == 0
    then (db, wrong_number (codes "hmset"))
    else mset_into env args db

-- `v == "" && (!exists || !hash.HExists(fields[i]))`
abbrev mget_reply : Option FieldMap → Bytes → Bytes → Value
mget_reply found field v =
    if str_eq v [] && not (exists_in field found) then null else bulk_string v

abbrev mget_values : Option FieldMap → List Bytes → List Bytes
mget_values none fields = map (λ _. []) fields
mget_values (some hash) fields = h_mget fields hash

-- `result[i]` from `fields[i]` and `values[i]`
unfoldable pub mget_replies : Option FieldMap → List Bytes → List Bytes → List Value
mget_replies found (field ∷ fields) (v ∷ values) =
    mget_reply found field v ∷ mget_replies found fields values
mget_replies found _ _ = []

unfoldable pub hmget : Handler
unfolding get_hash h_mget mget_replies
hmget env (key ∷ field ∷ args) db =
    let (db', found) = get_hash env.now (str key) db in
    let fields = texts (field ∷ args) in
    (db', array (of_list (mget_replies found fields (mget_values found fields))))
hmget env _ db = (db, wrong_number (codes "hmget"))

-- On an error of HIncrBy the hash, which may be new, is as it was found.
abbrev pub incr_done : Bytes → Database → FieldMap × Option ℤ → Database × Value
incr_done key db (hash, none) = (db, error (codes "ERR hash value is not an integer"))
incr_done key db (hash, some n) = (update_hash key hash db, integer n)

abbrev incr_field : Env → Bytes → Bytes → Option ℤ → Database → Database × Value
incr_field env key field none db = (db, not_an_integer)
incr_field env key field (some increment) db =
    let (db', hash) = get_or_create_hash env.now key db in
    incr_done key db' (h_incr_by field increment hash)

unfoldable pub hincrby : Handler
unfolding get_or_create_hash h_incr_by
hincrby env (key ∷ field ∷ increment ∷ []) db =
    incr_field env (str key) (str field) (atoi (str increment)) db
hincrby env _ db = (db, wrong_number (codes "hincrby"))
