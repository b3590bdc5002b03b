-- ===== src/Server/Replay.antt =====
-- replayCommand of pkg/server/tcp.go: a logged command, applied again when the server starts.
pub mod Handlers
use shoredb.Base.{
  ℕ, zero, suc, ◌+◌, ◌-◌, ◌*◌, ◌/◌, ◌%◌, ◌^◌, ◌≤◌, ◌<◌, ◌≡◌, refl, sym, ap, ◌∙◌, ◌≢◌, ◌↔◌, ◌⊎◌, inl,
  inr, Bool, true, false, not, ◌&&◌, ◌||◌, Option, none, some, List, [], ◌∷◌, ◌++◌, map, append-nil,
  append_assoc, arith, Bytes, codes, str_eq, str_eq_iff, str_eq_refl, ltb, leb, ◌==◌, ==_iff,
  if◌then◌else◌, Bool-cases, Option-cases, is_some, length, get_elem?, take, drop, length-append,
}
use shoredb.Base.Int.{ℤ, pos, negsuc, ◌+ℤ◌, neg_ℤ, wrap}
use shoredb.Base.Dict.{lookup, insert}
use shoredb.Strconv.{itoa, parse_int}
use shoredb.Resp.{Value, nil, cons, array, to_list, str}
use shoredb.Datastruct.Lists.{Items, l_push, r_push, l_pop, r_pop, l_set, l_rem}
use shoredb.Datastruct.Sets.{Members, s_add, s_rem, s_pop}
use shoredb.Datastruct.Hashes.{FieldMap, h_set, h_del, h_mset, h_incr_by}
use shoredb.Database.{
  Time, Database, get_list, get_set, get_hash, get_or_create_list, get_or_create_set,
  get_or_create_hash, delete_key,
}
use shoredb.Commands.{Env, texts}
use shoredb.Commands.Strings.{set_string, set_pairs, or_zero}
use shoredb.Commands.Lists.{update_list, shrink_list, set_found, rem_found}
use shoredb.Commands.Sets.{update_set, shrink_set, rem_members}
use shoredb.Commands.Hashes.{update_hash, del_from, pair_up, incr_done}
use shoredb.Server.{to_upper}

unfoldable pub replay_set : List Value → Database → Database
replay_set (key ∷ value ∷ args) db = set_string (str key) (str value) db
replay_set _ db = db

unfoldable pub replay_del : Time → List Bytes → Database → Database
replay_del now [] db = db
replay_del now (key ∷ keys) db = replay_del now keys (delete_key now key db).0

unfoldable pub replay_mset : List Value → Database → Database
unfolding set_pairs
replay_mset args db =
    if leb 2 (length args) && (length args % 2 == 0) then set_pairs args db else db

abbrev pub add_read : Bytes → ℤ → Database → Option ℤ → Database
add_read key amount db none = db
add_read key amount db (some n) = record db {
  store = insert key (itoa (wrap (n +ℤ amount))) db.store;
}

-- replayIncrement
unfoldable pub replay_increment : Bytes → ℤ → Database → Database
unfolding parse_int
replay_increment key amount db = add_read key amount db (parse_int (or_zero (lookup key db.store)))

abbrev pub increment_read : Bytes → Database → Option ℤ → Database
increment_read key db none = db
increment_read key db (some n) = replay_increment key n db

unfoldable pub replay_incr : ℤ → List Value → Database → Database
unfolding replay_increment
replay_incr amount (key ∷ args) db = replay_increment (str key) amount db
replay_incr amount [] db = db

unfoldable pub replay_incrby : List Value → Database → Database
unfolding replay_increment
replay_incrby (key ∷ amount ∷ args) db = increment_read (str key) db (parse_int (str amount))
replay_incrby _ db = db

abbrev pub negated : Option ℤ → Option ℤ
negated none = none
negated (some n) = some (wrap (neg_ℤ n))

unfoldable pub replay_decrby : List Value → Database → Database
unfolding replay_increment
replay_decrby (key ∷ amount ∷ args) db =
    increment_read (str key) db (negated (parse_int (str amount)))
replay_decrby _ db = db

-- LPUSH and RPUSH; `push` is the method of the list.
unfoldable pub replay_push :
    (List Bytes → Items → Items × ℕ) → Time → List Value → Database → Database
unfolding get_or_create_list
replay_push push now (key ∷ value ∷ args) db =
    let (db', list) = get_or_create_list now (str key) db in
    update_list (str key) (push (texts (value ∷ args)) list).0 db'
replay_push push now _ db = db

-- replayListPop on the list of a key; `others` is what the keys behind it give.
abbrev pub pop_or : Bytes → Database → Database → Items × Option Bytes → Database
pop_or key db others (list, none) = others
pop_or key db others (list, some value) = shrink_list key list db

abbrev pub pop_found_or :
    (Items → Items × Option Bytes) → Bytes → Database → Database → Option Items → Database
pop_found_or pop key db others none = others
pop_found_or pop key db others (some list) = pop_or key db others (pop list)

-- replayListPop
unfoldable pub replay_list_pop :
    (Items → Items × Option Bytes) → Time → List Bytes → Database → Database
unfolding get_list
replay_list_pop pop now [] db = db
replay_list_pop pop now (key ∷ keys) db =
    let (db', found) = get_list now key db in
    let others = replay_list_pop pop now keys db' in pop_found_or pop key db' others found

-- BLPOP and BRPOP: the last argument is the timeout.
abbrev pub without_last : List Value → List Value
without_last [] = []
without_last (arg ∷ []) = []
without_last (arg ∷ next ∷ args) = arg ∷ without_last (next ∷ args)

unfoldable pub replay_blocking_pop :
    (Items → Items × Option Bytes) → Time → List Value → Database → Database
unfolding replay_list_pop
replay_blocking_pop pop now args db =
    if leb 2 (length args) then replay_list_pop pop now (texts (without_last args)) db else db

abbrev pub set_read : Bytes → Bytes → Database → Option Items → Option ℤ → Database
set_read key value db found none = db
set_read key value db found (some index) = (set_found index value key db found).0

unfoldable pub replay_lset : Time → List Value → Database → Database
unfolding get_list
replay_lset now (key ∷ index ∷ value ∷ args) db =
    let (db', found) = get_list now (str key) db in
    set_read (str key) (str value) db' found (parse_int (str index))
replay_lset now _ db = db

abbrev pub rem_read : Bytes → Bytes → Database → Option Items → Option ℤ → Database
rem_read key value db found none = db
rem_read key value db found (some count) = (rem_found count value key db found).0

unfoldable pub replay_lrem : Time → List Value → Database → Database
unfolding get_list
replay_lrem now (key ∷ count ∷ value ∷ args) db =
    let (db', found) = get_list now (str key) db in
    rem_read (str key) (str value) db' found (parse_int (str count))
replay_lrem now _ db = db

unfoldable pub replay_sadd : Time → List Value → Database → Database
unfolding get_or_create_set s_add
replay_sadd now (key ∷ member ∷ args) db =
    let (db', set) = get_or_create_set now (str key) db in
    update_set (str key) (s_add (texts (member ∷ args)) set).0 db'
replay_sadd now _ db = db

unfoldable pub replay_srem : Time → List Value → Database → Database
unfolding get_set s_rem
replay_srem now (key ∷ member ∷ args) db =
    let (db', found) = get_set now (str key) db in
    (rem_members (texts (member ∷ args)) (str key) db' found).0
replay_srem now _ db = db

abbrev pub pop_any : ℕ → Bytes → Database → Option Members → Database
pop_any pick key db none = db
pop_any pick key db (some set) = shrink_set key (s_pop pick set).0 db

unfoldable pub replay_spop : Env → List Value → Database → Database
unfolding get_set s_pop
replay_spop env (key ∷ args) db =
    let (db', found) = get_set env.now (str key) db in pop_any env.pick (str key) db' found
replay_spop env [] db = db

unfoldable pub replay_hset : Time → List Value → Database → Database
unfolding get_or_create_hash h_set
replay_hset now (key ∷ field ∷ value ∷ args) db =
    let (db', hash) = get_or_create_hash now (str key) db in
    update_hash (str key) (h_set (str field) (str value) hash).0 db'
replay_hset now _ db = db

unfoldable pub replay_hdel : Time → List Value → Database → Database
unfolding get_hash h_del
replay_hdel now (key ∷ field ∷ args) db =
    let (db', found) = get_hash now (str key) db in
    (del_from (texts (field ∷ args)) (str key) db' found).0
replay_hdel now _ db = db

unfoldable pub replay_hmset : Time → List Value → Database → Database
unfolding get_or_create_hash pair_up h_mset
replay_hmset now (key ∷ args) db =
    let (db', hash) = get_or_create_hash now (str key) db in
    if leb 3 (length (key ∷ args)) && (length (key ∷ args) % 2 == 1)
    then update_hash (str key) (h_mset (pair_up args []) hash) db'
    else db
replay_hmset now [] db = db

abbrev pub incr_read : Time → Bytes → Bytes → Database → Option ℤ → Database
incr_read now key field db none = db
incr_read now key field db (some increment) =
    let (db', hash) = get_or_create_hash now key db in
    (incr_done key db' (h_incr_by field increment hash)).0

unfoldable pub replay_hincrby : Time → List Value → Database → Database
unfolding get_or_create_hash h_incr_by parse_int
replay_hincrby now (key ∷ field ∷ increment ∷ args) db =
    incr_read now (str key) (str field) db (parse_int (str increment))
replay_hincrby now _ db = db

-- The first entry of a table that has the name.
abbrev pub apply_named : Bytes → List (Bytes × (Database → Database)) → Database → Database
apply_named command [] db = db
apply_named command ((name, f) ∷ table) db =
    if str_eq command name then f db else apply_named command table db

abbrev pub replay_table : Env → List Value → List (Bytes × (Database → Database))
replay_table env args =
    (codes "SET", replay_set args)
    ∷ (codes "DEL", replay_del env.now (texts args))
    ∷ (codes "MSET", replay_mset args)
    ∷ (codes "INCR", replay_incr (pos 1) args)
    ∷ (codes "DECR", replay_incr (negsuc 0) args)
    ∷ (codes "INCRBY", replay_incrby args)
    ∷ (codes "DECRBY", replay_decrby args)
    ∷ (codes "LPUSH", replay_push l_push env.now args)
    ∷ (codes "RPUSH", replay_push r_push env.now args)
    ∷ (codes "LPOP", replay_list_pop l_pop env.now (texts args))
    ∷ (codes "RPOP", replay_list_pop r_pop env.now (texts args))
    ∷ (codes "BLPOP", replay_blocking_pop l_pop env.now args)
    ∷ (codes "BRPOP", replay_blocking_pop r_pop env.now args)
    ∷ (codes "LSET", replay_lset env.now args)
    ∷ (codes "LREM", replay_lrem env.now args)
    ∷ (codes "SADD", replay_sadd env.now args)
    ∷ (codes "SREM", replay_srem env.now args)
    ∷ (codes "SPOP", replay_spop env args)
    ∷ (codes "HSET", replay_hset env.now args)
    ∷ (codes "HDEL", replay_hdel env.now args)
    ∷ (codes "HMSET", replay_hmset env.now args)
    ∷ (codes "HINCRBY", replay_hincrby env.now args)
    ∷ []

-- replayCommand
unfoldable pub replay_command : Env → Value → Database → Database
unfolding to_upper
replay_command env (array (cons name vs)) db =
    apply_named (to_upper (str name)) (replay_table env (to_list vs)) db
replay_command env _ db = db
