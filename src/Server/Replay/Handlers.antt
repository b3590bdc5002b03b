-- ===== src/Server/Replay/Handlers.antt =====
-- The replay of a logged command against its handler.
use shoredb.Base.{
  ℕ, ◌+◌, ◌≡◌, refl, ap, Option, none, some, List, [], ◌∷◌, map, Bytes, codes, str_eq,
}
use shoredb.Base.Dict.{lookup, insert, erase}
use shoredb.Resp.{to_list, Value, bulk_string, array, of_list}
use shoredb.Datastruct.Lists.{Items, l_pop, r_pop}
use shoredb.Database.{
  Time, delete_key, expire_if_needed, evict, Database, get_list, get_set, get_hash,
  get_or_create_list, get_or_create_set, get_or_create_hash,
}
use shoredb.Commands.{Env, Handler, texts}
use shoredb.Base.Int.{ℤ, IsInt64}
use shoredb.Strconv.{itoa, atoi}
use shoredb.Strconv.RoundTrip.{atoi-itoa, parse_int-itoa}
use shoredb.Commands.Strings.{set, del, del_loop, incrby, or_zero, increment}
use shoredb.Commands.Lists.{lpush, rpush, pop_found, popped, lpop, rpop}
use shoredb.Commands.Sets.{sadd, srem}
use shoredb.Commands.Hashes.{hset, hdel}
use shoredb.Server.Replay.{
  replay_incrby, replay_increment, replay_del, replay_set, replay_push, replay_list_pop,
  pop_found_or, replay_sadd, replay_srem, replay_hset, replay_hdel, replay_command,
}

-- The database without its deadlines: no deadline is logged, so a replay meets none.
abbrev pub no_deadlines : Database → Database
no_deadlines db = record db { expires = [] }

-- A logged command of a key: its texts behind the key, which are other keys for DEL.
pub data Logged : Type 0 where
  set_value : Bytes → Logged
  push_left push_right : Bytes → List Bytes → Logged
  pop_left pop_right : Logged
  add_members remove_members : Bytes → List Bytes → Logged
  set_field : Bytes → Bytes → Logged
  delete_fields : Bytes → List Bytes → Logged
  delete_keys : List Bytes → Logged

abbrev pub name_of : Logged → Bytes
name_of (set_value value) = codes "SET"
name_of (push_left value values) = codes "LPUSH"
name_of (push_right value values) = codes "RPUSH"
name_of pop_left = codes "LPOP"
name_of pop_right = codes "RPOP"
name_of (add_members member members) = codes "SADD"
name_of (remove_members member members) = codes "SREM"
name_of (set_field field value) = codes "HSET"
name_of (delete_fields field fields) = codes "HDEL"
name_of (delete_keys keys) = codes "DEL"

abbrev pub words_of : Logged → List Bytes
words_of (set_value value) = value ∷ []
words_of (push_left value values) = value ∷ values
words_of (push_right value values) = value ∷ values
words_of pop_left = []
words_of pop_right = []
words_of (add_members member members) = member ∷ members
words_of (remove_members member members) = member ∷ members
words_of (set_field field value) = field ∷ value ∷ []
words_of (delete_fields field fields) = field ∷ fields
words_of (delete_keys keys) = keys

abbrev pub handler_of : Logged → Handler
handler_of (set_value value) = set
handler_of (push_left value values) = lpush
handler_of (push_right value values) = rpush
handler_of pop_left = lpop
handler_of pop_right = rpop
handler_of (add_members member members) = sadd
handler_of (remove_members member members) = srem
handler_of (set_field field value) = hset
handler_of (delete_fields field fields) = hdel
handler_of (delete_keys keys) = del

abbrev pub args_of : Bytes → Logged → List Value
args_of key command = map bulk_string (key ∷ words_of command)

abbrev pub entry_of : Bytes → Logged → Value
entry_of key command = array (of_list (bulk_string (name_of command) ∷ args_of key command))

to_list-of_list : (vs : List Value) → to_list (of_list vs) ≡ vs
to_list-of_list [] = refl
to_list-of_list (v ∷ vs) = ap (◌∷◌ v) (to_list-of_list vs)

pop_same :
    (pop : Items → Items × Option Bytes) (key : Bytes) (db : Database) (found : Option Items)
    → pop_found_or pop key db db found ≡ (pop_found pop key db found).0
pop_same pop key db none = refl
pop_same pop key db (some list) = go (pop list)
  where
    go :
        (r : Items × Option Bytes)
        → pop_found_or (λ _. r) key db db (some list) ≡ (popped key db r).0
    go (items, none) = refl
    go (items, some value) = refl

replay_del-del_loop :
    (later now : Time) (keys : List Bytes) (db : Database) (n : ℕ)
    → replay_del later keys (no_deadlines db) ≡ (del_loop now keys (no_deadlines db) n).0
unfolding replay_del del_loop delete_key expire_if_needed lookup erase
replay_del-del_loop later now [] db n = refl
replay_del-del_loop later now (key ∷ keys) db n =
    replay_del-del_loop later now keys (evict key db) (n + (delete_key now key (no_deadlines db)).1)

-- SET, LPUSH, RPUSH, LPOP, RPOP, SADD, SREM, HSET, HDEL and DEL leave the same database when the log is
-- replayed as when they ran, whatever the times of the two, where no key has a deadline.
pub replay_command-handler :
    (command : Logged) (env later : Env) (key : Bytes) (db : Database)
    → replay_command later (entry_of key command) (no_deadlines db)
      ≡ (handler_of command env (args_of key command) (no_deadlines db)).0
unfolding replay_command replay_set del replay_push replay_list_pop replay_sadd replay_srem
    replay_hset replay_hdel set lpush rpush lpop rpop sadd srem hset hdel get_list get_set get_hash
    get_or_create_list get_or_create_set get_or_create_hash str_eq lookup
replay_command-handler (set_value value) env later key db = refl
replay_command-handler (push_left value values) env later key db =
    rw (to_list-of_list (map bulk_string values)) refl
replay_command-handler (push_right value values) env later key db =
    rw (to_list-of_list (map bulk_string values)) refl
replay_command-handler pop_left env later key db =
    pop_same l_pop key (no_deadlines db) (lookup key db.lists)
replay_command-handler pop_right env later key db =
    pop_same r_pop key (no_deadlines db) (lookup key db.lists)
replay_command-handler (add_members member members) env later key db =
    rw (to_list-of_list (map bulk_string members)) refl
replay_command-handler (remove_members member members) env later key db =
    rw (to_list-of_list (map bulk_string members)) refl
replay_command-handler (set_field field value) env later key db = refl
replay_command-handler (delete_fields field fields) env later key db =
    rw (to_list-of_list (map bulk_string fields)) refl
replay_command-handler (delete_keys keys) env later key db =
    rw (to_list-of_list (map bulk_string keys))
      (replay_del-del_loop later.now env.now (texts (map bulk_string (key ∷ keys))) db 0)

abbrev pub incrby_args : Bytes → ℤ → List Value
incrby_args key amount = bulk_string key ∷ bulk_string (itoa amount) ∷ []

-- INCRBY by a 64-bit amount, on a key that holds the decimals of a 64-bit number or nothing, leaves the
-- same database when the log is replayed as when it ran, whatever the times of the two, where no key
-- has a deadline.
pub replay_command-incrby :
    (env later : Env) (key : Bytes) (n amount : ℤ) (db : Database)
    → IsInt64 n
    → IsInt64 amount
    → or_zero (lookup key db.store) ≡ itoa n
    → replay_command later
        (array (of_list (bulk_string (codes "INCRBY") ∷ incrby_args key amount)))
        (no_deadlines db)
      ≡ (incrby env (incrby_args key amount) (no_deadlines db)).0
unfolding replay_command replay_incrby replay_increment incrby increment str_eq insert atoi lookup
replay_command-incrby env later key n amount db hn h e =
    rw (parse_int-itoa amount h, atoi-itoa amount h, e, parse_int-itoa n hn, atoi-itoa n hn) refl
