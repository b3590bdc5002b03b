-- ===== src/Commands/Lists.antt =====
-- pkg/commands/list_commands.go, without the blocking pops.
pub mod Queues
pub mod RoundTrip
pub mod NonEmpty
use shoredb.Base.{
  ℕ, zero, suc, ◌+◌, ◌-◌, ◌*◌, ◌/◌, ◌%◌, ◌^◌, ◌≤◌, ◌<◌, ◌≡◌, refl, sym, ap, ◌∙◌, ◌≢◌, ◌↔◌, ◌⊎◌, inl,
  inr, Bool, true, false, not, ◌&&◌, ◌||◌, Option, none, some, List, [], ◌∷◌, ◌++◌, map, append-nil,
  append_assoc, arith, Bytes, codes, str_eq, str_eq_iff, str_eq_refl, ltb, leb, ◌==◌, ==_iff,
  if◌then◌else◌, Bool-cases, Option-cases, is_some, length, get_elem?, take, drop, length-append,
}
use shoredb.Base.Int.{ℤ, pos}
use shoredb.Base.Dict.{lookup, insert, erase}
use shoredb.Strconv.{atoi}
use shoredb.Resp.{Value, bulk_string, integer, array, nil, null, str}
use shoredb.Datastruct.Lists.{
  Items, l_push, r_push, l_pop, r_pop, l_len, l_range, l_index, l_set, l_rem,
}
use shoredb.Database.{Time, Database, get_list, get_or_create_list}
use shoredb.Commands.{
  Env, Handler, error, wrong_number, not_an_integer, ok_reply, number_reply, bulk_array, texts,
}

-- The list under the key is changed in place.
abbrev pub update_list : Bytes → Items → Database → Database
update_list key items db = record db { lists = insert key items db.lists }

-- The change, and `if list.LLen() == 0 { delete(db.Lists, key) }`
abbrev pub shrink_list : Bytes → Items → Database → Database
shrink_list key items db =
    if l_len items == 0 then record db { lists = erase key db.lists } else update_list key items db

-- LPUSH and RPUSH after their tests; `push` is the method of the list. The signal to blocked pops
-- changes no state here.
abbrev pub push_values :
    (List Bytes → Items → Items × ℕ) → Env → Bytes → List Value → Database → Database × Value
push_values push env key args db =
    let (db', list) = get_or_create_list env.now key db in
    let (list', n) = push (texts args) list in (update_list key list' db', number_reply n)

unfoldable pub lpush : Handler
unfolding get_or_create_list l_push
lpush env (key ∷ value ∷ args) db = push_values l_push env (str key) (value ∷ args) db
lpush env _ db = (db, wrong_number (codes "lpush"))

unfoldable pub rpush : Handler
unfolding get_or_create_list r_push
rpush env (key ∷ value ∷ args) db = push_values r_push env (str key) (value ∷ args) db
rpush env _ db = (db, wrong_number (codes "rpush"))

-- What a pop does with the list that it found and with what the list's method gave.
abbrev pub popped : Bytes → Database → Items × Option Bytes → Database × Value
popped key db (list, none) = (db, null)
popped key db (list, some value) = (shrink_list key list db, bulk_string value)

abbrev pub pop_found :
    (Items → Items × Option Bytes) → Bytes → Database → Option Items → Database × Value
pop_found pop key db none = (db, null)
pop_found pop key db (some list) = popped key db (pop list)

unfoldable pub lpop : Handler
unfolding get_list l_pop
lpop env (key ∷ []) db =
    let (db', found) = get_list env.now (str key) db in pop_found l_pop (str key) db' found
lpop env _ db = (db, wrong_number (codes "lpop"))

unfoldable pub rpop : Handler
unfolding get_list r_pop
rpop env (key ∷ []) db =
    let (db', found) = get_list env.now (str key) db in pop_found r_pop (str key) db' found
rpop env _ db = (db, wrong_number (codes "rpop"))

abbrev range_of : ℤ → ℤ → Option Items → Value
range_of start stop none = array nil
range_of start stop (some list) = bulk_array (l_range start stop list)

abbrev lrange_from : Env → Bytes → Option ℤ → Option ℤ → Database → Database × Value
lrange_from env key (some start) (some stop) db =
    let (db', found) = get_list env.now key db in (db', range_of start stop found)
lrange_from env key _ _ db = (db, not_an_integer)

unfoldable pub lrange : Handler
unfolding get_list l_range
lrange env (key ∷ start ∷ stop ∷ []) db =
    lrange_from env (str key) (atoi (str start)) (atoi (str stop)) db
lrange env _ db = (db, wrong_number (codes "lrange"))

abbrev length_of : Option Items → ℕ
length_of none = 0
length_of (some list) = l_len list

unfoldable pub llen : Handler
unfolding get_list
llen env (key ∷ []) db =
    let (db', found) = get_list env.now (str key) db in (db', number_reply (length_of found))
llen env _ db = (db, wrong_number (codes "llen"))

abbrev pub item_reply : Option Bytes → Value
item_reply none = null
item_reply (some value) = bulk_string value

abbrev index_of : ℤ → Option Items → Value
index_of index none = null
index_of index (some list) = item_reply (l_index index list)

abbrev lindex_at : Env → Bytes → Option ℤ → Database → Database × Value
lindex_at env key none db = (db, not_an_integer)
lindex_at env key (some index) db =
    let (db', found) = get_list env.now key db in (db', index_of index found)

unfoldable pub lindex : Handler
unfolding get_list l_index
lindex env (key ∷ index ∷ []) db = lindex_at env (str key) (atoi (str index)) db
lindex env _ db = (db, wrong_number (codes "lindex"))

abbrev pub set_done : Bytes → Database → Items × Bool → Database × Value
set_done key db (list, false) = (db, error (codes "ERR index out of range"))
set_done key db (list, true) = (update_list key list db, ok_reply)

abbrev pub set_found : ℤ → Bytes → Bytes → Database → Option Items → Database × Value
set_found index value key db none = (db, error (codes "ERR no such key"))
set_found index value key db (some list) = set_done key db (l_set index value list)

abbrev pub lset_at : Env → Bytes → Option ℤ → Bytes → Database → Database × Value
lset_at env key none value db = (db, not_an_integer)
lset_at env key (some index) value db =
    let (db', found) = get_list env.now key db in set_found index value key db' found

unfoldable pub lset : Handler
unfolding get_list l_set
lset env (key ∷ index ∷ value ∷ []) db = lset_at env (str key) (atoi (str index)) (str value) db
lset env _ db = (db, wrong_number (codes "lset"))

abbrev pub rem_found : ℤ → Bytes → Bytes → Database → Option Items → Database × Value
rem_found count value key db none = (db, number_reply 0)
rem_found count value key db (some list) =
    let (list', removed) = l_rem count value list in
    (shrink_list key list' db, number_reply removed)

abbrev pub lrem_count : Env → Bytes → Option ℤ → Bytes → Database → Database × Value
lrem_count env key none value db = (db, not_an_integer)
lrem_count env key (some count) value db =
    let (db', found) = get_list env.now key db in rem_found count value key db' found

unfoldable pub lrem : Handler
unfolding get_list l_rem
lrem env (key ∷ count ∷ value ∷ []) db = lrem_count env (str key) (atoi (str count)) (str value) db
lrem env _ db = (db, wrong_number (codes "lrem"))
