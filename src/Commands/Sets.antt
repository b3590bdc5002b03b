-- ===== src/Commands/Sets.antt =====
-- pkg/commands/set_commands.go
use shoredb.Base.{
  ℕ, Bool, false, Option, none, some, List, [], ◌∷◌, Bytes, codes, ◌==◌, if◌then◌else◌,
}
use shoredb.Base.Dict.{insert, erase}
use shoredb.Resp.{Value, bulk_string, array, nil, null, str}
use shoredb.Datastruct.Sets.{
  Members, new_set, s_add, s_rem, s_is_member, s_members, s_card, s_pop, s_inter, s_union, s_diff,
}
use shoredb.Database.{Time, Database, get_set, get_or_create_set}
use shoredb.Commands.{Env, Handler, wrong_number, number_reply, bulk_array, texts}

-- The set under the key is changed in place.
abbrev pub update_set : Bytes → Members → Database → Database
update_set key items db = record db { sets = insert key items db.sets }

-- The change, and `if set.SCard() == 0 { delete(db.Sets, key) }`
abbrev pub shrink_set : Bytes → Members → Database → Database
shrink_set key items db =
    if s_card items == 0 then record db { sets = erase key db.sets } else update_set key items db

unfoldable pub sadd : Handler
unfolding get_or_create_set s_add
sadd env (key ∷ member ∷ args) db =
    let (db', set) = get_or_create_set env.now (str key) db in
    let (set', added) = s_add (texts (member ∷ args)) set in
    (update_set (str key) set' db', number_reply added)
sadd env _ db = (db, wrong_number (codes "sadd"))

abbrev pub rem_members : List Bytes → Bytes → Database → Option Members → Database × Value
rem_members members key db none = (db, number_reply 0)
rem_members members key db (some set) =
    let (set', removed) = s_rem members set in (shrink_set key set' db, number_reply removed)

unfoldable pub srem : Handler
unfolding get_set s_rem
srem env (key ∷ member ∷ args) db =
    let (db', found) = get_set env.now (str key) db in
    rem_members (texts (member ∷ args)) (str key) db' found
srem env _ db = (db, wrong_number (codes "srem"))

abbrev has_member : Bytes → Option Members → Bool
has_member member none = false
has_member member (some set) = s_is_member member set

unfoldable pub sismember : Handler
unfolding get_set
sismember env (key ∷ member ∷ []) db =
    let (db', found) = get_set env.now (str key) db in
    (db', number_reply (if has_member (str member) found then 1 else 0))
sismember env _ db = (db, wrong_number (codes "sismember"))

abbrev members_of : Option Members → Value
members_of none = array nil
members_of (some set) = bulk_array (s_members set)

unfoldable pub smembers : Handler
unfolding get_set
smembers env (key ∷ []) db =
    let (db', found) = get_set env.now (str key) db in (db', members_of found)
smembers env _ db = (db, wrong_number (codes "smembers"))

abbrev card_of : Option Members → ℕ
card_of none = 0
card_of (some set) = s_card set

unfoldable pub scard : Handler
unfolding get_set
scard env (key ∷ []) db =
    let (db', found) = get_set env.now (str key) db in (db', number_reply (card_of found))
scard env _ db = (db, wrong_number (codes "scard"))

abbrev pop_done : Bytes → Database → Members × Option Bytes → Database × Value
pop_done key db (set, none) = (db, null)
pop_done key db (set, some member) = (shrink_set key set db, bulk_string member)

abbrev pub pop_set : ℕ → Bytes → Database → Option Members → Database × Value
pop_set pick key db none = (db, null)
pop_set pick key db (some set) = pop_done key db (s_pop pick set)

unfoldable pub spop : Handler
unfolding get_set s_pop
spop env (key ∷ []) db =
    let (db', found) = get_set env.now (str key) db in pop_set env.pick (str key) db' found
spop env _ db = (db, wrong_number (codes "spop"))

-- The other sets of SINTER: `none` as soon as one of them is missing.
unfoldable pub sets_at : Time → List Bytes → Database → Database × Option (List Members)
unfolding get_set
sets_at now [] db = (db, some [])
sets_at now (key ∷ keys) db =
    let (db', found) = get_set now key db in
    let (rest_db, rest) = sets_at now keys db' in
    elim found [
      | none ↦ (db', none)
      | some set ↦ (rest_db, elim rest [ none ↦ none | some sets ↦ some (set ∷ sets) ])
    ]

-- The other sets of SUNION and SDIFF: those that are there.
unfoldable pub present_sets : Time → List Bytes → Database → Database × List Members
unfolding get_set
present_sets now [] db = (db, [])
present_sets now (key ∷ keys) db =
    let (db', found) = get_set now key db in
    let (rest_db, rest) = present_sets now keys db' in
    (rest_db, elim found [ none ↦ rest | some set ↦ set ∷ rest ])

abbrev inter_with : Members → Option (List Members) → Value
inter_with set none = array nil
inter_with set (some others) = bulk_array (s_inter set others)

abbrev inter_first : Env → List Value → Database → Option Members → Database × Value
inter_first env args db none = (db, array nil)
inter_first env args db (some set) =
    let (db', others) = sets_at env.now (texts args) db in (db', inter_with set others)

unfoldable pub sinter : Handler
unfolding get_set sets_at s_inter
sinter env [] db = (db, wrong_number (codes "sinter"))
sinter env (key ∷ args) db =
    let (db', found) = get_set env.now (str key) db in inter_first env args db' found

abbrev or_empty : Option Members → Members
or_empty none = new_set
or_empty (some set) = set

unfoldable pub sunion : Handler
unfolding get_set present_sets s_union
sunion env [] db = (db, wrong_number (codes "sunion"))
sunion env (key ∷ args) db =
    let (db', found) = get_set env.now (str key) db in
    let (db'', others) = present_sets env.now (texts args) db' in
    (db'', bulk_array (s_union (or_empty found) others))

abbrev diff_first : Env → List Value → Database → Option Members → Database × Value
diff_first env args db none = (db, array nil)
diff_first env args db (some set) =
    let (db', others) = present_sets env.now (texts args) db in
    (db', bulk_array (s_diff set others))

unfoldable pub sdiff : Handler
unfolding get_set present_sets s_diff
sdiff env [] db = (db, wrong_number (codes "sdiff"))
sdiff env (key ∷ args) db =
    let (db', found) = get_set env.now (str key) db in diff_first env args db' found
