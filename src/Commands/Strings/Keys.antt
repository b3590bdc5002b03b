-- ===== src/Commands/Strings/Keys.antt =====
-- What GET, SET, MSET and DEL mean for the value under a key.
use shoredb.Base.{
  ℕ, ◌+◌, ◌≡◌, refl, sym, ap, ◌∙◌, Bool, true, false, ◌||◌, none, some, List, [], ◌∷◌, arith, Bytes,
  str_eq, str_eq_refl, if◌then◌else◌,
}
use shoredb.Base.Dict.{lookup-insert, lookup-erase}
use shoredb.Resp.{Value, bulk_string}
use shoredb.Datastruct.Sets.Counts.{among}
use shoredb.Database.{Time, Database, delete_key}
use shoredb.Database.Expiry.{Entry, entry, no_entry, live_of, live_entry, entry-expire_if_needed}
use shoredb.Database.Deletion.{delete_key_deletes}
use shoredb.Commands.{Env, texts}
use shoredb.Commands.Strings.{set_string, set, get, del_loop, del, bulk_or_null}

-- GET answers the string of the entry that is live under the key at that instant.
pub get-live :
    (env : Env) (key : Bytes) (db : Database)
    → (get env (bulk_string key ∷ []) db).1 ≡ bulk_or_null (live_entry env.now key db).string
unfolding get
get-live env key db =
    ap (λ e. bulk_or_null (Entry.string e)) (entry-expire_if_needed env.now key key db)
    ∙ rw (str_eq_refl key)

-- What SET leaves under its key.
abbrev pub with_string : Bytes → Entry → Entry
with_string value e = record e { string = some value; deadline = none }

pub entry-set_string :
    (key value j : Bytes) (db : Database)
    → entry j (set_string key value db)
      ≡ (if str_eq key j then with_string value (entry j db) else entry j db)
entry-set_string key value j db =
    ground (arith, lookup-insert key j value db.store, lookup-erase key j db.expires)

string_of-set :
    (b : Bool) (now : Time) (value : Bytes) (e : Entry)
    → bulk_or_null (live_of now (if b then with_string value e else e)).string
      ≡ (if b then bulk_string value else bulk_or_null (live_of now e).string)
string_of-set true now value e = refl
string_of-set false now value e = refl

-- After SET of a key, GET at any time answers the new value for that key, an old deadline
-- notwithstanding, and for every other key what it answered before.
pub get-set :
    (env later : Env) (key value j : Bytes) (db : Database)
    → (get later (bulk_string j ∷ []) (set env (bulk_string key ∷ bulk_string value ∷ []) db).0).1
      ≡ (if str_eq key j then bulk_string value else (get later (bulk_string j ∷ []) db).1)
unfolding set
get-set env later key value j db =
    get-live later j (set_string key value db)
    ∙ ap (λ e. bulk_or_null (live_of later.now e).string) (entry-set_string key value j db)
    ∙ string_of-set (str_eq key j) later.now value (entry j db)
    ∙ ap (λ v. if str_eq key j then bulk_string value else v) (sym (get-live later j db))

-- The keys that a loop of DEL has passed hold nothing; the others hold what they held.
pub entry-del_loop :
    (now : Time) (keys : List Bytes) (j : Bytes) (db : Database) (n : ℕ)
    → entry j (del_loop now keys db n).0 ≡ (if among j keys then no_entry else entry j db)
unfolding del_loop
entry-del_loop now [] j db n = refl
entry-del_loop now (key ∷ keys) j db n =
    entry-del_loop now keys j (delete_key now key db).0 (n + (delete_key now key db).1)
    ∙ ap (λ e. if among j keys then no_entry else e) (delete_key_deletes now key j db).0
    ∙ gone (str_eq key j) (among j keys) (entry j db)
  where
    gone :
        (a b : Bool) (e : Entry)
        → (if b then no_entry else (if a then no_entry else e)) ≡ (if a || b then no_entry else e)
    gone true true e = refl
    gone true false e = refl
    gone false b e = refl

-- After DEL of one or more keys, these hold nothing, a deadline neither, and every other key holds
-- what it held.
pub del_deletes :
    (env : Env) (arg : Value) (args : List Value) (j : Bytes) (db : Database)
    → entry j (del env (arg ∷ args) db).0
      ≡ (if among j (texts (arg ∷ args)) then no_entry else entry j db)
unfolding del
del_deletes env arg args j db = entry-del_loop env.now (texts (arg ∷ args)) j db 0
