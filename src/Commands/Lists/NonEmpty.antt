-- ===== src/Commands/Lists/NonEmpty.antt =====
-- Empty lists under a key, and the six commands that push, pop, set and remove items in
-- pkg/commands/list_commands.go.
use shoredb.Base.{
  ℕ, ◌<◌, ◌≡◌, refl, sym, ap, ◌∙◌, ◌≢◌, Bool, true, false, Option, none, some, List, [], ◌∷◌, arith,
  Bytes, str_eq, if◌then◌else◌, is_some, length, length-append,
}
use shoredb.Base.Int.{ℤ}
use shoredb.Base.Dict.{lookup}
use shoredb.Strconv.{atoi}
use shoredb.Resp.{Value, str}
use shoredb.Datastruct.Lists.{Items, l_push, r_push, l_pop, r_pop, l_set, l_rem, l_index}
use shoredb.Datastruct.Lists.Ends.{length-l_push}
use shoredb.Datastruct.Lists.Index.{l_index-l_set}
use shoredb.Database.{Time, Database, expire_if_needed, get_list, get_or_create_list}
use shoredb.Database.Expiry.{Entry, entry, live_of, live_entry, entry-expire_if_needed}
use shoredb.Commands.{Env, Handler, texts}
use shoredb.Commands.Lists.{
  update_list, shrink_list, push_values, lpush, rpush, pop_found, popped, lpop, rpop, lset, lset_at,
  set_done, set_found, lrem, lrem_count, rem_found,
}
use shoredb.Commands.Lists.Queues.{
  pushed, entry-update_list, entry-shrink_list, with_list, with_list-nonempty,
}

-- The key holds no empty list.
abbrev pub NoEmptyList : Bytes → Database → Type 0
NoEmptyList j db = (entry j db).list ≢ some []

pick_list :
    (b : Bool) (x y : Entry)
    → x.list ≢ some []
    → y.list ≢ some []
    → (if b then x else y).list ≢ some []
pick_list true x y hx hy = hx
pick_list false x y hx hy = hy

moved :
    (b : Bool) (j : Bytes) (db : Database) (x y : Entry)
    → entry j db ≡ (if b then x else y)
    → x.list ≢ some []
    → y.list ≢ some []
    → NoEmptyList j db
moved b j db x y e hx hy l = pick_list b x y hx hy (ap (λ e. Entry.list e) (sym e) ∙ l)

live-nonempty : (now : Time) (e : Entry) → e.list ≢ some [] → (live_of now e).list ≢ some []
live-nonempty now e h = ground arith

kept_expired :
    (now : Time) (key j : Bytes) (db : Database)
    → NoEmptyList j db
    → NoEmptyList j (expire_if_needed now key db)
kept_expired now key j db h =
    moved (str_eq key j) j (expire_if_needed now key db) (live_entry now j db) (entry j db)
      (entry-expire_if_needed now key j db) (live-nonempty now (entry j db) h) h

kept_shrunk :
    (key j : Bytes) (items : Items) (db : Database)
    → NoEmptyList j db
    → NoEmptyList j (shrink_list key items db)
kept_shrunk key j items db h =
    moved (str_eq key j) j (shrink_list key items db) (with_list items (entry j db)) (entry j db)
      (entry-shrink_list key j items db) (with_list-nonempty items (entry j db)) h

some-nonempty : (items : Items) → 0 < length items → some items ≢ some []
some-nonempty [] h e = absurd (omega arith)
some-nonempty (item ∷ items) h e = ground arith

kept_pushed :
    (push : List Bytes → Items → Items × ℕ) (env : Env) (key j : Bytes) (args : List Value)
    (db : Database)
    → ((items : Items) → 0 < length (push (texts args) items).0)
    → NoEmptyList j db
    → NoEmptyList j (push_values push env key args db).0
kept_pushed push env key j args db grown h =
    let made = (push (texts args) (get_or_create_list env.now key db).1).0 in
    moved (str_eq key j) j (push_values push env key args db).0
      (record (live_entry env.now j db) { list = some made }) (entry j db)
      (pushed key env.now db made j)
      (some-nonempty made (grown (get_or_create_list env.now key db).1)) h

kept_popped :
    (key j : Bytes) (db : Database) (r : Items × Option Bytes)
    → NoEmptyList j db
    → NoEmptyList j (popped key db r).0
kept_popped key j db (items, none) h = h
kept_popped key j db (items, some value) h = kept_shrunk key j items db h

kept_pop :
    (pop : Items → Items × Option Bytes) (key j : Bytes) (db : Database) (found : Option Items)
    → NoEmptyList j db
    → NoEmptyList j (pop_found pop key db found).0
kept_pop pop key j db none h = h
kept_pop pop key j db (some items) h = kept_popped key j db (pop items) h

l_index-nil : (index : ℤ) → l_index index [] ≡ none
unfolding l_index
l_index-nil index = ground arith

kept_set_done :
    (key j : Bytes) (db : Database) (r : Items × Bool)
    → (r.1 ≡ true → 0 < length r.0)
    → NoEmptyList j db
    → NoEmptyList j (set_done key db r).0
kept_set_done key j db (items, false) grown h = h
kept_set_done key j db (items, true) grown h =
    moved (str_eq key j) j (update_list key items db) (record (entry j db) { list = some items })
      (entry j db) (entry-update_list key j items db) (some-nonempty items (grown refl)) h

l_set-nonempty :
    (index : ℤ) (value : Bytes) (items : Items)
    → (l_set index value items).1 ≡ true
    → 0 < length (l_set index value items).0
l_set-nonempty index value [] e =
    let found = (l_index-l_set index index value []).1 ∙ ap is_some (l_index-nil index) in
    absurd (ground (arith, found, e))
l_set-nonempty index value (item ∷ items) e =
    omega (arith, (l_index-l_set index index value (item ∷ items)).2)

kept_set :
    (key j value : Bytes) (index : ℤ) (db : Database) (found : Option Items)
    → NoEmptyList j db
    → NoEmptyList j (set_found index value key db found).0
kept_set key j value index db none h = h
kept_set key j value index db (some items) h =
    kept_set_done key j db (l_set index value items) (l_set-nonempty index value items) h

kept_rem :
    (key j value : Bytes) (count : ℤ) (db : Database) (found : Option Items)
    → NoEmptyList j db
    → NoEmptyList j (rem_found count value key db found).0
kept_rem key j value count db none h = h
kept_rem key j value count db (some items) h = kept_shrunk key j (l_rem count value items).0 db h

l_push_grows :
    (value : Bytes) (values : List Bytes) (items : Items)
    → 0 < length (l_push (value ∷ values) items).0
l_push_grows value values items = omega (arith, length-l_push (value ∷ values) items)

r_push_grows :
    (value : Bytes) (values : List Bytes) (items : Items)
    → 0 < length (r_push (value ∷ values) items).0
unfolding r_push
r_push_grows value values items = omega (arith, length-append items (value ∷ values))

kept_lset_at :
    (env : Env) (key j value : Bytes) (index : Option ℤ) (db : Database)
    → NoEmptyList j db
    → NoEmptyList j (lset_at env key index value db).0
unfolding get_list
kept_lset_at env key j value none db h = h
kept_lset_at env key j value (some index) db h =
    let db' = expire_if_needed env.now key db in
    kept_set key j value index db' (lookup key db'.lists) (kept_expired env.now key j db h)

kept_lrem_count :
    (env : Env) (key j value : Bytes) (count : Option ℤ) (db : Database)
    → NoEmptyList j db
    → NoEmptyList j (lrem_count env key count value db).0
unfolding get_list
kept_lrem_count env key j value none db h = h
kept_lrem_count env key j value (some count) db h =
    let db' = expire_if_needed env.now key db in
    kept_rem key j value count db' (lookup key db'.lists) (kept_expired env.now key j db h)

-- The commands that change a list.
pub data ListCommand : Type 0 where
  push_left push_right pop_left pop_right set_item remove_items : ListCommand

abbrev pub handler : ListCommand → Handler
handler push_left = lpush
handler push_right = rpush
handler pop_left = lpop
handler pop_right = rpop
handler set_item = lset
handler remove_items = lrem

-- LPUSH, RPUSH, LPOP, RPOP, LSET and LREM, with whatever arguments, leave no empty list under a key
-- that held none.
pub list_commands-NoEmptyList :
    (command : ListCommand) (env : Env) (args : List Value) (j : Bytes) (db : Database)
    → NoEmptyList j db
    → NoEmptyList j (handler command env args db).0
unfolding lpush rpush lpop rpop lset lrem get_list
list_commands-NoEmptyList push_left env (key ∷ value ∷ args) j db h =
    kept_pushed l_push env (str key) j (value ∷ args) db (l_push_grows (str value) (texts args)) h
list_commands-NoEmptyList push_left env (key ∷ []) j db h = h
list_commands-NoEmptyList push_left env [] j db h = h
list_commands-NoEmptyList push_right env (key ∷ value ∷ args) j db h =
    kept_pushed r_push env (str key) j (value ∷ args) db (r_push_grows (str value) (texts args)) h
list_commands-NoEmptyList push_right env (key ∷ []) j db h = h
list_commands-NoEmptyList push_right env [] j db h = h
list_commands-NoEmptyList pop_left env (key ∷ []) j db h =
    let db' = expire_if_needed env.now (str key) db in
    kept_pop l_pop (str key) j db' (lookup (str key) db'.lists)
      (kept_expired env.now (str key) j db h)
list_commands-NoEmptyList pop_left env [] j db h = h
list_commands-NoEmptyList pop_left env (key ∷ _ ∷ _) j db h = h
list_commands-NoEmptyList pop_right env (key ∷ []) j db h =
    let db' = expire_if_needed env.now (str key) db in
    kept_pop r_pop (str key) j db' (lookup (str key) db'.lists)
      (kept_expired env.now (str key) j db h)
list_commands-NoEmptyList pop_right env [] j db h = h
list_commands-NoEmptyList pop_right env (key ∷ _ ∷ _) j db h = h
list_commands-NoEmptyList set_item env (key ∷ index ∷ value ∷ []) j db h =
    kept_lset_at env (str key) j (str value) (atoi (str index)) db h
list_commands-NoEmptyList set_item env [] j db h = h
list_commands-NoEmptyList set_item env (_ ∷ []) j db h = h
list_commands-NoEmptyList set_item env (_ ∷ _ ∷ []) j db h = h
list_commands-NoEmptyList set_item env (_ ∷ _ ∷ _ ∷ _ ∷ _) j db h = h
list_commands-NoEmptyList remove_items env (key ∷ count ∷ value ∷ []) j db h =
    kept_lrem_count env (str key) j (str value) (atoi (str count)) db h
list_commands-NoEmptyList remove_items env [] j db h = h
list_commands-NoEmptyList remove_items env (_ ∷ []) j db h = h
list_commands-NoEmptyList remove_items env (_ ∷ _ ∷ []) j db h = h
list_commands-NoEmptyList remove_items env (_ ∷ _ ∷ _ ∷ _ ∷ _) j db h = h
