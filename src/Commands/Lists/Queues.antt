-- ===== src/Commands/Lists/Queues.antt =====
-- Pushes and pops on a key: what LPUSH, RPUSH, LPOP and RPOP leave of it.
use shoredb.Base.{
  ℕ, zero, suc, ◌-◌, ◌<◌, ◌≡◌, refl, sym, ap, ◌∙◌, ◌≢◌, inl, inr, Bool, true, false, Option, none,
  some, List, [], ◌∷◌, arith, Bytes, str_eq, str_eq_iff, ◌==◌, if◌then◌else◌, Bool-cases, is_some,
  length, get_elem?,
}
use shoredb.Base.Dict.{lookup, insert, lookup-insert, lookup-erase}
use shoredb.Resp.{Value, bulk_string}
use shoredb.Datastruct.Lists.{Items, l_push, r_push, l_pop, r_pop}
use shoredb.Database.{Time, Database, expire_if_needed, get_list, get_or_create_list, list_or_new}
use shoredb.Database.Expiry.{Entry, entry, live_entry, entry-expire_if_needed, entry_self}
use shoredb.Commands.{Env, number_reply, texts}
use shoredb.Commands.Lists.{
  update_list, shrink_list, push_values, lpush, rpush, pop_found, popped, item_reply, lpop, rpop,
}

-- The list under a key, a missing one as the empty one.
abbrev pub list_or_empty : Option Items → Items
list_or_empty none = []
list_or_empty (some list) = list

-- What a list command leaves of an entry: an emptied list is taken off.
abbrev pub with_list : Items → Entry → Entry
with_list [] e = record e { list = none }
with_list (item ∷ items) e = record e { list = some (item ∷ items) }

pub entry-update_list :
    (key j : Bytes) (items : Items) (db : Database)
    → entry j (update_list key items db)
      ≡ (if str_eq key j then record (entry j db) { list = some items } else entry j db)
entry-update_list key j items db = ground (arith, lookup-insert key j items db.lists)

suc_not_zero : (n : ℕ) → (suc n == 0) ≡ false
suc_not_zero n = ground arith

pub entry-shrink_list :
    (key j : Bytes) (items : Items) (db : Database)
    → entry j (shrink_list key items db)
      ≡ (if str_eq key j then with_list items (entry j db) else entry j db)
entry-shrink_list key j [] db = ground (arith, lookup-erase key j db.lists)
entry-shrink_list key j (item ∷ items) db =
    rw suc_not_zero (entry-update_list key j (item ∷ items) db)

entry-list_or_new :
    (key j : Bytes) (items : Items) (db : Database) (found : Option Items)
    → entry j (update_list key items (list_or_new key db found).0)
      ≡ (if str_eq key j then record (entry j db) { list = some items } else entry j db)
entry-list_or_new key j items db (some list) = entry-update_list key j items db
entry-list_or_new key j items db none =
    ground
      (arith, lookup-insert key j items (insert key [] db.lists), lookup-insert key j [] db.lists)

list_or_new-found :
    (key : Bytes) (db : Database) (found : Option Items)
    → (list_or_new key db found).1 ≡ list_or_empty found
list_or_new-found key db none = refl
list_or_new-found key db (some list) = refl

pick :
    (b : Bool) (f : Entry → Entry) (live e : Entry)
    → (if b then f (if b then live else e) else (if b then live else e)) ≡ (if b then f live else e)
pick true f live e = refl
pick false f live e = refl

touched :
    (key j : Bytes) (now : Time) (db : Database) (f : Entry → Entry)
    → (if str_eq key j
        then f (entry j (expire_if_needed now key db))
        else entry j (expire_if_needed now key db))
      ≡ (if str_eq key j then f (live_entry now j db) else entry j db)
touched key j now db f =
    ap (λ e. if str_eq key j then f e else e) (entry-expire_if_needed now key j db)
    ∙ pick (str_eq key j) f (live_entry now j db) (entry j db)

-- The list that a command works on.
list_left :
    (key : Bytes) (now : Time) (db : Database)
    → lookup key (expire_if_needed now key db).lists ≡ (live_entry now key db).list
list_left key now db = ap (λ e. Entry.list e) (entry_self now key db)

list_pushed :
    (key : Bytes) (now : Time) (db : Database)
    → (get_or_create_list now key db).1 ≡ list_or_empty (live_entry now key db).list
unfolding get_or_create_list
list_pushed key now db =
    let db' = expire_if_needed now key db in
    list_or_new-found key db' (lookup key db'.lists) ∙ ap list_or_empty (list_left key now db)

pub pushed :
    (key : Bytes) (now : Time) (db : Database) (items : Items) (j : Bytes)
    → entry j (update_list key items (get_or_create_list now key db).0)
      ≡ (if str_eq key j then record (live_entry now j db) { list = some items } else entry j db)
unfolding get_or_create_list
pushed key now db items j =
    let db' = expire_if_needed now key db in
    entry-list_or_new key j items db' (lookup key db'.lists)
    ∙ touched key j now db (λ e. record e { list = some items })

-- A push, with the list's method as a parameter.
push_lem :
    (push : List Bytes → Items → Items × ℕ) (env : Env) (key : Bytes) (args : List Value)
    (j : Bytes) (db : Database)
    → let made = push (texts args) (list_or_empty (live_entry env.now key db).list) in
      ((push_values push env key args db).1 ≡ number_reply made.1)
      × (entry j (push_values push env key args db).0 ≡ (
          if str_eq key j
          then record (live_entry env.now j db) { list = some made.0 }
          else entry j db))
push_lem push env key args j db =
    let e = list_pushed key env.now db in
    (
      ap (λ items. number_reply (push (texts args) items).1) e,
      pushed key env.now db (push (texts args) (get_or_create_list env.now key db).1).0 j
          ∙ ap
              (λ items.
                if str_eq key j
                then record (live_entry env.now j db) { list = some (push (texts args) items).0 }
                else entry j db)
              e,
    )

-- LPUSH and RPUSH put their values on the live list of the key, a missing one counting as empty, and
-- answer its new length; the key's deadline stays, and no other key changes.
pub push_pushes :
    (env : Env) (key : Bytes) (value : Value) (args : List Value) (j : Bytes) (db : Database)
    → let items = list_or_empty (live_entry env.now key db).list in
      let values = texts (value ∷ args) in
      let left = lpush env (bulk_string key ∷ value ∷ args) db in
      let right = rpush env (bulk_string key ∷ value ∷ args) db in
      ((left.1 ≡ number_reply (l_push values items).1)
        × (entry j left.0 ≡ (
            if str_eq key j
            then record (live_entry env.now j db) { list = some (l_push values items).0 }
            else entry j db)))
      × ((right.1 ≡ number_reply (r_push values items).1)
          × (entry j right.0 ≡ (
              if str_eq key j
              then record (live_entry env.now j db) { list = some (r_push values items).0 }
              else entry j db)))
unfolding lpush rpush
push_pushes env key value args j db =
    (push_lem l_push env key (value ∷ args) j db, push_lem r_push env key (value ∷ args) j db)

missing_list :
    (key j : Bytes) (db : Database)
    → lookup key db.lists ≡ none
    → entry j db ≡ (if str_eq key j then with_list [] (entry j db) else entry j db)
missing_list key j db l = elim (Bool-cases (str_eq key j)) [
  | inl same ↦ rw (same, ap (λ k. lookup k db.lists) (sym ((str_eq_iff key j).0 same)) ∙ l)
  | inr other ↦ rw other
]

entry-popped :
    (key j : Bytes) (db : Database) (r : Items × Option Bytes)
    → is_some r.1 ≡ true
    → ((popped key db r).1 ≡ item_reply r.1)
      × (entry j (popped key db r).0
          ≡ (if str_eq key j then with_list r.0 (entry j db) else entry j db))
entry-popped key j db (items, none) h = ground arith
entry-popped key j db (items, some value) h = (refl, entry-shrink_list key j items db)

-- What a pop leaves of an entry, and its answer, with the list's method as a parameter.
pop_entry :
    (pop : Items → Items × Option Bytes) (key j : Bytes) (db : Database) (found : Option Items)
    → pop [] ≡ ([], none)
    → ((item : Bytes) (items : Items) → is_some (pop (item ∷ items)).1 ≡ true)
    → lookup key db.lists ≡ found
    → found ≢ some []
    → ((pop_found pop key db found).1 ≡ item_reply (pop (list_or_empty found)).1)
      × (entry j (pop_found pop key db found).0 ≡ (
          if str_eq key j
          then with_list (pop (list_or_empty found)).0 (entry j db)
          else entry j db))
pop_entry pop key j db none e some_left l h = rw e (refl, missing_list key j db l)
pop_entry pop key j db (some []) e some_left l h = absurd (h refl)
pop_entry pop key j db (some (item ∷ items)) e some_left l h =
    entry-popped key j db (pop (item ∷ items)) (some_left item items)

pub pop_live :
    (pop : Items → Items × Option Bytes) (now : Time) (key j : Bytes) (db : Database)
    → pop [] ≡ ([], none)
    → ((item : Bytes) (items : Items) → is_some (pop (item ∷ items)).1 ≡ true)
    → (live_entry now key db).list ≢ some []
    → let gone = pop (list_or_empty (live_entry now key db).list) in
      let db' = expire_if_needed now key db in
      let r = pop_found pop key db' (lookup key db'.lists) in
      (r.1 ≡ item_reply gone.1)
      × (entry j r.0
          ≡ (if str_eq key j then with_list gone.0 (live_entry now j db) else entry j db))
pop_live pop now key j db e some_left h =
    let db' = expire_if_needed now key db in
    let live = (live_entry now key db).list in
    let left = list_left key now db in
    let (reply, kept) = pop_entry pop key j db' live e some_left left h in
    (
      ap (λ found. (pop_found pop key db' found).1) left ∙ reply,
      ap (λ found. entry j (pop_found pop key db' found).0) left
          ∙ kept
          ∙ touched key j now db (with_list (pop (list_or_empty live)).0),
    )

last_found : (items : Items) (n : ℕ) → n < length items → is_some (get_elem? items n) ≡ true
last_found [] n h = absurd (omega arith)
last_found (item ∷ items) zero h = refl
last_found (item ∷ items) (suc n) h = last_found items n (omega arith)

pub r_pop-some : (item : Bytes) (items : Items) → is_some (r_pop (item ∷ items)).1 ≡ true
unfolding r_pop
r_pop-some item items =
    rw suc_not_zero (last_found (item ∷ items) (suc (length items) - 1) (omega arith))

-- LPOP and RPOP answer the item at their end of the live list of the key, and take it off; an
-- emptied list is taken off the key, and no other key changes. The condition is that the key does
-- not hold an empty list.
pub pop_pops :
    (env : Env) (key j : Bytes) (db : Database)
    → (live_entry env.now key db).list ≢ some []
    → let items = list_or_empty (live_entry env.now key db).list in
      let left = lpop env (bulk_string key ∷ []) db in
      let right = rpop env (bulk_string key ∷ []) db in
      ((left.1 ≡ item_reply (l_pop items).1)
        × (entry j left.0 ≡ (
            if str_eq key j
            then with_list (l_pop items).0 (live_entry env.now j db)
            else entry j db)))
      × ((right.1 ≡ item_reply (r_pop items).1)
          × (entry j right.0 ≡ (
              if str_eq key j
              then with_list (r_pop items).0 (live_entry env.now j db)
              else entry j db)))
unfolding lpop rpop get_list
pop_pops env key j db h = (
  pop_live l_pop env.now key j db (unfold l_pop in refl) (unfold l_pop in (λ item items. refl)) h,
  pop_live r_pop env.now key j db (unfold r_pop in refl) r_pop-some h,
)

pub with_list-nonempty : (items : Items) (e : Entry) → (with_list items e).list ≢ some []
with_list-nonempty [] e h = ground arith
with_list-nonempty (item ∷ items) e h = ground arith
