-- ===== src/Commands/Lists/RoundTrip.antt =====
-- A push to a key's list and a pop at the same end.
use shoredb.Base.{
  ◌≡◌, refl, sym, ap, ◌∙◌, ◌≢◌, true, Option, none, some, [], ◌∷◌, arith, Bytes, str_eq,
  str_eq_refl, if◌then◌else◌, is_some,
}
use shoredb.Base.Dict.{lookup}
use shoredb.Resp.{bulk_string}
use shoredb.Datastruct.Lists.{Items, l_push, r_push, l_pop, r_pop}
use shoredb.Datastruct.Lists.Ends.{r_pop-concat}
use shoredb.Database.{Time, Database, expire_if_needed, get_list}
use shoredb.Database.Expiry.{Entry, entry, live_of, live_entry}
use shoredb.Commands.{Env}
use shoredb.Commands.Lists.{lpush, rpush, pop_found, item_reply, lpop, rpop}
use shoredb.Commands.Lists.Queues.{list_or_empty, with_list, push_pushes, pop_live, r_pop-some}

live_list :
    (now : Time) (items : Items) (e : Entry)
    → live_of now (record (live_of now e) { list = some items })
      ≡ record (live_of now e) { list = some items }
live_list now items e = ground arith

only_key : (key : Bytes) (here other : Entry) → (if str_eq key key then here else other) ≡ here
only_key key here other = rw str_eq_refl refl

-- The entry under the key itself after a push.
live-pushed :
    (now : Time) (key : Bytes) (items : Items) (db after : Database)
    → entry key after ≡ (
        if str_eq key key
        then record (live_entry now key db) { list = some items }
        else entry key db)
    → live_entry now key after ≡ record (live_entry now key db) { list = some items }
live-pushed now key items db after e =
    ap (live_of now)
      (e ∙ only_key key (record (live_entry now key db) { list = some items }) (entry key db))
    ∙ live_list now items (entry key db)

with_list-list :
    (items : Items) (before : Option Items) (e : Entry)
    → with_list items (record e { list = before }) ≡ with_list items e
with_list-list [] before e = refl
with_list-list (item ∷ items) before e = refl

not_emptied :
    (pop : Items → Items × Option Bytes) (made items : Items) (value : Bytes) (found : Option Items)
    → pop [] ≡ ([], none)
    → pop made ≡ (items, some value)
    → found ≡ some made
    → found ≢ some []
not_emptied pop made items value found none_left gone f e =
    let nil = ap list_or_empty (sym f ∙ e) in
    let clash = ap (λ r. is_some r.1) (sym gone ∙ ap pop nil ∙ none_left) in ground arith

-- What the pop after a push gives, with the list's method as a parameter.
pop_after :
    (pop : Items → Items × Option Bytes) (now : Time) (key value : Bytes) (items made : Items)
    (db after : Database)
    → pop [] ≡ ([], none)
    → ((item : Bytes) (items : Items) → is_some (pop (item ∷ items)).1 ≡ true)
    → pop made ≡ (items, some value)
    → live_entry now key after ≡ record (live_entry now key db) { list = some made }
    → let db' = expire_if_needed now key after in
      let r = pop_found pop key db' (lookup key db'.lists) in
      (r.1 ≡ bulk_string value) × (entry key r.0 ≡ with_list items (live_entry now key db))
pop_after pop now key value items made db after none_left some_left gone l =
    let found = ap (λ e. Entry.list e) l in
    let h = not_emptied pop made items value (live_entry now key after).list none_left gone found in
    let (reply, kept) = pop_live pop now key key after none_left some_left h in
    let result = ap (λ found. pop (list_or_empty found)) found ∙ gone in
    (
      reply ∙ ap (λ r. item_reply r.1) result,
      kept
          ∙ only_key key
              (with_list (pop (list_or_empty (live_entry now key after).list)).0
                (live_entry now key after))
              (entry key after)
          ∙ ap (λ r. with_list r.0 (live_entry now key after)) result
          ∙ ap (with_list items) l
          ∙ with_list-list items (some made) (live_entry now key db),
    )

pushed_left :
    (value : Bytes) (items : Items) → l_pop (l_push (value ∷ []) items).0 ≡ (items, some value)
pushed_left value items = unfold l_push l_pop in refl

pushed_right :
    (value : Bytes) (items : Items) → r_pop (r_push (value ∷ []) items).0 ≡ (items, some value)
pushed_right value items = unfold r_push in r_pop-concat items value

-- A value pushed at one end of a key's list is the one that a pop at that end answers at that instant,
-- and the pop leaves the list as the push found it.
pub pop-push_key :
    (env : Env) (key value : Bytes) (db : Database)
    → let items = list_or_empty (live_entry env.now key db).list in
      let left =
        lpop env
          (bulk_string key ∷ [])
          (lpush env (bulk_string key ∷ bulk_string value ∷ []) db).0 in
      let right =
        rpop env
          (bulk_string key ∷ [])
          (rpush env (bulk_string key ∷ bulk_string value ∷ []) db).0 in
      ((left.1 ≡ bulk_string value)
        × (entry key left.0 ≡ with_list items (live_entry env.now key db)))
      × ((right.1 ≡ bulk_string value)
          × (entry key right.0 ≡ with_list items (live_entry env.now key db)))
unfolding lpop rpop get_list
pop-push_key env key value db =
    let items = list_or_empty (live_entry env.now key db).list in
    let (left, right) = push_pushes env key (bulk_string value) [] key db in
    let l_made = (l_push (value ∷ []) items).0 in
    let r_made = (r_push (value ∷ []) items).0 in
    let l_db = (lpush env (bulk_string key ∷ bulk_string value ∷ []) db).0 in
    let r_db = (rpush env (bulk_string key ∷ bulk_string value ∷ []) db).0 in
    (
      pop_after l_pop env.now key value items l_made db l_db (unfold l_pop in refl)
          (unfold l_pop in (λ item items. refl)) (pushed_left value items)
          (live-pushed env.now key l_made db l_db left.1),
      pop_after r_pop env.now key value items r_made db r_db (unfold r_pop in refl) r_pop-some
          (pushed_right value items) (live-pushed env.now key r_made db r_db right.1),
    )
