-- ===== src/Database/Deletion.antt =====
-- DeleteKey and the tests for a key.
use shoredb.Base.{
  ℕ, ◌+◌, ◌≡◌, refl, ap, ◌∙◌, Bool, true, false, ◌||◌, arith, Bytes, str_eq, if◌then◌else◌, is_some,
}
use shoredb.Database.{Time, Database, expire_if_needed, delete_key, key_exists_locked, key_exists}
use shoredb.Database.Expiry.{
  Entry, entry, no_entry, live_entry, entry-evict, entry_self, entry-expire_if_needed,
}

-- Whether an entry holds a value in one of the four stores.
abbrev pub holds_value : Entry → Bool
holds_value e = is_some e.string || is_some e.list || is_some e.set || is_some e.hash

-- How many of the four stores hold a value.
abbrev pub value_count : Entry → ℕ
value_count e =
    (if is_some e.string then 1 else 0)
    + (if is_some e.list then 1 else 0)
    + (if is_some e.set then 1 else 0)
    + (if is_some e.hash then 1 else 0)

if_again :
    (b : Bool) (e f g : Entry) → (if b then e else (if b then f else g)) ≡ (if b then e else g)
if_again true e f g = refl
if_again false e f g = refl

pub locked-entry :
    (key : Bytes) (db : Database) → key_exists_locked key db ≡ holds_value (entry key db)
locked-entry key db = ground arith

-- After DeleteKey nothing stands under the key, a deadline neither, every other key is as before,
-- and the result counts the stores in which the key was live.
pub delete_key_deletes :
    (now : Time) (key j : Bytes) (db : Database)
    → (entry j (delete_key now key db).0 ≡ (if str_eq key j then no_entry else entry j db))
      × ((delete_key now key db).1 ≡ value_count (live_entry now key db))
unfolding delete_key
delete_key_deletes now key j db = (
  entry-evict key j (expire_if_needed now key db)
      ∙ ap (λ e. if str_eq key j then no_entry else e) (entry-expire_if_needed now key j db)
      ∙ if_again (str_eq key j) no_entry (live_entry now j db) (entry j db),
  ap value_count (entry_self now key db),
)

-- KeyExists finds a key exactly where one of its stores holds a live value.
pub key_exists_lem :
    (now : Time) (key : Bytes) (db : Database)
    → (key_exists now key db).1 ≡ holds_value (live_entry now key db)
unfolding key_exists
key_exists_lem now key db =
    locked-entry key (expire_if_needed now key db) ∙ ap holds_value (entry_self now key db)
