-- ===== src/Database/Expiry.antt =====
-- Deadlines: expireIfNeeded and SweepExpired of pkg/commands/database.go, by the entry that stands
-- under a key.
use shoredb.Base.{
  ◌≡◌, refl, sym, ap, ◌∙◌, inl, inr, Bool, true, false, ◌||◌, Option, none, some, List, [], ◌∷◌,
  arith, Bytes, str_eq, str_eq_iff, str_eq_refl, if◌then◌else◌, Bool-cases,
}
use shoredb.Base.Int.{ltb_ℤ, ◌≤ℤ◌}
use shoredb.Base.Dict.{Dict, lookup, has, IsMap, lookup-erase, IsMap-erase}
use shoredb.Datastruct.Lists.{Items}
use shoredb.Datastruct.Sets.{Members}
use shoredb.Datastruct.Hashes.{FieldMap}
use shoredb.Datastruct.Sets.Counts.{among}
use shoredb.Database.{
  Time, Database, evict, is_due, expire_if_needed, due_keys, expire_each, sweep_expired,
}

-- What stands under a key: its value in each of the four stores, and its deadline.
pub record Entry : Type 0 where
  pub string : Option Bytes
  pub list : Option Items
  pub set : Option Members
  pub hash : Option FieldMap
  pub deadline : Option Time

abbrev pub entry : Bytes → Database → Entry
entry key db = record {
  string = lookup key db.store;
  list = lookup key db.lists;
  set = lookup key db.sets;
  hash = lookup key db.hashes;
  deadline = lookup key db.expires;
}

abbrev pub no_entry : Entry
no_entry = record { string = none; list = none; set = none; hash = none; deadline = none }

-- What is live of an entry at an instant: nothing at its deadline and behind it.
abbrev pub live_of : Time → Entry → Entry
live_of now e = if is_due now e.deadline then no_entry else e

abbrev pub live_entry : Time → Bytes → Database → Entry
live_entry now key db = live_of now (entry key db)

pub entry-evict :
    (key j : Bytes) (db : Database)
    → entry j (evict key db) ≡ (if str_eq key j then no_entry else entry j db)
entry-evict key j db = ground (
  arith,
  lookup-erase key j db.store,
  lookup-erase key j db.lists,
  lookup-erase key j db.sets,
  lookup-erase key j db.hashes,
  lookup-erase key j db.expires,
)

entry-due :
    (now : Time) (key j : Bytes) (db : Database)
    → is_due now (lookup key db.expires) ≡ true
    → (if str_eq key j then no_entry else entry j db)
      ≡ (if str_eq key j then live_entry now j db else entry j db)
entry-due now key j db e = elim (Bool-cases (str_eq key j)) [
  | inl same ↦
      let d = ap (λ k. is_due now (lookup k db.expires)) (sym ((str_eq_iff key j).0 same)) ∙ e in
      rw (same, d)
  | inr other ↦ rw other
]

entry-not_due :
    (now : Time) (key j : Bytes) (db : Database)
    → is_due now (lookup key db.expires) ≡ false
    → entry j db ≡ (if str_eq key j then live_entry now j db else entry j db)
entry-not_due now key j db e = elim (Bool-cases (str_eq key j)) [
  | inl same ↦
      let d = ap (λ k. is_due now (lookup k db.expires)) (sym ((str_eq_iff key j).0 same)) ∙ e in
      rw (same, d)
  | inr other ↦ rw other
]

-- Looking at a key leaves of it what is live, and of every other key what was there.
pub entry-expire_if_needed :
    (now : Time) (key j : Bytes) (db : Database)
    → entry j (expire_if_needed now key db)
      ≡ (if str_eq key j then live_entry now j db else entry j db)
unfolding expire_if_needed
entry-expire_if_needed now key j db = elim (Bool-cases (is_due now (lookup key db.expires))) [
  | inl e ↦ rw e (entry-evict key j db ∙ entry-due now key j db e)
  | inr e ↦ rw e (entry-not_due now key j db e)
]

-- The key itself is left with what is live.
pub entry_self :
    (now : Time) (key : Bytes) (db : Database)
    → entry key (expire_if_needed now key db) ≡ live_entry now key db
entry_self now key db = entry-expire_if_needed now key key db ∙ rw (str_eq_refl key)

-- What is live later of what is live now is what is live later of the whole entry.
live-live :
    (now later : Time) (e : Entry) → now ≤ℤ later → live_of later (live_of now e) ≡ live_of later e
live-live now later e h = ground arith

-- A deadline that is past: `now.After(exp)`.
abbrev pub is_past : Time → Option Time → Bool
is_past now none = false
is_past now (some exp) = ltb_ℤ exp now

live-if :
    (b : Bool) (now later : Time) (e : Entry)
    → now ≤ℤ later
    → live_of later (if b then live_of now e else e) ≡ live_of later e
live-if true now later e h = live-live now later e h
live-if false now later e h = refl

live-or :
    (a b : Bool) (now : Time) (e : Entry)
    → (if b then live_of now (if a then live_of now e else e) else (if a then live_of now e else e))
      ≡ (if a || b then live_of now e else e)
live-or true true now e = live-live now now e (omega arith)
live-or true false now e = refl
live-or false true now e = refl
live-or false false now e = refl

live-past :
    (now : Time) (e : Entry)
    → (if is_past now e.deadline then live_of now e else e)
      ≡ (if is_past now e.deadline then no_entry else e)
live-past now e = ground arith

-- What is live under any key, at the instant of an eviction or later, is the same behind the eviction as
-- before it, with no command in between.
pub live-expire_if_needed :
    (now later : Time) (key j : Bytes) (db : Database)
    → now ≤ℤ later
    → live_entry later j (expire_if_needed now key db) ≡ live_entry later j db
live-expire_if_needed now later key j db h =
    ap (live_of later) (entry-expire_if_needed now key j db)
    ∙ live-if (str_eq key j) now later (entry j db) h

entry-expire_each :
    (now : Time) (due : List Bytes) (j : Bytes) (db : Database)
    → entry j (expire_each now due db) ≡ (if among j due then live_entry now j db else entry j db)
unfolding expire_each
entry-expire_each now [] j db = refl
entry-expire_each now (key ∷ due) j db =
    entry-expire_each now due j (expire_if_needed now key db)
    ∙ ap (λ e. if among j due then live_of now e else e) (entry-expire_if_needed now key j db)
    ∙ live-or (str_eq key j) (among j due) now (entry j db)

among-due_keys :
    (now : Time) (expires : Dict Time) (j : Bytes)
    → IsMap expires
    → among j (due_keys now expires) ≡ is_past now (lookup j expires)
unfolding due_keys lookup
among-due_keys now [] j h = refl
among-due_keys now ((key, exp) ∷ expires) j (fresh, rest) = elim (Bool-cases (str_eq key j)) [
  | inl e ↦ rw e (
      ground (
        arith,
        among-due_keys now expires j rest,
        ap (λ k. has k expires) ((str_eq_iff key j).0 e),
      ))
  | inr e ↦ rw e (ground (arith, among-due_keys now expires j rest))
]

-- For a table of deadlines that holds no key twice: SweepExpired leaves nothing under a key whose deadline
-- is past, and under any other key what stood there. What is live under a key (nothing at and behind its
-- deadline, and its entry before) is, at the sweep's instant and at any later one, the same in the database
-- that was swept as in the one that was not, with no command in between.
pub sweep_expired_lem :
    (now later : Time) (j : Bytes) (db : Database)
    → IsMap db.expires
    → now ≤ℤ later
    → (entry j (sweep_expired now db)
        ≡ (if is_past now (lookup j db.expires) then no_entry else entry j db))
      × (live_entry later j (sweep_expired now db) ≡ live_entry later j db)
unfolding sweep_expired
sweep_expired_lem now later j db h le =
    let due = due_keys now db.expires in
    let swept = entry-expire_each now due j db in
    (
      swept
          ∙ ap (λ b. if b then live_entry now j db else entry j db)
              (among-due_keys now db.expires j h)
          ∙ live-past now (entry j db),
      ap (live_of later) swept ∙ live-if (among j due) now later (entry j db) le,
    )

-- The five maps of a database hold no key twice.
pub record AreMaps (db : Database) : Type 0 where
  pub store : IsMap db.store
  pub lists : IsMap db.lists
  pub sets : IsMap db.sets
  pub hashes : IsMap db.hashes
  pub expires : IsMap db.expires

pub AreMaps-evict : (key : Bytes) (db : Database) → AreMaps db → AreMaps (evict key db)
AreMaps-evict key db h = record {
  store = IsMap-erase key db.store h.store;
  lists = IsMap-erase key db.lists h.lists;
  sets = IsMap-erase key db.sets h.sets;
  hashes = IsMap-erase key db.hashes h.hashes;
  expires = IsMap-erase key db.expires h.expires;
}

pub AreMaps-expire_if_needed :
    (now : Time) (key : Bytes) (db : Database) → AreMaps db → AreMaps (expire_if_needed now key db)
unfolding expire_if_needed
AreMaps-expire_if_needed now key db h = elim (Bool-cases (is_due now (lookup key db.expires))) [
  | inl e ↦ rw e (AreMaps-evict key db h)
  | inr e ↦ rw e h
]
