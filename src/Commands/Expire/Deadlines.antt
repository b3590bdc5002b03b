-- ===== src/Commands/Expire/Deadlines.antt =====
-- EXPIRE, TTL and PERSIST of pkg/commands/expire_commands.go, as the clock goes on.
use shoredb.Base.{
  ℕ, ◌-◌, ◌*◌, ◌/◌, ◌^◌, ◌<◌, ◌≡◌, refl, ap, ◌∙◌, inl, inr, Bool, true, false, not, none, some, [],
  ◌∷◌, arith, Bytes, str_eq, str_eq_refl, ltb, if◌then◌else◌, Bool-cases, is_some,
}
use shoredb.Base.Int.{
  ℤ, pos, negsuc, ◌+ℤ◌, ◌-ℤ◌, ◌*ℤ◌, ltb_ℤ, IsInt64, wrap, wrap_id, eq_of_parts, +ℤ_parts, -ℤ_parts,
}
use shoredb.Base.Dict.{lookup, erase, lookup-insert, lookup-erase}
use shoredb.Strconv.{itoa}
use shoredb.Strconv.RoundTrip.{atoi-itoa}
use shoredb.Resp.{Value, bulk_string, integer}
use shoredb.Database.{Time, Database, expire_if_needed, key_exists_locked}
use shoredb.Database.Expiry.{Entry, entry, no_entry, live_of, live_entry, entry_self}
use shoredb.Database.Deletion.{holds_value, locked-entry}
use shoredb.Commands.{Env, number_reply}
use shoredb.Commands.Expire.{
  second, duration, set_deadline, expire_amount, set_expire, expire, until, time_left, ttl_value,
  ttl, persist,
}

abbrev pub with_deadline : Time → Entry → Entry
with_deadline exp e = record e { deadline = some exp }

entry-set_deadline :
    (now : Time) (key j : Bytes) (amount : ℤ) (unit : ℕ) (db : Database)
    → key_exists_locked key db ≡ true
    → ((set_deadline now key amount unit db).1 ≡ number_reply 1)
      × (entry j (set_deadline now key amount unit db).0 ≡ (
          if str_eq key j
          then with_deadline (now +ℤ duration amount unit) (entry j db)
          else entry j db))
entry-set_deadline now key j amount unit db h =
    rw h (refl, ground (arith, lookup-insert key j (now +ℤ duration amount unit) db.expires))

exists_left :
    (now : Time) (key : Bytes) (db : Database)
    → key_exists_locked key (expire_if_needed now key db) ≡ holds_value (live_entry now key db)
exists_left now key db =
    locked-entry key (expire_if_needed now key db) ∙ ap holds_value (entry_self now key db)

-- A deadline set on a key that holds a value, with the amount as a number.
set_expire_lem :
    (now : Time) (db : Database) (key : Bytes) (amount : ℤ) (unit : ℕ)
    → IsInt64 amount
    → holds_value (live_entry now key db) ≡ true
    → ((set_expire now db key (itoa amount) unit).1 ≡ number_reply 1)
      × (entry key (set_expire now db key (itoa amount) unit).0
          ≡ with_deadline (now +ℤ duration amount unit) (live_entry now key db))
unfolding set_expire
set_expire_lem now db key amount unit h live =
    let db' = expire_if_needed now key db in
    let read = ap (λ p. expire_amount now db key p unit) (atoi-itoa amount h) in
    let (reply, left) =
      entry-set_deadline now key key amount unit db' (exists_left now key db ∙ live) in
    (
      ap (λ r. r.1) read ∙ reply,
      ap (λ r. entry key r.0) read
          ∙ left
          ∙ (rw (str_eq_refl key))
          ∙ ap (with_deadline (now +ℤ duration amount unit)) (entry_self now key db),
    )

-- A duration that fits is the product.
duration_fits : (n unit : ℕ) → n * unit < 2 ^ 63 → duration (pos n) unit ≡ pos (n * unit)
unfolding duration ◌*ℤ◌
duration_fits n unit h =
    let product : pos n *ℤ pos unit ≡ pos (n * unit) =
      eq_of_parts (pos n *ℤ pos unit) (pos (n * unit)) (ground arith) in
    ap wrap product ∙ wrap_id (pos (n * unit)) h

live-deadline :
    (later exp : Time) (e : Entry)
    → live_of later (with_deadline exp e)
      ≡ (if ltb_ℤ later exp then with_deadline exp e else no_entry)
live-deadline later exp e = ground arith

-- EXPIRE of a number of seconds that fits a 64-bit duration, on a key that holds a value, answers
-- 1; the key then holds what it held until that many seconds have passed, and nothing from then
-- on.
pub expire_expires :
    (env : Env) (later : Time) (key : Bytes) (n : ℕ) (db : Database)
    → n * second < 2 ^ 63
    → holds_value (live_entry env.now key db) ≡ true
    → let after = expire env (bulk_string key ∷ bulk_string (itoa (pos n)) ∷ []) db in
      let exp = env.now +ℤ pos (n * second) in
      (after.1 ≡ number_reply 1)
      × (live_entry later key after.0
          ≡ (if ltb_ℤ later exp then with_deadline exp (live_entry env.now key db) else no_entry))
unfolding expire
expire_expires env later key n db h live =
    let (reply, left) = set_expire_lem env.now db key (pos n) second (omega arith) live in
    let exp = env.now +ℤ duration (pos n) second in
    let fits = ap (λ d. env.now +ℤ d) (duration_fits n second h) in
    (
      reply,
      ap (live_of later) left
          ∙ live-deadline later exp (live_entry env.now key db)
          ∙ ap
              (λ t. if ltb_ℤ later t then with_deadline t (live_entry env.now key db) else no_entry)
              fits,
    )

if_not : (b : Bool) (x y : Value) → (if not b then x else y) ≡ (if b then y else x)
if_not true x y = refl
if_not false x y = refl

-- TTL of a key that holds a value: the whole seconds up to its deadline, and -1 without one.
ttl_live :
    (now : Time) (db : Database) (key : Bytes) (unit : ℕ)
    → (ttl_value now db key unit).1 ≡ (
        if holds_value (live_entry now key db)
        then time_left now unit (live_entry now key db).deadline
        else integer (negsuc 1))
unfolding ttl_value
ttl_live now db key unit =
    let db' = expire_if_needed now key db in
    ap (λ b. if not b then integer (negsuc 1) else time_left now unit (lookup key db'.expires))
      (exists_left now key db)
    ∙ ap
        (λ e.
          if not (holds_value (live_entry now key db))
          then integer (negsuc 1)
          else time_left now unit (Entry.deadline e))
        (entry_self now key db)
    ∙ if_not (holds_value (live_entry now key db)) (integer (negsuc 1))
        (time_left now unit (live_entry now key db).deadline)

before_deadline :
    (now : ℤ) (gone total : ℕ) → ltb_ℤ (now +ℤ pos gone) (now +ℤ pos total) ≡ ltb gone total
before_deadline now gone total = ground (arith, +ℤ_parts now (pos gone), +ℤ_parts now (pos total))

until_left :
    (now : ℤ) (gone total : ℕ)
    → gone < total
    → total < 2 ^ 63
    → until (now +ℤ pos total) (now +ℤ pos gone) ≡ pos (total - gone)
unfolding until
until_left now gone total h fits =
    let exp = now +ℤ pos total in
    let later = now +ℤ pos gone in
    let d : exp -ℤ later ≡ pos (total - gone) =
      eq_of_parts (exp -ℤ later) (pos (total - gone))
        (omega (arith, -ℤ_parts exp later, +ℤ_parts now (pos total), +ℤ_parts now (pos gone))) in
    rw d (ground arith)

left_of :
    (later now : Time) (gone total : ℕ) (e : Entry)
    → later ≡ now +ℤ pos gone
    → total < 2 ^ 63
    → holds_value e ≡ true
    → (let left =
          if ltb_ℤ later (now +ℤ pos total) then with_deadline (now +ℤ pos total) e else no_entry in
        if holds_value left then time_left later second left.deadline else integer (negsuc 1))
      ≡ (if ltb gone total then integer (pos ((total - gone) / second)) else integer (negsuc 1))
left_of later now gone total e t fits live = elim (Bool-cases (ltb gone total)) [
  | inl early ↦
      rw (t, before_deadline now gone total, early)
        (rw (live, until_left now gone total (ground arith) fits)
          (ap (λ n. integer (pos (n / second))) (ground arith)))
  | inr late ↦ rw (t, before_deadline now gone total, late) refl
]

-- EXPIRE gives a key that holds a value a number of seconds that fits a 64-bit duration: until
-- they have passed TTL answers the whole seconds left, and from then on -2.
pub ttl-expire :
    (env : Env) (later : Env) (key : Bytes) (n gone : ℕ) (db : Database)
    → n * second < 2 ^ 63
    → holds_value (live_entry env.now key db) ≡ true
    → later.now ≡ env.now +ℤ pos gone
    → (ttl later
        (bulk_string key ∷ [])
        (expire env (bulk_string key ∷ bulk_string (itoa (pos n)) ∷ []) db).0).1
      ≡ (if ltb gone (n * second)
          then integer (pos ((n * second - gone) / second))
          else integer (negsuc 1))
unfolding ttl
ttl-expire env later key n gone db h live t =
    let after = (expire env (bulk_string key ∷ bulk_string (itoa (pos n)) ∷ []) db).0 in
    let answer = λ (e : Entry).
      if holds_value e then time_left later.now second e.deadline else integer (negsuc 1) in
    ttl_live later.now after key second
    ∙ ap answer (expire_expires env later.now key n db h live).1
    ∙ left_of later.now env.now gone (n * second) (live_entry env.now key db) t h live

abbrev no_deadline : Entry → Entry
no_deadline e = record e { deadline = none }

abbrev persist_found : Bytes → Database → Bool → Database × Value
persist_found key db found =
    if not found
    then (db, number_reply 0)
    else (record db { expires = erase key db.expires }, number_reply 1)

persisted :
    (key : Bytes) (db : Database)
    → entry key (persist_found key db (is_some (lookup key db.expires))).0
      ≡ no_deadline (entry key db)
persisted key db = ground (arith, lookup-erase key key db.expires, str_eq_refl key)

-- PERSIST leaves what is live under the key, without a deadline: that is live at every instant, with no
-- command in between.
pub persist_keeps :
    (env : Env) (later : Time) (key : Bytes) (db : Database)
    → live_entry later key (persist env (bulk_string key ∷ []) db).0
      ≡ record (live_entry env.now key db) { deadline = none }
unfolding persist
persist_keeps env later key db =
    let db' = expire_if_needed env.now key db in
    ap (live_of later) (persisted key db' ∙ ap no_deadline (entry_self env.now key db))
