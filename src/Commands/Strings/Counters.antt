-- ===== src/Commands/Strings/Counters.antt =====
-- INCR, DECR, INCRBY and DECRBY on a key that holds a number.
use shoredb.Base.{
  ◌≡◌, ap, ◌∙◌, none, some, [], ◌∷◌, arith, Bytes, str_eq, str_eq_refl, if◌then◌else◌,
}
use shoredb.Base.Int.{ℤ, pos, negsuc, ◌+ℤ◌, ◌≤ℤ◌, neg_ℤ, IsInt64, wrap, wrap-IsInt64}
use shoredb.Base.Dict.{lookup, lookup-insert}
use shoredb.Strconv.{atoi, itoa}
use shoredb.Strconv.RoundTrip.{atoi-itoa}
use shoredb.Resp.{Value, bulk_string, integer}
use shoredb.Database.{Time, Database, expire_if_needed}
use shoredb.Database.Expiry.{Entry, entry, live_of, live_entry, entry_self, live-expire_if_needed}
use shoredb.Commands.{Env, not_an_integer}
use shoredb.Commands.Strings.{
  get, bulk_or_null, or_zero, add_amount, increment, incrby, decrby, increment_by, negate,
}
use shoredb.Commands.Strings.Keys.{get-live}

-- The number that an increment reads.
number_read :
    (now : Time) (db : Database) (key : Bytes)
    → atoi (or_zero (lookup key (expire_if_needed now key db).store))
      ≡ atoi (or_zero (live_entry now key db).string)
number_read now db key = ap (λ e. atoi (or_zero (Entry.string e))) (entry_self now key db)

-- What an increment leaves of an entry.
abbrev pub with_number : ℤ → Entry → Entry
with_number total e = record e { string = some (itoa total) }

entry-add_amount :
    (key j : Bytes) (n amount : ℤ) (db : Database)
    → entry j (add_amount key amount db (some n)).0
      ≡ (if str_eq key j then with_number (wrap (n +ℤ amount)) (entry j db) else entry j db)
entry-add_amount key j n amount db =
    ground (arith, lookup-insert key j (itoa (wrap (n +ℤ amount))) db.store)

-- Once the key's string reads as a number n (a missing one reads as 0), an increment answers the sum in
-- 64-bit arithmetic, and leaves the sum's decimals under the key, whose deadline stays.
pub increment_adds :
    (now : Time) (db : Database) (key : Bytes) (n amount : ℤ)
    → atoi (or_zero (live_entry now key db).string) ≡ some n
    → ((increment now db key amount).1 ≡ integer (wrap (n +ℤ amount)))
      × (entry key (increment now db key amount).0
          ≡ with_number (wrap (n +ℤ amount)) (live_entry now key db))
unfolding increment
increment_adds now db key n amount e =
    let db' = expire_if_needed now key db in
    let read = number_read now db key ∙ e in
    (
      ap (λ p. (add_amount key amount db' p).1) read,
      ap (λ p. entry key (add_amount key amount db' p).0) read
          ∙ entry-add_amount key key n amount db'
          ∙ (rw (str_eq_refl key))
          ∙ ap (with_number (wrap (n +ℤ amount))) (entry_self now key db),
    )

-- On a key whose live string reads as no number, an increment is an error, and what is live under any key,
-- at that instant or at a later one with no command in between, is what it is without the increment.
pub increment_refuses :
    (now later : Time) (db : Database) (key j : Bytes) (amount : ℤ)
    → atoi (or_zero (live_entry now key db).string) ≡ none
    → now ≤ℤ later
    → ((increment now db key amount).1 ≡ not_an_integer)
      × (live_entry later j (increment now db key amount).0 ≡ live_entry later j db)
unfolding increment
increment_refuses now later db key j amount e h =
    let db' = expire_if_needed now key db in
    let read = number_read now db key ∙ e in
    (
      ap (λ p. (add_amount key amount db' p).1) read,
      ap (λ p. live_entry later j (add_amount key amount db' p).0) read
          ∙ live-expire_if_needed now later key j db h,
    )

live-with_number :
    (now : Time) (total : ℤ) (e : Entry)
    → (live_of now (with_number total (live_of now e))).string ≡ some (itoa total)
live-with_number now total e = ground arith

-- After an increment of a key that reads as n, the key reads as the wrapped sum.
string-increment :
    (now : Time) (db : Database) (key : Bytes) (n amount : ℤ)
    → atoi (or_zero (live_entry now key db).string) ≡ some n
    → (live_entry now key (increment now db key amount).0).string ≡ some (itoa (wrap (n +ℤ amount)))
string-increment now db key n amount e =
    ap (λ x. (live_of now x).string) (increment_adds now db key n amount e).1
    ∙ live-with_number now (wrap (n +ℤ amount)) (entry key db)

read-increment :
    (now : Time) (db : Database) (key : Bytes) (n amount : ℤ)
    → atoi (or_zero (live_entry now key db).string) ≡ some n
    → atoi (or_zero (live_entry now key (increment now db key amount).0).string)
      ≡ some (wrap (n +ℤ amount))
read-increment now db key n amount e =
    ap (λ s. atoi (or_zero s)) (string-increment now db key n amount e)
    ∙ atoi-itoa (wrap (n +ℤ amount)) (wrap-IsInt64 (n +ℤ amount))

abbrev pub set_number : ℤ → Value
set_number n = bulk_string (itoa n)

-- INCRBY by a 64-bit amount, of a key that reads as n, answers the wrapped sum, and a GET at that instant
-- answers the sum's decimals.
pub get-incrby :
    (env : Env) (db : Database) (key : Bytes) (n amount : ℤ)
    → IsInt64 amount
    → atoi (or_zero (live_entry env.now key db).string) ≡ some n
    → ((incrby env (bulk_string key ∷ set_number amount ∷ []) db).1 ≡ integer (wrap (n +ℤ amount)))
      × ((get env
            (bulk_string key ∷ [])
            (incrby env (bulk_string key ∷ set_number amount ∷ []) db).0).1
          ≡ set_number (wrap (n +ℤ amount)))
unfolding incrby
get-incrby env db key n amount h e =
    let done = ap (increment_by env.now db key) (atoi-itoa amount h) in
    (
      ap (λ r. r.1) done ∙ (increment_adds env.now db key n amount e).0,
      ap (λ r. (get env (bulk_string key ∷ []) r.0).1) done
          ∙ get-live env key (increment env.now db key amount).0
          ∙ ap bulk_or_null (string-increment env.now db key n amount e),
    )

-- Adding the negated amount gives the number back, also where the negation wraps around.
back :
    (n amount : ℤ)
    → IsInt64 n
    → IsInt64 amount
    → IsInt64 (n +ℤ amount)
    → wrap (wrap (n +ℤ amount) +ℤ wrap (neg_ℤ amount)) ≡ n
unfolding wrap neg_ℤ ◌+ℤ◌
back (pos n) (pos a) h ha s = ground arith
back (pos n) (negsuc a) h ha s = ground arith
back (negsuc n) (pos a) h ha s = ground arith
back (negsuc n) (negsuc a) h ha s = ground arith

-- DECRBY takes back what INCRBY by the same amount added, where the sum is in range: a GET then answers the number that was there.
pub decrby-incrby :
    (env : Env) (db : Database) (key : Bytes) (n amount : ℤ)
    → IsInt64 n
    → IsInt64 amount
    → IsInt64 (n +ℤ amount)
    → atoi (or_zero (live_entry env.now key db).string) ≡ some n
    → (get env
        (bulk_string key ∷ [])
        (decrby env
          (bulk_string key ∷ set_number amount ∷ [])
          (incrby env (bulk_string key ∷ set_number amount ∷ []) db).0).0).1
      ≡ set_number n
unfolding incrby decrby
decrby-incrby env db key n amount h a s e =
    let once = ap (increment_by env.now db key) (atoi-itoa amount a) in
    let db' = (increment env.now db key amount).0 in
    let minus = wrap (neg_ℤ amount) in
    ap
      (λ r.
        (get env (bulk_string key ∷ [])
          (increment_by env.now r.0 key (negate (atoi (itoa amount)))).0).1)
      once
    ∙ ap (λ p. (get env (bulk_string key ∷ []) (increment_by env.now db' key (negate p)).0).1)
        (atoi-itoa amount a)
    ∙ get-live env key (increment env.now db' key minus).0
    ∙ ap bulk_or_null (
        string-increment env.now db' key (wrap (n +ℤ amount)) minus
          (read-increment env.now db key n amount e))
    ∙ ap set_number (back n amount h a s)
