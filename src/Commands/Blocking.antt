-- ===== src/Commands/Blocking.antt =====
-- BLPOP and BRPOP: blockingPop of pkg/commands/list_commands.go with the signals of
-- pkg/commands/database.go, as the steps of one client that is blocked and of the others around it.
pub mod Answers
pub mod Wakes
use shoredb.Base.{
  ℕ, zero, suc, ◌+◌, ◌-◌, ◌*◌, ◌/◌, ◌%◌, ◌^◌, ◌≤◌, ◌<◌, ◌≡◌, refl, sym, ap, ◌∙◌, ◌≢◌, ◌↔◌, ◌⊎◌, inl,
  inr, Bool, true, false, not, ◌&&◌, ◌||◌, Option, none, some, List, [], ◌∷◌, ◌++◌, map, append-nil,
  append_assoc, arith, Bytes, codes, str_eq, str_eq_iff, str_eq_refl, ltb, leb, ◌==◌, ==_iff,
  if◌then◌else◌, Bool-cases, Option-cases, is_some, length, get_elem?, take, drop, length-append,
}
use shoredb.Resp.{Value, array, of_list, bulk_string, null, str}
use shoredb.Datastruct.Lists.{Items}
use shoredb.Database.{Time, Database, get_list}
use shoredb.Commands.{error, texts}
use shoredb.Commands.Lists.{shrink_list}
use shoredb.Base.Int.{ℤ, ltb_ℤ, ◌+ℤ◌, leb_ℤ}

abbrev pub Pop : Type 0
Pop = Items → Items × Option Bytes

-- The key and the value that were popped, or what the keys behind give.
abbrev pub popped_or :
    Bytes
    → Database
    → Database × Option (Bytes × Bytes)
    → Items × Option Bytes
    → Database × Option (Bytes × Bytes)
popped_or key db others (list, none) = others
popped_or key db others (list, some value) = (shrink_list key list db, some (key, value))

abbrev pub found_or :
    Pop
    → Bytes
    → Database
    → Database × Option (Bytes × Bytes)
    → Option Items
    → Database × Option (Bytes × Bytes)
found_or pop key db others none = others
found_or pop key db others (some list) = popped_or key db others (pop list)

-- The loop of blockingPop over the keys.
unfoldable pub pop_first : Pop → Time → List Bytes → Database → Database × Option (Bytes × Bytes)
unfolding get_list
pop_first pop now [] db = (db, none)
pop_first pop now (key ∷ keys) db =
    let (db', found) = get_list now key db in
    let others = pop_first pop now keys db' in found_or pop key db' others found

-- What the source uses of strconv.ParseFloat's number: its sign, and its product with a second as a
-- time.Duration.
pub data Timeout : Type 0 where
  below_zero at_zero : Timeout
  above_zero : ℤ → Timeout

-- How blockingPop starts: with an error, or with its keys and deadline.
pub data Start : Type 0 where
  refuses : Value → Start
  blocks_on : List Bytes → Option Time → Start

abbrev pub bad_timeout : Start
bad_timeout = refuses (error (codes "ERR timeout is not a float or out of range"))

abbrev pub start_with : Time → List Bytes → Option Timeout → Start
start_with now keys none = bad_timeout
start_with now keys (some below_zero) = bad_timeout
start_with now keys (some at_zero) = blocks_on keys none
start_with now keys (some (above_zero d)) = blocks_on keys (some (now +ℤ d))

-- The keys in front of the last argument, and that argument.
abbrev pub front : List Bytes → List Bytes
front [] = []
front (s ∷ []) = []
front (s ∷ t ∷ ss) = s ∷ front (t ∷ ss)

abbrev pub last : Bytes → List Bytes → Bytes
last s [] = s
last s (t ∷ ss) = last t ss

-- blockingPop up to its loop; `parse_float` is strconv.ParseFloat.
unfoldable pub start_pop : (Bytes → Option Timeout) → Time → List Value → Start
start_pop parse_float now (key ∷ arg ∷ args) =
    start_with now (front (texts (key ∷ arg ∷ args)))
      (parse_float (last (str key) (texts (arg ∷ args))))
start_pop parse_float now _ =
    refuses (error (codes "ERR wrong number of arguments for 'blpop' command"))

-- Where the client stands: before the loop over the keys, behind one that found nothing, in Cond.Wait, or
-- with its reply.
pub data Phase : Type 0 where
  trying missed waiting : Phase
  answered : Value → Phase

-- The database, the client, and the pushes that are still to signal.
pub record World : Type 0 where
  pub db : Database
  pub phase : Phase
  pub signals : ℕ

-- `listCond.Broadcast`
abbrev pub wake : Phase → Phase
wake waiting = trying
wake phase = phase

abbrev pub pair_reply : Bytes × Bytes → Value
pair_reply (key, value) = array (of_list (bulk_string key ∷ bulk_string value ∷ []))

abbrev pub after_pass : Option (Bytes × Bytes) → Phase
after_pass none = missed
after_pass (some popped) = answered (pair_reply popped)

-- `hasDeadline && time.Now().After(deadline)`
abbrev pub is_over : Time → Option Time → Bool
is_over now none = false
is_over now (some deadline) = ltb_ℤ deadline now

-- A step of the client, blocked on the keys with the deadline, or of the others.
pub data Step (pop : Pop) (keys : List Bytes) (deadline : Option Time)
    : World → World → Type 0 where
  passes :
      (now : Time) (db : Database) (signals : ℕ)
      → Step pop keys deadline
          (record { db = db; phase = trying; signals = signals })
          (record {
            db = (pop_first pop now keys db).0;
            phase = after_pass (pop_first pop now keys db).1;
            signals = signals;
          })
  times_out :
      (now : Time) (db : Database) (signals : ℕ)
      → is_over now deadline ≡ true
      → Step pop keys deadline
          (record { db = db; phase = missed; signals = signals })
          (record { db = db; phase = answered null; signals = signals })
  -- waitForListSignal, and its return at once when the deadline is there.
  waits :
      (now : Time) (db : Database) (signals : ℕ)
      → is_over now deadline ≡ false
      → Step pop keys deadline
          (record { db = db; phase = missed; signals = signals })
          (record { db = db; phase = waiting; signals = signals })
  returns :
      (db : Database) (exp : Time) (signals : ℕ)
      → deadline ≡ some exp
      → Step pop keys deadline
          (record { db = db; phase = missed; signals = signals })
          (record { db = db; phase = trying; signals = signals })
  -- The timer's broadcast.
  timer :
      (w : World) (exp : Time)
      → deadline ≡ some exp
      → Step pop keys deadline w (record w { phase = wake w.phase })
  -- Another client changes the database, and the signal of a push is still to come.
  changes : (w : World) (db : Database) → Step pop keys deadline w (record w { db = db })
  pushes :
      (w : World) (db : Database)
      → Step pop keys deadline w (record w { db = db; signals = w.signals + 1 })
  -- signalListPush
  signals :
      (w : World) (n : ℕ)
      → w.signals ≡ suc n
      → Step pop keys deadline w (record w { phase = wake w.phase; signals = n })
