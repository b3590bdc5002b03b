-- ===== src/Commands/Blocking/Wakes.antt =====
-- blockingPop of pkg/commands/list_commands.go: a pass over its keys, its replay, its replies, and the
-- signals that reach it.
use shoredb.Base.{
  ◌≡◌, refl, sym, ap, ◌∙◌, inl, inr, true, false, Option, none, some, List, [], ◌∷◌, arith, Bytes,
  str_eq, str_eq_iff, leb, Bool-cases, is_some, length,
}
use shoredb.Resp.{Value, str}
use shoredb.Datastruct.Lists.{Items}
use shoredb.Commands.{texts}
use shoredb.Commands.Blocking.{
  Pop, popped_or, found_or, pop_first, front, trying, waiting, World, Step, passes, times_out,
  waits, returns, timer, changes, pushes, signals,
}
use shoredb.Server.Replay.{pop_or, pop_found_or, replay_list_pop, without_last, replay_blocking_pop}
use shoredb.Base.Dict.{lookup, lookup-erase}
use shoredb.Datastruct.Sets.Counts.{among}
use shoredb.Database.{Time, Database, get_list, expire_if_needed, is_due}

-- Sequences of steps.
pub data Steps (pop : Pop) (keys : List Bytes) (deadline : Option Time)
    : World → World → Type 0 where
  done : (w : World) → Steps pop keys deadline w w
  after :
      {w w' w'' : World}
      → Step pop keys deadline w w'
      → Steps pop keys deadline w' w''
      → Steps pop keys deadline w w''

same_pop :
    (pop : Pop) (key : Bytes) (db others : Database) (more : Database × Option (Bytes × Bytes))
    (found : Option Items)
    → others ≡ more.0
    → pop_found_or pop key db others found ≡ (found_or pop key db more found).0
same_pop pop key db others more none e = e
same_pop pop key db others more (some list) e = go (pop list)
  where
    go : (r : Items × Option Bytes) → pop_or key db others r ≡ (popped_or key db more r).0
    go (items, none) = e
    go (items, some value) = refl

replay_list_pop-pop_first :
    (pop : Pop) (now : Time) (keys : List Bytes) (db : Database)
    → replay_list_pop pop now keys db ≡ (pop_first pop now keys db).0
unfolding replay_list_pop pop_first
replay_list_pop-pop_first pop now [] db = refl
replay_list_pop-pop_first pop now (key ∷ keys) db =
    let (db', found) = get_list now key db in
    same_pop pop key db' (replay_list_pop pop now keys db') (pop_first pop now keys db') found
      (replay_list_pop-pop_first pop now keys db')

texts-without_last : (args : List Value) → texts (without_last args) ≡ front (texts args)
texts-without_last [] = refl
texts-without_last (arg ∷ []) = refl
texts-without_last (arg ∷ next ∷ args) = ap (◌∷◌ (str arg)) (texts-without_last (next ∷ args))

-- A BLPOP or BRPOP of the log, with a key at least, does to a database what a pass of the blocked pop over
-- its keys does at the same time: the two pop the same value, or none.
pub replay_blocking_pop-pop_first :
    (pop : Pop) (now : Time) (key timeout : Value) (args : List Value) (db : Database)
    → replay_blocking_pop pop now (key ∷ timeout ∷ args) db
      ≡ (pop_first pop now (front (texts (key ∷ timeout ∷ args))) db).0
unfolding replay_blocking_pop
replay_blocking_pop-pop_first pop now key timeout args db =
    let enough : leb 2 (length (key ∷ timeout ∷ args)) ≡ true = ground arith in
    rw (enough, sym (texts-without_last (key ∷ timeout ∷ args)))
      (replay_list_pop-pop_first pop now (texts (without_last (key ∷ timeout ∷ args))) db)

-- With no signal still to come, a step of anybody leaves a client that sleeps without a deadline asleep.
sleeps_on :
    (pop : Pop) (keys : List Bytes) (w w' : World)
    → w.phase ≡ waiting
    → w.signals ≡ 0
    → Step pop keys none w w'
    → w'.phase ≡ waiting
sleeps_on pop keys w w' h z (passes now db n) = absurd (ground (arith, h))
sleeps_on pop keys w w' h z (times_out now db n e) = absurd (ground (arith, e))
sleeps_on pop keys w w' h z (waits now db n e) = refl
sleeps_on pop keys w w' h z (returns db exp n e) = absurd (ground (arith, e))
sleeps_on pop keys w w' h z (timer _ exp e) = absurd (ground (arith, e))
sleeps_on pop keys w w' h z (changes _ db) = h
sleeps_on pop keys w w' h z (pushes _ db) = h
sleeps_on pop keys w w' h z (signals _ n e) = absurd (ground (arith, z, e))

-- A pass over the keys found nothing; another client pushes and signals before this one is in Cond.Wait; it
-- then waits all the same, without a deadline, and the next step of anybody leaves it waiting, whatever was
-- pushed.
pub signal_lost :
    (pop : Pop) (keys : List Bytes) (now : Time) (db pushed : Database) (w : World)
    → (pop_first pop now keys db).1 ≡ none
    → Step pop keys none (record { db = pushed; phase = waiting; signals = 0 }) w
    → Steps pop keys none
        (record { db = db; phase = trying; signals = 0 })
        (record { db = pushed; phase = waiting; signals = 0 })
      × (w.phase ≡ waiting)
signal_lost pop keys now db pushed w e step = (
  after (passes now db 0) (
      after (pushes _ pushed)
        (after (signals _ 0 refl) (rw e (after (waits now pushed 0 refl) (done _))))),
  sleeps_on pop keys _ w refl refl step,
)

other_key_kept :
    (now : Time) (key other : Bytes) (db : Database)
    → is_due now (lookup key db.expires) ≡ false
    → (lookup key (expire_if_needed now other db).lists ≡ lookup key db.lists)
      × (lookup key (expire_if_needed now other db).expires ≡ lookup key db.expires)
unfolding expire_if_needed
other_key_kept now key other db h = elim (Bool-cases (is_due now (lookup other db.expires))) [
  | inl due ↦ elim (Bool-cases (str_eq other key)) [
    | inl same ↦ absurd (
        ground (
          arith,
          due,
          h,
          ap (λ k. is_due now (lookup k db.expires)) ((str_eq_iff other key).0 same),
        ))
    | inr apart ↦
        rw (due, lookup-erase other key db.lists, lookup-erase other key db.expires, apart)
          (refl, refl)
  ]
  | inr live ↦ rw live (refl, refl)
]

found_here :
    (pop : Pop) (key : Bytes) (db : Database) (more : Database × Option (Bytes × Bytes))
    (found : Option Items)
    → is_some more.1 ≡ true
    → is_some (found_or pop key db more found).1 ≡ true
found_here pop key db more none h = h
found_here pop key db more (some list) h = go (pop list)
  where
    go : (r : Items × Option Bytes) → is_some (popped_or key db more r).1 ≡ true
    go (items, none) = h
    go (items, some value) = refl

pop_now :
    (pop : Pop) (key : Bytes) (db : Database) (more : Database × Option (Bytes × Bytes))
    (list : Items)
    → is_some (pop list).1 ≡ true
    → is_some (found_or pop key db more (some list)).1 ≡ true
pop_now pop key db more list h = go (pop list) h
  where
    go :
        (r : Items × Option Bytes) → is_some r.1 ≡ true → is_some (popped_or key db more r).1 ≡ true
    go (items, none) e = absurd (ground (arith, e))
    go (items, some value) e = refl

-- A pass pops a value if one of its keys, whose deadline is not there, has a list that the pop takes a value
-- from.
pub pop_first_finds :
    (pop : Pop) (now : Time) (keys : List Bytes) (key : Bytes) (list : Items) (db : Database)
    → among key keys ≡ true
    → lookup key db.lists ≡ some list
    → is_due now (lookup key db.expires) ≡ false
    → is_some (pop list).1 ≡ true
    → is_some (pop_first pop now keys db).1 ≡ true
unfolding pop_first get_list
pop_first_finds pop now [] key list db m e live h = absurd (ground (arith, m))
pop_first_finds pop now (k ∷ keys) key list db m e live h =
    let db' = expire_if_needed now k db in
    let kept = other_key_kept now key k db live in
    elim (Bool-cases (str_eq k key)) [
      | inl same ↦
          rw (ap (λ j. lookup j db'.lists) ((str_eq_iff k key).0 same) ∙ kept.0 ∙ e)
            (pop_now pop k db' (pop_first pop now keys db') list h)
      | inr apart ↦ found_here pop k db' (pop_first pop now keys db') (lookup k db'.lists) (
          pop_first_finds pop now keys key list db' (ground (arith, m, apart)) (kept.0 ∙ e)
            (ap (is_due now) kept.1 ∙ live) h)
    ]
