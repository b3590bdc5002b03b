-- ===== src/Tests/Blocking.antt =====
-- Runs of the blocking pops.
use shoredb.Base.{◌≡◌, refl, true, none, [], ◌∷◌, Bytes, codes, is_some, str_eq}
use shoredb.Base.Dict.{lookup}
use shoredb.Base.Int.{pos}
use shoredb.Resp.{Value, bulk_string}
use shoredb.Datastruct.Lists.{l_pop, r_pop}
use shoredb.Database.{new_database, get_list}
use shoredb.Commands.{texts}
use shoredb.Commands.Blocking.{pop_first, front, waiting, trying, World, changes, after_pass}
use shoredb.Commands.Blocking.Wakes.{
  Steps, replay_blocking_pop-pop_first, signal_lost, pop_first_finds,
}
use shoredb.Commands.Blocking.Answers.{has_answer}
use shoredb.Server.Replay.{replay_blocking_pop}
use shoredb.Tests.Snapshot.{busy}

abbrev l : Bytes
l = codes "l"

abbrev no_timeout : Value
no_timeout = bulk_string (codes "0")

replay_blocking_pop-pop_first_example :
    replay_blocking_pop r_pop (pos 3) (bulk_string l ∷ no_timeout ∷ []) busy
    ≡ (pop_first r_pop (pos 3) (front (texts (bulk_string l ∷ no_timeout ∷ []))) busy).0
replay_blocking_pop-pop_first_example =
    replay_blocking_pop-pop_first r_pop (pos 3) (bulk_string l) no_timeout [] busy

abbrev before_pass : World
before_pass = record { db = busy; phase = trying; signals = 0 }

abbrev after_it : World
after_it = record {
  db = (pop_first l_pop (pos 3) (l ∷ []) busy).0;
  phase = after_pass (pop_first l_pop (pos 3) (l ∷ []) busy).1;
  signals = 0;
}

-- The client is answered.
after_it-has_answer : has_answer after_it.phase ≡ true
unfolding pop_first get_list lookup str_eq l_pop
after_it-has_answer = refl

abbrev emptied : World
emptied = record { db = new_database; phase = waiting; signals = 0 }

-- The list of `busy` is pushed behind the pass over a database without it.
signal_lost_example :
    Steps l_pop
      (l ∷ [])
      none
      (record { db = new_database; phase = trying; signals = 0 })
      (record { db = busy; phase = waiting; signals = 0 })
    × (emptied.phase ≡ waiting)
signal_lost_example =
    signal_lost l_pop (l ∷ []) (pos 3) new_database busy emptied
      (unfold pop_first get_list lookup in refl)
      (changes (record { db = busy; phase = waiting; signals = 0 }) new_database)

pop_first_finds_example : is_some (pop_first r_pop (pos 3) (codes "k" ∷ l ∷ []) busy).1 ≡ true
pop_first_finds_example =
    pop_first_finds r_pop (pos 3) (codes "k" ∷ l ∷ []) l (codes "x" ∷ codes "y" ∷ codes "x" ∷ [])
      busy (unfold str_eq in refl) (unfold lookup str_eq in refl) (unfold lookup str_eq in refl)
      (unfold r_pop in refl)
