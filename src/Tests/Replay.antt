-- ===== src/Tests/Replay.antt =====
-- Runs of the replay.
use shoredb.Base.{◌≡◌, refl, [], ◌∷◌, arith, Bytes, codes, str_eq}
use shoredb.Base.Int.{pos, negsuc}
use shoredb.Strconv.{itoa}
use shoredb.Base.Dict.{lookup}
use shoredb.Resp.{bulk_string, array, of_list}
use shoredb.Database.{Database}
use shoredb.Commands.{Env}
use shoredb.Commands.Strings.{incrby}
use shoredb.Server.Replay.{replay_command}
use shoredb.Server.Replay.Handlers.{
  no_deadlines, pop_right, handler_of, args_of, entry_of, incrby_args, replay_command-handler,
  replay_command-incrby,
}

abbrev l : Bytes
l = codes "l"

abbrev n : Bytes
n = codes "n"

abbrev some_keys : Database
some_keys = record {
  store = (n, codes "41") ∷ [];
  lists = (l, codes "x" ∷ codes "y" ∷ []) ∷ [];
  sets = [];
  hashes = [];
  expires = [];
}

abbrev env : Env
env = record { now = pos 1_000; pick = 0 }

abbrev later : Env
later = record { now = pos 2_000; pick = 1 }

replay_command-handler_example :
    replay_command later (entry_of l pop_right) (no_deadlines some_keys)
    ≡ (handler_of pop_right env (args_of l pop_right) (no_deadlines some_keys)).0
replay_command-handler_example = replay_command-handler pop_right env later l some_keys

replay_command-incrby_example :
    replay_command later
      (array (of_list (bulk_string (codes "INCRBY") ∷ incrby_args n (negsuc 49))))
      (no_deadlines some_keys)
    ≡ (incrby env (incrby_args n (negsuc 49)) (no_deadlines some_keys)).0
replay_command-incrby_example =
    replay_command-incrby env later n (pos 41) (negsuc 49) some_keys (omega arith) (omega arith)
      (unfold lookup str_eq itoa in refl)
