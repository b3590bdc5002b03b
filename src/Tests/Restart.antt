-- ===== src/Tests/Restart.antt =====
-- Runs of the server with its files.
use shoredb.Base.{
  ◌≡◌, refl, Bool, true, false, none, some, List, [], ◌∷◌, map, arith, Bytes, codes, is_some,
}
use shoredb.Base.Int.{pos}
use shoredb.Resp.{array, nil}
use shoredb.Pubsub.{new_pubsub}
use shoredb.Config.{Config, new_config}
use shoredb.Commands.{Env}
use shoredb.Server.Replay.Handlers.{push_right, pop_left, set_field}
use shoredb.Server.Process.{Server, Snapshot, process_command}
use shoredb.Server.Session.{Sent, process_all, databases_of, restart}
use shoredb.Server.Recovery.{fresh_server, restart_saved, restart_recovers, save_restores}
use shoredb.Base.Int.{◌-ℤ◌}
use shoredb.Config.{RdbSnapshot}
use shoredb.Resp.{integer}
use shoredb.Rdb.{save_rdb}
use shoredb.Database.{new_databases}
use shoredb.Commands.Expire.{until}
use shoredb.Server.Process.{unix}
use shoredb.Server.Schedule.{tick, tick-tick, lastsave_after, lastsave-save}
use shoredb.Rdb.Restore.{without_deadlines}
use shoredb.Tests.Snapshot.{two_busy, two_busy-Storable}

abbrev pub matches : Bytes → Bytes → Bool
matches pattern key = false

abbrev pub env : Env
env = record { now = pos 1_000; pick = 0 }

abbrev session : List Sent
session =
    record {
      env = env;
      index = 0;
      key = codes "l";
      command = push_right (codes "x") (codes "y" ∷ []);
    }
    ∷ record { env = env; index = 3; key = codes "h"; command = set_field (codes "f") (codes "1") }
    ∷ record { env = env; index = 0; key = codes "l"; command = pop_left }
    ∷ []

abbrev logging : Config
logging = record new_config { aof_enabled = true }

restart_recovers_example :
    (is_some (process_all matches session (fresh_server none)) ≡ true)
    × (restart logging (pos 9) (λ n. env) none (process_all matches session (fresh_server none))
        ≡ databases_of (process_all matches session (fresh_server none)))
restart_recovers_example =
    restart_recovers matches session none logging (pos 9) (λ n. env) none
      (
        (
          omega arith,
          (omega arith, (omega arith, (omega arith, (omega arith, (omega arith, tt))))),
        ),
        (
          (
            omega arith,
            (omega arith, (omega arith, (omega arith, (omega arith, (omega arith, tt))))),
          ),
          ((omega arith, (omega arith, (omega arith, (omega arith, tt)))), tt),
        ),
      )
      refl

abbrev rdb : Snapshot
rdb = record { disk = none; changes = 5; last_save = pos 0 }

abbrev saving : Server
saving = record { databases = two_busy; pubsub = new_pubsub; aof = none; rdb = some rdb }

save_restores_example :
    restart_saved new_config
      (pos 9)
      (λ n. env)
      (process_command matches env (codes "SAVE") [] (array nil) (pos 0) saving)
    ≡ some (map without_deadlines two_busy)
save_restores_example =
    save_restores matches env [] (array nil) 0 saving rdb new_config (pos 9) (λ n. env) refl
      two_busy-Storable refl refl

abbrev rules : List RdbSnapshot
rules = record { secs = pos 60; keys_changed = pos 3 } ∷ []

tick-tick_example :
    tick (pos 200_000_000_000) rules new_databases (tick (pos 60_000_000_000) rules two_busy rdb)
    ≡ record { disk = some (save_rdb two_busy); changes = 0; last_save = pos 60_000_000_000 }
tick-tick_example =
    tick-tick (pos 60_000_000_000) (pos 200_000_000_000) rules two_busy new_databases rdb (refl, tt)
      (unfold until ◌-ℤ◌ in refl)

lastsave-save_example :
    lastsave_after matches env
      (process_command matches env (codes "SAVE") [] (array nil) (pos 0) saving)
    ≡ some (integer (unix (pos 0)))
lastsave-save_example = lastsave-save matches env env [] (array nil) saving rdb refl
