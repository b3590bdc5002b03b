-- ===== src/Server/Recovery.antt =====
-- A start of the server from its log or its snapshot: New of pkg/server/server.go behind sequences of
-- commands.
use shoredb.Base.{
  ℕ, ◌≡◌, refl, Bool, true, false, Option, none, some, List, map, Bytes, codes, str_eq, is_some,
  length,
}
use shoredb.Resp.{Value}
use shoredb.Database.{Time, Databases, num_databases, new_databases}
use shoredb.Commands.{Env}
use shoredb.Config.{Config}
use shoredb.Pubsub.{new_pubsub}
use shoredb.Aof.{new_aof}
use shoredb.Aof.RoundTrip.{write_entries, read_entries-write_entries}
use shoredb.Base.Int.{pos}
use shoredb.Rdb.Sections.{AllFit}
use shoredb.Rdb.Restore.{Storable, without_deadlines}
use shoredb.Rdb.RoundTrip.{load_rdb-save_rdb}
use shoredb.Server.Process.{
  Server, Snapshot, Outcome, replied, blocks, panicked, process_at, process_command,
}
use shoredb.Server.Start.{replay_log, new_server}
use shoredb.Server.Session.{Sent, process_all, databases_of, restart, AreSent}
use shoredb.Server.Runs.{
  entries_of, run_all, server_with, entries_of-AreEntries, process_all-runs, replay_calls-runs,
}

-- A server on an empty log, with any snapshot.
abbrev pub fresh_server : Option Snapshot → Server
fresh_server rdb = server_with new_databases new_pubsub new_aof rdb

log_read :
    (envs : ℕ → Env) (session : List Sent)
    → AreSent session
    → replay_log envs (write_entries (entries_of session) new_aof).file new_databases
      ≡ some (run_all session new_databases)
unfolding replay_log
log_read envs session ok =
    rw
      (
        replay_log,
        read_entries-write_entries (entries_of session) (entries_of-AreEntries session ok),
        replay_calls-runs envs 0 session new_databases refl
            (
              refl,
              (
                refl,
                (
                  refl,
                  (
                    refl,
                    (
                      refl,
                      (
                        refl,
                        (
                          refl,
                          (
                            refl,
                            (refl, (refl, (refl, (refl, (refl, (refl, (refl, (refl, tt)))))))),
                          ),
                        ),
                      ),
                    ),
                  ),
                ),
              ),
            )
            ok,
      )
      refl

log_restarts :
    (config : Config) (now : Time) (envs : ℕ → Env) (rdb_file : Option Bytes) (file : Bytes)
    (dbs : Databases)
    → config.aof_enabled ≡ true
    → replay_log envs file new_databases ≡ some dbs
    → databases_of (new_server config now envs (some file) rdb_file) ≡ some dbs
unfolding new_server
log_restarts config now envs rdb_file file dbs on replayed = rw (on, replayed) refl

-- SET, LPUSH, RPUSH, LPOP, RPOP, SADD, SREM, HSET, HDEL and DEL, any sequence of them with the protocol's
-- sizes on the sixteen databases, run by processCommand on a server with an empty log: every command is
-- answered, and a server that starts later with the log switched on, at any times of its clock and with
-- any snapshot there, has the same databases.
pub restart_recovers :
    (matches : Bytes → Bytes → Bool) (session : List Sent) (rdb : Option Snapshot) (config : Config)
    (later : Time) (envs : ℕ → Env) (rdb_file : Option Bytes)
    → AreSent session
    → config.aof_enabled ≡ true
    → (is_some (process_all matches session (fresh_server rdb)) ≡ true)
      × (restart config later envs rdb_file (process_all matches session (fresh_server rdb))
          ≡ databases_of (process_all matches session (fresh_server rdb)))
restart_recovers matches session rdb config later envs rdb_file ok on =
    rw (process_all-runs matches session new_databases new_pubsub new_aof rdb refl ok) (
      refl,
      log_restarts config later envs rdb_file (write_entries (entries_of session) new_aof).file
          (run_all session new_databases) on (log_read envs session ok),
    )

abbrev snapshot_file : Option Snapshot → Option Bytes
snapshot_file none = none
snapshot_file (some rdb) = rdb.disk

-- The databases of a server that starts on the snapshot that a command has left.
abbrev pub restart_saved : Config → Time → (ℕ → Env) → Outcome → Option Databases
restart_saved config now envs (replied server response) =
    databases_of (new_server config now envs none (snapshot_file server.rdb))
restart_saved config now envs (blocks left args) = none
restart_saved config now envs panicked = none

-- SAVE on a server whose databases are Storable, whatever its log, and with a snapshot configured: a server
-- that starts later without a log has the same databases, but for their deadlines, which are lost.
pub save_restores :
    (matches : Bytes → Bytes → Bool) (env : Env) (args : List Value) (original : Value) (index : ℕ)
    (server : Server) (rdb : Snapshot) (config : Config) (later : Time) (envs : ℕ → Env)
    → length server.databases ≡ num_databases
    → AllFit Storable server.databases
    → server.rdb ≡ some rdb
    → config.aof_enabled ≡ false
    → restart_saved config later envs
        (process_command matches env (codes "SAVE") args original (pos index) server)
      ≡ some (map without_deadlines server.databases)
unfolding process_at new_server str_eq
save_restores matches env args original index server rdb config later envs count ok configured off =
    rw (configured, off, load_rdb-save_rdb later server.databases count ok) refl
