-- ===== src/Server/Start.antt =====
-- New of pkg/server/server.go: what a server that starts makes of its files.
use shoredb.Base.{ℕ, suc, Option, none, some, List, [], ◌∷◌, Bytes, if◌then◌else◌}
use shoredb.Base.{set}
use shoredb.Base.Int.{ℤ, pos, negsuc}
use shoredb.Resp.{Value}
use shoredb.Pubsub.{new_pubsub}
use shoredb.Config.{Config}
use shoredb.Aof.{Ending, complete, failed, panicked, ran_out, read_entries}
use shoredb.Rdb.Load.{LoadError, load_rdb}
use shoredb.Database.{Time, Databases, db_at, new_databases}
use shoredb.Commands.{Env}
use shoredb.Server.Replay.{replay_command}
use shoredb.Server.Process.{Server, Snapshot}

-- The function that New hands to Aof.Read, for each call in turn, the number of the call giving what it
-- takes from outside; `none` stands for the panic of an index out of range.
unfoldable pub replay_calls : (ℕ → Env) → ℕ → List (ℤ × Value) → Databases → Option Databases
unfolding replay_command
replay_calls envs n [] dbs = some dbs
replay_calls envs n ((pos index, value) ∷ calls) dbs = elim (db_at dbs index) [
  | none ↦ none
  | some db ↦ replay_calls envs (suc n) calls (set dbs index (replay_command (envs n) value db))
]
replay_calls envs n ((negsuc index, value) ∷ calls) dbs = none

-- Aof.Read, whose error New only reports; `none` stands for a panic.
abbrev pub replay_ending : Option Databases → Ending → Option Databases
replay_ending dbs complete = dbs
replay_ending dbs (failed e) = dbs
replay_ending dbs panicked = none
replay_ending dbs ran_out = none

unfoldable pub replay_log : (ℕ → Env) → Bytes → Databases → Option Databases
unfolding read_entries replay_calls
replay_log envs file dbs =
    let (calls, ending) = read_entries file in replay_ending (replay_calls envs 0 calls dbs) ending

-- The databases that NewRDB leaves, whether its Load gives an error or not.
abbrev pub loaded : Databases → Option (Databases × Option LoadError) → Databases
loaded dbs none = dbs
loaded dbs (some (dbs', result)) = dbs'

abbrev pub from_snapshot : Time → Option Bytes → Databases
from_snapshot now none = new_databases
from_snapshot now (some file) = loaded new_databases (load_rdb now file new_databases)

abbrev pub file_or_empty : Option Bytes → Bytes
file_or_empty none = []
file_or_empty (some file) = file

abbrev pub with_log : Snapshot → Bytes → Option Databases → Option Server
with_log rdb file none = none
with_log rdb file (some dbs) = some (record {
  databases = dbs;
  pubsub = new_pubsub;
  aof = some (record { file = file; last_db = negsuc 0 });
  rdb = some rdb;
})

-- New, with the settings, the time, the log's file and the snapshot's, each `none` if it is not there.
unfoldable pub new_server : Config → Time → (ℕ → Env) → Option Bytes → Option Bytes → Option Server
unfolding replay_log load_rdb
new_server config now envs aof_file rdb_file =
    let rdb : Snapshot = record { disk = rdb_file; changes = 0; last_save = now } in
    let log = file_or_empty aof_file in
    if config.aof_enabled
    then with_log rdb log (replay_log envs log new_databases)
    else some (record {
      databases = from_snapshot now rdb_file;
      pubsub = new_pubsub;
      aof = none;
      rdb = some rdb;
    })
