-- ===== src/Server/Session.antt =====
-- Sequences of logged commands, as processCommand runs them, and the restart behind them.
use shoredb.Base.{
  ℕ, ◌<◌, ◌≡◌, refl, Bool, true, false, Option, none, some, List, [], ◌∷◌, Bytes, str_eq,
}
use shoredb.Base.Int.{pos}
use shoredb.Resp.{Value}
use shoredb.Resp.RoundTrip.{IsWire}
use shoredb.Database.{Time, Databases, num_databases, db_at}
use shoredb.Commands.{Env}
use shoredb.Config.{Config}
use shoredb.Aof.{Aof, is_select_entry, equal_fold}
use shoredb.Server.{should_persist}
use shoredb.Server.Replay.Handlers.{
  Logged, set_value, push_left, push_right, pop_left, pop_right, add_members, remove_members,
  set_field, delete_fields, delete_keys, name_of, handler_of, args_of, entry_of,
}
use shoredb.Server.Process.{
  Server, Outcome, replied, blocks, panicked, run_handler, process_at, process_command,
}
use shoredb.Server.Start.{new_server}

-- A logged command on a key of a database, with what its handler takes from outside.
pub record Sent : Type 0 where
  pub env : Env
  pub index : ℕ
  pub key : Bytes
  pub command : Logged

abbrev pub entry : Sent → Value
entry sent = entry_of sent.key sent.command

abbrev pub process_sent : (Bytes → Bytes → Bool) → Sent → Server → Outcome
process_sent matches sent server =
    process_command matches sent.env (name_of sent.command) (args_of sent.key sent.command)
      (entry sent) (pos sent.index) server

-- The server after the commands, if each was answered.
abbrev pub process_all : (Bytes → Bytes → Bool) → List Sent → Server → Option Server
process_all matches [] server = some server
process_all matches (sent ∷ session) server = elim (process_sent matches sent server) [
  | replied server' response ↦ process_all matches session server'
  | blocks left args ↦ none
  | panicked ↦ none
]

abbrev pub databases_of : Option Server → Option Databases
databases_of none = none
databases_of (some server) = some server.databases

abbrev pub log_file : Option Aof → Option Bytes
log_file none = none
log_file (some aof) = some aof.file

-- The databases of a server that starts on the log that another has left.
abbrev pub restart : Config → Time → (ℕ → Env) → Option Bytes → Option Server → Option Databases
restart config now envs rdb_file none = none
restart config now envs rdb_file (some server) =
    databases_of (new_server config now envs (log_file server.aof) rdb_file)

-- The commands are on databases that there are, and the protocol can carry them.
abbrev pub AreSent : List Sent → Type 0
AreSent [] = Unit
AreSent (sent ∷ session) = ((sent.index < num_databases) × IsWire (entry sent)) × AreSent session

del_is_no_select :
    (key : Bytes) (keys : List Bytes) → is_select_entry (entry_of key (delete_keys keys)) ≡ false
unfolding is_select_entry equal_fold str_eq
del_is_no_select key [] = refl
del_is_no_select key (k ∷ keys) = refl

pub entry_is_no_select : (sent : Sent) → is_select_entry (entry sent) ≡ false
unfolding is_select_entry equal_fold str_eq
entry_is_no_select sent =
    elim sent.command as (λ c. is_select_entry (entry_of sent.key c) ≡ false) [
      | set_value value ↦ refl
      | push_left value values ↦ refl
      | push_right value values ↦ refl
      | pop_left ↦ refl
      | pop_right ↦ refl
      | add_members member members ↦ refl
      | remove_members member members ↦ refl
      | set_field field value ↦ refl
      | delete_fields field fields ↦ refl
      | delete_keys keys ↦ del_is_no_select sent.key keys
    ]

pub logged-persists : (command : Logged) → should_persist (name_of command) ≡ true
unfolding should_persist str_eq
logged-persists (set_value value) = refl
logged-persists (push_left value values) = refl
logged-persists (push_right value values) = refl
logged-persists pop_left = refl
logged-persists pop_right = refl
logged-persists (add_members member members) = refl
logged-persists (remove_members member members) = refl
logged-persists (set_field field value) = refl
logged-persists (delete_fields field fields) = refl
logged-persists (delete_keys keys) = refl

-- The table gives a logged command its handler.
pub process-logged :
    (matches : Bytes → Bytes → Bool) (command : Logged) (env : Env) (args : List Value) (v : Value)
    (index : ℕ) (server : Server)
    → process_at matches env (name_of command) args v index server
      ≡ run_handler env
          (handler_of command)
          (name_of command)
          args
          v
          index
          server
          (db_at server.databases index)
unfolding process_at str_eq
process-logged matches (set_value value) env args v index server = refl
process-logged matches (push_left value values) env args v index server = refl
process-logged matches (push_right value values) env args v index server = refl
process-logged matches pop_left env args v index server = refl
process-logged matches pop_right env args v index server = refl
process-logged matches (add_members member members) env args v index server = refl
process-logged matches (remove_members member members) env args v index server = refl
process-logged matches (set_field field value) env args v index server = refl
process-logged matches (delete_fields field fields) env args v index server = refl
process-logged matches (delete_keys keys) env args v index server = refl
