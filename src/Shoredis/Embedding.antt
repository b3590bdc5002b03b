-- ===== src/Shoredis/Embedding.antt =====
-- An embedded client's Do against the server's processCommand.
use shoredb.Base.{
  ℕ, ◌≡◌, refl, Bool, true, false, Option, none, some, List, map, arith, Bytes, codes, str_eq,
  if◌then◌else◌,
}
use shoredb.Resp.{Value, bulk_string}
use shoredb.Database.{Database, Databases, db_at}
use shoredb.Commands.{Env, Handler}
use shoredb.Server.Process.{
  Server, Outcome, replied, blocks, panicked, command_handlers, find_handler, run_handler,
  process_at, publish_cmd, save, bgsave, lastsave,
}
use shoredb.Shoredis.{normalize_cmd, do_handler, do_cmd}

-- What a client sees of a command: the databases that it leaves, and its reply.
abbrev pub seen : Outcome → Option (Databases × Value)
seen (replied server response) = some (server.databases, response)
seen (blocks left args) = none
seen panicked = none

abbrev pub seen_of : Option Outcome → Option (Databases × Value)
seen_of none = none
seen_of (some outcome) = seen outcome

persisted :
    (env : Env) (handler : Handler) (name : Bytes) (args : List Value) (original : Value)
    (index : ℕ) (server : Server) (found : Option Database)
    → seen (do_handler env handler args index server found)
      ≡ seen (run_handler env handler name args original index server found)
persisted env handler name args original index server none = refl
persisted env handler name args original index server (some db) = ground arith

branch :
    (b : Bool) (x y : Outcome) (y' : Option Outcome)
    → seen_of y' ≡ seen y
    → seen_of (if b then some x else y') ≡ seen (if b then x else y)
branch true x y y' h = refl
branch false x y y' h = h

-- Do of a command that has a handler leaves the databases and gives the reply that processCommand does on the
-- same server for the same command and arguments, whether that server writes a log or not.
pub do_cmd-process_at :
    (matches : Bytes → Bytes → Bool) (env : Env) (cmd : Bytes) (args : List Bytes)
    (original : Value) (index : ℕ) (server : Server) (handler : Handler)
    → find_handler (normalize_cmd cmd) (command_handlers matches) ≡ some handler
    → seen_of (do_cmd matches env cmd args index server)
      ≡ seen
          (process_at matches env (normalize_cmd cmd) (map bulk_string args) original index server)
unfolding do_cmd process_at
do_cmd-process_at matches env cmd args original index server handler h =
    let name = normalize_cmd cmd in
    let values = map bulk_string args in
    branch (str_eq name (codes "SAVE")) (save server) _ _ (
      branch (str_eq name (codes "BGSAVE")) (bgsave server) _ _ (
        branch (str_eq name (codes "LASTSAVE")) (lastsave server server.rdb) _ _ (
          branch (str_eq name (codes "PUBLISH")) (publish_cmd values server) _ _ (
            branch (str_eq name (codes "BLPOP")) (blocks true values) _ _ (
              branch (str_eq name (codes "BRPOP")) (blocks false values) _ _ (
                rw h (
                  persisted env handler name values original index server
                    (db_at server.databases index))))))))
