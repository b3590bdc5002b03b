-- ===== src/Shoredis.antt =====
-- pkg/shoredis/shoredis.go: the commands of a server without a connection. A client is its database's number
-- with the server's databases and snapshot. Do and Select stand here; the typed methods call Do.
pub mod Embedding
use shoredb.Base.{
  ℕ, zero, suc, ◌+◌, ◌-◌, ◌*◌, ◌/◌, ◌%◌, ◌^◌, ◌≤◌, ◌<◌, ◌≡◌, refl, sym, ap, ◌∙◌, ◌≢◌, ◌↔◌, ◌⊎◌, inl,
  inr, Bool, true, false, not, ◌&&◌, ◌||◌, Option, none, some, List, [], ◌∷◌, ◌++◌, map, append-nil,
  append_assoc, arith, Bytes, codes, str_eq, str_eq_iff, str_eq_refl, ltb, leb, ◌==◌, ==_iff,
  if◌then◌else◌, Bool-cases, Option-cases, is_some, length, get_elem?, take, drop, length-append,
}
use shoredb.Base.{set}
use shoredb.Base.Int.{ℤ, pos, negsuc}
use shoredb.Resp.{Value, simple_error, integer, array, null, bulk_string, to_list, str}
use shoredb.Database.{Database, Databases, num_databases, db_at}
use shoredb.Commands.{Env, Handler}
use shoredb.Server.Process.{
  Server, Outcome, replied, blocks, panicked, command_handlers, find_handler, publish_cmd, save,
  bgsave, lastsave,
}

-- normalizeCmd
unfoldable pub normalize_cmd : Bytes → Bytes
normalize_cmd [] = []
normalize_cmd (b ∷ s) = (if leb b'a' b && leb b b'z' then b - 32 else b) ∷ normalize_cmd s

abbrev pub do_handler : Env → Handler → List Value → ℕ → Server → Option Database → Outcome
do_handler env handler args index server none = panicked
do_handler env handler args index server (some db) =
    let (db', response) = handler env args db in
    replied (record server { databases = set server.databases index db' }) response

abbrev pub do_found : Env → Option Handler → List Value → ℕ → Server → Option Outcome
do_found env none args index server = none
do_found env (some handler) args index server =
    some (do_handler env handler args index server (db_at server.databases index))

abbrev pub do_values :
    (Bytes → Bytes → Bool) → Env → Bytes → List Value → ℕ → Server → Option Outcome
do_values matches env cmd args index server =
    if str_eq cmd (codes "SAVE")
    then some (save server)
    else if str_eq cmd (codes "BGSAVE")
    then some (bgsave server)
    else if str_eq cmd (codes "LASTSAVE")
    then some (lastsave server server.rdb)
    else if str_eq cmd (codes "PUBLISH")
    then some (publish_cmd args server)
    else if str_eq cmd (codes "BLPOP")
    then some (blocks true args)
    else if str_eq cmd (codes "BRPOP")
    then some (blocks false args)
    else do_found env (find_handler cmd (command_handlers matches)) args index server

-- Client.Do: `none` stands for the error of a command that is not known.
unfoldable pub do_cmd :
    (Bytes → Bytes → Bool) → Env → Bytes → List Bytes → ℕ → Server → Option Outcome
unfolding normalize_cmd
do_cmd matches env cmd args index server =
    do_values matches env (normalize_cmd cmd) (map bulk_string args) index server

-- Client.Select: the number, and whether there was an error.
abbrev pub select : ℤ → ℕ → ℕ × Bool
select (negsuc n) current = (current, true)
select (pos index) current = if leb num_databases index then (current, true) else (index, false)
