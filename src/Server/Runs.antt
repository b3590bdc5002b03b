-- ===== src/Server/Runs.antt =====
-- Logged commands, as processCommand runs them and as a replay applies them.
use shoredb.Base.{
  ℕ, zero, suc, ◌<◌, ◌≡◌, refl, sym, ap, ◌∙◌, Bool, Option, some, List, [], ◌∷◌, arith, Bytes,
  length, get_elem?,
}
use shoredb.Base.{set, length-set}
use shoredb.Base.Int.{pos}
use shoredb.Resp.{Value}
use shoredb.Database.{Database, Databases, num_databases, new_database}
use shoredb.Commands.{Env}
use shoredb.Pubsub.{PubSub}
use shoredb.Aof.{Aof, write_entry}
use shoredb.Aof.RoundTrip.{write_entries, AreEntries, calls_of}
use shoredb.Server.Replay.Handlers.{handler_of, args_of, no_deadlines, replay_command-handler}
use shoredb.Server.Logged.{handler-expires, handler-answers}
use shoredb.Server.Process.{Server, Snapshot, replied, count_change}
use shoredb.Server.Start.{replay_calls}
use shoredb.Server.Session.{
  Sent, entry, process_sent, process_all, AreSent, entry_is_no_select, logged-persists,
  process-logged,
}

-- No database has a deadline.
abbrev pub AreUndated : Databases → Type 0
AreUndated [] = Unit
AreUndated (db ∷ dbs) = (db.expires ≡ []) × AreUndated dbs

abbrev nth : Databases → ℕ → Database
nth [] i = new_database
nth (db ∷ dbs) zero = db
nth (db ∷ dbs) (suc i) = nth dbs i

get_elem?-nth : (dbs : Databases) (i : ℕ) → i < length dbs → get_elem? dbs i ≡ some (nth dbs i)
get_elem?-nth [] i h = absurd (omega arith)
get_elem?-nth (db ∷ dbs) zero h = refl
get_elem?-nth (db ∷ dbs) (suc i) h = get_elem?-nth dbs i (omega arith)

nth-expires : (dbs : Databases) (i : ℕ) → AreUndated dbs → (nth dbs i).expires ≡ []
nth-expires [] i h = refl
nth-expires (db ∷ dbs) zero (here, more) = here
nth-expires (db ∷ dbs) (suc i) (here, more) = nth-expires dbs i more

set-AreUndated :
    (dbs : Databases) (i : ℕ) (db : Database)
    → AreUndated dbs
    → db.expires ≡ []
    → AreUndated (set dbs i db)
set-AreUndated [] i db h e = tt
set-AreUndated (d ∷ dbs) zero db (here, more) e = (e, more)
set-AreUndated (d ∷ dbs) (suc i) db (here, more) e = (here, set-AreUndated dbs i db more e)

no_deadlines_same : (db : Database) → db.expires ≡ [] → no_deadlines db ≡ db
no_deadlines_same db e = ap (λ x. record db { expires = x }) (sym e)

-- The database that a command leaves, and the databases.
abbrev handled : Sent → Database → Database
handled sent db = (handler_of sent.command sent.env (args_of sent.key sent.command) db).0

abbrev handled_at : Sent → Databases → Databases
handled_at sent dbs = set dbs sent.index (handled sent (nth dbs sent.index))

abbrev pub run_all : List Sent → Databases → Databases
run_all [] dbs = dbs
run_all (sent ∷ session) dbs = run_all session (handled_at sent dbs)

handled-expires : (sent : Sent) (db : Database) → db.expires ≡ [] → (handled sent db).expires ≡ []
handled-expires sent db e =
    ap (λ d. (handled sent d).expires) (sym (no_deadlines_same db e))
    ∙ handler-expires sent.command sent.env sent.key db

handled_at-AreUndated :
    (sent : Sent) (dbs : Databases) → AreUndated dbs → AreUndated (handled_at sent dbs)
handled_at-AreUndated sent dbs h =
    set-AreUndated dbs sent.index (handled sent (nth dbs sent.index)) h
      (handled-expires sent (nth dbs sent.index) (nth-expires dbs sent.index h))

abbrev pub entries_of : List Sent → List (ℕ × Value)
entries_of [] = []
entries_of (sent ∷ session) = (sent.index, entry sent) ∷ entries_of session

abbrev pub counted : List Sent → Option Snapshot → Option Snapshot
counted [] rdb = rdb
counted (sent ∷ session) rdb = counted session (count_change rdb)

pub entries_of-AreEntries :
    (session : List Sent) → AreSent session → AreEntries (entries_of session)
entries_of-AreEntries [] h = tt
entries_of-AreEntries (sent ∷ session) ((on, wire), more) =
    ((omega arith, wire, entry_is_no_select sent), entries_of-AreEntries session more)

abbrev pub server_with : Databases → PubSub → Aof → Option Snapshot → Server
server_with dbs pubsub aof rdb = record {
  databases = dbs;
  pubsub = pubsub;
  aof = some aof;
  rdb = rdb;
}

process_sent-replies :
    (matches : Bytes → Bytes → Bool) (sent : Sent) (dbs : Databases) (pubsub : PubSub) (aof : Aof)
    (rdb : Option Snapshot)
    → sent.index < length dbs
    → process_sent matches sent (server_with dbs pubsub aof rdb)
      ≡ replied
          (server_with
            (handled_at sent dbs)
            pubsub
            (write_entry (pos sent.index) (entry sent) aof)
            (count_change rdb))
          (handler_of sent.command sent.env (args_of sent.key sent.command) (nth dbs sent.index)).1
process_sent-replies matches sent dbs pubsub aof rdb h =
    process-logged matches sent.command sent.env (args_of sent.key sent.command) (entry sent)
      sent.index (server_with dbs pubsub aof rdb)
    ∙ rw
        (
          get_elem?-nth dbs sent.index h,
          handler-answers sent.command sent.env sent.key (nth dbs sent.index),
          logged-persists sent.command,
        )
        refl

pub process_all-runs :
    (matches : Bytes → Bytes → Bool) (session : List Sent) (dbs : Databases) (pubsub : PubSub)
    (aof : Aof) (rdb : Option Snapshot)
    → length dbs ≡ num_databases
    → AreSent session
    → process_all matches session (server_with dbs pubsub aof rdb)
      ≡ some (
          server_with
            (run_all session dbs)
            pubsub
            (write_entries (entries_of session) aof)
            (counted session rdb))
process_all-runs matches [] dbs pubsub aof rdb h ok = refl
process_all-runs matches (sent ∷ session) dbs pubsub aof rdb h ((on, wire), more) =
    rw (process_all, process_sent-replies matches sent dbs pubsub aof rdb (omega arith))
      (process_all-runs matches session (handled_at sent dbs) pubsub
        (write_entry (pos sent.index) (entry sent) aof) (count_change rdb)
        (length-set dbs sent.index _ ∙ h) more)

pub replay_calls-runs :
    (envs : ℕ → Env) (n : ℕ) (session : List Sent) (dbs : Databases)
    → length dbs ≡ num_databases
    → AreUndated dbs
    → AreSent session
    → replay_calls envs n (calls_of (entries_of session)) dbs ≡ some (run_all session dbs)
unfolding replay_calls
replay_calls-runs envs n [] dbs h undated ok = refl
replay_calls-runs envs n (sent ∷ session) dbs h undated ((on, wire), more) =
    let db = nth dbs sent.index in
    let same = no_deadlines_same db (nth-expires dbs sent.index undated) in
    let replayed = replay_command-handler sent.command sent.env (envs n) sent.key db in
    rw (replay_calls, get_elem?-nth dbs sent.index (omega arith), (rw same at replayed))
      (replay_calls-runs envs (suc n) session (handled_at sent dbs)
        (length-set dbs sent.index _ ∙ h) (handled_at-AreUndated sent dbs undated) more)
