-- ===== src/Server/Process.antt =====
-- processCommand of pkg/server/tcp.go, over the tables of pkg/commands/handler.go.
-- BLPOP and BRPOP are handed on to Commands/Blocking.
use shoredb.Base.{
  ℕ, ◌+◌, ◌/◌, Bool, true, false, not, ◌&&◌, Option, none, some, List, [], ◌∷◌, ◌++◌, Bytes, codes,
  str_eq, if◌then◌else◌,
}
use shoredb.Base.{set}
use shoredb.Base.Int.{ℤ, pos, negsuc}
use shoredb.Resp.{Value, simple_string, simple_error, integer, str}
use shoredb.Aof.{Aof, write_entry}
use shoredb.Rdb.{save_rdb}
use shoredb.Pubsub.{PubSub, publish}
use shoredb.Database.{Time, Database, Databases, db_at}
use shoredb.Commands.{Env, Handler, error, wrong_number, ok_reply, number_reply}
use shoredb.Commands.Strings
use shoredb.Commands.Strings.{
  ping, get, del, exists, mset, mget, type_cmd, incr, decr, decrby, incrby,
}
use shoredb.Commands.Lists.{lpush, rpush, lpop, rpop, lrange, llen, lindex, lset, lrem}
use shoredb.Commands.Sets.{sadd, srem, sismember, smembers, scard, spop, sinter, sunion, sdiff}
use shoredb.Commands.Hashes.{
  hset, hget, hdel, hexists, hgetall, hkeys, hvals, hlen, hmset, hmget, hincrby,
}
use shoredb.Commands.Expire.{expire, pexpire, ttl, pttl, persist}
use shoredb.Commands.Admin
use shoredb.Commands.Admin.{keys_cmd, dbsize, scan, hello}
use shoredb.Server.{should_persist}

-- RDB: the snapshot on the disk, the changes since the last one, and its time.
pub record Snapshot : Type 0 where
  pub disk : Option Bytes
  pub changes : ℕ
  pub last_save : Time

-- Server: `aof` and `rdb` are `none` where the source has nil.
pub record Server : Type 0 where
  pub databases : Databases
  pub pubsub : PubSub
  pub aof : Option Aof
  pub rdb : Option Snapshot

-- CommandHandlers, without PUBLISH, BLPOP and BRPOP.
abbrev pub command_handlers : (Bytes → Bytes → Bool) → List (Bytes × Handler)
command_handlers matches =
    (codes "COMMAND", Admin.command)
    ∷ (codes "PING", ping)
    ∷ (codes "SET", Strings.set)
    ∷ (codes "GET", get)
    ∷ (codes "DEL", del)
    ∷ (codes "EXISTS", exists)
    ∷ (codes "MSET", mset)
    ∷ (codes "MGET", mget)
    ∷ (codes "TYPE", type_cmd)
    ∷ (codes "INCR", incr)
    ∷ (codes "DECR", decr)
    ∷ (codes "DECRBY", decrby)
    ∷ (codes "INCRBY", incrby)
    ∷ (codes "LPUSH", lpush)
    ∷ (codes "RPUSH", rpush)
    ∷ (codes "LPOP", lpop)
    ∷ (codes "RPOP", rpop)
    ∷ (codes "LRANGE", lrange)
    ∷ (codes "LLEN", llen)
    ∷ (codes "LINDEX", lindex)
    ∷ (codes "LSET", lset)
    ∷ (codes "LREM", lrem)
    ∷ (codes "SADD", sadd)
    ∷ (codes "SREM", srem)
    ∷ (codes "SISMEMBER", sismember)
    ∷ (codes "SMEMBERS", smembers)
    ∷ (codes "SCARD", scard)
    ∷ (codes "SPOP", spop)
    ∷ (codes "SINTER", sinter)
    ∷ (codes "SUNION", sunion)
    ∷ (codes "SDIFF", sdiff)
    ∷ (codes "HSET", hset)
    ∷ (codes "HGET", hget)
    ∷ (codes "HDEL", hdel)
    ∷ (codes "HEXISTS", hexists)
    ∷ (codes "HGETALL", hgetall)
    ∷ (codes "HKEYS", hkeys)
    ∷ (codes "HVALS", hvals)
    ∷ (codes "HLEN", hlen)
    ∷ (codes "HMSET", hmset)
    ∷ (codes "HMGET", hmget)
    ∷ (codes "HINCRBY", hincrby)
    ∷ (codes "EXPIRE", expire)
    ∷ (codes "PEXPIRE", pexpire)
    ∷ (codes "TTL", ttl)
    ∷ (codes "PTTL", pttl)
    ∷ (codes "PERSIST", persist)
    ∷ (codes "KEYS", keys_cmd matches)
    ∷ (codes "SCAN", scan matches)
    ∷ (codes "DBSIZE", dbsize)
    ∷ (codes "HELLO", hello)
    ∷ []

abbrev pub find_handler : Bytes → List (Bytes × Handler) → Option Handler
find_handler command [] = none
find_handler command ((name, handler) ∷ table) =
    if str_eq command name then some handler else find_handler command table

abbrev pub is_error : Value → Bool
is_error (simple_error message) = true
is_error _ = false

-- IncrementChanges, if there is a snapshot.
abbrev pub count_change : Option Snapshot → Option Snapshot
count_change none = none
count_change (some rdb) = some (record rdb { changes = rdb.changes + 1 })

abbrev pub log_entry : ℤ → Value → Option Aof → Option Aof
log_entry db_index original none = none
log_entry db_index original (some aof) = some (write_entry db_index original aof)

-- What processCommand does behind the handler.
abbrev pub persist_command : Bytes → Value → ℤ → Value → Server → Server
persist_command command original db_index response server =
    if not (is_error response) && should_persist command
    then record server {
      aof = log_entry db_index original server.aof;
      rdb = count_change server.rdb;
    }
    else server

-- How processCommand ends: with a response, in blockingPop (from the left, or not), or with a panic.
pub data Outcome : Type 0 where
  replied : Server → Value → Outcome
  blocks : Bool → List Value → Outcome
  panicked : Outcome

abbrev pub run_handler :
    Env → Handler → Bytes → List Value → Value → ℕ → Server → Option Database → Outcome
run_handler env handler command args original index server none = panicked
run_handler env handler command args original index server (some db) =
    let (db', response) = handler env args db in
    replied
      (persist_command command original (pos index) response
        (record server { databases = set server.databases index db' }))
      response

abbrev pub published : Server → Option (PubSub × ℕ) → Outcome
published server none = panicked
published server (some (pubsub, delivered)) =
    replied (record server { pubsub = pubsub }) (number_reply delivered)

-- The handler of PUBLISH
unfoldable pub publish_cmd : List Value → Server → Outcome
unfolding publish
publish_cmd (channel ∷ message ∷ []) server =
    published server (publish (str channel) (str message) server.pubsub)
publish_cmd _ server = replied server (wrong_number (codes "publish"))

abbrev no_rdb : Value
no_rdb = error (codes "ERR RDB not configured")

-- The handlers of SAVE and BGSAVE, the latter's goroutine taken to run at once.
abbrev pub save_with : Value → Server → Option Snapshot → Outcome
save_with response server none = replied server no_rdb
save_with response server (some rdb) =
    replied (record server { rdb = some (record rdb { disk = some (save_rdb server.databases) }) })
      response

abbrev pub save : Server → Outcome
save server = save_with ok_reply server server.rdb

abbrev pub bgsave : Server → Outcome
bgsave server = save_with (simple_string (codes "Background saving started")) server server.rdb

-- time.Time.Unix: the seconds, rounded down.
abbrev pub unix : Time → ℤ
unix (pos n) = pos (n / 1_000_000_000)
unix (negsuc n) = negsuc (n / 1_000_000_000)

abbrev pub lastsave : Server → Option Snapshot → Outcome
lastsave server none = replied server no_rdb
lastsave server (some rdb) = replied server (integer (unix rdb.last_save))

abbrev pub unknown_command : Bytes → Value
unknown_command command = error (codes "ERR unknown command '" ++ (command ++ codes "'"))

abbrev pub run_found : Env → Option Handler → Bytes → List Value → Value → ℕ → Server → Outcome
run_found env none command args original index server = replied server (unknown_command command)
run_found env (some handler) command args original index server =
    run_handler env handler command args original index server (db_at server.databases index)

-- processCommand, on a database's number that is not negative. The source panics first thing on a number
-- that is out of range, which no request of Server/Access comes with; here it does where the database is
-- needed.
unfoldable pub process_at :
    (Bytes → Bytes → Bool) → Env → Bytes → List Value → Value → ℕ → Server → Outcome
unfolding publish_cmd should_persist save_rdb
process_at matches env command args original index server =
    if str_eq command (codes "SAVE")
    then save server
    else if str_eq command (codes "BGSAVE")
    then bgsave server
    else if str_eq command (codes "LASTSAVE")
    then lastsave server server.rdb
    else if str_eq command (codes "PUBLISH")
    then publish_cmd args server
    else if str_eq command (codes "BLPOP")
    then blocks true args
    else if str_eq command (codes "BRPOP")
    then blocks false args
    else run_found env (find_handler command (command_handlers matches)) command args original index
        server

-- processCommand
abbrev pub process_command :
    (Bytes → Bytes → Bool) → Env → Bytes → List Value → Value → ℤ → Server → Outcome
process_command matches env command args original (pos index) server =
    process_at matches env command args original index server
process_command matches env command args original (negsuc n) server = panicked
