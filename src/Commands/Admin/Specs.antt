-- ===== src/Commands/Admin/Specs.antt =====
-- The table of COMMAND, commandSpecs of pkg/commands/admin_commands.go.
use shoredb.Base.{ℕ, List, [], ◌∷◌, Bytes, codes}
use shoredb.Base.Int.{ℤ, pos, negsuc}

-- cmdSpec
pub record CmdSpec : Type 0 where
  pub name : Bytes
  pub arity : ℤ
  pub flags : List Bytes
  pub first_key : ℕ
  pub last_key : ℤ
  pub step : ℕ

abbrev cmd_spec : Bytes → ℤ → List Bytes → ℕ → ℤ → ℕ → CmdSpec
cmd_spec name arity flags first_key last_key step = record {
  name = name;
  arity = arity;
  flags = flags;
  first_key = first_key;
  last_key = last_key;
  step = step;
}

-- commandSpecs
abbrev pub command_specs : List CmdSpec
command_specs =
    cmd_spec (codes "PING") (negsuc 0) (codes "fast" ∷ []) 0 (pos 0) 0
    ∷ cmd_spec (codes "SET") (pos 3) (codes "write" ∷ codes "denyoom" ∷ []) 1 (pos 1) 1
    ∷ cmd_spec (codes "GET") (pos 2) (codes "readonly" ∷ codes "fast" ∷ []) 1 (pos 1) 1
    ∷ cmd_spec (codes "DEL") (negsuc 1) (codes "write" ∷ []) 1 (negsuc 0) 1
    ∷ cmd_spec (codes "EXISTS") (negsuc 1) (codes "readonly" ∷ codes "fast" ∷ []) 1 (negsuc 0) 1
    ∷ cmd_spec (codes "MSET") (negsuc 2) (codes "write" ∷ codes "denyoom" ∷ []) 1 (negsuc 0) 2
    ∷ cmd_spec (codes "MGET") (negsuc 1) (codes "readonly" ∷ codes "fast" ∷ []) 1 (negsuc 0) 1
    ∷ cmd_spec (codes "TYPE") (pos 2) (codes "readonly" ∷ codes "fast" ∷ []) 1 (pos 1) 1
    ∷ cmd_spec (codes "INCR") (pos 2) (codes "write" ∷ codes "fast" ∷ []) 1 (pos 1) 1
    ∷ cmd_spec (codes "DECR") (pos 2) (codes "write" ∷ codes "fast" ∷ []) 1 (pos 1) 1
    ∷ cmd_spec (codes "INCRBY") (pos 3) (codes "write" ∷ codes "fast" ∷ []) 1 (pos 1) 1
    ∷ cmd_spec (codes "DECRBY") (pos 3) (codes "write" ∷ codes "fast" ∷ []) 1 (pos 1) 1
    ∷ cmd_spec (codes "LPUSH") (negsuc 2) (codes "write" ∷ codes "fast" ∷ []) 1 (pos 1) 1
    ∷ cmd_spec (codes "RPUSH") (negsuc 2) (codes "write" ∷ codes "fast" ∷ []) 1 (pos 1) 1
    ∷ cmd_spec (codes "LPOP") (pos 2) (codes "write" ∷ codes "fast" ∷ []) 1 (pos 1) 1
    ∷ cmd_spec (codes "RPOP") (pos 2) (codes "write" ∷ codes "fast" ∷ []) 1 (pos 1) 1
    ∷ cmd_spec (codes "LRANGE") (pos 4) (codes "readonly" ∷ []) 1 (pos 1) 1
    ∷ cmd_spec (codes "LLEN") (pos 2) (codes "readonly" ∷ codes "fast" ∷ []) 1 (pos 1) 1
    ∷ cmd_spec (codes "LINDEX") (pos 3) (codes "readonly" ∷ []) 1 (pos 1) 1
    ∷ cmd_spec (codes "LSET") (pos 4) (codes "write" ∷ []) 1 (pos 1) 1
    ∷ cmd_spec (codes "LREM") (pos 4) (codes "write" ∷ []) 1 (pos 1) 1
    ∷ cmd_spec (codes "BLPOP") (negsuc 2) (codes "write" ∷ codes "blocking" ∷ []) 1 (negsuc 1) 1
    ∷ cmd_spec (codes "BRPOP") (negsuc 2) (codes "write" ∷ codes "blocking" ∷ []) 1 (negsuc 1) 1
    ∷ cmd_spec (codes "SADD") (negsuc 2) (codes "write" ∷ codes "fast" ∷ []) 1 (pos 1) 1
    ∷ cmd_spec (codes "SREM") (negsuc 2) (codes "write" ∷ codes "fast" ∷ []) 1 (pos 1) 1
    ∷ cmd_spec (codes "SISMEMBER") (pos 3) (codes "readonly" ∷ codes "fast" ∷ []) 1 (pos 1) 1
    ∷ cmd_spec (codes "SMEMBERS") (pos 2) (codes "readonly" ∷ []) 1 (pos 1) 1
    ∷ cmd_spec (codes "SCARD") (pos 2) (codes "readonly" ∷ codes "fast" ∷ []) 1 (pos 1) 1
    ∷ cmd_spec (codes "SPOP") (pos 2) (codes "write" ∷ codes "fast" ∷ []) 1 (pos 1) 1
    ∷ cmd_spec (codes "SINTER") (negsuc 1) (codes "readonly" ∷ []) 1 (negsuc 0) 1
    ∷ cmd_spec (codes "SUNION") (negsuc 1) (codes "readonly" ∷ []) 1 (negsuc 0) 1
    ∷ cmd_spec (codes "SDIFF") (negsuc 1) (codes "readonly" ∷ []) 1 (negsuc 0) 1
    ∷ cmd_spec (codes "HSET") (pos 4) (codes "write" ∷ codes "fast" ∷ []) 1 (pos 1) 1
    ∷ cmd_spec (codes "HGET") (pos 3) (codes "readonly" ∷ codes "fast" ∷ []) 1 (pos 1) 1
    ∷ cmd_spec (codes "HDEL") (negsuc 2) (codes "write" ∷ codes "fast" ∷ []) 1 (pos 1) 1
    ∷ cmd_spec (codes "HEXISTS") (pos 3) (codes "readonly" ∷ codes "fast" ∷ []) 1 (pos 1) 1
    ∷ cmd_spec (codes "HGETALL") (pos 2) (codes "readonly" ∷ []) 1 (pos 1) 1
    ∷ cmd_spec (codes "HKEYS") (pos 2) (codes "readonly" ∷ []) 1 (pos 1) 1
    ∷ cmd_spec (codes "HVALS") (pos 2) (codes "readonly" ∷ []) 1 (pos 1) 1
    ∷ cmd_spec (codes "HLEN") (pos 2) (codes "readonly" ∷ codes "fast" ∷ []) 1 (pos 1) 1
    ∷ cmd_spec (codes "HMSET") (negsuc 3) (codes "write" ∷ []) 1 (pos 1) 1
    ∷ cmd_spec (codes "HMGET") (negsuc 2) (codes "readonly" ∷ []) 1 (pos 1) 1
    ∷ cmd_spec (codes "HINCRBY") (pos 4) (codes "write" ∷ codes "fast" ∷ []) 1 (pos 1) 1
    ∷ cmd_spec (codes "EXPIRE") (pos 3) (codes "write" ∷ codes "fast" ∷ []) 1 (pos 1) 1
    ∷ cmd_spec (codes "PEXPIRE") (pos 3) (codes "write" ∷ codes "fast" ∷ []) 1 (pos 1) 1
    ∷ cmd_spec (codes "TTL") (pos 2) (codes "readonly" ∷ codes "fast" ∷ []) 1 (pos 1) 1
    ∷ cmd_spec (codes "PTTL") (pos 2) (codes "readonly" ∷ codes "fast" ∷ []) 1 (pos 1) 1
    ∷ cmd_spec (codes "PERSIST") (pos 2) (codes "write" ∷ codes "fast" ∷ []) 1 (pos 1) 1
    ∷ cmd_spec (codes "KEYS") (pos 2) (codes "readonly" ∷ []) 0 (pos 0) 0
    ∷ cmd_spec (codes "SCAN") (negsuc 1) (codes "readonly" ∷ []) 0 (pos 0) 0
    ∷ cmd_spec (codes "DBSIZE") (pos 1) (codes "readonly" ∷ codes "fast" ∷ []) 0 (pos 0) 0
    ∷ cmd_spec (codes "HELLO") (negsuc 0) (codes "fast" ∷ []) 0 (pos 0) 0
    ∷ cmd_spec (codes "PUBLISH") (pos 3) (codes "pubsub" ∷ codes "fast" ∷ []) 0 (pos 0) 0
    ∷ cmd_spec (codes "SUBSCRIBE") (negsuc 1) (codes "pubsub" ∷ []) 0 (pos 0) 0
    ∷ cmd_spec (codes "UNSUBSCRIBE") (negsuc 0) (codes "pubsub" ∷ []) 0 (pos 0) 0
    ∷ cmd_spec (codes "AUTH") (negsuc 1) (codes "fast" ∷ codes "loading" ∷ codes "stale" ∷ []) 0
        (pos 0) 0
    ∷ cmd_spec (codes "SELECT") (pos 2) (codes "fast" ∷ codes "loading" ∷ codes "stale" ∷ []) 0
        (pos 0) 0
    ∷ cmd_spec (codes "SAVE") (pos 1) (codes "admin" ∷ []) 0 (pos 0) 0
    ∷ cmd_spec (codes "BGSAVE") (pos 1) (codes "admin" ∷ []) 0 (pos 0) 0
    ∷ cmd_spec (codes "LASTSAVE") (pos 1) (codes "readonly" ∷ codes "fast" ∷ []) 0 (pos 0) 0
    ∷ cmd_spec (codes "COMMAND") (negsuc 0) (codes "loading" ∷ codes "stale" ∷ []) 0 (pos 0) 0
    ∷ []
