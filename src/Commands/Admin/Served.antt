-- ===== src/Commands/Admin/Served.antt =====
-- The table of COMMAND of pkg/commands/admin_commands.go against what pkg/server/tcp.go does with a
-- command's name.
use shoredb.Base.{
  ◌≡◌, refl, sym, ap, ◌∙◌, inl, inr, Bool, true, false, not, ◌&&◌, none, List, [], ◌∷◌, map, arith,
  Bytes, codes, str_eq, str_eq_iff, str_eq_refl, Bool-cases, is_some,
}
use shoredb.Base.Int.{pos}
use shoredb.Resp.{Value, nil, cons, array, bulk_string, simple_error, str}
use shoredb.Pubsub.{new_pubsub}
use shoredb.Datastruct.Sets.Counts.{among}
use shoredb.Database.{sweep_expired, expire_each, due_keys, new_databases}
use shoredb.Commands.{Env, Handler}
use shoredb.Commands.Admin.{find_among, find_command_spec, keys_cmd, dbsize, scan, hello, command}
use shoredb.Commands.Admin.Names.{same_names, not_first, differs, not_behind}
use shoredb.Commands.Admin.Specs.{CmdSpec, command_specs}
use shoredb.Commands.Strings
use shoredb.Commands.Strings.{
  ping, get, del, exists, mset, mget, type_cmd, incr, decr, decrby, incrby,
}
use shoredb.Commands.Lists.{lpush, rpush, lpop, rpop, lrange, llen, lindex, lset, lrem}
use shoredb.Commands.Sets.{sadd, srem, sismember, smembers, scard, spop, sinter, sunion, sdiff}
use shoredb.Commands.Hashes.{
  hset, hget, hdel, hexists, hgetall, hkeys, hvals, hlen, hmset, hmget, hincrby,
}
use shoredb.Commands.Expire.{expire, pexpire, ttl, pttl, persist}
use shoredb.Server.{
  to_upper, Connection, Action, reply, subscribe, unsubscribe, process, dispatch, handle_request,
  handle_auth, handle_select, should_persist,
}
use shoredb.Server.Process.{
  Server, Outcome, replied, blocks, panicked, command_handlers, find_handler, unknown_command,
  process_at, process_command, publish_cmd,
}

-- A server without files and data, and a connection that may use it.
abbrev empty_server : Server
empty_server = record { databases = new_databases; pubsub = new_pubsub; aof = none; rdb = none }

abbrev guest : Connection
guest = record { authenticated = true; db_index = pos 0 }

-- A response is not the error of an unknown command.
abbrev is_known : Bytes → Value → Bool
is_known name (simple_error message) = not (str_eq message (str (unknown_command name)))
is_known name _ = true

abbrev outcome_known : Bytes → Outcome → Bool
outcome_known name (replied server response) = is_known name response
outcome_known name (blocks left args) = true
outcome_known name panicked = true

abbrev action_known : (Bytes → Bytes → Bool) → Env → Value → Action → Bool
action_known matches env original (reply response) = true
action_known matches env original (subscribe args) = true
action_known matches env original (unsubscribe args) = true
action_known matches env original (process name args index) =
    outcome_known name (process_command matches env name args original index empty_server)

abbrev name_alone : Bytes → Value
name_alone name = array (cons (bulk_string name) nil)

-- A request of a name alone is done: by the connection itself, or by processCommand without the error of an
-- unknown command.
abbrev pub is_served : (Bytes → Bytes → Bool) → Env → Bytes → Bool
is_served matches env name =
    action_known matches env (name_alone name) (handle_request [] (name_alone name) guest).1

abbrev upper_served : (Bytes → Bytes → Bool) → Env → Value → Bytes → Bool
upper_served matches env original name =
    action_known matches env original (dispatch [] name [] guest).1

-- The names of the tables, and those that stand in the code of a connection and of processCommand.
abbrev names_of : List CmdSpec → List Bytes
names_of specs = map (λ spec. spec.name) specs

abbrev handler_names : List (Bytes × Handler) → List Bytes
handler_names table = map (λ entry. entry.0) table

abbrev served_names : (Bytes → Bytes → Bool) → List Bytes
served_names matches =
    codes "AUTH"
    ∷ codes "SELECT"
    ∷ codes "SUBSCRIBE"
    ∷ codes "UNSUBSCRIBE"
    ∷ codes "SAVE"
    ∷ codes "BGSAVE"
    ∷ codes "LASTSAVE"
    ∷ codes "PUBLISH"
    ∷ codes "BLPOP"
    ∷ codes "BRPOP"
    ∷ handler_names (command_handlers matches)

is_some-find_among :
    (upper : Bytes) (specs : List CmdSpec)
    → is_some (find_among upper specs) ≡ among upper (names_of specs)
is_some-find_among upper [] = refl
is_some-find_among upper (spec ∷ specs) = ground (arith, is_some-find_among upper specs)

abbrev all_served : (Bytes → Bytes → Bool) → Env → Value → List Bytes → Bool
all_served matches env original [] = true
all_served matches env original (name ∷ names) =
    upper_served matches env original name && all_served matches env original names

names_served :
    (matches : Bytes → Bytes → Bool) (env : Env) (original : Value)
    → all_served matches env original (served_names matches) ≡ true
unfolding process_at publish_cmd should_persist str_eq handle_auth handle_select command ping
    Strings.set get del exists mset mget type_cmd incr decr decrby incrby lpush rpush lpop rpop
    lrange llen lindex lset lrem sadd srem sismember smembers scard spop sinter sunion sdiff hset
    hget hdel hexists hgetall hkeys hvals hlen hmset hmget hincrby expire pexpire ttl pttl persist
    keys_cmd scan dbsize hello sweep_expired expire_each due_keys
names_served matches env original = refl

among-served :
    (matches : Bytes → Bytes → Bool) (env : Env) (original : Value) (name : Bytes)
    (names : List Bytes)
    → all_served matches env original names ≡ true
    → among name names ≡ true
    → upper_served matches env original name ≡ true
among-served matches env original name [] h e = absurd (ground (arith, e))
among-served matches env original name (x ∷ names) h e = elim (Bool-cases (str_eq x name)) [
  | inl same ↦
      ap (upper_served matches env original) (sym ((str_eq_iff x name).0 same)) ∙ ground (arith, h)
  | inr other ↦
      among-served matches env original name names (ground (arith, h)) (ground (arith, e, other))
]

find_handler-missing :
    (name : Bytes) (table : List (Bytes × Handler))
    → among name (handler_names table) ≡ false
    → find_handler name table ≡ none
find_handler-missing name [] h = refl
find_handler-missing name ((x, handler) ∷ table) h =
    let (other, more) = not_first name x (handler_names table) h in
    rw other (find_handler-missing name table more)

known-unknown : (name : Bytes) → is_known name (unknown_command name) ≡ false
known-unknown name = rw (str_eq_refl (str (unknown_command name))) refl

others_unserved :
    (matches : Bytes → Bytes → Bool) (env : Env) (original : Value) (name : Bytes)
    → among name (served_names matches) ≡ false
    → upper_served matches env original name ≡ false
unfolding process_at
others_unserved matches env original name h =
    let names = served_names matches in
    rw
      (
        differs name names 0 (codes "AUTH") h refl,
        differs name names 1 (codes "SELECT") h refl,
        differs name names 2 (codes "SUBSCRIBE") h refl,
        differs name names 3 (codes "UNSUBSCRIBE") h refl,
        differs name names 4 (codes "SAVE") h refl,
        differs name names 5 (codes "BGSAVE") h refl,
        differs name names 6 (codes "LASTSAVE") h refl,
        differs name names 7 (codes "PUBLISH") h refl,
        differs name names 8 (codes "BLPOP") h refl,
        differs name names 9 (codes "BRPOP") h refl,
        find_handler-missing name (command_handlers matches) (not_behind name 10 names h),
      )
      (known-unknown name)

upper_served-among :
    (matches : Bytes → Bytes → Bool) (env : Env) (original : Value) (name : Bytes)
    → upper_served matches env original name ≡ among name (served_names matches)
upper_served-among matches env original name =
    elim (Bool-cases (among name (served_names matches))) [
      | inl e ↦
          among-served matches env original name (served_names matches)
            (names_served matches env original) e
          ∙ sym e
      | inr e ↦ others_unserved matches env original name e ∙ sym e
    ]

-- COMMAND knows a name, in capitals or not, exactly if the server serves it: if a request of that name alone,
-- on a connection that needs no password, is done by the connection itself (AUTH, SELECT, SUBSCRIBE and
-- UNSUBSCRIBE), or is not answered by processCommand, on a server without data and files, with the error of
-- an unknown command.
pub find_command_spec_serves :
    (matches : Bytes → Bytes → Bool) (env : Env) (name : Bytes)
    → is_some (find_command_spec name) ≡ is_served matches env name
unfolding find_command_spec handle_request str_eq
find_command_spec_serves matches env name =
    is_some-find_among (to_upper name) command_specs
    ∙ same_names (to_upper name) (names_of command_specs) (served_names matches) refl refl
    ∙ sym (upper_served-among matches env (name_alone name) (to_upper name))
