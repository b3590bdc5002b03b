-- ===== src/Server.antt =====
-- pkg/server/tcp.go: what a connection does with a request, up to processCommand. The writes to the
-- connection are taken to succeed. The children hold processCommand, the subscriptions and the replay.
pub mod Access
pub mod Replay
pub mod Process
pub mod Subscriptions
pub mod Start
pub mod Schedule
pub mod Logged
pub mod Session
pub mod Runs
pub mod Recovery
use shoredb.Base.{
  ℕ, zero, suc, ◌+◌, ◌-◌, ◌*◌, ◌/◌, ◌%◌, ◌^◌, ◌≤◌, ◌<◌, ◌≡◌, refl, sym, ap, ◌∙◌, ◌≢◌, ◌↔◌, ◌⊎◌, inl,
  inr, Bool, true, false, not, ◌&&◌, ◌||◌, Option, none, some, List, [], ◌∷◌, ◌++◌, map, append-nil,
  append_assoc, arith, Bytes, codes, str_eq, str_eq_iff, str_eq_refl, ltb, leb, ◌==◌, ==_iff,
  if◌then◌else◌, Bool-cases, Option-cases, is_some, length, get_elem?, take, drop, length-append,
}
use shoredb.Base.Int.{ℤ, pos, ltb_ℤ, leb_ℤ}
use shoredb.Strconv.{atoi}
use shoredb.Resp.{Value, nil, cons, simple_string, array, of_list, to_list, str}
use shoredb.Database.{num_databases}
use shoredb.Commands.{error, wrong_number, not_an_integer, ok_reply, texts}

-- strings.ToUpper: the letters of ASCII, and the two others (the long s and the dotless i, byte pairs
-- in UTF-8) whose upper case is in ASCII. Other letters are kept.
unfoldable pub to_upper : Bytes → Bytes
to_upper (c ∷ d ∷ s) =
    let rest = to_upper s in
    let same = to_upper (d ∷ s) in
    if c == 0xC5 && d == 0xBF
    then b'S' ∷ rest
    else if c == 0xC4 && d == 0xB1
    then b'I' ∷ rest
    else (if leb b'a' c && leb c b'z' then c - 32 else c) ∷ same
to_upper (c ∷ []) = (if leb b'a' c && leb c b'z' then c - 32 else c) ∷ []
to_upper [] = []

-- The variables of handleConnection that a request can change, beside the subscriptions.
pub record Connection : Type 0 where
  pub authenticated : Bool
  pub db_index : ℤ

-- handleConnection before the first request; `require_pass` is the server's password, or empty.
abbrev pub new_connection : Bytes → Connection
new_connection require_pass = record { authenticated = str_eq require_pass []; db_index = pos 0 }

-- handleAuth: whether the connection is authenticated from now on, and the reply.
unfoldable pub handle_auth : Bytes → List Value → Bool × Value
handle_auth require_pass (arg ∷ []) =
    if str_eq require_pass []
    then (true, error (codes "ERR Client sent AUTH, but no password is set"))
    else if not (str_eq (str arg) require_pass)
    then (false, error (codes "WRONGPASS invalid username-password pair"))
    else (true, ok_reply)
handle_auth require_pass _ = (str_eq require_pass [], wrong_number (codes "auth"))

abbrev pub select_index : ℤ → Option ℤ → ℤ × Value
select_index current none = (current, not_an_integer)
select_index current (some index) =
    if ltb_ℤ index (pos 0) || leb_ℤ (pos num_databases) index
    then (current, error (codes "ERR DB index is out of range"))
    else (index, ok_reply)

-- handleSelect
unfoldable pub handle_select : List Value → ℤ → ℤ × Value
unfolding atoi
handle_select (arg ∷ []) current = select_index current (atoi (str arg))
handle_select _ current = (current, wrong_number (codes "select"))

-- What a round of handleConnection's loop does with its request: a reply, a change of the
-- subscriptions, or a call of processCommand.
pub data Action : Type 0 where
  reply : Value → Action
  subscribe unsubscribe : List Value → Action
  process : Bytes → List Value → ℤ → Action

abbrev pub invalid_format : Value
invalid_format = error (codes "ERR invalid command format")

abbrev pub no_auth : Value
no_auth = error (codes "NOAUTH Authentication required")

-- The commands that need no handler, and those that do.
abbrev pub run_command : Bytes → List Value → Connection → Connection × Action
run_command command args conn =
    if str_eq command (codes "SELECT")
    then (
      record conn { db_index = (handle_select args conn.db_index).0 },
      reply (handle_select args conn.db_index).1,
    )
    else if str_eq command (codes "SUBSCRIBE")
    then (conn, subscribe args)
    else if str_eq command (codes "UNSUBSCRIBE")
    then (conn, unsubscribe args)
    else (conn, process command args conn.db_index)

abbrev pub dispatch : Bytes → Bytes → List Value → Connection → Connection × Action
dispatch require_pass command args conn =
    if str_eq command (codes "AUTH")
    then (
      record conn { authenticated = (handle_auth require_pass args).0 },
      reply (handle_auth require_pass args).1,
    )
    else if not conn.authenticated
    then (conn, reply no_auth)
    else run_command command args conn

-- A round of handleConnection's loop on a value that was read.
unfoldable pub handle_request : Bytes → Value → Connection → Connection × Action
unfolding to_upper handle_auth handle_select
handle_request require_pass (array (cons name vs)) conn =
    dispatch require_pass (to_upper (str name)) (to_list vs) conn
handle_request require_pass _ conn = (conn, reply invalid_format)

-- shouldPersist
unfoldable pub should_persist : Bytes → Bool
should_persist command = listed (
    codes "SET"
    ∷ codes "DEL"
    ∷ codes "MSET"
    ∷ codes "INCR"
    ∷ codes "DECR"
    ∷ codes "INCRBY"
    ∷ codes "DECRBY"
    ∷ codes "LPUSH"
    ∷ codes "RPUSH"
    ∷ codes "LPOP"
    ∷ codes "RPOP"
    ∷ codes "LSET"
    ∷ codes "LREM"
    ∷ codes "BLPOP"
    ∷ codes "BRPOP"
    ∷ codes "SADD"
    ∷ codes "SREM"
    ∷ codes "SPOP"
    ∷ codes "HSET"
    ∷ codes "HDEL"
    ∷ codes "HMSET"
    ∷ codes "HINCRBY"
    ∷ [])
  where
    listed : List Bytes → Bool
    listed [] = false
    listed (name ∷ names) = str_eq command name || listed names
