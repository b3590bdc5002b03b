-- ===== src/Lib.antt =====
-- ShoreDB: a server of the Redis protocol in Go, with its data held in memory.
--
-- A connection sends commands as RESP values (pkg/resp/parser.go). A command's handler
-- (pkg/commands/*_commands.go) works on one of sixteen logical databases
-- (pkg/commands/database.go), whose values are texts and the containers of
-- pkg/datastruct/datastruct.go; the commands that change data are written to a log of RESP values
-- (pkg/persistence/aof.go), which is read when the server starts.
--
-- Base             names and lemmas that the parts share: the native numbers' tests, byte texts,
--                  lists, Go's `int` (Base/Int) and maps (Base/Dict).
-- Strconv          decimal text: Atoi and Itoa of the standard library, parseInt and intToString of
--                  pkg/datastruct/datastruct.go.
-- Resp             pkg/resp/parser.go: `parse_value` is Parser.Parse on the bytes that are left,
--                  `write` is Writer.Write. Errors are those of Resp/Outcome; the panic of `make` at
--                  a negative length is a value too; that at a length beyond what can be allocated
--                  is not modelled.
-- Datastruct       pkg/datastruct/datastruct.go: `l_push` is List.LPush, `s_add` is Set.SAdd, `h_set`
--                  is Hash.HSet, and so on. An operation takes the content and gives the new one
--                  with its result.
-- Database         pkg/commands/database.go: `Database` has the struct's five maps, and
--                  `expire_if_needed`, `sweep_expired`, `get_list`, `delete_key` are its methods.
-- Commands         pkg/commands: a handler under the name of its Go function takes the clock's
--                  reading, the arguments and the database, and gives the database and the reply.
--                  A blocked BLPOP or BRPOP is a relation between the steps of its client and of the
--                  others (Commands/Blocking): a pass over the keys, a wait, a push and its signal.
-- Aof              pkg/persistence/aof.go: `write_entry` and `read_entries` are Aof.Write and Aof.Read.
-- Rdb              pkg/persistence/rdb.go: `save_rdb` is the file that RDB.Save writes, `load_rdb` is
--                  RDB.Load on a file (Rdb/Load).
-- Config           pkg/persistence/config.go: `parse_line` is parseLine, `read_config` is ReadConfig on
--                  the lines of the file.
-- Pubsub           pkg/pubsub/pubsub.go: a Go channel is its place in the list of all that were made;
--                  a panic is `none`.
-- Server           pkg/server/tcp.go: `handle_request` is a round of the loop in handleConnection up to
--                  processCommand, with handleAuth and handleSelect; `replay_command`
--                  (Server/Replay) is replayCommand, `process_command` (Server/Process) is
--                  processCommand with the tables of pkg/commands/handler.go, `handle_subscribe`
--                  and `unsubscribe_loop` (Server/Subscriptions) are handleSubscribe and
--                  handleUnsubscribe, `new_server` (Server/Start) is New of pkg/server/server.go, and
--                  `tick` (Server/Schedule) is a round of snapshotLoop of pkg/persistence/rdb.go.
-- Shoredis         pkg/shoredis/shoredis.go: `do_cmd` is Client.Do, and `select` is Client.Select.
-- Tests            the theorems at concrete inputs.
--
-- Texts are lists of bytes. An `int` is an integer with the 64-bit wrap-around written out, and a Go
-- map an association list: a range over a map visits it in the list's order, which stands for Go's
-- unspecified one, and the place where SPOP starts is an argument. Instants are integers of
-- nanoseconds; a handler reads the clock once. The parser runs on fuel, three rounds for each byte
-- left, and the loops of the log and the snapshot on a round for each byte, since a round takes a byte
-- at least.
--
-- filepath.Match is an argument of KEYS and SCAN, and strconv.ParseFloat of the blocking pops.
--
-- Not modelled: the locks, since commands are taken one after another, but for the blocked pops; the
-- tickers themselves; when the goroutines of subscriptions run; the typed methods of the embedded
-- client, which call its Do; the failures of files and connections, and what only calls the operating
-- system.
pub mod Base
pub mod Strconv
pub mod Resp
pub mod Datastruct
pub mod Database
pub mod Commands
pub mod Aof
pub mod Rdb
pub mod Config
pub mod Pubsub
pub mod Server
pub mod Shoredis
pub mod Tests
