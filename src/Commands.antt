-- ===== src/Commands.antt =====
-- pkg/commands: the handlers of the commands. A handler takes the environment's choices, the
-- arguments behind the command's name and the database, and returns the database and the reply.
pub mod Strings
pub mod Lists
pub mod Sets
pub mod Hashes
pub mod Expire
pub mod Admin
pub mod Blocking
use shoredb.Base.{ℕ, suc, List, [], ◌∷◌, ◌++◌, map, Bytes, codes}
use shoredb.Base.Int.{ℤ, pos}
use shoredb.Resp.{Value, simple_string, simple_error, bulk_string, integer, array, of_list, str}
use shoredb.Database.{Time, Database}

-- What a handler takes from outside: the clock, read once for a command, and the place at which a
-- range over a set starts, which Go leaves open.
pub record Env : Type 0 where
  pub now : Time
  pub pick : ℕ

abbrev pub Handler : Type 0
Handler = Env → List Value → Database → Database × Value

abbrev pub error : Bytes → Value
error message = simple_error message

-- "ERR wrong number of arguments for 'NAME' command"
abbrev pub wrong_number : Bytes → Value
wrong_number name =
    error (codes "ERR wrong number of arguments for '" ++ (name ++ codes "' command"))

abbrev pub not_an_integer : Value
not_an_integer = error (codes "ERR value is not an integer or out of range")

abbrev pub ok_reply : Value
ok_reply = simple_string (codes "OK")

abbrev pub number_reply : ℕ → Value
number_reply n = integer (pos n)

-- An array of bulk strings.
abbrev pub bulk_array : List Bytes → Value
bulk_array texts = array (of_list (map bulk_string texts))

-- `args[i].Str` for each argument.
abbrev pub texts : List Value → List Bytes
texts args = map str args
