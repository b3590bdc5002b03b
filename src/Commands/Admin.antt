-- ===== src/Commands/Admin.antt =====
-- pkg/commands/admin_commands.go: the commands that tell of the keys and of the server itself.
-- `matches` is filepath.Match on a pattern and a key, whose error KEYS and SCAN take for no match.
pub mod Specs
pub mod Listing
pub mod Names
pub mod Served
use shoredb.Base.{
  ℕ, zero, suc, ◌+◌, ◌-◌, ◌*◌, ◌/◌, ◌%◌, ◌^◌, ◌≤◌, ◌<◌, ◌≡◌, refl, sym, ap, ◌∙◌, ◌≢◌, ◌↔◌, ◌⊎◌, inl,
  inr, Bool, true, false, not, ◌&&◌, ◌||◌, Option, none, some, List, [], ◌∷◌, ◌++◌, map, append-nil,
  append_assoc, arith, Bytes, codes, str_eq, str_eq_iff, str_eq_refl, ltb, leb, ◌==◌, ==_iff,
  if◌then◌else◌, Bool-cases, Option-cases, is_some, length, get_elem?, take, drop, length-append,
}
use shoredb.Base.Int.{ℤ, pos, negsuc}
use shoredb.Base.Dict.{Dict, keys}
use shoredb.Strconv.{atoi}
use shoredb.Resp.{Value, simple_string, bulk_string, integer, array, null, nil, of_list, str}
use shoredb.Database.{Database, sweep_expired}
use shoredb.Commands.{Env, Handler, error, wrong_number, number_reply, bulk_array}
use shoredb.Commands.Admin.Specs.{CmdSpec, command_specs}
use shoredb.Server.{to_upper}

abbrev pub filter : (Bytes → Bool) → List Bytes → List Bytes
filter p [] = []
filter p (k ∷ ks) = let rest = filter p ks in if p k then k ∷ rest else rest

-- The four loops of keysCmd.
unfoldable pub matching_keys : (Bytes → Bool) → Database → List Bytes
matching_keys p db =
    filter p (keys db.store)
    ++ (filter p (keys db.lists) ++ (filter p (keys db.sets) ++ filter p (keys db.hashes)))

unfoldable pub keys_cmd : (Bytes → Bytes → Bool) → Handler
unfolding sweep_expired matching_keys
keys_cmd matches env (pattern ∷ []) db =
    let db' = sweep_expired env.now db in
    (db', bulk_array (matching_keys (matches (str pattern)) db'))
keys_cmd matches env _ db = (db, wrong_number (codes "keys"))

unfoldable pub dbsize : Handler
unfolding sweep_expired
dbsize env args db =
    let db' = sweep_expired env.now db in
    (db', number_reply (length db'.store + length db'.lists + length db'.sets + length db'.hashes))

-- The last pattern behind the word MATCH, among the arguments behind the cursor.
unfoldable pub match_pattern : Bytes → List Value → Bytes
match_pattern pattern (word ∷ next ∷ args) =
    let found = match_pattern (str next) (next ∷ args) in
    let same = match_pattern pattern (next ∷ args) in
    if str_eq (str word) (codes "MATCH") || str_eq (str word) (codes "match") then found else same
match_pattern pattern _ = pattern

abbrev pub scan_from :
    (Bytes → Bytes → Bool) → Env → List Value → Database → Option ℤ → Database × Value
scan_from matches env args db none = (db, error (codes "ERR invalid cursor"))
scan_from matches env args db (some cursor) =
    let (db', found) =
      keys_cmd matches env (bulk_string (match_pattern (codes "*") args) ∷ []) db in
    (db', array (of_list (bulk_string (codes "0") ∷ found ∷ [])))

unfoldable pub scan : (Bytes → Bytes → Bool) → Handler
unfolding keys_cmd match_pattern atoi
scan matches env (cursor ∷ args) db = scan_from matches env args db (atoi (str cursor))
scan matches env [] db = (db, wrong_number (codes "scan"))

abbrev pub server_info : List Value
server_info =
    bulk_string (codes "server")
    ∷ bulk_string (codes "shoredis")
    ∷ bulk_string (codes "version")
    ∷ bulk_string (codes "1.0")
    ∷ bulk_string (codes "proto")
    ∷ integer (pos 2)
    ∷ bulk_string (codes "mode")
    ∷ bulk_string (codes "standalone")
    ∷ bulk_string (codes "role")
    ∷ bulk_string (codes "master")
    ∷ bulk_string (codes "modules")
    ∷ array nil
    ∷ []

unfoldable pub hello : Handler
hello env (version ∷ args) db =
    if str_eq (str version) (codes "3")
    then (db, error (codes "NOPROTO unsupported protocol version"))
    else (db, array (of_list server_info))
hello env [] db = (db, array (of_list server_info))

-- strings.ToLower, for the table's names, which are in ASCII.
abbrev pub to_lower : Bytes → Bytes
to_lower s = map (λ c. if leb b'A' c && leb c b'Z' then c + 32 else c) s

-- commandInfoValue
abbrev pub command_info_value : CmdSpec → Value
command_info_value spec = array (
    of_list (
      bulk_string (to_lower spec.name)
      ∷ integer spec.arity
      ∷ array (of_list (map simple_string spec.flags))
      ∷ integer (pos spec.first_key)
      ∷ integer spec.last_key
      ∷ integer (pos spec.step)
      ∷ []))

abbrev pub find_among : Bytes → List CmdSpec → Option CmdSpec
find_among upper [] = none
find_among upper (spec ∷ specs) =
    let rest = find_among upper specs in if str_eq spec.name upper then some spec else rest

-- findCommandSpec
unfoldable pub find_command_spec : Bytes → Option CmdSpec
unfolding to_upper
find_command_spec name = find_among (to_upper name) command_specs

abbrev pub all_command_info : List Value
all_command_info = map command_info_value command_specs

abbrev pub info_or_null : Option CmdSpec → Value
info_or_null none = null
info_or_null (some spec) = command_info_value spec

-- COMMAND DOCS: a known name with an empty array behind it.
abbrev pub with_docs : Option CmdSpec → List Value → List Value
with_docs none docs = docs
with_docs (some spec) docs = bulk_string (to_lower spec.name) ∷ array nil ∷ docs

unfoldable pub docs_of : List Bytes → List Value
unfolding find_command_spec
docs_of [] = []
docs_of (name ∷ names) = with_docs (find_command_spec name) (docs_of names)

-- The loop of GETKEYS over the arguments from the first key on: `skip` of them to pass over, `left` to
-- look at.
abbrev pub step_keys : ℕ → ℕ → ℕ → List Value → List Bytes
step_keys step skip zero args = []
step_keys step skip (suc left) [] = []
step_keys step zero (suc left) (arg ∷ args) = str arg ∷ step_keys step (step - 1) left args
step_keys step (suc skip) (suc left) (arg ∷ args) = step_keys step skip left args

-- `last`, which counts from the end if it is negative, and is the first key at least.
abbrev pub last_of : ℕ → ℤ → ℕ
last_of n (pos last) = last
last_of n (negsuc k) = n - k

abbrev pub no_keys : Value
no_keys = error (codes "ERR The command has no key arguments")

abbrev pub keys_or_error : List Bytes → Value
keys_or_error [] = no_keys
keys_or_error (key ∷ keys) = bulk_array (key ∷ keys)

abbrev pub spec_keys : Option CmdSpec → List Value → Value
spec_keys none args = no_keys
spec_keys (some spec) args =
    let last = last_of (length args) spec.last_key in
    let end = if leb last spec.first_key then spec.first_key else last in
    let from = spec.first_key - 1 in
    if spec.first_key == 0
    then no_keys
    else if leb (length args) from
    then error (codes "ERR Invalid arguments specified for command")
    else keys_or_error (step_keys spec.step 0 (end - from) (drop from args))

unfoldable pub get_keys : List Value → Value
unfolding find_command_spec
get_keys [] = error (codes "ERR Unknown command name")
get_keys (name ∷ args) = spec_keys (find_command_spec (str name)) args

abbrev pub command_info : List Value → Value
command_info [] = array (of_list all_command_info)
command_info (name ∷ names) =
    array (of_list (map (λ n. info_or_null (find_command_spec (str n))) (name ∷ names)))

abbrev pub command_docs : List Value → Value
command_docs [] = array (of_list (docs_of (map (λ spec. to_lower spec.name) command_specs)))
command_docs (name ∷ names) = array (of_list (docs_of (map str (name ∷ names))))

abbrev pub subcommand : Bytes → Bytes → List Value → Value
subcommand upper name args =
    if str_eq upper (codes "COUNT")
    then number_reply (length command_specs)
    else if str_eq upper (codes "LIST")
    then bulk_array (map (λ spec. to_lower spec.name) command_specs)
    else if str_eq upper (codes "INFO")
    then command_info args
    else if str_eq upper (codes "DOCS")
    then command_docs args
    else if str_eq upper (codes "GETKEYS")
    then get_keys args
    else error
        (codes "ERR Unknown subcommand or wrong number of arguments for '" ++ (name ++ codes "'"))

unfoldable pub command : Handler
unfolding to_upper docs_of get_keys
command env [] db = (db, array (of_list all_command_info))
command env (name ∷ args) db = (db, subcommand (to_upper (str name)) (str name) args)
