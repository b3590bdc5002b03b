-- ===== src/Commands/Expire.antt =====
-- pkg/commands/expire_commands.go
pub mod Deadlines
use shoredb.Base.{
  ℕ, zero, suc, ◌+◌, ◌-◌, ◌*◌, ◌/◌, ◌%◌, ◌^◌, ◌≤◌, ◌<◌, ◌≡◌, refl, sym, ap, ◌∙◌, ◌≢◌, ◌↔◌, ◌⊎◌, inl,
  inr, Bool, true, false, not, ◌&&◌, ◌||◌, Option, none, some, List, [], ◌∷◌, ◌++◌, map, append-nil,
  append_assoc, arith, Bytes, codes, str_eq, str_eq_iff, str_eq_refl, ltb, leb, ◌==◌, ==_iff,
  if◌then◌else◌, Bool-cases, Option-cases, is_some, length, get_elem?, take, drop, length-append,
}
use shoredb.Base.Int.{ℤ, pos, negsuc, pos_part, ◌+ℤ◌, ◌-ℤ◌, ◌*ℤ◌, ltb_ℤ, wrap, min_int}
use shoredb.Base.Dict.{lookup, insert, erase}
use shoredb.Strconv.{atoi}
use shoredb.Resp.{Value, integer, str}
use shoredb.Database.{Time, Database, expire_if_needed, key_exists_locked}
use shoredb.Commands.{Env, Handler, wrong_number, not_an_integer, number_reply}

-- time.Second and time.Millisecond, in nanoseconds.
abbrev pub second : ℕ
second = 1_000_000_000

abbrev pub millisecond : ℕ
millisecond = 1_000_000

-- `time.Duration(amount) * unit`: the product wraps around.
unfoldable pub duration : ℤ → ℕ → ℤ
unfolding wrap ◌*ℤ◌
duration amount unit = wrap (amount *ℤ pos unit)

abbrev pub set_deadline : Time → Bytes → ℤ → ℕ → Database → Database × Value
set_deadline now key amount unit db =
    if not (key_exists_locked key db) then (db, number_reply 0) else (
      record db { expires = insert key (now +ℤ duration amount unit) db.expires },
      number_reply 1,
    )

abbrev pub expire_amount : Time → Database → Bytes → Option ℤ → ℕ → Database × Value
expire_amount now db key none unit = (db, not_an_integer)
expire_amount now db key (some amount) unit =
    set_deadline now key amount unit (expire_if_needed now key db)

unfoldable pub set_expire : Time → Database → Bytes → Bytes → ℕ → Database × Value
unfolding expire_if_needed
set_expire now db key amount unit = expire_amount now db key (atoi amount) unit

unfoldable pub expire : Handler
unfolding set_expire
expire env (key ∷ amount ∷ []) db = set_expire env.now db (str key) (str amount) second
expire env _ db = (db, wrong_number (codes "expire"))

unfoldable pub pexpire : Handler
unfolding set_expire
pexpire env (key ∷ amount ∷ []) db = set_expire env.now db (str key) (str amount) millisecond
pexpire env _ db = (db, wrong_number (codes "pexpire"))

-- time.Until: the difference, held within a Duration.
unfoldable pub until : Time → Time → ℤ
unfolding ◌-ℤ◌
until exp now =
    let d = exp -ℤ now in
    if ltb_ℤ (pos (2 ^ 63 - 1)) d then pos (2 ^ 63 - 1) else if ltb_ℤ d min_int then min_int else d

abbrev pub time_left : Time → ℕ → Option Time → Value
time_left now unit none = integer (negsuc 0)
time_left now unit (some exp) =
    let remaining = if ltb_ℤ (until exp now) (pos 0) then pos 0 else until exp now in
    integer (pos (pos_part remaining / unit))

unfoldable pub ttl_value : Time → Database → Bytes → ℕ → Database × Value
unfolding expire_if_needed until
ttl_value now db key unit =
    let db' = expire_if_needed now key db in
    (
      db',
      (if not (key_exists_locked key db')
          then integer (negsuc 1)
          else time_left now unit (lookup key db'.expires)),
    )

unfoldable pub ttl : Handler
unfolding ttl_value
ttl env (key ∷ []) db = ttl_value env.now db (str key) second
ttl env _ db = (db, wrong_number (codes "ttl"))

unfoldable pub pttl : Handler
unfolding ttl_value
pttl env (key ∷ []) db = ttl_value env.now db (str key) millisecond
pttl env _ db = (db, wrong_number (codes "pttl"))

unfoldable pub persist : Handler
unfolding expire_if_needed
persist env (key ∷ []) db =
    let db' = expire_if_needed env.now (str key) db in
    if not (is_some (lookup (str key) db'.expires))
    then (db', number_reply 0)
    else (record db' { expires = erase (str key) db'.expires }, number_reply 1)
persist env _ db = (db, wrong_number (codes "persist"))
