-- ===== src/Tests/Keys.antt =====
-- Runs of the commands on a small database.
use shoredb.Base.{
  ◌-◌, ◌*◌, ◌/◌, ◌≡◌, refl, ◌≢◌, true, some, [], ◌∷◌, arith, Bytes, codes, str_eq, ltb,
  if◌then◌else◌,
}
use shoredb.Base.Int.{pos, negsuc, ltb_ℤ, wrap, ◌+ℤ◌}
use shoredb.Base.Dict.{IsMap, lookup}
use shoredb.Strconv.{atoi, itoa}
use shoredb.Resp.{bulk_string, integer}
use shoredb.Datastruct.Lists.{Items}
use shoredb.Database.{Database, sweep_expired, delete_key}
use shoredb.Database.Expiry.{entry, no_entry, live_entry, is_past, sweep_expired_lem}
use shoredb.Database.Deletion.{holds_value, value_count, delete_key_deletes}
use shoredb.Commands.{Env, number_reply}
use shoredb.Commands.Strings.{set, get, increment, or_zero}
use shoredb.Commands.Strings.Keys.{get-set}
use shoredb.Commands.Strings.Counters.{with_number, increment_adds}
use shoredb.Commands.Lists.{lpush, rpush, lpop, rpop}
use shoredb.Commands.Lists.Queues.{list_or_empty, with_list}
use shoredb.Commands.Lists.RoundTrip.{pop-push_key}
use shoredb.Commands.Lists.NonEmpty.{remove_items, handler, NoEmptyList, list_commands-NoEmptyList}
use shoredb.Commands.Expire.{second, expire, ttl}
use shoredb.Commands.Expire.Deadlines.{with_deadline, expire_expires, ttl-expire}

abbrev n : Bytes
n = codes "n"

abbrev l : Bytes
l = codes "l"

abbrev o : Bytes
o = codes "o"

abbrev items : Items
items = codes "x" ∷ codes "y" ∷ []

-- A counter, a list with a deadline, and a string whose deadline is long past.
abbrev some_keys : Database
some_keys = record {
  store = (n, codes "41") ∷ (o, codes "old") ∷ [];
  lists = (l, items) ∷ [];
  sets = [];
  hashes = [];
  expires = (l, pos 9_000_000_000) ∷ (o, pos 5) ∷ [];
}

abbrev env : Env
env = record { now = pos 1_000; pick = 0 }

abbrev later : Env
later = record { now = pos 1_000 +ℤ pos 2_500_000_000; pick = 0 }

expires-IsMap : IsMap some_keys.expires
unfolding lookup str_eq
expires-IsMap = (refl, (refl, tt))

sweep_expired_lem_example :
    (entry o (sweep_expired (pos 7) some_keys)
      ≡ (if is_past (pos 7) (lookup o some_keys.expires) then no_entry else entry o some_keys))
    × (live_entry (pos 8) o (sweep_expired (pos 7) some_keys) ≡ live_entry (pos 8) o some_keys)
sweep_expired_lem_example =
    sweep_expired_lem (pos 7) (pos 8) o some_keys expires-IsMap (omega arith)

delete_key_deletes_example :
    (entry l (delete_key (pos 7) n some_keys).0
      ≡ (if str_eq n l then no_entry else entry l some_keys))
    × ((delete_key (pos 7) n some_keys).1 ≡ value_count (live_entry (pos 7) n some_keys))
delete_key_deletes_example = delete_key_deletes (pos 7) n l some_keys

get-set_example :
    (get later (bulk_string o ∷ []) (set env (bulk_string o ∷ bulk_string l ∷ []) some_keys).0).1
    ≡ (if str_eq o o then bulk_string l else (get later (bulk_string o ∷ []) some_keys).1)
get-set_example = get-set env later o l o some_keys

reads_41 : atoi (or_zero (live_entry env.now n some_keys).string) ≡ some (pos 41)
unfolding lookup str_eq atoi
reads_41 = refl

increment_adds_example :
    ((increment env.now some_keys n (negsuc 0)).1 ≡ integer (wrap (pos 41 +ℤ negsuc 0)))
    × (entry n (increment env.now some_keys n (negsuc 0)).0
        ≡ with_number (wrap (pos 41 +ℤ negsuc 0)) (live_entry env.now n some_keys))
increment_adds_example = increment_adds env.now some_keys n (pos 41) (negsuc 0) reads_41

l-nonempty : (live_entry env.now l some_keys).list ≢ some []
unfolding lookup str_eq
l-nonempty e = ground arith

pop-push_key_example :
    let items = list_or_empty (live_entry env.now l some_keys).list in
    let left =
      lpop env (bulk_string l ∷ []) (lpush env (bulk_string l ∷ bulk_string n ∷ []) some_keys).0 in
    let right =
      rpop env (bulk_string l ∷ []) (rpush env (bulk_string l ∷ bulk_string n ∷ []) some_keys).0 in
    ((left.1 ≡ bulk_string n) × (entry l left.0 ≡ with_list items (live_entry env.now l some_keys)))
    × ((right.1 ≡ bulk_string n)
        × (entry l right.0 ≡ with_list items (live_entry env.now l some_keys)))
pop-push_key_example = pop-push_key env l n some_keys

l-NoEmptyList : NoEmptyList l some_keys
unfolding lookup str_eq
l-NoEmptyList e = ground arith

list_commands-NoEmptyList_example :
    NoEmptyList l
      (handler remove_items env
        (bulk_string l ∷ bulk_string (codes "0") ∷ bulk_string (codes "x") ∷ [])
        some_keys).0
list_commands-NoEmptyList_example =
    list_commands-NoEmptyList remove_items env
      (bulk_string l ∷ bulk_string (codes "0") ∷ bulk_string (codes "x") ∷ []) l some_keys
      l-NoEmptyList

n-holds : holds_value (live_entry env.now n some_keys) ≡ true
unfolding lookup str_eq
n-holds = refl

expire_expires_example :
    let after = expire env (bulk_string n ∷ bulk_string (itoa (pos 10)) ∷ []) some_keys in
    let exp = env.now +ℤ pos (10 * second) in
    (after.1 ≡ number_reply 1)
    × (live_entry later.now n after.0 ≡ (
        if ltb_ℤ later.now exp
        then with_deadline exp (live_entry env.now n some_keys)
        else no_entry))
expire_expires_example = expire_expires env later.now n 10 some_keys (omega arith) n-holds

ttl-expire_example :
    (ttl later
      (bulk_string n ∷ [])
      (expire env (bulk_string n ∷ bulk_string (itoa (pos 10)) ∷ []) some_keys).0).1
    ≡ (if ltb 2_500_000_000 (10 * second)
        then integer (pos ((10 * second - 2_500_000_000) / second))
        else integer (negsuc 1))
ttl-expire_example = ttl-expire env later n 10 2_500_000_000 some_keys (omega arith) n-holds refl
