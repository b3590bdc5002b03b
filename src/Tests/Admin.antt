-- ===== src/Tests/Admin.antt =====
-- Runs of the introspection commands.
use shoredb.Base.{◌≡◌, Bool, true, ◌&&◌, [], ◌∷◌, Bytes, codes, is_some}
use shoredb.Base.Dict.{keys}
use shoredb.Resp.{bulk_string}
use shoredb.Datastruct.Sets.Counts.{among}
use shoredb.Commands.{bulk_array}
use shoredb.Database.{sweep_expired}
use shoredb.Commands.Admin.{keys_cmd, find_command_spec, get_keys}
use shoredb.Commands.Admin.Listing.{holds, reply_texts, flat_pairs, keys_cmd_lists, get_keys-mset}
use shoredb.Commands.Admin.Served.{is_served, find_command_spec_serves}
use shoredb.Tests.Restart.{env}
use shoredb.Tests.Snapshot.{busy}

abbrev match_all : Bytes → Bytes → Bool
match_all pattern key = true

keys_cmd_lists_example :
    among (codes "l") (reply_texts (keys_cmd match_all env (bulk_string (codes "*") ∷ []) busy).1)
    ≡ (match_all (codes "*") (codes "l") && holds (codes "l") (sweep_expired env.now busy))
keys_cmd_lists_example = keys_cmd_lists match_all env (codes "*") (codes "l") busy

find_command_spec_serves_example :
    is_some (find_command_spec (codes "hGetAll")) ≡ is_served match_all env (codes "hGetAll")
find_command_spec_serves_example = find_command_spec_serves match_all env (codes "hGetAll")

get_keys-mset_example :
    get_keys (
      bulk_string (codes "MSET")
      ∷ flat_pairs ((codes "a", codes "1") ∷ (codes "b", codes "2") ∷ []))
    ≡ bulk_array (codes "a" ∷ keys ((codes "b", codes "2") ∷ []))
get_keys-mset_example = get_keys-mset (codes "a") (codes "1") ((codes "b", codes "2") ∷ [])
