-- ===== src/Tests/Client.antt =====
-- Runs of the embedded client.
use shoredb.Base.{◌≡◌, refl, none, [], ◌∷◌, map, codes, str_eq}
use shoredb.Resp.{array, nil, bulk_string}
use shoredb.Commands.Strings.{incr}
use shoredb.Server.Process.{process_at}
use shoredb.Server.Recovery.{fresh_server}
use shoredb.Shoredis.{normalize_cmd, do_cmd}
use shoredb.Shoredis.Embedding.{seen, seen_of, do_cmd-process_at}
use shoredb.Tests.Restart.{env, matches}

do_cmd-process_at_example :
    seen_of (do_cmd matches env (codes "incr") (codes "n" ∷ []) 2 (fresh_server none))
    ≡ seen (
        process_at matches env
          (normalize_cmd (codes "incr"))
          (map bulk_string (codes "n" ∷ []))
          (array nil)
          2
          (fresh_server none))
do_cmd-process_at_example =
    do_cmd-process_at matches env (codes "incr") (codes "n" ∷ []) (array nil) 2 (fresh_server none)
      incr (unfold normalize_cmd str_eq in refl)
