-- ===== src/Server/Schedule.antt =====
-- snapshotLoop of pkg/persistence/rdb.go: when a snapshot is saved on its own, and what LASTSAVE tells.
use shoredb.Base.{
  ◌≡◌, refl, ap, ◌∙◌, Bool, true, false, ◌&&◌, ◌||◌, Option, none, some, List, [], ◌∷◌, arith,
  Bytes, codes, str_eq, if◌then◌else◌,
}
use shoredb.Base.Int.{pos, leb_ℤ}
use shoredb.Resp.{Value, integer}
use shoredb.Config.{RdbSnapshot}
use shoredb.Rdb.{save_rdb}
use shoredb.Database.{Time, Databases}
use shoredb.Commands.{Env}
use shoredb.Commands.Expire.{until}
use shoredb.Server.Process.{
  Server, Snapshot, Outcome, replied, blocks, panicked, unix, process_at, process_command,
}

-- A rule's test. A whole number of seconds is at most the time that has passed exactly if it is at most that
-- time's whole seconds.
abbrev pub rule_met : Time → Snapshot → RdbSnapshot → Bool
rule_met now rdb rule =
    leb_ℤ rule.secs (unix (until now rdb.last_save)) && leb_ℤ rule.keys_changed (pos rdb.changes)

abbrev pub any_met : Time → Snapshot → List RdbSnapshot → Bool
any_met now rdb [] = false
any_met now rdb (rule ∷ rules) = rule_met now rdb rule || any_met now rdb rules

-- A round of snapshotLoop at a tick; its Save is taken to succeed.
unfoldable pub tick : Time → List RdbSnapshot → Databases → Snapshot → Snapshot
unfolding save_rdb until
tick now rules dbs rdb =
    if any_met now rdb rules
    then record { disk = some (save_rdb dbs); changes = 0; last_save = now }
    else rdb

-- Every rule asks for a change at least.
abbrev pub AskChanges : List RdbSnapshot → Type 0
AskChanges [] = Unit
AskChanges (rule ∷ rules) = (leb_ℤ rule.keys_changed (pos 0) ≡ false) × AskChanges rules

no_rule_met :
    (now : Time) (rdb : Snapshot) (rules : List RdbSnapshot)
    → AskChanges rules
    → rdb.changes ≡ 0
    → any_met now rdb rules ≡ false
no_rule_met now rdb [] h e = refl
no_rule_met now rdb (rule ∷ rules) (asks, more) e =
    let here : leb_ℤ rule.keys_changed (pos rdb.changes) ≡ false =
      ap (λ n. leb_ℤ rule.keys_changed (pos n)) e ∙ asks in
    ground (arith, here, no_rule_met now rdb rules more e)

-- Where every rule asks for a change at least, a tick after a tick that saved does not save again, whatever
-- time has passed and whatever the databases, if no change was counted in between: it leaves the snapshot as
-- it is.
pub tick-tick :
    (now later : Time) (rules : List RdbSnapshot) (dbs changed : Databases) (rdb : Snapshot)
    → AskChanges rules
    → any_met now rdb rules ≡ true
    → tick later rules changed (tick now rules dbs rdb)
      ≡ record { disk = some (save_rdb dbs); changes = 0; last_save = now }
unfolding tick
tick-tick now later rules dbs changed rdb asks met =
    let saved : Snapshot = record { disk = some (save_rdb dbs); changes = 0; last_save = now } in
    rw (met, no_rule_met later saved rules asks refl) refl

-- The reply of LASTSAVE on the server that a command has left.
abbrev pub lastsave_after : (Bytes → Bytes → Bool) → Env → Outcome → Option Value
lastsave_after matches env (replied server response) =
    elim (process_command matches env (codes "LASTSAVE") [] response (pos 0) server) [
      | replied server' reply ↦ some reply
      | blocks left args ↦ none
      | panicked ↦ none
    ]
lastsave_after matches env (blocks left args) = none
lastsave_after matches env panicked = none

-- LASTSAVE behind a SAVE tells the time that it told before, not that of the SAVE.
pub lastsave-save :
    (matches : Bytes → Bytes → Bool) (env later : Env) (args : List Value) (original : Value)
    (server : Server) (rdb : Snapshot)
    → server.rdb ≡ some rdb
    → lastsave_after matches later
        (process_command matches env (codes "SAVE") args original (pos 0) server)
      ≡ some (integer (unix rdb.last_save))
unfolding process_at str_eq
lastsave-save matches env later args original server rdb e = rw e refl
