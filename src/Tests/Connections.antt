-- ===== src/Tests/Connections.antt =====
-- Runs of the settings and the subscriptions.
use shoredb.Base.{◌≡◌, refl, some, [], ◌∷◌, ◌++◌, arith, codes}
use shoredb.Base.Dict.{lookup}
use shoredb.Config.{new_config, parse_line}
use shoredb.Config.Settings.{
  dir, setting_name, put_setting, add_rule, is_word-IsWord, parse_line-setting,
}
use shoredb.Pubsub.{new_pubsub}
use shoredb.Pubsub.Sound.{IsSound-new}
use shoredb.Server.Subscriptions.{Subscribed, handle_subscribe, unsubscribe_loop}
use shoredb.Server.Subscriptions.Held.{
  Holds, KeepsHeld, unsubscribe_loop-KeepsHeld, handle_subscribe-KeepsHeld,
}

parse_line-setting_example :
    (parse_line (setting_name dir ++ 32 ∷ codes "900") new_config
      ≡ put_setting dir (codes "900") new_config)
    × (parse_line (codes "save" ++ 32 ∷ (codes "900" ++ 32 ∷ codes "1")) new_config
        ≡ add_rule (codes "900") (codes "1") new_config)
parse_line-setting_example =
    parse_line-setting dir b'9' (codes "00") b'1' [] new_config (is_word-IsWord (codes "900") refl)
      (is_word-IsWord (codes "1") refl)

nothing_held : Holds [] new_pubsub
unfolding lookup
nothing_held channel id e = absurd (ground (arith, e))

abbrev two_held : Subscribed
two_held = handle_subscribe (codes "a" ∷ codes "b" ∷ codes "a" ∷ []) [] new_pubsub

two_held-KeepsHeld : KeepsHeld (some two_held)
two_held-KeepsHeld =
    handle_subscribe-KeepsHeld (codes "a" ∷ codes "b" ∷ codes "a" ∷ []) [] new_pubsub IsSound-new
      nothing_held

unsubscribe_loop-KeepsHeld_example :
    KeepsHeld (unsubscribe_loop (codes "b" ∷ codes "c" ∷ codes "b" ∷ []) two_held.0 two_held.1)
unsubscribe_loop-KeepsHeld_example =
    unsubscribe_loop-KeepsHeld (codes "b" ∷ codes "c" ∷ codes "b" ∷ []) two_held.0 two_held.1
      two_held-KeepsHeld.0 two_held-KeepsHeld.1
