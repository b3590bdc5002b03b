-- ===== src/Server/Subscriptions.antt =====
-- handleSubscribe and handleUnsubscribe of pkg/server/tcp.go: a connection's subscriptions. The goroutine
-- that writes the messages of a subscription to the connection is a receive of Pubsub.
pub mod Held
use shoredb.Base.{
  ℕ, zero, suc, ◌+◌, ◌-◌, ◌*◌, ◌/◌, ◌%◌, ◌^◌, ◌≤◌, ◌<◌, ◌≡◌, refl, sym, ap, ◌∙◌, ◌≢◌, ◌↔◌, ◌⊎◌, inl,
  inr, Bool, true, false, not, ◌&&◌, ◌||◌, Option, none, some, List, [], ◌∷◌, ◌++◌, map, append-nil,
  append_assoc, arith, Bytes, codes, str_eq, str_eq_iff, str_eq_refl, ltb, leb, ◌==◌, ==_iff,
  if◌then◌else◌, Bool-cases, Option-cases, is_some, length, get_elem?, take, drop, length-append,
}
use shoredb.Base.Int.{pos}
use shoredb.Base.Dict.{Dict, lookup, insert, erase, keys}
use shoredb.Resp.{Value, bulk_string, integer, array, of_list, str}
use shoredb.Commands.{texts}
use shoredb.Pubsub.{PubSub, Message, subscribe, unsubscribe}

-- `subs` of the connection, the PubSub, and the replies that were written.
abbrev pub Subscribed : Type 0
Subscribed = Dict ℕ × PubSub × List Value

abbrev pub subscription_reply : Bytes → Bytes → Dict ℕ → Value
subscription_reply word channel subs =
    array (of_list (bulk_string word ∷ bulk_string channel ∷ integer (pos (length subs)) ∷ []))

abbrev pub reply_first : Value → Subscribed → Subscribed
reply_first reply (subs, ps, replies) = (subs, ps, reply ∷ replies)

-- handleSubscribe
unfoldable pub handle_subscribe : List Bytes → Dict ℕ → PubSub → Subscribed
unfolding lookup subscribe
handle_subscribe [] subs ps = (subs, ps, [])
handle_subscribe (channel ∷ channels) subs ps = elim (lookup channel subs) [
  | some id ↦ handle_subscribe channels subs ps
  | none ↦
      let (ps', id) = subscribe channel ps in
      let subs' = insert channel id subs in
      reply_first (subscription_reply (codes "subscribe") channel subs')
        (handle_subscribe channels subs' ps')
]

abbrev pub reply_before : Value → Option Subscribed → Option Subscribed
reply_before reply none = none
reply_before reply (some done) = some (reply_first reply done)

-- The loop of handleUnsubscribe; `none` stands for a panic.
unfoldable pub unsubscribe_loop : List Bytes → Dict ℕ → PubSub → Option Subscribed
unfolding lookup unsubscribe
unsubscribe_loop [] subs ps = some (subs, ps, [])
unsubscribe_loop (channel ∷ channels) subs ps = elim (lookup channel subs) [
  | none ↦
      reply_before (subscription_reply (codes "unsubscribe") channel subs)
        (unsubscribe_loop channels subs ps)
  | some id ↦ elim (unsubscribe channel id ps) [
    | none ↦ none
    | some ps' ↦
        let subs' = erase channel subs in
        reply_before (subscription_reply (codes "unsubscribe") channel subs')
          (unsubscribe_loop channels subs' ps')
  ]
]

-- handleUnsubscribe: without arguments, from every channel.
abbrev pub handle_unsubscribe : List Value → Dict ℕ → PubSub → Option Subscribed
handle_unsubscribe [] subs ps = unsubscribe_loop (keys subs) subs ps
handle_unsubscribe (arg ∷ args) subs ps = unsubscribe_loop (texts (arg ∷ args)) subs ps

-- What is written to the connection for a message.
abbrev pub message_reply : Message → Value
message_reply msg = array (
    of_list
      (bulk_string (codes "message") ∷ bulk_string msg.channel ∷ bulk_string msg.payload ∷ []))
