-- ===== src/Server/Subscriptions/Held.antt =====
-- The subscriptions that a connection holds, in handleUnsubscribe of pkg/server/tcp.go.
use shoredb.Base.{
  ℕ, ◌≡◌, refl, sym, ap, ◌∙◌, inl, inr, true, false, Option, none, some, List, [], ◌∷◌, arith,
  Bytes, codes, str_eq, Bool-cases, length, get_elem?,
}
use shoredb.Base.Dict.{Dict, lookup, insert, erase, lookup-insert, lookup-erase}
use shoredb.Resp.{Value}
use shoredb.Pubsub.{Chan, PubSub, subscribe, unsubscribe, drop_sub, close, with_chans}
use shoredb.Pubsub.Subscribers.{subscribed, subscribed-subscribe, subscribed-drop_sub}
use shoredb.Pubsub.Sound.{IsSound, KeepsSound, IsSound-subscribe, IsSound-unsubscribe}
use shoredb.Server.Subscriptions.{
  Subscribed, subscription_reply, reply_first, handle_subscribe, reply_before, unsubscribe_loop,
}

-- What the connection holds is subscribed.
abbrev pub Holds : Dict ℕ → PubSub → Type 0
Holds subs ps =
    (channel : Bytes) (id : ℕ)
    → lookup channel subs ≡ some id
    → subscribed id channel ps.subs ≡ true

some_same : (i j : ℕ) → some i ≡ some j → i ≡ j
some_same i j e = ground (arith, e)

Holds-subscribe :
    (channel : Bytes) (subs : Dict ℕ) (ps : PubSub)
    → Holds subs ps
    → Holds (insert channel (length ps.chans) subs) (subscribe channel ps).0
Holds-subscribe channel subs ps h other id e = elim (Bool-cases (str_eq channel other)) [
  | inl same ↦
      let found = sym (lookup-insert channel other (length ps.chans) subs) ∙ e in
      let here : some (length ps.chans) ≡ some id = (rw same at found) in
      subscribed-subscribe ps channel other id
      ∙ ground (arith, same, some_same (length ps.chans) id here)
  | inr apart ↦
      let found = sym (lookup-insert channel other (length ps.chans) subs) ∙ e in
      subscribed-subscribe ps channel other id ∙ ground (arith, h other id (rw apart at found))
]

abbrev KeepsSubs : Dict (List ℕ) → Option PubSub → Type 0
KeepsSubs subs none = Unit
KeepsSubs subs (some ps) = ps.subs ≡ subs

with_chans-KeepsSubs :
    (subs : Dict (List ℕ)) (r : Option (List Chan)) → KeepsSubs subs (with_chans subs r)
with_chans-KeepsSubs subs none = tt
with_chans-KeepsSubs subs (some chans) = refl

unsubscribe-KeepsSubs :
    (channel : Bytes) (id : ℕ) (ps : PubSub)
    → KeepsSubs (drop_sub channel id ps.subs (lookup channel ps.subs)) (unsubscribe channel id ps)
unfolding unsubscribe
unsubscribe-KeepsSubs channel id ps =
    with_chans-KeepsSubs (drop_sub channel id ps.subs (lookup channel ps.subs))
      (close id ps.chans (get_elem? ps.chans id))

Holds-unsubscribe :
    (channel : Bytes) (id : ℕ) (subs : Dict ℕ) (ps ps' : PubSub)
    → Holds subs ps
    → ps'.subs ≡ drop_sub channel id ps.subs (lookup channel ps.subs)
    → Holds (erase channel subs) ps'
Holds-unsubscribe channel id subs ps ps' h same other i e =
    elim (Bool-cases (str_eq channel other)) [
      | inl gone ↦
          let found = sym (lookup-erase channel other subs) ∙ e in
          let nothing : none ≡ some i = (rw gone at found) in absurd (ground (arith, nothing))
      | inr apart ↦
          let found = sym (lookup-erase channel other subs) ∙ e in
          ap (subscribed i other) same
          ∙ subscribed-drop_sub channel other id i ps.subs (lookup channel ps.subs) refl
          ∙ ground (arith, apart, h other i (rw apart at found))
    ]

-- The connection holds what is subscribed still, and nothing panicked.
abbrev pub KeepsHeld : Option Subscribed → Type 0
KeepsHeld none = true ≡ false
KeepsHeld (some (subs, ps, replies)) = IsSound ps × Holds subs ps

reply_before-KeepsHeld :
    (reply : Value) (r : Option Subscribed) → KeepsHeld r → KeepsHeld (reply_before reply r)
reply_before-KeepsHeld reply none h = h
reply_before-KeepsHeld reply (some (subs, ps, replies)) h = h

-- An UNSUBSCRIBE, of any channels and however often each is named, does not panic, and leaves the connection
-- with what it is subscribed to; if that was so before, and the PubSub sound.
pub unsubscribe_loop-KeepsHeld :
    (channels : List Bytes) (subs : Dict ℕ) (ps : PubSub)
    → IsSound ps
    → Holds subs ps
    → KeepsHeld (unsubscribe_loop channels subs ps)
unfolding unsubscribe_loop
unsubscribe_loop-KeepsHeld [] subs ps sound holds = (sound, holds)
unsubscribe_loop-KeepsHeld (channel ∷ channels) subs ps sound holds =
    go (lookup channel subs) refl
      (λ subs' ps' s h. unsubscribe_loop-KeepsHeld channels subs' ps' s h)
  where
    gone :
        (id : ℕ) (r : Option PubSub)
        → KeepsSound r
        → KeepsSubs (drop_sub channel id ps.subs (lookup channel ps.subs)) r
        → ((subs' : Dict ℕ) (ps' : PubSub)
            → IsSound ps'
            → Holds subs' ps'
            → KeepsHeld (unsubscribe_loop channels subs' ps'))
        → KeepsHeld (elim r as (λ x. Option Subscribed) [
          | none ↦ none
          | some ps' ↦
              reply_before
                (subscription_reply (codes "unsubscribe") channel (erase channel subs))
                (unsubscribe_loop channels (erase channel subs) ps')
        ])
    gone id none sound' same more = sound'
    gone id (some ps') sound' same more =
        reply_before-KeepsHeld
          (subscription_reply (codes "unsubscribe") channel (erase channel subs))
          (unsubscribe_loop channels (erase channel subs) ps')
          (more (erase channel subs) ps' sound'
            (Holds-unsubscribe channel id subs ps ps' holds same))

    go :
        (found : Option ℕ)
        → lookup channel subs ≡ found
        → ((subs' : Dict ℕ) (ps' : PubSub)
            → IsSound ps'
            → Holds subs' ps'
            → KeepsHeld (unsubscribe_loop channels subs' ps'))
        → KeepsHeld (elim found as (λ x. Option Subscribed) [
          | none ↦
              reply_before
                (subscription_reply (codes "unsubscribe") channel subs)
                (unsubscribe_loop channels subs ps)
          | some id ↦ elim (unsubscribe channel id ps) [
            | none ↦ none
            | some ps' ↦
                reply_before
                  (subscription_reply (codes "unsubscribe") channel (erase channel subs))
                  (unsubscribe_loop channels (erase channel subs) ps')
          ]
        ])
    go none e more =
        reply_before-KeepsHeld (subscription_reply (codes "unsubscribe") channel subs)
          (unsubscribe_loop channels subs ps) (more subs ps sound holds)
    go (some id) e more =
        gone id (unsubscribe channel id ps)
          (IsSound-unsubscribe ps channel id sound (holds channel id e))
          (unsubscribe-KeepsSubs channel id ps) more

-- A SUBSCRIBE leaves the connection with what it is subscribed to, too.
pub handle_subscribe-KeepsHeld :
    (channels : List Bytes) (subs : Dict ℕ) (ps : PubSub)
    → IsSound ps
    → Holds subs ps
    → KeepsHeld (some (handle_subscribe channels subs ps))
unfolding handle_subscribe
handle_subscribe-KeepsHeld [] subs ps sound holds = (sound, holds)
handle_subscribe-KeepsHeld (channel ∷ channels) subs ps sound holds =
    go (lookup channel subs) (handle_subscribe-KeepsHeld channels subs ps sound holds) (
      handle_subscribe-KeepsHeld channels (insert channel (length ps.chans) subs)
        (subscribe channel ps).0 (IsSound-subscribe ps channel sound)
        (Holds-subscribe channel subs ps holds))
  where
    go :
        (found : Option ℕ)
        → KeepsHeld (some (handle_subscribe channels subs ps))
        → KeepsHeld (
            some (
              handle_subscribe channels
                (insert channel (length ps.chans) subs)
                (subscribe channel ps).0))
        → KeepsHeld (
            some (elim found as (λ x. Subscribed) [
              | some id ↦ handle_subscribe channels subs ps
              | none ↦
                  reply_first
                    (subscription_reply
                      (codes "subscribe")
                      channel
                      (insert channel (subscribe channel ps).1 subs))
                    (handle_subscribe channels
                      (insert channel (subscribe channel ps).1 subs)
                      (subscribe channel ps).0)
            ]))
    go (some id) same new = same
    go none same new = new
