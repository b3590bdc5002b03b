-- ===== src/Pubsub/Histories.antt =====
-- Sequences of the operations of PubSub of pkg/pubsub/pubsub.go.
use shoredb.Base.{ℕ, ◌≡◌, refl, sym, true, Option, none, some, List, Bytes, is_some, get_elem?}
use mathlib.Core.Path.{subst}
use shoredb.Base.Dict.{Dict}
use shoredb.Pubsub.{PubSub, Chan, new_pubsub, subscribe, unsubscribe, sent_all, publish, receive}
use shoredb.Pubsub.Buffers.{AreBounded, LeavesOpen}
use shoredb.Pubsub.Subscribers.{subscribed}
use shoredb.Pubsub.Sound.{
  IsSound, KeepsSound, IsSound-new, IsSound-subscribe, IsSound-published, IsSound-unsubscribe,
  IsSound-received, publish-LeavesOpen,
}

-- What the server does with its PubSub. A connection unsubscribes from what it is subscribed to.
pub data Step : PubSub → PubSub → Type 0 where
  subscribes : (ps : PubSub) (channel : Bytes) → Step ps (subscribe channel ps).0
  unsubscribes :
      (ps ps' : PubSub) (channel : Bytes) (id : ℕ)
      → subscribed id channel ps.subs ≡ true
      → unsubscribe channel id ps ≡ some ps'
      → Step ps ps'
  publishes :
      (ps ps' : PubSub) (channel payload : Bytes) (n : ℕ)
      → publish channel payload ps ≡ some (ps', n)
      → Step ps ps'
  receives : (ps : PubSub) (id : ℕ) → Step ps (receive id ps).0

pub data Reachable : PubSub → Type 0 where
  starts : Reachable new_pubsub
  steps : {ps ps' : PubSub} → Reachable ps → Step ps ps' → Reachable ps'

Step-IsSound : (ps ps' : PubSub) → IsSound ps → Step ps ps' → IsSound ps'
unfolding publish
Step-IsSound ps ps' h (subscribes _ channel) = IsSound-subscribe ps channel h
Step-IsSound ps ps' h (unsubscribes _ _ channel id s e) =
    subst KeepsSound e (IsSound-unsubscribe ps channel id h s)
Step-IsSound ps ps' h (publishes _ _ channel payload n e) =
    IsSound-published ps ps' n _ h (publish-LeavesOpen ps channel payload h) e
Step-IsSound ps ps' h (receives _ id) = IsSound-received ps id (get_elem? ps.chans id) h refl

pub Reachable-IsSound : (ps : PubSub) → Reachable ps → IsSound ps
Reachable-IsSound ps starts = IsSound-new
Reachable-IsSound ps (steps {ps = before} reached step) =
    Step-IsSound before ps (Reachable-IsSound before reached) step

some_sent :
    (chans : List Chan) (subs : Dict (List ℕ)) (r : Option (List Chan × ℕ))
    → LeavesOpen chans r
    → is_some (sent_all subs r) ≡ true
some_sent chans subs none h = sym h
some_sent chans subs (some (chans', n)) h = refl

some_kept : (r : Option PubSub) → KeepsSound r → is_some r ≡ true
some_kept none h = sym h
some_kept (some ps) h = refl

-- However the server has used its PubSub, by any sequence of Subscribe, Unsubscribe of what is subscribed,
-- Publish and receives: a Publish on any channel does not panic, and no Go channel holds more than its 16
-- messages.
pub Reachable-publish :
    (ps : PubSub) (channel payload : Bytes)
    → Reachable ps
    → (is_some (publish channel payload ps) ≡ true) × AreBounded ps.chans
unfolding publish
Reachable-publish ps channel payload reached =
    let h = Reachable-IsSound ps reached in
    (some_sent ps.chans ps.subs _ (publish-LeavesOpen ps channel payload h), h.bounded)

-- However the server has used its PubSub, an Unsubscribe of what is subscribed does not panic.
Reachable-unsubscribe :
    (ps : PubSub) (channel : Bytes) (id : ℕ)
    → Reachable ps
    → subscribed id channel ps.subs ≡ true
    → is_some (unsubscribe channel id ps) ≡ true
Reachable-unsubscribe ps channel id reached s =
    some_kept (unsubscribe channel id ps)
      (IsSound-unsubscribe ps channel id (Reachable-IsSound ps reached) s)
