-- ===== src/Pubsub.antt =====
-- pkg/pubsub/pubsub.go: the subscribers of each channel. A Go channel of messages is its place in the
-- list of all that were made; a receive takes the first message of its buffer.
pub mod Buffers
pub mod Subscribers
pub mod Sound
pub mod Histories
use shoredb.Base.{
  ℕ, zero, suc, ◌+◌, ◌-◌, ◌*◌, ◌/◌, ◌%◌, ◌^◌, ◌≤◌, ◌<◌, ◌≡◌, refl, sym, ap, ◌∙◌, ◌≢◌, ◌↔◌, ◌⊎◌, inl,
  inr, Bool, true, false, not, ◌&&◌, ◌||◌, Option, none, some, List, [], ◌∷◌, ◌++◌, map, append-nil,
  append_assoc, arith, Bytes, codes, str_eq, str_eq_iff, str_eq_refl, ltb, leb, ◌==◌, ==_iff,
  if◌then◌else◌, Bool-cases, Option-cases, is_some, length, get_elem?, take, drop, length-append,
}
use shoredb.Base.{set}
use shoredb.Base.Dict.{Dict, lookup, insert, erase}

pub record Message : Type 0 where
  pub channel : Bytes
  pub payload : Bytes

-- A `chan Message`.
pub record Chan : Type 0 where
  pub buffer : List Message
  pub closed : Bool

pub record PubSub : Type 0 where
  pub chans : List Chan
  pub subs : Dict (List ℕ)

-- New
abbrev pub new_pubsub : PubSub
new_pubsub = record { chans = []; subs = [] }

abbrev pub capacity : ℕ
capacity = 16

abbrev pub ids_or_nil : Option (List ℕ) → List ℕ
ids_or_nil none = []
ids_or_nil (some ids) = ids

-- PubSub.Subscribe
unfoldable pub subscribe : Bytes → PubSub → PubSub × ℕ
unfolding lookup
subscribe channel ps =
    let id = length ps.chans in
    (
      record {
        chans = ps.chans ++ record { buffer = []; closed = false } ∷ [];
        subs = insert channel (ids_or_nil (lookup channel ps.subs) ++ id ∷ []) ps.subs;
      },
      id,
    )

-- `delete(subs, ch)`
abbrev pub without : ℕ → List ℕ → List ℕ
without id [] = []
without id (i ∷ ids) = let rest = without id ids in if i == id then rest else i ∷ rest

abbrev pub keep_ids : Bytes → List ℕ → Dict (List ℕ) → Dict (List ℕ)
keep_ids channel [] subs = erase channel subs
keep_ids channel (i ∷ ids) subs = insert channel (i ∷ ids) subs

abbrev pub drop_sub : Bytes → ℕ → Dict (List ℕ) → Option (List ℕ) → Dict (List ℕ)
drop_sub channel id subs none = subs
drop_sub channel id subs (some ids) = keep_ids channel (without id ids) subs

-- `close`, which panics on a channel that is closed: `none`.
abbrev pub close : ℕ → List Chan → Option Chan → Option (List Chan)
close id chans none = none
close id chans (some ch) =
    if ch.closed then none else some (set chans id (record ch { closed = true }))

abbrev pub with_chans : Dict (List ℕ) → Option (List Chan) → Option PubSub
with_chans subs none = none
with_chans subs (some chans) = some (record { chans = chans; subs = subs })

-- PubSub.Unsubscribe; `none` stands for a panic.
unfoldable pub unsubscribe : Bytes → ℕ → PubSub → Option PubSub
unfolding lookup
unsubscribe channel id ps =
    with_chans (drop_sub channel id ps.subs (lookup channel ps.subs))
      (close id ps.chans (get_elem? ps.chans id))

-- The `select` of Publish: the channels, and whether the message was sent; a send to a channel that is
-- closed panics, `none`.
abbrev pub send_to : Message → ℕ → List Chan → Option Chan → Option (List Chan × ℕ)
send_to msg id chans none = none
send_to msg id chans (some ch) =
    if ch.closed
    then none
    else if ltb (length ch.buffer) capacity
    then some (set chans id (record ch { buffer = ch.buffer ++ msg ∷ [] }), 1)
    else some (chans, 0)

abbrev pub count_sent : ℕ → Option (List Chan × ℕ) → Option (List Chan × ℕ)
count_sent n none = none
count_sent n (some (chans, more)) = some (chans, n + more)

-- The loop of Publish over the channels of the subscribers.
unfoldable pub publish_loop : Message → List ℕ → List Chan → Option (List Chan × ℕ)
publish_loop msg [] chans = some (chans, 0)
publish_loop msg (id ∷ ids) chans = elim (send_to msg id chans (get_elem? chans id)) [
  | none ↦ none
  | some (chans', n) ↦ count_sent n (publish_loop msg ids chans')
]

abbrev pub sent_all : Dict (List ℕ) → Option (List Chan × ℕ) → Option (PubSub × ℕ)
sent_all subs none = none
sent_all subs (some (chans, delivered)) = some (record { chans = chans; subs = subs }, delivered)

-- PubSub.Publish; `none` stands for a panic.
unfoldable pub publish : Bytes → Bytes → PubSub → Option (PubSub × ℕ)
unfolding lookup publish_loop
publish channel payload ps =
    let msg : Message = record { channel = channel; payload = payload } in
    sent_all ps.subs (publish_loop msg (ids_or_nil (lookup channel ps.subs)) ps.chans)

abbrev pub received : ℕ → PubSub → Option Chan → PubSub × Option Message
received id ps none = (ps, none)
received id ps (some ch) = elim ch.buffer [
  | [] ↦ (ps, none)
  | msg ∷ buffer ↦ (record ps { chans = set ps.chans id (record ch { buffer = buffer }) }, some msg)
]

-- A receive by the goroutine of a subscriber: `none` if it has to wait, or the channel is closed and empty.
abbrev pub receive : ℕ → PubSub → PubSub × Option Message
receive id ps = received id ps (get_elem? ps.chans id)
