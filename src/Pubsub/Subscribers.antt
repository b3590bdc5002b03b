-- ===== src/Pubsub/Subscribers.antt =====
-- Who is subscribed to what: Subscribe and Unsubscribe of pkg/pubsub/pubsub.go.
use shoredb.Base.{
  ℕ, zero, suc, ◌≤◌, ◌≡◌, refl, sym, ap, inl, inr, Bool, true, false, not, ◌&&◌, ◌||◌, Option, none,
  some, List, [], ◌∷◌, ◌++◌, arith, Bytes, str_eq, str_eq_iff, ◌==◌, if◌then◌else◌, Bool-cases,
  length,
}
use shoredb.Base.{set}
use shoredb.Base.Dict.{Dict, lookup, lookup-insert, lookup-erase}
use shoredb.Pubsub.{Chan, PubSub, capacity, ids_or_nil, subscribe, without, keep_ids, drop_sub}
use shoredb.Pubsub.Buffers.{is_open, AreBounded, mem}

-- A Go channel is among the subscribers of a channel.
abbrev pub subscribed : ℕ → Bytes → Dict (List ℕ) → Bool
subscribed id channel subs = mem id (ids_or_nil (lookup channel subs))

-- Channels that are made behind the others.
pub is_open-append :
    (chans : List Chan) (id : ℕ) (ch : Chan)
    → is_open id chans ≡ true
    → is_open id (chans ++ ch ∷ []) ≡ true
is_open-append [] id ch h = absurd (ground (arith, h))
is_open-append (c ∷ chans) zero ch h = h
is_open-append (c ∷ chans) (suc id) ch h = is_open-append chans id ch h

pub is_open_last :
    (chans : List Chan) (ch : Chan)
    → ch.closed ≡ false
    → is_open (length chans) (chans ++ ch ∷ []) ≡ true
is_open_last [] ch h = ap not h
is_open_last (c ∷ chans) ch h = is_open_last chans ch h

pub is_open_fresh : (chans : List Chan) → is_open (length chans) chans ≡ false
is_open_fresh [] = refl
is_open_fresh (c ∷ chans) = is_open_fresh chans

pub AreBounded-append :
    (chans : List Chan) (ch : Chan)
    → AreBounded chans
    → length ch.buffer ≤ capacity
    → AreBounded (chans ++ ch ∷ [])
AreBounded-append [] ch h e = (e, tt)
AreBounded-append (c ∷ chans) ch (here, more) e = (here, AreBounded-append chans ch more e)

mem-append : (id j : ℕ) (ids : List ℕ) → mem id (ids ++ j ∷ []) ≡ (mem id ids || j == id)
mem-append id j [] = ground arith
mem-append id j (i ∷ ids) = ground (arith, mem-append id j ids)

mem-without : (id j : ℕ) (ids : List ℕ) → mem id (without j ids) ≡ (mem id ids && not (id == j))
mem-without id j [] = refl
mem-without id j (i ∷ ids) = ground (arith, mem-without id j ids)

-- The subscribers after a Subscribe.
pub subscribed-subscribe :
    (ps : PubSub) (channel other : Bytes) (id : ℕ)
    → subscribed id other (subscribe channel ps).0.subs
      ≡ (subscribed id other ps.subs || (str_eq channel other && length ps.chans == id))
unfolding subscribe
subscribed-subscribe ps channel other id = elim (Bool-cases (str_eq channel other)) [
  | inl e ↦
      rw
        (
          lookup-insert channel other (ids_or_nil (lookup channel ps.subs) ++ length ps.chans ∷ [])
              ps.subs,
          e,
          mem-append id (length ps.chans) (ids_or_nil (lookup channel ps.subs)),
          (str_eq_iff channel other).0 e,
        )
        refl
  | inr e ↦
      rw
        (
          lookup-insert channel other (ids_or_nil (lookup channel ps.subs) ++ length ps.chans ∷ [])
              ps.subs,
          e,
        )
        (ground arith)
]

subscribed-keep_ids :
    (channel other : Bytes) (i : ℕ) (ids : List ℕ) (subs : Dict (List ℕ))
    → subscribed i other (keep_ids channel ids subs)
      ≡ (if str_eq channel other then mem i ids else subscribed i other subs)
subscribed-keep_ids channel other i [] subs = elim (Bool-cases (str_eq channel other)) [
  | inl e ↦ rw (lookup-erase channel other subs, e) refl
  | inr e ↦ rw (lookup-erase channel other subs, e) refl
]
subscribed-keep_ids channel other i (j ∷ ids) subs = elim (Bool-cases (str_eq channel other)) [
  | inl e ↦ rw (lookup-insert channel other (j ∷ ids) subs, e) refl
  | inr e ↦ rw (lookup-insert channel other (j ∷ ids) subs, e) refl
]

-- The subscribers after an Unsubscribe.
pub subscribed-drop_sub :
    (channel other : Bytes) (id i : ℕ) (subs : Dict (List ℕ)) (found : Option (List ℕ))
    → lookup channel subs ≡ found
    → subscribed i other (drop_sub channel id subs found)
      ≡ (subscribed i other subs && not (str_eq channel other && i == id))
subscribed-drop_sub channel other id i subs none e = elim (Bool-cases (str_eq channel other)) [
  | inl same ↦ rw (sym ((str_eq_iff channel other).0 same), e) refl
  | inr apart ↦ rw apart (ground arith)
]
subscribed-drop_sub channel other id i subs (some ids) e =
    elim (Bool-cases (str_eq channel other)) [
      | inl same ↦
          rw
            (
              subscribed-keep_ids channel other i (without id ids) subs,
              same,
              sym ((str_eq_iff channel other).0 same),
              e,
              mem-without i id ids,
            )
            refl
      | inr apart ↦
          rw (subscribed-keep_ids channel other i (without id ids) subs, apart) (ground arith)
    ]

pub is_open-close :
    (chans : List Chan) (id i : ℕ) (ch : Chan)
    → (i == id) ≡ false
    → is_open i (set chans id ch) ≡ is_open i chans
is_open-close [] id i ch h = refl
is_open-close (c ∷ chans) zero zero ch h = absurd (ground (arith, h))
is_open-close (c ∷ chans) zero (suc i) ch h = refl
is_open-close (c ∷ chans) (suc id) zero ch h = refl
is_open-close (c ∷ chans) (suc id) (suc i) ch h = is_open-close chans id i ch (ground (arith, h))
