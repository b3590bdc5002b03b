-- ===== src/Pubsub/Sound.antt =====
-- A well-formed PubSub (its Go channels open, their buffers within bounds) and its operations.
use shoredb.Base.{
  ℕ, ◌≤◌, ◌≡◌, refl, sym, ap, ◌∙◌, ◌⊎◌, inl, inr, true, false, ◌&&◌, Option, none, some, List, [],
  ◌∷◌, ◌++◌, arith, Bytes, str_eq, str_eq_iff, ◌==◌, ==_iff, Bool-cases, length, get_elem?,
}
use mathlib.Core.Path.{subst}
use shoredb.Base.{set}
use shoredb.Base.Dict.{lookup}
use shoredb.Pubsub.{
  Message, Chan, PubSub, new_pubsub, capacity, ids_or_nil, subscribe, drop_sub, close, with_chans,
  unsubscribe, publish_loop, sent_all, received,
}
use shoredb.Pubsub.Buffers.{
  open_chan, is_open, AreBounded, set-AreBounded, is_open-set, LeavesOpen, publish_loop-LeavesOpen,
  elem_bounded,
}
use shoredb.Pubsub.Subscribers.{
  subscribed, is_open-append, is_open_last, is_open_fresh, AreBounded-append, subscribed-subscribe,
  subscribed-drop_sub, is_open-close,
}

-- A subscriber's Go channel is open and subscribed to one channel only, and no buffer is over-full.
pub record IsSound (ps : PubSub) : Type 0 where
  pub opened :
      (channel : Bytes) (id : ℕ) → subscribed id channel ps.subs ≡ true → is_open id ps.chans ≡ true
  pub apart :
      (channel other : Bytes) (id : ℕ)
      → subscribed id channel ps.subs ≡ true
      → subscribed id other ps.subs ≡ true
      → channel ≡ other
  pub bounded : AreBounded ps.chans

pub IsSound-new : IsSound new_pubsub
unfolding lookup
IsSound-new = record {
  opened = λ channel id h. absurd (ground (arith, h));
  apart = λ channel other id h g. absurd (ground (arith, h));
  bounded = tt;
}

old_or_new :
    (ps : PubSub) (channel other : Bytes) (id : ℕ)
    → subscribed id other (subscribe channel ps).0.subs ≡ true
    → (subscribed id other ps.subs ≡ true) ⊎ ((channel ≡ other) × (length ps.chans ≡ id))
old_or_new ps channel other id h =
    let both = sym (subscribed-subscribe ps channel other id) ∙ h in
    elim (Bool-cases (subscribed id other ps.subs)) [
      | inl e ↦ inl e
      | inr e ↦
          inr ((str_eq_iff channel other).0 (ground (arith, both, e)), ground (arith, both, e))
    ]

fresh_apart :
    (ps : PubSub) (other : Bytes) (id : ℕ)
    → IsSound ps
    → length ps.chans ≡ id
    → subscribed id other ps.subs ≡ false
fresh_apart ps other id h e = elim (Bool-cases (subscribed id other ps.subs)) [
  | inl s ↦ absurd (
      ground (
        arith,
        sym (is_open_fresh ps.chans) ∙ ap (λ i. is_open i ps.chans) e ∙ h.opened other id s,
      ))
  | inr s ↦ s
]

pub IsSound-subscribe :
    (ps : PubSub) (channel : Bytes) → IsSound ps → IsSound (subscribe channel ps).0
unfolding subscribe
IsSound-subscribe ps channel h = record {
  opened = λ other id s. elim (old_or_new ps channel other id s) [
    | inl old ↦
        is_open-append ps.chans id (record { buffer = []; closed = false }) (h.opened other id old)
    | inr (same, e) ↦
        ap (λ i. is_open i (ps.chans ++ record { buffer = []; closed = false } ∷ [])) (sym e)
        ∙ is_open_last ps.chans (record { buffer = []; closed = false }) refl
  ];
  apart = λ one other id s t. elim (old_or_new ps channel one id s) [
    | inl old ↦ elim (old_or_new ps channel other id t) [
      | inl too ↦ h.apart one other id old too
      | inr (same, e) ↦ absurd (ground (arith, old, fresh_apart ps one id h e))
    ]
    | inr (same, e) ↦ elim (old_or_new ps channel other id t) [
      | inl too ↦ absurd (ground (arith, too, fresh_apart ps other id h e))
      | inr (too, e') ↦ sym same ∙ too
    ]
  ];
  bounded =
      AreBounded-append ps.chans (record { buffer = []; closed = false }) h.bounded (omega arith);
}

pub IsSound-published :
    (ps ps' : PubSub) (n : ℕ) (r : Option (List Chan × ℕ))
    → IsSound ps
    → LeavesOpen ps.chans r
    → sent_all ps.subs r ≡ some (ps', n)
    → IsSound ps'
IsSound-published ps ps' n none h left e = absurd (ground (arith, left))
IsSound-published ps ps' n (some (chans', m)) h (same, bounded) e =
    subst IsSound (ap (λ o. first_or ps o) e) (record {
      opened = λ channel id s. same id ∙ h.opened channel id s;
      apart = h.apart;
      bounded = bounded;
    })
  where
    first_or : PubSub → Option (PubSub × ℕ) → PubSub
    first_or d none = d
    first_or d (some (p, k)) = p

pub publish-LeavesOpen :
    (ps : PubSub) (channel payload : Bytes)
    → IsSound ps
    → LeavesOpen ps.chans (
        publish_loop
          (record { channel = channel; payload = payload })
          (ids_or_nil (lookup channel ps.subs))
          ps.chans)
publish-LeavesOpen ps channel payload h =
    publish_loop-LeavesOpen (record { channel = channel; payload = payload })
      (ids_or_nil (lookup channel ps.subs)) ps.chans (h.opened channel) h.bounded

-- An operation that does not panic, and keeps what IsSound says.
abbrev pub KeepsSound : Option PubSub → Type 0
KeepsSound none = true ≡ false
KeepsSound (some ps) = IsSound ps

other_id :
    (ps : PubSub) (channel other : Bytes) (id i : ℕ)
    → IsSound ps
    → subscribed id channel ps.subs ≡ true
    → subscribed i other ps.subs ≡ true
    → (str_eq channel other && i == id) ≡ false
    → (i == id) ≡ false
other_id ps channel other id i h s t not_both = elim (Bool-cases (i == id)) [
  | inl e ↦
      let here = subst (λ k. subscribed k other ps.subs ≡ true) ((==_iff i id).0 e) t in
      let same = (str_eq_iff channel other).1 (h.apart channel other id s here) in
      absurd (ground (arith, same, e, not_both))
  | inr n ↦ n
]

closed_sound :
    (ps : PubSub) (channel : Bytes) (id : ℕ) (found : Option Chan)
    → IsSound ps
    → subscribed id channel ps.subs ≡ true
    → get_elem? ps.chans id ≡ found
    → open_chan found ≡ true
    → KeepsSound (
        with_chans (drop_sub channel id ps.subs (lookup channel ps.subs)) (close id ps.chans found))
closed_sound ps channel id none h s e o = absurd (ground (arith, o))
closed_sound ps channel id (some ch) h s e o =
    let unclosed : ch.closed ≡ false = ground (arith, o) in
    let left = λ (other : Bytes) (i : ℕ).
      subscribed-drop_sub channel other id i ps.subs (lookup channel ps.subs) refl in
    rw unclosed (record {
      opened = λ other i t.
          let was : subscribed i other ps.subs ≡ true = ground (arith, sym (left other i) ∙ t) in
          let not_both : (str_eq channel other && i == id) ≡ false =
            ground (arith, sym (left other i) ∙ t) in
          is_open-close ps.chans id i (record { buffer = ch.buffer; closed = true })
            (other_id ps channel other id i h s was not_both)
          ∙ h.opened other i was;
      apart = λ one other i t u.
          h.apart one other i (ground (arith, sym (left one i) ∙ t))
            (ground (arith, sym (left other i) ∙ u));
      bounded =
          set-AreBounded ps.chans id (record { buffer = ch.buffer; closed = true }) h.bounded
            (elem_bounded ps.chans id ch h.bounded e);
    })

pub IsSound-unsubscribe :
    (ps : PubSub) (channel : Bytes) (id : ℕ)
    → IsSound ps
    → subscribed id channel ps.subs ≡ true
    → KeepsSound (unsubscribe channel id ps)
unfolding unsubscribe
IsSound-unsubscribe ps channel id h s =
    closed_sound ps channel id (get_elem? ps.chans id) h s refl (h.opened channel id s)

pub IsSound-received :
    (ps : PubSub) (id : ℕ) (found : Option Chan)
    → IsSound ps
    → get_elem? ps.chans id ≡ found
    → IsSound (received id ps found).0
IsSound-received ps id none h e = h
IsSound-received ps id (some ch) h e = go ch.buffer refl
  where
    go :
        (buffer : List Message)
        → ch.buffer ≡ buffer
        → IsSound
            (elim buffer as (λ b. PubSub × Option Message) [
              | [] ↦ (ps, none)
              | msg ∷ rest ↦
                  (record ps { chans = set ps.chans id (record ch { buffer = rest }) }, some msg)
            ]).0
    go [] p = h
    go (msg ∷ rest) p =
        let small : length ch.buffer ≤ capacity = elem_bounded ps.chans id ch h.bounded e in
        record {
          opened = λ channel i s.
              is_open-set ps.chans id i ch (record ch { buffer = rest }) e refl
              ∙ h.opened channel i s;
          apart = h.apart;
          bounded =
              set-AreBounded ps.chans id (record ch { buffer = rest }) h.bounded
                (omega (arith, (rw p at small)));
        }
