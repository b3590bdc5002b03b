-- ===== src/Pubsub/Buffers.antt =====
-- The buffers of the Go channels: what Publish does to those that are open.
use shoredb.Base.{
  ℕ, zero, suc, ◌+◌, ◌≤◌, ◌≡◌, refl, sym, ap, ◌∙◌, inl, inr, Bool, true, false, not, ◌||◌, Option,
  none, some, List, [], ◌∷◌, ◌++◌, arith, ltb, ◌==◌, Bool-cases, length, get_elem?, length-append,
}
use shoredb.Base.{set}
use mathlib.Core.Path.{subst}
use shoredb.Pubsub.{Message, Chan, capacity, send_to, count_sent, publish_loop}

abbrev pub open_chan : Option Chan → Bool
open_chan none = false
open_chan (some ch) = not ch.closed

-- A channel that was made, and not closed.
abbrev pub is_open : ℕ → List Chan → Bool
is_open id chans = open_chan (get_elem? chans id)

-- No channel holds more than its capacity.
abbrev pub AreBounded : List Chan → Type 0
AreBounded [] = Unit
AreBounded (ch ∷ chans) = (length ch.buffer ≤ capacity) × AreBounded chans

abbrev pub mem : ℕ → List ℕ → Bool
mem id [] = false
mem id (i ∷ ids) = i == id || mem id ids

pub set-AreBounded :
    (chans : List Chan) (id : ℕ) (ch : Chan)
    → AreBounded chans
    → length ch.buffer ≤ capacity
    → AreBounded (set chans id ch)
set-AreBounded [] id ch h e = tt
set-AreBounded (c ∷ chans) zero ch (here, more) e = (e, more)
set-AreBounded (c ∷ chans) (suc id) ch (here, more) e = (here, set-AreBounded chans id ch more e)

pub is_open-set :
    (chans : List Chan) (id i : ℕ) (ch new : Chan)
    → get_elem? chans id ≡ some ch
    → new.closed ≡ ch.closed
    → is_open i (set chans id new) ≡ is_open i chans
is_open-set [] id i ch new h e = refl
is_open-set (c ∷ chans) zero zero ch new h e = ap not e ∙ sym (ap open_chan h)
is_open-set (c ∷ chans) zero (suc i) ch new h e = refl
is_open-set (c ∷ chans) (suc id) zero ch new h e = refl
is_open-set (c ∷ chans) (suc id) (suc i) ch new h e = is_open-set chans id i ch new h e

-- A send or a loop of sends that does not panic, and leaves each channel open or closed as it was.
abbrev pub LeavesOpen : List Chan → Option (List Chan × ℕ) → Type 0
LeavesOpen chans none = true ≡ false
LeavesOpen chans (some (chans', n)) =
    ((i : ℕ) → is_open i chans' ≡ is_open i chans) × AreBounded chans'

send_to-LeavesOpen :
    (msg : Message) (id : ℕ) (chans : List Chan) (found : Option Chan)
    → get_elem? chans id ≡ found
    → open_chan found ≡ true
    → AreBounded chans
    → LeavesOpen chans (send_to msg id chans found)
send_to-LeavesOpen msg id chans none e h bounded = absurd (ground (arith, h))
send_to-LeavesOpen msg id chans (some ch) e h bounded =
    let unclosed : ch.closed ≡ false = ground (arith, h) in
    let longer : Chan = record { buffer = ch.buffer ++ msg ∷ []; closed = false } in
    elim (Bool-cases (ltb (length ch.buffer) capacity)) [
      | inl room ↦
          let size : length (ch.buffer ++ msg ∷ []) ≡ length ch.buffer + 1 =
            length-append ch.buffer (msg ∷ []) in
          let small : length longer.buffer ≤ capacity = rw size (ground (arith, room)) in
          rw (unclosed, room)
            (
              λ i. is_open-set chans id i ch longer e (sym unclosed),
              set-AreBounded chans id longer bounded small,
            )
      | inr full ↦ rw (unclosed, full) (λ i. refl, bounded)
    ]

count_sent-LeavesOpen :
    (chans : List Chan) (n : ℕ) (r : Option (List Chan × ℕ))
    → LeavesOpen chans r
    → LeavesOpen chans (count_sent n r)
count_sent-LeavesOpen chans n none h = h
count_sent-LeavesOpen chans n (some (chans', m)) h = h

LeavesOpen-trans :
    (chans chans' : List Chan) (r : Option (List Chan × ℕ))
    → ((i : ℕ) → is_open i chans' ≡ is_open i chans)
    → LeavesOpen chans' r
    → LeavesOpen chans r
LeavesOpen-trans chans chans' none same h = h
LeavesOpen-trans chans chans' (some (chans'', n)) same (h, bounded) = (λ i. h i ∙ same i, bounded)

pub publish_loop-LeavesOpen :
    (msg : Message) (ids : List ℕ) (chans : List Chan)
    → ((id : ℕ) → mem id ids ≡ true → is_open id chans ≡ true)
    → AreBounded chans
    → LeavesOpen chans (publish_loop msg ids chans)
unfolding publish_loop
publish_loop-LeavesOpen msg [] chans h bounded = (λ i. refl, bounded)
publish_loop-LeavesOpen msg (id ∷ ids) chans h bounded =
    go (send_to msg id chans (get_elem? chans id))
      (send_to-LeavesOpen msg id chans (get_elem? chans id) refl (h id (ground arith)) bounded)
      (λ chans' same bounded'.
        publish_loop-LeavesOpen msg ids chans' (λ i m. same i ∙ h i (ground (arith, m))) bounded')
  where
    go :
        (r : Option (List Chan × ℕ))
        → LeavesOpen chans r
        → ((chans' : List Chan)
            → ((i : ℕ) → is_open i chans' ≡ is_open i chans)
            → AreBounded chans'
            → LeavesOpen chans' (publish_loop msg ids chans'))
        → LeavesOpen chans
            (elim r [ none ↦ none | some (chans', n) ↦ count_sent n (publish_loop msg ids chans') ])
    go none left more = left
    go (some (chans', n)) (same, bounded') more =
        LeavesOpen-trans chans chans' (count_sent n (publish_loop msg ids chans')) same
          (count_sent-LeavesOpen chans' n (publish_loop msg ids chans') (more chans' same bounded'))

pub elem_bounded :
    (chans : List Chan) (id : ℕ) (ch : Chan)
    → AreBounded chans
    → get_elem? chans id ≡ some ch
    → length ch.buffer ≤ capacity
elem_bounded [] id ch h e = absurd (ground (arith, e))
elem_bounded (c ∷ chans) zero ch (here, more) e = subst (λ n. n ≤ capacity) (ap size e) here
  where
    size : Option Chan → ℕ
    size none = 0
    size (some d) = length d.buffer
elem_bounded (c ∷ chans) (suc id) ch (here, more) e = elem_bounded chans id ch more e
