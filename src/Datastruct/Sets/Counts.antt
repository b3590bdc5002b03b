-- ===== src/Datastruct/Sets/Counts.antt =====
-- SADD, SREM and SPOP: their counts and the members behind them.
use shoredb.Base.{
  ℕ, zero, suc, ◌+◌, ◌%◌, ◌<◌, ◌≡◌, refl, sym, ap, ◌∙◌, inl, inr, Bool, true, false, not, ◌&&◌,
  ◌||◌, Option, some, List, [], ◌∷◌, arith, Bytes, str_eq, str_eq_iff, Bool-cases, length,
  get_elem?,
}
use shoredb.Base.Dict.{
  lookup, insert, erase, has, keys, IsMap, lookup-insert, lookup-erase, length-insert, length-erase,
  IsMap-insert, IsMap-erase,
}
use mathlib.Core.Path.{subst}
use shoredb.Datastruct.Sets.{
  pop_member, Members, s_add, s_add_loop, s_rem, s_rem_loop, s_pop, s_card, s_is_member,
}

-- Whether a text stands in a list.
abbrev pub among : Bytes → List Bytes → Bool
among member [] = false
among member (m ∷ members) = str_eq m member || among member members

s_add_loop_member :
    (members : List Bytes) (items : Members) (added : ℕ) (m : Bytes)
    → has m (s_add_loop members items added).0 ≡ (has m items || among m members)
unfolding s_add_loop
s_add_loop_member [] items added m = ground arith
s_add_loop_member (x ∷ members) items added m = ground (
  arith,
  s_add_loop_member members items added m,
  s_add_loop_member members (insert x tt items) (added + 1) m,
  lookup-insert x m tt items,
  str_eq_iff x m,
)

s_add_loop_count :
    (members : List Bytes) (items : Members) (added : ℕ)
    → length (s_add_loop members items added).0 + added
      ≡ length items + (s_add_loop members items added).1
unfolding s_add_loop
s_add_loop_count [] items added = refl
s_add_loop_count (x ∷ members) items added = ground (
  arith,
  s_add_loop_count members items added,
  s_add_loop_count members (insert x tt items) (added + 1),
  length-insert x tt items,
)

s_add_loop-IsMap :
    (members : List Bytes) (items : Members) (added : ℕ)
    → IsMap items
    → IsMap (s_add_loop members items added).0
unfolding s_add_loop
s_add_loop-IsMap [] items added h = h
s_add_loop-IsMap (x ∷ members) items added h = elim (Bool-cases (has x items)) [
  | inl e ↦ rw e (s_add_loop-IsMap members items added h)
  | inr e ↦ rw e (s_add_loop-IsMap members _ (added + 1) (IsMap-insert x tt items h))
]

-- On a set that holds no member twice: after SADD exactly the old members and the arguments are
-- members, none of them twice, and the reply is by how much the set has grown.
pub s_add_adds :
    (members : List Bytes) (items : Members)
    → IsMap items
    → IsMap (s_add members items).0
      × ((m : Bytes)
          → s_is_member m (s_add members items).0 ≡ (s_is_member m items || among m members))
      × (s_card (s_add members items).0 ≡ s_card items + (s_add members items).1)
unfolding s_add
s_add_adds members items h = (
  s_add_loop-IsMap members items 0 h,
  s_add_loop_member members items 0,
  omega (arith, s_add_loop_count members items 0),
)

s_rem_loop_member :
    (members : List Bytes) (items : Members) (removed : ℕ) (m : Bytes)
    → has m (s_rem_loop members items removed).0 ≡ (has m items && not (among m members))
unfolding s_rem_loop
s_rem_loop_member [] items removed m = ground arith
s_rem_loop_member (x ∷ members) items removed m = ground (
  arith,
  s_rem_loop_member members items removed m,
  s_rem_loop_member members (erase x items) (removed + 1) m,
  lookup-erase x m items,
  str_eq_iff x m,
)

s_rem_loop_count :
    (members : List Bytes) (items : Members) (removed : ℕ)
    → IsMap items
    → IsMap (s_rem_loop members items removed).0
      × (length (s_rem_loop members items removed).0 + (s_rem_loop members items removed).1
          ≡ length items + removed)
unfolding s_rem_loop
s_rem_loop_count [] items removed h = (h, refl)
s_rem_loop_count (x ∷ members) items removed h = elim (Bool-cases (has x items)) [
  | inl e ↦
      let (a, b) = s_rem_loop_count members (erase x items) (removed + 1) (IsMap-erase x items h) in
      let n = rw e at (length-erase x items h) in rw e (a, omega arith)
  | inr e ↦ rw e (s_rem_loop_count members items removed h)
]

-- On a set that holds no member twice: after SREM exactly the old members that are no argument are
-- members, none of them twice, and the reply is by how much the set has shrunk.
pub s_rem_removes :
    (members : List Bytes) (items : Members)
    → IsMap items
    → IsMap (s_rem members items).0
      × ((m : Bytes)
          → s_is_member m (s_rem members items).0 ≡ (s_is_member m items && not (among m members)))
      × (s_card (s_rem members items).0 + (s_rem members items).1 ≡ s_card items)
unfolding s_rem
s_rem_removes members items h =
    let (a, b) = s_rem_loop_count members items 0 h in
    (a, s_rem_loop_member members items 0, omega arith)

get_elem?-keys :
    (items : Members) (i : ℕ) (m : Bytes) → get_elem? (keys items) i ≡ some m → has m items ≡ true
unfolding lookup
get_elem?-keys [] i m h = cc
get_elem?-keys ((k, v) ∷ items) zero m h = ground (arith, str_eq_iff k m)
get_elem?-keys ((k, v) ∷ items) (suc i) m h = ground (arith, get_elem?-keys items i m)

length-keys : (items : Members) → length (keys items) ≡ length items
length-keys [] = refl
length-keys ((k, v) ∷ items) = ap suc (length-keys items)

get_elem?-inside {ℓ} :
    {A : Type ℓ} (xs : List A) (i : ℕ) → i < length xs → (a : A) × (get_elem? xs i ≡ some a)
get_elem?-inside [] i h = absurd (omega arith)
get_elem?-inside (x ∷ xs) zero h = (x, refl)
get_elem?-inside (x ∷ xs) (suc i) h = get_elem?-inside xs i (omega arith)

-- `m` was a member, it is popped, all others stay, and no member stands twice.
abbrev pub Pops : Members → Bytes → Members × Option Bytes → Type 0
Pops items m (left, popped) =
    (popped ≡ some m)
    × (s_is_member m items ≡ true)
    × ((j : Bytes) → s_is_member j left ≡ (s_is_member j items && not (str_eq m j)))
    × (s_card left + 1 ≡ s_card items)
    × IsMap left

-- SPOP on a set that is not empty and holds no member twice, whichever member Go's map range gives
-- first: it pops a member, which is then gone while all others stay, and no member stands twice.
pub s_pop-Pops :
    (pick : ℕ) (items : Members)
    → IsMap items
    → 0 < s_card items
    → (m : Bytes) × Pops items m (s_pop pick items)
unfolding s_pop
s_pop-Pops pick items h pos =
    let (m, p) =
      get_elem?-inside (keys items) (pick % length items) (omega (arith, length-keys items)) in
    let found = get_elem?-keys items (pick % length items) m p in
    let facts : Pops items m (pop_member items (some m)) = (
      refl,
      found,
      λ j. ground (arith, lookup-erase m j items),
      ground (arith, length-erase m items h),
      IsMap-erase m items h,
    ) in
    (m, subst (λ o. Pops items m (pop_member items o)) (sym p) facts)

place_of :
    (items : Members) (m : Bytes)
    → has m items ≡ true
    → (i : ℕ) × (i < length items) × (get_elem? (keys items) i ≡ some m)
unfolding lookup
place_of [] m h = cc
place_of ((k, v) ∷ items) m h = elim (Bool-cases (str_eq k m)) [
  | inl e ↦ (0, omega arith, ap some ((str_eq_iff k m).0 e))
  | inr e ↦ let (i, lt, found) = place_of items m (ground arith) in (suc i, omega arith, found)
]

-- Every member can be the one that SPOP pops.
pub s_pop_any :
    (items : Members) (m : Bytes)
    → s_is_member m items ≡ true
    → (pick : ℕ) × ((s_pop pick items).1 ≡ some m)
unfolding s_pop
s_pop_any items m h =
    let (i, lt, found) = place_of items m h in
    let e : i % length items ≡ i = grind arith in
    (i, ap (λ o. (pop_member items o).1) (ap (get_elem? (keys items)) e ∙ found))
