-- ===== src/Datastruct/Lists/Index.antt =====
-- Indices from both ends: LRANGE, LINDEX and LSET against element-wise descriptions.
use shoredb.Base.{
  ℕ, zero, suc, ◌+◌, ◌-◌, ◌≤◌, ◌<◌, ◌≡◌, refl, ap, ◌∙◌, inl, inr, true, ◌&&◌, none, some, List, [],
  ◌∷◌, arith, Bytes, ltb, leb, ◌==◌, ==_iff, if◌then◌else◌, Bool-cases, is_some, length, get_elem?,
  set, take, drop, suc_eq_zero,
}
use shoredb.Base.{length-set, get_elem?-drop, get_elem?-set_self, get_elem?-set_ne}
use shoredb.Base.Int.{ℤ, pos, negsuc, ◌+ℤ◌, pos_part, leb_ℤ, eq_ℤ}
use shoredb.Datastruct.Lists.{index_at, set_at, Items, l_range, slice, from_end, l_index, l_set}

get_elem?-past {ℓ} : {A : Type ℓ} (xs : List A) (i : ℕ) → length xs ≤ i → get_elem? xs i ≡ none
get_elem?-past [] i h = refl
get_elem?-past (x ∷ xs) zero h = absurd (omega arith)
get_elem?-past (x ∷ xs) (suc i) h = get_elem?-past xs i (omega arith)

get_elem?-take_if {ℓ} :
    {A : Type ℓ} (n i : ℕ) (xs : List A)
    → get_elem? (take n xs) i ≡ (if ltb i n then get_elem? xs i else none)
get_elem?-take_if zero i xs = ground arith
get_elem?-take_if (suc n) i [] = ground arith
get_elem?-take_if (suc n) zero (x ∷ xs) = ground arith
get_elem?-take_if (suc n) (suc i) (x ∷ xs) = get_elem?-take_if n i xs ∙ ground arith

window :
    (a b i : ℕ) (items : Items)
    → a ≤ b
    → get_elem? (take (b + 1 - a) (drop a items)) i
      ≡ (if leb (a + i) b then get_elem? items (a + i) else none)
window a b i items h =
    get_elem?-take_if (b + 1 - a) i (drop a items) ∙ rw get_elem?-drop (ground arith)

slice_elem :
    (start stop : ℤ) (items : Items) (i : ℕ)
    → 0 < length items
    → get_elem? (slice start stop items) i ≡ (
        if leb_ℤ (pos (pos_part start + i)) stop
        then get_elem? items (pos_part start + i)
        else none)
slice_elem (pos a) (pos b) items i h =
    ground
      (arith, window a b i items, window a (length items - 1) i items, get_elem?-past items (a + i))
slice_elem (pos a) (negsuc b) items i h = ground arith
slice_elem (negsuc a) (pos b) items i h =
    ground
      (arith, window 0 b i items, window 0 (length items - 1) i items, get_elem?-past items (0 + i))
slice_elem (negsuc a) (negsuc b) items i h = ground arith

-- Where an index points, from the start or from the end of a list of `n` items: the number of items in
-- front of the place, and of those up to and with it.
abbrev pub items_before : ℕ → ℤ → ℕ
items_before n (pos i) = i
items_before n (negsuc k) = n - suc k

abbrev pub items_through : ℕ → ℤ → ℕ
items_through n (pos i) = suc i
items_through n (negsuc k) = n - k

pos_part-from_end : (n : ℕ) (i : ℤ) → pos_part (from_end n i) ≡ items_before n i
unfolding ◌+ℤ◌
pos_part-from_end n (pos i) = ground arith
pos_part-from_end n (negsuc k) = ground arith

leb-from_end : (n m : ℕ) (i : ℤ) → leb_ℤ (pos m) (from_end n i) ≡ ltb m (items_through n i)
unfolding ◌+ℤ◌
leb-from_end n m (pos i) = ground arith
leb-from_end n m (negsuc k) = ground arith

-- The reply of LRANGE, place by place: it starts behind the items in front of the start, and goes on up
-- to and with the item at the stop, or to the end of the list. An index of `-1` is the last place, `-2`
-- the one before, and so on; a start in front of the list is its first place, and a stop there leaves
-- nothing.
pub l_range_elem :
    (start stop : ℤ) (items : Items) (i : ℕ)
    → get_elem? (l_range start stop items) i ≡ (
        if ltb (items_before (length items) start + i) (items_through (length items) stop)
        then get_elem? items (items_before (length items) start + i)
        else none)
unfolding l_range
l_range_elem start stop [] i = ground arith
l_range_elem start stop (x ∷ items) i =
    let n = length (x ∷ items) in
    rw (suc_eq_zero (length items)) (
      slice_elem (from_end n start) (from_end n stop) (x ∷ items) i (omega arith)
      ∙ rw (pos_part-from_end n start, leb-from_end n (items_before n start + i) stop) refl)

get_elem?-set :
    (xs : Items) (i j : ℕ) (v : Bytes)
    → i < length xs
    → get_elem? (set xs i v) j ≡ (if i == j then some v else get_elem? xs j)
get_elem?-set xs i j v h = elim (Bool-cases (i == j)) [
  | inl e ↦ rw e (rw (← (==_iff i j).0 e) (get_elem?-set_self xs i v h))
  | inr e ↦ rw e (get_elem?-set_ne xs v (λ p. ground arith))
]

length-set_at : (a : ℤ) (v : Bytes) (items : Items) → length (set_at a v items).0 ≡ length items
length-set_at (pos a) v items = ground (arith, length-set items a v)
length-set_at (negsuc a) v items = ground arith

set_at_fails :
    (a : ℤ) (v : Bytes) (items : Items)
    → (set_at a v items).0 ≡ (if (set_at a v items).1 then (set_at a v items).0 else items)
set_at_fails (pos a) v items = ground arith
set_at_fails (negsuc a) v items = ground arith

get_elem?-inside : (items : Items) (i : ℕ) → i < length items → is_some (get_elem? items i) ≡ true
get_elem?-inside [] i h = absurd (omega arith)
get_elem?-inside (x ∷ items) zero h = refl
get_elem?-inside (x ∷ items) (suc i) h = get_elem?-inside items i (omega arith)

set_at_finds :
    (a : ℤ) (v : Bytes) (items : Items) → (set_at a v items).1 ≡ is_some (index_at a items)
set_at_finds (pos a) v items = ground (arith, get_elem?-inside items a)
set_at_finds (negsuc a) v items = ground arith

index_at-set_at :
    (a b : ℤ) (v : Bytes) (items : Items)
    → index_at b (set_at a v items).0
      ≡ (if (set_at a v items).1 && eq_ℤ a b then some v else index_at b items)
index_at-set_at (pos a) (pos b) v items =
    ground (arith, get_elem?-set items a b v, length-set items a v)
index_at-set_at (pos a) (negsuc b) v items = ground (arith, length-set items a v)
index_at-set_at (negsuc a) b v items = ground arith

-- After LSET at `i`, LINDEX reads the new value at the place of `i` (written from either end) and
-- what it read before at every other place; LSET succeeds exactly where LINDEX finds an item, keeps
-- the length, and where it fails the list is unchanged.
pub l_index-l_set :
    (i j : ℤ) (v : Bytes) (items : Items)
    → (l_index j (l_set i v items).0 ≡ (
        if (l_set i v items).1 && eq_ℤ (from_end (length items) i) (from_end (length items) j)
        then some v
        else l_index j items))
      × ((l_set i v items).1 ≡ is_some (l_index i items))
      × (length (l_set i v items).0 ≡ length items)
      × ((l_set i v items).0 ≡ (if (l_set i v items).1 then (l_set i v items).0 else items))
unfolding l_index l_set
l_index-l_set i j v items =
    let a = from_end (length items) i in
    let b = from_end (length items) j in
    (
      ap (λ n. index_at (from_end n j) (set_at a v items).0) (length-set_at a v items)
          ∙ index_at-set_at a b v items,
      set_at_finds a v items,
      length-set_at a v items,
      set_at_fails a v items,
    )
