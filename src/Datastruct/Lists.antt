-- ===== src/Datastruct/Lists.antt =====
-- `datastruct.List`: the content of a list is its slice `items`.
pub mod Ends
pub mod Index
pub mod Remove
use mathlib.Core.List.{reverse}
use shoredb.Base.{
  ℕ, zero, suc, ◌+◌, ◌-◌, ◌*◌, ◌/◌, ◌%◌, ◌^◌, ◌≤◌, ◌<◌, ◌≡◌, refl, sym, ap, ◌∙◌, ◌≢◌, ◌↔◌, ◌⊎◌, inl,
  inr, Bool, true, false, not, ◌&&◌, ◌||◌, Option, none, some, List, [], ◌∷◌, ◌++◌, map, append-nil,
  append_assoc, arith, Bytes, codes, str_eq, str_eq_iff, str_eq_refl, ltb, leb, ◌==◌, ==_iff,
  if◌then◌else◌, Bool-cases, Option-cases, is_some, length, get_elem?, set, take, drop,
  length-append,
}
use shoredb.Base.Int.{ℤ, pos, negsuc, pos_part, ltb_ℤ, leb_ℤ, ◌+ℤ◌, neg_ℤ, wrap}

abbrev pub Items : Type 0
Items = List Bytes

abbrev pub new_list : Items
new_list = []

l_push_loop : List Bytes → Items → Items
l_push_loop [] items = items
l_push_loop (value ∷ values) items = l_push_loop values (value ∷ items)

-- List.LPush: the new content and the new length.
unfoldable pub l_push : List Bytes → Items → Items × ℕ
unfolding l_push_loop
l_push values items = let items' = l_push_loop values items in (items', length items')

-- List.RPush
unfoldable pub r_push : List Bytes → Items → Items × ℕ
r_push values items = let items' = items ++ values in (items', length items')

-- List.LPop: `none` stands for the result false.
unfoldable pub l_pop : Items → Items × Option Bytes
l_pop [] = ([], none)
l_pop (value ∷ items) = (items, some value)

-- List.RPop
unfoldable pub r_pop : Items → Items × Option Bytes
r_pop items =
    if length items == 0
    then (items, none)
    else (take (length items - 1) items, get_elem? items (length items - 1))

-- List.LLen
abbrev pub l_len : Items → ℕ
l_len items = length items

-- A negative index counts from the end.
abbrev pub from_end : ℕ → ℤ → ℤ
from_end n i = if ltb_ℤ i (pos 0) then pos n +ℤ i else i

abbrev slice : ℤ → ℤ → Items → Items
slice start stop items =
    let n = length items in
    let start = if ltb_ℤ start (pos 0) then pos 0 else start in
    let stop = if leb_ℤ (pos n) stop then pos (n - 1) else stop in
    if ltb_ℤ stop start || leb_ℤ (pos n) start
    then []
    else take (pos_part stop + 1 - pos_part start) (drop (pos_part start) items)

-- List.LRange
unfoldable pub l_range : ℤ → ℤ → Items → Items
unfolding ◌+ℤ◌
l_range start stop items =
    let n = length items in if n == 0 then [] else slice (from_end n start) (from_end n stop) items

-- The bounds test of LIndex and LSet.
abbrev pub outside : ℤ → ℕ → Bool
outside i n = ltb_ℤ i (pos 0) || leb_ℤ (pos n) i

abbrev pub index_at : ℤ → Items → Option Bytes
index_at i items = if outside i (length items) then none else get_elem? items (pos_part i)

-- List.LIndex
unfoldable pub l_index : ℤ → Items → Option Bytes
unfolding ◌+ℤ◌
l_index index items = index_at (from_end (length items) index) items

abbrev pub set_at : ℤ → Bytes → Items → Items × Bool
set_at i value items =
    if outside i (length items) then (items, false) else (set items (pos_part i) value, true)

-- List.LSet
unfoldable pub l_set : ℤ → Bytes → Items → Items × Bool
unfolding ◌+ℤ◌
l_set index value items = set_at (from_end (length items) index) value items

-- `for _, item := range l.items`, for count == 0
unfoldable pub remove_all : Bytes → Items → Items → ℕ → Items × ℕ
remove_all value [] new_items removed = (new_items, removed)
remove_all value (item ∷ items) new_items removed =
    let drop_it = remove_all value items new_items (removed + 1) in
    let keep_it = remove_all value items (new_items ++ item ∷ []) removed in
    if str_eq item value then drop_it else keep_it

-- The same loop for count > 0
unfoldable pub remove_first : Bytes → ℤ → Items → Items → ℕ → Items × ℕ
remove_first value count [] new_items removed = (new_items, removed)
remove_first value count (item ∷ items) new_items removed =
    let drop_it = remove_first value count items new_items (removed + 1) in
    let keep_it = remove_first value count items (new_items ++ item ∷ []) removed in
    if str_eq item value && ltb_ℤ (pos removed) count then drop_it else keep_it

-- `for i := len(l.items) - 1; i >= 0; i--`: the first list holds the items still to be visited.
unfoldable pub remove_last : Bytes → ℤ → Items → Items → ℕ → Items × ℕ
remove_last value count [] new_items removed = (new_items, removed)
remove_last value count (item ∷ items) new_items removed =
    let drop_it = remove_last value count items new_items (removed + 1) in
    let keep_it = remove_last value count items (item ∷ new_items) removed in
    if str_eq item value && ltb_ℤ (pos removed) count then drop_it else keep_it

-- List.LRem: `-count` wraps around at the least `int`.
unfoldable pub l_rem : ℤ → Bytes → Items → Items × ℕ
unfolding remove_all remove_first remove_last wrap neg_ℤ
l_rem (pos zero) value items = remove_all value items [] 0
l_rem (pos (suc n)) value items = remove_first value (pos (suc n)) items [] 0
l_rem (negsuc n) value items = remove_last value (wrap (neg_ℤ (negsuc n))) (reverse items) [] 0

abbrev pub letters : Items
letters = codes "a" ∷ codes "b" ∷ codes "a" ∷ codes "c" ∷ []

l_range_runs :
    (l_range (pos 1) (negsuc 1) letters ≡ codes "b" ∷ codes "a" ∷ [])
    × (l_range (negsuc 9) (pos 9) letters ≡ letters)
    × (l_range (pos 2) (pos 1) letters ≡ [])
unfolding l_range
l_range_runs = (refl, refl, refl)

l_rem_runs :
    (l_rem (pos 0) (codes "a") letters ≡ (codes "b" ∷ codes "c" ∷ [], 2))
    × (l_rem (pos 1) (codes "a") letters ≡ (codes "b" ∷ codes "a" ∷ codes "c" ∷ [], 1))
    × (l_rem (negsuc 0) (codes "a") letters ≡ (codes "a" ∷ codes "b" ∷ codes "c" ∷ [], 1))
unfolding l_rem str_eq
l_rem_runs = (refl, refl, refl)
