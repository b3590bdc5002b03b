-- ===== src/Datastruct/Lists/Remove.antt =====
-- LREM: how many items go, which ones, and the least `int` as a count.
use mathlib.Core.List.{reverse, reverse-append, reverse-reverse}
use shoredb.Base.{
  ℕ, zero, suc, ◌+◌, ◌-◌, ◌^◌, ◌≤◌, ◌<◌, ◌≡◌, refl, ap, ◌∙◌, inl, inr, ◌&&◌, [], ◌∷◌, ◌++◌,
  append-nil, append_assoc, arith, Bytes, str_eq, ltb, if◌then◌else◌, Bool-cases,
}
use Prim.Native.Nat.{min}
use shoredb.Base.Int.{ℤ, pos, negsuc, min_int, wrap, neg_ℤ}
use shoredb.Datastruct.Lists.{Items, remove_all, remove_first, remove_last, l_rem}

-- How often a value stands in a list.
abbrev pub occurrences : Bytes → Items → ℕ
occurrences value [] = 0
occurrences value (item ∷ items) = (if str_eq item value then 1 else 0) + occurrences value items

-- The items that are not the value, in order.
abbrev pub others : Bytes → Items → Items
others value [] = []
others value (item ∷ items) =
    if str_eq item value then others value items else item ∷ others value items

-- The list without its first `k` occurrences of the value.
abbrev pub without_first : ℕ → Bytes → Items → Items
without_first k value [] = []
without_first zero value items = items
without_first (suc k) value (item ∷ items) =
    if str_eq item value
    then without_first k value items
    else item ∷ without_first (suc k) value items

remove_all_lem :
    (value : Bytes) (items new_items : Items) (removed : ℕ)
    → remove_all value items new_items removed
      ≡ (new_items ++ others value items, removed + occurrences value items)
unfolding remove_all
remove_all_lem value [] new_items removed = ground (arith, append-nil new_items)
remove_all_lem value (item ∷ items) new_items removed = ground (
  arith,
  remove_all_lem value items new_items (removed + 1),
  remove_all_lem value items (new_items ++ item ∷ []) removed,
  append_assoc new_items (item ∷ []) (others value items),
)

without_first-nil : (k : ℕ) (value : Bytes) → without_first k value [] ≡ []
without_first-nil zero value = refl
without_first-nil (suc k) value = refl

without_first-zero : (value : Bytes) (items : Items) → without_first 0 value items ≡ items
without_first-zero value [] = refl
without_first-zero value (item ∷ items) = refl

without_first-cons :
    (k : ℕ) (value item : Bytes) (items : Items)
    → without_first k value (item ∷ items) ≡ (
        if str_eq item value && ltb 0 k
        then without_first (k - 1) value items
        else item ∷ without_first k value items)
without_first-cons zero value item items = ground (arith, without_first-zero value items)
without_first-cons (suc k) value item items = ground arith

remove_first_lem :
    (value : Bytes) (items new_items : Items) (count removed : ℕ)
    → removed ≤ count
    → remove_first value (pos count) items new_items removed ≡ (
      new_items ++ without_first (count - removed) value items,
      removed + min (count - removed) (occurrences value items),
    )
unfolding remove_first
remove_first_lem value [] new_items count removed h =
    ground (arith, append-nil new_items, without_first-nil (count - removed) value)
remove_first_lem value (item ∷ items) new_items count removed h = ground (
  arith,
  remove_first_lem value items new_items count (removed + 1),
  remove_first_lem value items (new_items ++ item ∷ []) count removed,
  without_first-cons (count - removed) value item items,
  without_first-zero value items,
  append_assoc new_items (item ∷ []) (without_first (count - removed) value items),
)

remove_last_mirror :
    (value : Bytes) (count : ℤ) (items new_items : Items) (removed : ℕ)
    → remove_last value count items new_items removed ≡ (
        let (kept, n) = remove_first value count items (reverse new_items) removed in
        (reverse kept, n))
unfolding remove_first remove_last
remove_last_mirror value count [] new_items removed = rw reverse-reverse
remove_last_mirror value count (item ∷ items) new_items removed = ground (
  arith,
  remove_last_mirror value count items new_items (removed + 1),
  remove_last_mirror value count items (item ∷ new_items) removed,
  reverse-append (item ∷ []) new_items,
)

-- LREM with count 0 removes every occurrence of the value and nothing else, and replies how many.
pub l_rem-zero :
    (value : Bytes) (items : Items)
    → l_rem (pos 0) value items ≡ (others value items, occurrences value items)
unfolding l_rem
l_rem-zero value items = ground (arith, remove_all_lem value items [] 0)

-- With a positive count LREM removes that many occurrences from the head, or all if there are
-- fewer, and replies how many.
pub l_rem-pos :
    (n : ℕ) (value : Bytes) (items : Items)
    → l_rem (pos (suc n)) value items
      ≡ (without_first (suc n) value items, min (suc n) (occurrences value items))
unfolding l_rem
l_rem-pos n value items = ground (arith, remove_first_lem value items [] (suc n) 0)

negated_count : (n : ℕ) → suc n < 2 ^ 63 → wrap (neg_ℤ (negsuc n)) ≡ pos (suc n)
unfolding wrap neg_ℤ
negated_count n h = ground arith

l_rem-first :
    (n : ℕ) (value : Bytes) (items : Items)
    → l_rem (pos (suc n)) value items ≡ remove_first value (pos (suc n)) items [] 0
unfolding l_rem
l_rem-first n value items = refl

l_rem-last :
    (n : ℕ) (value : Bytes) (items : Items)
    → l_rem (negsuc n) value items
      ≡ remove_last value (wrap (neg_ℤ (negsuc n))) (reverse items) [] 0
unfolding l_rem
l_rem-last n value items = refl

-- With a negative count above the least `int` LREM does to the list what it does with the positive
-- count to its reverse, and gives the same reply.
pub l_rem_mirror :
    (n : ℕ) (value : Bytes) (items : Items)
    → suc n < 2 ^ 63
    → l_rem (negsuc n) value items ≡ (
      reverse (l_rem (pos (suc n)) value (reverse items)).0,
      (l_rem (pos (suc n)) value (reverse items)).1,
    )
l_rem_mirror n value items h =
    rw (l_rem-last n value items, negated_count n h, l_rem-first n value (reverse items))
      (remove_last_mirror value (pos (suc n)) (reverse items) [] 0)

occurrences-append :
    (value : Bytes) (xs ys : Items)
    → occurrences value (xs ++ ys) ≡ occurrences value xs + occurrences value ys
occurrences-append value [] ys = omega arith
occurrences-append value (x ∷ xs) ys = omega (arith, occurrences-append value xs ys)

others-append :
    (value : Bytes) (xs ys : Items) → others value (xs ++ ys) ≡ others value xs ++ others value ys
others-append value [] ys = refl
others-append value (x ∷ xs) ys = ground (arith, others-append value xs ys)

occurrences-reverse :
    (value : Bytes) (items : Items) → occurrences value (reverse items) ≡ occurrences value items
occurrences-reverse value [] = refl
occurrences-reverse value (x ∷ items) = rw (reverse-append (x ∷ []) items) (
    omega
      (arith, occurrences-append value (reverse items) (x ∷ []), occurrences-reverse value items))

others-reverse :
    (value : Bytes) (items : Items) → others value (reverse items) ≡ reverse (others value items)
others-reverse value [] = refl
others-reverse value (x ∷ items) =
    rw
      (
        reverse-append (x ∷ []) items,
        others-append value (reverse items) (x ∷ []),
        others-reverse value items,
      )
      (elim (Bool-cases (str_eq x value)) [
        | inl e ↦ rw e (rw append-nil)
        | inr e ↦ rw e (rw (reverse-append (x ∷ []) (others value items)))
      ])

-- As many occurrences are gone as were counted, and all else stands in order.
abbrev Removes : Bytes → Items → Items × ℕ → Type 0
Removes value items (kept, n) =
    (occurrences value kept + n ≡ occurrences value items)
    × (others value kept ≡ others value items)

others-Removes :
    (value : Bytes) (items : Items)
    → Removes value items (others value items, occurrences value items)
others-Removes value [] = (refl, refl)
others-Removes value (x ∷ items) = ground (arith, others-Removes value items)

without_first-Removes :
    (k : ℕ) (value : Bytes) (items : Items)
    → Removes value items (without_first k value items, min k (occurrences value items))
without_first-Removes k value [] = rw (without_first-nil k value) (omega arith, refl)
without_first-Removes zero value (x ∷ items) = (omega arith, refl)
without_first-Removes (suc k) value (x ∷ items) =
    ground (arith, without_first-Removes k value items, without_first-Removes (suc k) value items)

-- With a count below zero the loop removes nothing.
remove_last-negsuc :
    (value : Bytes) (k : ℕ) (items new_items : Items) (removed : ℕ)
    → remove_last value (negsuc k) items new_items removed ≡ (reverse items ++ new_items, removed)
unfolding remove_last
remove_last-negsuc value k [] new_items removed = refl
remove_last-negsuc value k (item ∷ items) new_items removed =
    rw (reverse-append (item ∷ []) items, append_assoc)
      (ground (arith, remove_last-negsuc value k items (item ∷ new_items) removed))

remove_first_whole :
    (n : ℕ) (value : Bytes) (items : Items)
    → remove_first value (pos n) items [] 0
      ≡ (without_first n value items, min n (occurrences value items))
remove_first_whole n value items = ground (arith, remove_first_lem value items [] n 0)

Removes-reverse :
    (value : Bytes) (items kept : Items) (n : ℕ)
    → Removes value (reverse items) (kept, n)
    → Removes value items (reverse kept, n)
Removes-reverse value items kept n (a, b) = (
  omega (arith, occurrences-reverse value kept, occurrences-reverse value items),
  others-reverse value kept
      ∙ ap reverse (b ∙ others-reverse value items)
      ∙ reverse-reverse (others value items),
)

remove_last-Removes :
    (value : Bytes) (count : ℤ) (items : Items)
    → Removes value items (remove_last value count (reverse items) [] 0)
remove_last-Removes value (negsuc k) items =
    rw (remove_last-negsuc value k (reverse items) [] 0, reverse-reverse, append-nil)
      (omega arith, refl)
remove_last-Removes value (pos n) items =
    rw
      (
        remove_last_mirror value (pos n) (reverse items) [] 0,
        remove_first_whole n value (reverse items),
      )
      (Removes-reverse value items _ _ (without_first-Removes n value (reverse items)))

-- For every count LREM takes away exactly as many occurrences of the value as it replies, and leaves
-- every other item in its order.
pub l_rem-Removes :
    (count : ℤ) (value : Bytes) (items : Items)
    → (occurrences value (l_rem count value items).0 + (l_rem count value items).1
        ≡ occurrences value items)
      × (others value (l_rem count value items).0 ≡ others value items)
l_rem-Removes (pos zero) value items = rw (l_rem-zero value items) (others-Removes value items)
l_rem-Removes (pos (suc n)) value items =
    rw (l_rem-pos n value items) (without_first-Removes (suc n) value items)
l_rem-Removes (negsuc n) value items =
    rw (l_rem-last n value items) (remove_last-Removes value (wrap (neg_ℤ (negsuc n))) items)

wrap-min_int : wrap (neg_ℤ min_int) ≡ min_int
unfolding wrap neg_ℤ
wrap-min_int = refl

-- With the least `int` as its count LREM removes nothing and replies 0.
pub l_rem-min_int : (value : Bytes) (items : Items) → l_rem min_int value items ≡ (items, 0)
l_rem-min_int value items =
    l_rem-last (2 ^ 63 - 1) value items
    ∙ ap (λ c. remove_last value c (reverse items) [] 0) wrap-min_int
    ∙ remove_last-negsuc value (2 ^ 63 - 1) (reverse items) [] 0
    ∙ rw (reverse-reverse, append-nil)
