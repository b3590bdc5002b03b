-- ===== src/Datastruct/Lists/Ends.antt =====
-- Pushing and popping at the two ends.
use mathlib.Core.List.{reverse, reverse-append}
use shoredb.Base.{
  take-length-append, ℕ, zero, suc, ◌+◌, ◌≡◌, refl, sym, ap, ◌∙◌, Option, some, List, [], ◌∷◌, ◌++◌,
  map, append_assoc, arith, Bytes, length, get_elem?, length-append,
}
use shoredb.Datastruct.Lists.{Items, l_push, l_push_loop, r_push, l_pop, r_pop}

l_push_loop-reverse :
    (values : List Bytes) (items : Items) → l_push_loop values items ≡ reverse values ++ items
unfolding l_push_loop
l_push_loop-reverse [] items = refl
l_push_loop-reverse (v ∷ values) items =
    l_push_loop-reverse values (v ∷ items) ∙ rw (reverse-append (v ∷ []) values, append_assoc)

length-reverse : (items : Items) → length (reverse items) ≡ length items
length-reverse [] = refl
length-reverse (v ∷ items) =
    rw (reverse-append (v ∷ []) items)
      (omega (arith, length-append (reverse items) (v ∷ []), length-reverse items))

pub length-l_push :
    (values : List Bytes) (items : Items)
    → length (l_push values items).0 ≡ length values + length items
unfolding l_push
length-l_push values items =
    ap length (l_push_loop-reverse values items)
    ∙ length-append (reverse values) items
    ∙ ap (λ n. n + length items) (length-reverse values)

get_elem?-concat {ℓ} :
    {A : Type ℓ} (xs : List A) (x : A) → get_elem? (xs ++ x ∷ []) (length xs) ≡ some x
get_elem?-concat [] x = refl
get_elem?-concat (y ∷ xs) x = get_elem?-concat xs x

pub r_pop-concat : (items : Items) (v : Bytes) → r_pop (items ++ v ∷ []) ≡ (items, some v)
unfolding r_pop
r_pop-concat items v = ground (
  arith,
  length-append items (v ∷ []),
  take-length-append items (v ∷ []),
  get_elem?-concat items v,
)

-- The right end is the left end of the reversed list: RPUSH does to a list what LPUSH does to its
-- reverse, with the same reply.
pub r_push_mirror :
    (values : List Bytes) (items : Items)
    → (reverse (r_push values items).0 ≡ (l_push values (reverse items)).0)
      × ((r_push values items).1 ≡ (l_push values (reverse items)).1)
unfolding l_push r_push
r_push_mirror values items =
    let e = reverse-append items values ∙ sym (l_push_loop-reverse values (reverse items)) in
    (e, sym (length-reverse (items ++ values)) ∙ ap length e)

l_pop-cons : (v : Bytes) (items : Items) → l_pop (v ∷ items) ≡ (items, some v)
unfolding l_pop
l_pop-cons v items = refl

-- RPOP is LPOP on the reversed list.
pub r_pop_mirror :
    (items : Items) → r_pop (reverse items) ≡ (reverse (l_pop items).0, (l_pop items).1)
r_pop_mirror [] = unfold r_pop l_pop in refl
r_pop_mirror (v ∷ items) =
    rw (reverse-append (v ∷ []) items)
      (r_pop-concat (reverse items) v ∙ ap (λ p. (reverse p.0, p.1)) (sym (l_pop-cons v items)))

l_push-concat :
    (values : List Bytes) (v : Bytes) (items : Items)
    → (l_push (values ++ v ∷ []) items).0 ≡ v ∷ (l_push values items).0
unfolding l_push
l_push-concat values v items =
    l_push_loop-reverse (values ++ v ∷ []) items
    ∙ rw (reverse-append values (v ∷ [])) (ap (◌∷◌ v) (sym (l_push_loop-reverse values items)))

-- A pop gives back the last value that was pushed at its end, and leaves what the other pushes made.
pub pop-push :
    (values : List Bytes) (v : Bytes) (items : Items)
    → (l_pop (l_push (values ++ v ∷ []) items).0 ≡ ((l_push values items).0, some v))
      × (r_pop (r_push (values ++ v ∷ []) items).0 ≡ ((r_push values items).0, some v))
pop-push values v items = (
  rw l_push-concat (l_pop-cons v (l_push values items).0),
  unfold r_push in rw (← append_assoc) (r_pop-concat (items ++ values) v),
)

-- The answers of so many calls of LPop.
abbrev pub pop_all : ℕ → Items → List (Option Bytes)
pop_all zero items = []
pop_all (suc n) items = (l_pop items).1 ∷ pop_all n (l_pop items).0

pop_all-map : (items : Items) → pop_all (length items) items ≡ map some items
pop_all-map [] = refl
pop_all-map (v ∷ items) = rw (l_pop-cons v items) (ap (◌∷◌ (some v)) (pop_all-map items))

-- As many pops on the left as RPUSH answers give the items that were there and then the pushed
-- ones, in their order.
pub pop_all-r_push :
    (values : List Bytes) (items : Items)
    → pop_all (r_push values items).1 (r_push values items).0 ≡ map some (items ++ values)
pop_all-r_push values items = unfold r_push in pop_all-map (items ++ values)
