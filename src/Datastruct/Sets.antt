-- ===== src/Datastruct/Sets.antt =====
-- `datastruct.Set`: the content of a set is its map `items`.
pub mod Counts
pub mod Algebra
use shoredb.Base.{
  ℕ, zero, suc, ◌+◌, ◌-◌, ◌*◌, ◌/◌, ◌%◌, ◌^◌, ◌≤◌, ◌<◌, ◌≡◌, refl, sym, ap, ◌∙◌, ◌≢◌, ◌↔◌, ◌⊎◌, inl,
  inr, Bool, true, false, not, ◌&&◌, ◌||◌, Option, none, some, List, [], ◌∷◌, ◌++◌, map, append-nil,
  append_assoc, arith, Bytes, codes, str_eq, str_eq_iff, str_eq_refl, ltb, leb, ◌==◌, ==_iff,
  if◌then◌else◌, Bool-cases, Option-cases, is_some, length, get_elem?, set, take, drop,
  length-append,
}
use shoredb.Base.Dict.{Dict, lookup, insert, erase, has, keys}

abbrev pub Members : Type 0
Members = Dict (Unit {0})

abbrev pub new_set : Members
new_set = []

-- The loop of Set.SAdd, with the count of the members added.
unfoldable pub s_add_loop : List Bytes → Members → ℕ → Members × ℕ
s_add_loop [] items added = (items, added)
s_add_loop (member ∷ members) items added =
    let skip = s_add_loop members items added in
    let add = s_add_loop members (insert member tt items) (added + 1) in
    if has member items then skip else add

-- Set.SAdd
unfoldable pub s_add : List Bytes → Members → Members × ℕ
unfolding s_add_loop
s_add members items = s_add_loop members items 0

-- The loop of Set.SRem
unfoldable pub s_rem_loop : List Bytes → Members → ℕ → Members × ℕ
s_rem_loop [] items removed = (items, removed)
s_rem_loop (member ∷ members) items removed =
    let remove = s_rem_loop members (erase member items) (removed + 1) in
    let skip = s_rem_loop members items removed in if has member items then remove else skip

-- Set.SRem
unfoldable pub s_rem : List Bytes → Members → Members × ℕ
unfolding s_rem_loop
s_rem members items = s_rem_loop members items 0

-- Set.SIsMember
abbrev pub s_is_member : Bytes → Members → Bool
s_is_member member items = has member items

-- Set.SMembers
abbrev pub s_members : Members → List Bytes
s_members items = keys items

-- Set.SCard
abbrev pub s_card : Members → ℕ
s_card items = length items

abbrev pub pop_member : Members → Option Bytes → Members × Option Bytes
pop_member items none = (items, none)
pop_member items (some member) = (erase member items, some member)

-- Set.SPop: which member a range over the map visits first is not specified, so its place is an
-- argument.
unfoldable pub s_pop : ℕ → Members → Members × Option Bytes
s_pop pick items = pop_member items (get_elem? (keys items) (pick % length items))

-- `inAll` of Set.SInter, and the negation of `inOther` of Set.SDiff for the other test.
unfoldable pub in_all : Bytes → List Members → Bool
in_all member [] = true
in_all member (other ∷ others) =
    let rest = in_all member others in if not (s_is_member member other) then false else rest

unfoldable pub in_other : Bytes → List Members → Bool
in_other member [] = false
in_other member (other ∷ others) =
    let rest = in_other member others in if s_is_member member other then true else rest

-- `if test(member) { result = append(result, member) }`
unfoldable pub select : (Bytes → Bool) → List Bytes → List Bytes
select test [] = []
select test (member ∷ members) =
    let rest = select test members in if test member then member ∷ rest else rest

-- Set.SInter
unfoldable pub s_inter : Members → List Members → List Bytes
unfolding select in_all
s_inter items [] = s_members items
s_inter items (other ∷ others) = select (λ member. in_all member (other ∷ others)) (keys items)

-- `seen[member] = struct{}{}` for each member
unfoldable pub see : List Bytes → Members → Members
see [] seen = seen
see (member ∷ members) seen = see members (insert member tt seen)

unfoldable pub see_all : List Members → Members → Members
unfolding see
see_all [] seen = seen
see_all (other ∷ others) seen = see_all others (see (s_members other) seen)

-- Set.SUnion
unfoldable pub s_union : Members → List Members → List Bytes
unfolding see_all
s_union items others = keys (see_all others (see (keys items) []))

-- Set.SDiff
unfoldable pub s_diff : Members → List Members → List Bytes
unfolding select in_other
s_diff items others = select (λ member. not (in_other member others)) (keys items)

s_add_runs :
    s_add (codes "x" ∷ codes "y" ∷ codes "x" ∷ []) [] ≡ ((codes "x", tt) ∷ (codes "y", tt) ∷ [], 2)
unfolding s_add insert lookup str_eq
s_add_runs = refl
