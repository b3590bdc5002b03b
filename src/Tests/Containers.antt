-- ===== src/Tests/Containers.antt =====
-- Runs of pkg/datastruct.
use shoredb.Base.{
  ◌+◌, ◌≡◌, refl, not, ◌&&◌, ◌||◌, none, List, [], ◌∷◌, Bytes, codes, str_eq, ltb, if◌then◌else◌,
  get_elem?,
}
use shoredb.Base.Int.{negsuc, min_int}
use shoredb.Base.Dict.{IsMap, lookup}
use shoredb.Datastruct.Lists.{letters, l_range, l_rem}
use shoredb.Datastruct.Lists.Index.{l_range_elem, items_before, items_through}
use shoredb.Datastruct.Lists.Remove.{occurrences, others, l_rem-Removes, l_rem-min_int}
use shoredb.Datastruct.Sets.{Members, s_add, s_is_member, s_card, s_inter, s_union, s_diff}
use shoredb.Datastruct.Sets.Counts.{among, s_add_adds}
use shoredb.Datastruct.Sets.Algebra.{Distinct, in_each, in_one, set_algebra}
use shoredb.Datastruct.Hashes.{FieldMap, h_get, h_len, h_del}
use shoredb.Datastruct.Hashes.Fields.{h_del_deletes}

abbrev a : Bytes
a = codes "a"

abbrev b : Bytes
b = codes "b"

abbrev c : Bytes
c = codes "c"

l_range_elem_example : get_elem? (l_range (negsuc 2) (negsuc 1) letters) 1 ≡ (
    if ltb (items_before 4 (negsuc 2) + 1) (items_through 4 (negsuc 1))
    then get_elem? letters (items_before 4 (negsuc 2) + 1)
    else none)
l_range_elem_example = l_range_elem (negsuc 2) (negsuc 1) letters 1

l_rem-Removes_example :
    (occurrences a (l_rem (negsuc 0) a letters).0 + (l_rem (negsuc 0) a letters).1
      ≡ occurrences a letters)
    × (others a (l_rem (negsuc 0) a letters).0 ≡ others a letters)
l_rem-Removes_example = l_rem-Removes (negsuc 0) a letters

l_rem-min_int_example : l_rem min_int a letters ≡ (letters, 0)
l_rem-min_int_example = l_rem-min_int a letters

abbrev two : Members
two = (a, tt) ∷ (b, tt) ∷ []

two-IsMap : IsMap two
unfolding lookup str_eq
two-IsMap = (refl, (refl, tt))

s_add_adds_example :
    IsMap (s_add (b ∷ c ∷ c ∷ []) two).0
    × ((m : Bytes)
        → s_is_member m (s_add (b ∷ c ∷ c ∷ []) two).0
          ≡ (s_is_member m two || among m (b ∷ c ∷ c ∷ [])))
    × (s_card (s_add (b ∷ c ∷ c ∷ []) two).0 ≡ s_card two + (s_add (b ∷ c ∷ c ∷ []) two).1)
s_add_adds_example = s_add_adds (b ∷ c ∷ c ∷ []) two two-IsMap

abbrev other : List Members
other = ((b, tt) ∷ (c, tt) ∷ []) ∷ []

set_algebra_example :
    ((m : Bytes) → among m (s_inter two other) ≡ (s_is_member m two && in_each m other))
    × ((m : Bytes) → among m (s_union two other) ≡ (s_is_member m two || in_one m other))
    × ((m : Bytes) → among m (s_diff two other) ≡ (s_is_member m two && not (in_one m other)))
    × Distinct (s_inter two other)
    × Distinct (s_union two other)
    × Distinct (s_diff two other)
set_algebra_example = set_algebra two other two-IsMap

abbrev fields : FieldMap
fields = (a, codes "41") ∷ (b, codes "x") ∷ []

fields-IsMap : IsMap fields
unfolding lookup str_eq
fields-IsMap = (refl, (refl, tt))

h_del_deletes_example :
    IsMap (h_del (b ∷ b ∷ c ∷ []) fields).0
    × ((f : Bytes)
        → h_get f (h_del (b ∷ b ∷ c ∷ []) fields).0
          ≡ (if among f (b ∷ b ∷ c ∷ []) then none else h_get f fields))
    × (h_len (h_del (b ∷ b ∷ c ∷ []) fields).0 + (h_del (b ∷ b ∷ c ∷ []) fields).1 ≡ h_len fields)
h_del_deletes_example = h_del_deletes (b ∷ b ∷ c ∷ []) fields fields-IsMap
