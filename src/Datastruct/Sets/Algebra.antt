-- ===== src/Datastruct/Sets/Algebra.antt =====
-- SINTER, SUNION and SDIFF against membership.
use shoredb.Base.{
  ◌≡◌, refl, ap, ◌∙◌, inl, inr, Bool, true, false, not, ◌&&◌, ◌||◌, List, [], ◌∷◌, arith, Bytes,
  str_eq, str_eq_iff, Bool-cases,
}
use shoredb.Base.Dict.{lookup, insert, has, keys, IsMap, lookup-insert, IsMap-insert}
use shoredb.Datastruct.Sets.{
  Members, s_is_member, in_all, in_other, select, s_inter, see, see_all, s_union, s_diff,
}
use shoredb.Datastruct.Sets.Counts.{among}

-- No text stands twice.
abbrev pub Distinct : List Bytes → Type 0
Distinct [] = Unit
Distinct (m ∷ members) = (among m members ≡ false) × Distinct members

among-keys : (m : Bytes) (items : Members) → among m (keys items) ≡ has m items
unfolding lookup
among-keys m [] = refl
among-keys m ((k, v) ∷ items) = ground (arith, among-keys m items)

Distinct-keys : (items : Members) → IsMap items → Distinct (keys items)
Distinct-keys [] h = tt
Distinct-keys ((k, v) ∷ items) (fresh, rest) =
    (among-keys k items ∙ fresh, Distinct-keys items rest)

among-select :
    (test : Bytes → Bool) (m : Bytes) (members : List Bytes)
    → among m (select test members) ≡ (among m members && test m)
unfolding select
among-select test m [] = refl
among-select test m (x ∷ members) = elim (Bool-cases (str_eq x m)) [
  | inl e ↦ ground (arith, ap test ((str_eq_iff x m).0 e), among-select test m members)
  | inr e ↦ ground (arith, among-select test m members)
]

Distinct-select :
    (test : Bytes → Bool) (members : List Bytes) → Distinct members → Distinct (select test members)
unfolding select
Distinct-select test [] h = tt
Distinct-select test (x ∷ members) (fresh, rest) =
    ground (arith, Distinct-select test members rest, among-select test x members)

-- Whether a text is a member of each set, or of one.
abbrev pub in_each : Bytes → List Members → Bool
in_each m [] = true
in_each m (other ∷ others) = s_is_member m other && in_each m others

abbrev pub in_one : Bytes → List Members → Bool
in_one m [] = false
in_one m (other ∷ others) = s_is_member m other || in_one m others

in_all-each : (m : Bytes) (others : List Members) → in_all m others ≡ in_each m others
unfolding in_all
in_all-each m [] = refl
in_all-each m (other ∷ others) = ground (arith, in_all-each m others)

in_other-one : (m : Bytes) (others : List Members) → in_other m others ≡ in_one m others
unfolding in_other
in_other-one m [] = refl
in_other-one m (other ∷ others) = ground (arith, in_other-one m others)

see_member :
    (m : Bytes) (members : List Bytes) (seen : Members)
    → has m (see members seen) ≡ (has m seen || among m members)
unfolding see
see_member m [] seen = ground arith
see_member m (x ∷ members) seen =
    ground (arith, see_member m members (insert x tt seen), lookup-insert x m tt seen)

see-IsMap : (members : List Bytes) (seen : Members) → IsMap seen → IsMap (see members seen)
unfolding see
see-IsMap [] seen h = h
see-IsMap (x ∷ members) seen h = see-IsMap members _ (IsMap-insert x tt seen h)

see_all_member :
    (m : Bytes) (others : List Members) (seen : Members)
    → has m (see_all others seen) ≡ (has m seen || in_one m others)
unfolding see_all
see_all_member m [] seen = ground arith
see_all_member m (other ∷ others) seen = ground (
  arith,
  see_all_member m others (see (keys other) seen),
  see_member m (keys other) seen,
  among-keys m other,
)

see_all-IsMap : (others : List Members) (seen : Members) → IsMap seen → IsMap (see_all others seen)
unfolding see_all
see_all-IsMap [] seen h = h
see_all-IsMap (other ∷ others) seen h = see_all-IsMap others _ (see-IsMap (keys other) seen h)

among-select-keys :
    (test : Bytes → Bool) (m : Bytes) (items : Members)
    → among m (select test (keys items)) ≡ (s_is_member m items && test m)
among-select-keys test m items =
    among-select test m (keys items) ∙ ap (λ b. b && test m) (among-keys m items)

s_inter_member :
    (items : Members) (others : List Members) (m : Bytes)
    → among m (s_inter items others) ≡ (s_is_member m items && in_each m others)
unfolding s_inter
s_inter_member items [] m = ground (arith, among-keys m items)
s_inter_member items (other ∷ others) m =
    among-select-keys (λ j. in_all j (other ∷ others)) m items
    ∙ ap (◌&&◌ (has m items)) (in_all-each m (other ∷ others))

s_union_member :
    (items : Members) (others : List Members) (m : Bytes)
    → among m (s_union items others) ≡ (s_is_member m items || in_one m others)
unfolding s_union lookup
s_union_member items others m =
    among-keys m (see_all others (see (keys items) []))
    ∙ see_all_member m others (see (keys items) [])
    ∙ ap (λ b. b || in_one m others) (see_member m (keys items) [] ∙ among-keys m items)

s_diff_member :
    (items : Members) (others : List Members) (m : Bytes)
    → among m (s_diff items others) ≡ (s_is_member m items && not (in_one m others))
unfolding s_diff
s_diff_member items others m =
    among-select-keys (λ j. not (in_other j others)) m items
    ∙ ap (λ b. has m items && not b) (in_other-one m others)

s_inter-Distinct :
    (items : Members) (others : List Members) → IsMap items → Distinct (s_inter items others)
unfolding s_inter
s_inter-Distinct items [] h = Distinct-keys items h
s_inter-Distinct items (other ∷ others) h = Distinct-select _ (keys items) (Distinct-keys items h)

s_union-Distinct : (items : Members) (others : List Members) → Distinct (s_union items others)
unfolding s_union
s_union-Distinct items others =
    Distinct-keys _ (see_all-IsMap others _ (see-IsMap (keys items) [] tt))

s_diff-Distinct :
    (items : Members) (others : List Members) → IsMap items → Distinct (s_diff items others)
unfolding s_diff
s_diff-Distinct items others h = Distinct-select _ (keys items) (Distinct-keys items h)

-- The replies of SINTER, SUNION and SDIFF hold exactly the members of the first set that are in
-- every other one, the members of any set, and the members of the first set that are in no other,
-- each once. The first set holds no member twice.
pub set_algebra :
    (items : Members) (others : List Members)
    → IsMap items
    → ((m : Bytes) → among m (s_inter items others) ≡ (s_is_member m items && in_each m others))
      × ((m : Bytes) → among m (s_union items others) ≡ (s_is_member m items || in_one m others))
      × ((m : Bytes)
          → among m (s_diff items others) ≡ (s_is_member m items && not (in_one m others)))
      × Distinct (s_inter items others)
      × Distinct (s_union items others)
      × Distinct (s_diff items others)
set_algebra items others h = (
  s_inter_member items others,
  s_union_member items others,
  s_diff_member items others,
  s_inter-Distinct items others h,
  s_union-Distinct items others,
  s_diff-Distinct items others h,
)
