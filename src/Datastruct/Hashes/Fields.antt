-- ===== src/Datastruct/Hashes/Fields.antt =====
-- Reading and writing the fields of a hash.
use shoredb.Base.{
  ℕ, ◌+◌, ◌≡◌, refl, ap, ◌∙◌, ◌≢◌, inl, inr, Option, none, some, List, [], ◌∷◌, arith, Bytes,
  str_eq, str_eq_iff, str_eq_refl, if◌then◌else◌, Bool-cases, length,
}
use shoredb.Base.Int.{ℤ, IsInt64, ◌+ℤ◌, wrap, wrap-IsInt64, min_int}
use shoredb.Base.Dict.{
  insert, erase, has, IsMap, lookup-insert, lookup-erase, length-insert, length-erase, IsMap-erase,
}
use shoredb.Datastruct.Sets.Counts.{among}
use shoredb.Strconv.{itoa, int_to_string}
use shoredb.Strconv.RoundTrip.{int_to_string-itoa, parse_int-itoa}
use shoredb.Datastruct.Hashes.{
  add_to, FieldMap, h_set, h_get, h_del, h_del_loop, h_len, h_mset, h_incr_by, current,
}

-- HSET writes its field and no other; its result tells whether the hash has one field more.
pub h_get-h_set :
    (field value : Bytes) (fields : FieldMap)
    → ((f : Bytes)
        → h_get f (h_set field value fields).0
          ≡ (if str_eq field f then some value else h_get f fields))
      × (h_len (h_set field value fields).0
          ≡ h_len fields + (if (h_set field value fields).1 then 1 else 0))
unfolding h_set
h_get-h_set field value fields =
    (λ f. lookup-insert field f value fields, ground (arith, length-insert field value fields))

-- The value of a field in a list of pairs: of a field that stands twice the last value counts.
abbrev pub last_value : Bytes → FieldMap → Option Bytes → Option Bytes
last_value f [] old = old
last_value f ((field, value) ∷ pairs) old =
    last_value f pairs (if str_eq field f then some value else old)

-- HMSET gives each field of the pairs its value, the last one where a field stands twice, and
-- leaves the other fields.
pub h_get-h_mset :
    (pairs fields : FieldMap) (f : Bytes)
    → h_get f (h_mset pairs fields) ≡ last_value f pairs (h_get f fields)
unfolding h_mset
h_get-h_mset [] fields f = refl
h_get-h_mset ((field, value) ∷ pairs) fields f =
    h_get-h_mset pairs (insert field value fields) f
    ∙ ap (last_value f pairs) (lookup-insert field f value fields)

-- HINCRBY on a field that holds the print of an `int`, where the sum in `int` arithmetic is not
-- the least `int`: the reply is that sum, and the field then holds its print.
pub h_incr_by_adds :
    (field : Bytes) (n increment : ℤ) (fields : FieldMap)
    → IsInt64 n
    → h_get field fields ≡ some (itoa n)
    → wrap (n +ℤ increment) ≢ min_int
    → ((h_incr_by field increment fields).1 ≡ some (wrap (n +ℤ increment)))
      × (h_get field (h_incr_by field increment fields).0 ≡ some (itoa (wrap (n +ℤ increment))))
unfolding h_incr_by
h_incr_by_adds field n increment fields hn e ne =
    let total = wrap (n +ℤ increment) in
    let step = ap (add_to field increment fields) (ap current e ∙ parse_int-itoa n hn) in
    let print = int_to_string-itoa total (wrap-IsInt64 (n +ℤ increment)) ne in
    (
      ap (λ r. r.1) step,
      ap (λ r. h_get field r.0) step
          ∙ lookup-insert field field (int_to_string total) fields
          ∙ rw (str_eq_refl field) (ap some print),
    )

h_del_loop_get :
    (names : List Bytes) (fields : FieldMap) (deleted : ℕ) (f : Bytes)
    → h_get f (h_del_loop names fields deleted).0 ≡ (if among f names then none else h_get f fields)
unfolding h_del_loop
h_del_loop_get [] fields deleted f = refl
h_del_loop_get (x ∷ names) fields deleted f = ground (
  arith,
  h_del_loop_get names fields deleted f,
  h_del_loop_get names (erase x fields) (deleted + 1) f,
  lookup-erase x f fields,
  str_eq_iff x f,
)

h_del_loop_count :
    (names : List Bytes) (fields : FieldMap) (deleted : ℕ)
    → IsMap fields
    → IsMap (h_del_loop names fields deleted).0
      × (length (h_del_loop names fields deleted).0 + (h_del_loop names fields deleted).1
          ≡ length fields + deleted)
unfolding h_del_loop
h_del_loop_count [] fields deleted h = (h, refl)
h_del_loop_count (x ∷ names) fields deleted h = elim (Bool-cases (has x fields)) [
  | inl e ↦
      let (a, b) = h_del_loop_count names (erase x fields) (deleted + 1) (IsMap-erase x fields h) in
      let n = rw e at (length-erase x fields h) in rw e (a, omega arith)
  | inr e ↦ rw e (h_del_loop_count names fields deleted h)
]

-- On a hash that holds no field twice: HDEL removes its fields and no other, replies how many
-- there were, and leaves no field twice.
pub h_del_deletes :
    (names : List Bytes) (fields : FieldMap)
    → IsMap fields
    → IsMap (h_del names fields).0
      × ((f : Bytes)
          → h_get f (h_del names fields).0 ≡ (if among f names then none else h_get f fields))
      × (h_len (h_del names fields).0 + (h_del names fields).1 ≡ h_len fields)
unfolding h_del
h_del_deletes names fields h =
    let (a, b) = h_del_loop_count names fields 0 h in
    (a, h_del_loop_get names fields 0, omega arith)
