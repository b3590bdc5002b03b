-- ===== src/Datastruct/Hashes.antt =====
-- `datastruct.Hash`: the content of a hash is its map `fields`.
pub mod Fields
use shoredb.Base.{
  ℕ, zero, suc, ◌+◌, ◌-◌, ◌*◌, ◌/◌, ◌%◌, ◌^◌, ◌≤◌, ◌<◌, ◌≡◌, refl, sym, ap, ◌∙◌, ◌≢◌, ◌↔◌, ◌⊎◌, inl,
  inr, Bool, true, false, not, ◌&&◌, ◌||◌, Option, none, some, List, [], ◌∷◌, ◌++◌, map, append-nil,
  append_assoc, arith, Bytes, codes, str_eq, str_eq_iff, str_eq_refl, ltb, leb, ◌==◌, ==_iff,
  if◌then◌else◌, Bool-cases, Option-cases, is_some, length, get_elem?, set, take, drop,
  length-append,
}
use shoredb.Base.Int.{ℤ, pos, ◌+ℤ◌, wrap}
use shoredb.Base.Dict.{Dict, lookup, insert, erase, has, keys}
use shoredb.Strconv.{parse_int, int_to_string}

abbrev pub FieldMap : Type 0
FieldMap = Dict Bytes

abbrev pub new_hash : FieldMap
new_hash = []

-- Hash.HSet: the result tells whether the field is new.
unfoldable pub h_set : Bytes → Bytes → FieldMap → FieldMap × Bool
h_set field value fields = (insert field value fields, not (has field fields))

-- Hash.HGet
abbrev pub h_get : Bytes → FieldMap → Option Bytes
h_get field fields = lookup field fields

-- The loop of Hash.HDel
unfoldable pub h_del_loop : List Bytes → FieldMap → ℕ → FieldMap × ℕ
h_del_loop [] fields deleted = (fields, deleted)
h_del_loop (field ∷ names) fields deleted =
    let remove = h_del_loop names (erase field fields) (deleted + 1) in
    let skip = h_del_loop names fields deleted in if has field fields then remove else skip

-- Hash.HDel
unfoldable pub h_del : List Bytes → FieldMap → FieldMap × ℕ
unfolding h_del_loop
h_del names fields = h_del_loop names fields 0

-- Hash.HExists
abbrev pub h_exists : Bytes → FieldMap → Bool
h_exists field fields = has field fields

-- Hash.HGetAll: the copy that it returns has the same entries.
abbrev pub h_get_all : FieldMap → FieldMap
h_get_all fields = fields

-- Hash.HKeys
abbrev pub h_keys : FieldMap → List Bytes
h_keys fields = keys fields

-- Hash.HVals
abbrev pub h_vals : FieldMap → List Bytes
h_vals [] = []
h_vals ((field, value) ∷ fields) = value ∷ h_vals fields

-- Hash.HLen
abbrev pub h_len : FieldMap → ℕ
h_len fields = length fields

-- Hash.HMSet
unfoldable pub h_mset : FieldMap → FieldMap → FieldMap
h_mset [] fields = fields
h_mset ((field, value) ∷ pairs) fields = h_mset pairs (insert field value fields)

-- Hash.HMGet: a field that is missing reads as the empty text.
unfoldable pub h_mget : List Bytes → FieldMap → List Bytes
h_mget [] fields = []
h_mget (field ∷ names) fields =
    elim (lookup field fields) [ none ↦ [] | some value ↦ value ] ∷ h_mget names fields

-- `current` of Hash.HIncrBy
abbrev pub current : Option Bytes → Option ℤ
current none = some (pos 0)
current (some value) = parse_int value

-- What HIncrBy does with `current`.
abbrev pub add_to : Bytes → ℤ → FieldMap → Option ℤ → FieldMap × Option ℤ
add_to field increment fields none = (fields, none)
add_to field increment fields (some n) =
    let new_value = wrap (n +ℤ increment) in
    (insert field (int_to_string new_value) fields, some new_value)

-- Hash.HIncrBy: `none` stands for an IntConversionError.
unfoldable pub h_incr_by : Bytes → ℤ → FieldMap → FieldMap × Option ℤ
h_incr_by field increment fields = add_to field increment fields (current (lookup field fields))

h_incr_by_runs :
    h_incr_by (codes "n") (pos 5) ((codes "n", codes "-7") ∷ [])
    ≡ ((codes "n", codes "-2") ∷ [], some (ℤ.negsuc 1))
unfolding h_incr_by lookup insert str_eq parse_int int_to_string
h_incr_by_runs = refl
