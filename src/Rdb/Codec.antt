-- ===== src/Rdb/Codec.antt =====
-- Lengths, texts and their sequences in a snapshot.
use shoredb.Base.{
  ℕ, ◌^◌, ◌<◌, ◌≡◌, refl, ap, inl, inr, some, List, [], ◌∷◌, ◌++◌, append_assoc, arith, Bytes, ltb,
  Bool-cases, length, length-append,
}
use shoredb.Base.{take-length-append, drop-length-append}
use shoredb.Base.Dict.{insert}
use shoredb.Datastruct.Hashes.{FieldMap}
use shoredb.Rdb.{write_length, write_string, write_strings, write_fields}
use shoredb.Rdb.Load.{read_length, read_bytes, read_string, read_strings, read_fields}

-- A length is read back from its one, two or five bytes, whatever stands behind, if it is below 2 ^ 32.
pub read_length-write_length :
    (n : ℕ) (rest : Bytes) → n < 2 ^ 32 → read_length (write_length n ++ rest) ≡ some (n, rest)
unfolding read_length write_length
read_length-write_length n rest h = elim (Bool-cases (ltb n 64)) [
  | inl one ↦ rw one (ground arith)
  | inr more ↦ elim (Bool-cases (ltb n 16384)) [
    | inl two ↦ rw (more, two) (ground arith)
    | inr four ↦ rw (more, four) (ap (λ k. some (k, rest)) (omega arith))
  ]
]

pub read_bytes-append : (s rest : Bytes) → read_bytes (length s) (s ++ rest) ≡ some (s, rest)
read_bytes-append s rest =
    ground (arith, length-append s rest, take-length-append s rest, drop-length-append s rest)

-- A text whose length fits 32 bits is read back, whatever stands behind.
pub read_string-write_string :
    (s rest : Bytes) → length s < 2 ^ 32 → read_string (write_string s ++ rest) ≡ some (s, rest)
unfolding read_string write_string
read_string-write_string s rest h =
    rw
      (
        append_assoc (write_length (length s)) s rest,
        read_string,
        read_length-write_length (length s) (s ++ rest) h,
      )
      (read_bytes-append s rest)

-- The texts are short enough for their lengths to be written.
abbrev pub AreShort : List Bytes → Type 0
AreShort [] = Unit
AreShort (s ∷ ss) = (length s < 2 ^ 32) × AreShort ss

pub read_strings-write_strings :
    (ss : List Bytes) (rest : Bytes)
    → AreShort ss
    → read_strings (length ss) (write_strings ss ++ rest) ≡ some (ss, rest)
unfolding read_strings write_strings
read_strings-write_strings [] rest h = refl
read_strings-write_strings (s ∷ ss) rest (here, more) =
    rw
      (
        append_assoc (write_string s) (write_strings ss) rest,
        read_strings,
        read_string-write_string s (write_strings ss ++ rest) here,
        read_strings-write_strings ss rest more,
      )
      refl

abbrev pub AreShortFields : FieldMap → Type 0
AreShortFields [] = Unit
AreShortFields ((field, value) ∷ fields) =
    ((length field < 2 ^ 32) × (length value < 2 ^ 32)) × AreShortFields fields

-- `m[k] = v` for each pair.
abbrev pub insert_all {ℓ} : {V : Type ℓ} → List (Bytes × V) → List (Bytes × V) → List (Bytes × V)
insert_all [] m = m
insert_all ((k, v) ∷ more) m = insert_all more (insert k v m)

pub read_fields-write_fields :
    (fields m : FieldMap) (rest : Bytes)
    → AreShortFields fields
    → read_fields (length fields) m (write_fields fields ++ rest) ≡ (insert_all fields m, inr rest)
unfolding read_fields write_fields
read_fields-write_fields [] m rest h = refl
read_fields-write_fields ((field, value) ∷ fields) m rest ((hf, hv), more) =
    rw
      (
        append_assoc (write_string field) (write_string value ++ write_fields fields) rest,
        append_assoc (write_string value) (write_fields fields) rest,
        read_fields,
        read_string-write_string field (write_string value ++ (write_fields fields ++ rest)) hf,
        read_string-write_string value (write_fields fields ++ rest) hv,
      )
      (read_fields-write_fields fields (insert field value m) rest more)
