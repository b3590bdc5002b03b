-- ===== src/Rdb/Reads.antt =====
-- The reads of Load in pkg/persistence/rdb.go: the lengths of what they leave.
use shoredb.Base.{
  ℕ, zero, suc, ◌≤◌, ◌<◌, ◌⊎◌, inl, inr, Option, none, some, List, [], ◌∷◌, arith, Bytes, length,
}
use shoredb.Base.{length-drop}
use shoredb.Datastruct.Hashes.{FieldMap}
use shoredb.Base.Dict.{insert}
use shoredb.Rdb.Load.{
  LoadError, read_length, read_bytes, read_string, read_strings, read_fields, read_hash_field,
  read_hash_value,
}

-- What is left of an input after a read is shorter than a bound.
abbrev pub LeavesLess {ℓ} : {A : Type ℓ} → ℕ → Option (A × Bytes) → Type 0
LeavesLess n none = Unit
LeavesLess n (some (a, rest)) = length rest < n

pub read_length-less : (s : Bytes) → LeavesLess (length s) (read_length s)
unfolding read_length
read_length-less [] = tt
read_length-less (b ∷ []) = ground arith
read_length-less (b ∷ c ∷ []) = ground arith
read_length-less (b ∷ c ∷ d ∷ []) = ground arith
read_length-less (b ∷ c ∷ d ∷ e ∷ []) = ground arith
read_length-less (b ∷ c ∷ d ∷ e ∷ f ∷ s) = ground arith

read_bytes-less : (n k : ℕ) (s : Bytes) → length s < k → LeavesLess k (read_bytes n s)
read_bytes-less n k s h = ground (arith, length-drop n s)

pub less_trans {ℓ} :
    {A : Type ℓ} (n k : ℕ) (r : Option (A × Bytes)) → n ≤ k → LeavesLess n r → LeavesLess k r
less_trans n k none le h = tt
less_trans n k (some (a, rest)) le h = omega arith

pub read_string-less : (k : ℕ) (s : Bytes) → length s ≤ k → LeavesLess k (read_string s)
unfolding read_string
read_string-less k s h = go (read_length s) (read_length-less s)
  where
    go :
        (r : Option (ℕ × Bytes))
        → LeavesLess (length s) r
        → LeavesLess k (elim r [ none ↦ none | some (n, rest) ↦ read_bytes n rest ])
    go none less = tt
    go (some (n, rest)) less = read_bytes-less n k rest (omega arith)

items-less :
    (k : ℕ) (item : Bytes) (r : Option (List Bytes × Bytes))
    → LeavesLess k r
    → LeavesLess k (elim r [ none ↦ none | some (items, left) ↦ some (item ∷ items, left) ])
items-less k item none less = tt
items-less k item (some (items, left)) less = less

pub read_strings-less : (k n : ℕ) (s : Bytes) → length s < k → LeavesLess k (read_strings n s)
unfolding read_strings
read_strings-less k zero s h = h
read_strings-less k (suc n) s h =
    go (read_string s) (read_string-less (length s) s (omega arith))
      (λ rest less. read_strings-less k n rest (omega arith))
  where
    go :
        (r : Option (Bytes × Bytes))
        → LeavesLess (length s) r
        → ((rest : Bytes) → length rest < length s → LeavesLess k (read_strings n rest))
        → LeavesLess k (elim r [
          | none ↦ none
          | some (item, rest) ↦ elim (read_strings n rest) [
            | none ↦ none
            | some (items, left) ↦ some (item ∷ items, left)
          ]
        ])
    go none less more = tt
    go (some (item, rest)) less more = items-less k item (read_strings n rest) (more rest less)

abbrev pub FieldsLess : ℕ → FieldMap × (LoadError ⊎ Bytes) → Type 0
FieldsLess k (fields, inl e) = Unit
FieldsLess k (fields, inr left) = length left < k

value-less :
    (k n : ℕ) (fields : FieldMap) (field : Bytes) (r : Option (Bytes × Bytes))
    → LeavesLess k r
    → ((m : FieldMap) (left : Bytes) → length left < k → FieldsLess k (read_fields n m left))
    → FieldsLess k (elim r [
      | none ↦ (fields, inl read_hash_value)
      | some (value, left) ↦ read_fields n (insert field value fields) left
    ])
value-less k n fields field none less more = tt
value-less k n fields field (some (value, left)) less more =
    more (insert field value fields) left less

pub read_fields-less :
    (k n : ℕ) (fields : FieldMap) (s : Bytes) → length s < k → FieldsLess k (read_fields n fields s)
unfolding read_fields
read_fields-less k zero fields s h = h
read_fields-less k (suc n) fields s h =
    go (read_string s) (read_string-less (length s) s (omega arith))
      (λ m left less. read_fields-less k n m left less)
  where
    go :
        (r : Option (Bytes × Bytes))
        → LeavesLess (length s) r
        → ((m : FieldMap) (left : Bytes) → length left < k → FieldsLess k (read_fields n m left))
        → FieldsLess k (elim r [
          | none ↦ (fields, inl read_hash_field)
          | some (field, rest) ↦ elim (read_string rest) [
            | none ↦ (fields, inl read_hash_value)
            | some (value, left) ↦ read_fields n (insert field value fields) left
          ]
        ])
    go none less more = tt
    go (some (field, rest)) less more =
        value-less k n fields field (read_string rest) (read_string-less k rest (omega arith)) more
