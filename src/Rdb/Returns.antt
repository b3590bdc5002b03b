-- ===== src/Rdb/Returns.antt =====
-- The loop of Load in pkg/persistence/rdb.go and its end.
use shoredb.Base.{
  ℕ, zero, suc, ◌+◌, ◌<◌, ◌≡◌, refl, ◌⊎◌, inl, inr, Bool, true, false, Option, none, some, [], ◌∷◌,
  arith, Bytes, codes, str_eq, leb, ◌==◌, if◌then◌else◌, is_some, length, get_elem?, take,
}
use shoredb.Database.{Time, Database, Databases, num_databases}
use shoredb.Datastruct.Hashes.{FieldMap}
use shoredb.Rdb.{op_eof, op_select_db, op_resize_db, type_string, type_list, type_set, type_hash}
use shoredb.Rdb.Load.{
  LoadError, Round, next, stop, attempt, change_at, change, read_length, read_bytes, read_string,
  read_strings, read_fields, put_fields, fields_round, load_end, load_index, load_sizes,
  load_string, load_list, load_set, load_hash, load_round, load_loop, load_rdb, read_header,
  invalid_header, read_checksum, read_index, index_range, read_db_size, read_expires_size,
  read_string_key, read_string_value, read_list_key, read_list_length, read_list_item, read_set_key,
  read_set_length, read_set_member, read_hash_key, read_hash_length,
}
use shoredb.Rdb.Reads.{
  LeavesLess, FieldsLess, less_trans, read_length-less, read_string-less, read_strings-less,
  read_fields-less,
}

-- What a round leaves of its input is shorter than a bound.
abbrev RoundLess : ℕ → Round → Type 0
RoundLess n (next rest current dbs) = length rest < n
RoundLess n (stop dbs result) = Unit

attempt-less {ℓ} :
    {A : Type ℓ} (k : ℕ) (r : Option (A × Bytes)) (e : LoadError) (dbs : Databases)
    (then_round : A → Bytes → Round)
    → LeavesLess k r
    → ((a : A) (rest : Bytes) → length rest < k → RoundLess k (then_round a rest))
    → RoundLess k (attempt r e dbs then_round)
attempt-less k none e dbs then_round h more = tt
attempt-less k (some (a, rest)) e dbs then_round h more = more a rest h

change-less :
    (k : ℕ) (dbs : Databases) (current : ℕ) (rest : Bytes) (f : Database → Database)
    → length rest < k
    → RoundLess k (change dbs current rest f)
change-less k dbs current rest f h = go (get_elem? dbs current)
  where
    go : (found : Option Database) → RoundLess k (change_at found dbs current rest f)
    go none = tt
    go (some db) = h

fields_round-less :
    (k : ℕ) (now : Time) (key : Bytes) (current : ℕ) (dbs : Databases)
    (r : FieldMap × (LoadError ⊎ Bytes))
    → FieldsLess k r
    → RoundLess k (fields_round now key current dbs r)
fields_round-less k now key current dbs (fields, inl e) h = tt
fields_round-less k now key current dbs (fields, inr left) h =
    change-less k dbs current left (put_fields now key fields) h

if-less :
    (k : ℕ) (b : Bool) (x y : Round)
    → RoundLess k x
    → RoundLess k y
    → RoundLess k (if b then x else y)
if-less k true x y hx hy = hx
if-less k false x y hx hy = hy

module _ (k : ℕ) (now : Time) (current : ℕ) (dbs : Databases) where
  string_within : (s : Bytes) → length s < k → LeavesLess k (read_string s)
  string_within s h = read_string-less k s (omega arith)

  length_within : (s : Bytes) → length s < k → LeavesLess k (read_length s)
  length_within s h = less_trans (length s) k (read_length s) (omega arith) (read_length-less s)

  load_index-less : (s : Bytes) → length s < k → RoundLess k (load_index s dbs)
  unfolding load_index
  load_index-less s h =
      attempt-less k (read_length s) read_index dbs _ (length_within s h) (λ index rest less.
        if-less k (leb num_databases index) (stop dbs (some index_range)) (next rest index dbs) tt
          less)

  load_sizes-less : (s : Bytes) → length s < k → RoundLess k (load_sizes s current dbs)
  unfolding load_sizes
  load_sizes-less s h =
      attempt-less k (read_length s) read_db_size dbs _ (length_within s h) (λ n rest less.
        attempt-less k (read_length rest) read_expires_size dbs _ (length_within rest less)
          (λ m left last. last))

  load_string-less : (s : Bytes) → length s < k → RoundLess k (load_string s current dbs)
  unfolding load_string
  load_string-less s h =
      attempt-less k (read_string s) read_string_key dbs _ (string_within s h) (λ key rest less.
        attempt-less k (read_string rest) read_string_value dbs _ (string_within rest less)
          (λ value left last. change-less k dbs current left _ last))

  load_list-less : (s : Bytes) → length s < k → RoundLess k (load_list now s current dbs)
  unfolding load_list
  load_list-less s h =
      attempt-less k (read_string s) read_list_key dbs _ (string_within s h) (λ key rest less.
        attempt-less k (read_length rest) read_list_length dbs _ (length_within rest less)
          (λ n items_in more.
            attempt-less k (read_strings n items_in) read_list_item dbs _
              (read_strings-less k n items_in more)
              (λ items left last. change-less k dbs current left _ last)))

  load_set-less : (s : Bytes) → length s < k → RoundLess k (load_set now s current dbs)
  unfolding load_set
  load_set-less s h =
      attempt-less k (read_string s) read_set_key dbs _ (string_within s h) (λ key rest less.
        attempt-less k (read_length rest) read_set_length dbs _ (length_within rest less)
          (λ n members_in more.
            attempt-less k (read_strings n members_in) read_set_member dbs _
              (read_strings-less k n members_in more)
              (λ members left last. change-less k dbs current left _ last)))

  load_hash-less : (s : Bytes) → length s < k → RoundLess k (load_hash now s current dbs)
  unfolding load_hash
  load_hash-less s h =
      attempt-less k (read_string s) read_hash_key dbs _ (string_within s h) (λ key rest less.
        attempt-less k (read_length rest) read_hash_length dbs _ (length_within rest less)
          (λ n fields_in more.
            fields_round-less k now key current dbs (read_fields n [] fields_in)
              (read_fields-less k n [] fields_in more)))

  load_end-less : (s : Bytes) → RoundLess k (load_end s dbs)
  unfolding load_end
  load_end-less s =
      if-less k (leb 8 (length s)) (stop dbs none) (stop dbs (some read_checksum)) tt tt

-- A round that goes on has taken a byte.
load_round-less :
    (now : Time) (s : Bytes) (current : ℕ) (dbs : Databases)
    → RoundLess (length s) (load_round now s current dbs)
unfolding load_round
load_round-less now [] current dbs = tt
load_round-less now (op ∷ s) current dbs =
    let k = suc (length s) in
    let h : length s < k = omega arith in
    if-less k (op == op_eof) _ _ (load_end-less k now current dbs s) (
      if-less k (op == op_select_db) _ _ (load_index-less k now current dbs s h) (
        if-less k (op == op_resize_db) _ _ (load_sizes-less k now current dbs s h) (
          if-less k (op == type_string) _ _ (load_string-less k now current dbs s h) (
            if-less k (op == type_list) _ _ (load_list-less k now current dbs s h) (
              if-less k (op == type_set) _ _ (load_set-less k now current dbs s h)
                (if-less k (op == type_hash) _ _ (load_hash-less k now current dbs s h) tt))))))

load_loop-returns :
    (f : ℕ) (now : Time) (s : Bytes) (current : ℕ) (dbs : Databases)
    → length s < f
    → is_some (load_loop f now s current dbs) ≡ true
unfolding load_loop
load_loop-returns zero now s current dbs h = absurd (omega arith)
load_loop-returns (suc f) now s current dbs h =
    go (load_round now s current dbs) (load_round-less now s current dbs)
      (λ rest j dbs' less. load_loop-returns f now rest j dbs' (omega arith))
  where
    go :
        (r : Round)
        → RoundLess (length s) r
        → ((rest : Bytes) (j : ℕ) (dbs' : Databases)
            → length rest < length s
            → is_some (load_loop f now rest j dbs') ≡ true)
        → is_some (elim r [
          | next rest current' dbs' ↦ load_loop f now rest current' dbs'
          | stop dbs' result ↦ some (dbs', result)
        ])
          ≡ true
    go (next rest j dbs') less more = more rest j dbs' less
    go (stop dbs' result) less more = refl

-- Load returns, with databases and an error or none, for every file: its loop never has more rounds than
-- the file has bytes.
pub load_rdb-returns :
    (now : Time) (file : Bytes) (dbs : Databases) → is_some (load_rdb now file dbs) ≡ true
unfolding load_rdb
load_rdb-returns now file dbs = go (read_bytes 12 file)
  where
    go :
        (r : Option (Bytes × Bytes))
        → is_some {A = Databases × Option LoadError} (elim r [
          | none ↦ some (dbs, some read_header)
          | some (header, rest) ↦
              if str_eq (take 8 header) (codes "DATABASE")
              then load_loop (length rest + 1) now rest 0 dbs
              else some (dbs, some invalid_header)
        ])
          ≡ true
    go none = refl
    go (some (header, rest)) =
        ground (arith, load_loop-returns (length rest + 1) now rest 0 dbs (omega arith))
