-- ===== src/Rdb/Rebuild.antt =====
-- Maps that are filled entry by entry, in the order of another.
use shoredb.Base.{
  ℕ, ◌+◌, ◌≡◌, refl, sym, ◌∙◌, true, false, List, [], ◌∷◌, ◌++◌, append-nil, append_assoc, arith,
  Bytes, str_eq, str_eq_iff, str_eq_refl,
}
use shoredb.Base.Dict.{lookup, insert, has, keys, IsMap}
use shoredb.Datastruct.Sets.{Members, s_add, s_add_loop}
use shoredb.Datastruct.Hashes.{FieldMap, h_mset}
use shoredb.Rdb.Codec.{insert_all}

module _ {ℓ} {V : Type ℓ} where
  pub insert_fresh :
      (k : Bytes) (v : V) (m : List (Bytes × V)) → has k m ≡ false → insert k v m ≡ m ++ (k, v) ∷ []
  unfolding insert lookup
  insert_fresh k v [] h = refl
  insert_fresh k v ((j, w) ∷ m) h = ground (arith, insert_fresh k v m)

  pub insert-insert :
      (k : Bytes) (v w : V) (m : List (Bytes × V)) → insert k v (insert k w m) ≡ insert k v m
  unfolding insert
  insert-insert k v w [] = rw str_eq_refl refl
  insert-insert k v w ((j, u) ∷ m) = ground (arith, insert-insert k v w m)

  -- Where a key stands further on, it does not stand before.
  has-later :
      (j k : Bytes) (v : V) (a m : List (Bytes × V))
      → str_eq k j ≡ true
      → has j (a ++ (k, v) ∷ m) ≡ true
  unfolding lookup
  has-later j k v [] m e = rw e refl
  has-later j k v ((i, w) ∷ a) m e = ground (arith, has-later j k v a m e)

  pub fresh_before :
      (k : Bytes) (v : V) (a m : List (Bytes × V)) → IsMap (a ++ (k, v) ∷ m) → has k a ≡ false
  unfolding lookup
  fresh_before k v [] m h = refl
  fresh_before k v ((j, w) ∷ a) m (fresh, rest) =
      ground (arith, fresh_before k v a m rest, has-later j k v a m, str_eq_iff j k, str_eq_iff k j)

  -- Filling a map behind its entries.
  pub insert_all-behind : (m a : List (Bytes × V)) → IsMap (a ++ m) → insert_all m a ≡ a ++ m
  insert_all-behind [] a h = sym (append-nil a)
  insert_all-behind ((k, v) ∷ m) a h =
      rw (insert_fresh k v a (fresh_before k v a m h)) (
        insert_all-behind m (a ++ (k, v) ∷ []) (rw append_assoc h) ∙ append_assoc a ((k, v) ∷ []) m)

  pub insert_all-nil : (m : List (Bytes × V)) → IsMap m → insert_all m [] ≡ m
  insert_all-nil m h = insert_all-behind m [] h

pub h_mset-insert_all : (pairs fields : FieldMap) → h_mset pairs fields ≡ insert_all pairs fields
unfolding h_mset
h_mset-insert_all [] fields = refl
h_mset-insert_all ((f, v) ∷ pairs) fields = h_mset-insert_all pairs (insert f v fields)

s_add_loop-behind : (m a : Members) (n : ℕ) → IsMap (a ++ m) → (s_add_loop (keys m) a n).0 ≡ a ++ m
unfolding s_add_loop
s_add_loop-behind [] a n h = sym (append-nil a)
s_add_loop-behind ((k, v) ∷ m) a n h =
    rw (fresh_before k v a m h, insert_fresh k tt a (fresh_before k v a m h))
      (s_add_loop-behind m (a ++ (k, v) ∷ []) (n + 1) (rw append_assoc h)
        ∙ append_assoc a ((k, v) ∷ []) m)

-- A set is filled with its members.
pub s_add-members : (m : Members) → IsMap m → (s_add (keys m) []).0 ≡ m
unfolding s_add
s_add-members m h = s_add_loop-behind m [] 0 h
