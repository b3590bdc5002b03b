-- ===== src/Rdb/Fill.antt =====
-- The maps that Load fills, entry by entry, with the sections of a database.
use shoredb.Base.{
  ◌≡◌, sym, ap, ◌∙◌, inl, inr, false, none, List, [], ◌∷◌, ◌++◌, append-nil, append_assoc, arith,
  Bytes, Option-cases,
}
use shoredb.Base.Dict.{Dict, lookup, insert, has, IsMap}
use shoredb.Datastruct.Lists.{Items, r_push}
use shoredb.Datastruct.Sets.{Members}
use shoredb.Datastruct.Hashes.{FieldMap}
use shoredb.Database.{
  expire_if_needed, Time, Database, get_or_create_list, get_or_create_set, get_or_create_hash,
}
use shoredb.Rdb.Load.{push_items, add_members, put_fields}
use shoredb.Rdb.Sections.{AllFit, put_all}
use shoredb.Rdb.Rebuild.{
  insert_fresh, insert-insert, fresh_before, h_mset-insert_all, insert_all-nil, s_add-members,
}
use shoredb.Rdb.Entries.{FitsSet, FitsHash, put_string, put_list, put_set, put_hash}

-- A database without deadlines.
abbrev pub undated : Dict Bytes → Dict Items → Dict Members → Dict FieldMap → Database
undated s l t h = record { store = s; lists = l; sets = t; hashes = h; expires = [] }

absent : {V : Type 0} (k : Bytes) (m : Dict V) → has k m ≡ false → lookup k m ≡ none
absent k m h = elim (Option-cases (lookup k m)) [
  | inl e ↦ e
  | inr (v, e) ↦ absurd (ground (arith, e, h))
]

insert_twice :
    {V : Type 0} (k : Bytes) (v w : V) (m : Dict V)
    → has k m ≡ false
    → insert k v (insert k w m) ≡ m ++ (k, v) ∷ []
insert_twice k v w m h = insert-insert k v w m ∙ insert_fresh k v m h

-- Load fills a map one by one if each entry with a new key goes behind.
filled :
    {E : Type 0} (put : E → Database → Database) (mk : List E → Database)
    (Good : List E → List E → Type 0)
    → ((e : E) (es a : List E) → Good a (e ∷ es) → put e (mk a) ≡ mk (a ++ e ∷ []))
    → ((e : E) (es a : List E) → Good a (e ∷ es) → Good (a ++ e ∷ []) es)
    → (es a : List E) → Good a es
    → put_all put es (mk a) ≡ mk (a ++ es)
filled put mk Good one more [] a h = ap mk (sym (append-nil a))
filled put mk Good one more (e ∷ es) a h = rw (one e es a h) (
    filled put mk Good one more es (a ++ e ∷ []) (more e es a h)
    ∙ ap mk (append_assoc a (e ∷ []) es))

pub strings_filled :
    (m a : Dict Bytes) (l : Dict Items) (t : Dict Members) (h : Dict FieldMap)
    → IsMap (a ++ m)
    → put_all put_string m (undated a l t h) ≡ undated (a ++ m) l t h
strings_filled m a l t h fits =
    filled put_string (λ s. undated s l t h) (λ a m. IsMap (a ++ m))
      (λ e es a ok.
        ap (λ s. undated s l t h) (insert_fresh e.0 e.1 a (fresh_before e.0 e.1 a es ok)))
      (λ e es a ok. rw (append_assoc a (e ∷ []) es) ok) m a fits

module _ (now : Time) where
  list_put :
      (e : Bytes × Items) (s : Dict Bytes) (a : Dict Items) (t : Dict Members) (h : Dict FieldMap)
      → has e.0 a ≡ false
      → put_list now e (undated s a t h) ≡ undated s (a ++ e ∷ []) t h
  unfolding push_items get_or_create_list r_push lookup expire_if_needed
  list_put (k, items) s a t h fresh =
      rw (absent k a fresh) (ap (λ l. undated s l t h) (insert_twice k items [] a fresh))

  set_put :
      (e : Bytes × Members) (s : Dict Bytes) (l : Dict Items) (a : Dict Members) (h : Dict FieldMap)
      → IsMap e.1
      → has e.0 a ≡ false
      → put_set now e (undated s l a h) ≡ undated s l (a ++ e ∷ []) h
  unfolding add_members get_or_create_set lookup expire_if_needed
  set_put (k, members) s l a h distinct fresh =
      rw (absent k a fresh, s_add-members members distinct)
        (ap (λ t. undated s l t h) (insert_twice k members [] a fresh))

  hash_put :
      (e : Bytes × FieldMap) (s : Dict Bytes) (l : Dict Items) (t : Dict Members)
      (a : Dict FieldMap)
      → IsMap e.1
      → has e.0 a ≡ false
      → put_hash now e (undated s l t a) ≡ undated s l t (a ++ e ∷ [])
  unfolding put_fields get_or_create_hash lookup expire_if_needed
  hash_put (k, fields) s l t a distinct fresh =
      rw (absent k a fresh, h_mset-insert_all fields [], insert_all-nil fields distinct)
        (ap (undated s l t) (insert_twice k fields [] a fresh))

  pub lists_filled :
      (m : Dict Items) (s : Dict Bytes) (a : Dict Items) (t : Dict Members) (h : Dict FieldMap)
      → IsMap (a ++ m)
      → put_all (put_list now) m (undated s a t h) ≡ undated s (a ++ m) t h
  lists_filled m s a t h fits =
      filled (put_list now) (λ l. undated s l t h) (λ a m. IsMap (a ++ m))
        (λ e es a ok. list_put e s a t h (fresh_before e.0 e.1 a es ok))
        (λ e es a ok. rw (append_assoc a (e ∷ []) es) ok) m a fits

  pub sets_filled :
      (m : Dict Members) (s : Dict Bytes) (l : Dict Items) (a : Dict Members) (h : Dict FieldMap)
      → IsMap (a ++ m)
      → AllFit FitsSet m
      → put_all (put_set now) m (undated s l a h) ≡ undated s l (a ++ m) h
  sets_filled m s l a h fits good =
      filled (put_set now) (λ t. undated s l t h) (λ a m. IsMap (a ++ m) × AllFit FitsSet m)
        (λ e es a ok. set_put e s l a h ok.1.0.2 (fresh_before e.0 e.1 a es ok.0))
        (λ e es a ok. (rw (append_assoc a (e ∷ []) es) ok.0, ok.1.1)) m a (fits, good)

  pub hashes_filled :
      (m : Dict FieldMap) (s : Dict Bytes) (l : Dict Items) (t : Dict Members) (a : Dict FieldMap)
      → IsMap (a ++ m)
      → AllFit FitsHash m
      → put_all (put_hash now) m (undated s l t a) ≡ undated s l t (a ++ m)
  hashes_filled m s l t a fits good =
      filled (put_hash now) (undated s l t) (λ a m. IsMap (a ++ m) × AllFit FitsHash m)
        (λ e es a ok. hash_put e s l t a ok.1.0.0.3 (fresh_before e.0 e.1 a es ok.0))
        (λ e es a ok. (rw (append_assoc a (e ∷ []) es) ok.0, ok.1.1)) m a (fits, good)
