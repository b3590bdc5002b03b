-- ===== src/Base/Dict.antt =====
-- Go's `map[string]V`: an association list. A range over a map visits the entries in the list's
-- order, which stands for Go's unspecified order.
use shoredb.Base.Tests.{Bytes, str_eq, str_eq_iff, if◌then◌else◌, is_some}
use shoredb.Base.Lists.{length}
use Prim.Native.Nat.{◌+◌}
use mathlib.Core.Path.{◌≡◌, refl}
use mathlib.Core.Bool.{Bool, false}
use mathlib.Core.Option.{Option, none, some}
use mathlib.Core.List.{List, [], ◌∷◌}
use native.Mathlib.Omega.{arith}

abbrev pub Dict {ℓ} : Type ℓ → Type ℓ
Dict V = List (Bytes × V)

module _ {ℓ} {V : Type ℓ} where
  -- v, ok := m[k]
  unfoldable pub lookup : Bytes → Dict V → Option V
  lookup k [] = none
  lookup k ((j, v) ∷ m) = if str_eq j k then some v else lookup k m

  -- m[k] = v
  unfoldable pub insert : Bytes → V → Dict V → Dict V
  insert k v [] = (k, v) ∷ []
  insert k v ((j, w) ∷ m) = if str_eq j k then (j, v) ∷ m else (j, w) ∷ insert k v m

  -- delete(m, k)
  unfoldable pub erase : Bytes → Dict V → Dict V
  erase k [] = []
  erase k ((j, w) ∷ m) = let rest = erase k m in if str_eq j k then rest else (j, w) ∷ rest

  abbrev pub has : Bytes → Dict V → Bool
  has k m = is_some (lookup k m)

  abbrev pub keys : Dict V → List Bytes
  keys [] = []
  keys ((k, v) ∷ m) = k ∷ keys m

  -- No key stands twice: the lists that represent maps.
  abbrev pub IsMap : Dict V → Type 0
  IsMap [] = Unit
  IsMap ((k, v) ∷ m) = (has k m ≡ false) × IsMap m

module _ {ℓ} {V : Type ℓ} where
  pub lookup-insert :
      (k j : Bytes) (v : V) (m : Dict V)
      → lookup j (insert k v m) ≡ (if str_eq k j then some v else lookup j m)
  unfolding lookup insert
  lookup-insert k j v [] = refl
  lookup-insert k j v ((i, w) ∷ m) =
      ground (arith, str_eq_iff k j, str_eq_iff i k, str_eq_iff i j, lookup-insert k j v m)

  pub lookup-erase :
      (k j : Bytes) (m : Dict V) → lookup j (erase k m) ≡ (if str_eq k j then none else lookup j m)
  unfolding lookup erase
  lookup-erase k j [] = ground arith
  lookup-erase k j ((i, w) ∷ m) =
      ground (arith, str_eq_iff k j, str_eq_iff i k, str_eq_iff i j, lookup-erase k j m)

  pub length-insert :
      (k : Bytes) (v : V) (m : Dict V)
      → length (insert k v m) ≡ (if has k m then length m else length m + 1)
  unfolding lookup insert
  length-insert k v [] = refl
  length-insert k v ((i, w) ∷ m) = ground (arith, length-insert k v m)

  pub erase_absent : (k : Bytes) (m : Dict V) → has k m ≡ false → erase k m ≡ m
  unfolding lookup erase
  erase_absent k [] h = refl
  erase_absent k ((i, w) ∷ m) h = ground (arith, erase_absent k m)

  pub length-erase :
      (k : Bytes) (m : Dict V)
      → IsMap m
      → length m ≡ (if has k m then length (erase k m) + 1 else length (erase k m))
  unfolding lookup erase
  length-erase k [] h = refl
  length-erase k ((i, w) ∷ m) (fresh, rest) =
      ground
        (arith, str_eq_iff i k, length-erase k m rest, erase_absent i m fresh, erase_absent k m)

  pub IsMap-insert : (k : Bytes) (v : V) (m : Dict V) → IsMap m → IsMap (insert k v m)
  unfolding lookup insert
  IsMap-insert k v [] h = (refl, tt)
  IsMap-insert k v ((i, w) ∷ m) (fresh, rest) =
      ground (arith, IsMap-insert k v m rest, lookup-insert k i v m, str_eq_iff k i, str_eq_iff i k)

  pub IsMap-erase : (k : Bytes) (m : Dict V) → IsMap m → IsMap (erase k m)
  unfolding lookup erase
  IsMap-erase k [] h = tt
  IsMap-erase k ((i, w) ∷ m) (fresh, rest) =
      ground (arith, IsMap-erase k m rest, lookup-erase k i m)

pub ruleset dict_laws = (lookup-insert, lookup-erase)
