-- ===== src/Commands/Admin/Names.antt =====
-- Lists of names: two with the same ones, and a name apart from those of a list.
use shoredb.Base.{
  ℕ, zero, suc, ◌≡◌, Bool, true, false, ◌&&◌, some, List, [], ◌∷◌, arith, Bytes, str_eq, str_eq_iff,
  str_eq_refl, get_elem?, drop,
}
use shoredb.Datastruct.Sets.Counts.{among}

abbrev pub within : List Bytes → List Bytes → Bool
within [] ys = true
within (x ∷ xs) ys = among x ys && within xs ys

within-among :
    (key : Bytes) (xs ys : List Bytes)
    → within xs ys ≡ true
    → among key xs ≡ true
    → among key ys ≡ true
within-among key [] ys h e = absurd (ground (arith, e))
within-among key (x ∷ xs) ys h e = ground (arith, within-among key xs ys, str_eq_iff x key)

pub same_names :
    (key : Bytes) (xs ys : List Bytes)
    → within xs ys ≡ true
    → within ys xs ≡ true
    → among key xs ≡ among key ys
same_names key xs ys h g = ground (arith, within-among key xs ys h, within-among key ys xs g)

pub not_first :
    (name x : Bytes) (xs : List Bytes)
    → among name (x ∷ xs) ≡ false
    → (str_eq name x ≡ false) × (among name xs ≡ false)
not_first name x xs h = ground (arith, h, str_eq_iff name x, str_eq_iff x name, str_eq_refl x)

pub differs :
    (name : Bytes) (names : List Bytes) (i : ℕ) (x : Bytes)
    → among name names ≡ false
    → get_elem? names i ≡ some x
    → str_eq name x ≡ false
differs name [] i x h e = absurd (ground (arith, e))
differs name (y ∷ names) zero x h e = ground (arith, e, not_first name y names h)
differs name (y ∷ names) (suc i) x h e = differs name names i x (not_first name y names h).1 e

pub not_behind :
    (name : Bytes) (n : ℕ) (names : List Bytes)
    → among name names ≡ false
    → among name (drop n names) ≡ false
not_behind name zero names h = h
not_behind name (suc n) [] h = h
not_behind name (suc n) (x ∷ names) h = not_behind name n names (not_first name x names h).1
