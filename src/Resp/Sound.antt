-- ===== src/Resp/Sound.antt =====
-- What the parser of pkg/resp/parser.go returns: its fuel, its values and what is left of its input.
use shoredb.Base.{
  ℕ, zero, suc, ◌+◌, ◌*◌, ◌≤◌, ◌<◌, ◌≡◌, refl, ◌≢◌, ◌⊎◌, inl, inr, Bool, true, false, Option, none,
  some, [], ◌∷◌, ◌++◌, arith, Bytes, leb, if◌then◌else◌, Bool-cases, Option-cases, length,
}
use mathlib.Core.Path.{subst}
use shoredb.Base.{length-drop, length-take}
use shoredb.Base.Int.{ℤ, pos, negsuc, IsInt64}
use shoredb.Strconv.{atoi, in_range, scan_all}
use shoredb.Resp.Outcome.{
  Result, ok, err, panic, out_of_fuel, ◌>>=◌, Error, eof, bad_integer, bad_bulk_length,
  bad_array_length,
}
use shoredb.Resp.RoundTrip.{parse_value-write, filled, NoNewline, IsWire, AreWire}
use shoredb.Resp.{
  Value, Values, bulk_string, count, until_newline, drop_last, cut_line, read_line, read_full,
  number, read_int, read_simple_string, read_error, read_sized, read_bulk_string, parse, read_array,
  read_values, parse_value, write,
}

-- The run kept within its fuel, and `P` holds of its value if it has one.
pub data Delivers {ℓ κ} {A : Type ℓ} (P : A → Type κ) : Result A → Type (ℓ ⊔ κ) where
  value : {a : A} → P a → Delivers P (ok a)
  error : {e : Error} → Delivers P (err e)
  panics : Delivers P panic

module _ {ℓ κ} {A : Type ℓ} {P : A → Type κ} where
  Delivers-bind {ℓ' κ'} :
      {B : Type ℓ'} {Q : B → Type κ'} {r : Result A} {f : A → Result B}
      → Delivers P r
      → ((a : A) → P a → Delivers Q (f a))
      → Delivers Q (r >>= f)
  Delivers-bind (value {a} h) k = k a h
  Delivers-bind error k = error
  Delivers-bind panics k = panics

until_newline_sound :
    (s line left : Bytes)
    → until_newline s ≡ some (line, left)
    → NoNewline line × (length left < length s)
unfolding until_newline
until_newline_sound [] line left h = cc
until_newline_sound (c ∷ s) line left h = elim (Option-cases (until_newline s)) [
  | inl e ↦ ground arith
  | inr ((l, r), e) ↦ ground (arith, until_newline_sound s l r e)
]

drop_last-NoNewline : (s : Bytes) → NoNewline s → NoNewline (drop_last s)
drop_last-NoNewline [] h = tt
drop_last-NoNewline (a ∷ []) h = tt
drop_last-NoNewline (a ∷ b ∷ s) (ha, hs) = (ha, drop_last-NoNewline (b ∷ s) hs)

abbrev LineOf : Bytes → Bytes × Bytes → Type 0
LineOf s p = NoNewline p.0 × (length p.1 < length s)

cut_line-Delivers :
    (s line left : Bytes)
    → NoNewline line
    → length left < length s
    → Delivers (LineOf s) (cut_line line left)
cut_line-Delivers s [] left h lt = error
cut_line-Delivers s (c ∷ line) left h lt = value (drop_last-NoNewline (c ∷ line) h, lt)

read_line-Delivers : (s : Bytes) → Delivers (LineOf s) (read_line s)
unfolding read_line
read_line-Delivers s = elim (Option-cases (until_newline s)) [
  | inl e ↦ rw (e, read_line) error
  | inr ((line, left), e) ↦
      let (h, lt) = until_newline_sound s line left e in
      rw (e, read_line) (cut_line-Delivers s line left h lt)
]

in_range-IsInt64 : (b : Bool) (o : Option ℕ) (z : ℤ) → in_range b o ≡ some z → IsInt64 z
in_range-IsInt64 b none z h = cc
in_range-IsInt64 true (some n) z h = ground arith
in_range-IsInt64 false (some n) z h = ground arith

-- `Atoi` returns values of `int` only.
pub atoi-IsInt64 : (s : Bytes) (z : ℤ) → atoi s ≡ some z → IsInt64 z
unfolding atoi
atoi-IsInt64 [] z h = cc
atoi-IsInt64 (c ∷ s) z h = ground (
  arith,
  in_range-IsInt64 true (scan_all s) z,
  in_range-IsInt64 false (scan_all s) z,
  in_range-IsInt64 false (scan_all (c ∷ s)) z,
)

number-Delivers : (s : Bytes) (e : Error) → Delivers IsInt64 (number s e)
number-Delivers s e = elim (Option-cases (atoi s)) [
  | inl h ↦ rw (h, number) error
  | inr (z, h) ↦ rw (h, number) (value (atoi-IsInt64 s z h))
]

-- A read value can be written, and input was consumed.
abbrev pub ReadOf : Bytes → Value × Bytes → Type 0
ReadOf s p = IsWire p.0 × (length p.1 < length s)

read_simple_string-Delivers : (s : Bytes) → Delivers (ReadOf s) (read_simple_string s)
unfolding read_simple_string
read_simple_string-Delivers s = Delivers-bind (read_line-Delivers s) λ p h. value h

read_error-Delivers : (s : Bytes) → Delivers (ReadOf s) (read_error s)
unfolding read_error
read_error-Delivers s = Delivers-bind (read_line-Delivers s) λ p h. value h

read_int-Delivers : (s : Bytes) → Delivers (ReadOf s) (read_int s)
unfolding read_int
read_int-Delivers s =
    Delivers-bind (read_line-Delivers s)
      λ p h. Delivers-bind (number-Delivers p.0 bad_integer) λ z hz. value (hz, h.1)

abbrev FullOf : ℕ → Bytes → Bytes × Bytes → Type 0
FullOf n s p = (length p.0 ≡ n) × (length p.1 ≤ length s)

read_full-Delivers : (n : ℕ) (s : Bytes) → Delivers (FullOf n s) (read_full n s)
unfolding read_full
read_full-Delivers zero s = value (refl, omega arith)
read_full-Delivers (suc n) [] = error
read_full-Delivers (suc n) (c ∷ s) = elim (Bool-cases (leb (suc n) (length (c ∷ s)))) [
  | inl h ↦ rw h (value (ground (arith, length-take n s), omega (arith, length-drop n s)))
  | inr h ↦ rw h error
]

abbrev closed : Bytes → Bytes → Result (Value × Bytes)
closed buf left = elim (until_newline left) [
  | none ↦ err eof
  | some (_, rest) ↦ ok (bulk_string buf, rest)
]

read_sized-Delivers :
    (z : ℤ) (s t : Bytes) → IsInt64 z → length s < length t → Delivers (ReadOf t) (read_sized z s)
unfolding read_sized
read_sized-Delivers (negsuc zero) s t hz lt = value (tt, lt)
read_sized-Delivers (negsuc (suc n)) s t hz lt = panics
read_sized-Delivers (pos n) s t hz lt =
    Delivers-bind (read_full-Delivers n s) λ p h. after_buf p h (Option-cases (until_newline p.1))
  where
    after_buf :
        (p : Bytes × Bytes)
        → FullOf n s p
        → (until_newline p.1 ≡ none) ⊎ ((q : Bytes × Bytes) × (until_newline p.1 ≡ some q))
        → Delivers (ReadOf t) (closed p.0 p.1)
    after_buf p h (inl e) = rw (e, closed) error
    after_buf p h (inr (q, e)) =
        let (_, lt') = until_newline_sound p.1 q.0 q.1 e in
        rw (e, closed) (value (omega arith, omega arith))

read_bulk_string-Delivers : (s : Bytes) → Delivers (ReadOf s) (read_bulk_string s)
unfolding read_bulk_string
read_bulk_string-Delivers s = Delivers-bind (read_line-Delivers s) λ p h.
    Delivers-bind (number-Delivers p.0 bad_bulk_length) λ z hz. read_sized-Delivers z p.1 s hz h.1

abbrev ValuesOf : ℕ → Bytes → Values × Bytes → Type 0
ValuesOf n s p = AreWire p.0 × (count p.0 ≡ n) × (length p.1 ≤ length s)

Delivers-longer :
    (s : Bytes) {r : Result (Value × Bytes)} (c : ℕ)
    → Delivers (ReadOf s) r
    → Delivers (ReadOf (c ∷ s)) r
Delivers-longer s c (value (w, lt)) = value (w, omega arith)
Delivers-longer s c error = error
Delivers-longer s c panics = panics

Delivers-if :
    {P : Value × Bytes → Type 0} (b : Bool) {x y : Result (Value × Bytes)}
    → Delivers P x
    → Delivers P y
    → Delivers P (if b then x else y)
Delivers-if true hx hy = hx
Delivers-if false hx hy = hy

read_elements-Delivers :
    (f : ℕ) (z : ℤ) (s t : Bytes)
    → IsInt64 z
    → length s < length t
    → ((n : ℕ) → Delivers (ValuesOf n s) (read_values f n s))
    → Delivers (ReadOf t) (filled f z s)
read_elements-Delivers f (negsuc zero) s t hz lt h = value (tt, lt)
read_elements-Delivers f (negsuc (suc n)) s t hz lt h = panics
read_elements-Delivers f (pos n) s t hz lt h =
    Delivers-bind (h n) λ q hq. value ((rw (hq.1) hz, hq.0), omega arith)

-- One induction on the fuel: an element consumes input, so the fuel stays above its bound.
mutual
  unfolding parse

  parse-Delivers : (f : ℕ) (s : Bytes) → 3 * length s < f → Delivers (ReadOf s) (parse f s)
  parse-Delivers zero s h = absurd (omega arith)
  parse-Delivers (suc f) [] h = error
  parse-Delivers (suc f) (c ∷ s) h =
      Delivers-if _ (Delivers-longer s c (read_simple_string-Delivers s)) (
        Delivers-if _ (Delivers-longer s c (read_bulk_string-Delivers s)) (
          Delivers-if _ (Delivers-longer s c (read_array-Delivers f s (omega arith))) (
            Delivers-if _ (Delivers-longer s c (read_int-Delivers s))
              (Delivers-if _ (Delivers-longer s c (read_error-Delivers s)) error))))

  read_array-Delivers :
      (f : ℕ) (s : Bytes) → 3 * length s + 1 < f → Delivers (ReadOf s) (read_array f s)
  read_array-Delivers zero s h = absurd (omega arith)
  read_array-Delivers (suc f) s h = Delivers-bind (read_line-Delivers s) λ p hp.
      Delivers-bind (number-Delivers p.0 bad_array_length) λ z hz.
        read_elements-Delivers f z p.1 s hz hp.1 (λ n. read_values-Delivers f n p.1 (omega arith))

  read_values-Delivers :
      (f n : ℕ) (s : Bytes) → 3 * length s + 1 < f → Delivers (ValuesOf n s) (read_values f n s)
  read_values-Delivers zero n s h = absurd (omega arith)
  read_values-Delivers (suc f) zero s h = value (tt, refl, omega arith)
  read_values-Delivers (suc f) (suc n) s h =
      Delivers-bind (parse-Delivers f s (omega arith)) λ p hp.
        Delivers-bind (read_values-Delivers f n p.1 (omega arith))
          λ q hq. value ((hp.0, hq.0), omega arith, omega arith)

-- Every input gives a value, an error or a panic, within the fuel; a value is one that the protocol
-- can carry, and the input that is left is shorter.
pub parse_value_sound : (s : Bytes) → Delivers (ReadOf s) (parse_value s)
unfolding parse_value
parse_value_sound s = parse-Delivers (3 * length s + 3) s (omega arith)

Delivers-ok {ℓ κ} :
    {A : Type ℓ} {P : A → Type κ} {r : Result A} {a : A} → Delivers P r → r ≡ ok a → P a
Delivers-ok {P} (value h) e = subst P (cc) h
Delivers-ok error e = cc
Delivers-ok panics e = cc

Delivers-fuel {ℓ κ} : {A : Type ℓ} {P : A → Type κ} {r : Result A} → Delivers P r → r ≢ out_of_fuel
Delivers-fuel (value h) = cc
Delivers-fuel error = cc
Delivers-fuel panics = cc

-- The model of the parser never gives up: every input gives a value, an error or a panic.
pub parse_value-ne-out_of_fuel : (s : Bytes) → parse_value s ≢ out_of_fuel
parse_value-ne-out_of_fuel s = Delivers-fuel (parse_value_sound s)

pub parse_value-IsWire :
    (s : Bytes) (v : Value) (rest : Bytes) → parse_value s ≡ ok (v, rest) → IsWire v
parse_value-IsWire s v rest e = (Delivers-ok (parse_value_sound s) e).0

pub parse_value-shorter :
    (s : Bytes) (v : Value) (rest : Bytes) → parse_value s ≡ ok (v, rest) → length rest < length s
parse_value-shorter s v rest e = (Delivers-ok (parse_value_sound s) e).1

-- A value that was read from any input, in whatever spelling, is read again from the bytes that
-- writing it gives, and the input behind them is left.
pub parse_value-write-parse_value :
    (s : Bytes) (v : Value) (rest more : Bytes)
    → parse_value s ≡ ok (v, rest)
    → parse_value (write v ++ more) ≡ ok (v, more)
parse_value-write-parse_value s v rest more e =
    parse_value-write v more (parse_value-IsWire s v rest e)
