-- ===== src/Resp/RoundTrip.antt =====
-- The writer and the parser of pkg/resp/parser.go, one behind the other.
use shoredb.Base.{
  ℕ, zero, suc, ◌+◌, ◌*◌, ◌/◌, ◌^◌, ◌≤◌, ◌<◌, ◌≡◌, refl, ap, ◌∙◌, inl, inr, false, none, some, [],
  ◌∷◌, ◌++◌, append_assoc, arith, Bytes, codes, ◌==◌, Bool-cases, length, length-append,
}
use shoredb.Base.{take-length-append, drop-length-append}
use shoredb.Base.Int.{ℤ, pos, negsuc, IsInt64}
use shoredb.Strconv.{emit, format, itoa, atoi}
use shoredb.Strconv.RoundTrip.{atoi-itoa, StartsDigit, format-StartsDigit}
use shoredb.Resp.Outcome.{Result, ok, ◌>>=◌, Error, bad_integer, bad_bulk_length, bad_array_length}
use shoredb.Resp.{
  parse_value, array_length, write_values, read_array, read_values, Value, Values, simple_string,
  simple_error, integer, bulk_string, array, null, nil, cons, count, crlf, write, until_newline,
  drop_last, cut_line, read_line, read_full, number, read_int, read_simple_string, read_error,
  read_sized, read_bulk_string, parse, read_array, read_values,
}

abbrev pub NoNewline : Bytes → Type 0
NoNewline [] = Unit
NoNewline (c ∷ s) = ((c == b'\n') ≡ false) × NoNewline s

-- What a value must satisfy to be read back: one-line texts on one line, numbers and lengths in `int`.
abbrev mutual
  pub IsWire : Value → Type 0
  IsWire (simple_string s) = NoNewline s
  IsWire (simple_error s) = NoNewline s
  IsWire (integer n) = IsInt64 n
  IsWire (bulk_string s) = length s < 2 ^ 63
  IsWire (array vs) = (count vs < 2 ^ 63) × AreWire vs
  IsWire null = Unit

  pub AreWire : Values → Type 0
  AreWire nil = Unit
  AreWire (cons v vs) = IsWire v × AreWire vs

-- The fuel that reading a value takes.
unfoldable mutual
  pub need : Value → ℕ
  need (array vs) = 2 + needs vs
  need (simple_string _) = 1
  need (simple_error _) = 1
  need (integer _) = 1
  need (bulk_string _) = 1
  need null = 1

  pub needs : Values → ℕ
  needs nil = 1
  needs (cons v vs) = 1 + need v + needs vs

until_newline_line :
    (line rest : Bytes)
    → NoNewline line
    → until_newline (line ++ (crlf ++ rest)) ≡ some (line ++ b'\r' ∷ [], rest)
unfolding until_newline
until_newline_line [] rest h = refl
until_newline_line (c ∷ line) rest (hc, hs) = ground (arith, until_newline_line line rest hs)

drop_last-concat : (s : Bytes) (c : ℕ) → drop_last (s ++ c ∷ []) ≡ s
drop_last-concat [] c = refl
drop_last-concat (a ∷ []) c = refl
drop_last-concat (a ∷ b ∷ s) c = ap (◌∷◌ a) (drop_last-concat (b ∷ s) c)

cut_line-concat : (line rest : Bytes) → cut_line (line ++ b'\r' ∷ []) rest ≡ ok (line, rest)
cut_line-concat [] rest = refl
cut_line-concat (c ∷ line) rest = rw (drop_last-concat (c ∷ line) b'\r')

pub read_line-crlf :
    (line rest : Bytes) → NoNewline line → read_line (line ++ (crlf ++ rest)) ≡ ok (line, rest)
unfolding read_line
read_line-crlf line rest h =
    rw (until_newline_line line rest h, read_line) (cut_line-concat line rest)

emit-NoNewline : (f n : ℕ) (out : Bytes) → NoNewline out → NoNewline (emit f n out)
unfolding emit
emit-NoNewline zero n out h = h
emit-NoNewline (suc f) n out h = elim (Bool-cases (n == 0)) [
  | inl z ↦ rw z h
  | inr p ↦ rw p (emit-NoNewline f (n / 10) _ (ground arith, h))
]

format-NoNewline : (n : ℕ) → NoNewline (format n)
unfolding format
format-NoNewline n = elim (Bool-cases (n == 0)) [
  | inl z ↦ rw z (refl, tt)
  | inr p ↦ rw p (emit-NoNewline n n [] tt)
]

pub itoa-NoNewline : (z : ℤ) → NoNewline (itoa z)
unfolding itoa
itoa-NoNewline (pos n) = format-NoNewline n
itoa-NoNewline (negsuc n) = (refl, format-NoNewline (suc n))

number-itoa : (z : ℤ) (e : Error) → IsInt64 z → number (itoa z) e ≡ ok z
number-itoa z e h = rw (atoi-itoa z h, number)

-- A length, printed on its line, is read back.
read_number-line :
    (z : ℤ) (e : Error) (rest : Bytes) {A : Type 0} (k : ℤ → Bytes → Result A)
    → IsInt64 z
    → (read_line (itoa z ++ (crlf ++ rest)) >>= λ (line, left). number line e >>= λ n. k n left)
      ≡ k z rest
read_number-line z e rest k h =
    rw (read_line-crlf (itoa z) rest (itoa-NoNewline z)) (rw (number-itoa z e h))

read_full-append : (s rest : Bytes) → read_full (length s) (s ++ rest) ≡ ok (s, rest)
unfolding read_full
read_full-append [] rest = refl
read_full-append (c ∷ s) rest =
    ground (arith, take-length-append s rest, drop-length-append s rest, length-append s rest)

read_simple_string-line :
    (s rest : Bytes)
    → NoNewline s
    → read_simple_string ((s ++ crlf) ++ rest) ≡ ok (simple_string s, rest)
unfolding read_simple_string
read_simple_string-line s rest h = rw append_assoc (rw (read_line-crlf s rest h))

read_error-line :
    (s rest : Bytes) → NoNewline s → read_error ((s ++ crlf) ++ rest) ≡ ok (simple_error s, rest)
unfolding read_error
read_error-line s rest h = rw append_assoc (rw (read_line-crlf s rest h))

read_int-line :
    (z : ℤ) (rest : Bytes) → IsInt64 z → read_int ((itoa z ++ crlf) ++ rest) ≡ ok (integer z, rest)
unfolding read_int
read_int-line z rest h =
    rw append_assoc (read_number-line z bad_integer rest (λ n left. ok (integer n, left)) h)

read_sized-append :
    (s rest : Bytes) → read_sized (pos (length s)) (s ++ (crlf ++ rest)) ≡ ok (bulk_string s, rest)
unfolding read_sized
read_sized-append s rest = rw (read_full-append s (crlf ++ rest))

read_bulk_string-append :
    (s rest : Bytes)
    → length s < 2 ^ 63
    → read_bulk_string ((itoa (pos (length s)) ++ (crlf ++ (s ++ crlf))) ++ rest)
      ≡ ok (bulk_string s, rest)
unfolding read_bulk_string
read_bulk_string-append s rest h = simp append_assoc (
    read_number-line (pos (length s)) bad_bulk_length (s ++ (crlf ++ rest)) read_sized h
    ∙ read_sized-append s rest)

abbrev pub filled : ℕ → ℤ → Bytes → Result (Value × Bytes)
filled f n left = do
  size ← array_length n
  elim size [
    | none ↦ ok (null, left)
    | some k ↦ (do (vs, rest) ← read_values f k left; ok (array vs, rest))
  ]

read_array-append :
    (vs : Values) (f : ℕ) (rest : Bytes)
    → count vs < 2 ^ 63
    → read_values f (count vs) (write_values vs ++ rest) ≡ ok (vs, rest)
    → read_array (suc f) ((itoa (pos (count vs)) ++ (crlf ++ write_values vs)) ++ rest)
      ≡ ok (array vs, rest)
unfolding read_array
read_array-append vs f rest h ih = simp append_assoc (
    read_number-line (pos (count vs)) bad_array_length (write_values vs ++ rest) (filled f) h
    ∙ rw ih)

pub need_pos : (v : Value) → 1 ≤ need v
unfolding need
need_pos (array vs) = omega arith
need_pos _ = omega arith

needs_pos : (vs : Values) → 1 ≤ needs vs
unfolding need
needs_pos nil = omega arith
needs_pos (cons v vs) = omega arith

read_null : (rest : Bytes) → read_bulk_string (codes "-1\r\n" ++ rest) ≡ ok (null, rest)
unfolding read_bulk_string atoi
read_null rest = refl

mutual
  unfolding parse write need

  parse-write :
      (v : Value) (f : ℕ) (rest : Bytes)
      → IsWire v
      → need v ≤ f
      → parse f (write v ++ rest) ≡ ok (v, rest)
  parse-write v zero rest w h = absurd (omega (arith, need_pos v))
  parse-write (simple_string s) (suc f) rest w h = read_simple_string-line s rest w
  parse-write (simple_error s) (suc f) rest w h = read_error-line s rest w
  parse-write (integer n) (suc f) rest w h = read_int-line n rest w
  parse-write (bulk_string s) (suc f) rest w h = read_bulk_string-append s rest w
  parse-write (array vs) (suc zero) rest w h = absurd (omega arith)
  parse-write (array vs) (suc (suc f)) rest w h =
      read_array-append vs f rest w.0 (read_values-write vs f rest w.1 (omega arith))
  parse-write null (suc f) rest w h = read_null rest

  read_values-write :
      (vs : Values) (f : ℕ) (rest : Bytes)
      → AreWire vs
      → needs vs ≤ f
      → read_values f (count vs) (write_values vs ++ rest) ≡ ok (vs, rest)
  read_values-write vs zero rest w h = absurd (omega (arith, needs_pos vs))
  read_values-write nil (suc f) rest w h = refl
  read_values-write (cons v vs) (suc f) rest w h =
      let first = parse-write v f (write_values vs ++ rest) w.0 (omega arith) in
      let others = read_values-write vs f rest w.1 (omega arith) in
      rw append_assoc (rw first (rw others))

length-starts : (s : Bytes) → StartsDigit s → 1 ≤ length s
length-starts [] h = absurd h
length-starts (c ∷ s) h = omega arith

length-itoa_pos : (n : ℕ) → 1 ≤ length (itoa (pos n))
unfolding itoa
length-itoa_pos n = length-starts (format n) (format-StartsDigit n)

-- The text of a value is longer than the fuel that it takes.
mutual
  unfolding write need

  pub need-length-write : (v : Value) → need v + 1 ≤ length (write v)
  need-length-write (simple_string s) = omega (arith, length-append s crlf)
  need-length-write (simple_error s) = omega (arith, length-append s crlf)
  need-length-write (integer n) = omega (arith, length-append (itoa n) crlf)
  need-length-write (bulk_string s) =
      omega (arith, length-append (itoa (pos (length s))) (crlf ++ (s ++ crlf)))
  need-length-write (array vs) = omega (
    arith,
    length-append (itoa (pos (count vs))) (crlf ++ write_values vs),
    needs-length-write vs,
    length-itoa_pos (count vs),
  )
  need-length-write null = omega arith

  needs-length-write : (vs : Values) → needs vs ≤ length (write_values vs) + 1
  needs-length-write nil = omega arith
  needs-length-write (cons v vs) = omega (
    arith,
    need-length-write v,
    needs-length-write vs,
    length-itoa_pos (count vs),
    length-append (write v) (write_values vs),
  )

-- Reading what was written gives the value back and leaves exactly the input behind it, for every
-- value whose one-line texts hold no newline and whose numbers and lengths fit into `int`.
pub parse_value-write :
    (v : Value) (rest : Bytes) → IsWire v → parse_value (write v ++ rest) ≡ ok (v, rest)
unfolding parse_value
parse_value-write v rest w =
    parse-write v (3 * length (write v ++ rest) + 3) rest w
      (omega (arith, need-length-write v, length-append (write v) rest))
