-- ===== src/Resp.antt =====
-- pkg/resp/parser.go: RESP values, the parser and the writer. A reader is the input that is left.
-- `make` panics at a negative length. Its other panic, at a length beyond what can be allocated, and the
-- end of the memory are not modelled: the input ends before such a length does, or the elements are read.
pub mod Outcome
pub mod RoundTrip
pub mod Sound
use shoredb.Base.{
  ℕ, zero, suc, ◌+◌, ◌-◌, ◌*◌, ◌/◌, ◌%◌, ◌^◌, ◌≤◌, ◌<◌, ◌≡◌, refl, sym, ap, ◌∙◌, ◌≢◌, ◌↔◌, ◌⊎◌, inl,
  inr, Bool, true, false, not, ◌&&◌, ◌||◌, Option, none, some, List, [], ◌∷◌, ◌++◌, map, append-nil,
  append_assoc, arith, Bytes, codes, str_eq, str_eq_iff, str_eq_refl, ltb, leb, ◌==◌, ==_iff,
  if◌then◌else◌, Bool-cases, Option-cases, is_some, length, get_elem?, set, take, drop,
  length-append,
}
use shoredb.Base.Int.{ℤ, pos, negsuc, ltb_ℤ}
use shoredb.Strconv.{itoa, atoi}
use shoredb.Resp.Outcome.{
  Result, ok, err, panic, out_of_fuel, ◌>>=◌, Error, eof, unexpected_eof, too_short, bad_integer,
  bad_bulk_length, bad_array_length, unknown_type,
}

-- A value with its type byte: `integer` is the type `Integer` with the field `Num`, and so on.
mutual
  pub data Value : Type 0 where
    simple_string : Bytes → Value
    simple_error : Bytes → Value
    integer : ℤ → Value
    bulk_string : Bytes → Value
    array : Values → Value
    null : Value

  pub data Values : Type 0 where
    nil : Values
    cons : Value → Values → Values

-- v.Str, which is empty where the type has no text.
abbrev pub str : Value → Bytes
str (simple_string s) = s
str (simple_error s) = s
str (bulk_string s) = s
str _ = []

abbrev pub to_list : Values → List Value
to_list nil = []
to_list (cons v vs) = v ∷ to_list vs

abbrev pub of_list : List Value → Values
of_list [] = nil
of_list (v ∷ vs) = cons v (of_list vs)

abbrev pub count : Values → ℕ
count nil = 0
count (cons v vs) = suc (count vs)

abbrev pub crlf : Bytes
crlf = b'\r' ∷ b'\n' ∷ []

-- Writer.Write, with the writers of each type.
unfoldable mutual
  pub write : Value → Bytes
  write (simple_string s) = b'+' ∷ (s ++ crlf)
  write (simple_error s) = b'-' ∷ (s ++ crlf)
  write (integer n) = b':' ∷ (itoa n ++ crlf)
  write (bulk_string s) = b'$' ∷ (itoa (pos (length s)) ++ (crlf ++ (s ++ crlf)))
  write (array vs) = b'*' ∷ (itoa (pos (count vs)) ++ (crlf ++ write_values vs))
  write null = codes "$-1\r\n"

  pub write_values : Values → Bytes
  write_values nil = []
  write_values (cons v vs) = write v ++ write_values vs

-- reader.ReadBytes('\n'): the bytes before the newline, and what is behind it.
unfoldable pub until_newline : Bytes → Option (Bytes × Bytes)
until_newline [] = none
until_newline (c ∷ s) =
    let rest = until_newline s in
    if c == b'\n'
    then some ([], s)
    else elim rest [ none ↦ none | some (line, left) ↦ some (c ∷ line, left) ]

abbrev pub drop_last : Bytes → Bytes
drop_last [] = []
drop_last (c ∷ []) = []
drop_last (c ∷ d ∷ s) = c ∷ drop_last (d ∷ s)

-- `line` comes without its newline, so the test `len(line) < 2` is that nothing stands before it.
abbrev pub cut_line : Bytes → Bytes → Result (Bytes × Bytes)
cut_line [] left = err too_short
cut_line (c ∷ line) left = ok (drop_last (c ∷ line), left)

unfoldable pub read_line : Bytes → Result (Bytes × Bytes)
unfolding until_newline
read_line s = elim (until_newline s) [ none ↦ err eof | some (line, left) ↦ cut_line line left ]

-- io.ReadFull into a buffer of `n` bytes.
unfoldable pub read_full : ℕ → Bytes → Result (Bytes × Bytes)
read_full zero s = ok ([], s)
read_full (suc n) [] = err eof
read_full (suc n) (c ∷ s) =
    if leb (suc n) (length (c ∷ s))
    then ok (take (suc n) (c ∷ s), drop (suc n) (c ∷ s))
    else err unexpected_eof

-- strconv.Atoi on a line, with the caller's error.
abbrev pub number : Bytes → Error → Result ℤ
number s e = elim (atoi s) [ none ↦ err e | some n ↦ ok n ]

unfoldable pub read_int : Bytes → Result (Value × Bytes)
unfolding read_line
read_int s = do (line, left) ← read_line s; n ← number line bad_integer; ok (integer n, left)

unfoldable pub read_simple_string : Bytes → Result (Value × Bytes)
unfolding read_line
read_simple_string s = do (line, left) ← read_line s; ok (simple_string line, left)

unfoldable pub read_error : Bytes → Result (Value × Bytes)
unfolding read_line
read_error s = do (line, left) ← read_line s; ok (simple_error line, left)

-- What follows the length of a bulk string; -1 is the null bulk string.
unfoldable pub read_sized : ℤ → Bytes → Result (Value × Bytes)
unfolding read_full until_newline
read_sized (negsuc zero) s = ok (null, s)
read_sized (negsuc (suc n)) s = panic
read_sized (pos n) s = do
  (buf, left) ← read_full n s
  elim (until_newline left) [ none ↦ err eof | some (_, rest) ↦ ok (bulk_string buf, rest) ]

unfoldable pub read_bulk_string : Bytes → Result (Value × Bytes)
unfolding read_line read_sized
read_bulk_string s = do
  (line, left) ← read_line s
  size ← number line bad_bulk_length
  read_sized size left

-- The length of an array, `none` for -1.
abbrev pub array_length : ℤ → Result (Option ℕ)
array_length (negsuc zero) = ok none
array_length (negsuc (suc n)) = panic
array_length (pos n) = ok (some n)

-- Parser.Parse, with fuel: what a call leaves of the input is no structural part of it.
unfoldable mutual
  pub parse : ℕ → Bytes → Result (Value × Bytes)
  parse zero s = out_of_fuel
  parse (suc f) [] = err eof
  parse (suc f) (c ∷ s) =
      let elements = read_array f s in
      if c == b'+'
      then read_simple_string s
      else if c == b'$'
      then read_bulk_string s
      else if c == b'*'
      then elements
      else if c == b':'
      then read_int s
      else if c == b'-'
      then read_error s
      else err unknown_type

  pub read_array : ℕ → Bytes → Result (Value × Bytes)
  read_array zero s = out_of_fuel
  read_array (suc f) s = do
    (line, left) ← read_line s
    n ← number line bad_array_length
    size ← array_length n
    elim size [
      | none ↦ ok (null, left)
      | some k ↦ (do (vs, rest) ← read_values f k left; ok (array vs, rest))
    ]

  pub read_values : ℕ → ℕ → Bytes → Result (Values × Bytes)
  read_values zero n s = out_of_fuel
  read_values (suc f) zero s = ok (nil, s)
  read_values (suc f) (suc n) s = do
    (v, left) ← parse f s
    (vs, rest) ← read_values f n left
    ok (cons v vs, rest)

-- A call of `Parse` on the input that is left; `Sound` shows that the fuel is enough.
unfoldable pub parse_value : Bytes → Result (Value × Bytes)
parse_value s = parse (3 * length s + 3) s

parse_runs :
    parse_value (codes "*2\r\n$3\r\nGET\r\n$1\r\nk\r\n+x")
    ≡ ok (array (cons (bulk_string (codes "GET")) (cons (bulk_string (codes "k")) nil)), codes "+x")
unfolding parse_value parse read_bulk_string atoi
parse_runs = refl

-- A negative length other than -1 makes `make` panic.
parse_negative : (parse_value (codes "*-2\r\n") ≡ panic) × (parse_value (codes "$-7\r\n") ≡ panic)
unfolding parse_value parse read_bulk_string atoi
parse_negative = (refl, refl)

write_runs :
    write (array (cons (integer (negsuc 4)) (cons null nil))) ≡ codes "*2\r\n:-5\r\n$-1\r\n"
unfolding write itoa
write_runs = refl
