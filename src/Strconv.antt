-- ===== src/Strconv.antt =====
-- Decimal text: `strconv.Atoi` and `strconv.Itoa` of the standard library, and the two copies of
-- `parseInt` with `intToString` that pkg/datastruct/datastruct.go and pkg/server/tcp.go carry.
pub mod RoundTrip
use mathlib.Core.List.{reverse}
use shoredb.Base.{
  ℕ, zero, suc, ◌+◌, ◌-◌, ◌*◌, ◌/◌, ◌%◌, ◌^◌, Bool, true, false, ◌&&◌, ◌||◌, List, [], ◌∷◌, ◌++◌,
  Option, none, some, Bytes, codes, ltb, leb, ◌==◌, if◌then◌else◌, ◌≡◌, refl,
}
use shoredb.Base.Int.{ℤ, pos, negsuc, pos_part, ◌+ℤ◌, ◌*ℤ◌, neg_ℤ, ltb_ℤ, sub_ℕ, wrap, min_int}

-- The digits of `n` in front of `out`, with fuel for `n` rounds at least.
unfoldable pub emit : ℕ → ℕ → Bytes → Bytes
emit zero n out = out
emit (suc f) n out =
    let rest = emit f (n / 10) ((b'0' + n % 10) ∷ out) in if n == 0 then out else rest

unfoldable pub format : ℕ → Bytes
unfolding emit
format n = if n == 0 then b'0' ∷ [] else emit n n []

-- strconv.Itoa
unfoldable pub itoa : ℤ → Bytes
unfolding format
itoa (pos n) = format n
itoa (negsuc n) = b'-' ∷ format (suc n)

abbrev pub is_digit : ℕ → Bool
is_digit c = leb b'0' c && leb c b'9'

unfoldable pub scan : Bytes → ℕ → Option ℕ
scan [] n = some n
scan (c ∷ s) n = if is_digit c then scan s (n * 10 + (c - b'0')) else none

abbrev pub scan_all : Bytes → Option ℕ
scan_all [] = none
scan_all (c ∷ s) = scan (c ∷ s) 0

abbrev pub in_range : Bool → Option ℕ → Option ℤ
in_range negative none = none
in_range false (some n) = if ltb n (2 ^ 63) then some (pos n) else none
in_range true (some n) = if leb n (2 ^ 63) then some (sub_ℕ 0 n) else none

-- strconv.Atoi: `none` is an error, for the syntax or for the range.
unfoldable pub atoi : Bytes → Option ℤ
unfolding scan
atoi [] = none
atoi (c ∷ s) =
    if c == b'-'
    then in_range true (scan_all s)
    else if c == b'+'
    then in_range false (scan_all s)
    else in_range false (scan_all (c ∷ s))

-- The loop of `parseInt`: `result*10 + int(s[i]-'0')` in `int` arithmetic.
unfoldable pub scan_int : Bytes → ℤ → Option ℤ
scan_int [] n = some n
scan_int (c ∷ s) n =
    if ltb c b'0' || ltb b'9' c then none else scan_int s (wrap (n *ℤ pos 10 +ℤ pos (c - b'0')))

abbrev negated : Option ℤ → Option ℤ
negated none = none
negated (some n) = some (wrap (neg_ℤ n))

-- `parseInt`: the empty text and a bare sign read as 0, and large values wrap around.
unfoldable pub parse_int : Bytes → Option ℤ
unfolding scan_int wrap ◌+ℤ◌ ◌*ℤ◌ neg_ℤ
parse_int [] = some (pos 0)
parse_int (c ∷ s) =
    if c == b'-'
    then negated (scan_int s (pos 0))
    else if c == b'+'
    then scan_int s (pos 0)
    else scan_int (c ∷ s) (pos 0)

-- `for n > 0 { digits = append(digits, byte('0'+n%10)); n /= 10 }`
unfoldable pub digit_loop : ℕ → ℕ → Bytes → Bytes
digit_loop zero n digits = digits
digit_loop (suc f) n digits =
    let rest = digit_loop f (n / 10) (digits ++ (b'0' + n % 10) ∷ []) in
    if n == 0 then digits else rest

-- The loop runs on positive values only: a negative `n` gives no digit.
abbrev unsigned_digits : ℤ → Bytes
unsigned_digits n = reverse (digit_loop (pos_part n) (pos_part n) [])

-- `intToString`
unfoldable pub int_to_string : ℤ → Bytes
unfolding digit_loop wrap neg_ℤ
int_to_string (pos zero) = b'0' ∷ []
int_to_string (pos (suc n)) = unsigned_digits (pos (suc n))
int_to_string (negsuc n) = b'-' ∷ unsigned_digits (wrap (neg_ℤ (negsuc n)))

itoa_runs : (itoa (negsuc 41) ≡ codes "-42") × (itoa (pos 1203) ≡ codes "1203")
unfolding itoa
itoa_runs = (refl, refl)

atoi_runs :
    (atoi (codes "-42") ≡ some (negsuc 41))
    × (atoi (codes "+7") ≡ some (pos 7))
    × (atoi (codes "-") ≡ none)
    × (atoi (codes "9223372036854775808") ≡ none)
    × (atoi (codes "-9223372036854775808") ≡ some min_int)
unfolding atoi
atoi_runs = (refl, refl, refl, refl, refl)

parse_int_runs :
    (parse_int (codes "-") ≡ some (pos 0))
    × (parse_int (codes "9223372036854775808") ≡ some min_int)
    × (parse_int (codes "4x") ≡ none)
unfolding parse_int
parse_int_runs = (refl, refl, refl)

int_to_string_runs : (int_to_string min_int ≡ codes "-") × (int_to_string (negsuc 9) ≡ codes "-10")
unfolding int_to_string
int_to_string_runs = (refl, refl)
