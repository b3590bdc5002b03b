-- ===== src/Strconv/RoundTrip.antt =====
-- The decimal readers against the decimal printers.
use mathlib.Core.List.{reverse, reverse-append}
use shoredb.Base.{
  ℕ, zero, suc, ◌+◌, ◌/◌, ◌%◌, ◌^◌, ◌≤◌, ◌<◌, ◌≡◌, refl, sym, ap, ◌∙◌, ◌≢◌, inl, inr, true, false,
  some, [], ◌∷◌, arith, Bytes, ◌==◌, ==_iff, Bool-cases,
}
use shoredb.Base.Int.{ℤ, pos, negsuc, IsInt64, min_int, ◌+ℤ◌, ◌*ℤ◌, neg_ℤ, wrap, wrap_id}
use shoredb.Strconv.{
  emit, format, itoa, scan, scan_all, in_range, is_digit, atoi, scan_int, parse_int, negated,
  digit_loop, int_to_string,
}

-- A text that begins with a digit.
abbrev pub StartsDigit : Bytes → Type 0
StartsDigit [] = ⊥
StartsDigit (c ∷ s) = is_digit c ≡ true

emit-StartsDigit : (f n : ℕ) (out : Bytes) → StartsDigit out → StartsDigit (emit f n out)
unfolding emit
emit-StartsDigit zero n out h = h
emit-StartsDigit (suc f) n out h = elim (Bool-cases (n == 0)) [
  | inl z ↦ rw z h
  | inr p ↦ rw p (emit-StartsDigit f (n / 10) _ (ground arith))
]

pub format-StartsDigit : (n : ℕ) → StartsDigit (format n)
unfolding format emit
format-StartsDigit zero = refl
format-StartsDigit (suc n) =
    ground (arith, emit-StartsDigit n (suc n / 10) ((b'0' + suc n % 10) ∷ []))

-- Reading the last digit after the digits before it.
scan_last : (n : ℕ) (out : Bytes) → scan ((b'0' + n % 10) ∷ out) (n / 10) ≡ scan out n
unfolding scan
scan_last n out = ground arith

scan-emit : (f n : ℕ) (out : Bytes) → n ≤ f → scan (emit f n out) 0 ≡ scan out n
unfolding emit
scan-emit zero n out h = let e : n ≡ 0 = omega arith in rw e
scan-emit (suc f) n out h = elim (Bool-cases (n == 0)) [
  | inl z ↦ let e : n ≡ 0 = (==_iff n 0).0 z in rw z (rw e)
  | inr p ↦ rw p (scan-emit f (n / 10) _ (ground arith) ∙ scan_last n out)
]

scan-nil : (n : ℕ) → scan [] n ≡ some n
unfolding scan
scan-nil n = refl

format-suc : (n : ℕ) → format (suc n) ≡ emit (suc n) (suc n) []
unfolding format
format-suc n = ground arith

pub scan-format : (n : ℕ) → scan (format n) 0 ≡ some n
scan-format zero = unfold scan format in refl
scan-format (suc n) = rw format-suc (scan-emit (suc n) (suc n) [] (omega arith) ∙ scan-nil (suc n))

scan_all_starts : (s : Bytes) → StartsDigit s → scan_all s ≡ scan s 0
scan_all_starts [] h = absurd h
scan_all_starts (c ∷ s) h = refl

pub scan_all-format : (n : ℕ) → scan_all (format n) ≡ some n
scan_all-format n = scan_all_starts (format n) (format-StartsDigit n) ∙ scan-format n

atoi_starts : (s : Bytes) → StartsDigit s → atoi s ≡ in_range false (scan_all s)
unfolding atoi
atoi_starts [] h = absurd h
atoi_starts (c ∷ s) h = ground arith

-- `Atoi` reads back what `Itoa` prints, for every value of `int`.
pub atoi-itoa : (z : ℤ) → IsInt64 z → atoi (itoa z) ≡ some z
unfolding itoa
atoi-itoa (pos n) h =
    atoi_starts (format n) (format-StartsDigit n) ∙ rw scan_all-format (ground arith)
atoi-itoa (negsuc n) h = unfold atoi in rw scan_all-format (ground arith)

-- The appending loop of `intToString`, reversed, is `Itoa`'s.
reverse-digit_loop :
    (f n : ℕ) (digits : Bytes) → reverse (digit_loop f n digits) ≡ emit f n (reverse digits)
unfolding digit_loop emit
reverse-digit_loop zero n digits = refl
reverse-digit_loop (suc f) n digits = elim (Bool-cases (n == 0)) [
  | inl z ↦ rw z
  | inr p ↦
      rw p (reverse-digit_loop f (n / 10) _ ∙ rw (reverse-append digits ((b'0' + n % 10) ∷ [])))
]

format_loop : (n : ℕ) → reverse (digit_loop (suc n) (suc n) []) ≡ format (suc n)
format_loop n = reverse-digit_loop (suc n) (suc n) [] ∙ sym (format-suc n)

wrap-neg : (n : ℕ) → suc n < 2 ^ 63 → wrap (neg_ℤ (negsuc n)) ≡ pos (suc n)
unfolding wrap neg_ℤ
wrap-neg n h = ground arith

not_min : (n : ℕ) → n < 2 ^ 63 → negsuc n ≢ min_int → suc n < 2 ^ 63
not_min n h ne = ground arith

int_to_string_neg :
    (n : ℕ)
    → wrap (neg_ℤ (negsuc n)) ≡ pos (suc n)
    → int_to_string (negsuc n) ≡ b'-' ∷ reverse (digit_loop (suc n) (suc n) [])
unfolding int_to_string
int_to_string_neg n e = rw e

-- `intToString` agrees with `Itoa` on every `int` but the least.
pub int_to_string-itoa : (z : ℤ) → IsInt64 z → z ≢ min_int → int_to_string z ≡ itoa z
int_to_string-itoa (pos zero) h ne = unfold int_to_string itoa in refl
int_to_string-itoa (pos (suc n)) h ne = unfold int_to_string itoa in format_loop n
int_to_string-itoa (negsuc n) h ne =
    let e = wrap-neg n (not_min n h ne) in
    unfold itoa in (int_to_string_neg n e ∙ ap (◌∷◌ b'-') (format_loop n))

scan_int-nil : (z : ℤ) → scan_int [] z ≡ some z
unfolding scan_int
scan_int-nil z = refl

-- `parseInt` on digits, while the magnitude is at most that of the least `int`.
scan_int_last :
    (n : ℕ) (out : Bytes)
    → n ≤ 2 ^ 63
    → scan_int ((b'0' + n % 10) ∷ out) (wrap (pos (n / 10))) ≡ scan_int out (wrap (pos n))
unfolding scan_int ◌+ℤ◌ ◌*ℤ◌ wrap
scan_int_last n out h = ground arith

scan_int-emit :
    (f n : ℕ) (out : Bytes)
    → n ≤ f
    → n ≤ 2 ^ 63
    → scan_int (emit f n out) (pos 0) ≡ scan_int out (wrap (pos n))
unfolding emit
scan_int-emit zero n out h lt = let e : n ≡ 0 = omega arith in rw e (unfold wrap in refl)
scan_int-emit (suc f) n out h lt = elim (Bool-cases (n == 0)) [
  | inl z ↦ let e : n ≡ 0 = (==_iff n 0).0 z in rw z (rw e (unfold wrap in refl))
  | inr p ↦ rw p (scan_int-emit f (n / 10) _ (ground arith) (omega arith) ∙ scan_int_last n out lt)
]

scan_int-format : (n : ℕ) → n ≤ 2 ^ 63 → scan_int (format n) (pos 0) ≡ some (wrap (pos n))
scan_int-format zero h = unfold scan_int format wrap ◌+ℤ◌ ◌*ℤ◌ in refl
scan_int-format (suc n) h =
    rw format-suc
      (scan_int-emit (suc n) (suc n) [] (omega arith) h ∙ scan_int-nil (wrap (pos (suc n))))

parse_int_starts : (s : Bytes) → StartsDigit s → parse_int s ≡ scan_int s (pos 0)
unfolding parse_int
parse_int_starts [] h = absurd h
parse_int_starts (c ∷ s) h = ground arith

parse_int_minus : (s : Bytes) → parse_int (b'-' ∷ s) ≡ negated (scan_int s (pos 0))
unfolding parse_int
parse_int_minus s = refl

negated_wrap : (n : ℕ) → n < 2 ^ 63 → wrap (neg_ℤ (wrap (pos (suc n)))) ≡ negsuc n
unfolding wrap neg_ℤ
negated_wrap n h = ground arith

-- `parseInt` reads back what `Itoa` prints, for every value of `int`.
pub parse_int-itoa : (z : ℤ) → IsInt64 z → parse_int (itoa z) ≡ some z
unfolding itoa
parse_int-itoa (pos n) h =
    parse_int_starts (format n) (format-StartsDigit n)
    ∙ scan_int-format n (omega arith)
    ∙ ap some (wrap_id (pos n) h)
parse_int-itoa (negsuc n) h =
    parse_int_minus (format (suc n))
    ∙ ap negated (scan_int-format (suc n) (omega arith))
    ∙ ap some (negated_wrap n h)
