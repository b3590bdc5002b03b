-- ===== src/Resp/Outcome.antt =====
-- The outcome of a read from a connection or a log file: the errors of pkg/resp/parser.go.

-- `eof` is io.EOF, at the end of the input or inside a line; `unexpected_eof` comes from io.ReadFull.
pub data Error : Type 0 where
  eof unexpected_eof too_short bad_integer bad_bulk_length bad_array_length unknown_type : Error

-- `panic` is a run-time panic of `make` at a negative length. `out_of_fuel` has no counterpart.
pub data Result {ℓ} (A : Type ℓ) : Type ℓ where
  panic out_of_fuel : Result A
  err : Error → Result A
  ok : A → Result A

module _ {ℓ κ} {Value : Type ℓ} {Next : Type κ} where
  infixl 5 ◌>>=◌
  -- `if err != nil { return Value{}, err }`, and a panic is passed on too.
  abbrev pub ◌>>=◌ : Result Value → (Value → Result Next) → Result Next
  panic >>= next = panic
  out_of_fuel >>= next = out_of_fuel
  err failure >>= next = err failure
  ok value >>= next = next value
