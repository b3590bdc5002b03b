-- ===== src/Aof.antt =====
-- pkg/persistence/aof.go: the log of commands. The file is the list of its bytes; the writes to it
-- are taken to succeed, and the flushing of the file to the disk is not modelled.
pub mod RoundTrip
use shoredb.Base.{
  ℕ, zero, suc, ◌+◌, ◌-◌, ◌*◌, ◌/◌, ◌%◌, ◌^◌, ◌≤◌, ◌<◌, ◌≡◌, refl, sym, ap, ◌∙◌, ◌≢◌, ◌↔◌, ◌⊎◌, inl,
  inr, Bool, true, false, not, ◌&&◌, ◌||◌, Option, none, some, List, [], ◌∷◌, ◌++◌, map, append-nil,
  append_assoc, arith, Bytes, codes, str_eq, str_eq_iff, str_eq_refl, ltb, leb, ◌==◌, ==_iff,
  if◌then◌else◌, Bool-cases, Option-cases, is_some, length, get_elem?, take, drop, length-append,
}
use shoredb.Base.Int.{ℤ, pos, negsuc, eq_ℤ}
use shoredb.Strconv.{atoi, itoa}
use shoredb.Resp.{Value, Values, nil, cons, bulk_string, array, of_list, str, write, parse_value}
use shoredb.Resp.Outcome.{Error, eof, Result, ok, err, panic, out_of_fuel}

-- The fields that writing uses: the file's content and the database of the last entry.
pub record Aof : Type 0 where
  pub file : Bytes
  pub last_db : ℤ

-- NewAof, on an empty file.
abbrev pub new_aof : Aof
new_aof = record { file = []; last_db = negsuc 0 }

abbrev pub select_entry : ℤ → Value
select_entry db_index =
    array (of_list (bulk_string (codes "SELECT") ∷ bulk_string (itoa db_index) ∷ []))

-- Aof.Write
unfoldable pub write_entry : ℤ → Value → Aof → Aof
unfolding write
write_entry db_index value aof =
    let tagged =
      if not (eq_ℤ db_index aof.last_db)
      then record { file = aof.file ++ write (select_entry db_index); last_db = db_index }
      else aof in
    record tagged { file = tagged.file ++ write value }

-- strings.EqualFold, for texts whose only letter beyond ASCII that folds to one of ASCII is the
-- long s: a byte pair in UTF-8.
unfoldable pub long_s : Bytes → Bytes
long_s (c ∷ d ∷ s) =
    let rest = long_s s in
    let same = long_s (d ∷ s) in if c == 0xC5 && d == 0xBF then b's' ∷ rest else c ∷ same
long_s s = s

abbrev pub lower : ℕ → ℕ
lower c = if leb b'A' c && leb c b'Z' then c + 32 else c

unfoldable pub equal_fold : Bytes → Bytes → Bool
unfolding long_s
equal_fold s t = str_eq (map lower (long_s s)) (map lower (long_s t))

-- isSelectEntry
unfoldable pub is_select_entry : Value → Bool
unfolding equal_fold
is_select_entry (array (cons name (cons index nil))) = equal_fold (str name) (codes "SELECT")
is_select_entry _ = false

-- `value.Array[1].Str`
abbrev pub second_text : Value → Bytes
second_text (array (cons name (cons index vs))) = str index
second_text _ = []

abbrev pub selected : ℤ → Option ℤ → ℤ
selected current_db none = current_db
selected current_db (some idx) = idx

-- How Aof.Read ends. `ran_out` has no counterpart.
pub data Ending : Type 0 where
  complete : Ending
  failed : Error → Ending
  panicked ran_out : Ending

abbrev pub stopped : Error → Ending
stopped eof = complete
stopped e = failed e

-- A call of `fn`, in front of those that follow it.
abbrev pub call : ℤ → Value → List (ℤ × Value) × Ending → List (ℤ × Value) × Ending
call db_index value (calls, ending) = ((db_index, value) ∷ calls, ending)

-- The loop of Aof.Read: the calls of `fn` in their order, and how the loop ends.
unfoldable pub read_loop : ℕ → Bytes → ℤ → List (ℤ × Value) × Ending
unfolding parse_value is_select_entry
read_loop zero s current_db = ([], ran_out)
read_loop (suc f) s current_db = elim (parse_value s) [
  | ok (value, rest) ↦
      let next = read_loop f rest (selected current_db (atoi (second_text value))) in
      let same = read_loop f rest current_db in
      if is_select_entry value then next else call current_db value same
  | err e ↦ ([], stopped e)
  | panic ↦ ([], panicked)
  | out_of_fuel ↦ ([], ran_out)
]

-- Aof.Read: every entry takes at least a byte.
unfoldable pub read_entries : Bytes → List (ℤ × Value) × Ending
unfolding read_loop
read_entries file = read_loop (length file + 1) file (pos 0)
