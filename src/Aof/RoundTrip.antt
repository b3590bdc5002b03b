-- ===== src/Aof/RoundTrip.antt =====
-- The log of pkg/persistence/aof.go, written and read: SELECT entries, the writer and the loop of a
-- start.
use shoredb.Base.{
  ℕ, zero, suc, ◌+◌, ◌/◌, ◌%◌, ◌^◌, ◌≤◌, ◌<◌, ◌≡◌, refl, sym, ap, ◌∙◌, ◌≢◌, ◌⊎◌, inl, inr, Bool,
  true, false, List, [], ◌∷◌, ◌++◌, append-nil, append_assoc, arith, Bytes, str_eq, if◌then◌else◌,
  Bool-cases, length, length-append,
}
use shoredb.Base.Int.{ℤ, pos, negsuc, eq_ℤ, eq_ℤ_iff, IsInt64}
use shoredb.Strconv.{atoi, itoa, emit}
use shoredb.Strconv.RoundTrip.{atoi-itoa}
use shoredb.Resp.{Value, write, parse, parse_value}
use shoredb.Resp.Outcome.{
  Error, eof, unexpected_eof, too_short, bad_integer, bad_bulk_length, bad_array_length,
  unknown_type, Result, ok, err, panic, out_of_fuel,
}
use shoredb.Resp.RoundTrip.{IsWire, need-length-write, parse_value-write}
use shoredb.Resp.Sound.{parse_value-ne-out_of_fuel, parse_value-shorter}
use shoredb.Aof.{
  Aof, new_aof, write_entry, select_entry, is_select_entry, second_text, selected, Ending, complete,
  ran_out, stopped, call, read_loop, read_entries,
}

-- The entries written one after another, each with its database.
abbrev pub write_entries : List (ℕ × Value) → Aof → Aof
write_entries [] aof = aof
write_entries ((db_index, value) ∷ entries) aof =
    write_entries entries (write_entry (pos db_index) value aof)

-- What a command's entry is: a value that the protocol can carry, no SELECT, for a database whose number is an `int`.
abbrev pub AreEntries : List (ℕ × Value) → Type 0
AreEntries [] = Unit
AreEntries ((db_index, value) ∷ entries) =
    (IsInt64 (pos db_index) × IsWire value × (is_select_entry value ≡ false)) × AreEntries entries

abbrev pub calls_of : List (ℕ × Value) → List (ℤ × Value)
calls_of [] = []
calls_of ((db_index, value) ∷ entries) = (pos db_index, value) ∷ calls_of entries

-- The bytes that the entries add to the file after an entry of the database `last`.
log_of : ℤ → List (ℕ × Value) → Bytes
log_of last [] = []
log_of last ((db_index, value) ∷ entries) =
    (if eq_ℤ (pos db_index) last then [] else write (select_entry (pos db_index)))
    ++ (write value ++ log_of (pos db_index) entries)

last_db-write_entry : (z : ℤ) (value : Value) (aof : Aof) → (write_entry z value aof).last_db ≡ z
unfolding write_entry
last_db-write_entry z value aof = elim (Bool-cases (eq_ℤ z aof.last_db)) [
  | inl e ↦ rw e (sym ((eq_ℤ_iff z aof.last_db).0 e))
  | inr e ↦ rw e refl
]

file-write_entry :
    (z : ℤ) (value : Value) (aof : Aof) (rest : Bytes)
    → (write_entry z value aof).file ++ rest
      ≡ aof.file
        ++ ((if eq_ℤ z aof.last_db then [] else write (select_entry z)) ++ (write value ++ rest))
unfolding write_entry
file-write_entry z value aof rest = elim (Bool-cases (eq_ℤ z aof.last_db)) [
  | inl e ↦ rw e (append_assoc aof.file (write value) rest)
  | inr e ↦ rw e (
      append_assoc (aof.file ++ write (select_entry z)) (write value) rest
      ∙ append_assoc aof.file (write (select_entry z)) (write value ++ rest))
]

file-write_entries :
    (entries : List (ℕ × Value)) (aof : Aof)
    → (write_entries entries aof).file ≡ aof.file ++ log_of aof.last_db entries
unfolding log_of
file-write_entries [] aof = sym (append-nil aof.file)
file-write_entries ((db_index, value) ∷ entries) aof =
    file-write_entries entries (write_entry (pos db_index) value aof)
    ∙ ap (λ z. (write_entry (pos db_index) value aof).file ++ log_of z entries)
        (last_db-write_entry (pos db_index) value aof)
    ∙ file-write_entry (pos db_index) value aof (log_of (pos db_index) entries)

-- One step of the loop on a value that the input starts with.
step :
    (f : ℕ) (value : Value) (rest : Bytes) (current : ℤ)
    → IsWire value
    → read_loop (suc f) (write value ++ rest) current ≡ (
        if is_select_entry value
        then read_loop f rest (selected current (atoi (second_text value)))
        else call current value (read_loop f rest current))
unfolding read_loop
step f value rest current w = rw (read_loop, parse_value-write value rest w) refl

length-emit : (f n : ℕ) (out : Bytes) → length (emit f n out) ≤ f + length out
unfolding emit
length-emit zero n out = omega arith
length-emit (suc f) n out = ground (arith, length-emit f (n / 10) ((b'0' + n % 10) ∷ out))

length-itoa : (n : ℕ) → n < 2 ^ 63 → length (itoa (pos n)) < 2 ^ 63
unfolding itoa
length-itoa n h = ground (arith, length-emit n n [])

select-IsWire : (n : ℕ) → n < 2 ^ 63 → IsWire (select_entry (pos n))
select-IsWire n h = (omega arith, (omega arith, (length-itoa n h, tt)))

is_select_entry-select : (z : ℤ) → is_select_entry (select_entry z) ≡ true
unfolding is_select_entry str_eq
is_select_entry-select z = refl

write_pos : (v : Value) → 1 ≤ length (write v)
write_pos v = omega (arith, need-length-write v)

-- An entry's own value, once the loop is at its database.
read_loop-entry :
    (f db_index : ℕ) (value : Value) (entries : List (ℕ × Value))
    → IsWire value
    → is_select_entry value ≡ false
    → ((g : ℕ)
        → length (log_of (pos db_index) entries) < g
        → read_loop g (log_of (pos db_index) entries) (pos db_index) ≡ (calls_of entries, complete))
    → length (write value ++ log_of (pos db_index) entries) < f
    → read_loop f (write value ++ log_of (pos db_index) entries) (pos db_index)
      ≡ ((pos db_index, value) ∷ calls_of entries, complete)
read_loop-entry zero db_index value entries wire plain next fuel = absurd (omega arith)
read_loop-entry (suc f) db_index value entries wire plain next fuel =
    let log = log_of (pos db_index) entries in
    step f value log (pos db_index) wire
    ∙ rw plain (
        ap (call (pos db_index) value)
          (next f (omega (arith, write_pos value, length-append (write value) log))))

at_last :
    (z last current : ℤ) (n : ℕ)
    → z ≡ pos n
    → eq_ℤ z last ≡ true
    → (last ≡ current) ⊎ (last ≡ negsuc 0)
    → current ≡ z
at_last z last current n p e (inl same) = sym ((eq_ℤ_iff z last).0 e ∙ same)
at_last z last current n p e (inr fresh) =
    absurd (ground (arith, sym p ∙ (eq_ℤ_iff z last).0 e ∙ fresh))

read_loop-log :
    (f : ℕ) (entries : List (ℕ × Value)) (last current : ℤ)
    → AreEntries entries
    → (last ≡ current) ⊎ (last ≡ negsuc 0)
    → length (log_of last entries) < f
    → read_loop f (log_of last entries) current ≡ (calls_of entries, complete)
unfolding log_of
read_loop-log zero entries last current w h fuel = absurd (omega arith)
read_loop-log (suc f) [] last current w h fuel = unfold read_loop parse_value parse in refl
read_loop-log (suc f) ((db_index, value) ∷ entries) last current ((fits, wire, plain), rest) h
      fuel =
    let z = pos db_index in
    let tail = write value ++ log_of z entries in
    let select = write (select_entry z) in
    let next = λ (g : ℕ) (enough : length (log_of z entries) < g).
      read_loop-log g entries z z rest (inl refl) enough in
    elim (Bool-cases (eq_ℤ z last)) [
      | inl e ↦
          rw (e, at_last z last current db_index refl e h)
            (read_loop-entry (suc f) db_index value entries wire plain next (rw e at fuel))
      | inr e ↦ rw e (
          step f (select_entry z) tail current (select-IsWire db_index fits)
          ∙ rw (is_select_entry-select z, atoi-itoa z fits)
              (read_loop-entry f db_index value entries wire plain next (
                omega
                  (arith, length-append select tail, write_pos (select_entry z), (rw e at fuel)))))
    ]

-- Reading the log gives the entries that were written, in their order and each with its database, and
-- comes to the log's end: for any sequence of commands (no SELECT among them) that the protocol can
-- carry, and databases numbered within `int`, written to an empty log.
pub read_entries-write_entries :
    (entries : List (ℕ × Value))
    → AreEntries entries
    → read_entries (write_entries entries new_aof).file ≡ (calls_of entries, complete)
unfolding read_entries
read_entries-write_entries entries w = rw (file-write_entries entries new_aof) (
    read_loop-log (length (log_of (negsuc 0) entries) + 1) entries (negsuc 0) (pos 0) w (inr refl)
      (omega arith))

ending-call : (z : ℤ) (value : Value) (r : List (ℤ × Value) × Ending) → (call z value r).1 ≡ r.1
ending-call z value (calls, ending) = refl

pick_ending :
    (b : Bool) (x y : List (ℤ × Value) × Ending)
    → x.1 ≢ ran_out
    → y.1 ≢ ran_out
    → (if b then x else y).1 ≢ ran_out
pick_ending true x y hx hy = hx
pick_ending false x y hx hy = hy

stopped-ne-ran_out : (e : Error) → stopped e ≢ ran_out
stopped-ne-ran_out eof h = cc
stopped-ne-ran_out unexpected_eof h = cc
stopped-ne-ran_out too_short h = cc
stopped-ne-ran_out bad_integer h = cc
stopped-ne-ran_out bad_bulk_length h = cc
stopped-ne-ran_out bad_array_length h = cc
stopped-ne-ran_out unknown_type h = cc

-- One round of the loop, by what the parser gives.
round-ends :
    (f : ℕ) (s : Bytes) (current : ℤ) (r : Result (Value × Bytes))
    → parse_value s ≡ r
    → length s < suc f
    → ((rest : Bytes) (z : ℤ) → length rest < f → (read_loop f rest z).1 ≢ ran_out)
    → (read_loop (suc f) s current).1 ≢ ran_out
unfolding read_loop
round-ends f s current (ok (value, rest)) e h ends =
    let shorter : length rest < f = omega (arith, parse_value-shorter s value rest e) in
    let z = selected current (atoi (second_text value)) in
    let same = read_loop f rest current in
    rw (read_loop, e)
      (pick_ending (is_select_entry value) (read_loop f rest z) (call current value same)
        (ends rest z shorter)
        (λ out. ends rest current shorter (sym (ending-call current value same) ∙ out)))
round-ends f s current (err e) p h ends = rw (read_loop, p) (stopped-ne-ran_out e)
round-ends f s current panic p h ends = rw (read_loop, p) (λ x. cc)
round-ends f s current out_of_fuel p h ends = absurd (parse_value-ne-out_of_fuel s p)

read_loop-ends :
    (f : ℕ) (s : Bytes) (current : ℤ) → length s < f → (read_loop f s current).1 ≢ ran_out
read_loop-ends zero s current h = absurd (omega arith)
read_loop-ends (suc f) s current h =
    round-ends f s current (parse_value s) refl h
      (λ rest z shorter. read_loop-ends f rest z shorter)

-- Reading a log always comes to an end of its own, whatever the file holds: the fuel is enough.
pub read_entries-ends : (file : Bytes) → (read_entries file).1 ≢ ran_out
unfolding read_entries
read_entries-ends file = read_loop-ends (length file + 1) file (pos 0) (omega arith)
