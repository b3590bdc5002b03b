-- ===== src/Tests/Protocol.antt =====
-- Runs of the decimals, of pkg/resp and of the log.
use shoredb.Base.{ℕ, ◌≡◌, refl, ◌≢◌, List, [], ◌∷◌, ◌++◌, arith, Bytes, codes}
use shoredb.Base.Int.{pos, negsuc}
use shoredb.Strconv.{atoi}
use shoredb.Resp.{
  Value, bulk_string, array, integer, simple_string, null, of_list, write, parse, parse_value,
  read_line, read_bulk_string, read_int,
}
use shoredb.Resp.Outcome.{ok}
use shoredb.Resp.RoundTrip.{IsWire, parse_value-write}
use shoredb.Resp.Sound.{Delivers, ReadOf, parse_value_sound, parse_value-write-parse_value}
use shoredb.Aof.{new_aof, is_select_entry, read_entries, complete, ran_out}
use shoredb.Aof.RoundTrip.{
  write_entries, AreEntries, calls_of, read_entries-write_entries, read_entries-ends,
}

-- SET with a key of a line break, an answer and nulls inside an array.
abbrev set_command : Value
set_command =
    array (of_list (bulk_string (codes "SET") ∷ bulk_string (codes "a\r\nb") ∷ bulk_string [] ∷ []))

abbrev mixed : Value
mixed = array (of_list (simple_string (codes "OK") ∷ integer (negsuc 4) ∷ null ∷ set_command ∷ []))

parse_value-write_example : parse_value (write mixed ++ codes "+x") ≡ ok (mixed, codes "+x")
parse_value-write_example = parse_value-write mixed (codes "+x") (
  omega arith,
  (
    (refl, (refl, tt)),
    (omega arith, (tt, ((omega arith, (omega arith, (omega arith, (omega arith, tt)))), tt))),
  ),
)

parse_value_sound_example :
    Delivers (ReadOf (codes "*1\r\n:+7\r\n")) (parse_value (codes "*1\r\n:+7\r\n"))
parse_value_sound_example = parse_value_sound (codes "*1\r\n:+7\r\n")

abbrev spelled : Bytes
spelled = codes "*2\r\n$+3\r\nGETxy\n:+07\r\n-"

abbrev spelled_value : Value
spelled_value = array (of_list (bulk_string (codes "GET") ∷ integer (pos 7) ∷ []))

spelled_runs : parse_value spelled ≡ ok (spelled_value, codes "-")
unfolding parse_value parse atoi read_line read_bulk_string read_int
spelled_runs = refl

parse_value-write-parse_value_example :
    parse_value (write spelled_value ++ codes "!") ≡ ok (spelled_value, codes "!")
parse_value-write-parse_value_example =
    parse_value-write-parse_value spelled spelled_value (codes "-") (codes "!") spelled_runs

abbrev entries : List (ℕ × Value)
entries = (0, set_command) ∷ (3, set_command) ∷ (3, set_command) ∷ (0, set_command) ∷ []

entries-AreEntries : AreEntries entries
unfolding is_select_entry
entries-AreEntries = (
  (omega arith, set_wire, refl),
  (
    (omega arith, set_wire, refl),
    ((omega arith, set_wire, refl), ((omega arith, set_wire, refl), tt)),
  ),
)
  where
    set_wire : IsWire set_command
    set_wire = (omega arith, (omega arith, (omega arith, (omega arith, tt))))

read_entries-write_entries_example :
    read_entries (write_entries entries new_aof).file ≡ (calls_of entries, complete)
read_entries-write_entries_example = read_entries-write_entries entries entries-AreEntries

read_entries-ends_example : (read_entries (codes "*1\r\n$4\r\nPING\r\n*1\r\n$9")).1 ≢ ran_out
read_entries-ends_example = read_entries-ends (codes "*1\r\n$4\r\nPING\r\n*1\r\n$9")
