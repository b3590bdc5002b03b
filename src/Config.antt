-- ===== src/Config.antt =====
-- pkg/persistence/config.go: the settings of a server, from the lines of its file.
-- White space is that of unicode.IsSpace, in UTF-8.
pub mod Settings
use shoredb.Base.{
  ℕ, zero, suc, ◌+◌, ◌-◌, ◌*◌, ◌^◌, Bool, true, false, not, ◌&&◌, ◌||◌, Option, none, some, List,
  [], ◌∷◌, ◌++◌, Bytes, codes, str_eq, leb, ◌==◌, if◌then◌else◌,
}
use Prim.Native.Nat.{min}
use shoredb.Base.Int.{ℤ, pos, sub_ℕ}
use shoredb.Strconv.{is_digit}

pub record RdbSnapshot : Type 0 where
  pub secs : ℤ
  pub keys_changed : ℤ

-- Config, with `rdb_fn`, `aof_fn` and `aof_fsync` for the two file names and the flush's mode.
pub record Config : Type 0 where
  pub dir : Bytes
  pub rdb : List RdbSnapshot
  pub rdb_fn : Bytes
  pub aof_enabled : Bool
  pub aof_fn : Bytes
  pub aof_fsync : Bytes
  pub require_pass : Bytes

-- NewConfig
abbrev pub new_config : Config
new_config = record {
  dir = codes ".";
  rdb = [];
  rdb_fn = codes "dump.rdb";
  aof_enabled = false;
  aof_fn = codes "appendonly.aof";
  aof_fsync = codes "everysec";
  require_pass = [];
}

-- The length of the white space that a text starts with, as one character: 0 if it starts with none.
abbrev pub ascii_space : ℕ → Bool
ascii_space c = c == 32 || (leb 9 c && leb c 13)

abbrev pub wide_space : ℕ → ℕ → ℕ → Bool
wide_space a b c =
    (a == 0xE1 && (b == 0x9A && c == 0x80))
    || (a == 0xE2
        && ((b == 0x80 && (leb 0x80 c && leb c 0x8A || (c == 0xA8 || (c == 0xA9 || c == 0xAF))))
            || (b == 0x81 && c == 0x9F)))
    || (a == 0xE3 && (b == 0x80 && c == 0x80))

abbrev pub space_width : Bytes → ℕ
space_width [] = 0
space_width (a ∷ []) = if ascii_space a then 1 else 0
space_width (a ∷ b ∷ []) =
    if ascii_space a then 1 else if a == 0xC2 && (b == 0x85 || b == 0xA0) then 2 else 0
space_width (a ∷ b ∷ c ∷ s) =
    if ascii_space a
    then 1
    else if a == 0xC2 && (b == 0x85 || b == 0xA0)
    then 2
    else if wide_space a b c
    then 3
    else 0

-- The word in front of the words of the rest, if it is not empty.
abbrev pub with_word : Bytes → List Bytes → List Bytes
with_word [] words = words
with_word (c ∷ word) words = (c ∷ word) ∷ words

-- strings.Fields: `skip` bytes of white space are still to pass over, and `word` stands before.
unfoldable pub fields_loop : ℕ → Bytes → Bytes → List Bytes
fields_loop skip word [] = with_word word []
fields_loop (suc skip) word (c ∷ s) = fields_loop skip word s
fields_loop zero word (c ∷ s) =
    let width = space_width (c ∷ s) in
    let behind = fields_loop (width - 1) [] s in
    let longer = fields_loop zero (word ++ c ∷ []) s in
    if width == 0 then longer else with_word word behind

unfoldable pub fields : Bytes → List Bytes
unfolding fields_loop
fields s = fields_loop 0 [] s

abbrev pub lower : ℕ → ℕ
lower c = if leb b'A' c && leb c b'Z' then c + 32 else c

-- strings.ToLower: the letters of ASCII, and the two others (the dotted capital I and the Kelvin sign, in
-- UTF-8) whose small letter is in ASCII. Other letters are kept.
unfoldable pub to_lower : Bytes → Bytes
to_lower (a ∷ b ∷ c ∷ s) =
    let behind_three = to_lower s in
    let behind_two = to_lower (c ∷ s) in
    let behind = to_lower (b ∷ c ∷ s) in
    if a == 0xE2 && (b == 0x84 && c == 0xAA)
    then b'k' ∷ behind_three
    else if a == 0xC4 && b == 0xB0
    then b'i' ∷ behind_two
    else lower a ∷ behind
to_lower (a ∷ b ∷ []) = if a == 0xC4 && b == 0xB0 then b'i' ∷ [] else lower a ∷ lower b ∷ []
to_lower (a ∷ []) = lower a ∷ []
to_lower [] = []

abbrev pub starts_comment : Bytes → Bool
starts_comment [] = false
starts_comment (c ∷ s) = c == b'#'

-- The digits of a text, up to the one at which the number leaves 64 bits: `none` at another character.
unfoldable pub scan_64 : Bytes → ℕ → Option ℕ
scan_64 [] n = some n
scan_64 (c ∷ s) n =
    let next = n * 10 + (c - b'0') in
    let rest = scan_64 s next in
    if not (is_digit c) then none else if leb (2 ^ 64) next then some next else rest

-- `n, _ := strconv.Atoi(s)`: the error is dropped, and Atoi's number kept, which is 0 for a text that is
-- no number, and the nearest `int` for one that is out of range.
abbrev pub nearest : Bool → Option ℕ → ℤ
nearest negative none = pos 0
nearest false (some n) = pos (min n (2 ^ 63 - 1))
nearest true (some n) = sub_ℕ 0 (min n (2 ^ 63))

abbrev pub digits_64 : Bytes → Option ℕ
digits_64 [] = none
digits_64 (c ∷ s) = scan_64 (c ∷ s) 0

unfoldable pub atoi_or_zero : Bytes → ℤ
unfolding scan_64
atoi_or_zero [] = pos 0
atoi_or_zero (c ∷ s) =
    if c == b'-'
    then nearest true (digits_64 s)
    else if c == b'+'
    then nearest false (digits_64 s)
    else nearest false (digits_64 (c ∷ s))

-- The `switch` of parseLine, on the words behind the first.
abbrev pub save_rule : List Bytes → Config → Config
save_rule (secs ∷ keys ∷ words) config = record config {
  rdb = config.rdb ++ record { secs = atoi_or_zero secs; keys_changed = atoi_or_zero keys } ∷ [];
}
save_rule _ config = config

abbrev pub change : Bytes → Bytes → List Bytes → Config → Config
change name value words config =
    if str_eq name (codes "save")
    then save_rule (value ∷ words) config
    else if str_eq name (codes "dbfilename")
    then record config { rdb_fn = value }
    else if str_eq name (codes "appendfilename")
    then record config { aof_fn = value }
    else if str_eq name (codes "appendfsync")
    then record config { aof_fsync = value }
    else if str_eq name (codes "dir")
    then record config { dir = value }
    else if str_eq name (codes "appendonly")
    then record config { aof_enabled = str_eq value (codes "yes") }
    else if str_eq name (codes "requirepass")
    then record config { require_pass = value }
    else config

abbrev pub apply_words : List Bytes → Config → Config
apply_words (name ∷ value ∷ words) config =
    if starts_comment name then config else change (to_lower name) value words config
apply_words _ config = config

-- parseLine
unfoldable pub parse_line : Bytes → Config → Config
unfolding fields to_lower atoi_or_zero
parse_line line config = apply_words (fields line) config

unfoldable pub parse_lines : List Bytes → Config → Config
unfolding parse_line
parse_lines [] config = config
parse_lines (line ∷ lines) config = parse_lines lines (parse_line line config)

-- ReadConfig, on the lines that its scanner gives; `none` stands for a file that is not there.
unfoldable pub read_config : Option (List Bytes) → Config
unfolding parse_lines
read_config none = new_config
read_config (some lines) = parse_lines lines new_config
