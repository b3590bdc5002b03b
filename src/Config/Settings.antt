-- ===== src/Config/Settings.antt =====
-- The lines of the settings' file, setting by setting: parseLine of pkg/persistence/config.go.
use shoredb.Base.{
  ℕ, ◌≤◌, ◌≡◌, refl, sym, ap, ◌∙◌, Bool, true, ◌&&◌, [], ◌∷◌, ◌++◌, append-nil, append_assoc, arith,
  Bytes, codes, str_eq, leb,
}
use shoredb.Config.{
  Config, space_width, with_word, fields_loop, fields, to_lower, apply_words, parse_line,
  atoi_or_zero,
}

-- The settings that are one word: all but `save`.
pub data Setting : Type 0 where
  dbfilename appendfilename appendfsync dir appendonly requirepass : Setting

abbrev pub setting_name : Setting → Bytes
setting_name dbfilename = codes "dbfilename"
setting_name appendfilename = codes "appendfilename"
setting_name appendfsync = codes "appendfsync"
setting_name dir = codes "dir"
setting_name appendonly = codes "appendonly"
setting_name requirepass = codes "requirepass"

abbrev pub put_setting : Setting → Bytes → Config → Config
put_setting dbfilename value config = record config { rdb_fn = value }
put_setting appendfilename value config = record config { aof_fn = value }
put_setting appendfsync value config = record config { aof_fsync = value }
put_setting dir value config = record config { dir = value }
put_setting appendonly value config = record config { aof_enabled = str_eq value (codes "yes") }
put_setting requirepass value config = record config { require_pass = value }

-- A text of visible characters of ASCII.
abbrev pub IsWord : Bytes → Type 0
IsWord [] = Unit
IsWord (c ∷ s) = ((33 ≤ c) × (c ≤ 126)) × IsWord s

word_width : (c : ℕ) (s : Bytes) → 33 ≤ c → c ≤ 126 → space_width (c ∷ s) ≡ 0
word_width c [] h g = ground arith
word_width c (d ∷ []) h g = ground arith
word_width c (d ∷ e ∷ s) h g = ground arith

blank_width : (s : Bytes) → space_width (32 ∷ s) ≡ 1
blank_width [] = refl
blank_width (d ∷ []) = refl
blank_width (d ∷ e ∷ s) = refl

last_word : (word s : Bytes) → IsWord s → fields_loop 0 word s ≡ with_word (word ++ s) []
unfolding fields_loop
last_word word [] h = ap (λ w. with_word w []) (sym (append-nil word))
last_word word (c ∷ s) ((low, high), more) =
    rw (word_width c s low high)
      (last_word (word ++ c ∷ []) s more ∙ ap (λ w. with_word w []) (append_assoc word (c ∷ []) s))

first_word :
    (word s rest : Bytes)
    → IsWord s
    → fields_loop 0 word (s ++ 32 ∷ rest) ≡ with_word (word ++ s) (fields_loop 0 [] rest)
unfolding fields_loop
first_word word [] rest h =
    rw (blank_width rest) (ap (λ w. with_word w (fields_loop 0 [] rest)) (sym (append-nil word)))
first_word word (c ∷ s) rest ((low, high), more) = rw (word_width c (s ++ 32 ∷ rest) low high) (
    first_word (word ++ c ∷ []) s rest more
    ∙ ap (λ w. with_word w (fields_loop 0 [] rest)) (append_assoc word (c ∷ []) s))

abbrev pub is_word : Bytes → Bool
is_word [] = true
is_word (c ∷ s) = leb 33 c && leb c 126 && is_word s

pub is_word-IsWord : (s : Bytes) → is_word s ≡ true → IsWord s
is_word-IsWord [] h = tt
is_word-IsWord (c ∷ s) h =
    ((ground (arith, h), ground (arith, h)), is_word-IsWord s (ground (arith, h)))

name-IsWord : (setting : Setting) → IsWord (setting_name setting)
name-IsWord dbfilename = is_word-IsWord (codes "dbfilename") refl
name-IsWord appendfilename = is_word-IsWord (codes "appendfilename") refl
name-IsWord appendfsync = is_word-IsWord (codes "appendfsync") refl
name-IsWord dir = is_word-IsWord (codes "dir") refl
name-IsWord appendonly = is_word-IsWord (codes "appendonly") refl
name-IsWord requirepass = is_word-IsWord (codes "requirepass") refl

apply_words-setting :
    (setting : Setting) (c : ℕ) (value : Bytes) (config : Config)
    → apply_words (with_word (setting_name setting) ((c ∷ value) ∷ [])) config
      ≡ put_setting setting (c ∷ value) config
unfolding to_lower str_eq
apply_words-setting dbfilename c value config = refl
apply_words-setting appendfilename c value config = refl
apply_words-setting appendfsync c value config = refl
apply_words-setting dir c value config = refl
apply_words-setting appendonly c value config = refl
apply_words-setting requirepass c value config = refl

abbrev pub add_rule : Bytes → Bytes → Config → Config
add_rule secs changes config = record config {
  rdb = config.rdb ++ record { secs = atoi_or_zero secs; keys_changed = atoi_or_zero changes } ∷ [];
}

save_line :
    (c : ℕ) (secs : Bytes) (d : ℕ) (changes : Bytes) (config : Config)
    → IsWord (c ∷ secs)
    → IsWord (d ∷ changes)
    → parse_line (codes "save" ++ 32 ∷ ((c ∷ secs) ++ 32 ∷ (d ∷ changes))) config
      ≡ add_rule (c ∷ secs) (d ∷ changes) config
unfolding parse_line fields to_lower str_eq
save_line c secs d changes config h g =
    rw
      (
        first_word [] (codes "save") ((c ∷ secs) ++ 32 ∷ (d ∷ changes))
            (is_word-IsWord (codes "save") refl),
        first_word [] (c ∷ secs) (d ∷ changes) h,
        last_word [] (d ∷ changes) g,
      )
      refl

-- With words of visible ASCII, one blank between them: a line of `dbfilename`, `appendfilename`,
-- `appendfsync`, `dir` or `requirepass` and a word sets that setting to the word; a line of `appendonly` and
-- a word turns the log on if the word is `yes`, and off if not; each leaves the other settings. A line of
-- `save` and two words adds one rule behind those that were there, with the two words read as Atoi reads a
-- number, and leaves the other settings.
pub parse_line-setting :
    (setting : Setting) (c : ℕ) (value : Bytes) (d : ℕ) (changes : Bytes) (config : Config)
    → IsWord (c ∷ value)
    → IsWord (d ∷ changes)
    → (parse_line (setting_name setting ++ 32 ∷ (c ∷ value)) config
        ≡ put_setting setting (c ∷ value) config)
      × (parse_line (codes "save" ++ 32 ∷ ((c ∷ value) ++ 32 ∷ (d ∷ changes))) config
          ≡ add_rule (c ∷ value) (d ∷ changes) config)
unfolding parse_line fields
parse_line-setting setting c value d changes config h g = (
  rw
      (
        first_word [] (setting_name setting) (c ∷ value) (name-IsWord setting),
        last_word [] (c ∷ value) h,
      )
      (apply_words-setting setting c value config),
  save_line c value d changes config h g,
)
