-- ===== src/AppConfig/Lines.antt =====
-- A file of `key: value` lines, read by LoadFlatConfig of common/config/app_config.cpp.
use kd.Base.{
  ◌≤◌, ◌≡◌, ◌≢◌, refl, ap, false, none, some, List, [], ◌∷◌, ◌++◌, Text, lit, is_empty, starts_with,
  lookup, insert, ◌==◌, arith, length, lookup-insert, last_value, drop-append_past, take-append,
  All, All-append, Bool-cases, inl, inr,
}
use kd.Auth.Token.Split.{Lacks, find_char-append}
use kd.AppConfig.{
  FlatConfig, is_blank, trim_front, trim_back, trim, get_lines, unquote, load_entry, load_line,
  load_lines, load_flat_config,
}

-- A text without white space at its ends.
abbrev IsTight : Text → Type 0
IsTight s = (is_empty s ≡ false) × (trim_front s ≡ s) × (trim_back s ≡ s)

-- Texts that can stand as the key and as the value of a line, without quotation marks.
pub record IsEntry (entry : Text × Text) : Type 0 where
  pub key_tight : IsTight entry.0
  pub no_comment : starts_with entry.0 (lit "#") ≡ false
  pub no_colon : Lacks b':' entry.0
  pub key_in_line : Lacks 10 entry.0
  pub value_tight : IsTight entry.1
  pub bare : unquote entry.1 ≡ entry.1
  pub value_in_line : Lacks 10 entry.1

abbrev line_of : Text × Text → Text
line_of (key, value) = key ++ b':' ∷ (b' ' ∷ value)

abbrev pub write_entries : List (Text × Text) → Text
write_entries [] = []
write_entries (entry ∷ entries) = line_of entry ++ 10 ∷ write_entries entries

get_lines-append :
    (line text : Text) → Lacks 10 line → get_lines (line ++ 10 ∷ text) ≡ line ∷ get_lines text
unfolding get_lines
get_lines-append [] text lacks = refl
get_lines-append (c ∷ line) text (n, lacks) =
    let e : (c == 10) ≡ false = ground arith in rw e (rw (get_lines-append line text lacks) refl)

length-trim_front : (s : Text) → length (trim_front s) ≤ length s
unfolding trim_front
length-trim_front [] = omega arith
length-trim_front (c ∷ s) = ground (arith, length-trim_front s)

trim_front-append :
    (s t : Text) → is_empty s ≡ false → trim_front s ≡ s → trim_front (s ++ t) ≡ s ++ t
unfolding trim_front
trim_front-append [] t filled tight = cc
trim_front-append (c ∷ s) t filled tight = elim (Bool-cases (is_blank c)) [
  | inl blank ↦
      let shorter : trim_front s ≡ c ∷ s = rw blank at tight in
      absurd (omega (arith, length-trim_front s, ap length shorter))
  | inr dark ↦ rw dark refl
]

is_empty-append : (s t : Text) → is_empty t ≡ false → is_empty (s ++ t) ≡ false
is_empty-append [] t filled = filled
is_empty-append (c ∷ s) t filled = refl

trim_back-append : (s t : Text) → is_empty t ≡ false → trim_back t ≡ t → trim_back (s ++ t) ≡ s ++ t
unfolding trim_back
trim_back-append [] t filled tight = tight
trim_back-append (c ∷ s) t filled tight =
    let filled' : is_empty (s ++ t) ≡ false = is_empty-append s t filled in
    rw (trim_back-append s t filled tight) (rw filled' (ground arith))

trim-Tight : (s : Text) → IsTight s → trim s ≡ s
unfolding trim
trim-Tight s (filled, front, back) = rw front back

trim-indented : (s : Text) → IsTight s → trim (b' ' ∷ s) ≡ s
unfolding trim trim_front
trim-indented s (filled, front, back) = rw front back

no_comment-append :
    (s t : Text)
    → is_empty s ≡ false
    → starts_with s (lit "#") ≡ false
    → starts_with (s ++ t) (lit "#") ≡ false
unfolding starts_with lit
no_comment-append [] t filled h = cc
no_comment-append (c ∷ s) t filled h = ground arith

line_of-IsTight : (key value : Text) → IsTight key → IsTight value → IsTight (line_of (key, value))
line_of-IsTight key value (filled, front, back) (filled', front', back') = (
  is_empty-append key (b':' ∷ (b' ' ∷ value)) refl,
  trim_front-append key (b':' ∷ (b' ' ∷ value)) filled front,
  trim_back-append key (b':' ∷ (b' ' ∷ value)) refl
      (trim_back-append (b':' ∷ (b' ' ∷ [])) value filled' back'),
)

load_entry_lem :
    (key value : Text) (cfg : FlatConfig)
    → IsEntry (key, value)
    → load_entry (line_of (key, value)) (some (length key)) cfg ≡ insert key value cfg
load_entry_lem key value cfg entry = rw (take-append key (b':' ∷ (b' ' ∷ value))) (
    rw (drop-append_past key (b' ' ∷ value) b':') (
      rw (trim-Tight key entry.key_tight)
        (rw (trim-indented value entry.value_tight) (rw entry.bare refl))))

load_line_lem :
    (key value : Text) (cfg : FlatConfig)
    → IsEntry (key, value)
    → load_line (line_of (key, value)) cfg ≡ insert key value cfg
unfolding load_line
load_line_lem key value cfg entry = rw (is_empty-append key (b':' ∷ (b' ' ∷ value)) refl) (
    rw (no_comment-append key (b':' ∷ (b' ' ∷ value)) entry.key_tight.0 entry.no_comment) (
      rw (find_char-append b':' key (b' ' ∷ value) entry.no_colon)
        (load_entry_lem key value cfg entry)))

line_of-InLine : (key value : Text) → IsEntry (key, value) → Lacks 10 (line_of (key, value))
line_of-InLine key value entry =
    All-append (λ c. c ≢ 10) key (b':' ∷ (b' ' ∷ value)) entry.key_in_line
      ((ground arith), ((ground arith), entry.value_in_line))

load_lines_lem :
    (entries : List (Text × Text)) (key : Text) (cfg : FlatConfig)
    → All IsEntry entries
    → lookup key (load_lines (get_lines (write_entries entries)) cfg)
      ≡ last_value key entries (lookup key cfg)
unfolding load_lines get_lines
load_lines_lem [] key cfg valid = refl
load_lines_lem ((k, v) ∷ entries) key cfg (entry, valid) =
    rw (get_lines-append (line_of (k, v)) (write_entries entries) (line_of-InLine k v entry)) (
      rw
        (
          load_lines,
          trim-Tight (line_of (k, v)) (line_of-IsTight k v entry.key_tight entry.value_tight),
        )
        (rw (load_line_lem k v cfg entry) (
          rw (load_lines_lem entries key (insert k v cfg) valid)
            (rw (lookup-insert k key v cfg) refl))))

-- A file of lines `key: value` is loaded to the map in which every key has the value of its last
-- line, if the keys and values are not empty, have no white space at their ends and no end of line
-- in them, and the keys have no colon and no `#` in front, the values no quotation marks around.
pub last_line_wins :
    (entries : List (Text × Text)) (key : Text)
    → All IsEntry entries
    → lookup key (load_flat_config (some (write_entries entries))) ≡ last_value key entries none
unfolding load_flat_config lookup
last_line_wins entries key valid = load_lines_lem entries key [] valid
