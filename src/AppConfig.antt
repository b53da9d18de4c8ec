-- ===== src/AppConfig.antt =====
-- common/config/app_config.cpp and its header. A file is `none` where it cannot be opened, and else
-- its text; every other field of a configuration is read from the flat map of its lines.
pub mod Lines
pub mod Loaders
use kd.Base.{
  ℕ, suc, ◌-◌, ◌%◌, ◌^◌, Bool, true, false, ◌&&◌, ◌||◌, Option, none, some, List, [], ◌∷◌, Text,
  lit, is_empty, str_eq, starts_with, Dict, lookup, insert, if◌then◌else◌, ◌==◌, ℤ, pos, negsuc,
  Result, ok, ◌>>=◌, stoi, take, drop, length, find_char,
}
use kd.Log.{to_lower_ascii}

abbrev pub FlatConfig : Type 0
FlatConfig = Dict Text

abbrev pub is_blank : ℕ → Bool
is_blank ch = ch == b' ' || ch == 9 || ch == 10 || ch == 13

-- The two loops of Trim: `value.erase(value.begin())` and `value.pop_back()` while there is a space.
unfoldable pub trim_front : Text → Text
trim_front [] = []
trim_front (ch ∷ value) = if is_blank ch then trim_front value else ch ∷ value

unfoldable pub trim_back : Text → Text
trim_back [] = []
trim_back (ch ∷ value) =
    let rest = trim_back value in if is_blank ch && is_empty rest then [] else ch ∷ rest

unfoldable pub trim : Text → Text
unfolding trim_front trim_back
trim value = trim_back (trim_front value)

-- std::getline until it fails: the parts of the text between its ends of line.
abbrev cons_line : ℕ → List Text → List Text
cons_line ch [] = (ch ∷ []) ∷ []
cons_line ch (line ∷ later) = (ch ∷ line) ∷ later

unfoldable pub get_lines : Text → List Text
get_lines [] = []
get_lines (ch ∷ text) =
    let later = get_lines text in if ch == 10 then [] ∷ later else cons_line ch later

-- `value.front() == mark && value.back() == mark` of a text with a character
abbrev ends_with : ℕ → Text → Bool
ends_with mark [] = false
ends_with mark (ch ∷ value) = if is_empty value then ch == mark else ends_with mark value

abbrev is_quoted_by : ℕ → Text → Bool
is_quoted_by mark [] = false
is_quoted_by mark (ch ∷ value) = ch == mark && ends_with mark (ch ∷ value)

-- `value.substr(1, value.size() - 2)` of a quoted value; of a lone quotation mark, nothing is left.
unfoldable pub unquote : Text → Text
unquote value =
    if is_quoted_by b'"' value || is_quoted_by b'\'' value
    then take (length value - 2) (drop 1 value)
    else value

abbrev pub load_entry : (line : Text) → Option ℕ → FlatConfig → FlatConfig
load_entry line none cfg = cfg
load_entry line (some at) cfg =
    insert (trim (take at line)) (unquote (trim (drop (suc at) line))) cfg

-- The body of the loop on the lines, from a trimmed line on.
unfoldable pub load_line : (line : Text) → FlatConfig → FlatConfig
unfolding trim unquote
load_line line cfg =
    if is_empty line || starts_with line (lit "#")
    then cfg
    else load_entry line (find_char b':' line) cfg

unfoldable pub load_lines : List Text → FlatConfig → FlatConfig
unfolding load_line trim
load_lines [] cfg = cfg
load_lines (line ∷ lines) cfg = load_lines lines (load_line (trim line) cfg)

unfoldable pub load_flat_config : (file : Option Text) → FlatConfig
unfolding load_lines get_lines
load_flat_config none = []
load_flat_config (some text) = load_lines (get_lines text) []

-- GetOr at std::string, int, uint16_t and bool
abbrev or_else : Option Text → (fallback : Text) → Text
or_else none fallback = fallback
or_else (some value) fallback = value

unfoldable pub get_text_or : FlatConfig → (key fallback : Text) → Text
get_text_or cfg key fallback = or_else (lookup key cfg) fallback

abbrev int_or_else : Option Text → (fallback : ℤ) → Result ℤ
int_or_else none fallback = ok fallback
int_or_else (some value) fallback = stoi value

unfoldable pub get_int_or : FlatConfig → (key : Text) (fallback : ℤ) → Result ℤ
get_int_or cfg key fallback = int_or_else (lookup key cfg) fallback

-- `static_cast<uint16_t>`
abbrev to_uint16 : ℤ → ℕ
to_uint16 (pos n) = n % 2 ^ 16
to_uint16 (negsuc n) = 2 ^ 16 - 1 - n % 2 ^ 16

abbrev uint16_or_else : Option Text → (fallback : ℕ) → Result ℕ
uint16_or_else none fallback = ok fallback
uint16_or_else (some value) fallback = stoi value >>= λ z. ok (to_uint16 z)

unfoldable pub get_uint16_or : FlatConfig → (key : Text) (fallback : ℕ) → Result ℕ
get_uint16_or cfg key fallback = uint16_or_else (lookup key cfg) fallback

abbrev bool_of : (value : Text) (fallback : Bool) → Bool
bool_of value fallback =
    if str_eq value (lit "1")
      || str_eq value (lit "true")
      || str_eq value (lit "yes")
      || str_eq value (lit "on")
    then true
    else if str_eq value (lit "0")
        || str_eq value (lit "false")
        || str_eq value (lit "no")
        || str_eq value (lit "off")
    then false
    else fallback

abbrev bool_or_else : Option Text → (fallback : Bool) → Bool
bool_or_else none fallback = fallback
bool_or_else (some value) fallback = bool_of (to_lower_ascii value) fallback

unfoldable pub get_bool_or : FlatConfig → (key : Text) (fallback : Bool) → Bool
get_bool_or cfg key fallback = bool_or_else (lookup key cfg) fallback
