-- ===== src/Storage/Mysql.antt =====
-- infrastructure/storage/mysql/mysql_connection_pool.cpp: the state that the pools of one database
-- share, and the methods of ConnectionPoolImpl, each under the state's mutex. `Execute` and `Query`
-- keep no state. A table is traversed in order of insertion, where C++ leaves the order open.
pub mod Keyed
use kd.Base.{
  ℕ, lit, show, Bool, true, false, ◌&&◌, Option, none, some, List, [], ◌∷◌, ◌++◌, Text, str_eq,
  is_empty, Dict, lookup, insert, if◌then◌else◌, keep,
}

abbrev pub QueryRow : Type 0
QueryRow = Dict Text

abbrev pub Table : Type 0
Table = Dict QueryRow

-- `tables`, by name
abbrev pub Mysql : Type 0
Mysql = Dict Table

-- SharedStateFor: the address of a state
unfoldable pub state_key : (host : Text) → (port : ℕ) → (db user : Text) → Text
state_key host port db user =
    host ++ (lit ":" ++ (show port ++ (lit "/" ++ (db ++ (lit "/" ++ user)))))

abbrev field_or_empty : Option Text → Text
field_or_empty none = []
field_or_empty (some v) = v

-- The loop of BuildCompositeKey
unfoldable pub composite_loop : QueryRow → (result : Text) → List Text → Text
composite_loop row result [] = result
composite_loop row result (field ∷ fields) =
    let separated : Text = if is_empty result then result else result ++ b'|' ∷ [] in
    composite_loop row (separated ++ field_or_empty (lookup field row)) fields

unfoldable pub build_composite_key : QueryRow → List Text → Text
unfolding composite_loop
build_composite_key row key_fields = composite_loop row [] key_fields

abbrev holds : Option Text → Text → Bool
holds none value = false
holds (some v) value = str_eq v value

unfoldable matches : QueryRow → (filters : QueryRow) → Bool
matches row [] = true
matches row ((key, value) ∷ filters) =
    if holds (lookup key row) value then matches row filters else false

abbrev pub rows_of : Option Table → Table
rows_of none = []
rows_of (some t) = t

unfoldable pub upsert_row : (table : Text) → QueryRow → (key_fields : List Text) → Mysql → Mysql
unfolding build_composite_key
upsert_row table row key_fields s =
    insert table (insert (build_composite_key row key_fields) row (rows_of (lookup table s))) s

-- The loop of GetRow
unfoldable pub first_with : (key_field key_value : Text) → Table → Option QueryRow
first_with key_field key_value [] = none
first_with key_field key_value ((k, row) ∷ rows) =
    if holds (lookup key_field row) key_value then some row else first_with key_field key_value rows

unfoldable pub get_row : (table key_field key_value : Text) → Mysql → Option QueryRow
unfolding first_with
get_row table key_field key_value s = first_with key_field key_value (rows_of (lookup table s))

-- The loop of FindRows
unfoldable all_matching : (filters : QueryRow) → Table → List QueryRow
unfolding matches
all_matching filters [] = []
all_matching filters ((k, row) ∷ rows) =
    let rest = all_matching filters rows in if matches row filters then row ∷ rest else rest

unfoldable pub find_rows : (table : Text) → (filters : QueryRow) → Mysql → List QueryRow
unfolding all_matching
find_rows table filters s = all_matching filters (rows_of (lookup table s))
