-- ===== src/Json.antt =====
-- What the program uses of nlohmann::json, as a parameter: the library is not part of the
-- repository. `Json` is `nlohmann::json`, `parse` is `json::parse(text, nullptr, false)` with `none`
-- for a discarded value, `dump` is `dump()`, `find` gives `none` for `end()` (also on a value that
-- is no object), and `value_…` is `value(key, default)`, which raises on a value that is no object
-- and on a member of another type. `get_int` is `get<int>()`, `get_int64` is `get<long long>()`.
use kd.Base.{◌≡◌, Bool, Option, some, List, Text, lookup, Result, ok, ℤ, FitsInt, FitsInt64}

pub record JsonApi : Type 1 where
  pub Json : Type 0
  pub parse : Text → Option Json
  pub dump : Json → Result Text
  pub find : Json → Text → Option Json
  pub is_object : Json → Bool
  pub is_string : Json → Bool
  pub is_array : Json → Bool
  pub is_number_integer : Json → Bool
  pub get_string : Json → Result Text
  pub get_int : Json → Result ℤ
  pub get_int64 : Json → Result ℤ
  pub value_string : Json → Text → Text → Result Text
  pub value_int : Json → Text → ℤ → Result ℤ
  pub value_int64 : Json → Text → ℤ → Result ℤ
  pub items : Json → List (Text × Json)
  pub elements : Json → List Json
  pub object : List (Text × Json) → Json
  pub array : List Json → Json
  pub string : Text → Json
  pub number : ℤ → Json
  pub boolean : Bool → Json

-- The documented behaviour that the round trips rest on.
pub record JsonLaws (api : JsonApi) : Type 0 where
  pub parse-dump : (j : api.Json) (t : Text) → api.dump j ≡ ok t → api.parse t ≡ some j
  pub value_string-object :
      (fs : List (Text × api.Json)) (k d s : Text)
      → lookup k fs ≡ some (api.string s)
      → api.value_string (api.object fs) k d ≡ ok s
  pub value_int-object :
      (fs : List (Text × api.Json)) (k : Text) (d z : ℤ)
      → FitsInt z
      → lookup k fs ≡ some (api.number z)
      → api.value_int (api.object fs) k d ≡ ok z
  pub value_int64-object :
      (fs : List (Text × api.Json)) (k : Text) (d z : ℤ)
      → FitsInt64 z
      → lookup k fs ≡ some (api.number z)
      → api.value_int64 (api.object fs) k d ≡ ok z
