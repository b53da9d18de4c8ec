-- ===== src/Base/Maps.antt =====
-- `std::unordered_map<std::string, V>` as an association list. The order in which the C++ container
-- is traversed is unspecified; the model traverses in order of insertion.
use mathlib.Core.Path.{◌≡◌, refl}
use mathlib.Core.Option.{Option, none, some}
use mathlib.Core.List.{List, [], ◌∷◌}
use native.Mathlib.Omega.{arith}
use kd.Base.Tests.{if◌then◌else◌}
use kd.Base.Bytes.{Text, str_eq, str_eq_iff, str_eq_refl}

abbrev pub Dict {ℓ} : Type ℓ → Type ℓ
Dict V = List (Text × V)

module _ {ℓ} {V : Type ℓ} where
  -- m.find(k)
  unfoldable pub lookup : Text → Dict V → Option V
  lookup k [] = none
  lookup k ((j, v) ∷ m) = if str_eq j k then some v else lookup k m

  -- m[k] = v
  unfoldable pub insert : Text → V → Dict V → Dict V
  insert k v [] = (k, v) ∷ []
  insert k v ((j, w) ∷ m) = if str_eq j k then (j, v) ∷ m else (j, w) ∷ insert k v m

  -- m.erase(k)
  unfoldable pub erase : Text → Dict V → Dict V
  erase k [] = []
  erase k ((j, w) ∷ m) = if str_eq j k then erase k m else (j, w) ∷ erase k m

  pub lookup-empty : (k : Text) → lookup k [] ≡ none
  unfolding lookup
  lookup-empty k = refl

  pub lookup-insert :
      (k j : Text) (v : V) (entries : Dict V)
      → lookup j (insert k v entries) ≡ (if str_eq k j then some v else lookup j entries)
  unfolding insert lookup
  lookup-insert new asked v [] = ground arith
  lookup-insert new asked v ((old, w) ∷ rest) = ground (
    str_eq_iff old new,
    str_eq_iff old asked,
    str_eq_iff new asked,
    lookup-insert new asked v rest,
    arith,
  )

  pub lookup-insert_self : (k : Text) (v : V) (m : Dict V) → lookup k (insert k v m) ≡ some v
  lookup-insert_self k v m = rw (lookup-insert k k v m) (rw (str_eq_refl k))

  pub lookup-erase :
      (k j : Text) (m : Dict V) → lookup j (erase k m) ≡ (if str_eq k j then none else lookup j m)
  unfolding lookup erase
  lookup-erase k j [] = ground arith
  lookup-erase k j ((i, w) ∷ m) =
      ground (arith, str_eq_iff k j, str_eq_iff i k, str_eq_iff i j, lookup-erase k j m)

-- The value of the last entry with a key, where the entries are inserted one after the other.
abbrev pub last_value {ℓ} : {V : Type ℓ} → Text → List (Text × V) → Option V → Option V
last_value key [] before = before
last_value key ((k, v) ∷ entries) before =
    last_value key entries (if str_eq k key then some v else before)

pub ruleset dict_laws = (lookup-empty, lookup-insert, lookup-erase, str_eq_refl)
