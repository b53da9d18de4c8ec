-- ===== src/Base/Results.antt =====
-- C++ exceptions as values: a call returns a value, or leaves with `what()`.
use mathlib.Core.Path.{◌≡◌, refl}
use kd.Base.Bytes.{Text}

pub data Result {ℓ} (A : Type ℓ) : Type ℓ where
  ok : A → Result A
  raised : Text → Result A

infixl 5 ◌>>=◌
abbrev pub ◌>>=◌ {ℓ κ} : {A : Type ℓ} {B : Type κ} → Result A → (A → Result B) → Result B
ok a >>= f = f a
raised e >>= f = raised e

-- What a chain that returned `b` has passed: its first call returned, and so did the rest.
abbrev Passed {ℓ κ} : {A : Type ℓ} {B : Type κ} → (A → Result B) → B → Result A → Type (ℓ ⊔ κ)
Passed {A = A} rest b first = (a : A) × (first ≡ ok a) × (rest a ≡ ok b)

pub >>=-Passed {ℓ κ} :
    {A : Type ℓ} {B : Type κ} (rest : A → Result B) (b : B) (first : Result A)
    → (first >>= rest) ≡ ok b
    → Passed rest b first
>>=-Passed rest b (raised what) returned = cc
>>=-Passed rest b (ok a) returned = (a, refl, returned)
