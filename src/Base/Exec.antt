-- ===== src/Base/Exec.antt =====
-- Methods that change an object and may raise: the state is kept when an exception leaves.
use kd.Base.Results.{Result, ok, raised}

abbrev pub Exec {ℓ} : Type ℓ → Type ℓ → Type ℓ
Exec S A = S → Result A × S

abbrev pub after_result {ℓ} : {S A B : Type ℓ} → (A → Exec S B) → Result A → S → Result B × S
after_result f (ok a) s = f a s
after_result f (raised what) s = (raised what, s)

module _ {ℓ} {S : Type ℓ} where
  infixl 5 ◌>>=◌
  abbrev pub ◌>>=◌ : {A B : Type ℓ} → Exec S A → (A → Exec S B) → Exec S B
  ◌>>=◌ m f s = let r = m s in after_result f r.0 r.1

  -- a value or an exception that changes nothing
  abbrev lift : {A : Type ℓ} → Result A → Exec S A
  lift r s = (r, s)

  abbrev pure : {A : Type ℓ} → A → Exec S A
  pure a s = (ok a, s)

  abbrev gets : {A : Type ℓ} → (S → A) → Exec S A
  gets f s = (ok (f s), s)
