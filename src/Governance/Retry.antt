-- ===== src/Governance/Retry.antt =====
-- framework/governance/retry_policy.h. `fn` is a sequence of outcomes, one for each call; the
-- result counts the calls and the waits of `backoff_`. A `max_attempts_` below 1 makes no call.
use kd.Base.{
  ℕ, zero, suc, ◌+◌, ◌-◌, ◌<◌, ◌≤◌, ◌≡◌, refl, Bool, true, false, arith, ltb, if◌then◌else◌,
  Bool-cases, ◌⊎◌, inl, inr, dec_lt,
}

pub record Outcome : Type 0 where
  pub succeeded : Bool
  pub calls : ℕ
  waits : ℕ

-- the rounds left of `for (attempt = 1; attempt <= max_attempts_; ++attempt)`
rounds : ℕ → ℕ → ℕ → (ℕ → Bool) → ℕ → Outcome
rounds max_attempts zero attempt fn waits = record {
  succeeded = false;
  calls = attempt - 1;
  waits = waits;
}
rounds max_attempts (suc left) attempt fn waits =
    let rest =
      rounds max_attempts left (attempt + 1) fn
        (if ltb attempt max_attempts then waits + 1 else waits) in
    if fn attempt then record { succeeded = true; calls = attempt; waits = waits } else rest

pub run : ℕ → (ℕ → Bool) → Outcome
unfolding rounds
run max_attempts fn = rounds max_attempts max_attempts 1 fn 0

-- Calls `from`, …, `to - 1` fail.
abbrev Fail : (ℕ → Bool) → ℕ → ℕ → Type 0
Fail fn from to = (k : ℕ) → from ≤ k → k < to → fn k ≡ false

-- The first call that succeeds is the last one made; with none among `max_attempts`, all are made.
abbrev Decides : ℕ → (ℕ → Bool) → Outcome → Type 0
Decides max_attempts fn o =
    ((o.succeeded ≡ true)
      × (1 ≤ o.calls)
      × (o.calls ≤ max_attempts)
      × (fn o.calls ≡ true)
      × Fail fn 1 o.calls
      × (o.waits ≡ o.calls - 1))
    ⊎ ((o.succeeded ≡ false)
        × (o.calls ≡ max_attempts)
        × Fail fn 1 (max_attempts + 1)
        × (o.waits ≡ max_attempts - 1))

Fail-extend : (fn : ℕ → Bool) (n : ℕ) → Fail fn 1 n → fn n ≡ false → Fail fn 1 (n + 1)
Fail-extend fn n before now k h1 h2 = elim (dec_lt k n) [
  | yes lt ↦ before k h1 lt
  | no ge ↦ let e : k ≡ n = omega arith in rw e now
]

rounds_lem :
    (max_attempts left attempt : ℕ) (fn : ℕ → Bool) (waits : ℕ)
    → 1 ≤ attempt
    → attempt + left ≡ max_attempts + 1
    → (waits ≡ (if ltb max_attempts attempt then max_attempts - 1 else attempt - 1))
    → Fail fn 1 attempt
    → Decides max_attempts fn (rounds max_attempts left attempt fn waits)
unfolding rounds
rounds_lem max_attempts zero attempt fn waits h e w f =
    let done : attempt ≡ max_attempts + 1 = omega arith in
    inr (refl, omega arith, rw (← done) f, ground arith)
rounds_lem max_attempts (suc left) attempt fn waits h e w f = elim (Bool-cases (fn attempt)) [
  | inl hit ↦ rw hit (inl (refl, h, omega arith, hit, f, ground arith))
  | inr miss ↦ rw miss (
      rounds_lem max_attempts left (attempt + 1) fn
        (if ltb attempt max_attempts then waits + 1 else waits) (omega arith) (omega arith)
        (ground arith) (Fail-extend fn attempt f miss))
]

-- `Run` stops at the first success, whose number is the count of calls, and otherwise makes exactly
-- `max_attempts` calls and fails; between two calls it waits once.
run-Decides : (max_attempts : ℕ) (fn : ℕ → Bool) → Decides max_attempts fn (run max_attempts fn)
unfolding run
run-Decides max_attempts fn =
    rounds_lem max_attempts max_attempts 1 fn 0 (omega arith) (omega arith) (ground arith)
      (λ k h1 h2. absurd (omega arith))
