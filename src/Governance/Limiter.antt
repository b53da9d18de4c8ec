-- ===== src/Governance/Limiter.antt =====
-- framework/governance/rate_limiter.cpp. The source counts tokens in `double`; the model counts
-- them exactly, in units of 10⁻⁹ token, for a whole rate (tokens a second) and a whole capacity,
-- which all of the program's limiters have: a nanosecond at rate r brings r units. Rounding of
-- `double` is not modelled. `Allow` runs under a mutex, and the clock reading is an argument.
pub mod Admission
use kd.Base.{ℕ, ◌+◌, ◌*◌, ◌-◌, ◌^◌, Bool, true, false, List, [], ◌∷◌, ltb, min, if◌then◌else◌}

-- units to a token, and nanoseconds to a second
abbrev pub scale : ℕ
scale = 1_000_000_000

pub record Limiter : Type 0 where
  pub tokens : ℕ
  pub rate_per_second : ℕ
  pub burst_capacity : ℕ
  pub last_refill : ℕ

unfoldable pub init : ℕ → ℕ → ℕ → Limiter
init rate_per_second burst_capacity now = record {
  tokens = burst_capacity * scale;
  rate_per_second = rate_per_second;
  burst_capacity = burst_capacity;
  last_refill = now;
}

-- `tokens_` after the refill of `Allow`
unfoldable pub refill : Limiter → ℕ → ℕ
refill l now = min (l.burst_capacity * scale) (l.tokens + (now - l.last_refill) * l.rate_per_second)

unfoldable pub allow : Limiter → ℕ → Limiter × Bool
unfolding refill
allow l now =
    let refilled = refill l now in
    if ltb refilled scale
    then (record l { tokens = refilled; last_refill = now }, false)
    else (record l { tokens = refilled - scale; last_refill = now }, true)

-- The limiter after requests at the given times, and the number that it let through.
unfoldable pub allow_all : Limiter → List ℕ → Limiter × ℕ
unfolding allow
allow_all l [] = (l, 0)
allow_all l (now ∷ times) =
    let (next, passed) = allow l now in
    let (final, n) = allow_all next times in (final, if passed then n + 1 else n)
