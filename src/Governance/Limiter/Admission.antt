-- ===== src/Governance/Limiter/Admission.antt =====
-- How many requests a token bucket lets through.
use kd.Base.{
  ℕ, ◌+◌, ◌*◌, ◌-◌, ◌≤◌, ◌<◌, ◌≡◌, refl, true, List, [], ◌∷◌, arith, length, if◌then◌else◌,
}
use kd.Governance.Limiter.{Limiter, scale, init, refill, allow, allow_all}

-- Times that never run back, from `now` to `last`.
abbrev IsMonotone : ℕ → List ℕ → ℕ → Type 0
IsMonotone now [] last = now ≤ last
IsMonotone now (t ∷ ts) last = (now ≤ t) × IsMonotone t ts last

le_of_IsMonotone : (now : ℕ) (ts : List ℕ) (last : ℕ) → IsMonotone now ts last → now ≤ last
le_of_IsMonotone now [] last h = h
le_of_IsMonotone now (t ∷ ts) last (h, hs) = omega (arith, le_of_IsMonotone t ts last hs)

elapsed_add : (a b c r : ℕ) → a ≤ b → b ≤ c → (b - a) * r + (c - b) * r ≡ (c - a) * r
elapsed_add a b c r h k = grind arith

-- What one call spends: the refill is at most the elapsed time's worth, and a pass costs a token.
spent :
    (l : Limiter) (now : ℕ)
    → (allow l now).0.tokens + (if (allow l now).1 then scale else 0)
      ≤ l.tokens + (now - l.last_refill) * l.rate_per_second
unfolding allow refill
spent l now = ground arith

rate-allow : (l : Limiter) (now : ℕ) → (allow l now).0.rate_per_second ≡ l.rate_per_second
unfolding allow refill
rate-allow l now = ground arith

burst-allow : (l : Limiter) (now : ℕ) → (allow l now).0.burst_capacity ≡ l.burst_capacity
unfolding allow refill
burst-allow l now = ground arith

refilled-allow : (l : Limiter) (now : ℕ) → (allow l now).0.last_refill ≡ now
unfolding allow refill
refilled-allow l now = ground arith

-- Over any calls at times that do not run back, the tokens that passed and those that are left
-- come from the tokens at the start and the elapsed time.
allow_all_spent :
    (l : Limiter) (times : List ℕ) (last : ℕ)
    → IsMonotone l.last_refill times last
    → (allow_all l times).1 * scale + (allow_all l times).0.tokens
      ≤ l.tokens + (last - l.last_refill) * l.rate_per_second
unfolding allow_all
allow_all_spent l [] last h = omega arith
allow_all_spent l (now ∷ times) last (h, hs) =
    let next = (allow l now).0 in
    let at : next.last_refill ≡ now = refilled-allow l now in
    let rest = allow_all_spent next times last (rw at hs) in
    let split =
      elapsed_add l.last_refill now last l.rate_per_second h (le_of_IsMonotone now times last hs) in
    ground (arith, spent l now, at, rate-allow l now, rest, split)

-- A new limiter lets through, up to any time `last`, at most its burst and one request for each
-- period of its rate that has passed, whatever the times of the requests are, in order.
pub admitted_bound :
    (rate burst start last : ℕ) (times : List ℕ)
    → IsMonotone start times last
    → (allow_all (init rate burst start) times).1 * scale ≤ burst * scale + (last - start) * rate
unfolding init
admitted_bound rate burst start last times h =
    omega (arith, allow_all_spent (init rate burst start) times last h)

-- Gaps between requests that each bring a whole token.
abbrev IsPaced : ℕ → ℕ → List ℕ → Type 0
IsPaced rate now [] = Unit {0}
IsPaced rate now (t ∷ ts) = (scale ≤ (t - now) * rate) × IsPaced rate t ts

passes :
    (l : Limiter) (now : ℕ)
    → 0 < l.burst_capacity
    → scale ≤ (now - l.last_refill) * l.rate_per_second
    → (allow l now).1 ≡ true
unfolding allow refill
passes l now h k = ground arith

-- Requests that come no faster than the rate are all let through, if the capacity is not 0.
pub paced_all_admitted :
    (l : Limiter) (times : List ℕ)
    → 0 < l.burst_capacity
    → IsPaced l.rate_per_second l.last_refill times
    → (allow_all l times).1 ≡ length times
unfolding allow_all
paced_all_admitted l [] h p = refl
paced_all_admitted l (now ∷ times) h (p, ps) =
    let next = (allow l now).0 in
    let rest =
      paced_all_admitted next times (rw (burst-allow l now) h)
        (rw (refilled-allow l now, rate-allow l now) ps) in
    ground (arith, passes l now h p, rest)
