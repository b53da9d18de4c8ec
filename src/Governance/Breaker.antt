-- ===== src/Governance/Breaker.antt =====
-- framework/governance/circuit_breaker.cpp and its header. A method runs under the breaker's mutex,
-- so a history is a sequence of calls; the reading of `steady_clock::now()` is an argument, in
-- nanoseconds. The constructor's `int` threshold is a natural number (one below 0 acts as 0), and
-- the failure count does not wrap.
pub mod Streak
pub mod Trip
use kd.Base.{ℕ, suc, ◌+◌, Bool, true, false, ◌||◌, List, [], ◌∷◌, leb, if◌then◌else◌}

pub data State : Type 0 where
  closed open_state half_open : State

pub record Breaker : Type 0 where
  pub state : State
  pub failure_threshold : ℕ
  pub failure_count : ℕ
  pub cool_down : ℕ
  pub opened_at : ℕ

unfoldable pub init : ℕ → ℕ → Breaker
init failure_threshold cool_down = record {
  state = closed;
  failure_threshold = failure_threshold;
  failure_count = 0;
  cool_down = cool_down;
  opened_at = 0;
}

abbrev is_open : State → Bool
is_open open_state = true
is_open _ = false

-- `now - opened_at_ >= cool_down_`, with the subtraction moved to the other side
unfoldable pub allow_request : Breaker → ℕ → Breaker × Bool
allow_request b now =
    if is_open b.state
    then (if leb (b.opened_at + b.cool_down) now
        then (record b { state = half_open }, true)
        else (b, false))
    else (b, true)

unfoldable pub record_success : Breaker → Breaker
record_success b = record b { failure_count = 0; state = closed }

unfoldable pub record_failure : Breaker → ℕ → Breaker
record_failure b now =
    let counted = record b { failure_count = suc b.failure_count } in
    if leb b.failure_threshold (suc b.failure_count)
    then record counted { state = open_state; opened_at = now }
    else counted

-- The calls that a history is made of, with the time that a call reads.
pub data Call : Type 0 where
  asks failed : ℕ → Call
  succeeded : Call

unfoldable pub step : Breaker → Call → Breaker
unfolding allow_request record_success record_failure
step b (asks now) = (allow_request b now).0
step b (failed now) = record_failure b now
step b succeeded = record_success b

unfoldable pub run : Breaker → List Call → Breaker
run b [] = b
run b (c ∷ cs) = run (step b c) cs
