-- ===== src/Governance/Breaker/Streak.antt =====
-- The breaker is closed exactly while the failures since the last success are below the threshold.
use kd.Base.{ℕ, suc, ◌≤◌, ◌<◌, ◌≡◌, ◌≢◌, ◌↔◌, refl, List, [], ◌∷◌, arith}
use kd.Governance.Breaker.{
  Breaker, closed, Call, asks, failed, succeeded, init, step, run, allow_request, record_failure,
  record_success,
}

-- Failures since the last success, where `n` came before the history.
abbrev pub streak : ℕ → List Call → ℕ
streak n [] = n
streak n (asks now ∷ cs) = streak n cs
streak n (failed now ∷ cs) = streak (suc n) cs
streak n (succeeded ∷ cs) = streak 0 cs

pub record IsConsistent (b : Breaker) : Type 0 where
  pub below : b.state ≡ closed → b.failure_count < b.failure_threshold
  above : b.state ≢ closed → b.failure_threshold ≤ b.failure_count
  pub positive : 0 < b.failure_threshold

step-IsConsistent : (b : Breaker) (c : Call) → IsConsistent b → IsConsistent (step b c)
unfolding step allow_request record_failure record_success
step-IsConsistent b (asks now) v = record {
  below = λ e. ground arith;
  above = λ e. ground arith;
  positive = ground arith;
}
step-IsConsistent b (failed now) v = record {
  below = λ e. ground arith;
  above = λ e. ground arith;
  positive = ground arith;
}
step-IsConsistent b succeeded v = record {
  below = λ e. ground arith;
  above = λ e. ground arith;
  positive = ground arith;
}

-- Every history keeps the breaker consistent, with its threshold and cool-down.
run-IsConsistent : (b : Breaker) (cs : List Call) → IsConsistent b → IsConsistent (run b cs)
unfolding run
run-IsConsistent b [] v = v
run-IsConsistent b (c ∷ cs) v = run-IsConsistent (step b c) cs (step-IsConsistent b c v)

threshold-step : (b : Breaker) (c : Call) → (step b c).failure_threshold ≡ b.failure_threshold
unfolding step allow_request record_failure record_success
threshold-step b (asks now) = ground arith
threshold-step b (failed now) = ground arith
threshold-step b succeeded = refl

threshold-run : (b : Breaker) (cs : List Call) → (run b cs).failure_threshold ≡ b.failure_threshold
unfolding run
threshold-run b [] = refl
threshold-run b (c ∷ cs) = ground (arith, threshold-step b c, threshold-run (step b c) cs)

count-run : (b : Breaker) (cs : List Call) → (run b cs).failure_count ≡ streak b.failure_count cs
unfolding run step allow_request record_failure record_success
count-run b [] = refl
count-run b (asks now ∷ cs) = ground (arith, count-run (step b (asks now)) cs)
count-run b (failed now ∷ cs) = ground (arith, count-run (step b (failed now)) cs)
count-run b (succeeded ∷ cs) = count-run (step b succeeded) cs

init-IsConsistent : (threshold cool : ℕ) → 0 < threshold → IsConsistent (init threshold cool)
unfolding init
init-IsConsistent threshold cool h = record {
  below = λ e. h;
  above = λ e. absurd (e refl);
  positive = h;
}

closed_iff_of_IsConsistent :
    (b : Breaker) → IsConsistent b → (b.state ≡ closed) ↔ (b.failure_count < b.failure_threshold)
closed_iff_of_IsConsistent b v = (v.below, λ h. ground (arith, v.above))

-- After any history of a new breaker with a positive threshold, the state is closed exactly if
-- fewer failures than the threshold were recorded since the last success.
pub closed_iff :
    (threshold cool : ℕ) (cs : List Call)
    → 0 < threshold
    → ((run (init threshold cool) cs).state ≡ closed) ↔ (streak 0 cs < threshold)
unfolding init
closed_iff threshold cool cs h =
    let b = init threshold cool in
    let v = run-IsConsistent b cs (init-IsConsistent threshold cool h) in
    let (to, from) = closed_iff_of_IsConsistent (run b cs) v in
    (
      λ e. omega (arith, to e, count-run b cs, threshold-run b cs),
      λ k. from (omega (arith, k, count-run b cs, threshold-run b cs)),
    )
