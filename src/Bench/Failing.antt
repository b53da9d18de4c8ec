-- ===== src/Bench/Failing.antt =====
-- The counters of a run in which connections fail.
use kd.Base.{ℕ, ◌+◌, ◌≤◌, ◌≡◌, refl, Bool-cases, inl, inr, List, [], ◌∷◌, ltb, arith, length}
use kd.Bench.Workers.{
  Phase, connecting, fetching, closing, finished, asking, Run, Outcome, goes_on, throws, ws_start,
  worker_step, phase_of, step, run,
}
use kd.Bench.Accounting.{
  count, moved, asks, ended, taken, count-repeat, length-repeat, run-IsSameSize,
}

-- What was counted is at most what was taken, and one more for each worker that has ended.
abbrev IsBounded : Run → Type 0
IsBounded r = r.success + r.errors + count asks r.workers ≤ taken r + count ended r.workers

worker_step-IsBounded :
    (w : ℕ) (p : Phase) (outcome : Outcome) (r : Run)
    → phase_of w r.workers ≡ p
    → IsBounded r
    → IsBounded (worker_step w p outcome r)
unfolding worker_step
worker_step-IsBounded w finished outcome r at h = h
worker_step-IsBounded w fetching outcome r at h = elim (Bool-cases (ltb r.index r.requests)) [
  | inl more ↦ rw more (
      ground (
        arith,
        h,
        moved asks w (asking r.index) fetching r.workers at (λ e. absurd (cc e)),
        moved ended w (asking r.index) fetching r.workers at (λ e. absurd (cc e)),
      ))
  | inr none_left ↦ rw none_left (
      ground (
        arith,
        h,
        moved asks w closing fetching r.workers at (λ e. absurd (cc e)),
        moved ended w closing fetching r.workers at (λ e. absurd (cc e)),
      ))
]
worker_step-IsBounded w connecting (goes_on is_ok latency) r at h = ground (
  arith,
  h,
  moved asks w fetching connecting r.workers at (λ e. absurd (cc e)),
  moved ended w fetching connecting r.workers at (λ e. absurd (cc e)),
)
worker_step-IsBounded w closing (goes_on is_ok latency) r at h = ground (
  arith,
  h,
  moved asks w finished closing r.workers at (λ e. absurd (cc e)),
  moved ended w finished closing r.workers at (λ e. absurd (cc e)),
)
worker_step-IsBounded w (asking req_id) (goes_on is_ok latency) r at h = ground (
  arith,
  h,
  moved asks w fetching (asking req_id) r.workers at (λ e. absurd (cc e)),
  moved ended w fetching (asking req_id) r.workers at (λ e. absurd (cc e)),
)
worker_step-IsBounded w connecting throws r at h = ground (
  arith,
  h,
  moved asks w finished connecting r.workers at (λ e. absurd (cc e)),
  moved ended w finished connecting r.workers at (λ e. absurd (cc e)),
)
worker_step-IsBounded w closing throws r at h = ground (
  arith,
  h,
  moved asks w finished closing r.workers at (λ e. absurd (cc e)),
  moved ended w finished closing r.workers at (λ e. absurd (cc e)),
)
worker_step-IsBounded w (asking req_id) throws r at h = ground (
  arith,
  h,
  moved asks w finished (asking req_id) r.workers at (λ e. absurd (cc e)),
  moved ended w finished (asking req_id) r.workers at (λ e. absurd (cc e)),
)

run-IsBounded : (steps : List (ℕ × Outcome)) (r : Run) → IsBounded r → IsBounded (run steps r)
unfolding step
run-IsBounded [] r h = h
run-IsBounded ((w, outcome) ∷ steps) r h =
    run-IsBounded steps (step (w, outcome) r)
      (worker_step-IsBounded w (phase_of w r.workers) outcome r refl h)

count-ended_bound : (ws : List Phase) → count ended ws ≤ length ws
count-ended_bound [] = omega arith
count-ended_bound (finished ∷ ws) = omega (arith, count-ended_bound ws)
count-ended_bound (connecting ∷ ws) = omega (arith, count-ended_bound ws)
count-ended_bound (fetching ∷ ws) = omega (arith, count-ended_bound ws)
count-ended_bound (closing ∷ ws) = omega (arith, count-ended_bound ws)
count-ended_bound (asking req_id ∷ ws) = omega (arith, count-ended_bound ws)

-- The WebSocket mode counts at most one answer for each request and one error for each worker,
-- whichever connections fail when.
ws_counted_bound :
    (steps : List (ℕ × Outcome)) (concurrency requests : ℕ)
    → (run steps (ws_start concurrency requests)).success
        + (run steps (ws_start concurrency requests)).errors
      ≤ requests + concurrency
unfolding ws_start
ws_counted_bound steps concurrency requests =
    let start = ws_start concurrency requests in
    let idle = count-repeat asks concurrency connecting refl in
    let begin : IsBounded start = ground (arith, idle) in
    let bounded = run-IsBounded steps start begin in
    let (same, size) = run-IsSameSize steps start in
    ground (
      arith,
      bounded,
      same,
      size,
      length-repeat concurrency connecting,
      count-ended_bound (run steps start).workers,
    )
