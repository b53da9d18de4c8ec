-- ===== src/Bench/Workers.antt =====
-- The workers of RunHttpBench and RunWsBench in bench/gateway_http_ws_bench.cpp: they take numbers of
-- requests from a shared counter. Their steps are interleaved in any order. What a request takes and
-- whether it succeeds come with the step.
use kd.Base.{ℕ, zero, suc, ◌+◌, Bool, List, [], ◌∷◌, if◌then◌else◌, ltb}

-- Where a worker stands: before its connection (WebSocket only), before `index.fetch_add`, in the
-- request of a number, after the loop, or at its end.
pub data Phase : Type 0 where
  connecting fetching closing finished : Phase
  asking : (req_id : ℕ) → Phase

pub record Run : Type 0 where
  pub requests : ℕ
  pub index : ℕ
  pub success : ℕ
  pub errors : ℕ
  pub latencies : List ℕ
  pub workers : List Phase

abbrev pub repeat {ℓ} : {A : Type ℓ} → ℕ → A → List A
repeat zero x = []
repeat (suc n) x = x ∷ repeat n x

-- The state in which the threads start, in the two functions
unfoldable pub http_start : (concurrency requests : ℕ) → Run
http_start concurrency requests = record {
  requests = requests;
  index = 0;
  success = 0;
  errors = 0;
  latencies = repeat requests 0;
  workers = repeat concurrency fetching;
}

unfoldable pub ws_start : (concurrency requests : ℕ) → Run
ws_start concurrency requests = record {
  requests = requests;
  index = 0;
  success = 0;
  errors = 0;
  latencies = repeat requests 0;
  workers = repeat concurrency connecting;
}

-- `latencies[i] = v`
abbrev pub set_at {ℓ} : {A : Type ℓ} → ℕ → A → List A → List A
set_at i x [] = []
set_at zero x (y ∷ ys) = x ∷ ys
set_at (suc i) x (y ∷ ys) = y ∷ set_at i x ys

-- What happens in a step of a worker: its next step goes well, with a latency and an answer that
-- counts as a success or not, or an exception ends the worker, which only the WebSocket loop catches.
pub data Outcome : Type 0 where
  goes_on : (is_ok : Bool) → (latency : ℕ) → Outcome
  throws : Outcome

-- The step of the worker `w`, which stands at a phase.
unfoldable pub worker_step : (w : ℕ) → Phase → Outcome → Run → Run
worker_step w finished outcome r = r
worker_step w fetching outcome r = record r {
  index = r.index + 1;
  workers = set_at w (if ltb r.index r.requests then asking r.index else closing) r.workers;
}
worker_step w connecting (goes_on is_ok latency) r = record r {
  workers = set_at w fetching r.workers;
}
worker_step w closing (goes_on is_ok latency) r = record r { workers = set_at w finished r.workers }
worker_step w (asking req_id) (goes_on is_ok latency) r = record r {
  latencies = set_at req_id latency r.latencies;
  success = r.success + (if is_ok then 1 else 0);
  errors = r.errors + (if is_ok then 0 else 1);
  workers = set_at w fetching r.workers;
}
worker_step w connecting throws r = record r {
  errors = r.errors + 1;
  workers = set_at w finished r.workers;
}
worker_step w closing throws r = record r {
  errors = r.errors + 1;
  workers = set_at w finished r.workers;
}
worker_step w (asking req_id) throws r = record r {
  errors = r.errors + 1;
  workers = set_at w finished r.workers;
}

abbrev pub phase_of : ℕ → List Phase → Phase
phase_of w [] = finished
phase_of zero (p ∷ ps) = p
phase_of (suc w) (p ∷ ps) = phase_of w ps

unfoldable pub step : ℕ × Outcome → Run → Run
unfolding worker_step
step (w, outcome) r = worker_step w (phase_of w r.workers) outcome r

abbrev pub run : List (ℕ × Outcome) → Run → Run
run [] r = r
run (s ∷ steps) r = run steps (step s r)
