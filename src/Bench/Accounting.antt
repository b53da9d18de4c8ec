-- ===== src/Bench/Accounting.antt =====
-- What the counters of a run add up to, whatever the order of the workers' steps.
use kd.Base.{
  ℕ, zero, suc, ◌+◌, ◌≤◌, ◌≡◌, ◌≢◌, refl, ◌∙◌, Bool, Bool-cases, ◌⊎◌, inl, inr, List, [], ◌∷◌,
  if◌then◌else◌, ltb, arith, All, length,
}
use kd.Bench.Workers.{
  Phase, connecting, fetching, closing, finished, asking, Run, Outcome, goes_on, throws, repeat,
  set_at, http_start, worker_step, phase_of, step, run,
}

abbrev pub count : (Phase → ℕ) → List Phase → ℕ
count f [] = 0
count f (p ∷ ps) = f p + count f ps

counted :
    (f : Phase → ℕ) (w : ℕ) (p : Phase) (ws : List Phase)
    → phase_of w ws ≢ finished
    → count f (set_at w p ws) + f (phase_of w ws) ≡ count f ws + f p
counted f w p [] alive = absurd (alive refl)
counted f zero p (q ∷ ws) alive = omega arith
counted f (suc w) p (q ∷ ws) alive = omega (arith, counted f w p ws alive)

pub moved :
    (f : Phase → ℕ) (w : ℕ) (p q : Phase) (ws : List Phase)
    → phase_of w ws ≡ q
    → q ≢ finished
    → count f (set_at w p ws) + f q ≡ count f ws + f p
moved f w p q ws at alive = (rw at at (counted f w p ws (λ e. alive (rw at at e))))

-- Is a worker in a request, has it left the loop, has it ended.
abbrev pub asks : Phase → ℕ
asks (asking req_id) = 1
asks connecting = 0
asks fetching = 0
asks closing = 0
asks finished = 0

abbrev left : Phase → ℕ
left closing = 1
left finished = 1
left connecting = 0
left fetching = 0
left (asking req_id) = 0

abbrev pub ended : Phase → ℕ
ended finished = 1
ended closing = 0
ended connecting = 0
ended fetching = 0
ended (asking req_id) = 0

abbrev pub taken : Run → ℕ
taken r = if ltb r.index r.requests then r.index else r.requests

-- Every number that was taken is in a request, or was counted; a worker leaves the loop when there
-- is no more.
abbrev IsAccounted : Run → Type 0
IsAccounted r =
    (r.success + r.errors + count asks r.workers ≡ taken r)
    × ((count left r.workers ≡ 0) ⊎ (r.requests ≤ r.index))

abbrev GoesOn : ℕ × Outcome → Type 0
GoesOn (w, goes_on is_ok latency) = Unit
GoesOn (w, throws) = ⊥

worker_step-IsAccounted :
    (w : ℕ) (p : Phase) (is_ok : Bool) (latency : ℕ) (r : Run)
    → phase_of w r.workers ≡ p
    → IsAccounted r
    → IsAccounted (worker_step w p (goes_on is_ok latency) r)
unfolding worker_step
worker_step-IsAccounted w finished is_ok latency r at h = h
worker_step-IsAccounted w connecting is_ok latency r at (sum, over) = ground (
  arith,
  moved asks w fetching connecting r.workers at (λ e. absurd (cc e)),
  moved left w fetching connecting r.workers at (λ e. absurd (cc e)),
)
worker_step-IsAccounted w fetching is_ok latency r at (sum, over) =
    elim (Bool-cases (ltb r.index r.requests)) [
      | inl more ↦ rw more (
          ground (
            arith,
            moved asks w (asking r.index) fetching r.workers at (λ e. absurd (cc e)),
            moved left w (asking r.index) fetching r.workers at (λ e. absurd (cc e)),
          ))
      | inr none_left ↦ rw none_left (
          ground (
            arith,
            moved asks w closing fetching r.workers at (λ e. absurd (cc e)),
            moved left w closing fetching r.workers at (λ e. absurd (cc e)),
          ))
    ]
worker_step-IsAccounted w closing is_ok latency r at (sum, over) = ground (
  arith,
  moved asks w finished closing r.workers at (λ e. absurd (cc e)),
  moved left w finished closing r.workers at (λ e. absurd (cc e)),
)
worker_step-IsAccounted w (asking req_id) is_ok latency r at (sum, over) = ground (
  arith,
  moved asks w fetching (asking req_id) r.workers at (λ e. absurd (cc e)),
  moved left w fetching (asking req_id) r.workers at (λ e. absurd (cc e)),
)

step-IsAccounted : (s : ℕ × Outcome) (r : Run) → GoesOn s → IsAccounted r → IsAccounted (step s r)
unfolding step
step-IsAccounted (w, goes_on is_ok latency) r good h =
    worker_step-IsAccounted w (phase_of w r.workers) is_ok latency r refl h
step-IsAccounted (w, throws) r good h = absurd good

run-IsAccounted :
    (steps : List (ℕ × Outcome)) (r : Run)
    → All GoesOn steps
    → IsAccounted r
    → IsAccounted (run steps r)
run-IsAccounted [] r good h = h
run-IsAccounted (s ∷ steps) r (good, goods) h =
    run-IsAccounted steps (step s r) goods (step-IsAccounted s r good h)

pub count-repeat : (f : Phase → ℕ) (n : ℕ) (p : Phase) → f p ≡ 0 → count f (repeat n p) ≡ 0
count-repeat f zero p e = refl
count-repeat f (suc n) p e = omega (arith, e, count-repeat f n p e)

http_start-IsAccounted : (concurrency requests : ℕ) → IsAccounted (http_start concurrency requests)
unfolding http_start
http_start-IsAccounted concurrency requests =
    let idle = count-repeat asks concurrency fetching refl in
    let inside = count-repeat left concurrency fetching refl in (ground (arith, idle), inl inside)

abbrev AllFinished : List Phase → Type 0
AllFinished = All (λ p. p ≡ finished)

finished-count :
    (ws : List Phase) → AllFinished ws → (count asks ws ≡ 0) × (count left ws ≡ length ws)
finished-count [] h = (refl, refl)
finished-count (p ∷ ws) (e, h) =
    let (idle, out) = finished-count ws h in (rw (e, idle) (omega arith), rw (e, out) (omega arith))

length-set_at : (w : ℕ) (p : Phase) (ws : List Phase) → length (set_at w p ws) ≡ length ws
length-set_at w p [] = refl
length-set_at zero p (q ∷ ws) = refl
length-set_at (suc w) p (q ∷ ws) = rw (length-set_at w p ws) refl

pub length-repeat : (n : ℕ) (p : Phase) → length (repeat n p) ≡ n
length-repeat zero p = refl
length-repeat (suc n) p = rw (length-repeat n p) refl

-- The number of requests and of workers stays.
abbrev IsSameSize : Run → Run → Type 0
IsSameSize r r' = (r'.requests ≡ r.requests) × (length r'.workers ≡ length r.workers)

worker_step-IsSameSize :
    (w : ℕ) (p : Phase) (outcome : Outcome) (r : Run) → IsSameSize r (worker_step w p outcome r)
unfolding worker_step
worker_step-IsSameSize w finished outcome r = (refl, refl)
worker_step-IsSameSize w fetching outcome r =
    (refl, length-set_at w (if ltb r.index r.requests then asking r.index else closing) r.workers)
worker_step-IsSameSize w connecting (goes_on is_ok latency) r =
    (refl, length-set_at w fetching r.workers)
worker_step-IsSameSize w closing (goes_on is_ok latency) r =
    (refl, length-set_at w finished r.workers)
worker_step-IsSameSize w (asking req_id) (goes_on is_ok latency) r =
    (refl, length-set_at w fetching r.workers)
worker_step-IsSameSize w connecting throws r = (refl, length-set_at w finished r.workers)
worker_step-IsSameSize w closing throws r = (refl, length-set_at w finished r.workers)
worker_step-IsSameSize w (asking req_id) throws r = (refl, length-set_at w finished r.workers)

pub run-IsSameSize : (steps : List (ℕ × Outcome)) (r : Run) → IsSameSize r (run steps r)
unfolding step
run-IsSameSize [] r = (refl, refl)
run-IsSameSize ((w, outcome) ∷ steps) r =
    let (requests, workers) = worker_step-IsSameSize w (phase_of w r.workers) outcome r in
    let (requests', workers') = run-IsSameSize steps (step (w, outcome) r) in
    (requests' ∙ requests, workers' ∙ workers)

-- Every request of the HTTP mode is counted once, as a success or as an error: with at least one
-- worker, in whatever order the workers make their steps and where none of them raises, when all have
-- ended the two counters add up to the number of requests.
pub requests_counted :
    (steps : List (ℕ × Outcome)) (concurrency requests : ℕ)
    → 1 ≤ concurrency
    → All GoesOn steps
    → AllFinished (run steps (http_start concurrency requests)).workers
    → (run steps (http_start concurrency requests)).success
        + (run steps (http_start concurrency requests)).errors
      ≡ requests
unfolding http_start
requests_counted steps concurrency requests some_worker good end =
    let start = http_start concurrency requests in
    let (sum, over) =
      run-IsAccounted steps start good (http_start-IsAccounted concurrency requests) in
    let (same, size) = run-IsSameSize steps start in
    let (idle, out) = finished-count (run steps start).workers end in
    ground
      (arith, sum, over, same, size, idle, out, some_worker, length-repeat concurrency fetching)
