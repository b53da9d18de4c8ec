-- ===== src/Gateway/Lifecycle/Threads.antt =====
-- Starting and stopping in any order: the positions of the server, and its threads in each.
use kd.Base.{ℕ, ◌≡◌, refl, ◌∙◌, inl, inr, true, false, ◌||◌, Bool-cases, List, [], ◌∷◌, ℤ, arith}
use kd.Gateway.Lifecycle.{
  Lifecycle, Bind, bad_address, failed, bound, new_server, io_thread_count, start, bind_and_run,
  stop,
}

pub data Call : Type 0 where
  starting : Bind → Call
  stopping : Call

abbrev perform : Call → Lifecycle → Lifecycle
perform (starting answer) s = (start answer s).1
perform stopping s = stop s

abbrev pub perform_all : List Call → Lifecycle → Lifecycle
perform_all [] s = s
perform_all (call ∷ calls) s = perform_all calls (perform call s)

-- Off, on, off with what a failed start left behind, or undefined.
pub data Position : Type 0 where
  off on left_over undefined : Position

-- From off, a start that is bound turns the server on, and one that fails leaves its contexts and
-- guards behind. From there every further start is undefined behaviour.
abbrev started : Bind → Position
started (bound port) = on
started (bad_address what) = left_over
started (failed what) = left_over

abbrev turned : Call → Position → Position
turned (starting answer) off = started answer
turned (starting answer) on = on
turned (starting answer) left_over = undefined
turned (starting answer) undefined = undefined
turned stopping off = off
turned stopping on = off
turned stopping left_over = left_over
turned stopping undefined = undefined

abbrev pub position_after : List Call → Position → Position
position_after [] position = position
position_after (call ∷ calls) position = position_after calls (turned call position)

-- No thread, and the program is defined.
pub record IsIdle (s : Lifecycle) : Type 0 where
  pub stopped : s.running ≡ false
  pub not_accepting : s.accept_thread ≡ false
  pub not_working : s.worker_threads ≡ 0
  pub defined : s.dangling ≡ false

pub record IsServing (s : Lifecycle) : Type 0 where
  pub runs : s.running ≡ true
  pub accepting : s.accept_thread ≡ true
  pub has_acceptor : s.acceptor ≡ true
  pub working : s.worker_threads ≡ io_thread_count s.io_threads
  pub contexts : s.worker_io_contexts ≡ io_thread_count s.io_threads
  pub defined : s.dangling ≡ false

-- What holds between calls in a position.
abbrev pub IsAt : Position → Lifecycle → Type 0
IsAt off s =
    IsIdle s
    × (s.accept_io_context ≡ false)
    × (s.accept_work_guard ≡ false)
    × (s.worker_io_contexts ≡ 0)
IsAt on s = IsServing s
IsAt left_over s = IsIdle s × (s.accept_work_guard ≡ true)
IsAt undefined s = s.dangling ≡ true

again : (answer : Bind) (s : Lifecycle) → s.running ≡ true → (start answer s).1 ≡ s
unfolding start
again answer s runs = ground arith

first-IsAt :
    (answer : Bind) (s : Lifecycle)
    → IsAt off s
    → IsAt (turned (starting answer) off) (start answer s).1
unfolding start bind_and_run
first-IsAt (bad_address what) s (idle, no_context, no_guard, no_workers) = ground arith
first-IsAt (failed what) s (idle, no_context, no_guard, no_workers) = ground arith
first-IsAt (bound port) s (idle, no_context, no_guard, no_workers) = ground arith

-- Nothing takes the flag back.
start-dangling :
    (answer : Bind) (s : Lifecycle)
    → s.running ≡ false
    → (start answer s).1.dangling ≡ (s.dangling || s.accept_work_guard)
unfolding start bind_and_run
start-dangling (bad_address what) s h = rw h refl
start-dangling (failed what) s h = rw h refl
start-dangling (bound port) s h = rw h refl

start-undefined :
    (answer : Bind) (s : Lifecycle) → s.dangling ≡ true → (start answer s).1.dangling ≡ true
start-undefined answer s h = elim (Bool-cases s.running) [
  | inl runs ↦ rw (again answer s runs) h
  | inr stopped ↦ rw (start-dangling answer s stopped, h) refl
]

start-IsAt :
    (answer : Bind) (position : Position) (s : Lifecycle)
    → IsAt position s
    → IsAt (turned (starting answer) position) (start answer s).1
start-IsAt answer off s h = first-IsAt answer s h
start-IsAt answer on s h = rw (again answer s h.runs) h
start-IsAt answer left_over s (idle, guard) =
    rw (start-dangling answer s idle.stopped, idle.defined, guard) refl
start-IsAt answer undefined s h = start-undefined answer s h

stop-IsAt :
    (position : Position) (s : Lifecycle)
    → IsAt position s
    → IsAt (turned stopping position) (stop s)
unfolding stop
stop-IsAt off s h = ground arith
stop-IsAt on s h = ground arith
stop-IsAt left_over s h = ground arith
stop-IsAt undefined s h = ground arith

perform-IsAt :
    (call : Call) (position : Position) (s : Lifecycle)
    → IsAt position s
    → IsAt (turned call position) (perform call s)
perform-IsAt (starting answer) position s h = start-IsAt answer position s h
perform-IsAt stopping position s h = stop-IsAt position s h

perform_all-IsAt :
    (calls : List Call) (position : Position) (s : Lifecycle)
    → IsAt position s
    → IsAt (position_after calls position) (perform_all calls s)
perform_all-IsAt [] position s h = h
perform_all-IsAt (call ∷ calls) position s h =
    perform_all-IsAt calls (turned call position) (perform call s) (perform-IsAt call position s h)

new_server-IsAt : (port : ℕ) (io_threads : ℤ) → IsAt off (new_server port io_threads)
unfolding new_server
new_server-IsAt port io_threads = ground arith

perform-io_threads : (call : Call) (s : Lifecycle) → (perform call s).io_threads ≡ s.io_threads
unfolding start bind_and_run stop
perform-io_threads (starting (bad_address what)) s = ground arith
perform-io_threads (starting (failed what)) s = ground arith
perform-io_threads (starting (bound port)) s = ground arith
perform-io_threads stopping s = ground arith

perform_all-io_threads :
    (calls : List Call) (s : Lifecycle) → (perform_all calls s).io_threads ≡ s.io_threads
perform_all-io_threads [] s = refl
perform_all-io_threads (call ∷ calls) s =
    perform_all-io_threads calls (perform call s) ∙ perform-io_threads call s

pub start_stop_refines :
    (calls : List Call) (port : ℕ) (io_threads : ℤ)
    → IsAt (position_after calls off) (perform_all calls (new_server port io_threads))
      × ((perform_all calls (new_server port io_threads)).io_threads ≡ io_threads)
unfolding new_server
start_stop_refines calls port io_threads = (
  perform_all-IsAt calls off (new_server port io_threads) (new_server-IsAt port io_threads),
  perform_all-io_threads calls (new_server port io_threads),
)
