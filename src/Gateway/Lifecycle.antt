-- ===== src/Gateway/Lifecycle.antt =====
-- The start, the stop and the accept loop of HttpServer in gateways/access_gateway/http/http_server.cpp.
-- Threads, contexts and guards are counted. What the operating system answers to the bind and to each
-- accept is an argument. A method runs to its end before another one starts. `dangling` says that a
-- context was destroyed while its work guard was still there, and used when the guard was destroyed:
-- the behaviour of the program is undefined from then on, and the other fields say nothing.
pub mod Threads
pub mod Balance
use kd.Base.{
  ℕ, zero, suc, ◌+◌, ◌%◌, ◌^◌, Bool, true, false, ◌||◌, Option, none, some, List, [], ◌∷◌, Text,
  if◌then◌else◌, ◌==◌, ℤ, pos, max_ℤ, pos_part, Result, ok, raised,
}
use kd.Base.Exec.{Exec}

pub record Lifecycle : Type 0 where
  pub port : ℕ
  pub io_threads : ℤ
  pub running : Bool
  pub acceptor : Bool
  pub accept_io_context : Bool
  pub accept_work_guard : Bool
  pub accept_thread : Bool
  pub worker_io_contexts : ℕ
  pub worker_work_guards : ℕ
  pub worker_threads : ℕ
  pub next_worker_index : ℕ
  pub dangling : Bool

-- The constructor
unfoldable pub new_server : (port : ℕ) (io_threads : ℤ) → Lifecycle
new_server port io_threads = record {
  port = port;
  io_threads = io_threads;
  running = false;
  acceptor = false;
  accept_io_context = false;
  accept_work_guard = false;
  accept_thread = false;
  worker_io_contexts = 0;
  worker_work_guards = 0;
  worker_threads = 0;
  next_worker_index = 0;
  dangling = false;
}

-- `std::max(1, runtime_options_.io_threads)`
abbrev pub io_thread_count : ℤ → ℕ
io_thread_count io_threads = pos_part (max_ℤ (pos 1) io_threads)

-- The body of the `try`: the address is no address, a later call fails, or the port is bound.
pub data Bind : Type 0 where
  bad_address failed : (what : Text) → Bind
  bound : (port : ℕ) → Bind

unfoldable pub bind_and_run : Bind → Exec Lifecycle (Unit {0})
bind_and_run (bad_address what) s = (raised what, record s { running = false })
bind_and_run (failed what) s = (raised what, record s { running = false; acceptor = true })
bind_and_run (bound port) s = (
  ok tt,
  record s {
    port = port;
    acceptor = true;
    accept_thread = true;
    worker_threads = io_thread_count s.io_threads;
  },
)

-- Start. The new accepting context replaces the old one before the new guard replaces the old one.
unfoldable pub start : Bind → Exec Lifecycle (Unit {0})
unfolding bind_and_run
start answer s =
    if s.running
    then (ok tt, s)
    else bind_and_run answer (record s {
      running = true;
      accept_io_context = true;
      accept_work_guard = true;
      worker_io_contexts = io_thread_count s.io_threads;
      worker_work_guards = io_thread_count s.io_threads;
      next_worker_index = 0;
      dangling = s.dangling || s.accept_work_guard;
    })

-- Stop, and the destructor
unfoldable pub stop : Lifecycle → Lifecycle
stop s =
    if s.running
    then record s {
      running = false;
      acceptor = false;
      accept_io_context = false;
      accept_work_guard = false;
      accept_thread = false;
      worker_io_contexts = 0;
      worker_work_guards = 0;
      worker_threads = 0;
    }
    else s

-- What an accept gives: an error, a socket that cannot be moved to its worker, or one that can.
pub data Arrival : Type 0 where
  accept_error unmovable movable : Arrival

pub record AcceptRound : Type 0 where
  pub running : Bool
  pub arrival : Arrival

-- A new connection: the worker that gets its session, if one does. The index is taken first.
unfoldable pub hand_over : (is_movable : Bool) → Lifecycle → Option ℕ × Lifecycle
hand_over is_movable s = if s.worker_io_contexts == 0 then (none, s) else (
  (if is_movable then some (s.next_worker_index % s.worker_io_contexts) else none),
  record s { next_worker_index = (s.next_worker_index + 1) % 2 ^ 64 },
)

unfoldable pub accept_one : Arrival → Lifecycle → Option ℕ × Lifecycle
unfolding hand_over
accept_one accept_error s = (none, s)
accept_one unmovable s = hand_over false s
accept_one movable s = hand_over true s

abbrev spawned : Option ℕ → List ℕ → List ℕ
spawned none rest = rest
spawned (some worker) rest = worker ∷ rest

-- AcceptLoop: the workers of the sessions that it spawned, in order. It ends when `running_` is
-- false; the list of rounds ends where the loop is looked at.
unfoldable pub accept_loop : List AcceptRound → Lifecycle → List ℕ × Lifecycle
unfolding accept_one
accept_loop [] s = ([], s)
accept_loop (r ∷ rest) s =
    let accepted = accept_one r.arrival s in
    let later = accept_loop rest accepted.1 in
    if r.running then (spawned accepted.0 later.0, later.1) else ([], s)
