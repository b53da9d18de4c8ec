-- ===== src/Gateway/Router/Workers.antt =====
-- The threads of GrpcRouter that run the gRPC context: DefaultGrpcThreadCount, StartGrpcWorkers and
-- StopGrpcWorkers. Threads are counted; `hardware_concurrency` is what the standard library answers.
use kd.Base.{
  ℕ, ◌/◌, ◌≤◌, ◌≡◌, refl, Bool, true, false, List, [], ◌∷◌, if◌then◌else◌, ◌==◌, ltb, arith,
}

-- `std::clamp`
abbrev clamp : (value low high : ℕ) → ℕ
clamp value low high = if ltb value low then low else if ltb high value then high else value

unfoldable default_grpc_thread_count : (hardware_concurrency : ℕ) → ℕ
default_grpc_thread_count hardware_concurrency =
    if hardware_concurrency == 0 then 2 else clamp (hardware_concurrency / 2) 1 4

-- `context_stopped`: the gRPC context has been told to stop and not been reset.
pub record Workers : Type 0 where
  pub grpc_thread_count : ℕ
  pub grpc_running : Bool
  pub grpc_threads : ℕ
  pub context_stopped : Bool

unfoldable start_grpc_workers : Workers → Workers
start_grpc_workers s =
    if s.grpc_running
    then s
    else record s { grpc_running = true; grpc_threads = s.grpc_thread_count }

-- A stopped context is taken to return from `run`, as agrpc documents it: then a thread finds
-- `grpc_running_` false, leaves its loop, and is joined.
unfoldable stop_grpc_workers : Workers → Workers
stop_grpc_workers s =
    if s.grpc_running
    then record s { grpc_running = false; grpc_threads = 0; context_stopped = false }
    else s

-- The constructor of GrpcRouter, and its destructor
unfoldable new_workers : (hardware_concurrency : ℕ) → Workers
unfolding default_grpc_thread_count start_grpc_workers
new_workers hardware_concurrency = start_grpc_workers (record {
  grpc_thread_count = default_grpc_thread_count hardware_concurrency;
  grpc_running = false;
  grpc_threads = 0;
  context_stopped = false;
})

pub data Call : Type 0 where
  starts stops : Call

unfoldable after_calls : List Call → Workers → Workers
unfolding start_grpc_workers stop_grpc_workers
after_calls [] s = s
after_calls (starts ∷ calls) s = after_calls calls (start_grpc_workers s)
after_calls (stops ∷ calls) s = after_calls calls (stop_grpc_workers s)

-- Running means that all threads run, and not running that none does.
abbrev IsWhole : Workers → Type 0
IsWhole s =
    (s.grpc_threads ≡ (if s.grpc_running then s.grpc_thread_count else 0))
    × (1 ≤ s.grpc_thread_count)
    × (s.grpc_thread_count ≤ 4)

start-IsWhole : (s : Workers) → IsWhole s → IsWhole (start_grpc_workers s)
unfolding start_grpc_workers
start-IsWhole s (whole, least, most) = ground arith

stop-IsWhole : (s : Workers) → IsWhole s → IsWhole (stop_grpc_workers s)
unfolding stop_grpc_workers
stop-IsWhole s (whole, least, most) = ground arith

after_calls-IsWhole : (calls : List Call) (s : Workers) → IsWhole s → IsWhole (after_calls calls s)
unfolding after_calls
after_calls-IsWhole [] s h = h
after_calls-IsWhole (starts ∷ calls) s h =
    after_calls-IsWhole calls (start_grpc_workers s) (start-IsWhole s h)
after_calls-IsWhole (stops ∷ calls) s h =
    after_calls-IsWhole calls (stop_grpc_workers s) (stop-IsWhole s h)

default_grpc_thread_count_bounds :
    (hardware_concurrency : ℕ)
    → (1 ≤ default_grpc_thread_count hardware_concurrency)
      × (default_grpc_thread_count hardware_concurrency ≤ 4)
unfolding default_grpc_thread_count
default_grpc_thread_count_bounds hardware_concurrency = ground arith

-- On any hardware a router has from 1 to 4 threads for gRPC, and after any starts and stops all of
-- them run or none does, as it is marked as running or not.
workers-IsWhole :
    (hardware_concurrency : ℕ) (calls : List Call)
    → IsWhole (after_calls calls (new_workers hardware_concurrency))
unfolding new_workers start_grpc_workers
workers-IsWhole hardware_concurrency calls =
    let (least, most) = default_grpc_thread_count_bounds hardware_concurrency in
    after_calls-IsWhole calls (new_workers hardware_concurrency) (refl, least, most)
