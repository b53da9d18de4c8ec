-- ===== src/Application.antt =====
-- framework/app/application.cpp: the shutdown hooks, the wait for a signal and the two globals. A hook
-- is a number. The main thread and the signals are interleaved: `step` makes one move of either.
pub mod Shutdown
use kd.Base.{ℕ, zero, suc, Bool, true, false, List, [], ◌∷◌, ◌++◌, reverse, if◌then◌else◌}

-- Where the main thread stands in Run. The predicate of `g_cv.wait` is tested under `g_mu`, which the
-- signal handler does not take; a thread that has seen it false blocks in a later move.
pub data Phase : Type 0 where
  testing about_to_block blocked stopped : Phase
  running_hooks : (left : List ℕ) → Phase

pub record Application : Type 0 where
  pub shutdown_hooks : List ℕ
  pub g_running : Bool
  pub phase : Phase
  pub executed : List ℕ

-- AddShutdownHook
unfoldable add_shutdown_hook : ℕ → List ℕ → List ℕ
add_shutdown_hook hook hooks = hooks ++ hook ∷ []

-- The hooks that main adds before Run, one after the other.
unfoldable pub add_all : List ℕ → List ℕ → List ℕ
unfolding add_shutdown_hook
add_all [] hooks = hooks
add_all (hook ∷ more) hooks = add_all more (add_shutdown_hook hook hooks)

-- A process that has added its hooks and called Run, its handlers being installed.
unfoldable pub new_application : List ℕ → Application
unfolding add_all
new_application added = record {
  shutdown_hooks = add_all added [];
  g_running = true;
  phase = testing;
  executed = [];
}

-- The next move of the main thread: the predicate, the wait, the loop from `rbegin` to `rend`.
unfoldable pub advance : Phase → Application → Application
advance testing s = record s {
  phase = if s.g_running then about_to_block else running_hooks (reverse s.shutdown_hooks);
}
advance about_to_block s = record s { phase = blocked }
advance blocked s = s
advance (running_hooks []) s = record s { phase = stopped }
advance (running_hooks (hook ∷ left)) s = record s {
  phase = running_hooks left;
  executed = s.executed ++ hook ∷ [];
}
advance stopped s = s

-- `g_cv.notify_all()`
abbrev pub notified : Phase → Phase
notified blocked = testing
notified testing = testing
notified about_to_block = about_to_block
notified (running_hooks left) = running_hooks left
notified stopped = stopped

-- SignalHandler
unfoldable pub signal_handler : Application → Application
signal_handler s = record s { g_running = false; phase = notified s.phase }

-- A move of the main thread, a signal, or a wake-up for no reason, which C++ allows.
pub data Event : Type 0 where
  main_thread signal spurious_wake : Event

unfoldable pub step : Event → Application → Application
unfolding advance signal_handler
step main_thread s = advance s.phase s
step signal s = signal_handler s
step spurious_wake s = record s { phase = notified s.phase }

abbrev pub run : List Event → Application → Application
run [] s = s
run (e ∷ es) s = run es (step e s)

abbrev pub main_steps : ℕ → List Event
main_steps zero = []
main_steps (suc n) = main_thread ∷ main_steps n
