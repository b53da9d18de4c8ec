-- ===== src/Application/Shutdown.antt =====
-- How an application comes to its end.
use mathlib.Core.List.{reverse-append}
use kd.Base.{
  ℕ, zero, suc, ◌+◌, ◌≡◌, refl, sym, ◌∙◌, ap, ◌⊎◌, inl, inr, false, List, [], ◌∷◌, ◌++◌, reverse,
  length, arith, subst, Bool-cases, length-append, append_assoc, append_nil,
}
use kd.Application.{
  add_all, Phase, testing, about_to_block, blocked, stopped, running_hooks, Application,
  new_application, advance, notified, signal_handler, Event, main_thread, signal, spurious_wake,
  step, run, main_steps,
}

-- The hooks that are still to run, with those that ran, are all hooks, the last added first.
abbrev IsOrderly : Phase → Application → Type 0
IsOrderly testing s = s.executed ≡ []
IsOrderly about_to_block s = s.executed ≡ []
IsOrderly blocked s = s.executed ≡ []
IsOrderly (running_hooks left) s =
    (s.g_running ≡ false) × (s.executed ++ left ≡ reverse s.shutdown_hooks)
IsOrderly stopped s = (s.g_running ≡ false) × (s.executed ≡ reverse s.shutdown_hooks)

advance-IsOrderly :
    (p : Phase) (s : Application)
    → s.phase ≡ p
    → IsOrderly p s
    → IsOrderly (advance p s).phase (advance p s)
unfolding advance
advance-IsOrderly testing s at_p h = elim (Bool-cases s.g_running) [
  | inl on ↦ rw on h
  | inr off ↦ rw off (refl, rw h refl)
]
advance-IsOrderly about_to_block s at_p h = h
advance-IsOrderly blocked s at_p h = subst (λ q. IsOrderly q s) (sym at_p) h
advance-IsOrderly (running_hooks []) s at_p (off, e) = (off, sym (append_nil s.executed) ∙ e)
advance-IsOrderly (running_hooks (hook ∷ left)) s at_p (off, e) =
    (off, append_assoc s.executed (hook ∷ []) left ∙ e)
advance-IsOrderly stopped s at_p h = subst (λ q. IsOrderly q s) (sym at_p) h

signal_handler-IsOrderly :
    (p : Phase) (s : Application)
    → IsOrderly p s
    → IsOrderly (notified p) (record s { g_running = false; phase = notified p })
signal_handler-IsOrderly testing s h = h
signal_handler-IsOrderly about_to_block s h = h
signal_handler-IsOrderly blocked s h = h
signal_handler-IsOrderly (running_hooks left) s (off, e) = (refl, e)
signal_handler-IsOrderly stopped s (off, e) = (refl, e)

spurious_wake-IsOrderly :
    (p : Phase) (s : Application)
    → IsOrderly p s
    → IsOrderly (notified p) (record s { phase = notified p })
spurious_wake-IsOrderly testing s h = h
spurious_wake-IsOrderly about_to_block s h = h
spurious_wake-IsOrderly blocked s h = h
spurious_wake-IsOrderly (running_hooks left) s h = h
spurious_wake-IsOrderly stopped s h = h

step-IsOrderly :
    (e : Event) (s : Application) → IsOrderly s.phase s → IsOrderly (step e s).phase (step e s)
unfolding step signal_handler
step-IsOrderly main_thread s h = advance-IsOrderly s.phase s refl h
step-IsOrderly signal s h = signal_handler-IsOrderly s.phase s h
step-IsOrderly spurious_wake s h = spurious_wake-IsOrderly s.phase s h

run-IsOrderly :
    (es : List Event) (s : Application)
    → IsOrderly s.phase s
    → IsOrderly (run es s).phase (run es s)
run-IsOrderly [] s h = h
run-IsOrderly (e ∷ es) s h = run-IsOrderly es (step e s) (step-IsOrderly e s h)

advance-shutdown_hooks :
    (p : Phase) (s : Application) → (advance p s).shutdown_hooks ≡ s.shutdown_hooks
unfolding advance
advance-shutdown_hooks testing s = refl
advance-shutdown_hooks about_to_block s = refl
advance-shutdown_hooks blocked s = refl
advance-shutdown_hooks (running_hooks []) s = refl
advance-shutdown_hooks (running_hooks (hook ∷ left)) s = refl
advance-shutdown_hooks stopped s = refl

step-shutdown_hooks : (e : Event) (s : Application) → (step e s).shutdown_hooks ≡ s.shutdown_hooks
unfolding step signal_handler
step-shutdown_hooks main_thread s = advance-shutdown_hooks s.phase s
step-shutdown_hooks signal s = refl
step-shutdown_hooks spurious_wake s = refl

run-shutdown_hooks :
    (es : List Event) (s : Application) → (run es s).shutdown_hooks ≡ s.shutdown_hooks
run-shutdown_hooks [] s = refl
run-shutdown_hooks (e ∷ es) s = run-shutdown_hooks es (step e s) ∙ step-shutdown_hooks e s

add_all-append : (added hooks : List ℕ) → add_all added hooks ≡ hooks ++ added
unfolding add_all
add_all-append [] hooks = sym (append_nil hooks)
add_all-append (hook ∷ more) hooks =
    add_all-append more (hooks ++ hook ∷ []) ∙ append_assoc hooks (hook ∷ []) more

-- An application that has stopped had a signal, and has run every hook that was added once, the last added first,
-- whatever signals and wake-ups came when.
pub stopped_orderly :
    (es : List Event) (hooks : List ℕ)
    → (run es (new_application hooks)).phase ≡ stopped
    → ((run es (new_application hooks)).g_running ≡ false)
      × ((run es (new_application hooks)).executed ≡ reverse hooks)
unfolding new_application
stopped_orderly es hooks end =
    let (off, ran) =
      subst (λ p. IsOrderly p (run es (new_application hooks))) end
        (run-IsOrderly es (new_application hooks) refl) in
    (
      off,
      ran ∙ ap reverse (run-shutdown_hooks es (new_application hooks) ∙ add_all-append hooks []),
    )

-- The hooks, one move each.
run_hooks :
    (left : List ℕ) (s : Application)
    → s.phase ≡ running_hooks left
    → ((run (main_steps (suc (length left))) s).phase ≡ stopped)
      × ((run (main_steps (suc (length left))) s).executed ≡ s.executed ++ left)
unfolding step advance
run_hooks [] s e = rw e (refl, sym (append_nil s.executed))
run_hooks (hook ∷ left) s e =
    let s' : Application = record s {
      phase = running_hooks left;
      executed = s.executed ++ hook ∷ [];
    } in
    let (end, ran) = run_hooks left s' refl in
    rw e (end, ran ∙ append_assoc s.executed (hook ∷ []) left)

length-reverse : (xs : List ℕ) → length (reverse xs) ≡ length xs
length-reverse [] = refl
length-reverse (x ∷ xs) =
    rw (reverse-append (x ∷ []) xs)
      (omega (arith, length-append (reverse xs) (x ∷ []), length-reverse xs))

from_testing :
    (s : Application)
    → s.phase ≡ testing
    → s.g_running ≡ false
    → ((run (main_steps (length s.shutdown_hooks + 2)) s).phase ≡ stopped)
      × ((run (main_steps (length s.shutdown_hooks + 2)) s).executed
          ≡ s.executed ++ reverse s.shutdown_hooks)
unfolding step advance
from_testing s e off =
    let s' : Application = record s {
      g_running = false;
      phase = running_hooks (reverse s.shutdown_hooks);
    } in
    let moves : length s.shutdown_hooks + 2 ≡ suc (suc (length (reverse s.shutdown_hooks))) =
      omega (arith, length-reverse s.shutdown_hooks) in
    rw moves (rw (e, off) (run_hooks (reverse s.shutdown_hooks) s' refl))

-- A signal that comes while the main thread tests its predicate or is blocked ends the application:
-- after two moves and one for each hook the main thread has stopped, all hooks having run.
pub signal_stops :
    (s : Application)
    → (s.phase ≡ blocked) ⊎ (s.phase ≡ testing)
    → ((run (signal ∷ main_steps (length s.shutdown_hooks + 2)) s).phase ≡ stopped)
      × ((run (signal ∷ main_steps (length s.shutdown_hooks + 2)) s).executed
          ≡ s.executed ++ reverse s.shutdown_hooks)
unfolding step signal_handler
signal_stops s (inl e) =
    from_testing (record s { g_running = false; phase = notified s.phase }) (rw e refl) refl
signal_stops s (inr e) =
    from_testing (record s { g_running = false; phase = notified s.phase }) (rw e refl) refl

stays_blocked : (n : ℕ) (s : Application) → s.phase ≡ blocked → run (main_steps n) s ≡ s
unfolding step advance
stays_blocked zero s e = refl
stays_blocked (suc n) s e =
    let same : step main_thread s ≡ s = rw e refl in
    ap (run (main_steps n)) same ∙ stays_blocked n s e

-- A signal that comes when the main thread has tested its predicate and has not blocked yet is lost:
-- the thread blocks with `g_running` false and runs no hook, however many moves it is given.
pub signal_lost :
    (n : ℕ) (s : Application)
    → s.phase ≡ about_to_block
    → run (signal ∷ main_steps (suc n)) s ≡ record s { g_running = false; phase = blocked }
unfolding step signal_handler advance
signal_lost n s e =
    let s' : Application = record s { g_running = false; phase = blocked } in
    let moved : step main_thread (step signal s) ≡ s' = rw e refl in
    ap (run (main_steps n)) moved ∙ stays_blocked n s' refl
