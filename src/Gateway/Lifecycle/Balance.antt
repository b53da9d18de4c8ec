-- ===== src/Gateway/Lifecycle/Balance.antt =====
-- How the accept loop spreads the sessions over the workers.
use native.Mathlib.Nat.{mul-add-mod_self_right, mod-eq_of_lt}
use kd.Base.{
  ℕ, ◌+◌, ◌*◌, ◌%◌, ◌^◌, ◌≤◌, ◌<◌, ◌≡◌, ◌≢◌, refl, ap, ◌∙◌, inl, inr, true, false, Bool-cases, some,
  List, [], ◌∷◌, All, length, if◌then◌else◌, ◌==◌, arith, ltb,
}
use kd.Gateway.Lifecycle.{
  Lifecycle, Arrival, accept_error, unmovable, movable, AcceptRound, accept_one, hand_over,
  accept_loop,
}

-- How many sessions a worker got.
abbrev pub load : ℕ → List ℕ → ℕ
load worker [] = 0
load worker (w ∷ sessions) = (if w == worker then 1 else 0) + load worker sessions

-- The load of a worker after `i` sessions, dealt in turn to `n` workers: `q` full turns and `r` more.
record Turn (n i : ℕ) : Type 0 where
  q : ℕ
  r : ℕ
  whole : q * n + r ≡ i
  part : r < n

Turn-mod : (n i : ℕ) (t : Turn n i) → i % n ≡ t.r
Turn-mod n i t =
    let e : (t.q * n + t.r) % n ≡ t.r % n = mul-add-mod_self_right t.q n t.r in
    let w : t.q * n + t.r ≡ i = t.whole in (rw w at e) ∙ mod-eq_of_lt t.part

abbrev share : {n i : ℕ} → Turn n i → ℕ → ℕ
share t worker = t.q + (if ltb worker t.r then 1 else 0)

advance :
    (n i : ℕ) (t : Turn n i)
    → (next : Turn n (i + 1)) × ((worker : ℕ)
        → worker < n
        → share next worker ≡ (if t.r == worker then 1 else 0) + share t worker)
advance n i t = elim (Bool-cases (ltb (t.r + 1) n)) [
  | inl within ↦ (
    record { q = t.q; r = t.r + 1; whole = omega (arith, t.whole); part = ground arith },
    λ worker h. ground arith,
  )
  | inr turned ↦
      let last : t.r + 1 ≡ n = ground (arith, t.part) in
      (
        record {
          q = t.q + 1;
          r = 0;
          whole =
              let e : (t.q + 1) * n + 0 ≡ t.q * n + n = grind arith in
              omega (arith, e, t.whole, last);
          part = omega (arith, last);
        },
        λ worker h. ground (arith, t.part, last),
      )
]

-- A round that neither stops the loop nor loses a socket on the way to its worker.
abbrev IsSmooth : AcceptRound → Type 0
IsSmooth round = (round.running ≡ true) × (round.arrival ≢ unmovable)

-- What the rest of the loop adds to the loads.
abbrev Dealt : (n i : ℕ) → Turn n i → List ℕ → Type 0
Dealt n i t sessions =
    (i' : ℕ) × (t' : Turn n i') × ((worker : ℕ)
      → worker < n
      → load worker sessions + share t worker ≡ share t' worker)

Dealt-next :
    (n i : ℕ) (t : Turn n i) (sessions : List ℕ)
    → Dealt n (i + 1) (advance n i t).0 sessions
    → Dealt n i t (i % n ∷ sessions)
Dealt-next n i t sessions (i', t', e) = (
  i',
  t',
  λ worker h. omega (
    arith,
    e worker h,
    (advance n i t).1 worker h,
    ap {B = ℕ} (λ r. if r == worker then 1 else 0) (Turn-mod n i t),
  ),
)

handed_over :
    (s : Lifecycle)
    → 0 < s.worker_io_contexts
    → s.next_worker_index + 1 < 2 ^ 64
    → accept_one movable s ≡ (
      some (s.next_worker_index % s.worker_io_contexts),
      record s { next_worker_index = s.next_worker_index + 1 },
    )
unfolding accept_one hand_over
handed_over s some_workers few =
    let e : (s.worker_io_contexts == 0) ≡ false = ground arith in
    let small : (s.next_worker_index + 1) % 2 ^ 64 ≡ s.next_worker_index + 1 = mod-eq_of_lt few in
    rw (e, small) refl

-- What is known of the loop on the given rounds, from any state.
abbrev DealsAll : List AcceptRound → Type 0
DealsAll rounds =
    (s : Lifecycle) (t : Turn s.worker_io_contexts s.next_worker_index)
    → 0 < s.worker_io_contexts
    → s.next_worker_index + length rounds < 2 ^ 64
    → Dealt s.worker_io_contexts s.next_worker_index t (accept_loop rounds s).0

round-DealsAll :
    (arrival : Arrival) (r : AcceptRound) (rest : List AcceptRound)
    → r.arrival ≡ arrival
    → IsSmooth r
    → DealsAll rest
    → DealsAll (r ∷ rest)
unfolding accept_loop
round-DealsAll unmovable r rest e (on, whole) later s t some_workers few = absurd (whole e)
round-DealsAll accept_error r rest e (on, whole) later s t some_workers few =
    rw (on, e) (unfold accept_one in (later s t some_workers (omega arith)))
round-DealsAll movable r rest e (on, whole) later s t some_workers few =
    let s' : Lifecycle = record s { next_worker_index = s.next_worker_index + 1 } in
    rw (on, e, handed_over s some_workers (omega arith))
      (Dealt-next s.worker_io_contexts s.next_worker_index t (accept_loop rest s').0 (
        later s' (advance s.worker_io_contexts s.next_worker_index t).0 some_workers (omega arith)))

accept_loop-DealsAll : (rounds : List AcceptRound) → All IsSmooth rounds → DealsAll rounds
unfolding accept_loop
accept_loop-DealsAll [] smooth s t some_workers few =
    (s.next_worker_index, t, λ worker h. omega arith)
accept_loop-DealsAll (r ∷ rest) (smooth, others) s t some_workers few =
    round-DealsAll r.arrival r rest refl smooth (accept_loop-DealsAll rest others) s t some_workers
      few

-- A started server deals the sessions out evenly: while it runs and no socket is lost on the way to
-- its worker, with any accept errors in between and fewer than 2⁶⁴ rounds, no worker ever has more
-- than one session more than another one got.
pub sessions_balanced :
    (rounds : List AcceptRound) (s : Lifecycle) (worker other : ℕ)
    → s.next_worker_index ≡ 0
    → All IsSmooth rounds
    → length rounds < 2 ^ 64
    → worker < s.worker_io_contexts
    → other < s.worker_io_contexts
    → load worker (accept_loop rounds s).0 ≤ load other (accept_loop rounds s).0 + 1
sessions_balanced rounds s worker other first smooth few h k =
    let t : Turn s.worker_io_contexts s.next_worker_index = record {
      q = 0;
      r = 0;
      whole = omega (arith, first);
      part = omega arith;
    } in
    let (i', t', dealt) =
      accept_loop-DealsAll rounds smooth s t (omega arith) (omega (arith, first)) in
    ground (arith, dealt worker h, dealt other k)
