-- ===== src/Governance/Breaker/Trip.antt =====
-- What an open breaker lets through.
use kd.Base.{
  ℕ, ◌+◌, ◌≤◌, ◌<◌, ◌≡◌, refl, inl, inr, leb, Bool-cases, Bool, false, List, [], ◌∷◌, arith, All,
}
use kd.Governance.Breaker.{
  Breaker, open_state, half_open, Call, asks, failed, succeeded, step, run, allow_request,
  record_failure,
}

-- The answers that the requests of a history get.
abbrev pub answers : Breaker → List Call → List Bool
answers b [] = []
answers b (asks now ∷ cs) = (allow_request b now).1 ∷ answers (step b (asks now)) cs
answers b (failed now ∷ cs) = answers (step b (failed now)) cs
answers b (succeeded ∷ cs) = answers (step b succeeded) cs

-- No success, no failure recorded before `opened`, and no request at `limit` or later.
abbrev pub IsQuiet : ℕ → ℕ → List Call → Type 0
IsQuiet opened limit [] = Unit {0}
IsQuiet opened limit (asks now ∷ cs) = (now < limit) × IsQuiet opened limit cs
IsQuiet opened limit (failed now ∷ cs) = (opened ≤ now) × IsQuiet opened limit cs
IsQuiet opened limit (succeeded ∷ cs) = ⊥

abbrev pub AllRejected : List Bool → Type 0
AllRejected = All (λ a. a ≡ false)

-- Until the cool-down of the first opening is over, an open breaker that hears of no success stays
-- open and rejects every request, also when late failures of calls under way are recorded, at any
-- times from that opening on.
pub open_rejects :
    (b : Breaker) (opened : ℕ) (cs : List Call)
    → b.state ≡ open_state
    → opened ≤ b.opened_at
    → IsQuiet opened (opened + b.cool_down) cs
    → AllRejected (answers b cs) × ((run b cs).state ≡ open_state)
unfolding run step allow_request record_failure
open_rejects b opened [] s o q = (tt, s)
open_rejects b opened (asks now ∷ cs) s o (early, q) =
    let stays : step b (asks now) ≡ b = ground arith in
    let (rest, final) = open_rejects b opened cs s o q in
    ((ground arith, rw stays rest), rw (run, stays) final)
open_rejects b opened (failed now ∷ cs) s o (late, q) =
    open_rejects (step b (failed now)) opened cs (ground arith) (ground arith) (ground (arith, q))
open_rejects b opened (succeeded ∷ cs) s o q = absurd q

-- The requests of a caller that reports no outcome.
abbrev pub requests : List ℕ → List Call
requests [] = []
requests (now ∷ times) = asks now ∷ requests times

-- Times in order, from `start` on.
abbrev IsFrom : ℕ → List ℕ → Type 0
IsFrom start [] = Unit {0}
IsFrom start (now ∷ times) = (start ≤ now) × IsFrom now times

-- Which of the times are `limit` or later.
abbrev reached : ℕ → List ℕ → List Bool
reached limit [] = []
reached limit (now ∷ times) = leb limit now ∷ reached limit times

half_open_admits :
    (b : Breaker) (limit start : ℕ) (times : List ℕ)
    → b.state ≡ half_open
    → limit ≤ start
    → IsFrom start times
    → answers b (requests times) ≡ reached limit times
unfolding step allow_request
half_open_admits b limit start [] h late from = refl
half_open_admits b limit start (now ∷ times) h late (later, from) =
    let same : step b (asks now) ≡ b = ground arith in
    let rest = half_open_admits b limit now times h (omega arith) from in
    rw same (ground (arith, rest))

-- Of requests in the order of time, an open breaker that hears of no outcome admits exactly those
-- from the end of its cool-down on, every one of them: there is no limit on how many calls probe the
-- service at once.
pub open_answers :
    (b : Breaker) (start : ℕ) (times : List ℕ)
    → b.state ≡ open_state
    → IsFrom start times
    → answers b (requests times) ≡ reached (b.opened_at + b.cool_down) times
unfolding step allow_request
open_answers b start [] s from = refl
open_answers b start (now ∷ times) s (later, from) =
    elim (Bool-cases (leb (b.opened_at + b.cool_down) now)) [
      | inl over ↦
          let half : step b (asks now) ≡ record b { state = half_open } = ground arith in
          rw half (
            ground (
              arith,
              half_open_admits (record b { state = half_open }) (b.opened_at + b.cool_down) now
                  times refl (ground arith) from,
            ))
      | inr early ↦
          let same : step b (asks now) ≡ b = ground arith in
          rw same (ground (arith, open_answers b now times s from))
    ]
