-- ===== src/Tests/Governing.antt =====
-- Examples of the governance of calls, the context and the logger.
use kd.Base.{
  ◌+◌, ◌*◌, ◌-◌, ◌≤◌, ◌<◌, ◌≡◌, ◌↔◌, refl, true, false, none, some, List, [], ◌∷◌, arith, Text, lit,
  sym, subst, str_eq, eq_of_str_eq, starts_with, ◌++◌, append_nil, ◌∙◌, Bool-cases, inl, inr,
}
use kd.Governance.Breaker
use kd.Governance.Breaker.{Breaker, closed, open_state, asks, failed, succeeded}
use kd.Governance.Breaker.Streak.{streak, closed_iff}
use kd.Governance.Breaker.Trip.{AllRejected, answers, requests, open_rejects, open_answers}
use kd.Governance.Limiter
use kd.Governance.Limiter.{Limiter, allow_all, scale}
use kd.Governance.Limiter.Admission.{admitted_bound, paced_all_admitted}
use kd.Context.{RequestContext, no_context}
use kd.Context.Store.{Block, scoped, sets, clears, done, then_do, get_current}
use kd.Context.Metadata.{Metadata, client_intercept, server_intercept}
use kd.Context.Metadata.Transported.{IsTransport, delivered, values-append, context_propagates}
use kd.Log.{LoggerOptions, LogState, default_options}

abbrev history : List Breaker.Call
history = failed 1 ∷ succeeded ∷ failed 5 ∷ asks 6 ∷ []

closed_iff_example :
    ((Breaker.run (Breaker.init 2 10) history).state ≡ closed) ↔ (streak 0 history < 2)
closed_iff_example = closed_iff 2 10 history (omega arith)

abbrev tripped : Breaker
tripped = record {
  state = open_state;
  failure_threshold = 2;
  failure_count = 2;
  cool_down = 10;
  opened_at = 5;
}

abbrev late_calls : List Breaker.Call
late_calls = asks 6 ∷ failed 7 ∷ asks 14 ∷ []

open_rejects_example :
    AllRejected (answers tripped late_calls) × ((Breaker.run tripped late_calls).state ≡ open_state)
open_rejects_example =
    open_rejects tripped 5 late_calls refl (omega arith)
      (omega arith, (omega arith, (omega arith, tt)))

open_answers_example :
    answers tripped (requests (14 ∷ 15 ∷ 15 ∷ 20 ∷ [])) ≡ false ∷ true ∷ true ∷ true ∷ []
open_answers_example =
    open_answers tripped 6 (14 ∷ 15 ∷ 15 ∷ 20 ∷ []) refl
      (omega arith, (omega arith, (omega arith, (omega arith, tt))))

admitted_bound_example :
    (allow_all (Limiter.init 2 1 0) (100 ∷ 200 ∷ [])).1 * scale ≤ 1 * scale + (300 - 0) * 2
admitted_bound_example =
    admitted_bound 2 1 0 300 (100 ∷ 200 ∷ []) (omega arith, (omega arith, omega arith))

abbrev bucket : Limiter
bucket = record { tokens = 0; rate_per_second = 2; burst_capacity = 1; last_refill = 0 }

paced_all_admitted_example : (allow_all bucket (500_000_000 ∷ 1_000_000_000 ∷ [])).1 ≡ 2
paced_all_admitted_example =
    paced_all_admitted bucket (500_000_000 ∷ 1_000_000_000 ∷ []) (omega arith)
      (omega arith, (omega arith, tt))

abbrev alice : RequestContext
alice = record no_context { user_id = lit "alice"; request_id = lit "r1" }

abbrev nested : Block
nested = then_do (scoped no_context (then_do clears done)) (then_do (sets alice) done)

abbrev sent : List (Text × Text)
sent = (lit "accept-language", lit "a b") ∷ []

-- A transport that adds an entry of its own.
abbrev tagging : Metadata → Metadata
tagging es = es ++ (lit "user-agent", lit "grpc-c++") ∷ []

own_key :
    (key : Text) → str_eq (lit "user-agent") key ≡ true → starts_with key (lit "x-") ≡ true → ⊥
unfolding starts_with lit
own_key key own application =
    let e : starts_with (lit "user-agent") (lit "x-") ≡ true =
      subst (λ k. starts_with k (lit "x-") ≡ true) (sym (eq_of_str_eq (lit "user-agent") key own))
        application in
    cc e

tagging-IsTransport : IsTransport tagging
unfolding str_eq starts_with lit
tagging-IsTransport = record {
  keeps = λ es sendable key application.
      values-append key es ((lit "user-agent", lit "grpc-c++") ∷ [])
      ∙ elim (Bool-cases (str_eq (lit "user-agent") key)) [
        | inl own ↦ absurd (own_key key own application)
        | inr other ↦ rw (other, append_nil) refl
      ];
}

context_propagates_example :
    let metadata = delivered tagging (client_intercept (some alice) (some sent)) in
    let serving = server_intercept true false metadata none in
    (serving ≡ some alice)
    × (get_current serving ≡ alice)
    × (server_intercept false true metadata serving ≡ none)
unfolding str_eq lit
context_propagates_example =
    context_propagates tagging alice sent none tagging-IsTransport
      ((refl, refl), (refl, refl), (refl, refl), (refl, refl), (refl, refl), (refl, refl))
      ((refl, (refl, refl)), tt) (refl, refl, refl, refl, refl, refl)

abbrev fresh_log : LogState
fresh_log = record {
  init_options = default_options;
  logger = none;
  conflict_warned = false;
  warnings = 0;
}

abbrev game_options : LoggerOptions
game_options = record default_options { service_name = lit "game" }
