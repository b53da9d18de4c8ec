-- ===== src/Tests/Messaging.antt =====
-- Examples of the message queue's consumer and of the benchmark.
use kd.Base.{ℕ, ◌+◌, ◌≡◌, refl, true, false, List, [], ◌∷◌, ◌++◌, Text, lit, str_eq, lookup, arith}
use kd.Mq.{Bus, Subscriptions}
use kd.Mq.Delivery.{waiting, of_topic}
use kd.Mq.Consumer.{work}
use kd.Mq.Consumer.Delivering.{to_topic, all_published, silent, delivered_once, delivered_all}
use kd.Bench.Workers.{Outcome, goes_on, http_start, worker_step, step, run}
use kd.Bench.Accounting.{requests_counted}

abbrev quiet : Subscriptions
quiet = (lit "t", λ p b. b) ∷ (lit "u", λ p b. b) ∷ []

abbrev busy : Bus
busy = (lit "u", lit "x" ∷ []) ∷ (lit "t", lit "a" ∷ lit "b" ∷ []) ∷ []

abbrev rounds : List (List (Text × Text))
rounds = ((lit "t", lit "c") ∷ (lit "v", lit "z") ∷ []) ∷ ((lit "u", lit "y") ∷ []) ∷ []

delivered_once_example :
    to_topic (lit "t") (work rounds quiet busy).0 ++ waiting (lit "t") (work rounds quiet busy).1
    ≡ waiting (lit "t") busy ++ of_topic (lit "t") (all_published rounds)
delivered_once_example =
    delivered_once (lit "t") rounds quiet busy ((λ p b. refl), ((λ p b. refl), tt))

delivered_all_example : to_topic (lit "t") (work (silent 1) quiet busy).0 ≡ waiting (lit "t") busy
unfolding lookup str_eq lit
delivered_all_example =
    delivered_all (lit "t") 1 quiet busy ((λ p b. refl), (refl, tt), ((λ p b. refl), tt, tt)) refl
      (ground arith)

-- Two workers and three requests, of which the last fails.
abbrev steps : List (ℕ × Outcome)
steps =
    (0, goes_on true 0)
    ∷ (1, goes_on true 0)
    ∷ (1, goes_on true 7)
    ∷ (1, goes_on true 0)
    ∷ (0, goes_on true 9)
    ∷ (1, goes_on false 5)
    ∷ (0, goes_on true 0)
    ∷ (1, goes_on true 0)
    ∷ (1, goes_on true 0)
    ∷ (0, goes_on true 0)
    ∷ []

requests_counted_example :
    (run steps (http_start 2 3)).success + (run steps (http_start 2 3)).errors ≡ 3
unfolding http_start step worker_step
requests_counted_example =
    requests_counted steps 2 3 (ground arith)
      (tt, (tt, (tt, (tt, (tt, (tt, (tt, (tt, (tt, (tt, tt)))))))))) (refl, (refl, tt))
