-- ===== src/Gateway/Invoke/Spec.antt =====
-- How a call with retries ends.
use kd.Base.{
  ℕ, zero, suc, ◌+◌, ◌≤◌, ◌<◌, ◌≡◌, refl, ◌⊎◌, inl, inr, true, false, not, ◌&&◌, ◌||◌, none, some,
  arith, ◌==◌, dec_lt, Bool-cases, ℤ, pos, negsuc, pos_part, max_ℤ,
}
use kd.Api.{Status, cancelled, resource_exhausted, unavailable, is_ok, status_ok}
use kd.Governance.Breaker.{Breaker, closed, allow_request, record_success, record_failure}
use kd.Governance.Limiter.{Limiter, allow}
use kd.Gateway.Invoke.{
  RouterRuntimeConfig, Attempt, Invocation, attempts_of, has_backoff, is_retryable, attempt_loop,
  invoke,
}

pub attempts_positive : (runtime : RouterRuntimeConfig) → 1 ≤ attempts_of runtime
attempts_positive runtime = positive runtime.retry_attempts
  where
    positive : (z : ℤ) → 1 ≤ pos_part (max_ℤ (pos 1) z)
    positive (pos n) = ground arith
    positive (negsuc n) = ground arith

module _ {ℓ} {R : Type ℓ} (runtime : RouterRuntimeConfig) (env : ℕ → Attempt R) where
  -- An attempt that is followed by another one.
  abbrev IsRetried : ℕ → Type 0
  IsRetried k =
      (is_ok (env k).status ≡ false)
      × (is_retryable (env k).status.code ≡ true)
      × ((has_backoff runtime && (env k).backoff_cancelled) ≡ false)

  abbrev AreRetried : ℕ → Type 0
  AreRetried n = (k : ℕ) → 1 ≤ k → k < n → IsRetried k

  -- The last attempt succeeded: its status and response are returned, the breaker is closed.
  abbrev Succeeds : Invocation R → Type ℓ
  Succeeds i =
      (is_ok (env i.sent).status ≡ true)
      × (i.status ≡ (env i.sent).status)
      × (i.response ≡ some (env i.sent).response)
      × (i.breaker.state ≡ closed)
      × (i.breaker.failure_count ≡ 0)

  -- The last attempt failed for good: its error is not retryable, or no attempt is left.
  abbrev Fails : Invocation R → Type ℓ
  Fails i =
      (is_ok (env i.sent).status ≡ false)
      × (i.status ≡ (env i.sent).status)
      × (i.response ≡ none)
      × ((is_retryable (env i.sent).status.code ≡ false) ⊎ (i.sent ≡ attempts_of runtime))

  -- The wait before another attempt was cancelled.
  abbrev IsCancelled : Invocation R → Type ℓ
  IsCancelled i =
      (is_ok (env i.sent).status ≡ false)
      × (i.status.code ≡ cancelled)
      × (i.response ≡ none)
      × (i.sent < attempts_of runtime)
      × ((has_backoff runtime && (env i.sent).backoff_cancelled) ≡ true)

  pub record IsAnswered (i : Invocation R) : Type ℓ where
    pub least : 1 ≤ i.sent
    pub most : i.sent ≤ attempts_of runtime
    pub retried : AreRetried i.sent
    pub ends : Succeeds i ⊎ (Fails i ⊎ IsCancelled i)

  AreRetried-extend : (n : ℕ) → AreRetried n → IsRetried n → AreRetried (suc n)
  AreRetried-extend n before now k h1 h2 = elim (dec_lt k n) [
    | yes lt ↦ before k h1 lt
    | no ge ↦ let e : k ≡ n = omega arith in rw e now
  ]

  attempt_loop_lem :
      (left attempt : ℕ) (breaker : Breaker) (limiter : Limiter) (last : Status)
      → 1 ≤ attempt
      → attempt ≤ attempts_of runtime
      → attempt + left ≡ attempts_of runtime + 1
      → AreRetried attempt
      → IsAnswered (attempt_loop runtime env left attempt breaker limiter last)
  unfolding attempt_loop record_success
  attempt_loop_lem zero attempt breaker limiter last h m e f = absurd (omega arith)
  attempt_loop_lem (suc left) attempt breaker limiter last h m e f =
      elim (Bool-cases (is_ok (env attempt).status)) [
        | inl good ↦
            rw good (record {
              least = h;
              most = m;
              retried = f;
              ends = inl (good, refl, refl, refl, refl);
            })
        | inr bad ↦
            elim (Bool-cases
              (not (is_retryable (env attempt).status.code) || attempt == attempts_of runtime)) [
                | inl final ↦
                    rw (bad, final)
                      (record {
                        least = h;
                        most = m;
                        retried = f;
                        ends = inr (inl (bad, refl, refl, ground arith));
                      })
                | inr more ↦
                    elim (Bool-cases (has_backoff runtime && (env attempt).backoff_cancelled)) [
                      | inl stopped ↦
                          rw (bad, more, stopped)
                            (record {
                              least = h;
                              most = m;
                              retried = f;
                              ends = inr (inr (bad, refl, refl, ground arith, stopped));
                            })
                      | inr waited ↦
                          rw (bad, more, waited)
                            (attempt_loop_lem left (suc attempt) _ limiter _ (omega arith)
                              (ground arith) (omega arith)
                              (AreRetried-extend attempt f (bad, ground arith, waited)))
                    ]
              ]
      ]

  -- The three ways that a call ends. Over its rate the service is not called, and the breaker is not
  -- asked. With the breaker open the service is not called. Otherwise it is called at least once
  -- and at most `max(1, retry_attempts)` times, each attempt but the last failing with a status that
  -- may be retried, and the last one decides the status, the response and, if it succeeds, closes
  -- the breaker.
  pub invoke_outcome :
      (breaker : Breaker) (limiter : Limiter) (limited_at asked_at : ℕ)
      → let i = invoke runtime env breaker limiter limited_at asked_at in
        (((allow limiter limited_at).1 ≡ false)
          × (i.sent ≡ 0)
          × (i.breaker ≡ breaker)
          × (i.status.code ≡ resource_exhausted)
          × (i.response ≡ none))
        ⊎ ((((allow limiter limited_at).1 ≡ true)
              × ((allow_request breaker asked_at).1 ≡ false)
              × (i.sent ≡ 0)
              × (i.breaker ≡ (allow_request breaker asked_at).0)
              × (i.status.code ≡ unavailable)
              × (i.response ≡ none))
            ⊎ (((allow limiter limited_at).1 ≡ true)
                × ((allow_request breaker asked_at).1 ≡ true)
                × IsAnswered i))
  unfolding invoke
  invoke_outcome breaker limiter limited_at asked_at =
      elim (Bool-cases (allow limiter limited_at).1) [
        | inl passed ↦ elim (Bool-cases (allow_request breaker asked_at).1) [
          | inl asked ↦
              rw (passed, asked)
                (inr (
                  inr (
                    refl,
                    refl,
                    attempt_loop_lem (attempts_of runtime) 1 _ _ status_ok (omega arith)
                        (attempts_positive runtime) (omega arith) (λ k h1 h2. absurd (omega arith)),
                  )))
          | inr refused ↦ rw (passed, refused) (inr (inl (refl, refl, refl, refl, refl, refl)))
        ]
        | inr limited ↦ rw limited (inl (refl, refl, refl, refl, refl))
      ]

  count-record_failure :
      (b : Breaker) (now : ℕ) → (record_failure b now).failure_count ≡ suc b.failure_count
  unfolding record_failure
  count-record_failure b now = ground arith

  count-attempt_loop :
      (left attempt : ℕ) (breaker : Breaker) (limiter : Limiter) (last : Status)
      → 1 ≤ attempt
      → ((k : ℕ) (b : Breaker) → (env k).others b ≡ b)
      → let i = attempt_loop runtime env left attempt breaker limiter last in
        i.response ≡ none → i.breaker.failure_count + attempt ≡ breaker.failure_count + i.sent + 1
  unfolding attempt_loop record_success
  count-attempt_loop zero attempt breaker limiter last h quiet missing = omega arith
  count-attempt_loop (suc left) attempt breaker limiter last h quiet missing =
      let same = quiet attempt breaker in
      let failed = record_failure ((env attempt).others breaker) (env attempt).failed_at in
      let counted = count-record_failure ((env attempt).others breaker) (env attempt).failed_at in
      let rest =
        count-attempt_loop left (suc attempt) failed limiter (env attempt).status (omega arith)
          quiet in
      ground (arith, same, counted, rest)

  count-allow_request :
      (b : Breaker) (now : ℕ) → (allow_request b now).0.failure_count ≡ b.failure_count
  unfolding allow_request
  count-allow_request b now = ground arith

  -- While no other request touches the breaker, a call that is let through and gives no response
  -- adds one failure for each attempt.
  failures_counted :
      (breaker : Breaker) (limiter : Limiter) (limited_at asked_at : ℕ)
      → ((k : ℕ) (b : Breaker) → (env k).others b ≡ b)
      → (allow limiter limited_at).1 ≡ true
      → (allow_request breaker asked_at).1 ≡ true
      → let i = invoke runtime env breaker limiter limited_at asked_at in
        i.response ≡ none → i.breaker.failure_count ≡ breaker.failure_count + i.sent
  unfolding invoke
  failures_counted breaker limiter limited_at asked_at quiet passed asked missing =
      let b = (allow_request breaker asked_at).0 in
      let l = (allow limiter limited_at).0 in
      rw (passed, asked)
        (omega (
          arith,
          count-allow_request breaker asked_at,
          count-attempt_loop (attempts_of runtime) 1 b l status_ok (omega arith) quiet
              (rw (passed, asked) at missing),
        ))
