-- ===== src/Gateway/Invoke.antt =====
-- InvokeWithResilienceAsync of gateways/access_gateway/routing/grpc_router.cpp, with the status
-- tests of that file. What happens outside the coroutine is an argument for each attempt: the reply
-- of the service, the clock that the breaker reads, whether the back-off timer was cancelled, and
-- what other requests did to the shared breaker while this one waited. The deadline of the call is
-- part of the environment that gives the reply.
pub mod Spec
use kd.Base.{
  ℕ, zero, suc, ◌+◌, ◌-◌, Bool, true, false, not, ◌&&◌, ◌||◌, Option, none, some, Text, lit, [],
  ◌==◌, if◌then◌else◌, ℤ, pos, pos_part, ltb_ℤ, max_ℤ,
}
use kd.Api.{
  StatusCode, ok_code, cancelled, invalid_argument, deadline_exceeded, not_found, already_exists,
  permission_denied, resource_exhausted, failed_precondition, unavailable, unauthenticated, Status,
  status_ok, is_ok,
}
use kd.Governance.Breaker.{Breaker, allow_request, record_success, record_failure}
use kd.Governance.Limiter.{Limiter, allow}

unfoldable pub http_status_from_grpc : StatusCode → ℕ
http_status_from_grpc invalid_argument = 400
http_status_from_grpc unauthenticated = 401
http_status_from_grpc permission_denied = 403
http_status_from_grpc not_found = 404
http_status_from_grpc already_exists = 409
http_status_from_grpc failed_precondition = 412
http_status_from_grpc deadline_exceeded = 504
http_status_from_grpc unavailable = 503
http_status_from_grpc resource_exhausted = 429
http_status_from_grpc _ = 502

abbrev pub is_retryable : StatusCode → Bool
is_retryable unavailable = true
is_retryable deadline_exceeded = true
is_retryable _ = false

pub record RouterRuntimeConfig : Type 0 where
  pub grpc_timeout_ms : ℤ
  pub retry_attempts : ℤ
  pub retry_backoff_ms : ℤ

pub record Attempt {ℓ} (R : Type ℓ) : Type ℓ where
  pub status : Status
  pub response : R
  pub failed_at : ℕ
  pub others : Breaker → Breaker
  pub backoff_cancelled : Bool

-- The breaker and the limiter after the call, its status, the response if the status is OK, and the
-- number of RPCs sent.
pub record Invocation {ℓ} (R : Type ℓ) : Type ℓ where
  pub breaker : Breaker
  pub limiter : Limiter
  pub status : Status
  pub response : Option R
  pub sent : ℕ

-- `std::max(1, runtime.retry_attempts)`
abbrev pub attempts_of : RouterRuntimeConfig → ℕ
attempts_of runtime = pos_part (max_ℤ (pos 1) runtime.retry_attempts)

-- `std::max(0, runtime.retry_backoff_ms) > 0`
abbrev pub has_backoff : RouterRuntimeConfig → Bool
has_backoff runtime = ltb_ℤ (pos 0) (max_ℤ (pos 0) runtime.retry_backoff_ms)

module _ {ℓ} {R : Type ℓ} (runtime : RouterRuntimeConfig) (env : ℕ → Attempt R) where
  -- The rounds left of `for (attempt = 1; attempt <= attempts; ++attempt)`.
  unfoldable pub attempt_loop : ℕ → ℕ → Breaker → Limiter → Status → Invocation R
  attempt_loop zero attempt breaker limiter last_status = record {
    breaker = breaker;
    limiter = limiter;
    status = last_status;
    response = none;
    sent = attempt - 1;
  }
  attempt_loop (suc left) attempt breaker limiter last_status =
      let a = env attempt in
      let shared = a.others breaker in
      let failed = record_failure shared a.failed_at in
      let next = attempt_loop left (suc attempt) failed limiter a.status in
      if is_ok a.status
      then record {
        breaker = record_success shared;
        limiter = limiter;
        status = a.status;
        response = some a.response;
        sent = attempt;
      }
      else if not (is_retryable a.status.code) || attempt == attempts_of runtime
      then record {
        breaker = failed;
        limiter = limiter;
        status = a.status;
        response = none;
        sent = attempt;
      }
      else if has_backoff runtime && a.backoff_cancelled
      then record {
        breaker = failed;
        limiter = limiter;
        status = record { code = cancelled; message = lit "retry_backoff_cancelled" };
        response = none;
        sent = attempt;
      }
      else next

  -- `limited_at` and `asked_at` are the clock readings of the limiter and of the breaker.
  unfoldable pub invoke : Breaker → Limiter → (limited_at asked_at : ℕ) → Invocation R
  invoke breaker limiter limited_at asked_at =
      let (limiter', allowed) = allow limiter limited_at in
      let (breaker', asked) = allow_request breaker asked_at in
      if not allowed
      then record {
        breaker = breaker;
        limiter = limiter';
        status = record { code = resource_exhausted; message = lit "gateway rate limit exceeded" };
        response = none;
        sent = 0;
      }
      else if not asked
      then record {
        breaker = breaker';
        limiter = limiter';
        status = record { code = unavailable; message = lit "circuit breaker open" };
        response = none;
        sent = 0;
      }
      else attempt_loop (attempts_of runtime) 1 breaker' limiter' status_ok
