-- ===== src/Gateway/Router/Route/Counted.antt =====
-- The counters of routed requests.
use kd.Base.{
  ℕ, ◌+◌, ◌%◌, ◌^◌, ◌≡◌, refl, ◌∙◌, ap, false, Bool-cases, Option, none, some, Text, lit, ◌++◌,
  str_eq, is_empty, inl, inr, Result, ok, raised,
}
use kd.Json.{JsonApi}
use kd.Context.{RequestContext}
use kd.Api.{StatusCode, Status}
use kd.Metrics.{Metrics, counter, increment, counter-increment}
use kd.Governance.Breaker.{Breaker}
use kd.Governance.Limiter.{Limiter}
use kd.Gateway.Invoke.{Attempt, invoke}
use kd.Gateway.Router.{
  Router, config_stub_or, user_stub_or, game_stub_or, set_breaker_for, set_rate_limiter_for,
  get_config_stub, get_user_stub, get_game_stub, get_runtime_config, breaker_for, rate_limiter_for,
}
use kd.Gateway.Router.Route.{
  RouteResult, Downstream, count_route, finish, finish_with, refuse, reply, call, send,
  route_parsed, route_with_status_async,
}
use kd.Gateway.Router.Route.Answers.{dispatch_cases}
use kd.Gateway.Router.Route.Isolation.{Service, config_service, user_service, game_service, name}

abbrev pub total : Router → ℕ
total r = counter (lit "gateway_requests_total") r.metrics

increment-other :
    (other : Text) (delta : ℕ) (m : Metrics)
    → str_eq other (lit "gateway_requests_total") ≡ false
    → counter (lit "gateway_requests_total") (increment other delta m)
      ≡ counter (lit "gateway_requests_total") m
increment-other other delta m h =
    rw (counter-increment other (lit "gateway_requests_total") delta m, h) refl

module _ (x : Text) where
  other_route : str_eq (lit "gateway_requests_route_" ++ x) (lit "gateway_requests_total") ≡ false
  unfolding str_eq lit
  other_route = refl

  other_status : str_eq (lit "gateway_requests_status_" ++ x) (lit "gateway_requests_total") ≡ false
  unfolding str_eq lit
  other_status = refl

  other_service : str_eq (lit "gateway_downstream_" ++ x) (lit "gateway_requests_total") ≡ false
  unfolding str_eq lit
  other_service = refl

increment-total :
    (m : Metrics)
    → counter (lit "gateway_requests_total") (increment (lit "gateway_requests_total") 1 m)
      ≡ (counter (lit "gateway_requests_total") m + 1) % 2 ^ 64
unfolding str_eq lit
increment-total m =
    rw (counter-increment (lit "gateway_requests_total") (lit "gateway_requests_total") 1 m) refl

count_route-total :
    (path : Text) (result : RouteResult) (m : Metrics)
    → counter (lit "gateway_requests_total") (count_route path result m)
      ≡ (counter (lit "gateway_requests_total") m + 1) % 2 ^ 64
unfolding count_route
count_route-total path result m = elim (Bool-cases (is_empty result.downstream_service)) [
  | inl quiet ↦ rw quiet (
      increment-other _ 1 _ (other_status _)
      ∙ (increment-other _ 1 _ (other_route _) ∙ increment-total m))
  | inr named ↦ rw named (
      increment-other _ 1 _ (other_service _)
      ∙ (increment-other _ 1 _ (other_status _)
          ∙ (increment-other _ 1 _ (other_route _) ∙ increment-total m)))
]

-- The request was counted once more.
abbrev IsCounted : Router → Result RouteResult × Router → Type 0
IsCounted r out = (res : RouteResult) → out.0 ≡ ok res → total out.1 ≡ (total r + 1) % 2 ^ 64

finish_with-IsCounted :
    (path : Text) (build : Text → RouteResult) (t : Result Text) (r : Router)
    → IsCounted r (finish_with path build t r)
unfolding finish_with finish
finish_with-IsCounted path build (ok body) r res h = count_route-total path (build body) r.metrics
finish_with-IsCounted path build (raised what) r res h = absurd (cc h)

module _ (target : Text) (r : Router) where
  config_stub-metrics :
      (cached : Option Text) → (config_stub_or cached target r).1.metrics ≡ r.metrics
  unfolding config_stub_or
  config_stub-metrics none = refl
  config_stub-metrics (some stub) = refl

  user_stub-metrics : (cached : Option Text) → (user_stub_or cached target r).1.metrics ≡ r.metrics
  unfolding user_stub_or
  user_stub-metrics none = refl
  user_stub-metrics (some stub) = refl

  game_stub-metrics : (cached : Option Text) → (game_stub_or cached target r).1.metrics ≡ r.metrics
  unfolding game_stub_or
  game_stub-metrics none = refl
  game_stub-metrics (some stub) = refl

set-metrics :
    (t : Service) (b : Breaker) (l : Limiter) (r : Router)
    → (set_rate_limiter_for (name t) l (set_breaker_for (name t) b r)).metrics ≡ r.metrics
unfolding set_rate_limiter_for set_breaker_for lit str_eq
set-metrics config_service b l r = refl
set-metrics user_service b l r = refl
set-metrics game_service b l r = refl

IsCounted-subst :
    (r r' : Router) (out : Result RouteResult × Router)
    → r'.metrics ≡ r.metrics
    → IsCounted r' out
    → IsCounted r out
IsCounted-subst r r' out e h res k =
    h res k ∙ ap (λ m. (counter (lit "gateway_requests_total") m + 1) % 2 ^ 64) e

module _ (api : JsonApi) (path : Text) where
  reply-IsCounted :
      {R : Type 0} (service : Text) (answer : R → api.Json) (status : Status) (response : Option R)
      (r : Router)
      → IsCounted r (reply api path service answer status response r)
  unfolding reply
  reply-IsCounted service answer status none r = finish_with-IsCounted path _ _ r
  reply-IsCounted service answer status (some resp) r = finish_with-IsCounted path _ _ r

  refuse-IsCounted :
      (code : Text) (n : ℕ) (c : StatusCode) (r : Router) → IsCounted r (refuse api path code n c r)
  unfolding refuse
  refuse-IsCounted code n c r = finish_with-IsCounted path _ _ r

  module _ (down : Downstream) (ctx : RequestContext) where
    send-IsCounted :
        {Q R : Type 0} (t : Service) (rpc : Q → ℕ → Attempt R) (answer : R → api.Json)
        (request : Result Q) (r r' : Router)
        → r'.metrics ≡ r.metrics
        → IsCounted r (send api down path ctx (name t) rpc answer request r')
    unfolding send call
    send-IsCounted t rpc answer (raised what) r r' e res h = absurd (cc h)
    send-IsCounted t rpc answer (ok q) r r' e res h =
        let i =
          invoke (get_runtime_config r') (rpc q) (breaker_for (name t) r')
            (rate_limiter_for (name t) r') down.limited_at down.asked_at in
        let m = set_rate_limiter_for (name t) i.limiter (set_breaker_for (name t) i.breaker r') in
        IsCounted-subst r m (reply api path (name t) answer i.status i.response m)
          (set-metrics t i.breaker i.limiter r' ∙ e)
          (reply-IsCounted (name t) answer i.status i.response m) res h

    parsed-IsCounted :
        (json : Option api.Json) (r : Router) → IsCounted r (route_parsed api down path ctx json r)
    unfolding route_parsed get_config_stub get_user_stub get_game_stub
    parsed-IsCounted none r = refuse-IsCounted _ _ _ r
    parsed-IsCounted (some json) r =
        dispatch_cases api down path ctx (IsCounted r) json r
          (λ e Q R target rpc answer request.
            send-IsCounted config_service rpc answer request r _ (config_stub-metrics target r _))
          (λ e Q R target rpc answer request.
            send-IsCounted user_service rpc answer request r _ (user_stub-metrics target r _))
          (λ e Q R target rpc answer request.
            send-IsCounted game_service rpc answer request r _ (game_stub-metrics target r _))
          (refuse-IsCounted _ _ _ r)

    -- Every route that completes, with whatever result, counts one request in
    -- `gateway_requests_total`, modulo 2⁶⁴.
    route_counted :
        (body : Text) (r : Router) (res : RouteResult)
        → (route_with_status_async api down path ctx body r).0 ≡ ok res
        → total (route_with_status_async api down path ctx body r).1 ≡ (total r + 1) % 2 ^ 64
    unfolding route_with_status_async
    route_counted body r res h = parsed-IsCounted _ r res h
