-- ===== src/Gateway/Router/Route/Isolation.antt =====
-- What a routed request leaves alone in the router.
use kd.Base.{
  ℕ, ◌≡◌, refl, ◌∙◌, true, false, Option, none, some, Text, lit, str_eq, starts_with, Result, ok,
  raised,
}
use kd.Json.{JsonApi}
use kd.Context.{RequestContext}
use kd.Api.{StatusCode, Status}
use kd.Governance.Breaker.{Breaker}
use kd.Governance.Limiter.{Limiter}
use kd.Gateway.Invoke.{Attempt, invoke}
use kd.Gateway.Router.{
  Router, breaker_for, set_breaker_for, rate_limiter_for, set_rate_limiter_for, get_config_stub,
  get_user_stub, get_game_stub, get_runtime_config, config_stub_or, user_stub_or, game_stub_or,
}
use kd.Gateway.Router.Route.{
  RouteResult, Downstream, finish, finish_with, refuse, reply, call, send, route_parsed,
  route_with_status_async,
}
use kd.Gateway.Router.Route.Answers.{dispatch_cases}

pub data Service : Type 0 where
  config_service user_service game_service : Service

abbrev pub name : Service → Text
name config_service = lit "config_service"
name user_service = lit "user_service"
name game_service = lit "game_service"

-- What the paths of a service begin with.
abbrev pub prefix : Service → Text
prefix config_service = lit "/config/"
prefix user_service = lit "/user/"
prefix game_service = lit "/game/"

abbrev pub IsUntouched : Service → Router → Router → Type 0
IsUntouched s r r' =
    (breaker_for (name s) r' ≡ breaker_for (name s) r)
    × (rate_limiter_for (name s) r' ≡ rate_limiter_for (name s) r)

-- The targets and the runtime configuration stay, and so do the breaker and the limiter of every
-- service that `path` does not belong to.
abbrev IsIsolated : Text → Router → Router → Type 0
IsIsolated path r r' =
    (r'.targets ≡ r.targets)
    × (r'.runtime_config ≡ r.runtime_config)
    × ((s : Service) → starts_with path (prefix s) ≡ false → IsUntouched s r r')

-- Two routers that differ at most in the caches and the metrics.
abbrev IsSame : Router → Router → Type 0
IsSame r r' =
    (r'.targets ≡ r.targets)
    × (r'.runtime_config ≡ r.runtime_config)
    × ((s : Service) → IsUntouched s r r')

finish_with-IsSame :
    (path : Text) (build : Text → RouteResult) (t : Result Text) (r : Router)
    → IsSame r (finish_with path build t r).1
unfolding finish_with finish breaker_for rate_limiter_for
finish_with-IsSame path build (ok body) r = (refl, refl, λ s. (refl, refl))
finish_with-IsSame path build (raised what) r = (refl, refl, λ s. (refl, refl))

module _ (target : Text) (r : Router) where
  config_stub-IsSame : (cached : Option Text) → IsSame r (config_stub_or cached target r).1
  unfolding config_stub_or breaker_for rate_limiter_for
  config_stub-IsSame none = (refl, refl, λ s. (refl, refl))
  config_stub-IsSame (some stub) = (refl, refl, λ s. (refl, refl))

  user_stub-IsSame : (cached : Option Text) → IsSame r (user_stub_or cached target r).1
  unfolding user_stub_or breaker_for rate_limiter_for
  user_stub-IsSame none = (refl, refl, λ s. (refl, refl))
  user_stub-IsSame (some stub) = (refl, refl, λ s. (refl, refl))

  game_stub-IsSame : (cached : Option Text) → IsSame r (game_stub_or cached target r).1
  unfolding game_stub_or breaker_for rate_limiter_for
  game_stub-IsSame none = (refl, refl, λ s. (refl, refl))
  game_stub-IsSame (some stub) = (refl, refl, λ s. (refl, refl))

module _ (api : JsonApi) (path : Text) where
  reply-IsSame :
      {R : Type 0} (service : Text) (answer : R → api.Json) (status : Status) (response : Option R)
      (r : Router)
      → IsSame r (reply api path service answer status response r).1
  unfolding reply
  reply-IsSame service answer status none r = finish_with-IsSame path _ _ r
  reply-IsSame service answer status (some resp) r = finish_with-IsSame path _ _ r

  -- A call for the service `t` leaves the other services alone.
  set-IsUntouched :
      (s t : Service) (b : Breaker) (l : Limiter) (r : Router)
      → str_eq (name s) (name t) ≡ false
      → IsUntouched s r (set_rate_limiter_for (name t) l (set_breaker_for (name t) b r))
  unfolding set_rate_limiter_for set_breaker_for breaker_for rate_limiter_for lit str_eq
  set-IsUntouched config_service config_service b l r h = absurd (cc h)
  set-IsUntouched user_service user_service b l r h = absurd (cc h)
  set-IsUntouched game_service game_service b l r h = absurd (cc h)
  set-IsUntouched s t b l r h = (refl, refl)

  set-kept :
      (t : Service) (b : Breaker) (l : Limiter) (r : Router)
      → let r' = set_rate_limiter_for (name t) l (set_breaker_for (name t) b r) in
        (r'.targets ≡ r.targets) × (r'.runtime_config ≡ r.runtime_config)
  unfolding set_rate_limiter_for set_breaker_for lit str_eq
  set-kept config_service b l r = (refl, refl)
  set-kept user_service b l r = (refl, refl)
  set-kept game_service b l r = (refl, refl)

  other :
      (s t : Service)
      → starts_with path (prefix t) ≡ true
      → starts_with path (prefix s) ≡ false
      → str_eq (name s) (name t) ≡ false
  unfolding lit str_eq
  other config_service config_service h k = absurd (cc (h, k))
  other user_service user_service h k = absurd (cc (h, k))
  other game_service game_service h k = absurd (cc (h, k))
  other s t h k = refl

  -- `r` before the stub was fetched, `r'` after, `r''` at the end of the call
  IsSame-trans :
      (s : Service) (r r' m r'' : Router)
      → IsUntouched s r r'
      → IsUntouched s r' m
      → IsUntouched s m r''
      → IsUntouched s r r''
  IsSame-trans s r r' m r'' (a, b) (c, d) (e, f) = (e ∙ (c ∙ a), f ∙ (d ∙ b))

  IsIsolated-refl : (r r' : Router) → IsSame r r' → IsIsolated path r r'
  IsIsolated-refl r r' (a, b, c) = (a, b, λ s h. c s)

  refuse-IsSame :
      (code : Text) (n : ℕ) (c : StatusCode) (r : Router) → IsSame r (refuse api path code n c r).1
  unfolding refuse
  refuse-IsSame code n c r = finish_with-IsSame path _ _ r

  module _ (down : Downstream) (ctx : RequestContext) where
    call-IsIsolated :
        {R : Type 0} (t : Service) (rpc : ℕ → Attempt R) (answer : R → api.Json) (r r' : Router)
        → starts_with path (prefix t) ≡ true
        → IsSame r r'
        → IsIsolated path r (call api down path ctx (name t) rpc answer r').1
    unfolding call
    call-IsIsolated t rpc answer r r' h (a, b, c) =
        let i =
          invoke (get_runtime_config r') rpc (breaker_for (name t) r')
            (rate_limiter_for (name t) r') down.limited_at down.asked_at in
        let m = set_rate_limiter_for (name t) i.limiter (set_breaker_for (name t) i.breaker r') in
        let (d, e) = set-kept t i.breaker i.limiter r' in
        let (f, g, k) = reply-IsSame (name t) answer i.status i.response m in
        (
          f ∙ (d ∙ a),
          g ∙ (e ∙ b),
          λ s away.
              IsSame-trans s r r' m _ (c s) (set-IsUntouched s t _ _ r' (other s t h away)) (k s),
        )

    send-IsIsolated :
        {Q R : Type 0} (t : Service) (rpc : Q → ℕ → Attempt R) (answer : R → api.Json)
        (request : Result Q) (r r' : Router)
        → starts_with path (prefix t) ≡ true
        → IsSame r r'
        → IsIsolated path r (send api down path ctx (name t) rpc answer request r').1
    unfolding send
    send-IsIsolated t rpc answer (raised what) r r' h same = IsIsolated-refl r r' same
    send-IsIsolated t rpc answer (ok q) r r' h same = call-IsIsolated t (rpc q) answer r r' h same

    parsed-IsIsolated :
        (json : Option api.Json) (r : Router)
        → IsIsolated path r (route_parsed api down path ctx json r).1
    unfolding route_parsed get_config_stub get_user_stub get_game_stub
    parsed-IsIsolated none r = IsIsolated-refl r _ (refuse-IsSame _ _ _ r)
    parsed-IsIsolated (some json) r =
        dispatch_cases api down path ctx (λ out. IsIsolated path r out.1) json r
          (λ e Q R target rpc answer request.
            send-IsIsolated config_service rpc answer request r _ e (config_stub-IsSame target r _))
          (λ e Q R target rpc answer request.
            send-IsIsolated user_service rpc answer request r _ e (user_stub-IsSame target r _))
          (λ e Q R target rpc answer request.
            send-IsIsolated game_service rpc answer request r _ e (game_stub-IsSame target r _))
          (IsIsolated-refl r _ (refuse-IsSame _ _ _ r))

    pub route-IsIsolated :
        (body : Text) (r : Router)
        → IsIsolated path r (route_with_status_async api down path ctx body r).1
    unfolding route_with_status_async
    route-IsIsolated body r = parsed-IsIsolated _ r

    -- Whatever a route does, and also when it raises, it keeps the targets and the runtime
    -- configuration, and the breaker and the limiter of every service that its path is not under.
    pub route_isolated :
        (body : Text) (r : Router) (s : Service)
        → starts_with path (prefix s) ≡ false
        → let r' = (route_with_status_async api down path ctx body r).1 in
          (r'.targets ≡ r.targets) × (r'.runtime_config ≡ r.runtime_config) × IsUntouched s r r'
    route_isolated body r s away = let (a, b, c) = route-IsIsolated body r in (a, b, c s away)
