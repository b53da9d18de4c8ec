-- ===== src/Gateway/Router.antt =====
-- GrpcRouter of gateways/access_gateway: its state, the caches of stubs, the choice of a target and
-- the runtime configuration. A stub stands for the target that it is connected to. The threads
-- that run the gRPC context are in Workers; `runtime_config_` and the caches are read and written
-- under their mutexes.
pub mod Route
pub mod Fallback
pub mod Workers
use kd.Base.{
  ℕ, ◌+◌, ◌==◌, Bool, true, false, ◌||◌, ◌&&◌, Option, none, some, List, [], ◌∷◌, ◌++◌, map, Text,
  lit, str_eq, is_empty, Dict, lookup, insert, if◌then◌else◌, ℤ, pos, max_ℤ, show, leb, Result, ok,
}
use kd.Base.Exec.{Exec}
use kd.Coordination.{ServiceInstance, no_instance}
use kd.Governance.Breaker
use kd.Governance.Breaker.{Breaker}
use kd.Governance.Limiter
use kd.Governance.Limiter.{Limiter}
use kd.Gateway.Invoke.{RouterRuntimeConfig}
use kd.Metrics.{Metrics, increment}

pub record RouterTargets : Type 0 where
  pub config_service_target : Text
  pub user_service_target : Text
  pub game_service_target : Text

-- The router, with the process's metrics registry.
pub record Router : Type 0 where
  pub targets : RouterTargets
  pub open targets use *
  pub runtime_config : RouterRuntimeConfig
  pub channels : Dict Text
  pub config_stubs : Dict Text
  pub user_stubs : Dict Text
  pub game_stubs : Dict Text
  pub config_breaker : Breaker
  pub user_breaker : Breaker
  pub game_breaker : Breaker
  pub config_rate_limiter : Limiter
  pub user_rate_limiter : Limiter
  pub game_rate_limiter : Limiter
  pub metrics : Metrics

-- The constructor; times are in nanoseconds.
unfoldable pub init : RouterTargets → RouterRuntimeConfig → ℕ → Router
init targets runtime_config now =
    let breaker = Breaker.init 5 5_000_000_000 in
    let limiter = Limiter.init 500 1000 now in
    record {
      targets = targets;
      runtime_config = runtime_config;
      channels = [];
      config_stubs = [];
      user_stubs = [];
      game_stubs = [];
      config_breaker = breaker;
      user_breaker = breaker;
      game_breaker = breaker;
      config_rate_limiter = limiter;
      user_rate_limiter = limiter;
      game_rate_limiter = limiter;
      metrics = [];
    }

-- TrafficRouter::Select of framework/governance/traffic_router.cpp
unfoldable select : List ServiceInstance → (traffic_tag : Text) → ServiceInstance
select [] traffic_tag = no_instance
select (inst ∷ rest) traffic_tag = inst

-- `resolve` is `resolver_->Resolve`, `none` a null resolver
unfoldable pub resolve_target :
    Option (Text → List ServiceInstance) → (service_name fallback traffic_tag : Text) → Text
unfolding select
resolve_target none service_name fallback traffic_tag = fallback
resolve_target (some resolve) service_name fallback traffic_tag =
    let chosen : ServiceInstance = select (resolve service_name) traffic_tag in
    let found : Text = chosen.host ++ (lit ":" ++ show chosen.port) in
    elim (resolve service_name) [
      | [] ↦ fallback
      | _ ↦ if is_empty chosen.host || chosen.port == 0 then fallback else found
    ]

unfoldable pub get_runtime_config : Router → RouterRuntimeConfig
get_runtime_config r = r.runtime_config

unfoldable pub sanitize : RouterRuntimeConfig → RouterRuntimeConfig
sanitize config = record {
  grpc_timeout_ms = max_ℤ (pos 100) config.grpc_timeout_ms;
  retry_attempts = max_ℤ (pos 1) config.retry_attempts;
  retry_backoff_ms = max_ℤ (pos 0) config.retry_backoff_ms;
}

unfoldable pub update_runtime_config : RouterRuntimeConfig → Router → Router
unfolding sanitize
update_runtime_config config r = record r { runtime_config = sanitize config }

-- BreakerFor and RateLimiterFor return references: a reading and a writing function for each.
unfoldable pub breaker_for : Text → Router → Breaker
breaker_for service_name r =
    if str_eq service_name (lit "config_service")
    then r.config_breaker
    else if str_eq service_name (lit "user_service")
    then r.user_breaker
    else r.game_breaker

unfoldable pub set_breaker_for : Text → Breaker → Router → Router
set_breaker_for service_name b r =
    if str_eq service_name (lit "config_service")
    then record r { config_breaker = b }
    else if str_eq service_name (lit "user_service")
    then record r { user_breaker = b }
    else record r { game_breaker = b }

unfoldable pub rate_limiter_for : Text → Router → Limiter
rate_limiter_for service_name r =
    if str_eq service_name (lit "config_service")
    then r.config_rate_limiter
    else if str_eq service_name (lit "user_service")
    then r.user_rate_limiter
    else r.game_rate_limiter

unfoldable pub set_rate_limiter_for : Text → Limiter → Router → Router
set_rate_limiter_for service_name l r =
    if str_eq service_name (lit "config_service")
    then record r { config_rate_limiter = l }
    else if str_eq service_name (lit "user_service")
    then record r { user_rate_limiter = l }
    else record r { game_rate_limiter = l }

-- GetConfigStub, GetUserStub, GetGameStub; the first argument is what the cache holds
unfoldable pub config_stub_or : Option Text → Text → Router → Text × Router
config_stub_or (some stub) target r = (stub, r)
config_stub_or none target r = (
  target,
  record r {
    channels = insert target target r.channels;
    config_stubs = insert target target r.config_stubs;
  },
)

unfoldable pub get_config_stub : Text → Router → Text × Router
unfolding config_stub_or
get_config_stub target r = config_stub_or (lookup target r.config_stubs) target r

unfoldable pub user_stub_or : Option Text → Text → Router → Text × Router
user_stub_or (some stub) target r = (stub, r)
user_stub_or none target r = (
  target,
  record r {
    channels = insert target target r.channels;
    user_stubs = insert target target r.user_stubs;
  },
)

unfoldable pub get_user_stub : Text → Router → Text × Router
unfolding user_stub_or
get_user_stub target r = user_stub_or (lookup target r.user_stubs) target r

unfoldable pub game_stub_or : Option Text → Text → Router → Text × Router
game_stub_or (some stub) target r = (stub, r)
game_stub_or none target r = (
  target,
  record r {
    channels = insert target target r.channels;
    game_stubs = insert target target r.game_stubs;
  },
)

unfoldable pub get_game_stub : Text → Router → Text × Router
unfolding game_stub_or
get_game_stub target r = game_stub_or (lookup target r.game_stubs) target r

-- std::isalnum of the "C" locale
abbrev is_alnum : ℕ → Bool
is_alnum c = (leb b'0' c && leb c b'9') || (leb b'A' c && leb c b'Z') || (leb b'a' c && leb c b'z')

unfoldable pub to_metric_safe : Text → Text
to_metric_safe = map (λ ch. if is_alnum ch then ch else b'_')
