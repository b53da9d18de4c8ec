-- ===== src/Gateway/Router/Route.antt =====
-- RouteWithStatusAsync of gateways/access_gateway/routing/grpc_router.cpp and its wrappers. The
-- services, the resolver and the clocks are outside: `Downstream` holds what they answer. Every
-- other error is an exception of the JSON library, `raised`. Spans and log lines are left out.
pub mod Answers
pub mod Counted
pub mod Isolation
pub mod Users
use kd.Base.{
  ℕ, ◌++◌, Bool, Option, none, some, Text, lit, str_eq, is_empty, [], ◌∷◌, List, if◌then◌else◌, ℤ,
  pos, show, Result, ok, raised, ◌>>=◌,
}
use kd.Base.Exec.{Exec}
use kd.Json.{JsonApi}
use kd.Context.{RequestContext}
use kd.Context.Metadata.{Metadata, add_metadata}
use kd.Api.{
  ConfigEntry, UserProfile, GetConfigRequest, CreateRoomRequest, JoinRoomRequest, StatusCode,
  ok_code, invalid_argument, not_found, unavailable, code_number, Status,
}
use kd.Coordination.{ServiceInstance}
use kd.Metrics.{Metrics, increment}
use kd.Gateway.Invoke.{RouterRuntimeConfig, Attempt, Invocation, invoke, http_status_from_grpc}
use kd.Gateway.Messages.{
  config_json, user_json, created_json, read_config_get, read_config_publish, read_create_room,
  read_join_room,
}
use kd.Gateway.Router.{
  Router, resolve_target, get_runtime_config, breaker_for, set_breaker_for, rate_limiter_for,
  set_rate_limiter_for, get_config_stub, get_user_stub, get_game_stub, to_metric_safe,
}

pub record RouteResult : Type 0 where
  pub status_code : ℕ
  pub body : Text
  pub error_code : Text
  pub downstream_service : Text
  pub grpc_status : StatusCode

-- A unary call: by the target of the stub, the metadata and the request, what each attempt meets.
abbrev Rpc : Type 0 → Type 0 → Type 0
Rpc Q R = Text → Metadata → Q → ℕ → Attempt R

pub record Downstream : Type 0 where
  pub resolver : Option (Text → List ServiceInstance)
  pub get_config : Rpc GetConfigRequest ConfigEntry
  pub publish_config : Rpc ConfigEntry ℤ
  pub get_user : Rpc Text UserProfile
  pub create_user : Rpc Text UserProfile
  pub create_room : Rpc CreateRoomRequest Text
  pub join_room : Rpc JoinRoomRequest Bool
  pub limited_at : ℕ
  pub asked_at : ℕ

-- The counters that `finish` increments.
unfoldable pub count_route : Text → RouteResult → Metrics → Metrics
count_route path result m =
    let total = increment (lit "gateway_requests_total") 1 m in
    let route =
      increment (lit "gateway_requests_route_" ++ (to_metric_safe path ++ lit "_total")) 1 total in
    let status =
      increment (lit "gateway_requests_status_" ++ (show result.status_code ++ lit "_total")) 1
        route in
    if is_empty result.downstream_service
    then status
    else increment
        (lit "gateway_downstream_" ++ (to_metric_safe result.downstream_service ++ lit "_total")) 1
        status

unfoldable pub finish : Text → RouteResult → Exec Router RouteResult
finish path result r = (ok result, record r { metrics = count_route path result r.metrics })

-- `co_return finish({…, json.dump(), …})`
unfoldable pub finish_with : Text → (Text → RouteResult) → Result Text → Exec Router RouteResult
unfolding finish
finish_with path build (raised what) r = (raised what, r)
finish_with path build (ok body) r = finish path (build body) r

module _ (api : JsonApi) where
  unfoldable pub error_json : (code message : Text) → ℕ → api.Json
  error_json code message grpc_status = api.object (
      (lit "error", api.string message)
      ∷ (lit "code", api.string code)
      ∷ (lit "grpc_status", api.number (pos grpc_status))
      ∷ [])

  -- `body.empty() ? "{}" : body`
  abbrev pub parse_body : Text → Option api.Json
  parse_body body = api.parse (if is_empty body then lit "{}" else body)

  -- A result without a downstream service.
  unfoldable pub refuse : (path code : Text) → ℕ → StatusCode → Exec Router RouteResult
  unfolding finish_with
  refuse path code status_code grpc_status =
      finish_with path
        (λ body. record {
          status_code = status_code;
          body = body;
          error_code = code;
          downstream_service = [];
          grpc_status = grpc_status;
        })
        (api.dump (error_json code code 0))

  -- What follows the call in a branch. A response is there exactly when `status.ok()`.
  unfoldable pub reply :
      {R : Type 0}
      → (path service : Text) → (R → api.Json)
      → Status
      → Option R
      → Exec Router RouteResult
  unfolding finish_with
  reply path service answer status none =
      finish_with path
        (λ body. record {
          status_code = http_status_from_grpc status.code;
          body = body;
          error_code = lit "downstream_error";
          downstream_service = service;
          grpc_status = status.code;
        })
        (api.dump (error_json (lit "downstream_error") status.message (code_number status.code)))
  reply path service answer status (some resp) =
      finish_with path
        (λ body. record {
          status_code = 200;
          body = body;
          error_code = [];
          downstream_service = service;
          grpc_status = ok_code;
        })
        (api.dump (answer resp))

  -- The wrapper's handler of exceptions; the dump of its own error may raise once more.
  unfoldable pub caught : Result RouteResult × Router → Result RouteResult × Router
  unfolding error_json
  caught (ok result, r) = (ok result, r)
  caught (raised what, r) = (
    api.dump (error_json (lit "router_async_failed") what 0) >>= (λ body. ok (record {
      status_code = 503;
      body = body;
      error_code = lit "router_async_failed";
      downstream_service = [];
      grpc_status = unavailable;
    })),
    r,
  )

  module _ (down : Downstream) (path : Text) (ctx : RequestContext) where
    -- The call of InvokeWithResilienceAsync with the breaker and the limiter of the service.
    unfoldable pub call :
        {R : Type 0} → Text → (ℕ → Attempt R) → (R → api.Json) → Exec Router RouteResult
    unfolding reply
    call service rpc answer r =
        let i =
          invoke (get_runtime_config r) rpc (breaker_for service r) (rate_limiter_for service r)
            down.limited_at down.asked_at in
        reply path service answer i.status i.response
          (set_rate_limiter_for service i.limiter (set_breaker_for service i.breaker r))

    -- A branch: the stub is fetched, the request is read, and the service is called.
    unfoldable pub send :
        {Q R : Type 0}
        → Text
        → (Q → ℕ → Attempt R)
        → (R → api.Json)
        → Result Q
        → Exec Router RouteResult
    unfolding call
    send service rpc answer (raised what) r = (raised what, r)
    send service rpc answer (ok request) r = call service (rpc request) answer r

    abbrev target_of : Text → Text → Text
    target_of service fallback = resolve_target down.resolver service fallback ctx.traffic_tag

    -- The tests on the path.
    unfoldable pub dispatch : api.Json → Exec Router RouteResult
    unfolding send refuse get_config_stub get_user_stub get_game_stub
    dispatch json r =
        let config : Text = target_of (lit "config_service") r.targets.config_service_target in
        let user : Text = target_of (lit "user_service") r.targets.user_service_target in
        let game : Text = target_of (lit "game_service") r.targets.game_service_target in
        let metadata = add_metadata ctx in
        if str_eq path (lit "/config/get")
        then (let (stub, r') = get_config_stub config r in
            send (lit "config_service") (down.get_config stub metadata) (config_json api)
              (read_config_get api json) r')
        else if str_eq path (lit "/config/publish")
        then (let (stub, r') = get_config_stub config r in
            send (lit "config_service") (down.publish_config stub metadata)
              (λ version. api.object ((lit "version", api.number version) ∷ []))
              (read_config_publish api json) r')
        else if str_eq path (lit "/user/get")
        then (let (stub, r') = get_user_stub user r in
            send (lit "user_service") (down.get_user stub metadata) (user_json api)
              (api.value_string json (lit "user_id") ctx.user_id) r')
        else if str_eq path (lit "/user/create")
        then (let (stub, r') = get_user_stub user r in
            send (lit "user_service") (down.create_user stub metadata) (created_json api)
              (api.value_string json (lit "nickname") []) r')
        else if str_eq path (lit "/game/create-room")
        then (let (stub, r') = get_game_stub game r in
            send (lit "game_service") (down.create_room stub metadata)
              (λ room_id. api.object ((lit "room_id", api.string room_id) ∷ []))
              (read_create_room api json) r')
        else if str_eq path (lit "/game/join-room")
        then (let (stub, r') = get_game_stub game r in
            send (lit "game_service") (down.join_room stub metadata)
              (λ success. api.object ((lit "success", api.boolean success) ∷ []))
              (read_join_room api ctx json) r')
        else refuse path (lit "route_not_found") 404 not_found r

    -- `none` is a discarded value.
    unfoldable pub route_parsed : Option api.Json → Exec Router RouteResult
    unfolding dispatch refuse
    route_parsed none r = refuse path (lit "invalid_json") 400 invalid_argument r
    route_parsed (some json) r = dispatch json r

    unfoldable pub route_with_status_async : Text → Exec Router RouteResult
    unfolding route_parsed
    route_with_status_async body r = route_parsed (parse_body body) r

    unfoldable pub route_with_status : Text → Exec Router RouteResult
    unfolding route_with_status_async caught
    route_with_status body r = caught (route_with_status_async body r)

    abbrev body_of : Result RouteResult × Router → Result Text × Router
    body_of (ok result, r') = (ok result.body, r')
    body_of (raised what, r') = (raised what, r')

    unfoldable route : Text → Exec Router Text
    unfolding route_with_status
    route body r = body_of (route_with_status body r)

    unfoldable route_async : Text → Exec Router Text
    unfolding route_with_status_async
    route_async body r = body_of (route_with_status_async body r)
