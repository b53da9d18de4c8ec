-- ===== src/Gateway/Http.antt =====
-- The handlers of HttpServer in gateways/access_gateway/http/http_server.cpp. `auth` is `none` for a
-- null middleware. Session and Lifecycle model the connections and the threads around them.
pub mod Headers
pub mod Body
pub mod Guards
pub mod Settings
pub mod Sync
pub mod Ws
use kd.Base.{
  ℕ, suc, ◌+◌, ◌%◌, ◌^◌, ◌++◌, Bool, true, false, not, ◌||◌, ◌&&◌, Option, none, some, Text, lit,
  str_eq, is_empty, [], ◌∷◌, if◌then◌else◌, ℤ, pos, show, Result, ok, raised, ◌>>=◌, List,
}
use kd.Base.Exec.{Exec}
use kd.Json.{JsonApi}
use kd.Log.{to_lower_ascii}
use kd.Context.{RequestContext, no_context}
use kd.Auth.Token.{AuthOptions, authenticate}
use kd.Metrics.{render_prometheus}
use kd.Gateway.Invoke.{RouterRuntimeConfig}
use kd.Gateway.Router.{Router, get_runtime_config, update_runtime_config}
use kd.Gateway.Router.Route.{RouteResult, Downstream, route_with_status, route_with_status_async}
use kd.Gateway.Server.{
  Server, HttpResponse, json_response, respond, ready, registry, with_admin, with_user, with_router,
  not_allowed, bad_request, parse_body, admin_log_level,
}
use kd.Gateway.Http.Headers.{HeaderMap, request_context, normalize_headers}

module _ (api : JsonApi) where
  unfoldable pub config_json : RouterRuntimeConfig → api.Json
  config_json cfg = api.object (
      (lit "grpc_timeout_ms", api.number cfg.grpc_timeout_ms)
      ∷ (lit "retry_attempts", api.number cfg.retry_attempts)
      ∷ (lit "retry_backoff_ms", api.number cfg.retry_backoff_ms)
      ∷ [])

  -- `if (json.contains(key)) field = json[key].get<int>()`
  unfoldable override : Option api.Json → ℤ → Result ℤ
  override none field = ok field
  override (some v) field = api.get_int v

  unfoldable read_runtime_config : api.Json → RouterRuntimeConfig → Result RouterRuntimeConfig
  unfolding override
  read_runtime_config json cfg =
      override (api.find json (lit "grpc_timeout_ms")) cfg.grpc_timeout_ms >>= (λ timeout.
        override (api.find json (lit "retry_attempts")) cfg.retry_attempts >>= (λ attempts.
          override (api.find json (lit "retry_backoff_ms")) cfg.retry_backoff_ms >>= (λ backoff.
            ok (record {
              grpc_timeout_ms = timeout;
              retry_attempts = attempts;
              retry_backoff_ms = backoff;
            }))))

  unfoldable pub post_config_values : Router → Result RouterRuntimeConfig → Exec Server HttpResponse
  unfolding update_runtime_config get_runtime_config respond config_json
  post_config_values r (raised what) s = (raised what, s)
  post_config_values r (ok cfg) s =
      let r' = update_runtime_config cfg r in
      respond (api.dump (config_json (get_runtime_config r'))) (record s { router = some r' })

  unfoldable pub post_config : Router → Option api.Json → Exec Server HttpResponse
  unfolding post_config_values read_runtime_config
  post_config r none s = bad_request (lit "{\"error\":\"invalid_json\"}") s
  post_config r (some json) s =
      post_config_values r (read_runtime_config json (get_runtime_config r)) s

  -- /admin/runtime-config
  unfoldable pub admin_runtime_config : (method body : Text) → Router → Exec Server HttpResponse
  unfolding post_config respond config_json
  admin_runtime_config method body r s =
      if str_eq method (lit "get")
      then respond (api.dump (config_json (get_runtime_config r))) s
      else if str_eq method (lit "post")
      then post_config r (parse_body api body) s
      else not_allowed s

abbrev pub to_response : Result RouteResult × Router → Server → Result HttpResponse × Server
to_response (raised what, r) s = (raised what, record s { router = some r })
to_response (ok routed, r) s =
    (ok (json_response routed.status_code routed.body), record s { router = some r })

-- How a path, a body and a context are routed.
abbrev pub Routing : Type 0
Routing = Text → RequestContext → Text → Router → Result RouteResult × Router

-- request_seq_.fetch_add(1)
abbrev pub next_seq : Server → Server
next_seq s = record s { request_seq = (s.request_seq + 1) % 2 ^ 64 }

unfoldable pub route_request :
    Routing
    → (path body : Text) → HeaderMap
    → (user_id : Text) → Router
    → Server
    → Result HttpResponse × Server
unfolding request_context
route_request routing path body headers user_id r s =
    let ctx = request_context (lit "gw-req-") headers s.request_seq user_id in
    to_response (routing path ctx body r) (next_seq s)

module _ (api : JsonApi) (hmac : Text → Text → Text) (auth : Option AuthOptions) (now : ℕ) where
  -- `auth_ ? auth_->Authenticate(auth_token) : RequestContext{}`
  unfoldable pub authenticated : Text → Result (Option RequestContext)
  unfolding authenticate
  authenticated auth_token = elim auth [
    | none ↦ ok (some no_context)
    | some options ↦ authenticate api hmac options now auth_token
  ]

  module _ (file_ok : Bool) where
    module _ (down : Downstream) where
      -- HandleRequest
      unfoldable pub handle_request :
          (method path body auth_token : Text) → HeaderMap → Exec Server HttpResponse
      unfolding admin_log_level admin_runtime_config route_request authenticated with_admin
          with_user with_router ready render_prometheus to_lower_ascii route_with_status
      handle_request method path body auth_token headers s =
          let normalized_method : Text = to_lower_ascii method in
          let auth_ctx = authenticated auth_token in
          if str_eq path (lit "/health")
          then (
            ok (json_response 200 (lit "{\"status\":\"ok\",\"service\":\"access_gateway\"}")),
            s,
          )
          else if str_eq path (lit "/ready")
          then (ok (ready s.router), s)
          else if str_eq path (lit "/metrics")
          then (
            ok (record {
              status_code = 200;
              body = render_prometheus (registry s.router s.idle_metrics);
              content_type = lit "text/plain; charset=utf-8";
            }),
            s,
          )
          else if str_eq path (lit "/admin/log-level")
          then with_admin auth_ctx (admin_log_level api file_ok normalized_method body) s
          else if str_eq path (lit "/admin/runtime-config")
          then with_admin auth_ctx
              (λ s'. with_router s'.router (admin_runtime_config api normalized_method body) s') s
          else with_user auth_ctx
              (λ ctx s'.
                with_router s'.router
                  (route_request (λ path ctx. route_with_status api down path ctx) path body headers
                    ctx.user_id)
                  s')
              s

      -- HandleRequestAsync
      unfoldable pub handle_request_async :
          (method path body auth_token : Text) → HeaderMap → Exec Server HttpResponse
      unfolding admin_log_level admin_runtime_config route_request authenticated with_admin
          with_user with_router ready render_prometheus to_lower_ascii route_with_status_async
      handle_request_async method path body auth_token headers s =
          let normalized_method : Text = to_lower_ascii method in
          let auth_ctx = authenticated auth_token in
          if str_eq path (lit "/health")
          then (
            ok (json_response 200 (lit "{\"status\":\"ok\",\"service\":\"access_gateway\"}")),
            s,
          )
          else if str_eq path (lit "/ready")
          then (ok (ready s.router), s)
          else if str_eq path (lit "/metrics")
          then (
            ok (record {
              status_code = 200;
              body = render_prometheus (registry s.router s.idle_metrics);
              content_type = lit "text/plain; charset=utf-8";
            }),
            s,
          )
          else if str_eq path (lit "/admin/log-level")
          then with_admin auth_ctx (admin_log_level api file_ok normalized_method body) s
          else if str_eq path (lit "/admin/runtime-config")
          then with_admin auth_ctx
              (λ s'. with_router s'.router (admin_runtime_config api normalized_method body) s') s
          else with_user auth_ctx
              (λ ctx s'.
                with_router s'.router
                  (route_request (λ path ctx. route_with_status_async api down path ctx) path body
                    headers ctx.user_id)
                  s')
              s

      -- HandleRequestForTesting
      unfoldable handle_request_for_testing :
          (path body auth_token : Text)
          → List (Text × Text)
          → (method : Text) → Exec Server HttpResponse
      unfolding handle_request normalize_headers
      handle_request_for_testing path body auth_token headers method =
          handle_request method path body auth_token (normalize_headers headers [])
