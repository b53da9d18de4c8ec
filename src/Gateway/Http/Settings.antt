-- ===== src/Gateway/Http/Settings.antt =====
-- The runtime configuration of the router across requests.
use kd.Base.{
  ℕ, ◌≡◌, refl, subst, ◌⊎◌, inl, inr, Bool, Bool-cases, Option, none, some, Text, lit, str_eq,
  arith, Result, ok, raised, pos, ◌≤ℤ◌,
}
use kd.Json.{JsonApi}
use kd.Log.{set_log_level}
use kd.Context.{RequestContext}
use kd.Auth.Token.{AuthOptions}
use kd.Gateway.Invoke.{RouterRuntimeConfig}
use kd.Gateway.Router.{Router, sanitize, update_runtime_config}
use kd.Gateway.Router.Route.{RouteResult, Downstream, route_with_status_async}
use kd.Gateway.Router.Route.Isolation.{route-IsIsolated}
use kd.Gateway.Server.{
  Server, HttpResponse, respond, with_admin, with_user, with_router, report_level, post_level_name,
  post_level_member, post_level, admin_log_level,
}
use kd.Gateway.Http.{
  authenticated, route_request, to_response, handle_request_async, post_config_values, post_config,
  admin_runtime_config, Routing, next_seq,
}
use kd.Gateway.Http.Headers.{HeaderMap, request_context}

-- The bounds that UpdateRuntimeConfig enforces.
abbrev pub IsSane : RouterRuntimeConfig → Type 0
IsSane config =
    (pos 100 ≤ℤ config.grpc_timeout_ms)
    × (pos 1 ≤ℤ config.retry_attempts)
    × (pos 0 ≤ℤ config.retry_backoff_ms)

sanitize-IsSane : (config : RouterRuntimeConfig) → IsSane (sanitize config)
unfolding sanitize
sanitize-IsSane config = (ground arith, ground arith, ground arith)

-- Where there is a router afterwards, there was one before, with the same configuration, or the
-- configuration is a sane one now.
abbrev IsSettled : Option Router → Option Router → Type 0
IsSettled before after =
    (r' : Router)
    → after ≡ some r'
    → (r : Router) × (before ≡ some r)
      × ((r'.runtime_config ≡ r.runtime_config) ⊎ IsSane r'.runtime_config)

IsSettled-same : (before after : Option Router) → after ≡ before → IsSettled before after
IsSettled-same before after e r' h = (r', cc (e, h), inl refl)

IsSettled-some :
    (before after : Option Router) (r r' : Router)
    → before ≡ some r
    → after ≡ some r'
    → (r'.runtime_config ≡ r.runtime_config) ⊎ IsSane r'.runtime_config
    → IsSettled before after
IsSettled-some before after r r' e f h q k =
    let same : r' ≡ q = cc (f, k) in
    (r, e, subst (λ x. (x.runtime_config ≡ r.runtime_config) ⊎ IsSane x.runtime_config) same h)

respond-router : (t : Result Text) (s : Server) → (respond t s).1.router ≡ s.router
unfolding respond
respond-router (ok body) s = refl
respond-router (raised what) s = refl

module _ (api : JsonApi) (file_ok : Bool) where
  report_level-router : (s : Server) → (report_level api file_ok s).1.router ≡ s.router
  unfolding report_level
  report_level-router s = respond-router _ _

  post_level_name-router :
      (t : Result Text) (s : Server) → (post_level_name api file_ok t s).1.router ≡ s.router
  unfolding post_level_name
  post_level_name-router (raised what) s = refl
  post_level_name-router (ok level) s = elim (Bool-cases (set_log_level level file_ok s.log).0) [
    | inl done ↦ rw done (report_level-router _)
    | inr refused ↦ rw refused refl
  ]

  post_level_member-router :
      (v : Option api.Json) (s : Server) → (post_level_member api file_ok v s).1.router ≡ s.router
  unfolding post_level_member
  post_level_member-router none s = refl
  post_level_member-router (some level) s = elim (Bool-cases (api.is_string level)) [
    | inl text ↦ rw text (post_level_name-router _ s)
    | inr other ↦ rw other refl
  ]

  post_level-router :
      (json : Option api.Json) (s : Server) → (post_level api file_ok json s).1.router ≡ s.router
  unfolding post_level
  post_level-router none s = refl
  post_level-router (some json) s = post_level_member-router _ s

  admin_log_level-router :
      (method body : Text) (s : Server)
      → (admin_log_level api file_ok method body s).1.router ≡ s.router
  unfolding admin_log_level
  admin_log_level-router method body s = elim (Bool-cases (str_eq method (lit "get"))) [
    | inl get ↦ rw get (report_level-router s)
    | inr n ↦ elim (Bool-cases (str_eq method (lit "post"))) [
      | inl post ↦ rw (n, post) (post_level-router _ s)
      | inr n' ↦ rw (n, n') refl
    ]
  ]

module _ (api : JsonApi) (r : Router) (s : Server) (e : s.router ≡ some r) where
  post_config_values-IsSettled :
      (cfg : Result RouterRuntimeConfig)
      → IsSettled s.router (post_config_values api r cfg s).1.router
  unfolding post_config_values update_runtime_config
  post_config_values-IsSettled (raised what) = IsSettled-same _ _ refl
  post_config_values-IsSettled (ok cfg) =
      IsSettled-some _ _ r (update_runtime_config cfg r) e (respond-router _ _)
        (inr (sanitize-IsSane cfg))

  post_config-IsSettled :
      (json : Option api.Json) → IsSettled s.router (post_config api r json s).1.router
  unfolding post_config
  post_config-IsSettled none = IsSettled-same _ _ refl
  post_config-IsSettled (some json) = post_config_values-IsSettled _

  admin_runtime_config-IsSettled :
      (method body : Text) → IsSettled s.router (admin_runtime_config api method body r s).1.router
  unfolding admin_runtime_config
  admin_runtime_config-IsSettled method body = elim (Bool-cases (str_eq method (lit "get"))) [
    | inl get ↦ rw get (IsSettled-same _ _ (respond-router _ s))
    | inr n ↦ elim (Bool-cases (str_eq method (lit "post"))) [
      | inl post ↦ rw (n, post) (post_config-IsSettled _)
      | inr n' ↦ rw (n, n') (IsSettled-same _ _ refl)
    ]
  ]

  to_response-IsSettled :
      (out : Result RouteResult × Router) (t : Server)
      → out.1.runtime_config ≡ r.runtime_config
      → IsSettled s.router (to_response out t).1.router
  to_response-IsSettled (raised what, q) t same = IsSettled-some _ _ r q e refl (inl same)
  to_response-IsSettled (ok res, q) t same = IsSettled-some _ _ r q e refl (inl same)

with_admin-IsSettled :
    (auth : Result (Option RequestContext)) (handler : Server → Result HttpResponse × Server)
    (s : Server)
    → IsSettled s.router (handler s).1.router
    → IsSettled s.router (with_admin auth handler s).1.router
unfolding with_admin
with_admin-IsSettled (raised what) handler s h = IsSettled-same _ _ refl
with_admin-IsSettled (ok none) handler s h = IsSettled-same _ _ refl
with_admin-IsSettled (ok (some ctx)) handler s h =
    elim (Bool-cases (str_eq ctx.user_id (lit "dev-user"))) [
      | inl admin ↦ rw admin h
      | inr other ↦ rw other (IsSettled-same _ _ refl)
    ]

with_user-IsSettled :
    (auth : Result (Option RequestContext))
    (handler : RequestContext → Server → Result HttpResponse × Server) (s : Server)
    → ((ctx : RequestContext) → IsSettled s.router (handler ctx s).1.router)
    → IsSettled s.router (with_user auth handler s).1.router
unfolding with_user
with_user-IsSettled (raised what) handler s h = IsSettled-same _ _ refl
with_user-IsSettled (ok none) handler s h = IsSettled-same _ _ refl
with_user-IsSettled (ok (some ctx)) handler s h = h ctx

with_router-IsSettled :
    (router : Option Router) (handler : Router → Server → Result HttpResponse × Server) (s : Server)
    → ((r : Router) → router ≡ some r → IsSettled s.router (handler r s).1.router)
    → IsSettled s.router (with_router router handler s).1.router
unfolding with_router
with_router-IsSettled none handler s h = IsSettled-same _ _ refl
with_router-IsSettled (some r) handler s h = h r refl

module _ (api : JsonApi) (hmac : Text → Text → Text) (auth : Option AuthOptions) (now : ℕ)
    (file_ok : Bool) where
  -- RouteWithStatusAsync as the handler calls it.
  abbrev async_routing : Downstream → Routing
  async_routing down = λ path ctx. route_with_status_async api down path ctx

  route_request-IsSettled :
      (down : Downstream) (path body : Text) (headers : HeaderMap) (user_id : Text) (r : Router)
      (s : Server)
      → s.router ≡ some r
      → IsSettled s.router
          (route_request (async_routing down) path body headers user_id r s).1.router
  unfolding route_request
  route_request-IsSettled down path body headers user_id r s h =
      let ctx = request_context (lit "gw-req-") headers s.request_seq user_id in
      to_response-IsSettled api r s h (route_with_status_async api down path ctx body r)
        (next_seq s) (route-IsIsolated api path down ctx body r).1

  settings-IsSettled :
      (down : Downstream) (method path body token : Text) (headers : HeaderMap) (s : Server)
      → IsSettled s.router
          (handle_request_async api hmac auth now file_ok down method path body token headers
            s).1.router
  unfolding handle_request_async
  settings-IsSettled down method path body token headers s =
      elim (Bool-cases (str_eq path (lit "/health"))) [
        | inl e ↦ rw e (IsSettled-same _ _ refl)
        | inr n1 ↦ elim (Bool-cases (str_eq path (lit "/ready"))) [
          | inl e ↦ rw (n1, e) (IsSettled-same _ _ refl)
          | inr n2 ↦ elim (Bool-cases (str_eq path (lit "/metrics"))) [
            | inl e ↦ rw (n1, n2, e) (IsSettled-same _ _ refl)
            | inr n3 ↦ elim (Bool-cases (str_eq path (lit "/admin/log-level"))) [
              | inl e ↦
                  rw (n1, n2, n3, e)
                    (with_admin-IsSettled _ _ s
                      (IsSettled-same _ _ (admin_log_level-router api file_ok _ body s)))
              | inr n4 ↦ elim (Bool-cases (str_eq path (lit "/admin/runtime-config"))) [
                | inl e ↦
                    rw (n1, n2, n3, n4, e)
                      (with_admin-IsSettled _ _ s (
                        with_router-IsSettled s.router _ s
                          (λ r h. admin_runtime_config-IsSettled api r s h _ body)))
                | inr n5 ↦
                    rw (n1, n2, n3, n4, n5)
                      (with_user-IsSettled (authenticated api hmac auth now token)
                        (λ ctx s'.
                          with_router s'.router
                            (route_request (async_routing down) path body headers ctx.user_id) s')
                        s
                        (λ ctx.
                          with_router-IsSettled s.router
                            (route_request (async_routing down) path body headers ctx.user_id) s
                            (λ r h.
                              route_request-IsSettled down path body headers ctx.user_id r s h)))
              ]
            ]
          ]
        ]
      ]

  -- No request puts the runtime configuration out of its bounds: after any request, whether it
  -- completes or raises, the configuration is what it was, or its timeout is at least 100 ms, its
  -- attempts at least 1 and its back-off at least 0. No request adds a router.
  pub settings_bounded :
      (down : Downstream) (method path body token : Text) (headers : HeaderMap) (s : Server)
      (r' : Router)
      → (handle_request_async api hmac auth now file_ok down method path body token headers
          s).1.router
        ≡ some r'
      → (r : Router) × (s.router ≡ some r)
        × ((r'.runtime_config ≡ r.runtime_config) ⊎ IsSane r'.runtime_config)
  settings_bounded down method path body token headers s r' h =
      settings-IsSettled down method path body token headers s r' h
