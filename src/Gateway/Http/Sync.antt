-- ===== src/Gateway/Http/Sync.antt =====
-- HandleRequest and HandleRequestAsync.
use kd.Base.{
  ℕ, ◌≡◌, refl, ap, ◌⊎◌, Bool, inl, inr, Bool-cases, Option, none, some, Text, lit, str_eq, Result,
  ok, raised, ◌>>=◌,
}
use kd.Json.{JsonApi}
use kd.Context.{RequestContext}
use kd.Auth.Token.{AuthOptions}
use kd.Gateway.Router.{Router}
use kd.Gateway.Router.Route.{
  RouteResult, Downstream, route_with_status, route_with_status_async, caught, error_json,
}
use kd.Gateway.Server.{Server, HttpResponse, json_response, with_user, with_router}
use kd.Gateway.Http.{
  Routing, authenticated, route_request, to_response, next_seq, handle_request,
  handle_request_async,
}
use kd.Gateway.Http.Body.{
  shared_body, handle_request-eq-shared_body, handle_request_async-eq-shared_body,
}
use kd.Gateway.Http.Headers.{HeaderMap}

module _ (api : JsonApi) where
  -- The response to an exception of a route: a 503 with its text, if the text can be dumped.
  abbrev failure_response : Text → Result HttpResponse
  failure_response what =
      api.dump (error_json api (lit "router_async_failed") what 0)
      >>= (λ body. ok (json_response 503 body))

  -- The same outcome; or the second raised, and the first answers that and leaves the same state.
  abbrev pub Agree : (first second : Result HttpResponse × Server) → Type 0
  Agree first second =
      (first ≡ second)
      ⊎ ((what : Text) × (second.0 ≡ raised what) × (first ≡ (failure_response what, second.1)))

  with_user-Agree :
      (auth : Result (Option RequestContext))
      (first second : RequestContext → Server → Result HttpResponse × Server) (s : Server)
      → ((ctx : RequestContext) → Agree (first ctx s) (second ctx s))
      → Agree (with_user auth first s) (with_user auth second s)
  unfolding with_user
  with_user-Agree (raised what) first second s h = inl refl
  with_user-Agree (ok none) first second s h = inl refl
  with_user-Agree (ok (some ctx)) first second s h = h ctx

  with_router-Agree :
      (router : Option Router) (first second : Router → Server → Result HttpResponse × Server)
      (s : Server)
      → ((r : Router) → Agree (first r s) (second r s))
      → Agree (with_router router first s) (with_router router second s)
  unfolding with_router
  with_router-Agree none first second s h = inl refl
  with_router-Agree (some r) first second s h = h r

  caught_raised :
      (dumped : Result Text) (r : Router) (s : Server) (result : Text → RouteResult)
      → ((body : Text)
          → json_response (result body).status_code (result body).body ≡ json_response 503 body)
      → to_response (dumped >>= (λ body. ok (result body)), r) s
        ≡ (dumped >>= (λ body. ok (json_response 503 body)), record s { router = some r })
  caught_raised (raised what) r s result h = refl
  caught_raised (ok body) r s result h = ap (λ res. (ok res, record s { router = some r })) (h body)

  caught-Agree :
      (out : Result RouteResult × Router) (s : Server)
      → Agree (to_response (caught api out) s) (to_response out s)
  unfolding caught
  caught-Agree (raised what, r) s = inr (what, refl, caught_raised _ r s _ (λ body. refl))
  caught-Agree (ok routed, r) s = inl refl

  module _ (down : Downstream) where
    abbrev sync : Routing
    sync = λ path ctx. route_with_status api down path ctx

    abbrev async : Routing
    async = λ path ctx. route_with_status_async api down path ctx

    route_request-Agree :
        (path body : Text) (headers : HeaderMap) (user_id : Text) (r : Router) (s : Server)
        → Agree
            (route_request sync path body headers user_id r s)
            (route_request async path body headers user_id r s)
    unfolding route_request route_with_status
    route_request-Agree path body headers user_id r s = caught-Agree _ (next_seq s)

    shared_body-Agree :
        (hmac : Text → Text → Text) (auth : Option AuthOptions) (now : ℕ) (file_ok : Bool)
        (method path body token : Text) (headers : HeaderMap) (s : Server)
        → Agree
            (shared_body api hmac auth now file_ok sync method path body token headers s)
            (shared_body api hmac auth now file_ok async method path body token headers s)
    unfolding shared_body
    shared_body-Agree hmac auth now file_ok method path body token headers s =
        elim (Bool-cases (str_eq path (lit "/health"))) [
          | inl e ↦ rw e (inl refl)
          | inr n1 ↦ elim (Bool-cases (str_eq path (lit "/ready"))) [
            | inl e ↦ rw (n1, e) (inl refl)
            | inr n2 ↦ elim (Bool-cases (str_eq path (lit "/metrics"))) [
              | inl e ↦ rw (n1, n2, e) (inl refl)
              | inr n3 ↦ elim (Bool-cases (str_eq path (lit "/admin/log-level"))) [
                | inl e ↦ rw (n1, n2, n3, e) (inl refl)
                | inr n4 ↦ elim (Bool-cases (str_eq path (lit "/admin/runtime-config"))) [
                  | inl e ↦ rw (n1, n2, n3, n4, e) (inl refl)
                  | inr n5 ↦
                      rw (n1, n2, n3, n4, n5)
                        (with_user-Agree (authenticated api hmac auth now token) _ _ s (λ ctx.
                          with_router-Agree s.router _ _ s
                            (λ r. route_request-Agree path body headers ctx.user_id r s)))
                ]
              ]
            ]
          ]
        ]

    -- HandleRequest and HandleRequestAsync give the same response, or raise the same exception, and
    -- leave the same state, but for one case: where a route raises in HandleRequestAsync,
    -- HandleRequest leaves the same state and answers 503 with the text of the exception as JSON, or
    -- raises what the dump of that JSON raises.
    pub sync_agrees :
        (hmac : Text → Text → Text) (auth : Option AuthOptions) (now : ℕ) (file_ok : Bool)
        (method path body token : Text) (headers : HeaderMap) (s : Server)
        → Agree
            (handle_request api hmac auth now file_ok down method path body token headers s)
            (handle_request_async api hmac auth now file_ok down method path body token headers s)
    sync_agrees hmac auth now file_ok method path body token headers s =
        rw
          (
            handle_request-eq-shared_body api hmac auth now file_ok down method path body token
                headers s,
            handle_request_async-eq-shared_body api hmac auth now file_ok down method path body
                token headers s,
          )
          (shared_body-Agree hmac auth now file_ok method path body token headers s)
