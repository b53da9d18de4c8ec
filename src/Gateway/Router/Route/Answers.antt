-- ===== src/Gateway/Router/Route/Answers.antt =====
-- What a routed request answers, and what it may change in the router.
use kd.Base.{
  ℕ, ◌≤◌, ◌≡◌, refl, ◌⊎◌, inl, inr, true, false, Option, none, some, Text, lit, str_eq, starts_with,
  eq_of_str_eq, [], arith, Bool-cases, Result, ok, raised,
}
use kd.Json.{JsonApi}
use kd.Context.{RequestContext}
use kd.Api.{StatusCode, invalid_argument, not_found, ok_code, is_ok, is_ok_code, Status}
use kd.Governance.Breaker.{Breaker}
use kd.Governance.Limiter.{Limiter}
use kd.Gateway.Invoke.{RouterRuntimeConfig, Attempt, invoke, http_status_from_grpc}
use kd.Gateway.Invoke.Spec.{invoke_outcome}
use kd.Gateway.Router.{Router, get_config_stub, get_user_stub, get_game_stub}
use kd.Gateway.Router.Route.{
  RouteResult, Downstream, finish, finish_with, refuse, reply, call, send, dispatch, route_parsed,
  route_with_status_async,
}

-- A result is a success with the status OK, or an error whose HTTP status is that of its gRPC status.
abbrev pub IsMapped : RouteResult → Type 0
IsMapped res =
    ((res.status_code ≡ 200) × (res.grpc_status ≡ ok_code) × (res.error_code ≡ []))
    ⊎ ((is_ok_code res.grpc_status ≡ false)
        × (res.status_code ≡ http_status_from_grpc res.grpc_status)
        × (400 ≤ res.status_code))

errors_from_400 : (c : StatusCode) → 400 ≤ http_status_from_grpc c
unfolding http_status_from_grpc
errors_from_400 c = ground arith

module _ {R : Type 0} (runtime : RouterRuntimeConfig) (env : ℕ → Attempt R) where
  invoke-none :
      (breaker : Breaker) (limiter : Limiter) (limited_at asked_at : ℕ)
      → let i = invoke runtime env breaker limiter limited_at asked_at in
        i.response ≡ none → is_ok i.status ≡ false
  invoke-none breaker limiter limited_at asked_at missing =
      elim (invoke_outcome runtime env breaker limiter limited_at asked_at) [
        | inl (a, b, c, code, d) ↦ rw code refl
        | inr (inl (a, b, c, d, code, e)) ↦ rw code refl
        | inr (inr (a, b, answered)) ↦ elim answered.ends [
          | inl (good, same, some_response, b', rest) ↦ absurd (cc (missing, some_response))
          | inr (inl (bad, same, c, d)) ↦ rw same bad
          | inr (inr (bad, code, c, d, e)) ↦ rw code refl
        ]
      ]

finish_with-eq-ok :
    (path : Text) (build : Text → RouteResult) (t : Result Text) (r : Router) {res : RouteResult}
    → (finish_with path build t r).0 ≡ ok res
    → (body : Text) × (t ≡ ok body) × (res ≡ build body)
unfolding finish_with finish
finish_with-eq-ok path build (ok body) r h = (body, refl, cc h)
finish_with-eq-ok path build (raised what) r h = absurd (cc h)

under :
    (whole prefix : Text) (path : Text)
    → str_eq path whole ≡ true
    → starts_with whole prefix ≡ true
    → starts_with path prefix ≡ true
under whole prefix path e h = rw (eq_of_str_eq _ whole e) h

module _ (api : JsonApi) where
  reply-IsMapped :
      {R : Type 0} (path service : Text) (answer : R → api.Json) (status : Status)
      (response : Option R) (r : Router) {res : RouteResult}
      → (response ≡ none → is_ok status ≡ false)
      → (reply api path service answer status response r).0 ≡ ok res
      → IsMapped res
  unfolding reply
  reply-IsMapped path service answer status none r failed h =
      let (body, e, same) = finish_with-eq-ok path _ _ r h in
      rw same (inr (failed refl, refl, errors_from_400 status.code))
  reply-IsMapped path service answer status (some resp) r failed h =
      let (body, e, same) = finish_with-eq-ok path _ _ r h in rw same (inl (refl, refl, refl))

  refuse-IsMapped :
      (path code : Text) (n : ℕ) (c : StatusCode) (r : Router) {res : RouteResult}
      → is_ok_code c ≡ false
      → n ≡ http_status_from_grpc c
      → (refuse api path code n c r).0 ≡ ok res
      → IsMapped res
  unfolding refuse
  refuse-IsMapped path code n c r bad same h =
      let (body, e, built) = finish_with-eq-ok path _ _ r h in
      rw built (inr (bad, same, rw same (errors_from_400 c)))

  module _ (down : Downstream) (path : Text) (ctx : RequestContext) where
    send-IsMapped :
        {Q R : Type 0} (service : Text) (rpc : Q → ℕ → Attempt R) (answer : R → api.Json)
        (request : Result Q) (r : Router) {res : RouteResult}
        → (send api down path ctx service rpc answer request r).0 ≡ ok res
        → IsMapped res
    unfolding send call
    send-IsMapped service rpc answer (raised what) r h = absurd (cc h)
    send-IsMapped service rpc answer (ok q) r h =
        reply-IsMapped path service answer _ _ _ (invoke-none _ (rpc q) _ _ _ _) h

    -- The routes, service by service: what holds of every call of the three services after the
    -- stub was fetched, and of a refusal, holds of `dispatch`.
    pub dispatch_cases {ℓ} :
        (P : Result RouteResult × Router → Type ℓ) (json : api.Json) (r : Router)
        → (starts_with path (lit "/config/") ≡ true
            → (Q R : Type 0) (target : Text) (rpc : Q → ℕ → Attempt R) (answer : R → api.Json)
              (request : Result Q)
            → P (
                send api down path ctx
                  (lit "config_service")
                  rpc
                  answer
                  request
                  (get_config_stub target r).1))
        → (starts_with path (lit "/user/") ≡ true
            → (Q R : Type 0) (target : Text) (rpc : Q → ℕ → Attempt R) (answer : R → api.Json)
              (request : Result Q)
            → P (
                send api down path ctx
                  (lit "user_service")
                  rpc
                  answer
                  request
                  (get_user_stub target r).1))
        → (starts_with path (lit "/game/") ≡ true
            → (Q R : Type 0) (target : Text) (rpc : Q → ℕ → Attempt R) (answer : R → api.Json)
              (request : Result Q)
            → P (
                send api down path ctx
                  (lit "game_service")
                  rpc
                  answer
                  request
                  (get_game_stub target r).1))
        → P (refuse api path (lit "route_not_found") 404 not_found r)
        → P (dispatch api down path ctx json r)
    unfolding dispatch starts_with lit
    dispatch_cases P json r config user game refused =
        elim (Bool-cases (str_eq path (lit "/config/get"))) [
          | inl e ↦
              rw e (config (under (lit "/config/get") (lit "/config/") path e refl) _ _ _ _ _ _)
          | inr n1 ↦ elim (Bool-cases (str_eq path (lit "/config/publish"))) [
            | inl e ↦
                rw (n1, e)
                  (config (under (lit "/config/publish") (lit "/config/") path e refl) _ _ _ _ _ _)
            | inr n2 ↦ elim (Bool-cases (str_eq path (lit "/user/get"))) [
              | inl e ↦
                  rw (n1, n2, e)
                    (user (under (lit "/user/get") (lit "/user/") path e refl) _ _ _ _ _ _)
              | inr n3 ↦ elim (Bool-cases (str_eq path (lit "/user/create"))) [
                | inl e ↦
                    rw (n1, n2, n3, e)
                      (user (under (lit "/user/create") (lit "/user/") path e refl) _ _ _ _ _ _)
                | inr n4 ↦ elim (Bool-cases (str_eq path (lit "/game/create-room"))) [
                  | inl e ↦
                      rw (n1, n2, n3, n4, e)
                        (game (under (lit "/game/create-room") (lit "/game/") path e refl) _ _ _ _ _
                          _)
                  | inr n5 ↦ elim (Bool-cases (str_eq path (lit "/game/join-room"))) [
                    | inl e ↦
                        rw (n1, n2, n3, n4, n5, e)
                          (game (under (lit "/game/join-room") (lit "/game/") path e refl) _ _ _ _ _
                            _)
                    | inr n6 ↦ rw (n1, n2, n3, n4, n5, n6) refused
                  ]
                ]
              ]
            ]
          ]
        ]

    parsed-IsMapped :
        (json : Option api.Json) (r : Router) {res : RouteResult}
        → (route_parsed api down path ctx json r).0 ≡ ok res
        → IsMapped res
    unfolding route_parsed http_status_from_grpc
    parsed-IsMapped none r h =
        refuse-IsMapped path (lit "invalid_json") 400 invalid_argument r refl refl h
    parsed-IsMapped (some json) r {res} h =
        dispatch_cases (λ out. out.0 ≡ ok res → IsMapped res) json r
          (λ e Q R target rpc answer request. send-IsMapped _ rpc answer request _)
          (λ e Q R target rpc answer request. send-IsMapped _ rpc answer request _)
          (λ e Q R target rpc answer request. send-IsMapped _ rpc answer request _)
          (refuse-IsMapped path (lit "route_not_found") 404 not_found r refl refl) h

    -- Every route that completes, whatever its path and body, answers 200 with the status OK and no
    -- error code, or answers the HTTP status of its gRPC status, which is not OK, and that is at
    -- least 400.
    pub route-IsMapped :
        (body : Text) (r : Router) {res : RouteResult}
        → (route_with_status_async api down path ctx body r).0 ≡ ok res
        → IsMapped res
    unfolding route_with_status_async
    route-IsMapped body r h = parsed-IsMapped _ r h
