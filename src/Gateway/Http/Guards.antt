-- ===== src/Gateway/Http/Guards.antt =====
-- What a request may do without authentication, and without the rights of an administrator.
use kd.Base.{
  ℕ, ◌≡◌, refl, ◌⊎◌, inl, inr, Bool, true, false, ◌||◌, Bool-cases, Option, none, some, Text, lit,
  str_eq, eq_of_str_eq, arith, Result, ok,
}
use kd.Json.{JsonApi}
use kd.Context.{RequestContext}
use kd.Auth.Token.{AuthOptions}
use kd.Gateway.Server.{Server, HttpResponse, json_response, with_admin, with_user}
use kd.Gateway.Http.{Routing, authenticated, handle_request, handle_request_async}
use kd.Gateway.Http.Body.{
  shared_body, handle_request-eq-shared_body, handle_request_async-eq-shared_body,
}
use kd.Gateway.Router.Route.{Downstream}
use kd.Gateway.Http.Headers.{HeaderMap}

abbrev is_public : Text → Bool
is_public path =
    str_eq path (lit "/health") || str_eq path (lit "/ready") || str_eq path (lit "/metrics")

abbrev is_admin : Text → Bool
is_admin path = str_eq path (lit "/admin/log-level") || str_eq path (lit "/admin/runtime-config")

-- Refused with the status 401 and no effect.
abbrev pub IsRefused : Server → Result HttpResponse × Server → Type 0
IsRefused s out = (out.1 ≡ s) × ((body : Text) × (out.0 ≡ ok (json_response 401 body)))

-- The authenticated user may not administer: nobody, or not `dev-user`.
abbrev IsPowerless : Result (Option RequestContext) → Type 0
IsPowerless auth =
    (auth ≡ ok none)
    ⊎ ((ctx : RequestContext) × (auth ≡ ok (some ctx))
        × (str_eq ctx.user_id (lit "dev-user") ≡ false))

with_user-none :
    (auth : Result (Option RequestContext))
    (handler : RequestContext → Server → Result HttpResponse × Server) (s : Server)
    → auth ≡ ok none
    → IsRefused s (with_user auth handler s)
unfolding with_user
with_user-none auth handler s e = rw e (refl, (_, refl))

with_admin-powerless :
    (auth : Result (Option RequestContext)) (handler : Server → Result HttpResponse × Server)
    (s : Server)
    → IsPowerless auth
    → IsRefused s (with_admin auth handler s)
unfolding with_admin
with_admin-powerless auth handler s (inl e) = rw e (refl, (_, refl))
with_admin-powerless auth handler s (inr (ctx, e, other)) = rw (e, other) (refl, (_, refl))

module _ (api : JsonApi) (file_ok : Bool) (hmac : Text → Text → Text) (auth : Option AuthOptions)
    (now : ℕ) where
  unauthenticated_body :
      (routing : Routing) (method path body token : Text) (headers : HeaderMap) (s : Server)
      → authenticated api hmac auth now token ≡ ok none
      → is_public path ≡ false
      → IsRefused s (shared_body api hmac auth now file_ok routing method path body token headers s)
  unfolding shared_body
  unauthenticated_body routing method path body token headers s e private =
      let health : str_eq path (lit "/health") ≡ false = ground arith in
      let ready : str_eq path (lit "/ready") ≡ false = ground arith in
      let metrics : str_eq path (lit "/metrics") ≡ false = ground arith in
      elim (Bool-cases (str_eq path (lit "/admin/log-level"))) [
        | inl log ↦ rw (health, ready, metrics, log) (with_admin-powerless _ _ s (inl e))
        | inr n ↦ elim (Bool-cases (str_eq path (lit "/admin/runtime-config"))) [
          | inl config ↦ rw (health, ready, metrics, n, config) (with_admin-powerless _ _ s (inl e))
          | inr n' ↦ rw (health, ready, metrics, n, n') (with_user-none _ _ s e)
        ]
      ]

  admin_body :
      (routing : Routing) (method path body token : Text) (headers : HeaderMap) (s : Server)
      → IsPowerless (authenticated api hmac auth now token)
      → is_admin path ≡ true
      → IsRefused s (shared_body api hmac auth now file_ok routing method path body token headers s)
  unfolding shared_body lit str_eq
  admin_body routing method path body token headers s e admin =
      elim (Bool-cases (str_eq path (lit "/admin/log-level"))) [
        | inl log ↦ rw (eq_of_str_eq path _ log) (with_admin-powerless _ _ s e)
        | inr n ↦
            let config : str_eq path (lit "/admin/runtime-config") ≡ true = ground arith in
            rw (eq_of_str_eq path _ config) (with_admin-powerless _ _ s e)
      ]

  -- Refused by both handlers, whatever the services would answer.
  module _ (down : Downstream) (method path body token : Text) (headers : HeaderMap)
      (s : Server) where
    abbrev RefusedByBoth : Type 0
    RefusedByBoth =
        IsRefused s (handle_request api hmac auth now file_ok down method path body token headers s)
        × IsRefused s
            (handle_request_async api hmac auth now file_ok down method path body token headers s)

    both :
        ((routing : Routing)
          → IsRefused s
              (shared_body api hmac auth now file_ok routing method path body token headers s))
        → RefusedByBoth
    both refused = (
      rw
          (handle_request-eq-shared_body api hmac auth now file_ok down method path body token
            headers s)
          (refused _),
      rw
          (handle_request_async-eq-shared_body api hmac auth now file_ok down method path body token
            headers s)
          (refused _),
    )

    -- A request that fails authentication is refused by HandleRequest and by HandleRequestAsync with
    -- the status 401 and changes nothing, unless its path is one of the three public ones.
    pub unauthenticated-IsRefused :
        authenticated api hmac auth now token ≡ ok none → is_public path ≡ false → RefusedByBoth
    unauthenticated-IsRefused e private =
        both (λ routing. unauthenticated_body routing method path body token headers s e private)

    -- An administrative path of a user other than `dev-user` is refused by HandleRequest and by
    -- HandleRequestAsync with the status 401 and changes nothing, whatever the method.
    pub admin-IsRefused :
        IsPowerless (authenticated api hmac auth now token) → is_admin path ≡ true → RefusedByBoth
    admin-IsRefused e admin =
        both (λ routing. admin_body routing method path body token headers s e admin)
