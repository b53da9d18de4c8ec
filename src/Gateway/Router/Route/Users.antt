-- ===== src/Gateway/Router/Route/Users.antt =====
-- The user routes against the user service of services/user_service.
use kd.Base.{
  ℕ, zero, suc, ◌≤◌, ◌≡◌, refl, ap, ◌∙◌, true, false, Option, none, some, [], ◌∷◌, Text, lit,
  str_eq, lookup, is_empty, if◌then◌else◌, ℤ, FitsInt64, ok, arith,
}
use kd.Json.{JsonApi, JsonLaws}
use kd.Context.{RequestContext}
use kd.Api.{UserProfile, no_profile, Status, status_ok, ok_code}
use kd.Governance.Breaker.{Breaker, allow_request}
use kd.Governance.Limiter.{Limiter, allow}
use kd.Services.Answering.{answered, answered-ok}
use kd.Services.User.{UserService, create_user, get_user, new_profile, serialize_profile}
use kd.Services.User.Lookup.{IsKeyedOption, create_get}
use kd.Gateway.Invoke.{RouterRuntimeConfig, Attempt, invoke, attempt_loop, attempts_of}
use kd.Gateway.Invoke.Spec.{attempts_positive}
use kd.Gateway.Messages.{user_json, created_json}
use kd.Gateway.Router.{
  Router, get_user_stub, user_stub_or, get_runtime_config, breaker_for, rate_limiter_for,
}
use kd.Gateway.Router.Route.{
  Downstream, RouteResult, parse_body, finish, finish_with, reply, call, send, dispatch,
  route_parsed, route_with_status_async,
}

-- The first attempt's meeting with a service that answers at once.
abbrev met : {R : Type 0} → Status × R → ℕ → Attempt R
met (status, response) k = record {
  status = status;
  response = response;
  failed_at = 0;
  others = λ b. b;
  backoff_cancelled = false;
}

-- The router's view of a user service in the state `s`.
abbrev pub user_service_of :
    (api : JsonApi)
    → (unhandled : Text → Status) → (now : ℕ) → (time : ℤ) → Downstream
    → UserService
    → Downstream
user_service_of api unhandled now time others s = record others {
  create_user = λ target metadata nickname.
      met (answered unhandled no_profile (create_user api nickname time s));
  get_user =
      λ target metadata user_id. met (answered unhandled no_profile (get_user api now user_id s));
}

attempt_loop-answered :
    {R : Type 0} (runtime : RouterRuntimeConfig) (answer : R) (env : ℕ → Attempt R) (n : ℕ)
    (breaker : Breaker) (limiter : Limiter) (last_status : Status)
    → 1 ≤ n
    → env 1 ≡ met (status_ok, answer) 1
    → let i = attempt_loop runtime env n 1 breaker limiter last_status in
      (i.status ≡ status_ok) × (i.response ≡ some answer)
unfolding attempt_loop
attempt_loop-answered runtime answer env zero breaker limiter last_status some_round at_once =
    absurd (omega (arith, some_round))
attempt_loop-answered runtime answer env (suc n) breaker limiter last_status some_round at_once =
    rw at_once (refl, refl)

-- A call that is let through and answered at its first attempt.
invoke-answered :
    {R : Type 0} (runtime : RouterRuntimeConfig) (answer : R) (env : ℕ → Attempt R)
    (breaker : Breaker) (limiter : Limiter) (limited_at asked_at : ℕ)
    → (allow limiter limited_at).1 ≡ true
    → (allow_request breaker asked_at).1 ≡ true
    → env 1 ≡ met (status_ok, answer) 1
    → let i = invoke runtime env breaker limiter limited_at asked_at in
      (i.status ≡ status_ok) × (i.response ≡ some answer)
unfolding invoke
invoke-answered runtime answer env breaker limiter limited_at asked_at allowed asked at_once =
    rw (allowed, asked)
      (attempt_loop-answered runtime answer env (attempts_of runtime)
        (allow_request breaker asked_at).0 (allow limiter limited_at).0 status_ok
        (attempts_positive runtime) at_once)

-- What a route answers with the body that a user service's response makes.
abbrev pub replied : Text → RouteResult
replied body = record {
  status_code = 200;
  body = body;
  error_code = [];
  downstream_service = lit "user_service";
  grpc_status = ok_code;
}

-- The router lets a call of the user service through at these times.
abbrev IsAdmitting : Downstream → Router → Type 0
IsAdmitting down r =
    ((allow r.user_rate_limiter down.limited_at).1 ≡ true)
    × ((allow_request r.user_breaker down.asked_at).1 ≡ true)

module _ (api : JsonApi) (down : Downstream) (path : Text) (ctx : RequestContext) where
  call-replied :
      {R : Type 0} (resp : R) (rpc : ℕ → Attempt R) (answer : R → api.Json) (body : Text)
      (r : Router)
      → IsAdmitting down r
      → rpc 1 ≡ met (status_ok, resp) 1
      → api.dump (answer resp) ≡ ok body
      → (call api down path ctx (lit "user_service") rpc answer r).0 ≡ ok (replied body)
  unfolding call reply finish_with finish breaker_for rate_limiter_for get_runtime_config str_eq lit
  call-replied resp rpc answer body r (allowed, asked) at_once dumps =
      let (status, response) =
        invoke-answered r.runtime_config resp rpc r.user_breaker r.user_rate_limiter down.limited_at
          down.asked_at allowed asked at_once in
      rw (response, dumps) refl

  user_stub_or-IsAdmitting :
      (found : Option Text) (target : Text) (r : Router)
      → IsAdmitting down r
      → IsAdmitting down (user_stub_or found target r).1
  unfolding user_stub_or
  user_stub_or-IsAdmitting none target r admitting = admitting
  user_stub_or-IsAdmitting (some stub) target r admitting = admitting

module _ (api : JsonApi) (unhandled : Text → Status) (others : Downstream) (now : ℕ) (time : ℤ)
    (ctx : RequestContext) where
  create_routed :
      (s : UserService) (r : Router) (body nickname text : Text) (json : api.Json) (p : UserProfile)
      → parse_body api body ≡ some json
      → api.value_string json (lit "nickname") [] ≡ ok nickname
      → IsAdmitting (user_service_of api unhandled now time others s) r
      → (create_user api nickname time s).0 ≡ ok (status_ok, p)
      → api.dump (created_json api p) ≡ ok text
      → (route_with_status_async api
          (user_service_of api unhandled now time others s)
          (lit "/user/create")
          ctx
          body
          r).0
        ≡ ok (replied text)
  unfolding route_with_status_async route_parsed dispatch send get_user_stub str_eq lit
  create_routed s r body nickname text json p parsed named admitting created dumps =
      rw (parsed, named)
        (call-replied api (user_service_of api unhandled now time others s) (lit "/user/create") ctx
          p _ (created_json api) text _
          (user_stub_or-IsAdmitting api (user_service_of api unhandled now time others s)
            (lit "/user/create") ctx _ _ r admitting)
          (ap (λ w. met w 1)
            (answered-ok unhandled no_profile (create_user api nickname time s) (status_ok, p)
              created))
          dumps)

  get_routed :
      (s : UserService) (r : Router) (body user_id text : Text) (json : api.Json) (p : UserProfile)
      → parse_body api body ≡ some json
      → api.value_string json (lit "user_id") ctx.user_id ≡ ok user_id
      → IsAdmitting (user_service_of api unhandled now time others s) r
      → (get_user api now user_id s).0 ≡ ok (status_ok, p)
      → api.dump (user_json api p) ≡ ok text
      → (route_with_status_async api
          (user_service_of api unhandled now time others s)
          (lit "/user/get")
          ctx
          body
          r).0
        ≡ ok (replied text)
  unfolding route_with_status_async route_parsed dispatch send get_user_stub str_eq lit
  get_routed s r body user_id text json p parsed named admitting found dumps =
      rw (parsed, named)
        (call-replied api (user_service_of api unhandled now time others s) (lit "/user/get") ctx p
          _ (user_json api) text _
          (user_stub_or-IsAdmitting api (user_service_of api unhandled now time others s)
            (lit "/user/get") ctx _ _ r admitting)
          (ap (λ w. met w 1)
            (answered-ok unhandled no_profile (get_user api now user_id s) (status_ok, p) found))
          dumps)

-- A body that JSON dumped is read back.
parse_body-dump :
    (api : JsonApi) (laws : JsonLaws api) (json : api.Json) (body : Text)
    → api.dump json ≡ ok body
    → is_empty body ≡ false
    → parse_body api body ≡ some json
parse_body-dump api laws json body dumps filled =
    ap (λ b. api.parse (if b then lit "{}" else body)) filled ∙ laws.parse-dump json body dumps

module _ (api : JsonApi) (laws : JsonLaws api) (unhandled : Text → Status) (others : Downstream)
    (now : ℕ) (time : ℤ) (ctx : RequestContext) where
  -- The gateway in front of the user service: a POST of a nickname to /user/create is answered with the
  -- new user, and a later one of that user's id to /user/get with the profile that was made, whichever of
  -- Redis and MySQL the service has and whatever happened to the router in between, as long as the
  -- breaker and the limiter let both calls through, JSON can dump the texts and the two bodies are not
  -- empty, the time has 64 bits, and the rows of the table are stored under their user ids.
  pub user_round_trip :
      (s : UserService) (r r' : Router) (nickname payload request request' created found : Text)
      → FitsInt64 time
      → IsKeyedOption s.mysql
      → let p = new_profile s.next_user_id nickname time in
        let s' = (create_user api nickname time s).1 in
        serialize_profile api p ≡ ok payload
        → api.dump (api.object ((lit "nickname", api.string nickname) ∷ [])) ≡ ok request
        → is_empty request ≡ false
        → api.dump (api.object ((lit "user_id", api.string p.user_id) ∷ [])) ≡ ok request'
        → is_empty request' ≡ false
        → api.dump (created_json api p) ≡ ok created
        → api.dump (user_json api p) ≡ ok found
        → IsAdmitting others r
        → IsAdmitting others r'
        → ((route_with_status_async api
              (user_service_of api unhandled now time others s)
              (lit "/user/create")
              ctx
              request
              r).0
            ≡ ok (replied created))
          × ((route_with_status_async api
                (user_service_of api unhandled now time others s')
                (lit "/user/get")
                ctx
                request'
                r').0
              ≡ ok (replied found))
  unfolding lookup str_eq lit
  user_round_trip s r r' nickname payload request request' created found fits keyed e asks some_text
        asks' some_text' shows shows' admitting admitting' =
      let p = new_profile s.next_user_id nickname time in
      let s' = (create_user api nickname time s).1 in
      let (made, got) = create_get api laws now nickname payload time s fits keyed e in
      (
        create_routed api unhandled others now time ctx s r request nickname created _ p
            (parse_body-dump api laws _ request asks some_text)
            (laws.value_string-object _ (lit "nickname") [] nickname refl) admitting made shows,
        get_routed api unhandled others now time ctx s' r' request' p.user_id found _ p
            (parse_body-dump api laws _ request' asks' some_text')
            (laws.value_string-object _ (lit "user_id") ctx.user_id p.user_id refl) admitting' got
            shows',
      )
