-- ===== src/Tests/Routing.antt =====
-- Examples of the gateway.
use kd.Base.{
  show, ok, lookup, arith, ℕ, ◌≡◌, refl, ◌⊎◌, inr, true, false, Option, none, some, [], ◌∷◌, ◌++◌,
  Text, lit, pos, str_eq, starts_with,
}
use kd.Context.{no_context}
use kd.Auth.Token.{AuthOptions, authenticate, normalize, of_user}
use kd.Api.{StatusCode, status_ok, unavailable, resource_exhausted, no_entry, no_profile}
use kd.Governance.Breaker
use kd.Governance.Breaker.{Breaker, allow_request}
use kd.Governance.Limiter
use kd.Governance.Limiter.{Limiter, allow}
use kd.Log.{default_options}
use kd.Gateway.Invoke.{RouterRuntimeConfig, Attempt, invoke}
use kd.Gateway.Invoke.Spec.{IsAnswered, invoke_outcome}
use kd.Gateway.Router
use kd.Gateway.Router.{Router}
use kd.Gateway.Router.Route.{Downstream, RouteResult, route_with_status_async}
use kd.Gateway.Router.Route.Answers.{IsMapped, route-IsMapped}
use kd.Gateway.Router.Route.Isolation.{user_service, IsUntouched, route_isolated}
use kd.Gateway.Server.{Server}
use kd.Gateway.Http.{handle_request, handle_request_async, authenticated}
use kd.Gateway.Http.Guards.{IsRefused, unauthenticated-IsRefused, admin-IsRefused}
use kd.Gateway.Http.Settings.{IsSane, settings_bounded}
use kd.Gateway.Http.Sync.{Agree, sync_agrees}
use kd.Gateway.Http.Headers.{request_context}
use kd.Storage.Redis.{empty_redis}
use kd.Services.User.{UserService, create_user, new_profile, serialize_profile}
use kd.Gateway.Messages.{user_json, created_json}
use kd.Gateway.Router.Route.Users.{replied, user_service_of, user_round_trip}
use kd.Api.{UserProfile, Status}
use kd.Tests.Encoding.{toy_laws, toy_json, string, number, object}

abbrev runtime : RouterRuntimeConfig
runtime = record { grpc_timeout_ms = pos 800; retry_attempts = pos 2; retry_backoff_ms = pos 50 }

abbrev replying {ℓ} : {R : Type ℓ} → R → ℕ → Attempt R
replying r k = record {
  status = status_ok;
  response = r;
  failed_at = 0;
  others = λ b. b;
  backoff_cancelled = false;
}

abbrev failing {ℓ} : {R : Type ℓ} → R → ℕ → Attempt R
failing r k = record {
  status = record { code = unavailable; message = [] };
  response = r;
  failed_at = k;
  others = λ b. b;
  backoff_cancelled = false;
}

abbrev breaker : Breaker
breaker = Breaker.init 5 5_000_000_000

abbrev limiter : Limiter
limiter = Limiter.init 500 1000 0

invoke_outcome_example :
    let i = invoke runtime (failing true) breaker limiter 1 2 in
    (((allow limiter 1).1 ≡ false)
      × (i.sent ≡ 0)
      × (i.breaker ≡ breaker)
      × (i.status.code ≡ resource_exhausted)
      × (i.response ≡ none))
    ⊎ ((((allow limiter 1).1 ≡ true)
          × ((allow_request breaker 2).1 ≡ false)
          × (i.sent ≡ 0)
          × (i.breaker ≡ (allow_request breaker 2).0)
          × (i.status.code ≡ unavailable)
          × (i.response ≡ none))
        ⊎ (((allow limiter 1).1 ≡ true)
            × ((allow_request breaker 2).1 ≡ true)
            × IsAnswered runtime (failing true) i))
invoke_outcome_example = invoke_outcome runtime (failing true) breaker limiter 1 2

abbrev pub down : Downstream
down = record {
  resolver = none;
  get_config = λ target metadata request. replying no_entry;
  publish_config = λ target metadata request. replying (pos 7);
  get_user = λ target metadata request. failing no_profile;
  create_user = λ target metadata request. replying no_profile;
  create_room = λ target metadata request. replying (lit "room_1");
  join_room = λ target metadata request. replying true;
  limited_at = 1;
  asked_at = 2;
}

abbrev pub router : Router
router =
    Router.init
      (record {
        config_service_target = lit "c:1";
        user_service_target = lit "u:1";
        game_service_target = lit "g:1";
      })
      runtime 0

abbrev body : Text
body = object ((lit "key", string (lit "k")) ∷ [])

abbrev unknown_path : Text
unknown_path = lit "/nowhere"

-- An unknown path: the route completes with 404.
abbrev not_found_result : RouteResult
not_found_result = record {
  status_code = 404;
  body = object (
      (lit "error", string (lit "route_not_found"))
      ∷ (lit "code", string (lit "route_not_found"))
      ∷ (lit "grpc_status", 2 ∷ 0 ∷ [])
      ∷ []);
  error_code = lit "route_not_found";
  downstream_service = [];
  grpc_status = StatusCode.not_found;
}

route-IsMapped_example : IsMapped not_found_result
unfolding route_with_status_async str_eq lit
route-IsMapped_example = route-IsMapped toy_json down unknown_path no_context body router refl

route_isolated_example :
    let r' = (route_with_status_async toy_json down (lit "/config/get") no_context body router).1 in
    (r'.targets ≡ router.targets)
    × (r'.runtime_config ≡ router.runtime_config)
    × IsUntouched user_service router r'
unfolding starts_with lit
route_isolated_example =
    route_isolated toy_json (lit "/config/get") down no_context body router user_service refl

abbrev pub secured : Option AuthOptions
secured = some (record {
  jwt_secret = lit "secret";
  jwt_issuer = [];
  jwt_audience = [];
  allow_legacy_token = true;
})

abbrev pub mac : Text → Text → Text
mac key text = key ++ text

abbrev pub server : Server
server = record {
  router = some router;
  idle_metrics = [];
  log = record {
    init_options = default_options;
    logger = none;
    conflict_warned = false;
    warnings = 0;
  };
  request_seq = 1;
}

unauthenticated-IsRefused_example :
    IsRefused server (
      handle_request toy_json mac secured 0 true down
        (lit "POST")
        (lit "/game/join-room")
        body
        []
        []
        server)
    × IsRefused server (
        handle_request_async toy_json mac secured 0 true down
          (lit "POST")
          (lit "/game/join-room")
          body
          []
          []
          server)
unfolding authenticated str_eq lit
unauthenticated-IsRefused_example =
    unauthenticated-IsRefused toy_json true mac secured 0 down (lit "POST") (lit "/game/join-room")
      body [] [] server refl refl

admin-IsRefused_example :
    IsRefused server (
      handle_request toy_json mac secured 0 true down
        (lit "GET")
        (lit "/admin/log-level")
        []
        (lit "user:bo")
        []
        server)
    × IsRefused server (
        handle_request_async toy_json mac secured 0 true down
          (lit "GET")
          (lit "/admin/log-level")
          []
          (lit "user:bo")
          []
          server)
unfolding authenticated authenticate normalize starts_with str_eq lit
admin-IsRefused_example =
    admin-IsRefused toy_json true mac secured 0 down (lit "GET") (lit "/admin/log-level") []
      (lit "user:bo") [] server (inr (of_user (lit "bo"), refl, refl)) refl

sync_agrees_example :
    Agree toy_json
      (handle_request toy_json mac secured 0 true down
        (lit "POST")
        (lit "/game/join-room")
        body
        (lit "user:bo")
        []
        server)
      (handle_request_async toy_json mac secured 0 true down
        (lit "POST")
        (lit "/game/join-room")
        body
        (lit "user:bo")
        []
        server)
sync_agrees_example =
    sync_agrees toy_json down mac secured 0 true (lit "POST") (lit "/game/join-room") body
      (lit "user:bo") [] server

-- A new configuration with a time-out below the bound.
abbrev post_body : Text
post_body = object ((lit "grpc_timeout_ms", number (pos 5)) ∷ [])

abbrev configured : Router
configured = record router { runtime_config = record runtime { grpc_timeout_ms = pos 100 } }

settings_bounded_example :
    (r : Router) × (server.router ≡ some r)
    × ((configured.runtime_config ≡ r.runtime_config) ⊎ IsSane configured.runtime_config)
unfolding handle_request_async authenticate normalize starts_with str_eq lit Router.init
settings_bounded_example =
    settings_bounded toy_json mac secured 0 true down (lit "POST") (lit "/admin/runtime-config")
      post_body (lit "dev-token") [] server configured refl

abbrev pub message : Text
message = object ((lit "path", string (lit "/config/get")) ∷ (lit "body", string body) ∷ [])

abbrev ws_routed : Router
ws_routed =
    (route_with_status_async toy_json down (lit "/config/get")
      (request_context (lit "gw-ws-") [] 1 (lit "bo")) body router).1

abbrev users : UserService
users = record { redis = some empty_redis; mysql = some []; users = []; next_user_id = 1 }

abbrev bo : UserProfile
bo = new_profile 1 (lit "bo") (pos 9)

abbrev payload : Text
payload = object (
    (lit "user_id", string bo.user_id)
    ∷ (lit "nickname", string bo.nickname)
    ∷ (lit "avatar", string bo.avatar)
    ∷ (lit "level", number bo.level)
    ∷ (lit "created_at", number bo.created_at)
    ∷ [])

abbrev create_body : Text
create_body = object ((lit "nickname", string (lit "bo")) ∷ [])

abbrev get_body : Text
get_body = object ((lit "user_id", string bo.user_id) ∷ [])

abbrev unhandled : Text → Status
unhandled what = record { code = unavailable; message = what }

user_round_trip_example :
    ((route_with_status_async toy_json
        (user_service_of toy_json unhandled 5 (pos 9) down users)
        (lit "/user/create")
        no_context
        create_body
        router).0
      ≡ ok (replied (created_json toy_json bo)))
    × ((route_with_status_async toy_json
          (user_service_of toy_json unhandled 5
            (pos 9)
            down
            (create_user toy_json (lit "bo") (pos 9) users).1)
          (lit "/user/get")
          no_context
          get_body
          router).0
        ≡ ok (replied (user_json toy_json bo)))
unfolding serialize_profile created_json user_json new_profile show lookup lit Router.init allow
    allow_request Breaker.init Limiter.init
user_round_trip_example =
    user_round_trip toy_json toy_laws unhandled down 5 (pos 9) no_context users router router
      (lit "bo") payload create_body get_body (created_json toy_json bo) (user_json toy_json bo)
      (ground arith, ground arith) tt refl refl refl refl refl refl refl (refl, refl) (refl, refl)
