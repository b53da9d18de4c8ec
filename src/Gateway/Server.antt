-- ===== src/Gateway/Server.antt =====
-- The state of HttpServer in gateways/access_gateway/http/http_server.cpp, the tests before its
-- handlers, and the handler of `/admin/log-level`. `router` is `none` for a null router. The
-- process's metrics stand in the router; `idle_metrics` is the registry of a server without one.
use kd.Base.{
  ℕ, Bool, ◌&&◌, Option, none, some, Text, lit, str_eq, is_empty, [], ◌∷◌, if◌then◌else◌, Result,
  ok, raised, ltb, leb,
}
use kd.Base.Exec.{Exec}
use kd.Json.{JsonApi}
use kd.Log.{LogState, log_level_name, get_log_level, set_log_level}
use kd.Context.{RequestContext}
use kd.Metrics.{Metrics}
use kd.Gateway.Router.{Router}

pub record Server : Type 0 where
  pub router : Option Router
  pub idle_metrics : Metrics
  pub log : LogState
  pub request_seq : ℕ

pub record HttpResponse : Type 0 where
  pub status_code : ℕ
  pub body : Text
  pub content_type : Text

-- a response with a JSON body
abbrev pub json_response : ℕ → Text → HttpResponse
json_response status_code body = record {
  status_code = status_code;
  body = body;
  content_type = lit "application/json";
}

-- `co_return HttpResponse{200, json.dump(), "application/json"}`
unfoldable pub respond : Result Text → Exec Server HttpResponse
respond (raised what) s = (raised what, s)
respond (ok body) s = (ok (json_response 200 body), s)

abbrev pub registry : Option Router → Metrics → Metrics
registry none idle = idle
registry (some r) idle = r.metrics

unfoldable pub ready : Option Router → HttpResponse
ready (some r) = json_response 200 (lit "{\"status\":\"ready\"}")
ready none = json_response 503 (lit "{\"status\":\"not_ready\",\"reason\":\"router_unavailable\"}")

-- ToHttpStatus
unfoldable pub to_http_status : ℕ → ℕ
to_http_status status_code = if leb 100 status_code && ltb status_code 600 then status_code else 500

-- The tests on the authenticated context before an administrative handler and before a route.
unfoldable pub with_admin :
    Result (Option RequestContext) → Exec Server HttpResponse → Exec Server HttpResponse
with_admin (raised what) handler s = (raised what, s)
with_admin (ok none) handler s =
    (ok (json_response 401 (lit "{\"error\":\"unauthorized_admin\"}")), s)
with_admin (ok (some ctx)) handler s =
    if str_eq ctx.user_id (lit "dev-user")
    then handler s
    else (ok (json_response 401 (lit "{\"error\":\"unauthorized_admin\"}")), s)

unfoldable pub with_user :
    Result (Option RequestContext)
    → (RequestContext → Exec Server HttpResponse)
    → Exec Server HttpResponse
with_user (raised what) handler s = (raised what, s)
with_user (ok none) handler s = (ok (json_response 401 (lit "{\"error\":\"unauthorized\"}")), s)
with_user (ok (some ctx)) handler s = handler ctx s

unfoldable pub with_router :
    Option Router → (Router → Exec Server HttpResponse) → Exec Server HttpResponse
with_router none handler s = (ok (json_response 503 (lit "{\"error\":\"router_unavailable\"}")), s)
with_router (some r) handler s = handler r s

abbrev pub not_allowed : Exec Server HttpResponse
not_allowed s = (ok (json_response 405 (lit "{\"error\":\"method_not_allowed\"}")), s)

abbrev pub bad_request : Text → Exec Server HttpResponse
bad_request body s = (ok (json_response 400 body), s)

abbrev pub parse_body : (api : JsonApi) → Text → Option api.Json
parse_body api body = api.parse (if is_empty body then lit "{}" else body)

module _ (api : JsonApi) (file_ok : Bool) where
  -- The level, as the answer of both methods.
  unfoldable pub report_level : Exec Server HttpResponse
  unfolding respond log_level_name
  report_level s =
      let (level, log) = get_log_level file_ok s.log in
      respond (api.dump (api.object ((lit "log_level", api.string (log_level_name level)) ∷ [])))
        (record s { log = log })

  unfoldable pub post_level_name : Result Text → Exec Server HttpResponse
  unfolding report_level set_log_level
  post_level_name (raised what) s = (raised what, s)
  post_level_name (ok level) s =
      let (done, log) = set_log_level level file_ok s.log in
      let s' = record s { log = log } in
      if done then report_level s' else bad_request (lit "{\"error\":\"invalid_log_level\"}") s'

  unfoldable pub post_level_member : Option api.Json → Exec Server HttpResponse
  unfolding post_level_name
  post_level_member none s = bad_request (lit "{\"error\":\"invalid_json\"}") s
  post_level_member (some level) s =
      if api.is_string level
      then post_level_name (api.get_string level) s
      else bad_request (lit "{\"error\":\"invalid_json\"}") s

  unfoldable pub post_level : Option api.Json → Exec Server HttpResponse
  unfolding post_level_member
  post_level none s = bad_request (lit "{\"error\":\"invalid_json\"}") s
  post_level (some json) s = post_level_member (api.find json (lit "log_level")) s

  -- /admin/log-level
  unfoldable pub admin_log_level : (method body : Text) → Exec Server HttpResponse
  unfolding report_level post_level
  admin_log_level method body s =
      if str_eq method (lit "get")
      then report_level s
      else if str_eq method (lit "post")
      then post_level (parse_body api body) s
      else not_allowed s
