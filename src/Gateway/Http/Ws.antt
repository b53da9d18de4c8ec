-- ===== src/Gateway/Http/Ws.antt =====
-- HandleWsMessage and HandleWsMessageAsync of gateways/access_gateway/http/http_server.cpp, and the
-- limit that HandleSession puts on the answers. The two arguments of a route are read in order.
use kd.Base.{
  ℕ, ◌≤◌, ◌≡◌, refl, ◌⊎◌, inl, inr, Bool-cases, Option, none, some, List, Text, lit, is_empty, [],
  ◌∷◌, if◌then◌else◌, pos, insert, Result, ok, raised, ◌>>=◌, ltb, length, arith,
}
use kd.Base.Exec.{Exec}
use kd.Json.{JsonApi}
use kd.Log.{to_lower_ascii}
use kd.Context.{RequestContext}
use kd.Gateway.Router.{Router}
use kd.Gateway.Router.Route.{RouteResult, Downstream, route_with_status_async}
use kd.Gateway.Router.Route.Isolation.{route-IsIsolated}
use kd.Gateway.Server.{Server, parse_body}
use kd.Gateway.Http.{Routing, next_seq}
use kd.Gateway.Http.Headers.{HeaderMap, request_context}

-- kWsResponseMaxBytes
abbrev response_max_bytes : ℕ
response_max_bytes = 131072

module _ (api : JsonApi) where
  unfoldable ws_error_json : (error code : Text) → ℕ → Result Text
  ws_error_json error code status_code = api.dump (
      api.object (
        (lit "error", api.string error)
        ∷ (lit "code", api.string code)
        ∷ (lit "status_code", api.number (pos status_code))
        ∷ []))

  -- The loop over `it->items()`
  unfoldable string_items : List (Text × api.Json) → HeaderMap → Result HeaderMap
  string_items [] headers = ok headers
  string_items ((key, value) ∷ rest) headers =
      if api.is_string value
      then (api.get_string value
          >>= (λ v. string_items rest (insert (to_lower_ascii key) v headers)))
      else string_items rest headers

  unfoldable read_headers : Option api.Json → Result HeaderMap
  unfolding string_items
  read_headers none = ok []
  read_headers (some it) = if api.is_object it then string_items (api.items it) [] else ok []

  unfoldable ws_answer : Result RouteResult → Result Text
  unfolding ws_error_json
  ws_answer (raised what) = raised what
  ws_answer (ok routed) =
      if is_empty routed.body
      then ws_error_json (lit "empty_downstream_response") (lit "bad_gateway") 502
      else ok routed.body

  -- `json.value("path", "")` and `json.value("body", "{}")`
  unfoldable read_route : api.Json → Result (Text × Text)
  read_route json =
      api.value_string json (lit "path") []
      >>= (λ path. api.value_string json (lit "body") (lit "{}") >>= (λ body. ok (path, body)))

  unfoldable ws_call : Routing → RequestContext → Router → Result (Text × Text) → Exec Server Text
  unfolding ws_answer
  ws_call routing ctx r (raised what) s = (raised what, s)
  ws_call routing ctx r (ok (path, body)) s =
      let out = routing path ctx body r in (ws_answer out.0, record s { router = some out.1 })

  unfoldable ws_route : Routing → RequestContext → api.Json → Option Router → Exec Server Text
  unfolding ws_call read_route
  ws_route routing ctx json none s =
      (ws_error_json (lit "router_unavailable") (lit "service_unavailable") 503, s)
  ws_route routing ctx json (some r) s = ws_call routing ctx r (read_route json) s

  unfoldable ws_with_headers :
      Routing → api.Json → (authenticated_user_id : Text) → Result HeaderMap → Exec Server Text
  unfolding ws_route
  ws_with_headers routing json authenticated_user_id (raised what) s = (raised what, s)
  ws_with_headers routing json authenticated_user_id (ok headers) s =
      let ctx = request_context (lit "gw-ws-") headers s.request_seq authenticated_user_id in
      ws_route routing ctx json s.router (next_seq s)

  unfoldable ws_parsed :
      Routing → (authenticated_user_id : Text) → Option api.Json → Exec Server Text
  unfolding ws_with_headers read_headers
  ws_parsed routing authenticated_user_id none s =
      (ws_error_json (lit "invalid_json") (lit "bad_request") 400, s)
  ws_parsed routing authenticated_user_id (some json) s =
      ws_with_headers routing json authenticated_user_id
        (read_headers (api.find json (lit "headers"))) s

  -- HandleWsMessage, with the routing of either kind
  unfoldable handle_ws_message : Routing → (payload authenticated_user_id : Text) → Exec Server Text
  unfolding ws_parsed
  handle_ws_message routing payload authenticated_user_id s =
      ws_parsed routing authenticated_user_id (parse_body api payload) s

  unfoldable pub handle_ws_message_async :
      Downstream → (payload authenticated_user_id : Text) → Exec Server Text
  unfolding handle_ws_message
  handle_ws_message_async down =
      handle_ws_message (λ path ctx. route_with_status_async api down path ctx)

  -- What HandleSession writes for an answer.
  unfoldable pub limited : Text → Result Text
  unfolding ws_error_json
  limited response_payload =
      if ltb response_max_bytes (length response_payload)
      then ws_error_json (lit "response_too_large") (lit "payload_too_large") 413
      else ok response_payload

  -- An answer of at most 128 KiB is sent as it is; for a longer one the error 413 is sent.
  limited-bounded :
      (t sent : Text)
      → limited t ≡ ok sent
      → ((length t ≤ response_max_bytes) × (sent ≡ t))
        ⊎ ((response_max_bytes ≤ length t)
            × (ws_error_json (lit "response_too_large") (lit "payload_too_large") 413 ≡ ok sent))
  unfolding limited
  limited-bounded t sent h = elim (Bool-cases (ltb response_max_bytes (length t))) [
    | inl long ↦ inr (ground arith, rw long at h)
    | inr short ↦
        let e : ◌≡◌ {A = Result Text} (ok t) (ok sent) = rw short at h in inl (ground arith, cc e)
  ]

  module _ (down : Downstream) where
    abbrev async_routing : Routing
    async_routing = λ path ctx. route_with_status_async api down path ctx

    -- The router is there afterwards only if it was before, with the same configuration.
    abbrev IsKept : Option Router → Option Router → Type 0
    IsKept before after =
        (r' : Router)
        → after ≡ some r'
        → (r : Router) × (before ≡ some r)
          × (r'.runtime_config ≡ r.runtime_config)
          × (r'.targets ≡ r.targets)

    IsKept-refl : (o : Option Router) → IsKept o o
    IsKept-refl o r' h = (r', h, refl, refl)

    route-IsKept :
        (path body : Text) (ctx : RequestContext) (r : Router)
        → IsKept (some r) (some (route_with_status_async api down path ctx body r).1)
    route-IsKept path body ctx r r' h =
        let (a, b, c) = route-IsIsolated api path down ctx body r in
        let same : (route_with_status_async api down path ctx body r).1 ≡ r' = cc h in
        (r, refl, rw same at b, rw same at a)

    ws_call-IsKept :
        (ctx : RequestContext) (r : Router) (request : Result (Text × Text)) (s : Server)
        → s.router ≡ some r
        → IsKept (some r) (ws_call async_routing ctx r request s).1.router
    unfolding ws_call
    ws_call-IsKept ctx r (raised what) s e = rw e (IsKept-refl (some r))
    ws_call-IsKept ctx r (ok (path, body)) s e = route-IsKept path body ctx r

    ws_route-IsKept :
        (ctx : RequestContext) (json : api.Json) (router : Option Router) (s : Server)
        → s.router ≡ router
        → IsKept router (ws_route async_routing ctx json router s).1.router
    unfolding ws_route
    ws_route-IsKept ctx json none s e = rw e (IsKept-refl none)
    ws_route-IsKept ctx json (some r) s e = ws_call-IsKept ctx r (read_route json) s e

    ws_with_headers-IsKept :
        (json : api.Json) (user_id : Text) (headers : Result HeaderMap) (s : Server)
        → IsKept s.router (ws_with_headers async_routing json user_id headers s).1.router
    unfolding ws_with_headers
    ws_with_headers-IsKept json user_id (raised what) s = IsKept-refl s.router
    ws_with_headers-IsKept json user_id (ok headers) s =
        ws_route-IsKept _ json s.router (next_seq s) refl

    ws_parsed-IsKept :
        (user_id : Text) (json : Option api.Json) (s : Server)
        → IsKept s.router (ws_parsed async_routing user_id json s).1.router
    unfolding ws_parsed
    ws_parsed-IsKept user_id none s = IsKept-refl s.router
    ws_parsed-IsKept user_id (some json) s = ws_with_headers-IsKept json user_id _ s

    -- No message over a WebSocket changes the runtime configuration or the targets of the router,
    -- whatever path, headers and body it asks for.
    pub ws_keeps_settings :
        (payload user_id : Text) (s : Server) (r' : Router)
        → (handle_ws_message_async down payload user_id s).1.router ≡ some r'
        → (r : Router) × (s.router ≡ some r)
          × (r'.runtime_config ≡ r.runtime_config)
          × (r'.targets ≡ r.targets)
    unfolding handle_ws_message_async handle_ws_message
    ws_keeps_settings payload user_id s r' h = ws_parsed-IsKept user_id _ s r' h
