-- ===== src/Gateway/Session.antt =====
-- HandleSession of gateways/access_gateway/http/http_server.cpp: one connection, from the request to
-- the end. The sockets, the parser of Beast and the peer are outside: `Peer` holds what they answer.
-- Timeouts are errors of the reads and writes. An exception ends the session where it is raised.
pub mod Conversation
pub mod Settings
pub mod Replies
use kd.Base.{
  ℕ, Bool, Option, none, some, List, [], ◌∷◌, ◌++◌, Text, lit, if◌then◌else◌, Result, ok, raised,
  ltb, length,
}
use kd.Base.Exec.{Exec}
use kd.Json.{JsonApi}
use kd.Context.{RequestContext}
use kd.Auth.Token.{AuthOptions}
use kd.Gateway.Router.Route.{Downstream}
use kd.Gateway.Server.{Server, HttpResponse, to_http_status}
use kd.Gateway.Http.{authenticated, handle_request_async}
use kd.Gateway.Http.Headers.{normalize_headers}
use kd.Gateway.Http.Ws.{handle_ws_message_async, limited}

-- A request as Beast parsed it: `authorization` is `req[http::field::authorization]`.
pub record Request : Type 0 where
  pub method : Text
  pub target : Text
  pub body : Text
  pub authorization : Text
  pub fields : List (Text × Text)
  pub is_upgrade : Bool

-- A round of the loop on messages: what `running_` is, what the read gives, `none` an error, what the
-- clocks and the services answer while the message is handled, and whether the write succeeds.
pub record Round : Type 0 where
  pub running : Bool
  pub received : Option Text
  pub down : Downstream
  pub write_ok : Bool

-- `request` is `none` where it cannot be read; after the rounds the peer closes the connection.
pub record Peer : Type 0 where
  pub request : Option Request
  pub accept_ok : Bool
  pub rounds : List Round

-- What a session writes to the peer. Every HTTP response names the server and closes the connection.
pub data Sent : Type 0 where
  http_response : (status : ℕ) → (content_type body : Text) → Sent
  ws_accept : Sent
  ws_text : Text → Sent
  ws_close : Sent

pub record Session : Type 0 where
  pub server : Server
  pub sent : List Sent

unfoldable pub send : Sent → Session → Session
send m s = record s { sent = s.sent ++ m ∷ [] }

-- kWsReadMessageMaxBytes, beyond which a read is an error
abbrev pub read_message_max_bytes : ℕ
read_message_max_bytes = 65536

abbrev pub readable : Option Text → Option Text
readable none = none
readable (some payload) = if ltb read_message_max_bytes (length payload) then none else some payload

-- `ws.async_close(normal)`, after the loop
unfoldable pub close : Exec Session (Unit {0})
unfolding send
close s = (ok tt, send ws_close s)

-- The write of an answer; `next` is the rest of the loop.
unfoldable pub ws_write :
    (next : Exec Session (Unit {0})) (write_ok : Bool) → Result Text → Exec Session (Unit {0})
unfolding send close
ws_write next write_ok (raised what) s = (raised what, s)
ws_write next write_ok (ok text) s =
    let s' = send (ws_text text) s in if write_ok then next s' else close s'

module _ (api : JsonApi) where
  unfoldable pub ws_answered :
      (next : Exec Session (Unit {0})) (write_ok : Bool)
      → Result Text × Server
      → Exec Session (Unit {0})
  unfolding ws_write limited
  ws_answered next write_ok (raised what, server) s = (raised what, record s { server = server })
  ws_answered next write_ok (ok payload, server) s =
      ws_write next write_ok (limited api payload) (record s { server = server })

  module _ (user_id : Text) where
    unfoldable pub ws_read :
        Downstream
        → (next : Exec Session (Unit {0})) (write_ok : Bool) → Option Text
        → Exec Session (Unit {0})
    unfolding ws_answered close handle_ws_message_async
    ws_read down next write_ok none s = close s
    ws_read down next write_ok (some payload) s =
        ws_answered next write_ok (handle_ws_message_async api down payload user_id s.server) s

    -- `while (running_.load())`
    unfoldable pub ws_loop : List Round → Exec Session (Unit {0})
    unfolding ws_read close
    ws_loop [] s = close s
    ws_loop (r ∷ rest) s =
        if r.running
        then ws_read r.down (ws_loop rest) r.write_ok (readable r.received) s
        else close s

module _ (api : JsonApi) (hmac : Text → Text → Text) (auth : Option AuthOptions) (now : ℕ)
    (file_ok : Bool) (down : Downstream) where
  unfoldable pub upgrade : Result (Option RequestContext) → Peer → Exec Session (Unit {0})
  unfolding ws_loop send
  upgrade (raised what) peer s = (raised what, s)
  upgrade (ok none) peer s = (
    ok tt,
    send (http_response 401 (lit "application/json") (lit "{\"error\":\"unauthorized\"}")) s,
  )
  upgrade (ok (some ctx)) peer s =
      if peer.accept_ok then ws_loop api ctx.user_id peer.rounds (send ws_accept s) else (ok tt, s)

  unfoldable pub respond_http : Result HttpResponse × Server → Exec Session (Unit {0})
  unfolding send to_http_status
  respond_http (raised what, server) s = (raised what, record s { server = server })
  respond_http (ok response, server) s = (
    ok tt,
    send (http_response (to_http_status response.status_code) response.content_type response.body)
        (record s { server = server }),
  )

  unfoldable pub serve : Request → Peer → Exec Session (Unit {0})
  unfolding upgrade respond_http authenticated handle_request_async normalize_headers
  serve req peer s =
      if req.is_upgrade
      then upgrade (authenticated api hmac auth now req.authorization) peer s
      else respond_http
          (handle_request_async api hmac auth now file_ok down req.method req.target req.body
            req.authorization (normalize_headers req.fields []) s.server)
          s

  -- What follows the read of the request.
  unfoldable pub receive : Option Request → Peer → Exec Session (Unit {0})
  unfolding serve
  receive none peer s = (ok tt, s)
  receive (some req) peer s = serve req peer s

  -- HandleSession
  unfoldable pub handle_session : Peer → Exec Session (Unit {0})
  unfolding receive
  handle_session peer s = receive peer.request peer s
