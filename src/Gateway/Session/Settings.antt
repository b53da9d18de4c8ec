-- ===== src/Gateway/Session/Settings.antt =====
-- The router's settings across a whole session.
use kd.Base.{
  ℕ, ◌≡◌, refl, ◌∙◌, ◌⊎◌, inl, inr, Bool, true, false, Bool-cases, Option, none, some, List, [],
  ◌∷◌, Text, Result, ok, raised,
}
use kd.Base.Exec.{Exec}
use kd.Json.{JsonApi}
use kd.Context.{RequestContext}
use kd.Auth.Token.{AuthOptions}
use kd.Gateway.Router.{Router}
use kd.Gateway.Router.Route.{Downstream}
use kd.Gateway.Server.{Server, HttpResponse}
use kd.Gateway.Http.{authenticated, handle_request_async}
use kd.Gateway.Http.Headers.{normalize_headers}
use kd.Gateway.Http.Settings.{IsSane, settings_bounded}
use kd.Gateway.Http.Ws.{handle_ws_message_async, limited, ws_keeps_settings}
use kd.Gateway.Session.{
  Request, Round, Peer, Session, ws_accept, send, readable, close, ws_write, ws_answered, ws_read,
  ws_loop, upgrade, respond_http, serve, receive, handle_session,
}

-- A router that is there afterwards was there before, with the same configuration and targets.
abbrev IsKept : Server → Server → Type 0
IsKept before after =
    (r' : Router)
    → after.router ≡ some r'
    → (r : Router) × (before.router ≡ some r)
      × (r'.runtime_config ≡ r.runtime_config)
      × (r'.targets ≡ r.targets)

IsKept-refl : (s : Server) → IsKept s s
IsKept-refl s r' h = (r', h, refl, refl)

IsKept-trans : (a b c : Server) → IsKept a b → IsKept b c → IsKept a c
IsKept-trans a b c ab bc r'' h =
    let (r', e', config', targets') = bc r'' h in
    let (r, e, config, targets) = ab r' e' in (r, e, config' ∙ config, targets' ∙ targets)

ws_write-IsKept :
    (next : Exec Session (Unit {0})) (write_ok : Bool) (answer : Result Text) (s : Session)
    → ((s : Session) → IsKept s.server (next s).1.server)
    → IsKept s.server (ws_write next write_ok answer s).1.server
unfolding ws_write send close
ws_write-IsKept next write_ok (raised what) s h = IsKept-refl s.server
ws_write-IsKept next true (ok t) s h = h _
ws_write-IsKept next false (ok t) s h = IsKept-refl s.server

module _ (api : JsonApi) where
  ws_answered-IsKept :
      (next : Exec Session (Unit {0})) (write_ok : Bool) (answer : Result Text × Server)
      (s : Session)
      → ((s : Session) → IsKept s.server (next s).1.server)
      → IsKept s.server answer.1
      → IsKept s.server (ws_answered api next write_ok answer s).1.server
  unfolding ws_answered
  ws_answered-IsKept next write_ok (raised what, server) s h k = k
  ws_answered-IsKept next write_ok (ok payload, server) s h k =
      IsKept-trans s.server server
        (ws_write next write_ok (limited api payload) (record s { server = server })).1.server k
        (ws_write-IsKept next write_ok (limited api payload) (record s { server = server }) h)

  module _ (user_id : Text) where
    ws_read-IsKept :
        (down : Downstream) (next : Exec Session (Unit {0})) (write_ok : Bool)
        (received : Option Text) (s : Session)
        → ((s : Session) → IsKept s.server (next s).1.server)
        → IsKept s.server (ws_read api user_id down next write_ok received s).1.server
    unfolding ws_read close send
    ws_read-IsKept down next write_ok none s h = IsKept-refl s.server
    ws_read-IsKept down next write_ok (some payload) s h =
        ws_answered-IsKept next write_ok (handle_ws_message_async api down payload user_id s.server)
          s h (ws_keeps_settings api down payload user_id s.server)

    ws_loop-IsKept :
        (rounds : List Round) (s : Session)
        → IsKept s.server (ws_loop api user_id rounds s).1.server
    unfolding ws_loop close send
    ws_loop-IsKept [] s = IsKept-refl s.server
    ws_loop-IsKept (r ∷ rest) s = elim (Bool-cases r.running) [
      | inl on ↦ rw on (
          ws_read-IsKept r.down (ws_loop api user_id rest) r.write_ok (readable r.received) s
            (ws_loop-IsKept rest))
      | inr off ↦ rw off (IsKept-refl s.server)
    ]

module _ (api : JsonApi) (hmac : Text → Text → Text) (auth : Option AuthOptions) (now : ℕ)
    (file_ok : Bool) (down : Downstream) where
  -- What a session may do to the settings: a plain request may bring sane ones.
  abbrev IsSettled : Peer → Server → Server → Type 0
  IsSettled peer before after =
      (r' : Router)
      → after.router ≡ some r'
      → (r : Router) × (before.router ≡ some r)
        × ((r'.runtime_config ≡ r.runtime_config)
            ⊎ (IsSane r'.runtime_config
                × (req : Request) × (peer.request ≡ some req)
                × (req.is_upgrade ≡ false)))

  IsSettled-kept : (peer : Peer) (a b : Server) → IsKept a b → IsSettled peer a b
  IsSettled-kept peer a b k r' h = let (r, e, config, targets) = k r' h in (r, e, inl config)

  upgrade-IsKept :
      (auth_ctx : Result (Option RequestContext)) (peer : Peer) (s : Session)
      → IsKept s.server (upgrade api hmac auth now file_ok down auth_ctx peer s).1.server
  unfolding upgrade send
  upgrade-IsKept (raised what) peer s = IsKept-refl s.server
  upgrade-IsKept (ok none) peer s = IsKept-refl s.server
  upgrade-IsKept (ok (some ctx)) peer s = elim (Bool-cases peer.accept_ok) [
    | inl done ↦ rw done (ws_loop-IsKept api ctx.user_id peer.rounds (send ws_accept s))
    | inr failed ↦ rw failed (IsKept-refl s.server)
  ]

  respond_http-server :
      (response : Result HttpResponse × Server) (s : Session)
      → (respond_http api hmac auth now file_ok down response s).1.server ≡ response.1
  unfolding respond_http send
  respond_http-server (raised what, server) s = refl
  respond_http-server (ok response, server) s = refl

  plain-IsSettled :
      (peer : Peer) (req : Request) (s : Session)
      → peer.request ≡ some req
      → req.is_upgrade ≡ false
      → IsSettled peer s.server
          (handle_request_async api hmac auth now file_ok down req.method req.target req.body
            req.authorization
            (normalize_headers req.fields [])
            s.server).1
  plain-IsSettled peer req s e plain r' h =
      let (r, before, settled) =
        settings_bounded api hmac auth now file_ok down req.method req.target req.body
          req.authorization (normalize_headers req.fields []) s.server r' h in
      (r, before, elim settled [ inl same ↦ inl same | inr sane ↦ inr (sane, req, e, plain) ])

  serve-IsSettled :
      (peer : Peer) (req : Request) (s : Session)
      → peer.request ≡ some req
      → IsSettled peer s.server (serve api hmac auth now file_ok down req peer s).1.server
  unfolding serve
  serve-IsSettled peer req s e = elim (Bool-cases req.is_upgrade) [
    | inl up ↦ rw up (
        IsSettled-kept peer s.server
          (upgrade api hmac auth now file_ok down
            (authenticated api hmac auth now req.authorization) peer s).1.server
          (upgrade-IsKept _ peer s))
    | inr plain ↦ rw plain (rw (respond_http-server _ s) (plain-IsSettled peer req s e plain))
  ]

  receive-IsSettled :
      (request : Option Request) (peer : Peer) (s : Session)
      → peer.request ≡ request
      → IsSettled peer s.server (receive api hmac auth now file_ok down request peer s).1.server
  unfolding receive
  receive-IsSettled none peer s e = IsSettled-kept peer s.server s.server (IsKept-refl s.server)
  receive-IsSettled (some req) peer s e = serve-IsSettled peer req s e

  -- A whole session, however many messages it carries and wherever it breaks off, leaves the runtime
  -- configuration as it was, or, if it was a plain request, with bounds that hold: a timeout of at
  -- least 100 ms, at least 1 attempt, and a back-off of at least 0. It adds no router.
  session_settings :
      (peer : Peer) (s : Session) (r' : Router)
      → (handle_session api hmac auth now file_ok down peer s).1.server.router ≡ some r'
      → (r : Router) × (s.server.router ≡ some r)
        × ((r'.runtime_config ≡ r.runtime_config)
            ⊎ (IsSane r'.runtime_config
                × (req : Request) × (peer.request ≡ some req)
                × (req.is_upgrade ≡ false)))
  unfolding handle_session
  session_settings peer s r' h = receive-IsSettled peer.request peer s refl r' h
