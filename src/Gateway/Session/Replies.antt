-- ===== src/Gateway/Session/Replies.antt =====
-- The answers of a WebSocket session: one for each message, in order.
use kd.Base.{
  ℕ, ◌≤◌, ◌≡◌, refl, ◌∙◌, ap, Bool, true, Option, some, List, [], ◌∷◌, ◌++◌, map, Text, Result, ok,
  raised, length, arith, All, append_assoc,
}
use kd.Base.Exec.{Exec, after_result}
use kd.Json.{JsonApi}
use kd.Context.{RequestContext}
use kd.Auth.Token.{AuthOptions}
use kd.Gateway.Router.Route.{Downstream}
use kd.Gateway.Server.{Server}
use kd.Gateway.Http.{authenticated}
use kd.Gateway.Http.Ws.{handle_ws_message_async, limited}
use kd.Gateway.Session.{
  Request, Round, Sent, ws_accept, ws_text, ws_close, Session, send, readable,
  read_message_max_bytes, close, ws_write, ws_answered, ws_read, ws_loop, upgrade, serve, receive,
  handle_session,
}

-- A message, with what the clocks and the services answer while it is handled.
pub record Message : Type 0 where
  pub payload : Text
  pub down : Downstream

-- The round of a message on connections that do not fail.
abbrev pub delivered : Message → Round
delivered m = record { running = true; received = some m.payload; down = m.down; write_ok = true }

abbrev IsShort : Message → Type 0
IsShort m = length m.payload ≤ read_message_max_bytes

module _ (api : JsonApi) (user_id : Text) where
  -- The answer to a message: that of HandleWsMessageAsync, or the error 413 for a longer one.
  abbrev reply_to : Message → Exec Server Text
  reply_to m server =
      after_result (λ t after. (limited api t, after))
        (handle_ws_message_async api m.down m.payload user_id server).0
        (handle_ws_message_async api m.down m.payload user_id server).1

  -- `replies` are the answers to the messages, one after the other, which lead from `before` to `after`.
  pub data Answers
      : (messages : List Message) → (replies : List Text) → (before after : Server) → Type 0 where
    done : (s : Server) → Answers [] [] s s
    answer :
        {messages : List Message} {replies : List Text} {s' s'' : Server} (m : Message)
        (reply : Text) (s : Server)
        → reply_to m s ≡ (ok reply, s')
        → Answers messages replies s' s''
        → Answers (m ∷ messages) (reply ∷ replies) s s''

  ws_answered-reply :
      (rest : Exec Session (Unit {0})) (answered : Result Text × Server) (s : Session)
      (reply : Text) (server : Server)
      → after_result (λ t after. (limited api t, after)) answered.0 answered.1 ≡ (ok reply, server)
      → ws_answered api rest true answered s
        ≡ rest (record { server = server; sent = s.sent ++ ws_text reply ∷ [] })
  unfolding ws_answered ws_write send
  ws_answered-reply rest (raised what, after) s reply server h = cc h
  ws_answered-reply rest (ok payload, after) s reply server h =
      let written : limited api payload ≡ ok reply = cc h in
      let same : after ≡ server = cc h in rw (written, same) refl

  -- A session on connections that do not fail answers each message once, in order, and closes.
  ws_loop-Answers :
      {messages : List Message} {replies : List Text} {before after : Server} (sent : List Sent)
      → Answers messages replies before after
      → All IsShort messages
      → ws_loop api user_id (map delivered messages) (record { server = before; sent = sent })
        ≡ (ok tt, record { server = after; sent = sent ++ (map ws_text replies ++ ws_close ∷ []) })
  unfolding ws_loop close send
  ws_loop-Answers sent (done s) short = refl
  ws_loop-Answers sent (answer {messages} {replies} {s'} {s''} m reply s e rest) (fits, short) =
      let whole : readable (some m.payload) ≡ some m.payload = ground arith in
      rw whole (
        unfold ws_read in
        (ws_answered-reply (ws_loop api user_id (map delivered messages))
            (handle_ws_message_async api m.down m.payload user_id s)
            (record { server = s; sent = sent }) reply s' e
          ∙ ws_loop-Answers (sent ++ ws_text reply ∷ []) rest short
          ∙ ap (λ t. (ok tt, record { server = s''; sent = t }))
              (append_assoc sent (ws_text reply ∷ []) (map ws_text replies ++ ws_close ∷ []))))

module _ (api : JsonApi) (hmac : Text → Text → Text) (auth : Option AuthOptions) (now : ℕ)
    (file_ok : Bool) (down : Downstream) where
  -- An authenticated WebSocket session whose reads and writes succeed, with messages of at most
  -- 64 KiB, ends normally after the handshake, one answer to each message in the order of the
  -- messages, each answered in the server's state that the ones before it left and with what the
  -- clocks and the services say at its own time, and the close.
  pub session_replies :
      {messages : List Message} {replies : List Text} {before after : Server} (req : Request)
      (ctx : RequestContext)
      → req.is_upgrade ≡ true
      → authenticated api hmac auth now req.authorization ≡ ok (some ctx)
      → Answers api ctx.user_id messages replies before after
      → All IsShort messages
      → handle_session api hmac auth now file_ok down
          (record { request = some req; accept_ok = true; rounds = map delivered messages })
          (record { server = before; sent = [] })
        ≡ (
          ok tt,
          record { server = after; sent = ws_accept ∷ (map ws_text replies ++ ws_close ∷ []) },
        )
  unfolding handle_session receive serve upgrade send
  session_replies req ctx up known answers short =
      rw (up, known) (ws_loop-Answers api ctx.user_id (ws_accept ∷ []) answers short)
