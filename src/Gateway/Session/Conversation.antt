-- ===== src/Gateway/Session/Conversation.antt =====
-- What a session writes to its peer, whatever the peer sends and whenever reads and writes fail.
use kd.Base.{
  ℕ, suc, ◌≤◌, ◌<◌, ◌≡◌, Bool, true, false, Option, none, some, List, [], ◌∷◌, ◌++◌, Text, ok,
  length,
}
use kd.Base.Exec.{Exec}
use kd.Json.{JsonApi}
use kd.Context.{RequestContext}
use kd.Auth.Token.{AuthOptions}
use kd.Gateway.Router.Route.{Downstream}
use kd.Gateway.Server.{Server}
use kd.Gateway.Http.{authenticated}
use kd.Gateway.Session.{Request, Peer, Sent, http_response, ws_accept, ws_text, ws_close, Session}

-- What follows the handshake: at most `n` texts, and a close at the end unless an exception ended it.
pub data Texts : ℕ → List Sent → Type 0 where
  broken_off : (n : ℕ) → Texts n []
  closed : (n : ℕ) → Texts n (ws_close ∷ [])
  text : {n : ℕ} {rest : List Sent} (t : Text) → Texts n rest → Texts (suc n) (ws_text t ∷ rest)

-- `after` has written a `Texts` of at most `n` more than `before`.
abbrev Talks : ℕ → Session → Session → Type 0
Talks n before after = (more : List Sent) × (after.sent ≡ before.sent ++ more) × Texts n more

module _ (api : JsonApi) (hmac : Text → Text → Text) (auth : Option AuthOptions) (now : ℕ)
    (file_ok : Bool) (down : Downstream) (peer : Peer) where
  -- The conversations of a session with the peer.
  pub data IsConversation : List Sent → Type 0 where
    silent : IsConversation []
    answered :
        (req : Request) (status : ℕ) (content_type body : Text)
        → peer.request ≡ some req
        → req.is_upgrade ≡ false
        → 100 ≤ status
        → status < 600
        → IsConversation (http_response status content_type body ∷ [])
    refused :
        (req : Request) (content_type body : Text)
        → peer.request ≡ some req
        → req.is_upgrade ≡ true
        → authenticated api hmac auth now req.authorization ≡ ok none
        → IsConversation (http_response 401 content_type body ∷ [])
    websocket :
        (req : Request) (ctx : RequestContext) (rest : List Sent)
        → peer.request ≡ some req
        → req.is_upgrade ≡ true
        → authenticated api hmac auth now req.authorization ≡ ok (some ctx)
        → Texts (length peer.rounds) rest
        → IsConversation (ws_accept ∷ rest)
