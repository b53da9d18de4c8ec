-- ===== src/Tests/Sessions.antt =====
-- Examples of the gateway's sessions and of its start and stop.
use kd.Base.{
  ℕ, ◌+◌, ◌≤◌, ◌≡◌, refl, true, none, some, List, [], ◌∷◌, map, Text, lit, pos, ok, str_eq,
  starts_with, arith,
}
use kd.Auth.Token.{authenticate, normalize, of_user}
use kd.Gateway.Server.{Server}
use kd.Gateway.Http.{authenticated}
use kd.Gateway.Http.Ws.{handle_ws_message_async, limited}
use kd.Gateway.Session.{Request, Peer, ws_accept, ws_text, ws_close, handle_session}
use kd.Gateway.Session.Replies.{Message, done, answer, delivered, session_replies}
use kd.Gateway.Lifecycle.{
  Lifecycle, new_server, bound, failed, AcceptRound, accept_error, movable, accept_loop,
}
use kd.Gateway.Lifecycle.Threads.{Call, starting, stopping}
use kd.Gateway.Lifecycle.Balance.{load, sessions_balanced}
use kd.Tests.Encoding.{toy_json, string, number, object}
use kd.Tests.Routing.{down, mac, secured, server, message}

abbrev connecting : Request
connecting = record {
  method = lit "GET";
  target = lit "/ws";
  body = [];
  authorization = lit "user:bo";
  fields = [];
  is_upgrade = true;
}

-- Two messages, the second of which is not read.
abbrev talker : Peer
talker = record {
  request = some connecting;
  accept_ok = true;
  rounds =
      delivered (record { payload = message; down = down })
      ∷ record { running = true; received = none; down = down; write_ok = true }
      ∷ [];
}

-- A server without a router, after some messages.
abbrev idle : ℕ → Server
idle request_seq = record server { router = none; request_seq = request_seq }

abbrev unavailable : Text
unavailable = object (
    (lit "error", string (lit "router_unavailable"))
    ∷ (lit "code", string (lit "service_unavailable"))
    ∷ (lit "status_code", number (pos 503))
    ∷ [])

-- Two messages, handled at different times.
abbrev at_one : Message
at_one = record { payload = lit "a"; down = down }

abbrev at_two : Message
at_two = record { payload = lit "b"; down = record down { limited_at = 5; asked_at = 6 } }

session_replies_example :
    handle_session toy_json mac secured 0 true down
      (record {
        request = some connecting;
        accept_ok = true;
        rounds = map delivered (at_one ∷ at_two ∷ []);
      })
      (record { server = idle 1; sent = [] })
    ≡ (
      ok tt,
      record {
        server = idle 3;
        sent = ws_accept ∷ ws_text unavailable ∷ ws_text unavailable ∷ ws_close ∷ [];
      },
    )
unfolding handle_ws_message_async limited authenticated authenticate normalize starts_with str_eq
    lit
session_replies_example =
    session_replies toy_json mac secured 0 true down connecting (of_user (lit "bo")) refl refl
      (answer at_one unavailable (idle 1) refl
        (answer at_two unavailable (idle 2) refl (done (idle 3))))
      (ground arith, (ground arith, tt))

abbrev calls : List Call
calls =
    starting (bound 8080)
    ∷ stopping
    ∷ starting (bound 8081)
    ∷ stopping
    ∷ starting (failed (lit "in use"))
    ∷ stopping
    ∷ starting (bound 8082)
    ∷ []

abbrev listening : Lifecycle
listening = record (new_server 8080 (pos 2)) { running = true; worker_io_contexts = 2 }

abbrev rounds : List AcceptRound
rounds =
    record { running = true; arrival = movable }
    ∷ record { running = true; arrival = accept_error }
    ∷ record { running = true; arrival = movable }
    ∷ record { running = true; arrival = movable }
    ∷ []

sessions_balanced_example :
    load 0 (accept_loop rounds listening).0 ≤ load 1 (accept_loop rounds listening).0 + 1
unfolding new_server
sessions_balanced_example =
    sessions_balanced rounds listening 0 1 refl
      (
        (refl, λ e. absurd (cc e)),
        (
          (refl, λ e. absurd (cc e)),
          ((refl, λ e. absurd (cc e)), ((refl, λ e. absurd (cc e)), tt)),
        ),
      )
      (ground arith) (ground arith) (ground arith)
