-- ===== src/Tests/Storing.antt =====
-- Examples of the back ends: storage, messages and coordination.
use kd.Base.{
  ◌≡◌, refl, none, some, List, [], ◌∷◌, Text, lit, pos, str_eq, lookup, if◌then◌else◌, arith,
}
use kd.Storage.Redis.{Redis, ValueEntry, empty_redis, set}
use kd.Storage.Mysql.{QueryRow, upsert_row, get_row}
use kd.Storage.Mysql.Keyed.{get-upsert}
use kd.Mq.{Bus, Subscriptions}
use kd.States.{Entry, States}
use kd.States.Sharing.{
  Event, opens, closes, operates, perform_all, seen_all, IsIdle, shared_while_owned,
}
use kd.Coordination.{Etcd, ServiceInstance, no_instance}
use kd.Coordination.Clients.{Method, registers, locks}
use kd.Coordination.Clients.Forgetting.{invoke_all, answers_alone, IsBlank, invoke_all-IsBlank}
use kd.Gateway.Router.{resolve_target}
use kd.Gateway.Router.Fallback.{resolver, targets_fall_back}

abbrev entry : ValueEntry
entry = record { value = lit "v"; expires_at = none }

abbrev filled : Redis
filled = record empty_redis { kv = (lit "k", entry) ∷ [] }

abbrev row : QueryRow
row = (lit "user_id", lit "user_1") ∷ []

get-upsert_example :
    get_row
      (lit "users")
      (lit "user_id")
      (lit "user_1")
      (upsert_row (lit "users") row (lit "user_id" ∷ []) [])
    ≡ (if str_eq (lit "user_1") (lit "user_1")
        then some row
        else get_row (lit "users") (lit "user_id") (lit "user_1") [])
unfolding lookup str_eq lit
get-upsert_example =
    get-upsert (lit "users") (lit "user_id") (lit "user_1") (lit "user_1") row [] refl tt

abbrev published : List (Text × Text)
published = (lit "t", lit "a") ∷ (lit "u", lit "x") ∷ (lit "t", lit "b") ∷ []

abbrev quiet : Subscriptions
quiet = (lit "t", λ p b. b) ∷ (lit "u", λ p b. b) ∷ []

abbrev busy : Bus
busy = (lit "u", lit "x" ∷ []) ∷ (lit "t", lit "a" ∷ lit "b" ∷ []) ∷ []

abbrev node : ServiceInstance
node = record no_instance { service_name = lit "user"; instance_id = lit "1"; port = 50052 }

-- A registration and a lock, by clients that let go of the state.
abbrev methods : List (Text × Method)
methods = (lit "etcd:1", registers node) ∷ (lit "etcd:1", locks (lit "a") (pos 5)) ∷ []

abbrev no_states : States Etcd
no_states = []

invoke_all-IsBlank_example :
    ((invoke_all methods no_states).0 ≡ answers_alone methods)
    × IsBlank (invoke_all methods no_states).1
    × IsIdle (invoke_all methods no_states).1
unfolding lookup
invoke_all-IsBlank_example = invoke_all-IsBlank methods no_states (λ key. tt)

targets_fall_back_example :
    resolve_target
      (some (resolver (lit "etcd:1") (invoke_all methods no_states).1))
      (lit "user")
      (lit "u:1")
      []
    ≡ lit "u:1"
unfolding lookup
targets_fall_back_example =
    targets_fall_back methods no_states (lit "etcd:1") (lit "user") (lit "u:1") [] (λ key. tt)

-- Two clients of one Redis, of which the first goes away, and one of another.
abbrev clients : List (Event Redis)
clients =
    opens (lit "r:1/0")
    ∷ operates (lit "r:1/0") (set (lit "k") (lit "v"))
    ∷ opens (lit "r:2/0")
    ∷ operates (lit "r:2/0") (set (lit "k") (lit "w"))
    ∷ closes (lit "r:1/0")
    ∷ []

abbrev first_client : Entry Redis
first_client = record { state = empty_redis; owners = 1 }

shared_while_owned_example :
    lookup (lit "r:1/0") (perform_all empty_redis clients ((lit "r:1/0", first_client) ∷ []))
    ≡ some (seen_all (lit "r:1/0") clients first_client)
unfolding lookup str_eq lit
shared_while_owned_example =
    shared_while_owned empty_redis (lit "r:1/0") clients first_client
      ((lit "r:1/0", first_client) ∷ []) refl
      (ground arith, (ground arith, (ground arith, (ground arith, (ground arith, ground arith)))))
