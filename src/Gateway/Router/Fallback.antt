-- ===== src/Gateway/Router/Fallback.antt =====
-- The router's targets, where its resolver is a client of the etcd back end.
use kd.Base.{◌≡◌, refl, ap, some, List, [], Text}
use kd.States.{States}
use kd.States.Sharing.{IsIdle}
use kd.Coordination.{ServiceInstance, Etcd}
use kd.Coordination.Clients.{
  Method, Answer, done, said, value, entries, instances, told, told_value, resolves, invoke,
}
use kd.Coordination.Clients.Forgetting.{invoke_all, invoke_all-IsBlank}
use kd.Gateway.Router.{resolve_target}

abbrev resolved : Answer → List ServiceInstance
resolved (instances found) = found
resolved done = []
resolved (said flag) = []
resolved (value v) = []
resolved (entries kv) = []
resolved (told callbacks found) = []
resolved (told_value callbacks key v) = []

-- `resolver_->Resolve` of a resolver for the endpoints, on the states that the process has
abbrev pub resolver : (endpoints : Text) → States Etcd → Text → List ServiceInstance
resolver endpoints t service_name = resolved (invoke endpoints (resolves service_name) t).0

-- A service without instances has the configured target.
resolve_target-none :
    (resolve : Text → List ServiceInstance) (service_name fallback traffic_tag : Text)
    → resolve service_name ≡ []
    → resolve_target (some resolve) service_name fallback traffic_tag ≡ fallback
unfolding resolve_target
resolve_target-none resolve service_name fallback traffic_tag e = rw e refl

-- With a resolver of the etcd back end the router uses the configured targets: in a process in which
-- no call of the back end runs, whatever instances calls have registered that have ended, the target of
-- a service is the fallback.
pub targets_fall_back :
    (methods : List (Text × Method)) (t : States Etcd)
    (endpoints service_name fallback traffic_tag : Text)
    → IsIdle t
    → resolve_target
        (some (resolver endpoints (invoke_all methods t).1))
        service_name
        fallback
        traffic_tag
      ≡ fallback
targets_fall_back methods t endpoints service_name fallback traffic_tag idle =
    let (answers, blank, end) = invoke_all-IsBlank methods t idle in
    resolve_target-none (resolver endpoints (invoke_all methods t).1) service_name fallback
      traffic_tag (ap resolved (blank.unresolved endpoints service_name))
