-- ===== src/Coordination/Clients.antt =====
-- The clients of infrastructure/coordination/impl/etcd. A client keeps its endpoints only: each
-- method gets the state of the endpoints into a local variable, works on it, and lets go of it.
pub mod Forgetting
use kd.Base.{ℕ, Bool, true, List, Text, ℤ, Dict}
use kd.States.{States, call}
use kd.Coordination.{
  ServiceInstance, Etcd, empty_etcd, register, deregister, resolve, watch_service, get, put,
  watch_config, try_lock, unlock, campaign,
}

-- The methods of EtcdServiceRegistry, EtcdServiceResolver, EtcdConfigProvider, EtcdDistributedLock and
-- EtcdLeaderElection; a callback is a number.
pub data Method : Type 0 where
  registers : ServiceInstance → Method
  deregisters : (service_name instance_id : Text) → Method
  resolves : (service_name : Text) → Method
  watches_service : (service_name : Text) → (cb : ℕ) → Method
  gets : (key : Text) → Method
  watches_config : (prefix : Text) → (cb : ℕ) → Method
  puts : (key value : Text) → Method
  locks : (resource : Text) → (ttl : ℤ) → Method
  unlocks : (resource : Text) → Method
  campaigns : (election_name candidate_id : Text) → Method

-- What a method returns or hands to callbacks: `told` has the callbacks and what they are told.
pub data Answer : Type 0 where
  done : Answer
  said : Bool → Answer
  value : Text → Answer
  entries : Dict Text → Answer
  instances : List ServiceInstance → Answer
  told : (callbacks : List ℕ) → List ServiceInstance → Answer
  told_value : (callbacks : List ℕ) → (key value : Text) → Answer

-- The body of a method, on the state that it got.
unfoldable pub body : Method → Etcd → Answer × Etcd
unfolding register deregister resolve watch_service get put watch_config try_lock unlock campaign
body (registers inst) s = let out = register inst s in (told out.0.0 out.0.1, out.1)
body (deregisters service_name instance_id) s =
    let out = deregister service_name instance_id s in (told out.0.0 out.0.1, out.1)
body (resolves service_name) s = (instances (resolve service_name s), s)
body (watches_service service_name cb) s =
    let out = watch_service service_name cb s in (instances out.0, out.1)
body (gets key) s = (value (get key s), s)
body (watches_config prefix cb) s = let out = watch_config prefix cb s in (entries out.0, out.1)
body (puts key v) s = let out = put key v s in (told_value out.0 key v, out.1)
body (locks resource ttl) s = let out = try_lock resource ttl s in (said out.0, out.1)
body (unlocks resource) s = (done, unlock resource s)
body (campaigns election_name candidate_id) s =
    let out = campaign election_name candidate_id s in (said out.0, out.1)

-- A whole call of a method by a client of some endpoints.
unfoldable pub invoke : (endpoints : Text) → Method → States Etcd → Answer × States Etcd
unfolding call body
invoke endpoints method t = call empty_etcd endpoints (body method) t
