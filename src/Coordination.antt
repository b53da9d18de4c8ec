-- ===== src/Coordination.antt =====
-- infrastructure/coordination: the state of the etcd back end, and what the methods of its clients do
-- with a state. How they get one is in Clients.
pub mod Locks
pub mod Discovery
pub mod Clients
use kd.Base.{
  ℕ, Text, [], ◌∷◌, ◌++◌, List, Dict, lookup, insert, erase, str_eq, starts_with, is_empty,
  if◌then◌else◌, Bool, true, false, Option, none, some, lit, ℤ, to_string,
}

pub record ServiceInstance : Type 0 where
  pub service_name : Text
  pub instance_id : Text
  pub host : Text
  pub port : ℕ
  pub protocol : Text
  pub version : Text
  pub zone : Text

-- ServiceInstance{}
abbrev pub no_instance : ServiceInstance
no_instance = record {
  service_name = [];
  instance_id = [];
  host = [];
  port = 0;
  protocol = [];
  version = [];
  zone = [];
}

-- SharedEtcdState. A watcher is the prefix or the service that it asked for, with a number that
-- stands for its callback; what a call hands to the callbacks is a part of its result.
pub record Etcd : Type 0 where
  pub kv : Dict Text
  pub services : Dict ServiceInstance
  pub config_watchers : List (Text × ℕ)
  pub service_watchers : List (Text × ℕ)
  pub locks : Dict Text
  pub leaders : Dict Text

abbrev pub empty_etcd : Etcd
empty_etcd = record {
  kv = [];
  services = [];
  config_watchers = [];
  service_watchers = [];
  locks = [];
  leaders = [];
}

-- The loop of SnapshotInstances
unfoldable pub instances_of : Dict ServiceInstance → (service_name : Text) → List ServiceInstance
instances_of [] service_name = []
instances_of ((k, inst) ∷ rest) service_name =
    let others = instances_of rest service_name in
    if str_eq inst.service_name service_name then inst ∷ others else others

unfoldable pub snapshot_instances : Etcd → (service_name : Text) → List ServiceInstance
unfolding instances_of
snapshot_instances s service_name = instances_of s.services service_name

-- The callbacks that a change of a service, or of a key, is handed to.
unfoldable service_callbacks : List (Text × ℕ) → (service_name : Text) → List ℕ
service_callbacks [] service_name = []
service_callbacks ((watched, cb) ∷ rest) service_name =
    let others = service_callbacks rest service_name in
    if str_eq watched service_name then cb ∷ others else others

unfoldable config_callbacks : List (Text × ℕ) → (key : Text) → List ℕ
config_callbacks [] key = []
config_callbacks ((prefix, cb) ∷ rest) key =
    let others = config_callbacks rest key in if starts_with key prefix then cb ∷ others else others

-- NotifyServiceWatchers: who is told, and what
unfoldable notify_service_watchers : Etcd → (service_name : Text) → List ℕ × List ServiceInstance
unfolding service_callbacks snapshot_instances
notify_service_watchers s service_name =
    (service_callbacks s.service_watchers service_name, snapshot_instances s service_name)

abbrev pub instance_key : (service_name instance_id : Text) → Text
instance_key service_name instance_id = service_name ++ (lit "/" ++ instance_id)

-- Register; the time to live is not used
unfoldable pub register : ServiceInstance → Etcd → (List ℕ × List ServiceInstance) × Etcd
unfolding notify_service_watchers
register inst s =
    let s' : Etcd = record s {
      services = insert (instance_key inst.service_name inst.instance_id) inst s.services;
    } in
    (notify_service_watchers s' inst.service_name, s')

unfoldable pub deregister :
    (service_name instance_id : Text) → Etcd → (List ℕ × List ServiceInstance) × Etcd
unfolding notify_service_watchers
deregister service_name instance_id s =
    let s' : Etcd = record s {
      services = erase (instance_key service_name instance_id) s.services;
    } in
    (notify_service_watchers s' service_name, s')

unfoldable pub resolve : (service_name : Text) → Etcd → List ServiceInstance
unfolding snapshot_instances
resolve service_name s = snapshot_instances s service_name

-- EtcdServiceResolver::Watch: the callback is told the instances at once
unfoldable pub watch_service : (service_name : Text) → (cb : ℕ) → Etcd → List ServiceInstance × Etcd
unfolding snapshot_instances
watch_service service_name cb s = (
  snapshot_instances s service_name,
  record s { service_watchers = s.service_watchers ++ (service_name, cb) ∷ [] },
)

-- EtcdConfigProvider
unfoldable pub get : (key : Text) → Etcd → Text
get key s = elim (lookup key s.kv) [ none ↦ [] | some value ↦ value ]

unfoldable pub put : (key value : Text) → Etcd → List ℕ × Etcd
unfolding config_callbacks
put key value s = (config_callbacks s.config_watchers key, record s { kv = insert key value s.kv })

unfoldable under_prefix : Dict Text → (prefix : Text) → Dict Text
under_prefix [] prefix = []
under_prefix ((key, value) ∷ rest) prefix =
    let others = under_prefix rest prefix in
    if starts_with key prefix then (key, value) ∷ others else others

unfoldable pub watch_config : (prefix : Text) → (cb : ℕ) → Etcd → Dict Text × Etcd
unfolding under_prefix
watch_config prefix cb s = (
  under_prefix s.kv prefix,
  record s { config_watchers = s.config_watchers ++ (prefix, cb) ∷ [] },
)

-- EtcdDistributedLock; `ttl` is the count of seconds, which nothing reads
unfoldable pub try_lock_found : Option Text → (resource : Text) → (ttl : ℤ) → Etcd → Bool × Etcd
try_lock_found (some held) resource ttl s = (false, s)
try_lock_found none resource ttl s =
    (true, record s { locks = insert resource (to_string ttl) s.locks })

unfoldable pub try_lock : (resource : Text) → (ttl : ℤ) → Etcd → Bool × Etcd
unfolding try_lock_found
try_lock resource ttl s = try_lock_found (lookup resource s.locks) resource ttl s

unfoldable pub unlock : (resource : Text) → Etcd → Etcd
unlock resource s = record s { locks = erase resource s.locks }

abbrev leader_of : Option Text → Text
leader_of none = []
leader_of (some leader) = leader

-- EtcdLeaderElection::Campaign: what the callback is told. Resign does nothing.
unfoldable pub campaign : (election_name candidate_id : Text) → Etcd → Bool × Etcd
campaign election_name candidate_id s =
    let current : Text = leader_of (lookup election_name s.leaders) in
    let leader : Text = if is_empty current then candidate_id else current in
    (str_eq leader candidate_id, record s { leaders = insert election_name leader s.leaders })
