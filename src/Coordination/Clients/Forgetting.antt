-- ===== src/Coordination/Clients/Forgetting.antt =====
-- What the clients of the etcd back end find of each other's calls.
use kd.Base.{◌≡◌, refl, ◌∙◌, ap, true, List, [], ◌∷◌, map, Text, ℤ, lookup, str_eq_refl}
use kd.States.{States, call}
use kd.States.Sharing.{IsIdle, calls, call-IsIdle, calls_forget}
use kd.Coordination.{
  Etcd, empty_etcd, resolve, snapshot_instances, instances_of, get, try_lock, try_lock_found,
  campaign,
}
use kd.Coordination.Clients.{
  Method, Answer, said, value, instances, resolves, gets, locks, campaigns, body, invoke,
}

-- Calls of clients of any endpoints, none of which begins before the one before it has ended.
abbrev pub invoke_all : List (Text × Method) → States Etcd → List Answer × States Etcd
invoke_all [] t = ([], t)
invoke_all ((endpoints, method) ∷ rest) t =
    let out = invoke endpoints method t in
    let others = invoke_all rest out.1 in (out.0 ∷ others.0, others.1)

-- The methods as calls of the table.
abbrev as_calls : List (Text × Method) → List (Text × (Etcd → Answer × Etcd))
as_calls methods = map (λ (m : Text × Method). (m.0, body m.1)) methods

invoke_all-calls :
    (methods : List (Text × Method)) (t : States Etcd)
    → invoke_all methods t ≡ calls empty_etcd (as_calls methods) t
unfolding invoke
invoke_all-calls [] t = refl
invoke_all-calls ((endpoints, method) ∷ rest) t =
    rw (invoke_all-calls rest (call empty_etcd endpoints (body method) t).1) refl

-- The answers of the methods to clients that share nothing.
abbrev pub answers_alone : List (Text × Method) → List Answer
answers_alone methods = map (λ (m : Text × Method). (body m.1 empty_etcd).0) methods

as_calls-alone :
    (methods : List (Text × Method))
    → map (λ (m : Text × (Etcd → Answer × Etcd)). (m.1 empty_etcd).0) (as_calls methods)
      ≡ answers_alone methods
as_calls-alone [] = refl
as_calls-alone (m ∷ rest) = rw (as_calls-alone rest) refl

-- What an idle back end answers to the next call.
pub record IsBlank (t : States Etcd) : Type 0 where
  pub unresolved :
      (endpoints service_name : Text)
      → (invoke endpoints (resolves service_name) t).0 ≡ instances []
  pub unset : (endpoints key : Text) → (invoke endpoints (gets key) t).0 ≡ value []
  pub unlocked :
      (endpoints resource : Text) (ttl : ℤ)
      → (invoke endpoints (locks resource ttl) t).0 ≡ said true
  pub unled :
      (endpoints election candidate : Text)
      → (invoke endpoints (campaigns election candidate) t).0 ≡ said true

IsIdle-IsBlank : (t : States Etcd) → IsIdle t → IsBlank t
unfolding invoke body resolve snapshot_instances instances_of get try_lock try_lock_found campaign
    lookup
IsIdle-IsBlank t idle = record {
  unresolved = λ endpoints service_name.
      (call-IsIdle empty_etcd endpoints (body (resolves service_name)) t idle).0;
  unset = λ endpoints key. (call-IsIdle empty_etcd endpoints (body (gets key)) t idle).0;
  unlocked = λ endpoints resource ttl.
      (call-IsIdle empty_etcd endpoints (body (locks resource ttl)) t idle).0;
  unled = λ endpoints election candidate.
      (call-IsIdle empty_etcd endpoints (body (campaigns election candidate)) t idle).0
      ∙ ap said (str_eq_refl candidate);
}

-- Of calls that do not overlap, the etcd back end keeps nothing: in a process in which no call runs,
-- whatever methods clients of any endpoints call then, each answers as on an empty state, and
-- afterwards no service is resolved, no key has a value, and every lock and every election is free, the
-- locks that were taken before included.
pub invoke_all-IsBlank :
    (methods : List (Text × Method)) (t : States Etcd)
    → IsIdle t
    → ((invoke_all methods t).0 ≡ answers_alone methods)
      × IsBlank (invoke_all methods t).1
      × IsIdle (invoke_all methods t).1
invoke_all-IsBlank methods t idle =
    let (answers, end) = calls_forget empty_etcd (as_calls methods) t idle in
    rw (invoke_all-calls methods t) (answers ∙ as_calls-alone methods, IsIdle-IsBlank _ end, end)
