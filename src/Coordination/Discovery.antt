-- ===== src/Coordination/Discovery.antt =====
-- What a resolver sees of the registry.
use kd.Base.{
  ◌≡◌, ◌≢◌, refl, ◌∙◌, ◌⊎◌, inl, inr, true, false, Bool-cases, Option, some, List, [], ◌∷◌, Text,
  str_eq, str_eq_refl, eq_of_str_eq, str_eq_of_eq, lookup, Dict, insert, erase, lookup-insert_self,
  All,
}
use kd.Coordination.{
  Etcd, ServiceInstance, instance_key, instances_of, snapshot_instances, register, deregister,
  resolve,
}

abbrev pub Member : ServiceInstance → List ServiceInstance → Type 0
Member a [] = ⊥
Member a (x ∷ xs) = (a ≡ x) ⊎ Member a xs

-- Every entry stands under the key of its instance.
abbrev IsIndexed : Dict ServiceInstance → Type 0
IsIndexed services =
    All (λ (e : Text × ServiceInstance). e.0 ≡ instance_key e.1.service_name e.1.instance_id)
      services

sound :
    (service_name : Text) (services : Dict ServiceInstance)
    → All
        (λ (inst : ServiceInstance). inst.service_name ≡ service_name)
        (instances_of services service_name)
unfolding instances_of
sound service_name [] = tt
sound service_name ((k, inst) ∷ rest) = elim (Bool-cases (str_eq inst.service_name service_name)) [
  | inl same ↦ rw same (eq_of_str_eq _ _ same, sound service_name rest)
  | inr other ↦ rw other (sound service_name rest)
]

complete :
    (k : Text) (inst : ServiceInstance) (services : Dict ServiceInstance)
    → lookup k services ≡ some inst
    → Member inst (instances_of services inst.service_name)
unfolding instances_of lookup
complete k inst [] e = absurd (cc e)
complete k inst ((j, i) ∷ rest) e = elim (Bool-cases (str_eq j k)) [
  | inl found ↦
      let e1 : ◌≡◌ {A = Option ServiceInstance} (some i) (some inst) = rw found at e in
      let same : inst ≡ i = cc e1 in
      let test : str_eq i.service_name inst.service_name ≡ true =
        rw same (str_eq_refl i.service_name) in
      rw test (inl same)
  | inr other ↦ elim (Bool-cases (str_eq i.service_name inst.service_name)) [
    | inl test ↦ rw test (inr (complete k inst rest (rw other at e)))
    | inr test ↦ rw test (complete k inst rest (rw other at e))
  ]
]

-- In one state, a registered instance is resolved under its service, and a resolver gives no instance of another
-- service.
register-resolve :
    (inst : ServiceInstance) (service_name : Text) (s : Etcd)
    → let t = (register inst s).1 in
      Member inst (resolve inst.service_name t)
      × All (λ (i : ServiceInstance). i.service_name ≡ service_name) (resolve service_name t)
unfolding resolve snapshot_instances register
register-resolve inst service_name s =
    let key = instance_key inst.service_name inst.instance_id in
    (
      complete key inst (insert key inst s.services) (lookup-insert_self key inst s.services),
      sound service_name (insert key inst s.services),
    )

differs : (j key : Text) → str_eq j key ≡ false → j ≡ key → ⊥
differs j key other e = absurd (cc (other, str_eq_of_eq j key e))

erased :
    (key service_name : Text) (inst : ServiceInstance) (services : Dict ServiceInstance)
    → IsIndexed services
    → Member inst (instances_of (erase key services) service_name)
    → instance_key inst.service_name inst.instance_id ≢ key
unfolding instances_of erase
erased key service_name inst [] h m = absurd m
erased key service_name inst ((j, i) ∷ rest) (e, h) m = elim (Bool-cases (str_eq j key)) [
  | inl same ↦ erased key service_name inst rest h (rw same at m)
  | inr other ↦
      let later = erased key service_name inst rest h in
      elim (Bool-cases (str_eq i.service_name service_name)) [
        | inl test ↦
            let m1 : (inst ≡ i) ⊎ Member inst (instances_of (erase key rest) service_name) =
              rw (other, test) at m in
            elim m1 [
              | inl same ↦ (λ k. differs j key other (e ∙ (rw same at k)))
              | inr more ↦ later more
            ]
        | inr test ↦ later (rw (other, test) at m)
      ]
]

-- After an instance was deregistered, no resolver gives an instance with its service and id, in a
-- registry whose entries stand under the keys of their instances, as Register keeps them.
deregister-resolve :
    (service_name instance_id asked : Text) (inst : ServiceInstance) (s : Etcd)
    → IsIndexed s.services
    → Member inst (resolve asked (deregister service_name instance_id s).1)
    → ¬ ((inst.service_name ≡ service_name) × (inst.instance_id ≡ instance_id))
unfolding resolve snapshot_instances deregister
deregister-resolve service_name instance_id asked inst s h m (a, b) =
    erased (instance_key service_name instance_id) asked inst s.services h m (rw (a, b) refl)
