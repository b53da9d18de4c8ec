-- ===== src/States.antt =====
-- The tables of states that the clients of one address share: GetState of
-- infrastructure/coordination/impl/etcd/…/etcd_state.h, and the two functions SharedStateFor of
-- infrastructure/storage. A table holds `weak_ptr`s: a state lives while some `shared_ptr` owns it.
pub mod Sharing
use kd.Base.{
  ℕ, zero, suc, ◌-◌, Bool, Option, none, some, List, [], ◌∷◌, Text, Dict, lookup, insert, str_eq,
  if◌then◌else◌,
}

-- An entry: the state and the number of its owners. Without an owner the `weak_ptr` has expired, and
-- the state is never read again.
pub record Entry {ℓ} (S : Type ℓ) : Type ℓ where
  pub state : S
  pub owners : ℕ

abbrev pub States {ℓ} : Type ℓ → Type ℓ
States S = Dict (Entry S)

-- `states[key].lock()`, or a new state with one owner
unfoldable pub acquired {ℓ} : {S : Type ℓ} → (fresh : S) → Option (Entry S) → Entry S
acquired fresh none = record { state = fresh; owners = 1 }
acquired fresh (some e) = elim e.owners [
  | zero ↦ record { state = fresh; owners = 1 }
  | suc n ↦ record { state = e.state; owners = suc (suc n) }
]

-- GetState and SharedStateFor: the caller owns what it gets.
unfoldable pub get_state {ℓ} : {S : Type ℓ} → (fresh : S) → (key : Text) → States S → States S
unfolding acquired
get_state fresh key t = insert key (acquired fresh (lookup key t)) t

-- An owner of the state goes away.
abbrev pub released {ℓ} : {S : Type ℓ} → Entry S → Entry S
released e = record e { owners = e.owners - 1 }

abbrev pub update {ℓ} :
    {S : Type ℓ} → (Entry S → Entry S) → (key : Text) → Option (Entry S) → States S → States S
update f key none t = t
update f key (some e) t = insert key (f e) t

-- The destructor of a `shared_ptr`
unfoldable pub release {ℓ} : {S : Type ℓ} → (key : Text) → States S → States S
release key t = update released key (lookup key t) t

-- A method of a client that keeps its `state_`, such as those of Redis and MySQL.
unfoldable pub operate {ℓ} : {S : Type ℓ} → (S → S) → (key : Text) → States S → States S
operate op key t = update (λ e. record e { state = op e.state }) key (lookup key t) t

-- A method that gets the state into a local variable, such as all those of the etcd back end: what
-- it returns, and the table when the variable is gone.
unfoldable pub call {ℓ ℓ'} :
    {S : Type ℓ} {R : Type ℓ'} → (fresh : S) → (key : Text) → (S → R × S) → States S → R × States S
unfolding acquired
call fresh key op t =
    let held = acquired fresh (lookup key t) in
    let out = op held.state in (out.0, insert key (released (record held { state = out.1 })) t)
