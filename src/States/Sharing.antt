-- ===== src/States/Sharing.antt =====
-- When clients of one address share a state, and when they do not.
use kd.Base.{
  ℕ, zero, suc, ◌-◌, ◌≤◌, ◌≡◌, refl, ◌∙◌, false, Bool-cases, Option, none, some, List, [], ◌∷◌, map,
  Text, lookup, insert, lookup-insert, str_eq, eq_of_str_eq, if◌then◌else◌, inl, inr, arith,
}
use kd.States.{Entry, States, acquired, get_state, released, update, release, operate, call}

-- No client owns the state.
abbrev IsUnowned {ℓ} : {S : Type ℓ} → Option (Entry S) → Type 0
IsUnowned none = Unit
IsUnowned (some e) = e.owners ≡ 0

-- Nobody owns any state of the table.
abbrev pub IsIdle {ℓ} : {S : Type ℓ} → States S → Type 0
IsIdle t = (key : Text) → IsUnowned (lookup key t)

acquired-unowned {ℓ} :
    {S : Type ℓ} (fresh : S) (found : Option (Entry S))
    → IsUnowned found
    → acquired fresh found ≡ record { state = fresh; owners = 1 }
unfolding acquired
acquired-unowned fresh none h = refl
acquired-unowned fresh (some e) h = rw h refl

module _ {ℓ ℓ'} {S : Type ℓ} {R : Type ℓ'} (fresh : S) where
  -- Calls that do not overlap, by the address and the method; what they return, and the table.
  abbrev pub calls : List (Text × (S → R × S)) → States S → List R × States S
  calls [] t = ([], t)
  calls ((key, op) ∷ rest) t =
      let out = call fresh key op t in let others = calls rest out.1 in (out.0 ∷ others.0, others.1)

  pub call-IsIdle :
      (key : Text) (op : S → R × S) (t : States S)
      → IsIdle t
      → ((call fresh key op t).0 ≡ (op fresh).0) × IsIdle (call fresh key op t).1
  unfolding call
  call-IsIdle key op t idle = (
    rw (acquired-unowned fresh (lookup key t) (idle key)) refl,
    λ asked. elim (Bool-cases (str_eq key asked)) [
      | inl same ↦
          rw (lookup-insert key asked, same, acquired-unowned fresh (lookup key t) (idle key)) refl
      | inr other ↦ rw (lookup-insert key asked, other) (idle asked)
    ],
  )

  -- A state that only its callers own is forgotten between them: of calls that do not overlap, with
  -- any addresses and methods, each returns what it returns on a new state, and none finds what
  -- another one left.
  pub calls_forget :
      (methods : List (Text × (S → R × S))) (t : States S)
      → IsIdle t
      → ((calls methods t).0 ≡ map (λ (m : Text × (S → R × S)). (m.1 fresh).0) methods)
        × IsIdle (calls methods t).1
  calls_forget [] t idle = (refl, idle)
  calls_forget ((key, op) ∷ rest) t idle =
      let (first, after) = call-IsIdle key op t idle in
      let (others, end) = calls_forget rest (call fresh key op t).1 after in
      (rw (first, others) refl, end)

-- What clients do with the states, in the order in which it happens.
pub data Event {ℓ} (S : Type ℓ) : Type ℓ where
  opens closes : (key : Text) → Event S
  operates : (key : Text) → (S → S) → Event S

module _ {ℓ} {S : Type ℓ} where
  abbrev pub perform : (fresh : S) → Event S → States S → States S
  perform fresh (opens key) t = get_state fresh key t
  perform fresh (closes key) t = release key t
  perform fresh (operates key op) t = operate op key t

  abbrev pub perform_all : (fresh : S) → List (Event S) → States S → States S
  perform_all fresh [] t = t
  perform_all fresh (e ∷ events) t = perform_all fresh events (perform fresh e t)

  -- The one state of an address, as its clients see it, and how many own it.
  abbrev pub seen : (key : Text) → Event S → Entry S → Entry S
  seen key (opens k) e = if str_eq k key then record e { owners = suc e.owners } else e
  seen key (closes k) e = if str_eq k key then record e { owners = e.owners - 1 } else e
  seen key (operates k op) e = if str_eq k key then record e { state = op e.state } else e

  abbrev pub seen_all : (key : Text) → List (Event S) → Entry S → Entry S
  seen_all key [] e = e
  seen_all key (event ∷ events) e = seen_all key events (seen key event e)

  -- The state never loses its last owner.
  abbrev pub IsKept : (key : Text) → List (Event S) → Entry S → Type 0
  IsKept key [] e = 1 ≤ e.owners
  IsKept key (event ∷ events) e = (1 ≤ e.owners) × IsKept key events (seen key event e)

  acquired-owned :
      (fresh state : S) (owners : ℕ)
      → 1 ≤ owners
      → acquired fresh (some (record { state = state; owners = owners }))
        ≡ record { state = state; owners = suc owners }
  unfolding acquired
  acquired-owned fresh state zero h = absurd (omega (arith, h))
  acquired-owned fresh state (suc n) h = refl

  insert-lookup_other :
      (k key : Text) (e : Entry S) (t : States S)
      → str_eq k key ≡ false
      → lookup key (insert k e t) ≡ lookup key t
  insert-lookup_other k key e t other = rw (lookup-insert k key, other) refl

  update-lookup_other :
      (f : Entry S → Entry S) (k key : Text) (found : Option (Entry S)) (t : States S)
      → str_eq k key ≡ false
      → lookup key (update f k found t) ≡ lookup key t
  update-lookup_other f k key none t other = refl
  update-lookup_other f k key (some e) t other = insert-lookup_other k key (f e) t other

  update-lookup :
      (f : Entry S → Entry S) (k key : Text) (e : Entry S) (t : States S)
      → lookup key t ≡ some e
      → lookup key (update f k (lookup k t) t) ≡ some (if str_eq k key then f e else e)
  update-lookup f k key e t found = elim (Bool-cases (str_eq k key)) [
    | inl same ↦
        let here : lookup k t ≡ some e = rw (eq_of_str_eq k key same) found in
        rw here (rw (lookup-insert k key, same) refl)
    | inr other ↦ update-lookup_other f k key (lookup k t) t other ∙ rw other found
  ]

  perform-seen :
      (fresh : S) (key : Text) (event : Event S) (e : Entry S) (t : States S)
      → 1 ≤ e.owners
      → lookup key t ≡ some e
      → lookup key (perform fresh event t) ≡ some (seen key event e)
  unfolding get_state release operate
  perform-seen fresh key (opens k) e t h found = elim (Bool-cases (str_eq k key)) [
    | inl same ↦
        let here : lookup k t ≡ some e = rw (eq_of_str_eq k key same) found in
        rw (lookup-insert k key, same, here, acquired-owned fresh e.state e.owners h) refl
    | inr other ↦ rw (lookup-insert k key, other) found
  ]
  perform-seen fresh key (closes k) e t h found = update-lookup released k key e t found
  perform-seen fresh key (operates k op) e t h found =
      update-lookup (λ e. record e { state = op e.state }) k key e t found

  -- While an address keeps an owner, all its clients work on one state: after any opening, closing
  -- and work of clients of any addresses, in which the state of an address never loses its last
  -- owner, the table holds the state that the work on that address alone makes of the first one.
  pub shared_while_owned :
      (fresh : S) (key : Text) (events : List (Event S)) (e : Entry S) (t : States S)
      → lookup key t ≡ some e
      → IsKept key events e
      → lookup key (perform_all fresh events t) ≡ some (seen_all key events e)
  shared_while_owned fresh key [] e t found kept = found
  shared_while_owned fresh key (event ∷ events) e t found (owned, kept) =
      shared_while_owned fresh key events (seen key event e) (perform fresh event t)
        (perform-seen fresh key event e t owned found) kept
