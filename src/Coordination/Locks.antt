-- ===== src/Coordination/Locks.antt =====
-- Locks and elections over sequences of calls that work on one state.
use kd.Base.{
  ◌≡◌, ◌≢◌, refl, ap, ◌∙◌, sym, inl, inr, true, false, Bool-cases, Option, none, some, List, [],
  ◌∷◌, Text, str_eq, eq_of_str_eq, is_empty, lookup, lookup-insert, lookup-insert_self,
  lookup-erase, if◌then◌else◌, All, ℤ, to_string,
}
use kd.Coordination.{Etcd, try_lock, try_lock_found, unlock, campaign}

-- Calls of any clients of the back end.
pub data Call : Type 0 where
  locks : (resource : Text) → (ttl : ℤ) → Call
  unlocks : (resource : Text) → Call
  campaigns : (election_name candidate_id : Text) → Call

unfoldable pub step : Call → Etcd → Etcd
unfolding try_lock unlock campaign
step (locks resource ttl) s = (try_lock resource ttl s).1
step (unlocks resource) s = unlock resource s
step (campaigns election_name candidate_id) s = (campaign election_name candidate_id s).1

unfoldable pub run : List Call → Etcd → Etcd
unfolding step
run [] s = s
run (c ∷ cs) s = run cs (step c s)

abbrev IsHeld : Text → Etcd → Type 0
IsHeld resource s = (held : Text) × (lookup resource s.locks ≡ some held)

-- A call that does not unlock the resource.
abbrev IsOther : Text → Call → Type 0
IsOther resource (locks r ttl) = Unit
IsOther resource (unlocks r) = str_eq r resource ≡ false
IsOther resource (campaigns e c) = Unit

try_lock-IsHeld :
    (found : Option Text) (resource r : Text) (ttl : ℤ) (s : Etcd)
    → lookup r s.locks ≡ found
    → IsHeld resource s
    → IsHeld resource (try_lock_found found r ttl s).1
unfolding try_lock_found
try_lock-IsHeld (some x) resource r ttl s e h = h
try_lock-IsHeld none resource r ttl s e (held, h) = elim (Bool-cases (str_eq r resource)) [
  | inl same ↦ (to_string ttl, rw (lookup-insert r resource, same) refl)
  | inr other ↦ (held, rw (lookup-insert r resource, other) h)
]

step-IsHeld :
    (c : Call) (resource : Text) (s : Etcd)
    → IsOther resource c
    → IsHeld resource s
    → IsHeld resource (step c s)
unfolding step
step-IsHeld (locks r ttl) resource s o h =
    unfold try_lock in try_lock-IsHeld _ resource r ttl s refl h
step-IsHeld (unlocks r) resource s o (held, h) =
    (held, unfold unlock in (rw (lookup-erase r resource s.locks, o) h))
step-IsHeld (campaigns e c) resource s o h = unfold campaign in h

run-IsHeld :
    (cs : List Call) (resource : Text) (s : Etcd)
    → All (IsOther resource) cs
    → IsHeld resource s
    → IsHeld resource (run cs s)
unfolding run
run-IsHeld [] resource s o h = h
run-IsHeld (c ∷ cs) resource s (o, os) h =
    run-IsHeld cs resource (step c s) os (step-IsHeld c resource s o h)

try_lock-true :
    (found : Option Text) (resource : Text) (ttl : ℤ) (s : Etcd)
    → (try_lock_found found resource ttl s).0 ≡ true
    → IsHeld resource (try_lock_found found resource ttl s).1
unfolding try_lock_found
try_lock-true (some x) resource ttl s e = absurd (cc e)
try_lock-true none resource ttl s e =
    (to_string ttl, lookup-insert_self resource (to_string ttl) s.locks)

try_lock-refused :
    (found : Option Text) (resource : Text) (ttl : ℤ) (s : Etcd) {held : Text}
    → found ≡ some held
    → try_lock_found found resource ttl s ≡ (false, s)
unfolding try_lock_found
try_lock-refused (some x) resource ttl s e = refl
try_lock-refused none resource ttl s e = absurd (cc e)

-- Mutual exclusion in one state: once a lock was taken, no client takes it again, and an attempt changes nothing,
-- whatever calls come between, as long as none of them unlocks it.
mutual_exclusion :
    (resource : Text) (ttl ttl' : ℤ) (cs : List Call) (s : Etcd)
    → (try_lock resource ttl s).0 ≡ true
    → All (IsOther resource) cs
    → let t = run cs (try_lock resource ttl s).1 in try_lock resource ttl' t ≡ (false, t)
unfolding try_lock
mutual_exclusion resource ttl ttl' cs s taken others =
    let (held, e) =
      run-IsHeld cs resource _ others
        (try_lock-true (lookup resource s.locks) resource ttl s taken) in
    try_lock-refused _ resource ttl' _ e

-- The leader of an election, if it has one.
abbrev Leads : (election_name leader : Text) → Etcd → Type 0
Leads election_name leader s = lookup election_name s.leaders ≡ some leader

campaign-Leads :
    (e c election leader : Text) (s : Etcd)
    → leader ≢ []
    → Leads election leader s
    → Leads election leader (campaign e c s).1
unfolding campaign
campaign-Leads e c election leader s filled h = elim (Bool-cases (str_eq e election)) [
  | inl same ↦
      let e1 : lookup e s.leaders ≡ some leader = rw (eq_of_str_eq e election same) h in
      rw (lookup-insert e election, same, e1) (kept leader filled)
  | inr other ↦ rw (lookup-insert e election, other) h
]
  where
    kept :
        (leader : Text) → leader ≢ [] → some (if is_empty leader then c else leader) ≡ some leader
    kept [] filled = absurd (filled refl)
    kept (x ∷ xs) filled = refl

try_lock-leaders :
    (found : Option Text) (resource : Text) (ttl : ℤ) (s : Etcd)
    → (try_lock_found found resource ttl s).1.leaders ≡ s.leaders
unfolding try_lock_found
try_lock-leaders none resource ttl s = refl
try_lock-leaders (some x) resource ttl s = refl

step-Leads :
    (c : Call) (election leader : Text) (s : Etcd)
    → leader ≢ []
    → Leads election leader s
    → Leads election leader (step c s)
unfolding step try_lock unlock
step-Leads (locks r ttl) election leader s filled h =
    ap (λ m. lookup election m) (try_lock-leaders (lookup r s.locks) r ttl s) ∙ h
step-Leads (unlocks r) election leader s filled h = h
step-Leads (campaigns e c) election leader s filled h =
    campaign-Leads e c election leader s filled h

run-Leads :
    (cs : List Call) (election leader : Text) (s : Etcd)
    → leader ≢ []
    → Leads election leader s
    → Leads election leader (run cs s)
unfolding run
run-Leads [] election leader s filled h = h
run-Leads (c ∷ cs) election leader s filled h =
    run-Leads cs election leader (step c s) filled (step-Leads c election leader s filled h)

campaign-won :
    (election c : Text) (s : Etcd)
    → (campaign election c s).0 ≡ true
    → Leads election c (campaign election c s).1
unfolding campaign
campaign-won election c s won =
    lookup-insert_self election _ s.leaders ∙ ap some (eq_of_str_eq _ c won)

campaign-leader :
    (election c leader : Text) (s : Etcd)
    → leader ≢ []
    → Leads election leader s
    → (campaign election c s).0 ≡ true
    → c ≡ leader
unfolding campaign
campaign-leader election c leader s filled h won = sym (same leader filled (rw h at won))
  where
    same :
        (leader : Text)
        → leader ≢ []
        → str_eq (if is_empty leader then c else leader) c ≡ true
        → leader ≡ c
    same [] filled e = absurd (filled refl)
    same (x ∷ xs) filled e = eq_of_str_eq (x ∷ xs) c e

-- One leader for an election of a state, for ever: after a candidate with an id was told that it leads, a
-- candidate of the same election that is told so later has the same id, whatever calls come between.
single_leader :
    (election c c' : Text) (cs : List Call) (s : Etcd)
    → c ≢ []
    → (campaign election c s).0 ≡ true
    → (campaign election c' (run cs (campaign election c s).1)).0 ≡ true
    → c' ≡ c
single_leader election c c' cs s filled won later =
    campaign-leader election c' c (run cs (campaign election c s).1) filled
      (run-Leads cs election c _ filled (campaign-won election c s won)) later
