-- ===== src/Storage/Redis/Expiry.antt =====
-- What a key holds over time.
use kd.Base.{
  ℕ, ◌≡◌, refl, ◌∙◌, ap, Dict, Bool, true, Bool-cases, inl, inr, Option, none, some, Text, str_eq,
  str_eq_refl, lookup, insert, lookup-insert, lookup-erase, if◌then◌else◌, ℤ, leb,
}
use kd.Storage.Redis.{
  Redis, ValueEntry, expired, purge_found, purge_expired, set, get, value_of, expire, expire_found,
  del, deadline_of,
}

-- The value of an entry at the time `now`.
abbrev pub alive : Option ValueEntry → ℕ → Option Text
alive none now = none
alive (some e) now = if expired e.expires_at now then none else some e.value

purge-alive :
    (now : ℕ) (key : Text) (found : Option ValueEntry) (s : Redis)
    → lookup key s.kv ≡ found
    → value_of (lookup key (purge_found found now key s).kv) ≡ alive found now
unfolding purge_found
purge-alive now key none s e = rw e refl
purge-alive now key (some v) s e = elim (Bool-cases (expired v.expires_at now)) [
  | inl old ↦ rw old (rw (lookup-erase, str_eq_refl key) refl)
  | inr fresh ↦ rw (fresh, e) refl
]

-- GET reads the entry of its key and no other.
get-alive : (now : ℕ) (key : Text) (s : Redis) → (get now key s).0 ≡ alive (lookup key s.kv) now
unfolding get purge_expired
get-alive now key s = purge-alive now key (lookup key s.kv) s refl

alive-insert :
    (now : ℕ) (k j : Text) (e : ValueEntry) (kv : Dict ValueEntry)
    → alive (lookup j (insert k e kv)) now
      ≡ (if str_eq k j then alive (some e) now else alive (lookup j kv) now)
alive-insert now k j e kv = elim (Bool-cases (str_eq k j)) [
  | inl same ↦ rw (lookup-insert k j e kv, same) refl
  | inr other ↦ rw (lookup-insert k j e kv, other) refl
]

-- After SET, and until another operation on the key, GET finds the value at any time, also where the
-- key had a deadline before; other keys read as before.
pub get-set :
    (now : ℕ) (k j v : Text) (s : Redis)
    → (get now j (set k v s)).0 ≡ (if str_eq k j then some v else (get now j s).0)
unfolding set
get-set now k j v s =
    rw (get-alive now j (set k v s), get-alive now j s)
      (alive-insert now k j (record { value = v; expires_at = none }) s.kv)

-- After DEL, GET finds nothing under the key; other keys read as before.
get-del :
    (now : ℕ) (k j : Text) (s : Redis)
    → (get now j (del k s).1).0 ≡ (if str_eq k j then none else (get now j s).0)
unfolding del
get-del now k j s = elim (Bool-cases (str_eq k j)) [
  | inl same ↦ rw (get-alive now j (del k s).1, get-alive now j s, lookup-erase k j s.kv, same) refl
  | inr other ↦
      rw (get-alive now j (del k s).1, get-alive now j s, lookup-erase k j s.kv, other) refl
]

expire-found :
    (found : Option ValueEntry) (now : ℕ) (key : Text) (ttl : ℤ) (s : Redis) {e : ValueEntry}
    → found ≡ some e
    → expire_found found now key ttl s ≡ (
      true,
      record s { kv = insert key (record e { expires_at = some (deadline_of now ttl) }) s.kv },
    )
unfolding expire_found
expire-found none now key ttl s h = absurd (cc h)
expire-found (some d) now key ttl s {e} h = let same : d ≡ e = cc h in rw same refl

-- EXPIRE of a key that is there gives it a deadline: GET finds its value before the deadline, and
-- nothing from the deadline on. A second EXPIRE replaces the first. Other keys read as before.
get-expire :
    (now later : ℕ) (k j : Text) (ttl : ℤ) (s : Redis) (e : ValueEntry)
    → lookup k s.kv ≡ some e
    → let out = expire now k ttl s in
      (out.0 ≡ true)
      × ((get later j out.1).0 ≡ (
          if str_eq k j
          then (if leb (deadline_of now ttl) later then none else some e.value)
          else (get later j s).0))
unfolding expire
get-expire now later k j ttl s e h =
    let out = expire_found (lookup k s.kv) now k ttl s in
    let same = expire-found (lookup k s.kv) now k ttl s h in
    (
      ap (λ o. o.0) same,
      rw (get-alive later j s) (
          ap (λ (o : Bool × Redis). (get later j o.1).0) same
          ∙ (get-alive later j _
              ∙ alive-insert later k j (record e { expires_at = some (deadline_of now ttl) })
                  s.kv)),
    )
