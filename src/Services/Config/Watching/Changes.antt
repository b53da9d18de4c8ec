-- ===== src/Services/Config/Watching/Changes.antt =====
-- A watch of a namespace against the history of publications.
use kd.Base.{
  suc, ◌-◌, ◌≤◌, ◌<◌, ◌≡◌, ◌≢◌, ◌↔◌, refl, ◌∙◌, ◌⊎◌, inl, inr, true, false, Bool, Bool-cases,
  Option, none, some, List, [], ◌∷◌, Text, str_eq, lookup, insert, lookup-insert, arith, pos, ltb_ℤ,
  Result, ok, raised,
}
use kd.Json.{JsonApi}
use kd.Api.{ConfigEntry}
use kd.Mq.{Bus}
use kd.Storage.Redis.{Redis}
use kd.Services.Config.{
  ConfigService, build_cache_key, collect_namespace, cache_entry, cache_text, provided,
}
use kd.Services.Config.Publish.{
  versioned, is_invalid, announce, announce_text, after_cache, store_entry, publish_config,
}
use kd.Services.Config.Watching.{
  Member, NoRepeats, key_of, IsTable, IsTable-suc, insert-IsTable, lookup-below, newer_sound,
  newer_complete, newer-NoRepeats,
}

-- The table and the counter of `t` are those of `s`.
abbrev SameTable : ConfigService → ConfigService → Type 0
SameTable s t = (t.entries ≡ s.entries) × (t.next_version ≡ s.next_version)

announce_text-SameTable :
    (e : ConfigEntry) (bus : Bus) (payload : Result Text) (s : ConfigService)
    → SameTable s (announce_text e bus payload s).1
unfolding announce_text
announce_text-SameTable e bus (raised what) s = (refl, refl)
announce_text-SameTable e bus (ok payload) s = (refl, refl)

module _ (api : JsonApi) where
  announce-SameTable :
      (e : ConfigEntry) (bus : Option Bus) (s : ConfigService)
      → SameTable s (announce api e bus s).1
  unfolding announce
  announce-SameTable e none s = (refl, refl)
  announce-SameTable e (some bus) s = announce_text-SameTable e bus _ s

  cache_text-SameTable :
      (k : Text) (redis : Redis) (payload : Result Text) (s : ConfigService)
      → SameTable s (cache_text api k redis payload s).1
  unfolding cache_text
  cache_text-SameTable k redis (raised what) s = (refl, refl)
  cache_text-SameTable k redis (ok payload) s = (refl, refl)

  cache_entry-SameTable :
      (k : Text) (e : ConfigEntry) (redis : Option Redis) (s : ConfigService)
      → SameTable s (cache_entry api k e redis s).1
  unfolding cache_entry
  cache_entry-SameTable k e none s = (refl, refl)
  cache_entry-SameTable k e (some redis) s = cache_text-SameTable k redis _ s

  after_cache-SameTable :
      (e : ConfigEntry) (out : Result Bool × ConfigService)
      → SameTable out.1 (after_cache api e out).1
  unfolding after_cache
  after_cache-SameTable e (raised what, s) = (refl, refl)
  after_cache-SameTable e (ok done, s) =
      announce-SameTable e s.mq_producer
        (record s { config_provider = provided e s.config_provider })

  -- A publication that is valid stores its entry under the entry's key, also if it raises later.
  publish_config-stores :
      (request : ConfigEntry) (s : ConfigService)
      → is_invalid request ≡ false
      → let e = versioned request s.next_version in
        ((publish_config api request s).1.entries ≡ insert (key_of e) e s.entries)
        × ((publish_config api request s).1.next_version ≡ suc s.next_version)
  unfolding publish_config store_entry
  publish_config-stores request s valid =
      let e : ConfigEntry = versioned request s.next_version in
      let s' : ConfigService = store_entry api e s in
      let cached =
        cache_entry-SameTable (build_cache_key e.namespace_name e.key e.environment) e s.redis s' in
      let rest =
        after_cache-SameTable e
          (cache_entry api (build_cache_key e.namespace_name e.key e.environment) e s.redis s') in
      rw valid (rest.0 ∙ cached.0, rest.1 ∙ cached.1)

  publish_config-refuses :
      (request : ConfigEntry) (s : ConfigService)
      → is_invalid request ≡ true
      → (publish_config api request s).1 ≡ s
  unfolding publish_config
  publish_config-refuses request s invalid = rw invalid refl

  -- The publications one after the other, whatever they answer or raise.
  abbrev pub publish_all : List ConfigEntry → ConfigService → ConfigService
  publish_all [] s = s
  publish_all (request ∷ requests) s = publish_all requests (publish_config api request s).1

  -- What holds of a service at a time after `start` was taken: it has a table, and each of its
  -- entries is in the table of `start` or has a version that `start` had not given yet.
  record IsAfter (start s : ConfigService) : Type 0 where
    table : IsTable s.next_version s.entries
    advanced : start.next_version ≤ s.next_version
    changed :
        (k : Text) (e : ConfigEntry)
        → lookup k s.entries ≡ some e
        → (lookup k start.entries ≡ some e) ⊎ (ltb_ℤ e.version (pos start.next_version) ≡ false)

  stored-IsAfter :
      (start s t : ConfigService) (request : ConfigEntry)
      → t.entries
        ≡ insert
            (key_of (versioned request s.next_version))
            (versioned request s.next_version)
            s.entries
      → t.next_version ≡ suc s.next_version
      → IsAfter start s
      → IsAfter start t
  unfolding versioned
  stored-IsAfter start s t request entries next a =
      let e : ConfigEntry = versioned request s.next_version in
      record {
        table =
            rw (entries, next)
              (insert-IsTable (suc s.next_version) (key_of e) e s.entries refl (ground arith)
                (IsTable-suc s.next_version s.entries a.table));
        advanced = omega (arith, next, a.advanced);
        changed = λ k x h. elim (Bool-cases (str_eq (key_of e) k)) [
          | inl own ↦
              let h1 : ◌≡◌ {A = Option ConfigEntry} (some e) (some x) =
                rw (entries, lookup-insert (key_of e) k e s.entries, own) at h in
              let same : e ≡ x = cc h1 in inr (rw⁻¹ same (ground (arith, a.advanced)))
          | inr other ↦
              a.changed k x (rw (entries, lookup-insert (key_of e) k e s.entries, other) at h)
        ];
      }

  publish_all-IsAfter :
      (start s : ConfigService) (requests : List ConfigEntry)
      → IsAfter start s
      → IsAfter start (publish_all requests s)
  publish_all-IsAfter start s [] a = a
  publish_all-IsAfter start s (request ∷ requests) a =
      publish_all-IsAfter start (publish_config api request s).1 requests
        (elim (Bool-cases (is_invalid request)) [
          | inl invalid ↦ rw (publish_config-refuses request s invalid) a
          | inr valid ↦
              let (entries, next) = publish_config-stores request s valid in
              stored-IsAfter start s (publish_config api request s).1 request entries next a
        ])

  reset : (s : ConfigService) → IsTable s.next_version s.entries → IsAfter s s
  reset s table = record { table = table; advanced = omega arith; changed = λ k e h. inl h }

  -- A service that starts without entries and with a positive next version, as the source's does,
  -- makes any publications, and then any more; a watch that
  -- knows the versions up to the last one of the first part gets each entry of its namespace that
  -- the table holds at the end but did not hold, under the same key, after the first part: all of
  -- these, no other, and each once.
  pub watch_changes :
      (before after : List ConfigEntry) (start : ConfigService) (ns : Text) (e : ConfigEntry)
      → start.entries ≡ []
      → 0 < start.next_version
      → let s = publish_all before start in
        let t = publish_all after s in
        let updates = collect_namespace ns (pos (s.next_version - 1)) t in
        (Member e updates ↔ (
          (k : Text) × (lookup k t.entries ≡ some e)
          × (e.namespace_name ≡ ns)
          × (lookup k s.entries ≢ some e)))
        × NoRepeats updates
  unfolding collect_namespace
  watch_changes before after start ns e empty counted =
      let s : ConfigService = publish_all before start in
      let t : ConfigService = publish_all after s in
      let first : IsAfter start s =
        publish_all-IsAfter start start before (reset start (rw empty tt)) in
      let then_after : IsAfter s t = publish_all-IsAfter s s after (reset s first.table) in
      let positive : 0 < s.next_version = omega (arith, first.advanced) in
      (
        (
          λ m.
              let (named, newer, found) =
                newer_sound t.next_version ns (pos (s.next_version - 1)) e t.entries
                  then_after.table m in
              (
                key_of e,
                found,
                named,
                λ old.
                    let below =
                      lookup-below s.next_version (key_of e) e s.entries first.table old in
                    absurd (ground (arith, below, newer, positive)),
              ),
          λ h.
              let (k, found, named, new) = h in
              elim (then_after.changed k e found) [
                | inl old ↦ absurd (new old)
                | inr late ↦
                    let newer : ltb_ℤ (pos (s.next_version - 1)) e.version ≡ true =
                      ground (arith, late, positive) in
                    rw⁻¹ named (newer_complete k (pos (s.next_version - 1)) e t.entries found newer)
              ],
        ),
        newer-NoRepeats t.next_version ns (pos (s.next_version - 1)) t.entries then_after.table,
      )
