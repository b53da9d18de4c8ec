-- ===== src/Services/Config/Lookup.antt =====
-- An entry that was published is found.
use kd.Base.{
  ℕ, ◌≡◌, refl, ◌∙◌, ap, ◌⊎◌, inl, inr, Bool, false, Option, none, some, List, [], ◌∷◌, Text, lit,
  str_eq, str_eq_refl, lookup, lookup-insert_self, ℤ, pos, FitsInt64, stoll-to_string, Result, ok,
  raised,
}
use kd.Json.{JsonApi, JsonLaws}
use kd.Api.{ConfigEntry, Status, status_ok}
use kd.Storage.Redis.{Redis, set, get}
use kd.Storage.Redis.Expiry.{get-set}
use kd.Mq.{Bus}
use kd.Services.Config.{
  ConfigService, default_env, build_store_key, build_cache_key, to_mysql_row, from_mysql_row,
  entry_json, serialize_entry, deserialize_entry, cache_text, cache_entry, find_in_mysql,
  found_in_cache, find_cached, find_in_redis, find_entry, find_in_memory, stored, provided,
}
use kd.Services.Config.Publish.{
  versioned, is_invalid, announce, announce_text, after_cache, store_entry, publish_config,
}

-- Writing an entry to a row and reading it back gives the entry.
pub from-to_mysql_row :
    (e : ConfigEntry) → FitsInt64 e.version → from_mysql_row (to_mysql_row e) ≡ ok e
unfolding from_mysql_row to_mysql_row lookup str_eq lit
from-to_mysql_row e version = rw (stoll-to_string e.version version) refl

-- What the look-ups read after a publication.
abbrev IsStored : JsonApi → ConfigEntry → (ns key env : Text) → ConfigService → Type 0
IsStored api e ns key env s =
    (lookup (build_store_key ns key env) s.entries ≡ some e)
    × ((s.redis ≡ none) × (s.mysql ≡ none)
        ⊎ ((redis : Redis) × (payload : Text) × (s.redis
              ≡ some (set (build_cache_key ns key env) payload redis))
            × (serialize_entry api e ≡ ok payload)))

announce_text-kept :
    (e : ConfigEntry) (bus : Bus) (payload : Result Text) (s : ConfigService) {out : Status × ℤ}
    → (announce_text e bus payload s).0 ≡ ok out
    → (out ≡ (status_ok, e.version))
      × ((announce_text e bus payload s).1.entries ≡ s.entries)
      × ((announce_text e bus payload s).1.redis ≡ s.redis)
      × ((announce_text e bus payload s).1.mysql ≡ s.mysql)
unfolding announce_text
announce_text-kept e bus (raised what) s h = absurd (cc h)
announce_text-kept e bus (ok payload) s h = (cc h, refl, refl, refl)

module _ (api : JsonApi) (laws : JsonLaws api) (e : ConfigEntry)
    (version : FitsInt64 e.version) where
  -- Writing an entry as JSON and reading it back gives the entry.
  pub deserialize-serialize :
      (payload : Text)
      → serialize_entry api e ≡ ok payload
      → deserialize_entry api (api.parse payload) ≡ ok (some e)
  unfolding serialize_entry deserialize_entry entry_json lookup str_eq lit
  deserialize-serialize payload h =
      let fields : List (Text × api.Json) =
        (lit "namespace_name", api.string e.namespace_name)
        ∷ (lit "key", api.string e.key)
        ∷ (lit "value", api.string e.value)
        ∷ (lit "version", api.number e.version)
        ∷ (lit "environment", api.string e.environment)
        ∷ [] in
      rw
        (
          laws.parse-dump _ payload h,
          laws.value_string-object fields (lit "namespace_name") [] e.namespace_name refl,
          laws.value_string-object fields (lit "key") [] e.key refl,
          laws.value_string-object fields (lit "value") [] e.value refl,
          laws.value_int64-object fields (lit "version") (pos 0) e.version version refl,
          laws.value_string-object fields (lit "environment") (lit "dev") e.environment refl,
        )
        refl

  find_cached-payload :
      (ns key env payload : Text) (s : ConfigService)
      → serialize_entry api e ≡ ok payload
      → (find_cached api ns key env (some payload) s).0 ≡ ok (some e)
  unfolding find_cached found_in_cache
  find_cached-payload ns key env payload s h = rw (deserialize-serialize payload h) refl

  find_in_redis-set :
      (now : ℕ) (ns key env payload : Text) (redis : Redis) (s : ConfigService)
      → serialize_entry api e ≡ ok payload
      → (find_in_redis api now ns key env
          (some (set (build_cache_key ns key env) payload redis))
          s).0
        ≡ ok (some e)
  unfolding find_in_redis
  find_in_redis-set now ns key env payload redis s h =
      let k = build_cache_key ns key env in
      let got : (get now k (set k payload redis)).0 ≡ some payload =
        get-set now k k payload redis ∙ (rw (str_eq_refl k) refl) in
      rw got (find_cached-payload ns key env payload _ h)

  find_in_memory-stored :
      (ns key env : Text) (s : ConfigService)
      → lookup (build_store_key ns key env) s.entries ≡ some e
      → (find_in_memory ns key env s).0 ≡ ok (some e)
  unfolding find_in_memory
  find_in_memory-stored ns key env s h = ap (λ (o : Option ConfigEntry). ok o) h

  find_in_redis-stored :
      (now : ℕ) (ns key env : Text) (s : ConfigService)
      → IsStored api e ns key env s
      → (find_in_redis api now ns key env s.redis s).0 ≡ ok (some e)
  unfolding find_in_redis find_in_mysql
  find_in_redis-stored now ns key env s (found, inl (quiet, absent)) =
      ap (λ r. (find_in_redis api now ns key env r s).0) quiet
      ∙ (ap (λ m. (find_in_mysql api ns key env m s).0) absent
          ∙ find_in_memory-stored ns key env s found)
  find_in_redis-stored now ns key env s (found, inr (redis, payload, cached, h)) =
      ap (λ r. (find_in_redis api now ns key env r s).0) cached
      ∙ find_in_redis-set now ns key env payload redis s h

module _ (api : JsonApi) (e : ConfigEntry) (ns key env : Text) where
  cache_text-IsStored :
      (redis : Redis) (t : Result Text) (s : ConfigService) {done : Bool}
      → serialize_entry api e ≡ t
      → lookup (build_store_key ns key env) s.entries ≡ some e
      → (cache_text api (build_cache_key ns key env) redis t s).0 ≡ ok done
      → IsStored api e ns key env (cache_text api (build_cache_key ns key env) redis t s).1
  unfolding cache_text
  cache_text-IsStored redis (raised what) s h k c = absurd (cc c)
  cache_text-IsStored redis (ok payload) s h k c = (k, inr (redis, payload, refl, h))

  cache_entry-IsStored :
      (redis : Option Redis) (s : ConfigService) {done : Bool}
      → s.redis ≡ redis
      → (redis ≡ none → s.mysql ≡ none)
      → lookup (build_store_key ns key env) s.entries ≡ some e
      → (cache_entry api (build_cache_key ns key env) e redis s).0 ≡ ok done
      → IsStored api e ns key env (cache_entry api (build_cache_key ns key env) e redis s).1
  unfolding cache_entry
  cache_entry-IsStored none s r m k c = (k, inl (r, m refl))
  cache_entry-IsStored (some redis) s r m k c = cache_text-IsStored redis _ s refl k c

  IsStored-transfer :
      (s t : ConfigService)
      → t.entries ≡ s.entries
      → t.redis ≡ s.redis
      → t.mysql ≡ s.mysql
      → IsStored api e ns key env s
      → IsStored api e ns key env t
  IsStored-transfer s t a b c (found, inl (quiet, absent)) =
      (ap (λ m. lookup (build_store_key ns key env) m) a ∙ found, inl (b ∙ quiet, c ∙ absent))
  IsStored-transfer s t a b c (found, inr (redis, payload, cached, h)) = (
    ap (λ m. lookup (build_store_key ns key env) m) a ∙ found,
    inr (redis, payload, b ∙ cached, h),
  )

  announce-IsStored :
      (bus : Option Bus) (s : ConfigService) {out : Status × ℤ}
      → (announce api e bus s).0 ≡ ok out
      → IsStored api e ns key env s
      → (out ≡ (status_ok, e.version)) × IsStored api e ns key env (announce api e bus s).1
  unfolding announce
  announce-IsStored none s h k = (cc h, k)
  announce-IsStored (some bus) s h k =
      let (a, b, c, d) = announce_text-kept e bus (serialize_entry api e) s h in
      (a, IsStored-transfer s (announce_text e bus (serialize_entry api e) s).1 b c d k)

  after_cache-IsStored :
      (out : Result Bool × ConfigService) {res : Status × ℤ}
      → (after_cache api e out).0 ≡ ok res
      → ((done : Bool) → out.0 ≡ ok done → IsStored api e ns key env out.1)
      → (res ≡ (status_ok, e.version)) × IsStored api e ns key env (after_cache api e out).1
  unfolding after_cache
  after_cache-IsStored (raised what, s) h k = absurd (cc h)
  after_cache-IsStored (ok done, s) h k =
      announce-IsStored s.mq_producer (record s { config_provider = provided e s.config_provider })
        h (k done refl)

module _ (api : JsonApi) (laws : JsonLaws api) where
  -- When PublishConfig of an entry with a namespace and a key completes, it answers the next version,
  -- and a look-up of that namespace, key and environment gives the entry with that version and with
  -- `dev` for an empty environment, whatever was stored before; this where there is a Redis client, or
  -- no MySQL client, and the version has 64 bits.
  pub publish_find :
      (now : ℕ) (request : ConfigEntry) (s : ConfigService) {res : Status × ℤ}
      → is_invalid request ≡ false
      → FitsInt64 (pos s.next_version)
      → (s.redis ≡ none → s.mysql ≡ none)
      → (publish_config api request s).0 ≡ ok res
      → (res ≡ (status_ok, pos s.next_version))
        × ((find_entry api now request.namespace_name request.key request.environment
              (publish_config api request s).1).0
            ≡ ok (some (versioned request s.next_version)))
  unfolding publish_config find_entry versioned store_entry
  publish_find now request s valid fits reach h =
      let e = versioned request s.next_version in
      let env = default_env request.environment in
      let ns = request.namespace_name in
      let key = request.key in
      let t : ConfigService = store_entry api e s in
      let out : Result Bool × ConfigService =
        cache_entry api (build_cache_key ns key env) e s.redis t in
      let h' : (after_cache api e out).0 ≡ ok _ = rw valid at h in
      let (a, kept) = after_cache-IsStored api e ns key env out h' (λ done c.
        cache_entry-IsStored api e ns key env s.redis t refl (λ r. ap (stored e) (reach r))
          (lookup-insert_self (build_store_key ns key env) e s.entries) c) in
      (
        a,
        rw valid
            (find_in_redis-stored api laws e fits now ns key env (after_cache api e out).1 kept),
      )
