-- ===== src/Services/Config.antt =====
-- services/config_service/config_service_impl.cpp. `entries_`, the back ends, the calls of Put and the
-- bus are the state, `none` a null client; a method of the service is one step of it. Errors are the
-- exceptions of the JSON library and of `std::stoll`. `now` is the clock of Redis.
pub mod Publish
pub mod Lookup
pub mod Watching
use kd.Base.{
  ℕ, suc, ◌++◌, Bool, true, not, ◌&&◌, ◌||◌, Option, none, some, List, [], ◌∷◌, Text, lit, is_empty,
  str_eq, Dict, lookup, insert, if◌then◌else◌, ℤ, pos, negsuc, ltb_ℤ, to_string, stoll, Result, ok,
  raised, ◌>>=◌,
}
use kd.Base.Exec.{Exec}
use kd.Json.{JsonApi}
use kd.Api.{ConfigEntry, no_entry, GetConfigRequest, Status, status_ok, not_found, invalid_argument}
use kd.Storage.Redis.{Redis, set, get}
use kd.Storage.Mysql.{Mysql, QueryRow, upsert_row, find_rows}
use kd.Mq.{Bus, produce}

pub record ConfigService : Type 0 where
  pub config_provider : Option (List (Text × Text))
  pub mysql : Option Mysql
  pub redis : Option Redis
  pub mq_producer : Option Bus
  pub entries : Dict ConfigEntry
  pub next_version : ℕ

unfoldable pub default_env : Text → Text
default_env env = if is_empty env then lit "dev" else env

unfoldable pub build_store_key : (ns key env : Text) → Text
build_store_key ns key env = env ++ (lit "|" ++ (ns ++ (lit "|" ++ key)))

unfoldable pub build_cache_key : (ns key env : Text) → Text
build_cache_key ns key env = lit "config:" ++ (env ++ (lit ":" ++ (ns ++ (lit ":" ++ key))))

unfoldable pub build_etcd_key : (ns key env : Text) → Text
build_etcd_key ns key env = lit "/config/" ++ (env ++ (lit "/" ++ (ns ++ (lit "/" ++ key))))

unfoldable pub to_mysql_row : ConfigEntry → QueryRow
to_mysql_row entry =
    (lit "namespace_name", entry.namespace_name)
    ∷ (lit "key", entry.key)
    ∷ (lit "value", entry.value)
    ∷ (lit "version", to_string entry.version)
    ∷ (lit "environment", entry.environment)
    ∷ []

abbrev text_or_empty : Option Text → Text
text_or_empty none = []
text_or_empty (some v) = v

abbrev version_or : Option Text → Result ℤ
version_or none = ok (pos 0)
version_or (some v) = stoll v

unfoldable pub from_mysql_row : QueryRow → Result ConfigEntry
from_mysql_row row = version_or (lookup (lit "version") row) >>= (λ version. ok (record {
  namespace_name = text_or_empty (lookup (lit "namespace_name") row);
  key = text_or_empty (lookup (lit "key") row);
  value = text_or_empty (lookup (lit "value") row);
  version = version;
  environment = text_or_empty (lookup (lit "environment") row);
}))

-- The loop of CollectNamespace
unfoldable pub newer_entries :
    Dict ConfigEntry → (ns : Text) → (since_version : ℤ) → List ConfigEntry
newer_entries [] ns since_version = []
newer_entries ((k, entry) ∷ rest) ns since_version =
    let others = newer_entries rest ns since_version in
    if str_eq entry.namespace_name ns && ltb_ℤ since_version entry.version
    then entry ∷ others
    else others

unfoldable pub collect_namespace :
    (ns : Text) → (since_version : ℤ) → ConfigService → List ConfigEntry
unfolding newer_entries
collect_namespace ns since_version s = newer_entries s.entries ns since_version

-- BatchGetConfig: the response's entries
unfoldable batch_get_config : (namespace_name : Text) → ConfigService → Status × List ConfigEntry
unfolding collect_namespace
batch_get_config namespace_name s = (status_ok, collect_namespace namespace_name (negsuc 0) s)

-- WatchConfig: the messages written, one with all updates or none
abbrev pub written : List ConfigEntry → List (List ConfigEntry)
written [] = []
written (e ∷ es) = (e ∷ es) ∷ []

unfoldable pub watch_config :
    (namespace_name : Text) → (since_version : ℤ) → ConfigService → Status × List (List ConfigEntry)
unfolding collect_namespace
watch_config namespace_name since_version s =
    (status_ok, written (collect_namespace namespace_name since_version s))

unfoldable pub find_in_memory : (ns key env : Text) → Exec ConfigService (Option ConfigEntry)
unfolding build_store_key
find_in_memory ns key env s = (ok (lookup (build_store_key ns key env) s.entries), s)

abbrev pub stored : ConfigEntry → Option Mysql → Option Mysql
stored entry none = none
stored entry (some mysql) = some (
    upsert_row (lit "config_entries") (to_mysql_row entry)
      (lit "namespace_name" ∷ lit "key" ∷ lit "environment" ∷ []) mysql)

-- `config_provider->Put(…)`: the provider is an interface of which the service uses only this method
abbrev pub provided : ConfigEntry → Option (List (Text × Text)) → Option (List (Text × Text))
provided entry none = none
provided entry (some puts) =
    some
      (puts ++ (build_etcd_key entry.namespace_name entry.key entry.environment, entry.value) ∷ [])

module _ (api : JsonApi) where
  unfoldable pub entry_json : ConfigEntry → api.Json
  entry_json e = api.object (
      (lit "namespace_name", api.string e.namespace_name)
      ∷ (lit "key", api.string e.key)
      ∷ (lit "value", api.string e.value)
      ∷ (lit "version", api.number e.version)
      ∷ (lit "environment", api.string e.environment)
      ∷ [])

  unfoldable pub serialize_entry : ConfigEntry → Result Text
  unfolding entry_json
  serialize_entry entry = api.dump (entry_json entry)

  -- DeserializeEntry, `none` where it returns false
  unfoldable pub deserialize_entry : Option api.Json → Result (Option ConfigEntry)
  deserialize_entry none = ok none
  deserialize_entry (some json) =
      api.value_string json (lit "namespace_name") [] >>= (λ namespace_name.
        api.value_string json (lit "key") [] >>= (λ key.
          api.value_string json (lit "value") [] >>= (λ value.
            api.value_int64 json (lit "version") (pos 0) >>= (λ version.
              api.value_string json (lit "environment") (lit "dev") >>= (λ environment. ok (
                some (record {
                  namespace_name = namespace_name;
                  key = key;
                  value = value;
                  version = version;
                  environment = environment;
                })))))))

  unfoldable pub cache_text : (cache_key : Text) → Redis → Result Text → Exec ConfigService Bool
  cache_text cache_key redis (raised what) s = (raised what, s)
  cache_text cache_key redis (ok payload) s =
      (ok true, record s { redis = some (set cache_key payload redis) })

  -- `redis->Set(cache_key, SerializeEntry(entry))`, if there is a client
  unfoldable pub cache_entry :
      (cache_key : Text) → ConfigEntry → Option Redis → Exec ConfigService Bool
  unfolding serialize_entry cache_text
  cache_entry cache_key entry none s = (ok true, s)
  cache_entry cache_key entry (some redis) s = cache_text cache_key redis (serialize_entry entry) s

  abbrev remembered :
      (store_key : Text)
      → ConfigEntry
      → Result Bool × ConfigService
      → Result (Option ConfigEntry) × ConfigService
  remembered store_key entry (raised what, s) = (raised what, s)
  remembered store_key entry (ok done, s) =
      (ok (some entry), record s { entries = insert store_key entry s.entries })

  unfoldable pub found_in_mysql :
      (ns key env : Text) → Result ConfigEntry → Exec ConfigService (Option ConfigEntry)
  unfolding cache_entry build_store_key build_cache_key
  found_in_mysql ns key env (raised what) s = (raised what, s)
  found_in_mysql ns key env (ok entry) s =
      remembered (build_store_key ns key env) entry
        (cache_entry (build_cache_key ns key env) entry s.redis s)

  unfoldable pub find_row :
      (ns key env : Text) → List QueryRow → Exec ConfigService (Option ConfigEntry)
  unfolding found_in_mysql from_mysql_row find_in_memory
  find_row ns key env [] s = find_in_memory ns key env s
  find_row ns key env (row ∷ rows) s = found_in_mysql ns key env (from_mysql_row row) s

  unfoldable pub find_in_mysql :
      (ns key env : Text) → Option Mysql → Exec ConfigService (Option ConfigEntry)
  unfolding find_row find_in_memory
  find_in_mysql ns key env none s = find_in_memory ns key env s
  find_in_mysql ns key env (some mysql) s =
      find_row ns key env
        (find_rows (lit "config_entries")
          ((lit "namespace_name", ns) ∷ (lit "key", key) ∷ (lit "environment", env) ∷ []) mysql)
        s

  unfoldable pub found_in_cache :
      (ns key env : Text) → Result (Option ConfigEntry) → Exec ConfigService (Option ConfigEntry)
  unfolding find_in_mysql
  found_in_cache ns key env (raised what) s = (raised what, s)
  found_in_cache ns key env (ok none) s = find_in_mysql ns key env s.mysql s
  found_in_cache ns key env (ok (some entry)) s = (ok (some entry), s)

  unfoldable pub find_cached :
      (ns key env : Text) → Option Text → Exec ConfigService (Option ConfigEntry)
  unfolding found_in_cache deserialize_entry find_in_mysql
  find_cached ns key env none s = find_in_mysql ns key env s.mysql s
  find_cached ns key env (some cached) s =
      found_in_cache ns key env (deserialize_entry (api.parse cached)) s

  unfoldable pub find_in_redis :
      (now : ℕ) (ns key env : Text) → Option Redis → Exec ConfigService (Option ConfigEntry)
  unfolding find_cached find_in_mysql build_cache_key
  find_in_redis now ns key env none s = find_in_mysql ns key env s.mysql s
  find_in_redis now ns key env (some redis) s =
      let got = get now (build_cache_key ns key env) redis in
      find_cached ns key env got.0 (record s { redis = some got.1 })

  -- FindEntry
  unfoldable pub find_entry :
      (now : ℕ) (ns key env : Text) → Exec ConfigService (Option ConfigEntry)
  unfolding find_in_redis default_env
  find_entry now ns key env s = find_in_redis now ns key (default_env env) s.redis s

  abbrev pub answer :
      Result (Option ConfigEntry) × ConfigService → Result (Status × ConfigEntry) × ConfigService
  answer (raised what, s) = (raised what, s)
  answer (ok none, s) =
      (ok (record { code = not_found; message = lit "config not found" }, no_entry), s)
  answer (ok (some entry), s) = (ok (status_ok, entry), s)

  -- GetConfig
  unfoldable pub get_config :
      (now : ℕ) → GetConfigRequest → Exec ConfigService (Status × ConfigEntry)
  unfolding find_entry
  get_config now request s =
      answer (find_entry now request.namespace_name request.key (lit "dev") s)
