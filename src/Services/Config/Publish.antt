-- ===== src/Services/Config/Publish.antt =====
-- PublishConfig of services/config_service/config_service_impl.cpp.
use kd.Base.{
  ℕ, suc, Bool, ◌||◌, Option, none, some, Text, lit, is_empty, insert, if◌then◌else◌, pos, Result,
  ok, raised, ℤ,
}
use kd.Base.Exec.{Exec}
use kd.Json.{JsonApi}
use kd.Api.{ConfigEntry, Status, status_ok, invalid_argument}
use kd.Mq.{Bus, produce}
use kd.Services.Config.{
  ConfigService, default_env, build_store_key, build_cache_key, stored, provided, serialize_entry,
  cache_entry,
}

-- `entry` with the environment and the version that PublishConfig sets
unfoldable pub versioned : ConfigEntry → ℕ → ConfigEntry
unfolding default_env
versioned entry version = record entry {
  environment = default_env entry.environment;
  version = pos version;
}

abbrev pub is_invalid : ConfigEntry → Bool
is_invalid entry = is_empty entry.namespace_name || is_empty entry.key

-- `mq_producer->Publish("config.changed", SerializeEntry(entry))`, and the response's version
unfoldable pub announce_text : ConfigEntry → Bus → Result Text → Exec ConfigService (Status × ℤ)
announce_text entry bus (raised what) s = (raised what, s)
announce_text entry bus (ok payload) s = (
  ok (status_ok, entry.version),
  record s { mq_producer = some (produce (lit "config.changed") payload bus).1 },
)

module _ (api : JsonApi) where
  unfoldable pub announce : ConfigEntry → Option Bus → Exec ConfigService (Status × ℤ)
  unfolding announce_text serialize_entry
  announce entry none s = (ok (status_ok, entry.version), s)
  announce entry (some bus) s = announce_text entry bus (serialize_entry api entry) s

  -- What follows the cache.
  unfoldable pub after_cache :
      ConfigEntry → Result Bool × ConfigService → Result (Status × ℤ) × ConfigService
  unfolding announce
  after_cache entry (raised what, s) = (raised what, s)
  after_cache entry (ok done, s) =
      announce entry s.mq_producer (record s { config_provider = provided entry s.config_provider })

  -- The state after the entry was stored in `entries_` and in MySQL.
  unfoldable pub store_entry : ConfigEntry → ConfigService → ConfigService
  unfolding build_store_key
  store_entry entry s = record s {
    entries =
        insert (build_store_key entry.namespace_name entry.key entry.environment) entry s.entries;
    next_version = suc s.next_version;
    mysql = stored entry s.mysql;
  }

  -- PublishConfig: the status and the response's version
  unfoldable pub publish_config : ConfigEntry → Exec ConfigService (Status × ℤ)
  unfolding versioned after_cache store_entry cache_entry build_cache_key
  publish_config request s =
      let entry = versioned request s.next_version in
      if is_invalid request
      then (
        ok (
          record { code = invalid_argument; message = lit "namespace and key are required" },
          pos 0,
        ),
        s,
      )
      else after_cache entry (
          cache_entry api (build_cache_key entry.namespace_name entry.key entry.environment) entry
            s.redis (store_entry entry s))
