-- ===== src/Storage/Redis.antt =====
-- infrastructure/storage/redis/redis_client.cpp: the state that the clients of one address share, and
-- the methods of RedisClientImpl, each under the state's mutex. Times are in nanoseconds. A deadline
-- before the clock's origin is the origin, which has passed all the same.
pub mod Expiry
pub mod Streams
use kd.Base.{
  ℕ, suc, ◌+◌, ◌*◌, ◌-◌, ◌%◌, ◌^◌, ◌++◌, Bool, true, false, Option, none, some, List, [], ◌∷◌, Text,
  lit, Dict, lookup, insert, erase, if◌then◌else◌, leb, ltb, ℤ, pos, negsuc, show, to_string, drain,
}

pub record ValueEntry : Type 0 where
  pub value : Text
  pub expires_at : Option ℕ

pub record StreamMessage : Type 0 where
  pub id : Text
  pub payload : Text

pub record Redis : Type 0 where
  pub kv : Dict ValueEntry
  pub streams : Dict (List StreamMessage)
  pub next_stream_id : ℕ

abbrev pub empty_redis : Redis
empty_redis = record { kv = []; streams = []; next_stream_id = 1 }

-- SharedStateFor: the address of a state
unfoldable pub state_key : (host : Text) → (port : ℕ) → (db : ℤ) → Text
state_key host port db = host ++ (lit ":" ++ (show port ++ (lit "/" ++ to_string db)))

abbrev pub expired : Option ℕ → ℕ → Bool
expired none now = false
expired (some deadline) now = leb deadline now

unfoldable pub purge_found : Option ValueEntry → (now : ℕ) → Text → Redis → Redis
purge_found none now key s = s
purge_found (some e) now key s =
    if expired e.expires_at now then record s { kv = erase key s.kv } else s

-- PurgeExpired
unfoldable pub purge_expired : (now : ℕ) → Text → Redis → Redis
unfolding purge_found
purge_expired now key s = purge_found (lookup key s.kv) now key s

unfoldable pub set : (key value : Text) → Redis → Redis
set key value s = record s { kv = insert key (record { value = value; expires_at = none }) s.kv }

abbrev pub value_of : Option ValueEntry → Option Text
value_of none = none
value_of (some e) = some e.value

unfoldable pub get : (now : ℕ) → Text → Redis → Option Text × Redis
unfolding purge_expired
get now key s = let s' = purge_expired now key s in (value_of (lookup key s'.kv), s')

abbrev is_some {ℓ} : {A : Type ℓ} → Option A → Bool
is_some none = false
is_some (some a) = true

unfoldable pub del : Text → Redis → Bool × Redis
del key s = (is_some (lookup key s.kv), record s { kv = erase key s.kv })

abbrev pub deadline_of : ℕ → ℤ → ℕ
deadline_of now (pos n) = now + n * 1_000_000_000
deadline_of now (negsuc n) = now - suc n * 1_000_000_000

unfoldable pub expire_found :
    Option ValueEntry → (now : ℕ) → Text → (ttl_seconds : ℤ) → Redis → Bool × Redis
expire_found none now key ttl_seconds s = (false, s)
expire_found (some e) now key ttl_seconds s = (
  true,
  record s { kv = insert key (record e { expires_at = some (deadline_of now ttl_seconds) }) s.kv },
)

unfoldable pub expire : (now : ℕ) → Text → (ttl_seconds : ℤ) → Redis → Bool × Redis
unfolding expire_found
expire now key ttl_seconds s = expire_found (lookup key s.kv) now key ttl_seconds s

-- `streams[stream]`
abbrev pub queue_of : Option (List StreamMessage) → List StreamMessage
queue_of none = []
queue_of (some q) = q

unfoldable pub xadd : (stream payload : Text) → Redis → Text × Redis
xadd stream payload s =
    let id : Text = show s.next_stream_id ++ lit "-0" in
    let message : StreamMessage = record { id = id; payload = payload } in
    (
      id,
      record s {
        streams = insert stream (queue_of (lookup stream s.streams) ++ message ∷ []) s.streams;
        next_stream_id = (s.next_stream_id + 1) % 2 ^ 64;
      },
    )

unfoldable pub xread : (stream : Text) → (max_count : ℕ) → Redis → List Text × Redis
xread stream max_count s =
    let (result, left) =
      drain (λ (m : StreamMessage). m.payload) max_count [] (queue_of (lookup stream s.streams)) in
    (result, record s { streams = insert stream left s.streams })
