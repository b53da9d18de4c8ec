-- ===== src/Services/User.antt =====
-- services/user_service/user_service_impl.cpp. `users_` and the two back ends are the state, `none`
-- a null client; a method of the service is one step of it. Errors are the exceptions of the JSON
-- library and of `std::stoi` and `std::stoll`. `now` is the clock of Redis, `time` std::time.
pub mod Lookup
use kd.Base.{
  ℕ, suc, ◌++◌, Bool, true, Option, none, some, List, [], ◌∷◌, Text, lit, is_empty, Dict, lookup,
  insert, if◌then◌else◌, ℤ, pos, show, to_string, stoi, stoll, Result, ok, raised, ◌>>=◌,
}
use kd.Base.Exec.{Exec}
use kd.Json.{JsonApi}
use kd.Api.{UserProfile, no_profile, Status, status_ok, not_found}
use kd.Storage.Redis.{Redis, set, get}
use kd.Storage.Mysql.{Mysql, QueryRow, upsert_row, get_row}

pub record UserService : Type 0 where
  pub redis : Option Redis
  pub mysql : Option Mysql
  pub users : Dict UserProfile
  pub next_user_id : ℕ

unfoldable pub build_cache_key : Text → Text
build_cache_key user_id = lit "user:" ++ user_id

unfoldable pub to_mysql_row : UserProfile → QueryRow
to_mysql_row profile =
    (lit "user_id", profile.user_id)
    ∷ (lit "nickname", profile.nickname)
    ∷ (lit "avatar", profile.avatar)
    ∷ (lit "level", to_string profile.level)
    ∷ (lit "created_at", to_string profile.created_at)
    ∷ []

-- `if (auto it = row.find(…); it != row.end()) …`
abbrev pub text_or_empty : Option Text → Text
text_or_empty none = []
text_or_empty (some v) = v

abbrev number_or : (Text → Result ℤ) → ℤ → Option Text → Result ℤ
number_or read fallback none = ok fallback
number_or read fallback (some v) = read v

unfoldable pub from_mysql_row : QueryRow → Result UserProfile
from_mysql_row row = number_or stoi (pos 0) (lookup (lit "level") row) >>= (λ level.
    number_or stoll (pos 0) (lookup (lit "created_at") row) >>= (λ created_at. ok (record {
      user_id = text_or_empty (lookup (lit "user_id") row);
      nickname = text_or_empty (lookup (lit "nickname") row);
      avatar = text_or_empty (lookup (lit "avatar") row);
      level = level;
      created_at = created_at;
    })))

-- The end of FindUser: `users_`
unfoldable pub find_in_memory : (user_id : Text) → Exec UserService (Option UserProfile)
find_in_memory user_id s = (ok (lookup user_id s.users), s)

-- `{"user_" + id, nickname or "anonymous", "", 1, time}`
unfoldable pub new_profile : (id : ℕ) (nickname : Text) (time : ℤ) → UserProfile
new_profile id nickname time = record {
  user_id = lit "user_" ++ show id;
  nickname = if is_empty nickname then lit "anonymous" else nickname;
  avatar = [];
  level = pos 1;
  created_at = time;
}

module _ (api : JsonApi) where
  unfoldable pub profile_json : UserProfile → api.Json
  profile_json p = api.object (
      (lit "user_id", api.string p.user_id)
      ∷ (lit "nickname", api.string p.nickname)
      ∷ (lit "avatar", api.string p.avatar)
      ∷ (lit "level", api.number p.level)
      ∷ (lit "created_at", api.number p.created_at)
      ∷ [])

  unfoldable pub serialize_profile : UserProfile → Result Text
  unfolding profile_json
  serialize_profile profile = api.dump (profile_json profile)

  -- DeserializeProfile, `none` where it returns false
  unfoldable pub deserialize_profile : Option api.Json → Result (Option UserProfile)
  deserialize_profile none = ok none
  deserialize_profile (some json) = api.value_string json (lit "user_id") [] >>= (λ user_id.
      api.value_string json (lit "nickname") [] >>= (λ nickname.
        api.value_string json (lit "avatar") [] >>= (λ avatar.
          api.value_int json (lit "level") (pos 1) >>= (λ level.
            api.value_int64 json (lit "created_at") (pos 0) >>= (λ created_at. ok (
              some (record {
                user_id = user_id;
                nickname = nickname;
                avatar = avatar;
                level = level;
                created_at = created_at;
              })))))))

  -- `redis->Set(BuildCacheKey(user_id), SerializeProfile(profile))`, if there is a client
  unfoldable pub cache_text :
      (user_id : Text) → Redis → Result Text → UserService → Result Bool × UserService
  unfolding build_cache_key
  cache_text user_id redis (raised what) s = (raised what, s)
  cache_text user_id redis (ok payload) s =
      (ok true, record s { redis = some (set (build_cache_key user_id) payload redis) })

  unfoldable pub cache_profile :
      (user_id : Text) → UserProfile → Option Redis → Exec UserService Bool
  unfolding serialize_profile cache_text
  cache_profile user_id profile none s = (ok true, s)
  cache_profile user_id profile (some redis) s =
      cache_text user_id redis (serialize_profile profile) s

  abbrev pub remembered :
      (user_id : Text)
      → UserProfile
      → Result Bool × UserService
      → Result (Option UserProfile) × UserService
  remembered user_id profile (raised what, s) = (raised what, s)
  remembered user_id profile (ok done, s) =
      (ok (some profile), record s { users = insert user_id profile s.users })

  unfoldable pub found_in_mysql :
      (user_id : Text) → Result UserProfile → Exec UserService (Option UserProfile)
  unfolding cache_profile
  found_in_mysql user_id (raised what) s = (raised what, s)
  found_in_mysql user_id (ok profile) s =
      remembered user_id profile (cache_profile user_id profile s.redis s)

  unfoldable pub find_row :
      (user_id : Text) → Option QueryRow → Exec UserService (Option UserProfile)
  unfolding found_in_mysql from_mysql_row find_in_memory
  find_row user_id none s = find_in_memory user_id s
  find_row user_id (some row) s = found_in_mysql user_id (from_mysql_row row) s

  unfoldable pub find_in_mysql :
      (user_id : Text) → Option Mysql → Exec UserService (Option UserProfile)
  unfolding find_row find_in_memory
  find_in_mysql user_id none s = find_in_memory user_id s
  find_in_mysql user_id (some mysql) s =
      find_row user_id (get_row (lit "users") (lit "user_id") user_id mysql) s

  unfoldable pub found_in_cache :
      (user_id : Text) → Result (Option UserProfile) → Exec UserService (Option UserProfile)
  unfolding find_in_mysql
  found_in_cache user_id (raised what) s = (raised what, s)
  found_in_cache user_id (ok none) s = find_in_mysql user_id s.mysql s
  found_in_cache user_id (ok (some profile)) s = (ok (some profile), s)

  unfoldable pub find_cached :
      (user_id : Text) → Option Text → Exec UserService (Option UserProfile)
  unfolding found_in_cache deserialize_profile find_in_mysql
  find_cached user_id none s = find_in_mysql user_id s.mysql s
  find_cached user_id (some cached) s =
      found_in_cache user_id (deserialize_profile (api.parse cached)) s

  unfoldable pub find_in_redis :
      (now : ℕ) (user_id : Text) → Option Redis → Exec UserService (Option UserProfile)
  unfolding find_cached find_in_mysql build_cache_key
  find_in_redis now user_id none s = find_in_mysql user_id s.mysql s
  find_in_redis now user_id (some redis) s =
      let got = get now (build_cache_key user_id) redis in
      find_cached user_id got.0 (record s { redis = some got.1 })

  -- FindUser
  unfoldable pub find_user : (now : ℕ) (user_id : Text) → Exec UserService (Option UserProfile)
  unfolding find_in_redis
  find_user now user_id s = find_in_redis now user_id s.redis s

  abbrev answer_of : Option UserProfile → Status × UserProfile
  answer_of none = (record { code = not_found; message = lit "user not found" }, no_profile)
  answer_of (some profile) = (status_ok, profile)

  abbrev pub answer :
      Result (Option UserProfile) × UserService → Result (Status × UserProfile) × UserService
  answer (raised what, s) = (raised what, s)
  answer (ok found, s) = (ok (answer_of found), s)

  unfoldable pub get_user : (now : ℕ) (user_id : Text) → Exec UserService (Status × UserProfile)
  unfolding find_user
  get_user now user_id s = answer (find_user now user_id s)

  abbrev pub created :
      UserProfile → Result Bool × UserService → Result (Status × UserProfile) × UserService
  created profile (raised what, s) = (raised what, s)
  created profile (ok done, s) = (ok (status_ok, profile), s)

  abbrev pub stored : UserProfile → Option Mysql → Option Mysql
  stored profile none = none
  stored profile (some mysql) =
      some (upsert_row (lit "users") (to_mysql_row profile) (lit "user_id" ∷ []) mysql)

  unfoldable pub create_user :
      (nickname : Text) (time : ℤ) → Exec UserService (Status × UserProfile)
  unfolding new_profile cache_profile to_mysql_row
  create_user nickname time s =
      let profile = new_profile s.next_user_id nickname time in
      created profile (
        cache_profile profile.user_id profile s.redis (record s {
          users = insert profile.user_id profile s.users;
          next_user_id = suc s.next_user_id;
          mysql = stored profile s.mysql;
        }))
