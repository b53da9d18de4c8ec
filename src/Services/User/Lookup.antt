-- ===== src/Services/User/Lookup.antt =====
-- A user that was created is found.
use kd.Base.{
  ℕ, suc, ◌≡◌, refl, ◌∙◌, ap, Bool, true, Option, none, some, List, [], ◌∷◌, Text, lit, str_eq,
  str_eq_refl, lookup, Dict, insert, lookup-insert_self, arith, ℤ, pos, FitsInt, FitsInt64,
  stoi-to_string, stoll-to_string, Result, ok, raised,
}
use kd.Json.{JsonApi, JsonLaws}
use kd.Api.{UserProfile, status_ok}
use kd.Storage.Redis.{Redis, set, get}
use kd.Storage.Redis.Expiry.{get-set}
use kd.Storage.Mysql.{Mysql, upsert_row, get_row, rows_of}
use kd.Storage.Mysql.Keyed.{IsKeyed, get-upsert}
use kd.Services.User.{
  UserService, build_cache_key, to_mysql_row, from_mysql_row, new_profile, profile_json,
  serialize_profile, deserialize_profile, cache_profile, cache_text, found_in_mysql, find_row,
  find_in_mysql, found_in_cache, find_cached, find_in_redis, find_user, get_user, create_user,
  stored, created, answer, find_in_memory,
}

-- The numbers of a profile are in the ranges of their types.
abbrev IsInRange : UserProfile → Type 0
IsInRange p = FitsInt p.level × FitsInt64 p.created_at

-- Writing a profile to a row and reading it back gives the profile.
pub from-to_mysql_row : (p : UserProfile) → IsInRange p → from_mysql_row (to_mysql_row p) ≡ ok p
unfolding from_mysql_row to_mysql_row lookup str_eq lit
from-to_mysql_row p (level, created) =
    rw (stoi-to_string p.level level, stoll-to_string p.created_at created) refl

module _ (api : JsonApi) (laws : JsonLaws api) where
  -- Writing a profile as JSON and reading it back gives the profile.
  pub deserialize-serialize :
      (p : UserProfile) (payload : Text)
      → IsInRange p
      → serialize_profile api p ≡ ok payload
      → deserialize_profile api (api.parse payload) ≡ ok (some p)
  unfolding serialize_profile deserialize_profile profile_json lookup str_eq lit
  deserialize-serialize p payload (level, created) e =
      let fields : List (Text × api.Json) =
        (lit "user_id", api.string p.user_id)
        ∷ (lit "nickname", api.string p.nickname)
        ∷ (lit "avatar", api.string p.avatar)
        ∷ (lit "level", api.number p.level)
        ∷ (lit "created_at", api.number p.created_at)
        ∷ [] in
      rw
        (
          laws.parse-dump _ payload e,
          laws.value_string-object fields (lit "user_id") [] p.user_id refl,
          laws.value_string-object fields (lit "nickname") [] p.nickname refl,
          laws.value_string-object fields (lit "avatar") [] p.avatar refl,
          laws.value_int-object fields (lit "level") (pos 1) p.level level refl,
          laws.value_int64-object fields (lit "created_at") (pos 0) p.created_at created refl,
        )
        refl

row_user_id : (p : UserProfile) → lookup (lit "user_id") (to_mysql_row p) ≡ some p.user_id
unfolding to_mysql_row lookup str_eq lit
row_user_id p = refl

module _ (api : JsonApi) (laws : JsonLaws api) (now : ℕ) (p : UserProfile)
    (range : IsInRange p) where
  -- found in the cache
  find_cached-payload :
      (payload : Text) (s : UserService)
      → serialize_profile api p ≡ ok payload
      → (find_cached api p.user_id (some payload) s).0 ≡ ok (some p)
  unfolding find_cached found_in_cache
  find_cached-payload payload s e = rw (deserialize-serialize api laws p payload range e) refl

  find_in_redis-set :
      (payload : Text) (redis : Redis) (s : UserService)
      → serialize_profile api p ≡ ok payload
      → (find_in_redis api now p.user_id (some (set (build_cache_key p.user_id) payload redis)) s).0
        ≡ ok (some p)
  unfolding find_in_redis
  find_in_redis-set payload redis s e =
      let key = build_cache_key p.user_id in
      let got : (get now key (set key payload redis)).0 ≡ some payload =
        get-set now key key payload redis ∙ (rw (str_eq_refl key) refl) in
      rw got (find_cached-payload payload _ e)

  found_uncached :
      (s : UserService) → s.redis ≡ none → (found_in_mysql api p.user_id (ok p) s).0 ≡ ok (some p)
  unfolding found_in_mysql cache_profile
  found_uncached s quiet = rw quiet refl

  -- found in MySQL, with no cache
  find_in_mysql-upsert :
      (mysql : Mysql) (s : UserService)
      → s.redis ≡ none
      → IsKeyed (lit "user_id") (rows_of (lookup (lit "users") mysql))
      → (find_in_mysql api p.user_id
          (some (upsert_row (lit "users") (to_mysql_row p) (lit "user_id" ∷ []) mysql))
          s).0
        ≡ ok (some p)
  unfolding find_in_mysql find_row found_in_mysql
  find_in_mysql-upsert mysql s quiet keyed =
      let row = to_mysql_row p in
      let got : get_row (lit "users") (lit "user_id") p.user_id
            (upsert_row (lit "users") row (lit "user_id" ∷ []) mysql)
          ≡ some row =
        get-upsert (lit "users") (lit "user_id") p.user_id p.user_id row mysql (row_user_id p) keyed
        ∙ (rw (str_eq_refl p.user_id) refl) in
      rw (got, from-to_mysql_row p range) (found_uncached s quiet)

  find_in_memory-insert :
      (s : UserService) (users : Dict UserProfile)
      → s.users ≡ insert p.user_id p users
      → (find_in_memory p.user_id s).0 ≡ ok (some p)
  unfolding find_in_memory
  find_in_memory-insert s users e = rw (e, lookup-insert_self p.user_id p users) refl

-- The table `users` is keyed by `user_id`, as CreateUser keeps it.
abbrev pub IsKeyedOption : Option Mysql → Type 0
IsKeyedOption none = Unit
IsKeyedOption (some mysql) = IsKeyed (lit "user_id") (rows_of (lookup (lit "users") mysql))

module _ (api : JsonApi) (laws : JsonLaws api) (now : ℕ) (p : UserProfile)
    (range : IsInRange p) where
  find_in_mysql-stored :
      (mysql : Option Mysql) (users : Dict UserProfile) (s : UserService)
      → s.redis ≡ none
      → s.users ≡ insert p.user_id p users
      → IsKeyedOption mysql
      → (find_in_mysql api p.user_id (stored api p mysql) s).0 ≡ ok (some p)
  unfolding find_in_mysql
  find_in_mysql-stored none users s quiet e keyed =
      find_in_memory-insert api laws now p range s users e
  find_in_mysql-stored (some mysql) users s quiet e keyed =
      find_in_mysql-upsert api laws now p range mysql s quiet keyed

  cache-find :
      (redis : Option Redis) (mysql : Option Mysql) (users : Dict UserProfile) (payload : Text)
      (s : UserService)
      → s.redis ≡ redis
      → s.mysql ≡ stored api p mysql
      → s.users ≡ insert p.user_id p users
      → IsKeyedOption mysql
      → serialize_profile api p ≡ ok payload
      → let out = cache_profile api p.user_id p redis s in
        (out.0 ≡ ok true) × ((find_user api now p.user_id out.1).0 ≡ ok (some p))
  unfolding cache_profile cache_text find_user find_in_redis
  cache-find none mysql users payload s e1 e2 e3 keyed e = (
    refl,
    ap (λ r. (find_in_redis api now p.user_id r s).0) e1
        ∙ (ap (λ m. (find_in_mysql api p.user_id m s).0) e2
            ∙ find_in_mysql-stored mysql users s e1 e3 keyed),
  )
  cache-find (some redis) mysql users payload s e1 e2 e3 keyed e =
      let t : UserService = record s {
        redis = some (set (build_cache_key p.user_id) payload redis);
      } in
      rw e (refl, find_in_redis-set api laws now p range payload redis t e)

created_ok :
    (api : JsonApi) (now : ℕ) (p : UserProfile) (out : Result Bool × UserService)
    → out.0 ≡ ok true
    → (find_user api now p.user_id out.1).0 ≡ ok (some p)
    → let done = created api p out in
      (done.0 ≡ ok (status_ok, p)) × ((get_user api now p.user_id done.1).0 ≡ ok (status_ok, p))
unfolding get_user
created_ok api now p (raised what, s) h k = absurd (cc h)
created_ok api now p (ok done, s) h k = (refl, answer_ok (find_user api now p.user_id s) k)
  where
    answer_ok :
        (found : Result (Option UserProfile) × UserService)
        → found.0 ≡ ok (some p)
        → (answer api found).0 ≡ ok (status_ok, p)
    answer_ok (raised what, t) e = absurd (cc e)
    answer_ok (ok none, t) e = absurd (cc e)
    answer_ok (ok (some q), t) e = let same : q ≡ p = cc e in rw same refl

level_range : FitsInt (pos 1)
level_range = (ground arith, ground arith)

module _ (api : JsonApi) (laws : JsonLaws api) where
  -- A user that CreateUser made is found by GetUser under the id that it returned, whichever of Redis
  -- and MySQL are there, whatever stood under that id before, if the profile is text that JSON can
  -- dump, the time has 64 bits, and the rows of the table are stored under their user ids.
  pub create_get :
      (now : ℕ) (nickname payload : Text) (time : ℤ) (s : UserService)
      → FitsInt64 time
      → IsKeyedOption s.mysql
      → let p = new_profile s.next_user_id nickname time in
        serialize_profile api p ≡ ok payload
        → let out = create_user api nickname time s in
          (out.0 ≡ ok (status_ok, p)) × ((get_user api now p.user_id out.1).0 ≡ ok (status_ok, p))
  unfolding create_user new_profile
  create_get now nickname payload time s fits keyed e =
      let p = new_profile s.next_user_id nickname time in
      let t : UserService = record s {
        users = insert p.user_id p s.users;
        next_user_id = suc s.next_user_id;
        mysql = stored api p s.mysql;
      } in
      let (a, b) =
        cache-find api laws now p (level_range, fits) s.redis s.mysql s.users payload t refl refl
          refl keyed e in
      created_ok api now p (cache_profile api p.user_id p s.redis t) a b
