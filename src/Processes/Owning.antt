-- ===== src/Processes/Owning.antt =====
-- The clients that the main functions open, they let go of.
use kd.Base.{
  ℕ, zero, suc, ◌≡◌, refl, ◌∙◌, Bool, true, false, Bool-cases, inl, inr, ap, eq_of_str_eq, [],
  Option, none, some, Text, lit, lookup, lookup-insert, lookup-insert_self, str_eq, arith, Result,
  ok, raised,
}
use kd.States.{Entry, States, acquired, get_state, released, release}
use kd.Storage.Redis.{empty_redis}
use kd.AppConfig.Loaders.{ServiceConfig, load_service_config}
use kd.Processes.{
  Process, redis_key, mysql_key, create_redis, create_mysql, start_consumer, stop_consumer,
  start_server, start_logger, user_run, config_run, game_run, user_boot, config_boot, game_boot,
  leave, game_leave, user_main, config_main, game_main,
}

abbrev entry_owners {ℓ} : {S : Type ℓ} → Option (Entry S) → ℕ
entry_owners none = 0
entry_owners (some e) = e.owners

-- How many clients of an address there are.
abbrev pub owners {ℓ} : {S : Type ℓ} → (key : Text) → States S → ℕ
owners key t = entry_owners (lookup key t)

released-acquired {ℓ} :
    {S : Type ℓ} (fresh : S) (found : Option (Entry S))
    → (released (acquired fresh found)).owners ≡ entry_owners found
unfolding acquired
released-acquired {S = S} fresh none = refl
released-acquired {S = S} fresh (some e) = from e.state e.owners
  where
    from :
        (s : S) (n : ℕ)
        → (released (acquired fresh (some (record { state = s; owners = n })))).owners ≡ n
    from s zero = refl
    from s (suc n) = omega arith

release-get_state {ℓ} :
    {S : Type ℓ} (fresh : S) (key asked : Text) (t : States S)
    → owners asked (release key (get_state fresh key t)) ≡ owners asked t
unfolding release get_state
release-get_state fresh key asked t =
    rw (lookup-insert_self key (acquired fresh (lookup key t)) t)
      (elim (Bool-cases (str_eq key asked)) [
        | inl same ↦
            rw (lookup-insert key asked, same)
              (released-acquired fresh (lookup key t)
                ∙ ap (λ k. owners k t) (eq_of_str_eq key asked same))
        | inr other ↦ rw (lookup-insert key asked, other) (rw (lookup-insert key asked, other) refl)
      ])

-- The two processes have as many clients at every address.
abbrev IsSettled : Process → Process → Type 0
IsSettled p p' =
    (key : Text)
    → (owners key p'.redis ≡ owners key p.redis) × (owners key p'.mysql ≡ owners key p.mysql)

user_run-IsSettled :
    (file_ok server_ok : Bool) (loaded : Result ServiceConfig) (p : Process)
    → IsSettled p (user_run file_ok server_ok loaded p).1
unfolding user_run user_boot start_server start_logger start_consumer stop_consumer create_redis
    create_mysql leave
user_run-IsSettled file_ok server_ok (raised what) p key = (refl, refl)
user_run-IsSettled file_ok true (ok cfg) p key = (
  release-get_state empty_redis (redis_key cfg) key p.redis,
  release-get_state [] (mysql_key cfg) key p.mysql,
)
user_run-IsSettled file_ok false (ok cfg) p key = (
  release-get_state empty_redis (redis_key cfg) key p.redis,
  release-get_state [] (mysql_key cfg) key p.mysql,
)

config_run-IsSettled :
    (file_ok server_ok : Bool) (loaded : Result ServiceConfig) (p : Process)
    → IsSettled p (config_run file_ok server_ok loaded p).1
unfolding config_run config_boot start_server start_logger create_redis create_mysql leave
config_run-IsSettled file_ok server_ok (raised what) p key = (refl, refl)
config_run-IsSettled file_ok true (ok cfg) p key = (
  release-get_state empty_redis (redis_key cfg) key p.redis,
  release-get_state [] (mysql_key cfg) key p.mysql,
)
config_run-IsSettled file_ok false (ok cfg) p key = (
  release-get_state empty_redis (redis_key cfg) key p.redis,
  release-get_state [] (mysql_key cfg) key p.mysql,
)

game_run-IsSettled :
    (file_ok server_ok : Bool) (loaded : Result ServiceConfig) (p : Process)
    → IsSettled p (game_run file_ok server_ok loaded p).1
unfolding game_run game_boot start_server start_logger create_redis game_leave
game_run-IsSettled file_ok server_ok (raised what) p key = (refl, refl)
game_run-IsSettled file_ok true (ok cfg) p key =
    (release-get_state empty_redis (redis_key cfg) key p.redis, refl)
game_run-IsSettled file_ok false (ok cfg) p key =
    (release-get_state empty_redis (redis_key cfg) key p.redis, refl)

-- Each main function, however it ends, leaves at every address as many clients of Redis and of MySQL
-- as it found: no state outlives the process that made it.
mains_release :
    (file : Option Text) (file_ok server_ok : Bool) (p : Process)
    → IsSettled p (user_main file file_ok server_ok p).1
      × IsSettled p (config_main file file_ok server_ok p).1
      × IsSettled p (game_main file file_ok server_ok p).1
unfolding user_main config_main game_main
mains_release file file_ok server_ok p = (
  user_run-IsSettled file_ok server_ok (load_service_config file (lit "user_service") 50052) p,
  config_run-IsSettled file_ok server_ok (load_service_config file (lit "config_service") 50051) p,
  game_run-IsSettled file_ok server_ok (load_service_config file (lit "game_service") 50053) p,
)
