-- ===== src/Processes.antt =====
-- The main functions of services/*_service/main.cpp. `boot` is what runs before `server->Wait()`, and
-- the exit what follows it, with the destructors of what main owns. The gRPC server is outside:
-- whether it can be built is an argument. A configuration that cannot be read ends the process.
-- The clients of etcd and the producer keep nothing but an address: making them is left out.
pub mod Owning
pub mod AccessGateway
use kd.Base.{
  ℕ, ◌+◌, ◌-◌, ◌^◌, Bool, true, false, Option, none, some, List, [], ◌∷◌, ◌++◌, Text, lit, show, ℤ,
  pos, negsuc, Result, ok, raised, if◌then◌else◌,
}
use kd.Base.Exec.{Exec}
use kd.States.{States, get_state, release}
use kd.Storage.Redis
use kd.Storage.Redis.{Redis, empty_redis}
use kd.Storage.Mysql
use kd.Storage.Mysql.{Mysql}
use kd.Coordination.{Etcd, ServiceInstance}
use kd.Coordination.Clients.{registers, invoke}
use kd.Log.{LogState, LoggerOptions, init_logger}
use kd.AppConfig.Loaders.{ServiceConfig, load_service_config}

-- The globals that a main reaches: the logger, the tables of states, the topics that a running consumer
-- reads, and the address that a running server listens on.
pub record Process : Type 0 where
  pub log : LogState
  pub redis : States Redis
  pub mysql : States Mysql
  pub etcd : States Etcd
  pub consuming : List Text
  pub listening : Option Text

-- `static_cast<std::size_t>` of an `int`
abbrev pub to_size : ℤ → ℕ
to_size (pos n) = n
to_size (negsuc n) = 2 ^ 64 - (n + 1)

module _ (cfg : ServiceConfig) where
  unfoldable pub log_options : LoggerOptions
  log_options = record {
    service_name = cfg.service_name;
    log_dir = cfg.log_dir;
    max_file_size_mb = to_size cfg.log_max_size_mb;
    max_files = to_size cfg.log_max_files;
    level = cfg.log_level;
    enable_console = true;
  }

  -- `listen_addr`
  unfoldable listen_addr : Text
  listen_addr = cfg.bind_host ++ (lit ":" ++ show cfg.grpc_port)

  -- The argument of `registry->Register`
  unfoldable announced : ServiceInstance
  announced = record {
    service_name = cfg.service_name;
    instance_id = cfg.service_name ++ (lit "-" ++ show cfg.grpc_port);
    host = cfg.bind_host;
    port = cfg.grpc_port;
    protocol = lit "grpc";
    version = lit "v1";
    zone = lit "default";
  }

  unfoldable pub redis_key : Text
  unfolding Redis.state_key
  redis_key = Redis.state_key cfg.redis_host cfg.redis_port cfg.redis_db

  unfoldable pub mysql_key : Text
  unfolding Mysql.state_key
  mysql_key = Mysql.state_key cfg.mysql_host cfg.mysql_port cfg.mysql_db cfg.mysql_user

  unfoldable pub create_redis : Process → Process
  unfolding get_state redis_key
  create_redis p = record p { redis = get_state empty_redis redis_key p.redis }

  unfoldable pub create_mysql : Process → Process
  unfolding get_state mysql_key
  create_mysql p = record p { mysql = get_state [] mysql_key p.mysql }

  -- `consumer->Subscribe(…)` and `consumer->Start()`
  unfoldable pub start_consumer : Process → Process
  start_consumer p = record p { consuming = lit "config.changed" ∷ [] }

  -- From `builder.BuildAndStart()` to `registry->Register`; false where there is no server.
  unfoldable pub start_server : (server_ok : Bool) → Process → Bool × Process
  unfolding listen_addr announced invoke
  start_server server_ok p =
      if server_ok
      then (
        true,
        record p {
          listening = some listen_addr;
          etcd = (invoke cfg.etcd_endpoints (registers announced) p.etcd).1;
        },
      )
      else (false, p)

  unfoldable pub start_logger : (file_ok : Bool) → Process → Process
  unfolding init_logger log_options
  start_logger file_ok p = record p { log = init_logger log_options file_ok p.log }

  -- services/user_service/main.cpp
  unfoldable pub user_boot : (file_ok server_ok : Bool) → Process → Bool × Process
  unfolding start_logger create_mysql create_redis start_consumer start_server
  user_boot file_ok server_ok p =
      start_server server_ok (start_consumer (create_redis (create_mysql (start_logger file_ok p))))

  -- services/config_service/main.cpp
  unfoldable pub config_boot : (file_ok server_ok : Bool) → Process → Bool × Process
  unfolding start_logger create_mysql create_redis start_server
  config_boot file_ok server_ok p =
      start_server server_ok (create_redis (create_mysql (start_logger file_ok p)))

  -- services/game_service/main.cpp
  unfoldable pub game_boot : (file_ok server_ok : Bool) → Process → Bool × Process
  unfolding start_logger create_redis start_server
  game_boot file_ok server_ok p = start_server server_ok (create_redis (start_logger file_ok p))

  -- The end of main with both back ends: the server and the clients go away.
  unfoldable pub leave : Process → Process
  unfolding release redis_key mysql_key
  leave p = record p {
    redis = release redis_key p.redis;
    mysql = release mysql_key p.mysql;
    listening = none;
  }

  unfoldable pub game_leave : Process → Process
  unfolding release redis_key
  game_leave p = record p { redis = release redis_key p.redis; listening = none }

-- `consumer->Stop()`, and the destructor of the consumer
unfoldable pub stop_consumer : Process → Process
stop_consumer p = record p { consuming = [] }

abbrev pub exit_code : Bool → ℕ
exit_code started = if started then 0 else 1

-- What follows the read of the configuration, in the three files
unfoldable pub user_run : (file_ok server_ok : Bool) → Result ServiceConfig → Exec Process ℕ
unfolding user_boot leave stop_consumer
user_run file_ok server_ok (raised what) p = (raised what, p)
user_run file_ok server_ok (ok cfg) p =
    let booted = user_boot cfg file_ok server_ok p in
    (ok (exit_code booted.0), leave cfg (stop_consumer booted.1))

unfoldable pub config_run : (file_ok server_ok : Bool) → Result ServiceConfig → Exec Process ℕ
unfolding config_boot leave
config_run file_ok server_ok (raised what) p = (raised what, p)
config_run file_ok server_ok (ok cfg) p =
    let booted = config_boot cfg file_ok server_ok p in
    (ok (exit_code booted.0), leave cfg booted.1)

unfoldable pub game_run : (file_ok server_ok : Bool) → Result ServiceConfig → Exec Process ℕ
unfolding game_boot game_leave
game_run file_ok server_ok (raised what) p = (raised what, p)
game_run file_ok server_ok (ok cfg) p =
    let booted = game_boot cfg file_ok server_ok p in
    (ok (exit_code booted.0), game_leave cfg booted.1)

-- The three main functions; `file` is the text of the file that the first argument or the default names.
unfoldable pub user_main : (file : Option Text) → (file_ok server_ok : Bool) → Exec Process ℕ
unfolding user_run load_service_config
user_main file file_ok server_ok =
    user_run file_ok server_ok (load_service_config file (lit "user_service") 50052)

unfoldable pub config_main : (file : Option Text) → (file_ok server_ok : Bool) → Exec Process ℕ
unfolding config_run load_service_config
config_main file file_ok server_ok =
    config_run file_ok server_ok (load_service_config file (lit "config_service") 50051)

unfoldable pub game_main : (file : Option Text) → (file_ok server_ok : Bool) → Exec Process ℕ
unfolding game_run load_service_config
game_main file file_ok server_ok =
    game_run file_ok server_ok (load_service_config file (lit "game_service") 50053)
