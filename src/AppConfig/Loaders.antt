-- ===== src/AppConfig/Loaders.antt =====
-- LoadServiceConfig and LoadGatewayConfig of common/config/app_config.cpp, and the two structs.
use kd.Base.{ℕ, Bool, true, Option, [], Text, lit, ℤ, pos, Result, ok, ◌>>=◌}
use kd.AppConfig.{load_flat_config, get_text_or, get_int_or, get_uint16_or, get_bool_or}

pub record ServiceConfig : Type 0 where
  pub service_name : Text
  pub bind_host : Text
  pub grpc_port : ℕ
  pub log_dir : Text
  pub log_max_size_mb : ℤ
  pub log_max_files : ℤ
  pub log_level : Text
  pub mysql_host : Text
  pub mysql_port : ℕ
  pub mysql_user : Text
  pub mysql_password : Text
  pub mysql_db : Text
  pub mysql_pool_size : ℤ
  pub redis_host : Text
  pub redis_port : ℕ
  pub redis_password : Text
  pub redis_db : ℤ
  pub redis_pool_size : ℤ
  pub etcd_endpoints : Text
  pub mq_uri : Text
  pub registry_ttl_seconds : ℤ

pub record GatewayConfig : Type 0 where
  pub bind_host : Text
  pub http_port : ℕ
  pub http_io_threads : ℤ
  pub log_dir : Text
  pub log_max_size_mb : ℤ
  pub log_max_files : ℤ
  pub log_level : Text
  pub etcd_endpoints : Text
  pub config_service_target : Text
  pub user_service_target : Text
  pub game_service_target : Text
  pub jwt_secret : Text
  pub jwt_issuer : Text
  pub jwt_audience : Text
  pub allow_legacy_token : Bool
  pub grpc_timeout_ms : ℤ
  pub grpc_retry_attempts : ℤ
  pub grpc_retry_backoff_ms : ℤ

-- A number that std::stoi does not read leaves the loader as its exception, whichever field it is.
unfoldable pub load_service_config :
    (file : Option Text) (default_service_name : Text) (default_grpc_port : ℕ)
    → Result ServiceConfig
unfolding load_flat_config get_text_or get_int_or get_uint16_or
load_service_config file default_service_name default_grpc_port =
    let cfg = load_flat_config file in
    get_uint16_or cfg (lit "grpc_port") default_grpc_port >>= (λ grpc_port.
      get_int_or cfg (lit "log_max_size_mb") (pos 100) >>= (λ log_max_size_mb.
        get_int_or cfg (lit "log_max_files") (pos 10) >>= (λ log_max_files.
          get_uint16_or cfg (lit "mysql_port") 3306 >>= (λ mysql_port.
            get_int_or cfg (lit "mysql_pool_size") (pos 4) >>= (λ mysql_pool_size.
              get_uint16_or cfg (lit "redis_port") 6379 >>= (λ redis_port.
                get_int_or cfg (lit "redis_db") (pos 0) >>= (λ redis_db.
                  get_int_or cfg (lit "redis_pool_size") (pos 4) >>= (λ redis_pool_size.
                    get_int_or cfg (lit "registry_ttl_seconds") (pos 30)
                    >>= (λ registry_ttl_seconds. ok (record {
                      service_name = get_text_or cfg (lit "service_name") default_service_name;
                      bind_host = get_text_or cfg (lit "bind_host") (lit "0.0.0.0");
                      grpc_port = grpc_port;
                      log_dir = get_text_or cfg (lit "log_dir") (lit "logs");
                      log_max_size_mb = log_max_size_mb;
                      log_max_files = log_max_files;
                      log_level = get_text_or cfg (lit "log_level") (lit "info");
                      mysql_host = get_text_or cfg (lit "mysql_host") (lit "127.0.0.1");
                      mysql_port = mysql_port;
                      mysql_user = get_text_or cfg (lit "mysql_user") (lit "root");
                      mysql_password = get_text_or cfg (lit "mysql_password") (lit "kd39dev");
                      mysql_db = get_text_or cfg (lit "mysql_db") (lit "kd39");
                      mysql_pool_size = mysql_pool_size;
                      redis_host = get_text_or cfg (lit "redis_host") (lit "127.0.0.1");
                      redis_port = redis_port;
                      redis_password = get_text_or cfg (lit "redis_password") [];
                      redis_db = redis_db;
                      redis_pool_size = redis_pool_size;
                      etcd_endpoints =
                          get_text_or cfg (lit "etcd_endpoints") (lit "http://127.0.0.1:2379");
                      mq_uri = get_text_or cfg (lit "mq_uri") (lit "redis://127.0.0.1:6379");
                      registry_ttl_seconds = registry_ttl_seconds;
                    }))))))))))

unfoldable pub load_gateway_config : (file : Option Text) → Result GatewayConfig
unfolding load_flat_config get_text_or get_int_or get_uint16_or get_bool_or
load_gateway_config file =
    let cfg = load_flat_config file in
    get_uint16_or cfg (lit "http_port") 8080 >>= (λ http_port.
      get_int_or cfg (lit "http_io_threads") (pos 2) >>= (λ http_io_threads.
        get_int_or cfg (lit "log_max_size_mb") (pos 100) >>= (λ log_max_size_mb.
          get_int_or cfg (lit "log_max_files") (pos 10) >>= (λ log_max_files.
            get_int_or cfg (lit "grpc_timeout_ms") (pos 800) >>= (λ grpc_timeout_ms.
              get_int_or cfg (lit "grpc_retry_attempts") (pos 2) >>= (λ grpc_retry_attempts.
                get_int_or cfg (lit "grpc_retry_backoff_ms") (pos 50) >>= (λ grpc_retry_backoff_ms.
                  ok (record {
                    bind_host = get_text_or cfg (lit "bind_host") (lit "0.0.0.0");
                    http_port = http_port;
                    http_io_threads = http_io_threads;
                    log_dir = get_text_or cfg (lit "log_dir") (lit "logs");
                    log_max_size_mb = log_max_size_mb;
                    log_max_files = log_max_files;
                    log_level = get_text_or cfg (lit "log_level") (lit "info");
                    etcd_endpoints =
                        get_text_or cfg (lit "etcd_endpoints") (lit "http://127.0.0.1:2379");
                    config_service_target =
                        get_text_or cfg (lit "config_service_target") (lit "127.0.0.1:50051");
                    user_service_target =
                        get_text_or cfg (lit "user_service_target") (lit "127.0.0.1:50052");
                    game_service_target =
                        get_text_or cfg (lit "game_service_target") (lit "127.0.0.1:50053");
                    jwt_secret = get_text_or cfg (lit "jwt_secret") (lit "dev-secret");
                    jwt_issuer = get_text_or cfg (lit "jwt_issuer") [];
                    jwt_audience = get_text_or cfg (lit "jwt_audience") [];
                    allow_legacy_token = get_bool_or cfg (lit "allow_legacy_token") true;
                    grpc_timeout_ms = grpc_timeout_ms;
                    grpc_retry_attempts = grpc_retry_attempts;
                    grpc_retry_backoff_ms = grpc_retry_backoff_ms;
                  }))))))))
