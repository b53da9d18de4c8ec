-- ===== src/Processes/AccessGateway.antt =====
-- The main function of gateways/access_gateway/main.cpp: what it builds of the configuration, the
-- start of the server, the wait of Application and the hook that stops the server.
pub mod Closing
use kd.Base.{ℕ, Bool, true, Option, none, some, [], Text, lit, Result, ok, raised}
use kd.Base.Exec.{Exec}
use kd.Log.{LogState, LoggerOptions, init_logger}
use kd.AppConfig.Loaders.{GatewayConfig, load_gateway_config}
use kd.Auth.Token.{AuthOptions}
use kd.Gateway.Invoke.{RouterRuntimeConfig}
use kd.Gateway.Router
use kd.Gateway.Router.{RouterTargets, Router}
use kd.Gateway.Server.{Server}
use kd.Gateway.Lifecycle.{Lifecycle, Bind, new_server, start, stop}
use kd.Processes.{to_size}

-- What main holds: the handlers' state with the process's logger, the middleware and the server.
pub record Gateway : Type 0 where
  pub server : Server
  pub auth : AuthOptions
  pub lifecycle : Lifecycle

module _ (cfg : GatewayConfig) where
  unfoldable pub log_options : LoggerOptions
  log_options = record {
    service_name = lit "access_gateway";
    log_dir = cfg.log_dir;
    max_file_size_mb = to_size cfg.log_max_size_mb;
    max_files = to_size cfg.log_max_files;
    level = cfg.log_level;
    enable_console = true;
  }

  unfoldable pub targets : RouterTargets
  targets = record {
    config_service_target = cfg.config_service_target;
    user_service_target = cfg.user_service_target;
    game_service_target = cfg.game_service_target;
  }

  unfoldable pub runtime_config : RouterRuntimeConfig
  runtime_config = record {
    grpc_timeout_ms = cfg.grpc_timeout_ms;
    retry_attempts = cfg.grpc_retry_attempts;
    retry_backoff_ms = cfg.grpc_retry_backoff_ms;
  }

  unfoldable auth_options : AuthOptions
  auth_options = record {
    jwt_secret = cfg.jwt_secret;
    jwt_issuer = cfg.jwt_issuer;
    jwt_audience = cfg.jwt_audience;
    allow_legacy_token = cfg.allow_legacy_token;
  }

  -- Up to `http.Start()`; `now` is the clock, `log` the process's logger.
  unfoldable pub build : (file_ok : Bool) → (now : ℕ) → LogState → Gateway
  unfolding init_logger log_options targets runtime_config auth_options Router.init new_server
  build file_ok now log = record {
    server = record {
      router = some (Router.init targets runtime_config now);
      idle_metrics = [];
      log = init_logger log_options file_ok log;
      request_seq = 1;
    };
    auth = auth_options;
    lifecycle = new_server cfg.http_port cfg.http_io_threads;
  }

abbrev pub started : Result (Unit {0}) × Lifecycle → Gateway → Result (Unit {0}) × Gateway
started (result, lifecycle) g = (result, record g { lifecycle = lifecycle })

-- `http.Start()`: a failure to bind leaves main as an exception.
unfoldable pub boot :
    GatewayConfig → (file_ok : Bool) → (now : ℕ) → Bind → LogState → Result (Unit {0}) × Gateway
unfolding build start
boot cfg file_ok now answer log =
    let g = build cfg file_ok now log in started (start answer g.lifecycle) g

-- The hook that `app.Run()` runs when a signal has come
unfoldable pub close : Gateway → Gateway
unfolding stop
close g = record g { lifecycle = stop g.lifecycle }
