-- ===== src/Processes/AccessGateway/Closing.antt =====
-- The threads of the gateway's process, from its start to its end.
use kd.Base.{ℕ, Bool, [], ◌∷◌}
use kd.Log.{LogState}
use kd.AppConfig.Loaders.{GatewayConfig}
use kd.Gateway.Lifecycle.{Bind}
use kd.Gateway.Lifecycle.Threads.{starting, stopping, off, position_after, IsAt, start_stop_refines}
use kd.Processes.AccessGateway.{build, boot, close}

-- The process of the gateway is in the position that one start leads to, and after the hook in the
-- one that a start and a stop lead to, whatever the configuration says.
gateway_closes :
    (cfg : GatewayConfig) (file_ok : Bool) (now : ℕ) (answer : Bind) (log : LogState)
    → IsAt (position_after (starting answer ∷ []) off) (boot cfg file_ok now answer log).1.lifecycle
      × IsAt
          (position_after (starting answer ∷ stopping ∷ []) off)
          (close (boot cfg file_ok now answer log).1).lifecycle
unfolding boot build close
gateway_closes cfg file_ok now answer log = (
  (start_stop_refines (starting answer ∷ []) cfg.http_port cfg.http_io_threads).0,
  (start_stop_refines (starting answer ∷ stopping ∷ []) cfg.http_port cfg.http_io_threads).0,
)
