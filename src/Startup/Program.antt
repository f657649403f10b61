-- ===== src/Startup/Program.antt =====
-- server/rust/src/main.rs: from the arguments to the running server and its health endpoint, which
-- share the metrics and the registry.
use tcpunch.Base.{ℕ, Name, Result, ok, err}
use tcpunch.Platform.{Platform}
use tcpunch.Platform.Redis.{RedisApi}
use tcpunch.Protocol.{PeerConnectionData}
use tcpunch.Registry.{RegistryError}
use tcpunch.Registry.Json.{JsonApi}
use tcpunch.Registry.Redis.{Link}
use tcpunch.Registry.Dispatch.{Registry}
use tcpunch.Registry.Dispatch.Operations.{registry_ops}
use tcpunch.Server.{ServerConfig}
use tcpunch.Server.Accept.{System, run_server}
use tcpunch.Health.{HealthState}
use tcpunch.Startup.{Args, make_registry, server_config}

module _ (P : Platform PeerConnectionData) (R : RedisApi) (J : JsonApi P) where
  open P use {oneshot.{Channels}}

  -- What the program spawns: the server with its configuration, and the health endpoint.
  pub record Program : Type 0 where
    pub config : ServerConfig
    pub system : System P (registry_ops P R J)
    pub start_time : ℕ
    pub server_id : Name
    pub health_port : ℕ

  abbrev pub assemble : Args → (server_id : Name) → (now : ℕ) → Registry P R J → Program
  assemble args server_id now registry = record {
    config = server_config args;
    system = run_server P (registry_ops P R J) registry;
    start_time = now;
    server_id = server_id;
    health_port = args.health_port;
  }

  -- An error of the registry ends the program.
  unfoldable pub start_program :
      Args
      → (server_id : Name) → Channels
      → R.Store
      → (opened connected : Link) → (now : ℕ) → Result Program RegistryError
  start_program args server_id channels st opened connected now =
      elim (make_registry P R J args server_id channels st opened connected) [
        | ok registry ↦ ok (assemble args server_id now registry)
        | err e ↦ err e
      ]

  -- The state of the health endpoint beside a state of the server.
  abbrev pub health_of : Program → System P (registry_ops P R J) → HealthState P R J
  health_of p s = record {
    metrics = s.shared.metrics;
    registry = s.shared.registry;
    start_time = p.start_time;
    server_id = p.server_id;
  }
