-- ===== src/Startup.antt =====
-- server/rust/src/main.rs: the arguments, what the program makes of them before it serves, and the
-- drain of the connections before it ends. The parser of the command line, logging, signals and the
-- two spawned servers are calls of libraries; `Server/Accept` has the server itself.
pub mod Timeout
pub mod Drain
pub mod Program
use Prim.Native.String.{String}
use tcpunch.Base.{
  ℕ, List, [], ◌∷◌, Name, Option, none, some, Result, ok, err, ◌*◌, if◌then◌else◌, leb,
}
use tcpunch.Platform.{Platform}
use tcpunch.Platform.Redis.{RedisApi}
use tcpunch.Protocol.{PeerConnectionData}
use tcpunch.Registry.{RegistryConfig, RegistryError}
use tcpunch.Registry.Json.{JsonApi}
use tcpunch.Registry.InMemory as InMemory
use tcpunch.Registry.Redis.{codes, Link, RedisRegistry}
use tcpunch.Registry.Redis.Calls as Calls
use tcpunch.Registry.Dispatch.{Registry, in_memory, redis}
use tcpunch.Server.{ServerConfig}

-- Timeouts are in seconds.
pub record Args : Type 0 where
  pub port : ℕ
  pub health_port : ℕ
  pub redis_url : Option Name
  pub recv_timeout : ℕ
  pub peer_timeout : ℕ
  pub max_connections : ℕ
  pub log_level : Name

-- The values where neither the command line nor the environment gives one.
unfoldable pub default_args : Args
default_args = record {
  port = 10000;
  health_port = 10001;
  redis_url = none;
  recv_timeout = 5;
  peer_timeout = 60;
  max_connections = 10000;
  log_level = codes "info";
}

unfoldable pub registry_config : Args → (server_id : Name) → RegistryConfig
registry_config args server_id = record {
  pairing_timeout = args.peer_timeout * 1000;
  cleanup_interval = 30 * 1000;
  server_id = server_id;
}

unfoldable pub server_config : Args → ServerConfig
server_config args = record {
  listen_port = args.port;
  recv_timeout = args.recv_timeout * 1000;
  peer_wait_timeout = args.peer_timeout * 1000;
  max_connections = args.max_connections;
}

module _ (P : Platform PeerConnectionData) (R : RedisApi) (J : JsonApi P) where
  open P use {oneshot.{Channels}}

  -- A registry on the Redis server of the address.
  unfoldable pub on_redis :
      R.Store → Result (RedisRegistry P R J) RegistryError → Result (Registry P R J) RegistryError
  on_redis st (ok r) = ok (redis (record { store = st; registry = r }))
  on_redis st (err e) = err e

  -- Redis or in memory; `st` is what the Redis server of the address holds, and the links are how
  -- the client is opened and connected.
  unfoldable pub make_registry :
      Args
      → (server_id : Name) → Channels
      → R.Store
      → (opened connected : Link) → Result (Registry P R J) RegistryError
  unfolding on_redis
  make_registry args server_id channels st opened connected = elim args.redis_url [
    | some redis_url ↦
        on_redis st (Calls.new P R J (registry_config args server_id) channels opened connected)
    | none ↦ ok (in_memory (InMemory.new P (registry_config args server_id) channels))
  ]

-- How the drain ends.
pub data DrainEnd : Type 0 where
  drained drain_timeout : DrainEnd

-- The loop reads `active_connections` once a second; the readings are those that it takes before the
-- drain's time has run out.
unfoldable pub drain : (readings : List ℕ) → DrainEnd
drain [] = drain_timeout
drain (active ∷ readings) = let rest = drain readings in if leb active 0 then drained else rest
