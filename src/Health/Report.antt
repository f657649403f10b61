-- ===== src/Health/Report.antt =====
-- What the health endpoint says of a running server (server/rust/src/health.rs and server.rs).
use tcpunch.Base.{ℕ, List, ◌≡◌, ◌%◌, total, length}
use tcpunch.Platform.{Platform}
use tcpunch.Protocol.{PeerConnectionData}
use tcpunch.Platform.Redis.{RedisApi}
use tcpunch.Registry.Json.{JsonApi}
use tcpunch.Registry.Redis.{Link}
use tcpunch.Registry.InMemory as InMemory
use tcpunch.Registry.InMemory.{InMemoryRegistry, pairing_map}
use tcpunch.Registry.Dispatch as Dispatch
use tcpunch.Server.{ServerConfig}
use tcpunch.Server.Accept.{Reach, System, run_server}
use tcpunch.Server.Bookkeeping.{Reach-Counted}
use tcpunch.Server.Counts.{live, begun, failed, pairing, timeout}
use tcpunch.Server.Meeting.{in_memory}
use tcpunch.Server.Metrics.{snapshot, word}
use tcpunch.Health.{HealthState, health}

module _ (P : Platform PeerConnectionData) (R : RedisApi) (J : JsonApi P) where
  -- The endpoint's view of a server.
  abbrev pub health_state : System P (in_memory P) → ℕ → List ℕ → HealthState P R J
  health_state s start_time server_id = record {
    metrics = s.shared.metrics;
    registry = Dispatch.in_memory s.shared.registry;
    start_time = start_time;
    server_id = server_id;
  }

  -- After any schedule of a server over the in-memory registry, the health response says how many
  -- entries wait in the registry, and, up to the wrap-around of the counters, how many tasks run, how
  -- many have begun, how many pairings and timeouts the responses told, and how many tasks failed.
  pub health-Reach :
      (config : ServerConfig) (registry : InMemoryRegistry P) {s : System P (in_memory P)}
      → Reach P (in_memory P) config (run_server P (in_memory P) registry) s
      → (start_time now : ℕ) (server_id : List ℕ) (on_keys : Link)
      → let h = health P R J (health_state s start_time server_id) now on_keys in
        (h.active_pairings ≡ length ((pairing_map P).entries s.shared.registry.pairings))
        × (h.metrics.active_connections ≡ total (live P) s.tasks % word)
        × (h.metrics.total_connections ≡ total (begun P) s.tasks % word)
        × (h.metrics.successful_pairings ≡ total (pairing P) s.log % word)
        × (h.metrics.timeouts ≡ total (timeout P) s.log % word)
        × (h.metrics.errors ≡ total (failed P) s.tasks % word)
  unfolding health snapshot Dispatch.active_count InMemory.active_count
  health-Reach config registry r start_time now server_id on_keys =
      let c = Reach-Counted P (in_memory P) config registry r in
      ((pairing_map P).len-entries _, c.active, c.started, c.pairings, c.timed_out, c.errors)
