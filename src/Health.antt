-- ===== src/Health.antt =====
-- server/rust/src/health.rs: the responses of the health endpoint, over the enum `Registry`.
-- Texts are lists of bytes; instants are counted in milliseconds.
pub mod Report
pub mod Prometheus
pub mod Scrape
pub mod Router
use tcpunch.Base.{ℕ, List, [], ◌∷◌, ◌-◌, ◌/◌}
use tcpunch.Platform.{Platform}
use tcpunch.Protocol.{PeerConnectionData}
use tcpunch.Platform.Redis.{RedisApi}
use tcpunch.Registry.Json.{JsonApi}
use tcpunch.Registry.Redis.{Link}
use tcpunch.Registry.Dispatch.{Registry, active_count}
use tcpunch.Server.Metrics.{ServerMetrics, MetricsSnapshot, snapshot}

pub record HealthState (P : Platform PeerConnectionData) (R : RedisApi) (J : JsonApi P)
    : Type 0 where
  pub metrics : ServerMetrics
  pub registry : Registry P R J
  pub start_time : ℕ
  pub server_id : List ℕ

-- The status texts that the responses have.
pub data Status : Type 0 where
  ready healthy : Status

pub record HealthResponse : Type 0 where
  pub status : Status
  pub server_id : List ℕ
  pub uptime_secs : ℕ
  pub active_pairings : ℕ
  pub metrics : MetricsSnapshot

module _ (P : Platform PeerConnectionData) (R : RedisApi) (J : JsonApi P) where
  -- `elapsed` is 0 for a start that lies ahead.
  unfoldable pub readiness : HealthState P R J → (now : ℕ) → (on_keys : Link) → HealthResponse
  readiness s now on_keys = record {
    status = ready;
    server_id = s.server_id;
    uptime_secs = (now - s.start_time) / 1000;
    active_pairings = active_count P R J s.registry on_keys;
    metrics = snapshot s.metrics;
  }

  unfoldable pub health : HealthState P R J → (now : ℕ) → (on_keys : Link) → HealthResponse
  health s now on_keys = record {
    status = healthy;
    server_id = s.server_id;
    uptime_secs = (now - s.start_time) / 1000;
    active_pairings = active_count P R J s.registry on_keys;
    metrics = snapshot s.metrics;
  }
