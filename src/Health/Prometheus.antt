-- ===== src/Health/Prometheus.antt =====
-- server/rust/src/health.rs: `prometheus_metrics`, the text that a scraper reads.
use Prim.Native.String.{String}
use tcpunch.Base.{ℕ, List, [], ◌∷◌, ◌++◌, Name, ◌-◌, ◌/◌}
use tcpunch.Base.Decimal.{decimal}
use tcpunch.Platform.{Platform}
use tcpunch.Platform.Redis.{RedisApi}
use tcpunch.Protocol.{PeerConnectionData}
use tcpunch.Registry.Json.{JsonApi}
use tcpunch.Registry.Redis.{codes, Link}
use tcpunch.Registry.Dispatch.{active_count}
use tcpunch.Server.Metrics.{snapshot}
use tcpunch.Health.{HealthState}

abbrev pub newline : ℕ
newline = 10

abbrev pub unlines : List Name → Name
unlines [] = []
unlines (l ∷ ls) = l ++ newline ∷ unlines ls

-- What stands before the value of a metric.
abbrev pub labelled : Name → (server_id : Name) → Name
labelled name server_id = name ++ codes " {server_id=\"" ++ server_id ++ codes "\"} "

pub record Metric : Type 0 where
  pub name : String
  pub help : String
  pub kind : String
  pub value : ℕ

abbrev pub help_line : Metric → Name
help_line m = codes "# HELP " ++ codes m.name ++ codes " " ++ codes m.help

abbrev pub type_line : Metric → Name
type_line m = codes "# TYPE " ++ codes m.name ++ codes " " ++ codes m.kind

abbrev pub sample_line : (server_id : Name) → Metric → Name
sample_line server_id m = labelled (codes m.name) server_id ++ decimal m.value

-- Three lines for each metric, with an empty line between two metrics.
abbrev pub format_lines : (server_id : Name) → List Metric → List Name
format_lines server_id [] = []
format_lines server_id (m ∷ []) = help_line m ∷ type_line m ∷ sample_line server_id m ∷ []
format_lines server_id (m ∷ m' ∷ ms) =
    help_line m ∷ type_line m ∷ sample_line server_id m ∷ [] ∷ format_lines server_id (m' ∷ ms)

module _ (P : Platform PeerConnectionData) (R : RedisApi) (J : JsonApi P) where
  abbrev pub metrics_of : HealthState P R J → (now : ℕ) → (on_keys : Link) → List Metric
  metrics_of s now on_keys =
      let metrics = snapshot s.metrics in
      (record {
        name = "tcpunch_active_connections";
        help = "Current number of active connections";
        kind = "gauge";
        value = metrics.active_connections;
      })
      ∷ (record {
        name = "tcpunch_total_connections";
        help = "Total number of connections since start";
        kind = "counter";
        value = metrics.total_connections;
      })
      ∷ (record {
        name = "tcpunch_successful_pairings";
        help = "Total successful pairings";
        kind = "counter";
        value = metrics.successful_pairings;
      })
      ∷ (record {
        name = "tcpunch_timeouts";
        help = "Total timeout events";
        kind = "counter";
        value = metrics.timeouts;
      })
      ∷ (record {
        name = "tcpunch_errors";
        help = "Total error events";
        kind = "counter";
        value = metrics.errors;
      })
      ∷ (record {
        name = "tcpunch_active_pairings";
        help = "Current number of active pairing entries";
        kind = "gauge";
        value = active_count P R J s.registry on_keys;
      })
      ∷ (record {
        name = "tcpunch_uptime_seconds";
        help = "Server uptime in seconds";
        kind = "gauge";
        value = (now - s.start_time) / 1000;
      })
      ∷ []

  -- The body of the response.
  unfoldable pub prometheus_metrics : HealthState P R J → (now : ℕ) → (on_keys : Link) → Name
  prometheus_metrics s now on_keys = unlines (format_lines s.server_id (metrics_of s now on_keys))
