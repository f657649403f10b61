-- ===== src/Server/Metrics.antt =====
-- server/rust/src/server.rs: `ServerMetrics`. An atomic counter is a number of 64 bits that wraps.
use tcpunch.Base.{ℕ, ◌+◌, ◌-◌, ◌%◌, ◌^◌, ◌≡◌, ◌<◌, arith}

abbrev pub word : ℕ
word = 2 ^ 64

pub record ServerMetrics : Type 0 where
  pub active_connections : ℕ
  pub total_connections : ℕ
  pub successful_pairings : ℕ
  pub timeouts : ℕ
  pub errors : ℕ

-- `fetch_add(1)` and `fetch_sub(1)`
unfoldable pub fetch_add_one : ℕ → ℕ
fetch_add_one x = (x + 1) % word

unfoldable pub fetch_sub_one : ℕ → ℕ
fetch_sub_one x = (x + word - 1) % word

unfoldable pub no_metrics : ServerMetrics
no_metrics = record {
  active_connections = 0;
  total_connections = 0;
  successful_pairings = 0;
  timeouts = 0;
  errors = 0;
}

unfoldable pub connection_started : ServerMetrics → ServerMetrics
connection_started m = record m {
  active_connections = fetch_add_one m.active_connections;
  total_connections = fetch_add_one m.total_connections;
}

unfoldable pub connection_ended : ServerMetrics → ServerMetrics
connection_ended m = record m { active_connections = fetch_sub_one m.active_connections }

unfoldable pub pairing_succeeded : ServerMetrics → ServerMetrics
pairing_succeeded m = record m { successful_pairings = fetch_add_one m.successful_pairings }

unfoldable pub timeout_occurred : ServerMetrics → ServerMetrics
timeout_occurred m = record m { timeouts = fetch_add_one m.timeouts }

unfoldable pub error_occurred : ServerMetrics → ServerMetrics
error_occurred m = record m { errors = fetch_add_one m.errors }

pub record MetricsSnapshot : Type 0 where
  pub active_connections : ℕ
  pub total_connections : ℕ
  pub successful_pairings : ℕ
  pub timeouts : ℕ
  pub errors : ℕ

unfoldable pub snapshot : ServerMetrics → MetricsSnapshot
snapshot m = record {
  active_connections = m.active_connections;
  total_connections = m.total_connections;
  successful_pairings = m.successful_pairings;
  timeouts = m.timeouts;
  errors = m.errors;
}

-- A counter that has gone up comes back down to where it was, also when it wraps.
pub fetch_sub_one-fetch_add_one : (x : ℕ) → x < word → fetch_sub_one (fetch_add_one x) ≡ x
unfolding fetch_sub_one fetch_add_one
fetch_sub_one-fetch_add_one x h = omega arith
