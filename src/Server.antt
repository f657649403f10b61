-- ===== src/Server.antt =====
-- server/rust/src/server.rs: the configuration, the metrics, and the task of one connection. The
-- task is cut at its `await` points: it reads, writes or waits, and what comes of that is an
-- argument of the function that takes it on. `Server/Accept` has the accept loop.
pub mod Metrics
pub mod Connection
pub mod Accept
pub mod Counts
pub mod LifeCycle
pub mod Bookkeeping
pub mod Meeting
pub mod Abandoned
pub mod WrongToken
pub mod Progress
pub mod Limit
pub mod Conversation
pub mod Service
use tcpunch.Base.{ℕ, ◌*◌}

-- Timeouts are in milliseconds.
pub record ServerConfig : Type 0 where
  pub listen_port : ℕ
  pub recv_timeout : ℕ
  pub peer_wait_timeout : ℕ
  pub max_connections : ℕ

unfoldable pub default_server_config : ServerConfig
default_server_config = record {
  listen_port = 10000;
  recv_timeout = 5 * 1000;
  peer_wait_timeout = 60 * 1000;
  max_connections = 10000;
}
