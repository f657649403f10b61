-- ===== src/Registry.antt =====
-- server/rust/src/registry.rs: the types that both registries share. Durations and instants are
-- counted in milliseconds.
pub mod InMemory
pub mod Spec
pub mod Seats
pub mod Backends
pub mod Dispatch
pub mod Json
pub mod Redis
use tcpunch.Base.{ℕ, List, Option, Name, ◌*◌}
use tcpunch.Platform.{Platform}
use tcpunch.Protocol.{PeerConnectionData}

-- Durations are in milliseconds.
pub record RegistryConfig : Type 0 where
  pub pairing_timeout : ℕ
  pub cleanup_interval : ℕ
  pub server_id : List ℕ

-- `RegistryConfig::default`, with the server identifier that `Uuid::new_v4` gives.
unfoldable pub default_config : List ℕ → RegistryConfig
default_config server_id = record {
  pairing_timeout = 60 * 1000;
  cleanup_interval = 30 * 1000;
  server_id = server_id;
}

module _ (P : Platform PeerConnectionData) where
  open P use {uuid.{Uuid}, oneshot.{Sender, Receiver}, DateTime}

  pub record WaitingClient : Type 0 where
    pub connection_info : PeerConnectionData
    pub reconnect_token : Uuid
    pub server_id : List ℕ
    -- Written with the milliseconds only; nothing reads it.
    pub registered_at : DateTime

  pub data RegistrationResult : Type 0 where
    waiting : (token : Uuid) (peer_notify : Receiver) → RegistrationResult
    paired : (token : Uuid) (peer_info : PeerConnectionData) → RegistrationResult
    resumed : (token : Uuid) (peer_notify : Receiver) → RegistrationResult

-- `Redis` carries what the client library reports, `Internal` the text of a serialisation error.
pub data RegistryError : Type 0 where
  invalid_token session_expired redis : RegistryError
  internal : RegistryError
