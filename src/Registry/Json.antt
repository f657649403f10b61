-- ===== src/Registry/Json.antt =====
-- The JSON of a waiting client and of an address (server/rust/src/registry.rs), which the crates
-- serde and serde_json derive. They are not part of the repository.
use tcpunch.Base.{Option, some, Name, ◌≡◌}
use tcpunch.Platform.{Platform}
use tcpunch.Protocol.{PeerConnectionData}
use tcpunch.Registry.{WaitingClient}

pub record JsonApi (P : Platform PeerConnectionData) : Type 0 where
  pub waiting_to_string : WaitingClient P → Option Name
  pub waiting_from_str : Name → Option (WaitingClient P)
  pub info_to_string : PeerConnectionData → Option Name
  -- What is written is read back, and these types are always written. The date is written to the
  -- millisecond, and `DateTime` is taken to be no finer.
  pub waiting_written : (w : WaitingClient P) → (text : Name) × (waiting_to_string w ≡ some text)
  pub waiting_read :
      (w : WaitingClient P) (text : Name)
      → waiting_to_string w ≡ some text
      → waiting_from_str text ≡ some w
  pub info_written : (info : PeerConnectionData) → (text : Name) × (info_to_string info ≡ some text)
