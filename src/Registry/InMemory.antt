-- ===== src/Registry/InMemory.antt =====
-- server/rust/src/registry.rs: `InMemoryRegistry`. A call is one step on the registry and the
-- channels; time, the fresh token and the date are arguments. `Race` has the two calls
-- on the map that another thread's call may come between.
pub mod Invariant
pub mod History
pub mod Rendezvous
pub mod Race
pub mod Refines
pub mod Orphans
pub mod Cleanup
pub mod Walk
pub mod Register
pub mod Branches
pub mod Calls
pub mod Preserve
pub mod Fade
pub mod Locks
pub mod CutShort
pub mod Ticker
use tcpunch.Base.{
  ℕ, Option, Bool, Name, some, ltb, none, if◌then◌else◌, name_discrete, Result, ◌+◌, ◌-◌, false, ok,
  ite, true,
}
use tcpunch.Base.Partial.{◌>>=◌}
use tcpunch.Platform.{Platform, DashMap}
use tcpunch.Protocol.{PeerConnectionData}
use tcpunch.Registry.{
  RegistryConfig, WaitingClient, RegistrationResult, waiting, paired, resumed, RegistryError,
}

module _ (P : Platform PeerConnectionData) where
  open P use {
    uuid.{Uuid, uuid_discrete},
    oneshot.{Channels, Sender, Receiver, channel, send, drop_sender},
    DateTime,
  }

  pub record PairingEntry : Type 0 where
    pub waiting_client : WaitingClient P
    pub notify_tx : Option Sender
    pub created_at : ℕ

  -- The two maps of the registry.
  abbrev pub pairing_map : DashMap Name PairingEntry name_discrete
  pairing_map = P.dashmap Name PairingEntry name_discrete

  abbrev pub token_map : DashMap Uuid Name uuid_discrete
  token_map = P.dashmap Uuid Name uuid_discrete

  open pairing_map use {
    Map as Pairings, get as get_pairing, insert as insert_pairing, remove as remove_pairing,
  }
  open token_map use {
    Map as Tokens, get as get_token, insert as insert_token, remove as remove_token,
  }

  -- The registry, and the channels that its entries notify.
  pub record InMemoryRegistry : Type 0 where
    pub config : RegistryConfig
    pub pairings : Pairings
    pub tokens : Tokens
    pub channels : Channels

  -- What a call draws from outside: `Uuid::new_v4`, `Instant::now` and `Utc::now`.
  pub record Draw : Type 0 where
    pub token : Uuid
    pub now : ℕ
    pub date : DateTime

  unfoldable pub new : RegistryConfig → Channels → InMemoryRegistry
  new config channels = record {
    config = config;
    pairings = pairing_map.new;
    tokens = token_map.new;
    channels = channels;
  }

  -- A sender that goes out of scope closes its channel.
  unfoldable pub drop_notify : Channels → Option Sender → Channels
  drop_notify cs none = cs
  drop_notify cs (some tx) = drop_sender cs tx

  -- `if let Some(tx) = entry.notify_tx.take() { let _ = tx.send(client_info); }`
  unfoldable pub notify : Channels → Option Sender → PeerConnectionData → Channels
  notify cs none info = cs
  notify cs (some tx) info = send cs tx info

  abbrev pub guard : {A : Type 0} → Dec A → Option (Unit {0})
  guard (yes h) = some tt
  guard (no h) = none

  -- The new connection and channel of a waiting client that comes back.
  unfoldable pub refresh : PairingEntry → PeerConnectionData → Sender → PairingEntry
  refresh entry info tx = record entry {
    waiting_client = record entry.waiting_client { connection_info = info };
    notify_tx = some tx;
  }

  -- The reconnection branch of `register`; `none` means that it falls through.
  unfoldable pub reconnect :
      InMemoryRegistry
      → Name
      → PeerConnectionData
      → Uuid
      → Option (InMemoryRegistry × RegistrationResult P)
  unfolding refresh drop_notify
  reconnect r name info token = do
    stored_name ← get_token r.tokens token
    _ ← guard (name_discrete stored_name name)
    entry ← get_pairing r.pairings name
    _ ← guard (uuid_discrete entry.waiting_client.reconnect_token token)
    let (channels, tx, rx) = channel r.channels
    some (
      record r {
        pairings = insert_pairing r.pairings name (refresh entry info tx);
        channels = drop_notify channels entry.notify_tx;
      },
      resumed token rx,
    )

  -- A second client takes the waiting entry away.
  unfoldable pub complete_pairing :
      InMemoryRegistry
      → Name
      → PairingEntry
      → PeerConnectionData
      → Draw
      → InMemoryRegistry × RegistrationResult P
  unfolding notify
  complete_pairing r name entry info draw = (
    record r {
      pairings = remove_pairing r.pairings name;
      tokens = remove_token r.tokens entry.waiting_client.reconnect_token;
      channels = notify r.channels entry.notify_tx info;
    },
    paired draw.token entry.waiting_client.connection_info,
  )

  -- The entry of a first client.
  unfoldable pub first_entry : RegistryConfig → PeerConnectionData → Sender → Draw → PairingEntry
  first_entry config info tx draw = record {
    waiting_client = record {
      connection_info = info;
      reconnect_token = draw.token;
      server_id = config.server_id;
      registered_at = draw.date;
    };
    notify_tx = some tx;
    created_at = draw.now;
  }

  unfoldable pub register_first :
      InMemoryRegistry → Name → PeerConnectionData → Draw → InMemoryRegistry × RegistrationResult P
  unfolding first_entry
  register_first r name info draw =
      let (channels, tx, rx) = channel r.channels in
      (
        record r {
          pairings = insert_pairing r.pairings name (first_entry r.config info tx draw);
          tokens = insert_token r.tokens draw.token name;
          channels = channels;
        },
        waiting draw.token rx,
      )

  unfoldable pub register_fresh :
      InMemoryRegistry → Name → PeerConnectionData → Draw → InMemoryRegistry × RegistrationResult P
  register_fresh r name info draw = elim (get_pairing r.pairings name) [
    | some entry ↦ complete_pairing r name entry info draw
    | none ↦ register_first r name info draw
  ]

  -- Every branch returns `Ok`.
  unfoldable pub register :
      InMemoryRegistry
      → Name
      → PeerConnectionData
      → Option Uuid
      → Draw
      → InMemoryRegistry × Result (RegistrationResult P) RegistryError
  register r name info reconnect_token draw = elim (reconnect_token >>= reconnect r name info) [
    | some (r', result) ↦ (r', ok result)
    | none ↦ let (r', result) = register_fresh r name info draw in (r', ok result)
  ]

  -- The entry goes whatever its token is; only the index follows the token.
  unfoldable pub unregister :
      InMemoryRegistry → Name → Uuid → InMemoryRegistry × Result (Unit {0}) RegistryError
  unfolding drop_notify
  unregister r name token = elim (get_pairing r.pairings name) [
    | none ↦ (r, ok tt)
    | some entry ↦ (
      record r {
        pairings = remove_pairing r.pairings name;
        tokens =
            ite (uuid_discrete entry.waiting_client.reconnect_token token)
              (remove_token r.tokens token) r.tokens;
        channels = drop_notify r.channels entry.notify_tx;
      },
      ok tt,
    )
  ]

  unfoldable pub active_count : InMemoryRegistry → ℕ
  active_count r = pairing_map.len r.pairings

  -- `duration_since` is 0 for an instant that lies ahead.
  unfoldable pub is_expired : (timeout now : ℕ) → PairingEntry → Bool
  is_expired timeout now entry = ltb timeout (now - entry.created_at)

  -- What the closure of `retain` changes beside the map that it walks.
  pub record Sweep : Type 0 where
    pub tokens : Tokens
    pub channels : Channels
    pub cleaned : ℕ

  -- One call of the closure; a refused entry is dropped, and its sender with it.
  unfoldable pub sweep_entry : (timeout now : ℕ) → Sweep → Name → PairingEntry → Sweep × Bool
  unfolding is_expired drop_notify
  sweep_entry timeout now s name entry =
      if is_expired timeout now entry
      then (
        record s {
          tokens = remove_token s.tokens entry.waiting_client.reconnect_token;
          channels = drop_notify s.channels entry.notify_tx;
          cleaned = s.cleaned + 1;
        },
        false,
      )
      else (s, true)

  unfoldable pub cleanup_expired : InMemoryRegistry → ℕ → InMemoryRegistry × ℕ
  cleanup_expired r now =
      let (s, pairings) =
        pairing_map.retain (sweep_entry r.config.pairing_timeout now)
          (record { tokens = r.tokens; channels = r.channels; cleaned = 0 }) r.pairings in
      (record r { pairings = pairings; tokens = s.tokens; channels = s.channels }, s.cleaned)
