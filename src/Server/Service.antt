-- ===== src/Server/Service.antt =====
-- The server over its in-memory registry, where a wait ends as its channel says, the registry changes
-- by the calls of the connections and the cleanup only, and each fresh token is one that the index
-- does not know (server/rust/src/server.rs and registry.rs).
pub mod Listener
pub mod Inserting
pub mod Joining
pub mod Sound
pub mod Sent
pub mod Apart
pub mod Fate
pub mod Partner
pub mod Together
pub mod Attended
pub mod Wire
pub mod Truth
use tcpunch.Base.{ℕ, Name, List, [], ◌∷◌, ◌++◌, none, ok, err, ◌≡◌}
use tcpunch.Platform.{Platform, Chan, sender_gone, sent}
use tcpunch.Protocol.{PeerConnectionData}
use tcpunch.Protocol.Request as Request
use tcpunch.Registry.InMemory.{token_map, cleanup_expired}
use tcpunch.Server.{ServerConfig}
use tcpunch.Server.Accept.{
  System, Step, accepts, shuts_down, begins, reads, writes, waits, ends, cleans,
}
use tcpunch.Server.Connection.{
  ReadOutcome, received, read_failed, read_elapsed, WaitOutcome, notified, sender_dropped,
  wait_elapsed,
}
use tcpunch.Server.Meeting.{in_memory}

-- The requests that have been registered, with the names and the addresses.
abbrev pub Requests : Type 0
Requests = List (Name × PeerConnectionData)

-- What a wait may end with, by what is in the channel; its time may run out at any moment.
abbrev pub Heeds : Chan PeerConnectionData → WaitOutcome → Type 0
Heeds c (notified peer) = c ≡ sent peer
Heeds c sender_dropped = c ≡ sender_gone
Heeds c wait_elapsed = Unit {0}

module _ (P : Platform PeerConnectionData) (config : ServerConfig) where
  abbrev pub Service : Type 0
  Service = System P (in_memory P)

  abbrev pub ServiceStep : Service → Service → Type 0
  ServiceStep = Step P (in_memory P) config

  abbrev pub IsActual : {s t : Service} → ServiceStep s t → Type 0
  IsActual (reads s i info draw outcome h) =
      (token_map P).get s.shared.registry.tokens draw.token ≡ none
  IsActual (waits s i info name token rx outcome h) =
      Heeds (P.oneshot.state s.shared.registry.channels rx) outcome
  IsActual (cleans s registry) =
      (now : ℕ) × (registry ≡ (cleanup_expired P s.shared.registry now).0)
  IsActual (accepts s addr h) = Unit {0}
  IsActual (shuts_down s) = Unit {0}
  IsActual (begins s i addr h) = Unit {0}
  IsActual (writes s i response after written h) = Unit {0}
  IsActual (ends s i success h) = Unit {0}

  -- The request that a read has brought in.
  abbrev pub request_of : PeerConnectionData → ReadOutcome → Requests
  request_of info (received bytes) = elim (Request.from_bytes P.uuid bytes) [
    | ok req ↦ (req.pairing_name, info) ∷ []
    | err e ↦ []
  ]
  request_of info read_failed = []
  request_of info read_elapsed = []

  abbrev pub requested : {s t : Service} → ServiceStep s t → Requests
  requested (reads s i info draw outcome h) = request_of info outcome
  requested (waits s i info name token rx outcome h) = []
  requested (cleans s registry) = []
  requested (accepts s addr h) = []
  requested (shuts_down s) = []
  requested (begins s i addr h) = []
  requested (writes s i response after written h) = []
  requested (ends s i success h) = []

  -- A run of the server, and the requests that it has registered.
  pub data Run (s : Service) : Requests → Service → Type 0 where
    here : Run s [] s
    next :
        {seen : Requests} {t u : Service}
        → Run s seen t
        → (step : ServiceStep t u) → IsActual step
        → Run s (requested step ++ seen) u
