-- ===== src/Server/Connection.antt =====
-- server/rust/src/server.rs: `handle_connection`, one function for what follows each `await`.
use tcpunch.Base.{ℕ, Bool, true, false, List, Option, some, none, Result, ok, err, Name}
use tcpunch.Platform.{Platform}
use tcpunch.Protocol.{PeerConnectionData, SocketAddr, from_socket_addr}
use tcpunch.Protocol.Request as Request
use tcpunch.Protocol.Response as Response
use tcpunch.Registry.{RegistrationResult, waiting, paired, resumed, RegistryError}
use tcpunch.Server.Metrics.{ServerMetrics, pairing_succeeded, timeout_occurred}

-- What a connection asks of the registry: the calls of the enum `Registry`, and that a receiver
-- which is dropped closes its end of the channel. `Registry/InMemory` and its channels fill it.
pub record RegistryOps (P : Platform PeerConnectionData) : Type 1 where
  pub State : Type 0
  pub Draw : Type 0
  pub register :
      State
      → Name
      → PeerConnectionData
      → Option P.uuid.Uuid
      → Draw
      → State × Result (RegistrationResult P) RegistryError
  pub unregister : State → Name → P.uuid.Uuid → State × Result (Unit {0}) RegistryError
  pub hang_up : State → P.oneshot.Receiver → State

-- How `timeout(recv_timeout, stream.read_exact(&mut buf))` ends: with 141 bytes, with an error of
-- the stream, or with the time run out.
pub data ReadOutcome : Type 0 where
  received : List ℕ → ReadOutcome
  read_failed read_elapsed : ReadOutcome

-- How `timeout(peer_wait_timeout, peer_notify)` ends.
pub data WaitOutcome : Type 0 where
  notified : PeerConnectionData → WaitOutcome
  sender_dropped wait_elapsed : WaitOutcome

module _ (P : Platform PeerConnectionData) where
  open P use {uuid.{Uuid}, oneshot.{Receiver}}

  -- What a connection does once its response is written.
  pub data After : Type 0 where
    finish : After
    succeed : After
    time_out : After
    await_peer : PeerConnectionData → Name → Uuid → Receiver → After

  -- Where a connection stands: it reads the request, writes a response, waits for its peer, or has
  -- returned `Ok` (true) or `Err` (false).
  pub data Local : Type 0 where
    reading : PeerConnectionData → Local
    writing : Response.ServerResponse P.uuid → After → Local
    awaiting : PeerConnectionData → Name → Uuid → Receiver → Local
    finished : Bool → Local

  -- An IPv6 client gets an error response.
  unfoldable pub start : SocketAddr → Local
  unfolding from_socket_addr
  start addr = elim (from_socket_addr addr) [
    | some info ↦ reading info
    | none ↦ writing (Response.error P.uuid) finish
  ]

  unfoldable pub on_registered :
      PeerConnectionData → Name → Result (RegistrationResult P) RegistryError → Local
  on_registered info name (ok (paired token peer_info)) =
      writing (Response.paired P.uuid info peer_info token) succeed
  on_registered info name (ok (waiting token peer_notify)) =
      writing (Response.waiting P.uuid info token) (await_peer info name token peer_notify)
  on_registered info name (ok (resumed token peer_notify)) =
      writing (Response.waiting P.uuid info token) (await_peer info name token peer_notify)
  on_registered info name (err e) = writing (Response.error P.uuid) finish

  module _ (G : RegistryOps P) where
    -- What the connections share.
    pub record Shared : Type 0 where
      pub registry : G.State
      pub metrics : ServerMetrics

    unfoldable pub on_request :
        Shared → G.Draw → PeerConnectionData → Request.ClientRequest P.uuid → Shared × Local
    on_request s draw info req =
        let (registry, result) =
          G.register s.registry req.pairing_name info req.reconnect_token draw in
        (record s { registry = registry }, on_registered info req.pairing_name result)

    unfoldable pub after_read : Shared → G.Draw → PeerConnectionData → ReadOutcome → Shared × Local
    after_read s draw info (received bytes) = elim (Request.from_bytes P.uuid bytes) [
      | ok req ↦ on_request s draw info req
      | err e ↦ (s, writing (Response.error P.uuid) finish)
    ]
    after_read s draw info read_failed = (s, finished false)
    after_read s draw info read_elapsed =
        (record s { metrics = timeout_occurred s.metrics }, finished true)

    -- A failed write returns `Err` at once; the receiver of a waiting connection is dropped.
    unfoldable pub after_write : Shared → After → (written : Bool) → Shared × Local
    after_write s finish true = (s, finished true)
    after_write s succeed true = (record s { metrics = pairing_succeeded s.metrics }, finished true)
    after_write s time_out true = (record s { metrics = timeout_occurred s.metrics }, finished true)
    after_write s (await_peer info name token rx) true = (s, awaiting info name token rx)
    after_write s (await_peer info name token rx) false =
        (record s { registry = G.hang_up s.registry rx }, finished false)
    after_write s _ false = (s, finished false)

    -- Only a wait whose time has run out takes the entry out of the registry.
    unfoldable pub after_wait :
        Shared → PeerConnectionData → Name → Uuid → Receiver → WaitOutcome → Shared × Local
    after_wait s info name token rx (notified peer_info) =
        (s, writing (Response.paired P.uuid info peer_info token) succeed)
    after_wait s info name token rx sender_dropped =
        (s, writing (Response.timeout P.uuid info token) time_out)
    after_wait s info name token rx wait_elapsed = (
      record s { registry = (G.unregister (G.hang_up s.registry rx) name token).0 },
      writing (Response.timeout P.uuid info token) time_out,
    )
