-- ===== src/Server/Conversation.antt =====
-- What one client hears (server/rust/src/server.rs): `handle_connection` from its first line to its
-- return, with whatever the registry, the network and the other connections do in between.
use tcpunch.Base.Fallible.{Result-cases}
use tcpunch.Base.{
  ℕ, Bool, true, false, List, [], ◌∷◌, ◌++◌, Option, some, none, ok, err, inl, inr, ◌≡◌, refl, sym,
  subst, Result,
}
use tcpunch.Platform.{Platform}
use tcpunch.Protocol.{PeerConnectionData, SocketAddr, from_socket_addr}
use tcpunch.Protocol.Request as Request
use tcpunch.Protocol.Response as Response
use tcpunch.Registry.{RegistrationResult, waiting, paired, resumed, RegistryError}
use tcpunch.Server.Connection.{
  RegistryOps, Local, After, reading, writing, awaiting, finished, finish, succeed, time_out,
  await_peer, Shared, start, on_registered, on_request, after_read, after_write, after_wait,
  ReadOutcome, received, read_failed, read_elapsed, WaitOutcome, notified, sender_dropped,
  wait_elapsed,
}

module _ (P : Platform PeerConnectionData) (addr : SocketAddr) where
  open P use {uuid.{Uuid}}

  abbrev pub Reply : Type 0
  Reply = Response.ServerResponse P.uuid

  abbrev pub said : Reply → (written : Bool) → List Reply
  said response true = response ∷ []
  said response false = []

  -- The responses that the client has been sent, and where its connection stands.
  pub data Conversation (G : RegistryOps P) : List Reply → Local P → Type 0 where
    opens : Conversation G [] (start P addr)
    reads :
        (heard : List Reply) (info : PeerConnectionData)
        → Conversation G heard (reading info)
        → (s : Shared P G) (draw : G.Draw) (outcome : ReadOutcome)
        → Conversation G heard (after_read P G s draw info outcome).1
    writes :
        (heard : List Reply) (response : Reply) (after : After P)
        → Conversation G heard (writing response after)
        → (s : Shared P G) (written : Bool)
        → Conversation G (heard ++ said response written) (after_write P G s after written).1
    waits :
        (heard : List Reply) (info : PeerConnectionData) (name : List ℕ) (token : Uuid)
        (rx : P.oneshot.Receiver)
        → Conversation G heard (awaiting info name token rx)
        → (s : Shared P G) (outcome : WaitOutcome)
        → Conversation G heard (after_wait P G s info name token rx outcome).1

  -- The client's own address is the one that the server sees.
  abbrev pub IsOwn : PeerConnectionData → Type 0
  IsOwn info = from_socket_addr addr ≡ some info

  -- What a client has heard where its connection has returned `Ok`.
  pub data IsComplete : List Reply → Type 0 where
    nothing : IsComplete []
    refused : IsComplete (Response.error P.uuid ∷ [])
    met :
        (info peer : PeerConnectionData) (token : Uuid)
        → IsOwn info
        → IsComplete (Response.paired P.uuid info peer token ∷ [])
    met_later :
        (info peer : PeerConnectionData) (token : Uuid)
        → IsOwn info
        → IsComplete
            (Response.waiting P.uuid info token ∷ Response.paired P.uuid info peer token ∷ [])
    gave_up :
        (info : PeerConnectionData) (token : Uuid)
        → IsOwn info
        → IsComplete (Response.waiting P.uuid info token ∷ Response.timeout P.uuid info token ∷ [])

  -- What it has heard where its connection has returned `Err`: a write or the read has failed.
  pub data IsCut : List Reply → Type 0 where
    unheard : IsCut []
    left_waiting :
        (info : PeerConnectionData) (token : Uuid)
        → IsOwn info
        → IsCut (Response.waiting P.uuid info token ∷ [])

  -- What may be written, and then comes next, after what has been heard.
  pub data Fits : List Reply → Reply → After P → Type 0 where
    an_error : Fits [] (Response.error P.uuid) finish
    a_peer :
        (info peer : PeerConnectionData) (token : Uuid)
        → IsOwn info
        → Fits [] (Response.paired P.uuid info peer token) succeed
    a_wait :
        (info : PeerConnectionData) (name : List ℕ) (token : Uuid) (rx : P.oneshot.Receiver)
        → IsOwn info
        → Fits [] (Response.waiting P.uuid info token) (await_peer info name token rx)
    a_late_peer :
        (info peer : PeerConnectionData) (token : Uuid)
        → IsOwn info
        → Fits
            (Response.waiting P.uuid info token ∷ [])
            (Response.paired P.uuid info peer token)
            succeed
    a_timeout :
        (info : PeerConnectionData) (token : Uuid)
        → IsOwn info
        → Fits
            (Response.waiting P.uuid info token ∷ [])
            (Response.timeout P.uuid info token)
            time_out

  -- What a client has heard, by where its connection stands.
  abbrev pub Heard : List Reply → Local P → Type 0
  Heard heard (reading info) = (heard ≡ []) × IsOwn info
  Heard heard (writing response after) = Fits heard response after
  Heard heard (awaiting info name token rx) =
      (heard ≡ Response.waiting P.uuid info token ∷ []) × IsOwn info
  Heard heard (finished true) = IsComplete heard
  Heard heard (finished false) = IsCut heard

  start-Heard : Heard [] (start P addr)
  unfolding start
  start-Heard = first (from_socket_addr addr) refl
    where
      first :
          (seen : Option PeerConnectionData)
          → from_socket_addr addr ≡ seen
          → Heard [] (elim seen [
            | some info ↦ reading info
            | none ↦ writing (Response.error P.uuid) finish
          ])
      first none e = an_error
      first (some info) own = (refl, own)

  on_registered-Heard :
      (info : PeerConnectionData) (name : List ℕ)
      (result : Result (RegistrationResult P) RegistryError)
      → IsOwn info
      → Heard [] (on_registered P info name result)
  unfolding on_registered
  on_registered-Heard info name (ok (paired token peer)) own = a_peer info peer token own
  on_registered-Heard info name (ok (waiting token rx)) own = a_wait info name token rx own
  on_registered-Heard info name (ok (resumed token rx)) own = a_wait info name token rx own
  on_registered-Heard info name (err e) own = an_error

  module _ (G : RegistryOps P) (s : Shared P G) where
    after_read-Heard :
        (draw : G.Draw) (info : PeerConnectionData) (outcome : ReadOutcome)
        → IsOwn info
        → Heard [] (after_read P G s draw info outcome).1
    unfolding after_read on_request
    after_read-Heard draw info (received bytes) own =
        elim (Result-cases (Request.from_bytes P.uuid bytes)) [
          | inl (req, e) ↦
              rw (e, after_read, Heard)
                (on_registered-Heard info req.pairing_name
                  (G.register s.registry req.pairing_name info req.reconnect_token draw).1 own)
          | inr (x, e) ↦ rw (e, after_read, Heard) an_error
        ]
    after_read-Heard draw info read_failed own = unheard
    after_read-Heard draw info read_elapsed own = nothing

    after_write-Heard :
        (heard : List Reply) (response : Reply) (after : After P)
        → Fits heard response after
        → (written : Bool)
        → Heard (heard ++ said response written) (after_write P G s after written).1
    unfolding after_write
    after_write-Heard _ _ _ an_error true = refused
    after_write-Heard _ _ _ an_error false = unheard
    after_write-Heard _ _ _ (a_peer info peer token own) true = met info peer token own
    after_write-Heard _ _ _ (a_peer info peer token own) false = unheard
    after_write-Heard _ _ _ (a_wait info name token rx own) true = (refl, own)
    after_write-Heard _ _ _ (a_wait info name token rx own) false = unheard
    after_write-Heard _ _ _ (a_late_peer info peer token own) true = met_later info peer token own
    after_write-Heard _ _ _ (a_late_peer info peer token own) false = left_waiting info token own
    after_write-Heard _ _ _ (a_timeout info token own) true = gave_up info token own
    after_write-Heard _ _ _ (a_timeout info token own) false = left_waiting info token own

    after_wait-Heard :
        (info : PeerConnectionData) (name : List ℕ) (token : Uuid) (rx : P.oneshot.Receiver)
        (outcome : WaitOutcome)
        → IsOwn info
        → Heard
            (Response.waiting P.uuid info token ∷ [])
            (after_wait P G s info name token rx outcome).1
    unfolding after_wait
    after_wait-Heard info name token rx (notified peer) own = a_late_peer info peer token own
    after_wait-Heard info name token rx sender_dropped own = a_timeout info token own
    after_wait-Heard info name token rx wait_elapsed own = a_timeout info token own

  -- What a client hears from its first byte to the end of its connection, whatever the registry, the
  -- network and the other connections do. Where the connection returns `Ok`: nothing (its request never
  -- came), one error, its peer's address, a wait and then its peer's address, or a wait and then a
  -- timeout; the second response has the token of the first, and each but an error has the client's own
  -- address, as the server sees it. Where it returns `Err`: nothing, or a wait.
  pub Conversation-Heard :
      (G : RegistryOps P) {heard : List Reply} {l : Local P}
      → Conversation G heard l
      → Heard heard l
  Conversation-Heard G opens = start-Heard
  Conversation-Heard G (reads heard info c s draw outcome) =
      let (e, own) = Conversation-Heard G c in
      subst (λ h. Heard h (after_read P G s draw info outcome).1) (sym e)
        (after_read-Heard G s draw info outcome own)
  Conversation-Heard G (writes heard response after c s written) =
      after_write-Heard G s heard response after (Conversation-Heard G c) written
  Conversation-Heard G (waits heard info name token rx c s outcome) =
      let (e, own) = Conversation-Heard G c in
      subst (λ h. Heard h (after_wait P G s info name token rx outcome).1) (sym e)
        (after_wait-Heard G s info name token rx outcome own)
