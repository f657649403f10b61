-- ===== src/Server/Service/Fate/Others.antt =====
-- A step of another task leaves a connection where it stands (server/rust/src/server.rs).
use tcpunch.Base.{
  ℕ, Name, Bool, true, false, List, [], ◌∷◌, inl, inr, ◌≡◌, ◌≢◌, ◌∙◌, refl, Occurs-append_right,
  some, get_elem?, get_elem?-set_ne, get_elem?-append_left, Bool-cases, leb,
}
use tcpunch.Base.Fallible.{Result-cases}
use tcpunch.Platform.{Platform, sent}
use tcpunch.Protocol.{PeerConnectionData, SocketAddr}
use tcpunch.Protocol.Request as Request
use tcpunch.Registry.InMemory.{Draw}
use tcpunch.Registry.InMemory.Invariant.{Inv}
use tcpunch.Registry.InMemory.Fade.{Shrinks-unregister}
use tcpunch.Server.{ServerConfig}
use tcpunch.Server.Accept.{spawned, running, LogEntry, accept, resume_task}
use tcpunch.Server.Connection.{
  Local, After, awaiting, finish, succeed, time_out, await_peer, Shared, on_request, after_read,
  after_write, after_wait, ReadOutcome, received, read_failed, read_elapsed, WaitOutcome, notified,
  sender_dropped, wait_elapsed,
}
use tcpunch.Server.Meeting.{in_memory}
use tcpunch.Server.Service.{Service}
use tcpunch.Server.Service.Listener.{hung_up}
use tcpunch.Server.Service.Sent.{sent-Shrinks, sent-hang_up, sent-register}
use tcpunch.Server.Service.Fate.{Fate, Fate-kept}

module _ (P : Platform PeerConnectionData) (config : ServerConfig) (i : ℕ)
    (info : PeerConnectionData) (name : Name) (token : P.uuid.Uuid) (rx : P.oneshot.Receiver)
    (p : PeerConnectionData) where
  open P use {uuid.{Uuid}, oneshot.{Receiver, state}}

  abbrev Fated : Service P config → Type 0
  Fated = Fate P config i info name token rx p

  pub accept-Fate :
      (s : Service P config) (addr : SocketAddr)
      → Fated s
      → Fated (accept P (in_memory P) config s addr)
  unfolding accept
  accept-Fate s addr f =
      elim (Bool-cases (leb config.max_connections s.shared.metrics.active_connections)) [
        | inl full ↦ rw full f
        | inr room ↦ rw room (
            Fate-kept P config i info name token rx p s _
              (λ task h. get_elem?-append_left s.tasks (spawned addr ∷ []) i h) (λ _ c. c)
              (λ x h. h) f)
      ]

  -- Another task goes on.
  pub other-Fate :
      (s : Service P config) (j : ℕ) (x : Shared P (in_memory P) × Local P)
      (entries : List (LogEntry P))
      → j ≢ i
      → (get_elem? s.tasks i ≡ some (running (awaiting info name token rx))
          → state s.shared.registry.channels rx ≡ sent p
          → state x.0.registry.channels rx ≡ sent p)
      → Fated s
      → Fated (resume_task P (in_memory P) s j x entries)
  unfolding resume_task
  other-Fate s j x entries ne c f =
      Fate-kept P config i info name token rx p s _
        (λ task h. get_elem?-set_ne s.tasks j i _ ne ∙ h) c
        (λ y h. Occurs-append_right y entries s.log h) f

  pub after_read-sent :
      (s : Shared P (in_memory P)) (v : Inv P s.registry) (other : PeerConnectionData)
      (draw : Draw P) (outcome : ReadOutcome)
      → state s.registry.channels rx ≡ sent p
      → state (after_read P (in_memory P) s draw other outcome).0.registry.channels rx ≡ sent p
  unfolding after_read on_request
  after_read-sent s v other draw (received bytes) h =
      elim (Result-cases (Request.from_bytes P.uuid bytes)) [
        | inl (req, e) ↦
            rw (e, after_read)
              (sent-register P rx p s.registry v h req.pairing_name other req.reconnect_token draw)
        | inr (x, e) ↦ rw (e, after_read) h
      ]
  after_read-sent s v other draw read_failed h = h
  after_read-sent s v other draw read_elapsed h = h

  pub after_write-sent :
      (s : Shared P (in_memory P)) (after : After P) (written : Bool)
      → ((other : PeerConnectionData) (n : Name) (t : Uuid) (ry : Receiver)
          → after ≡ await_peer other n t ry
          → ry ≢ rx)
      → state s.registry.channels rx ≡ sent p
      → state (after_write P (in_memory P) s after written).0.registry.channels rx ≡ sent p
  unfolding after_write
  after_write-sent s (await_peer other n t ry) true ne h = h
  after_write-sent s (await_peer other n t ry) false ne h =
      sent-hang_up P rx p s.registry ry (ne other n t ry refl) h
  after_write-sent s finish true ne h = h
  after_write-sent s succeed true ne h = h
  after_write-sent s time_out true ne h = h
  after_write-sent s finish false ne h = h
  after_write-sent s succeed false ne h = h
  after_write-sent s time_out false ne h = h

  pub after_wait-sent :
      (s : Shared P (in_memory P)) (other : PeerConnectionData) (n : Name) (t : Uuid)
      (ry : Receiver) (outcome : WaitOutcome)
      → ry ≢ rx
      → state s.registry.channels rx ≡ sent p
      → state (after_wait P (in_memory P) s other n t ry outcome).0.registry.channels rx ≡ sent p
  unfolding after_wait
  after_wait-sent s other n t ry (notified peer) ne h = h
  after_wait-sent s other n t ry sender_dropped ne h = h
  after_wait-sent s other n t ry wait_elapsed ne h =
      sent-Shrinks P rx p (hung_up P s.registry ry) _
        (Shrinks-unregister P (hung_up P s.registry ry) n t)
        (sent-hang_up P rx p s.registry ry ne h)
