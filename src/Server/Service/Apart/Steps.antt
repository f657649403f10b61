-- ===== src/Server/Service/Apart/Steps.antt =====
-- Each step keeps the channels of the connections apart (server/rust/src/server.rs).
use tcpunch.Base.Fallible.{Result-cases}
use tcpunch.Base.{
  Name, Bool, true, false, ◌∷◌, none, some, ok, err, inl, inr, ◌≡◌, ◌≢◌, ◌∙◌, refl, sym, subst,
  Result, All-get, none-ne-some, some-injective, Bool-cases, leb,
}
use tcpunch.Platform.{Platform, unissued}
use tcpunch.Protocol.{PeerConnectionData, SocketAddr, v4, v6}
use tcpunch.Protocol.Request as Request
use tcpunch.Registry.{RegistrationResult, RegistryError, waiting, paired, resumed}
use tcpunch.Registry.InMemory.{InMemoryRegistry, Draw}
use tcpunch.Server.{ServerConfig}
use tcpunch.Server.Accept.{
  Task, spawned, running, ended, accepts, shuts_down, begins, reads, writes, waits, ends, cleans,
  accept, begin_task, end_task, resume_task,
}
use tcpunch.Server.Connection.{
  After, reading, writing, awaiting, finished, finish, succeed, time_out, await_peer, Shared, start,
  on_registered, on_request, after_read, after_write, after_wait, ReadOutcome, received,
  read_failed, read_elapsed, WaitOutcome, notified, sender_dropped, wait_elapsed,
}
use tcpunch.Server.Meeting.{in_memory}
use tcpunch.Server.Service.{Requests, Service, ServiceStep, IsActual}
use tcpunch.Server.Service.Inserting.{Outcome}
use tcpunch.Server.Service.Joining.{register-Joined}
use tcpunch.Server.Service.Sound.{TaskOk, Sound}
use tcpunch.Server.Service.Apart.{
  heard_after, heard_local, heard_at, Apart, set-Apart, append-Apart,
}

module _ (P : Platform PeerConnectionData) where
  open P use {uuid.{Uuid}, oneshot.{Receiver, state}}

  -- A task that will listen has a channel that has been made.
  heard-made :
      (seen : Requests) (r : InMemoryRegistry P) (rx : Receiver) (task : Task P)
      → TaskOk P seen r task
      → heard_at P task ≡ some rx
      → state r.channels rx ≢ unissued
  heard-made seen r rx (running (awaiting info name token ry)) l e =
      subst (λ x. state r.channels x ≢ unissued) (some-injective ry rx e) l.made
  heard-made seen r rx (running (writing response (await_peer info name token ry))) (told, l) e =
      subst (λ x. state r.channels x ≢ unissued) (some-injective ry rx e) l.made
  heard-made seen r rx (running (writing response finish)) h e = absurd (none-ne-some e)
  heard-made seen r rx (running (writing response succeed)) h e = absurd (none-ne-some e)
  heard-made seen r rx (running (writing response time_out)) h e = absurd (none-ne-some e)
  heard-made seen r rx (running (reading info)) h e = absurd (none-ne-some e)
  heard-made seen r rx (running (finished success)) h e = absurd (none-ne-some e)
  heard-made seen r rx (spawned addr) h e = absurd (none-ne-some e)
  heard-made seen r rx (ended success) h e = absurd (none-ne-some e)

  on_registered-new :
      (seen : Requests) (r r' : InMemoryRegistry P) (name : Name) (info : PeerConnectionData)
      (rx : Receiver) (result : Result (RegistrationResult P) RegistryError)
      → Outcome P seen r r' name info result
      → heard_local P (on_registered P info name result) ≡ some rx
      → state r.channels rx ≡ unissued
  unfolding on_registered
  on_registered-new seen r r' name info rx (ok (paired token peer)) h e = absurd (none-ne-some e)
  on_registered-new seen r r' name info rx (ok (waiting token ry)) (l, new) e =
      subst (λ x. state r.channels x ≡ unissued) (some-injective ry rx e) new
  on_registered-new seen r r' name info rx (ok (resumed token ry)) (l, new) e =
      subst (λ x. state r.channels x ≡ unissued) (some-injective ry rx e) new
  on_registered-new seen r r' name info rx (err x) h e = absurd (none-ne-some e)

  module _ (config : ServerConfig) (seen : Requests) (s : Service P config)
      (v : Sound P config seen s) where
    pub after_read-new :
        (info : PeerConnectionData) (draw : Draw P) (outcome : ReadOutcome) (rx : Receiver)
        → heard_local P (after_read P (in_memory P) s.shared draw info outcome).1 ≡ some rx
        → state s.shared.registry.channels rx ≡ unissued
    unfolding after_read on_request
    after_read-new info draw (received bytes) rx h =
        elim (Result-cases (Request.from_bytes P.uuid bytes)) [
          | inl (req, e) ↦
              let j =
                register-Joined P seen s.shared.registry v.inv v.known req.pairing_name info
                  req.reconnect_token draw in
              on_registered-new ((req.pairing_name, info) ∷ seen) s.shared.registry _
                req.pairing_name info rx _ j.outcome (rw (e, after_read) at h)
          | inr (x, e) ↦ absurd (none-ne-some {a = rx} (rw (e, after_read) at h))
        ]
    after_read-new info draw read_failed rx h = absurd (none-ne-some h)
    after_read-new info draw read_elapsed rx h = absurd (none-ne-some h)

  after_write-heard :
      (s : Shared P (in_memory P)) (after : After P) (written : Bool) (rx : Receiver)
      → heard_local P (after_write P (in_memory P) s after written).1 ≡ some rx
      → heard_after P after ≡ some rx
  unfolding after_write
  after_write-heard s (await_peer info name token ry) true rx h = h
  after_write-heard s (await_peer info name token ry) false rx h = absurd (none-ne-some h)
  after_write-heard s finish true rx h = absurd (none-ne-some h)
  after_write-heard s succeed true rx h = absurd (none-ne-some h)
  after_write-heard s time_out true rx h = absurd (none-ne-some h)
  after_write-heard s finish false rx h = absurd (none-ne-some h)
  after_write-heard s succeed false rx h = absurd (none-ne-some h)
  after_write-heard s time_out false rx h = absurd (none-ne-some h)

  pub after_wait-heard :
      (s : Shared P (in_memory P)) (info : PeerConnectionData) (name : Name) (token : Uuid)
      (rx : Receiver) (outcome : WaitOutcome)
      → heard_local P (after_wait P (in_memory P) s info name token rx outcome).1 ≡ none
  unfolding after_wait
  after_wait-heard s info name token rx (notified peer) = refl
  after_wait-heard s info name token rx sender_dropped = refl
  after_wait-heard s info name token rx wait_elapsed = refl

  pub start-heard : (addr : SocketAddr) → heard_local P (start P addr) ≡ none
  unfolding start
  start-heard (v4 ip port) = refl
  start-heard (v6 ip port) = refl

  accept-Apart :
      (config : ServerConfig) (s : Service P config) (addr : SocketAddr)
      → Apart P s.tasks
      → Apart P (accept P (in_memory P) config s addr).tasks
  unfolding accept
  accept-Apart config s addr apart =
      elim (Bool-cases (leb config.max_connections s.shared.metrics.active_connections)) [
        | inl full ↦ rw full apart
        | inr room ↦ rw room (append-Apart P s.tasks addr apart)
      ]

  -- Every step keeps the connections apart.
  pub Step-Apart :
      (config : ServerConfig) (seen : Requests) {s t : Service P config}
      (step : ServiceStep P config s t)
      → IsActual P config step
      → Sound P config seen s
      → Apart P s.tasks
      → Apart P t.tasks
  unfolding begin_task end_task resume_task
  Step-Apart config seen (accepts s addr h) a v apart = accept-Apart config s addr apart
  Step-Apart config seen (shuts_down s) a v apart = apart
  Step-Apart config seen (cleans s registry) a v apart = apart
  Step-Apart config seen (begins s i addr h) a v apart =
      set-Apart P s.tasks i (running (start P addr)) (spawned addr) apart h
        (λ rx e. absurd (none-ne-some (sym (start-heard addr) ∙ e)))
  Step-Apart config seen (reads s i info draw outcome h) a v apart =
      set-Apart P s.tasks i _ (running (reading info)) apart h (λ rx e. inr (λ j task hj q.
        heard-made seen s.shared.registry rx task
          (All-get (TaskOk P seen s.shared.registry) s.tasks j v.tasks hj) q
          (after_read-new config seen s v info draw outcome rx e)))
  Step-Apart config seen (writes s i response after written h) a v apart =
      set-Apart P s.tasks i _ (running (writing response after)) apart h
        (λ rx e. inl (after_write-heard s.shared after written rx e))
  Step-Apart config seen (waits s i info name token rx outcome h) a v apart =
      set-Apart P s.tasks i _ (running (awaiting info name token rx)) apart h (λ ry e.
        absurd (none-ne-some (sym (after_wait-heard s.shared info name token rx outcome) ∙ e)))
  Step-Apart config seen (ends s i true h) a v apart =
      set-Apart P s.tasks i (ended true) (running (finished true)) apart h
        (λ rx e. absurd (none-ne-some e))
  Step-Apart config seen (ends s i false h) a v apart =
      set-Apart P s.tasks i (ended false) (running (finished false)) apart h
        (λ rx e. absurd (none-ne-some e))
