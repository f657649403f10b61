-- ===== src/Server/Service/Partner.antt =====
-- A client whose peer has arrived, until its task has ended (server/rust/src/server.rs).
use tcpunch.Base.{
  ℕ, Name, Bool, true, false, ◌≡◌, ◌≢◌, ◌∙◌, refl, sym, ap, some, get_elem?, get_elem?-set_ne,
  ℕ_discrete, set,
}
use tcpunch.Platform.{Platform, sent}
use tcpunch.Protocol.{PeerConnectionData, SocketAddr}
use tcpunch.Registry.{RegistryConfig}
use tcpunch.Registry.InMemory.{InMemoryRegistry, new}
use tcpunch.Registry.InMemory.Fade.{Shrinks-cleanup_expired}
use tcpunch.Server.{ServerConfig}
use tcpunch.Server.Accept.{
  running, ended, Task, accepts, shuts_down, begins, reads, writes, waits, ends, cleans, run_server,
  begin_task, end_task,
}
use tcpunch.Server.Connection.{awaiting}
use tcpunch.Server.Meeting.{in_memory}
use tcpunch.Server.Service.{Service, ServiceStep, IsActual, Run, here, next, Requests}
use tcpunch.Server.Service.Apart.{Apart, heard_after}
use tcpunch.Server.Service.Apart.Steps.{Step-Apart}
use tcpunch.Server.Service.Fate.{WaitsOn, IsInTime, Fate, listens, Fate-kept}
use tcpunch.Server.Service.Fate.Others.{
  accept-Fate, other-Fate, after_read-sent, after_write-sent, after_wait-sent,
}
use tcpunch.Server.Service.Fate.Own.{
  self_write-Fate, self_wait-Fate, end_self-Fate, spawned-Fate, reading-Fate,
}
use tcpunch.Server.Service.Sent.{sent-Shrinks}
use tcpunch.Server.Service.Sound.{Sound}
use tcpunch.Server.Service.Truth.{Step-Sound, Run-Sound}

module _ (P : Platform PeerConnectionData) where
  open P use {uuid.{Uuid}, oneshot.{Channels, Receiver, state}}

  opened-Apart :
      (config : ServerConfig) (r : InMemoryRegistry P)
      → Apart P (run_server P (in_memory P) r).tasks
  unfolding run_server
  opened-Apart config r a b rx task task' ha hb qa qb = absurd (cc)

  pub Run-Apart :
      (config : ServerConfig) (rc : RegistryConfig) (cs : Channels) {seen : Requests}
      {s : Service P config}
      → Run P config (run_server P (in_memory P) (new P rc cs)) seen s
      → Apart P s.tasks
  Run-Apart config rc cs here = opened-Apart config (new P rc cs)
  Run-Apart config rc cs (next {seen} run step a) =
      Step-Apart P config seen step a (Run-Sound P config rc cs run) (Run-Apart config rc cs run)

  module _ (config : ServerConfig) (i : ℕ) (info : PeerConnectionData) (name : Name) (token : Uuid)
      (rx : Receiver) (p : PeerConnectionData) where
    set-Fate :
        (s t : Service P config) (j : ℕ) (task : Task P)
        → j ≢ i
        → t.tasks ≡ set s.tasks j task
        → t.shared.registry ≡ s.shared.registry
        → t.log ≡ s.log
        → Fate P config i info name token rx p s
        → Fate P config i info name token rx p t
    set-Fate s t j task ne tasks registry log f =
        Fate-kept P config i info name token rx p s t
          (λ x h. rw (tasks, get_elem?-set_ne s.tasks j i task ne) h) (λ _ c. rw registry c)
          (λ x h. rw log h) f

    end-Fate :
        (s : Service P config) (j : ℕ) (success : Bool)
        → j ≢ i
        → Fate P config i info name token rx p s
        → Fate P config i info name token rx p (end_task P (in_memory P) s j success)
    unfolding end_task
    end-Fate s j true ne f = set-Fate s _ j (ended true) ne refl refl refl f
    end-Fate s j false ne f = set-Fate s _ j (ended false) ne refl refl refl f

    begin-Fate :
        (s : Service P config) (j : ℕ) (addr : SocketAddr)
        → j ≢ i
        → Fate P config i info name token rx p s
        → Fate P config i info name token rx p (begin_task P (in_memory P) s j addr)
    unfolding begin_task
    begin-Fate s j addr ne f = set-Fate s _ j _ ne refl refl refl f

    Step-Fate :
        (seen : Requests) {s t : Service P config} (step : ServiceStep P config s t)
        → IsActual P config step
        → WaitsOn P config i step
        → Sound P config seen s
        → Apart P s.tasks
        → Fate P config i info name token rx p s
        → Fate P config i info name token rx p t
    Step-Fate seen (accepts s addr h) a d v apart f =
        accept-Fate P config i info name token rx p s addr f
    Step-Fate seen (shuts_down s) a d v apart f =
        Fate-kept P config i info name token rx p s _ (λ task h. h) (λ _ c. c) (λ x h. h) f
    Step-Fate seen (cleans s registry) (now, same) d v apart f =
        Fate-kept P config i info name token rx p s _ (λ task h. h)
          (λ _ c. rw same (
            sent-Shrinks P rx p s.shared.registry _
              (Shrinks-cleanup_expired P s.shared.registry now) c))
          (λ x h. h) f
    Step-Fate seen (begins s j addr h) a d v apart f = elim (ℕ_discrete j i) [
      | yes e ↦ spawned-Fate P config i info name token rx p s addr (rw e at h) f
      | no ne ↦ begin-Fate s j addr ne f
    ]
    Step-Fate seen (reads s j other draw outcome h) a d v apart f = elim (ℕ_discrete j i) [
      | yes e ↦ reading-Fate P config i info name token rx p s other (rw e at h) f
      | no ne ↦
          other-Fate P config i info name token rx p s j _ _ ne
            (λ _ c.
              after_read-sent P config i info name token rx p s.shared v.inv other draw outcome c)
            f
    ]
    Step-Fate seen (writes s j response after written h) a d v apart f = elim (ℕ_discrete j i) [
      | yes e ↦
          rw e
            (self_write-Fate P config i info name token rx p s response after written (rw e at h) f)
      | no ne ↦
          other-Fate P config i info name token rx p s j _ _ ne
            (λ k c.
              after_write-sent P config i info name token rx p s.shared after written
                (λ o n t ry e q. ne (apart j i rx _ _ h k (ap (heard_after P) e ∙ ap some q) refl))
                c)
            f
    ]
    Step-Fate seen (waits s j other n t ry outcome h) a d v apart f = elim (ℕ_discrete j i) [
      | yes e ↦ rw e (
          self_wait-Fate P config i info name token rx p s other n t ry outcome (rw e at h) a
            (d (sym e)) f)
      | no ne ↦
          other-Fate P config i info name token rx p s j _ _ ne
            (λ k c.
              after_wait-sent P config i info name token rx p s.shared other n t ry outcome
                (λ q. ne (apart j i rx _ _ h k (ap some q) refl)) c)
            f
    ]
    Step-Fate seen (ends s j success h) a d v apart f = elim (ℕ_discrete j i) [
      | yes e ↦ rw e (end_self-Fate P config i info name token rx p s success (rw e at h) f)
      | no ne ↦ end-Fate s j success ne f
    ]

    -- A run that goes on from where another has come.
    Run-Fate :
        (seen : Requests) {s : Service P config} {seen' : Requests} {t : Service P config}
        → Sound P config seen s
        → Apart P s.tasks
        → Fate P config i info name token rx p s
        → (run : Run P config s seen' t) → IsInTime P config i run
        → ((all : Requests) × Sound P config all t)
          × Apart P t.tasks
          × Fate P config i info name token rx p t
    Run-Fate seen v apart f here d = ((seen, v), apart, f)
    Run-Fate seen v apart f (next run step a) (d, w) =
        let ((all, v'), apart', f') = Run-Fate seen v apart f run d in
        (
          (_, Step-Sound P config all step a v'),
          Step-Apart P config all step a v' apart',
          Step-Fate all step a w v' apart' f',
        )

    -- A waiting client whose peer has arrived is told so. In any run of a server with its own new
    -- in-memory registry, in which waits end as their channels say, the registry changes by the calls of
    -- the connections and by the cleanup only, and each fresh token is one that the index does not know:
    -- from where task `i` waits for a peer and an address has been sent to its channel, however the run
    -- goes on, the wait of the task not running out of time, the task still waits with the address in its
    -- channel, or writes the response with just this address, or has written it and returned `Ok`, or has
    -- failed to write it.
    pub partner_told :
        (rc : RegistryConfig) (cs : Channels) {seen seen' : Requests} {s t : Service P config}
        → Run P config (run_server P (in_memory P) (new P rc cs)) seen s
        → get_elem? s.tasks i ≡ some (running (awaiting info name token rx))
        → state s.shared.registry.channels rx ≡ sent p
        → (run : Run P config s seen' t) → IsInTime P config i run
        → Fate P config i info name token rx p t
    partner_told rc cs {seen} before h c run d =
        let (sound, apart, f) =
          Run-Fate seen (Run-Sound P config rc cs before) (Run-Apart config rc cs before)
            (listens h c) run d in
        f
