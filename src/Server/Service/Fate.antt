-- ===== src/Server/Service/Fate.antt =====
-- What becomes of a waiting connection whose channel has been sent the address of its peer
-- (server/rust/src/server.rs).
pub mod Others
pub mod Own
use tcpunch.Base.{
  ℕ, Name, Bool, true, false, List, [], ◌∷◌, ◌++◌, inl, inr, ◌≡◌, ◌≢◌, ◌⊎◌, ◌∙◌, refl, sym, ap,
  subst, Occurs, Occurs-append_right, some, get_elem?, set, get_elem?-set_ne, get_elem?-set_self,
  get_elem?-append_left, ℕ_discrete, Bool-cases, leb, ok, err,
}
use tcpunch.Base.Fallible.{Result-cases}
use tcpunch.Platform.{Platform, sent}
use tcpunch.Protocol.{PeerConnectionData, SocketAddr}
use tcpunch.Protocol.Request as Request
use tcpunch.Protocol.Response as Response
use tcpunch.Registry.InMemory.{InMemoryRegistry, Draw, cleanup_expired}
use tcpunch.Registry.InMemory.Invariant.{Inv}
use tcpunch.Registry.InMemory.Fade.{Shrinks-unregister, Shrinks-cleanup_expired}
use tcpunch.Server.{ServerConfig}
use tcpunch.Server.Accept.{
  System, Task, spawned, running, ended, LogEntry, wrote, accepts, shuts_down, begins, reads,
  writes, waits, ends, cleans, accept, begin_task, end_task, resume_task, read_log, write_log,
}
use tcpunch.Server.Connection.{
  Local, After, reading, writing, awaiting, finished, finish, succeed, time_out, await_peer, Shared,
  start, on_request, after_read, after_write, after_wait, ReadOutcome, received, read_failed,
  read_elapsed, WaitOutcome, notified, sender_dropped, wait_elapsed,
}
use tcpunch.Server.Meeting.{in_memory}
use tcpunch.Server.Service.{Service, ServiceStep, IsActual, Heeds, Run, here, next, Requests}
use tcpunch.Server.Service.Apart.{Apart}
use tcpunch.Server.Service.Listener.{hung_up}
use tcpunch.Server.Service.Sent.{sent-Shrinks, sent-hang_up, sent-register}
use tcpunch.Server.Service.Sound.{Sound}

module _ (P : Platform PeerConnectionData) where
  open P use {uuid.{Uuid}, oneshot.{Receiver, state}}

  module _ (config : ServerConfig) (i : ℕ) where
    -- The wait of the task does not run out of time.
    abbrev pub WaitsOn : {s t : Service P config} → ServiceStep P config s t → Type 0
    WaitsOn (waits s j info name token rx outcome h) = i ≡ j → outcome ≢ wait_elapsed
    WaitsOn (reads s j info draw outcome h) = Unit {0}
    WaitsOn (cleans s registry) = Unit {0}
    WaitsOn (accepts s addr h) = Unit {0}
    WaitsOn (shuts_down s) = Unit {0}
    WaitsOn (begins s j addr h) = Unit {0}
    WaitsOn (writes s j response after written h) = Unit {0}
    WaitsOn (ends s j success h) = Unit {0}

    abbrev pub IsInTime :
        {s : Service P config} {seen : Requests} {t : Service P config}
        → Run P config s seen t
        → Type 0
    IsInTime here = Unit {0}
    IsInTime (next run step a) = IsInTime run × WaitsOn step

    module _ (info : PeerConnectionData) (name : Name) (token : Uuid) (rx : Receiver)
        (p : PeerConnectionData) where
      abbrev pub good_news : Response.ServerResponse P.uuid
      good_news = Response.paired P.uuid info p token

      -- The task still listens to the channel, in which the address is; or it writes the response that
      -- tells the address; or it has written it and returned `Ok`; or the write has failed.
      pub data Fate (t : Service P config) : Type 0 where
        listens :
            get_elem? t.tasks i ≡ some (running (awaiting info name token rx))
            → state t.shared.registry.channels rx ≡ sent p
            → Fate t
        hears : get_elem? t.tasks i ≡ some (running (writing good_news succeed)) → Fate t
        was_told :
            (get_elem? t.tasks i ≡ some (running (finished true)))
              ⊎ (get_elem? t.tasks i ≡ some (ended true))
            → Occurs (wrote good_news) t.log
            → Fate t
        was_lost :
            (get_elem? t.tasks i ≡ some (running (finished false)))
              ⊎ (get_elem? t.tasks i ≡ some (ended false))
            → Fate t

      pub Fate-kept :
          (s t : Service P config)
          → ((task : Task P) → get_elem? s.tasks i ≡ some task → get_elem? t.tasks i ≡ some task)
          → (get_elem? s.tasks i ≡ some (running (awaiting info name token rx))
              → state s.shared.registry.channels rx ≡ sent p
              → state t.shared.registry.channels rx ≡ sent p)
          → ((x : LogEntry P) → Occurs x s.log → Occurs x t.log)
          → Fate s
          → Fate t
      Fate-kept s t tasks channels log (listens h c) = listens (tasks _ h) (channels h c)
      Fate-kept s t tasks channels log (hears h) = hears (tasks _ h)
      Fate-kept s t tasks channels log (was_told (inl h) w) = was_told (inl (tasks _ h)) (log _ w)
      Fate-kept s t tasks channels log (was_told (inr h) w) = was_told (inr (tasks _ h)) (log _ w)
      Fate-kept s t tasks channels log (was_lost (inl h)) = was_lost (inl (tasks _ h))
      Fate-kept s t tasks channels log (was_lost (inr h)) = was_lost (inr (tasks _ h))
