-- ===== src/Server/Service/Sound.antt =====
-- What the tasks of the server know of one another (server/rust/src/server.rs and registry.rs).
pub mod Steps
use tcpunch.Base.Fallible.{Result-cases}
use tcpunch.Base.{
  ℕ, Name, Bool, true, false, List, [], ◌∷◌, ◌++◌, Option, Option-cases, none, some, ok, err, inl,
  inr, ◌≡◌, refl, sym, ap, subst, Occurs, Occurs-append_right, All, All-append, All-get, All-set,
  All-weaken, Result, get_elem?, set, none-ne-some, some-injective, Bool-cases, leb,
}
use tcpunch.Platform.{Platform}
use tcpunch.Protocol.{PeerConnectionData, SocketAddr, v4, v6}
use tcpunch.Protocol.Request as Request
use tcpunch.Protocol.Response as Response
use tcpunch.Registry.{RegistryConfig, RegistrationResult, RegistryError, waiting, paired, resumed}
use tcpunch.Registry.InMemory.{InMemoryRegistry, Draw, new, register, unregister, pairing_map}
use tcpunch.Registry.InMemory.Invariant.{Inv, new-Inv}
use tcpunch.Registry.InMemory.Register.{register-Inv, unregister-Inv}
use tcpunch.Registry.InMemory.Cleanup.{cleanup_expired-Inv}
use tcpunch.Registry.InMemory.Fade.{Shrinks-unregister, Shrinks-cleanup_expired}
use tcpunch.Registry.InMemory.History as History
use tcpunch.Server.{ServerConfig}
use tcpunch.Server.Accept.{
  System, Task, spawned, running, ended, LogEntry, wrote, unread, Step, accepts, shuts_down, begins,
  reads, writes, waits, ends, cleans, accept, begin_task, end_task, resume_task, run_server,
  read_log, write_log,
}
use tcpunch.Server.Connection.{
  Local, After, reading, writing, awaiting, finished, finish, succeed, time_out, await_peer, Shared,
  start, on_registered, on_request, after_read, after_write, after_wait, ReadOutcome, received,
  read_failed, read_elapsed, WaitOutcome, notified, sender_dropped, wait_elapsed,
}
use tcpunch.Server.Meeting.{in_memory}
use tcpunch.Server.Service.{
  Requests, Service, ServiceStep, IsActual, requested, request_of, Run, here, next, Heeds,
}
use tcpunch.Server.Service.Listener.{
  Entries, Listener, Subsides, Entries-Subsides, Listener-Subsides, Subsides-Shrinks,
  Subsides-hang_up, Subsides-refl, hung_up,
}
use tcpunch.Server.Service.Inserting.{Joined, Outcome}

module _ (P : Platform PeerConnectionData) where
  open P use {uuid.{Uuid}, oneshot.{Channels, Receiver}}

  -- A response that tells a peer is to a client that has asked for the peer's name, as the peer has.
  abbrev pub IsTruthful : Requests → Response.ServerResponse P.uuid → Type 0
  IsTruthful seen response =
      (peer : PeerConnectionData)
      → response.peer_info ≡ some peer
      → (name : Name) × Occurs (name, response.your_info) seen × Occurs (name, peer) seen

  abbrev pub AfterOk : Requests → InMemoryRegistry P → After P → Type 0
  AfterOk seen r (await_peer info name token rx) = Listener P seen r name info rx
  AfterOk seen r finish = Unit {0}
  AfterOk seen r succeed = Unit {0}
  AfterOk seen r time_out = Unit {0}

  abbrev pub LocalOk : Requests → InMemoryRegistry P → Local P → Type 0
  LocalOk seen r (awaiting info name token rx) = Listener P seen r name info rx
  LocalOk seen r (writing response after) = IsTruthful seen response × AfterOk seen r after
  LocalOk seen r (reading info) = Unit {0}
  LocalOk seen r (finished success) = Unit {0}

  abbrev pub TaskOk : Requests → InMemoryRegistry P → Task P → Type 0
  TaskOk seen r (running l) = LocalOk seen r l
  TaskOk seen r (spawned addr) = Unit {0}
  TaskOk seen r (ended success) = Unit {0}

  abbrev pub IsTruthfulEntry : Requests → LogEntry P → Type 0
  IsTruthfulEntry seen (wrote response) = IsTruthful seen response
  IsTruthfulEntry seen unread = Unit {0}

  -- What a step keeps.
  pub record Moves (seen : Requests) (r : InMemoryRegistry P) (seen' : Requests)
      (r' : InMemoryRegistry P) : Type 0 where
    pub grows : (x : Name × PeerConnectionData) → Occurs x seen → Occurs x seen'
    pub listeners :
        (n : Name) (i : PeerConnectionData) (rx : Receiver)
        → Listener P seen r n i rx
        → Listener P seen' r' n i rx

  module _ {seen : Requests} {r : InMemoryRegistry P} {seen' : Requests} {r' : InMemoryRegistry P}
      (m : Moves seen r seen' r') where
    pub IsTruthful-grows :
        (response : Response.ServerResponse P.uuid)
        → IsTruthful seen response
        → IsTruthful seen' response
    IsTruthful-grows response h peer e =
        let (name, own, other) = h peer e in (name, m.grows _ own, m.grows _ other)

    AfterOk-Moves : (after : After P) → AfterOk seen r after → AfterOk seen' r' after
    AfterOk-Moves (await_peer info name token rx) h = m.listeners name info rx h
    AfterOk-Moves finish h = tt
    AfterOk-Moves succeed h = tt
    AfterOk-Moves time_out h = tt

    pub TaskOk-Moves : (task : Task P) → TaskOk seen r task → TaskOk seen' r' task
    TaskOk-Moves (running (awaiting info name token rx)) h = m.listeners name info rx h
    TaskOk-Moves (running (writing response after)) (h, k) =
        (IsTruthful-grows response h, AfterOk-Moves after k)
    TaskOk-Moves (running (reading info)) h = tt
    TaskOk-Moves (running (finished success)) h = tt
    TaskOk-Moves (spawned addr) h = tt
    TaskOk-Moves (ended success) h = tt

    pub IsTruthfulEntry-grows :
        (entry : LogEntry P) → IsTruthfulEntry seen entry → IsTruthfulEntry seen' entry
    IsTruthfulEntry-grows (wrote response) h = IsTruthful-grows response h
    IsTruthfulEntry-grows unread h = tt

  pub Moves-Subsides :
      {seen : Requests} {r : InMemoryRegistry P} {seen' : Requests} {r' : InMemoryRegistry P}
      → Subsides P seen r seen' r'
      → Moves seen r seen' r'
  Moves-Subsides c = record { grows = c.grows; listeners = λ n i rx l. Listener-Subsides P c l }

  module _ (config : ServerConfig) where
    pub record Sound (seen : Requests) (s : Service P config) : Type 0 where
      pub inv : Inv P s.shared.registry
      pub known : Entries P seen s.shared.registry
      pub tasks : All (TaskOk seen s.shared.registry) s.tasks
      pub log : All (IsTruthfulEntry seen) s.log

    -- A task goes on.
    pub resume_task-Sound :
        (seen seen' : Requests) (s : Service P config) (i : ℕ)
        (x : Shared P (in_memory P) × Local P) (entries : List (LogEntry P))
        → Sound seen s
        → Inv P x.0.registry
        → Entries P seen' x.0.registry
        → Moves seen s.shared.registry seen' x.0.registry
        → LocalOk seen' x.0.registry x.1
        → All (IsTruthfulEntry seen') entries
        → Sound seen' (resume_task P (in_memory P) s i x entries)
    unfolding resume_task
    resume_task-Sound seen seen' s i x entries v inv known m h told = record {
      inv = inv;
      known = known;
      tasks =
          All-set (TaskOk seen' x.0.registry) s.tasks i
            (All-weaken (TaskOk seen s.shared.registry) (TaskOk seen' x.0.registry) (TaskOk-Moves m)
              s.tasks v.tasks)
            h;
      log = All-append (IsTruthfulEntry seen') entries s.log told (
          All-weaken (IsTruthfulEntry seen) (IsTruthfulEntry seen') (IsTruthfulEntry-grows m) s.log
            v.log);
    }
