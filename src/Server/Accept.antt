-- ===== src/Server/Accept.antt =====
-- server/rust/src/server.rs: `run_server`, the accept loop, and the task that it spawns for each
-- connection. Tasks interleave at their `await` points: a schedule is a sequence of steps.
use tcpunch.Base.{
  ℕ, Bool, true, false, List, [], ◌∷◌, if◌then◌else◌, ◌≡◌, set, ◌++◌, get_elem?, leb, some, Name,
}
use tcpunch.Platform.{Platform}
use tcpunch.Protocol.{PeerConnectionData, SocketAddr}
use tcpunch.Protocol.Response as Response
use tcpunch.Server.{ServerConfig}
use tcpunch.Server.Metrics.{
  ServerMetrics, connection_started, connection_ended, error_occurred, no_metrics,
}
use tcpunch.Server.Connection.{
  RegistryOps, Local, After, reading, writing, awaiting, finished, Shared, start, after_read,
  after_write, after_wait, ReadOutcome, read_elapsed, WaitOutcome,
}

-- What the tasks have done so far: a response that was written, or a request that never came.
pub data LogEntry (P : Platform PeerConnectionData) : Type 0 where
  wrote : Response.ServerResponse P.uuid → LogEntry P
  unread : LogEntry P

module _ (P : Platform PeerConnectionData) where
  -- A task that has been spawned, that runs, or that has ended with `Ok` (true) or `Err` (false).
  pub data Task : Type 0 where
    spawned : SocketAddr → Task
    running : Local P → Task
    ended : Bool → Task

  module _ (G : RegistryOps P) where
    pub record System : Type 0 where
      pub shared : Shared P G
      pub tasks : List Task
      pub accepting : Bool
      pub log : List (LogEntry P)

    unfoldable pub run_server : G.State → System
    run_server registry = record {
      shared = record { registry = registry; metrics = no_metrics };
      tasks = [];
      accepting = true;
      log = [];
    }

    abbrev pub put_metrics : System → ServerMetrics → System
    put_metrics s m = record s { shared = record s.shared { metrics = m } }

    -- `Ok((stream, peer_addr))` of `accept`: over the limit the stream is dropped.
    unfoldable pub accept : ServerConfig → System → SocketAddr → System
    accept config s addr =
        if leb config.max_connections s.shared.metrics.active_connections
        then s
        else record s { tasks = s.tasks ++ spawned addr ∷ [] }

    -- The first lines of a spawned task.
    unfoldable pub begin_task : System → ℕ → SocketAddr → System
    begin_task s i addr = record (put_metrics s (connection_started s.shared.metrics)) {
      tasks = set s.tasks i (running (start P addr));
    }

    -- The last lines of a spawned task.
    unfoldable pub end_task : System → ℕ → (success : Bool) → System
    end_task s i true = record (put_metrics s (connection_ended s.shared.metrics)) {
      tasks = set s.tasks i (ended true);
    }
    end_task s i false =
        record (put_metrics s (connection_ended (error_occurred s.shared.metrics))) {
          tasks = set s.tasks i (ended false);
        }

    -- A running task goes on.
    unfoldable pub resume_task : System → ℕ → Shared P G × Local P → List (LogEntry P) → System
    resume_task s i x entries = record s {
      shared = x.0;
      tasks = set s.tasks i (running x.1);
      log = entries ++ s.log;
    }

    -- What a read leaves in the log.
    abbrev pub read_log : ReadOutcome → List (LogEntry P)
    read_log read_elapsed = unread ∷ []
    read_log _ = []

    abbrev pub write_log : Response.ServerResponse P.uuid → Bool → List (LogEntry P)
    write_log response true = wrote response ∷ []
    write_log response false = []

    pub data Step (config : ServerConfig) : System → System → Type 0 where
      accepts :
          (s : System) (addr : SocketAddr)
          → s.accepting ≡ true
          → Step config s (accept config s addr)
      shuts_down : (s : System) → Step config s (record s { accepting = false })
      begins :
          (s : System) (i : ℕ) (addr : SocketAddr)
          → get_elem? s.tasks i ≡ some (spawned addr)
          → Step config s (begin_task s i addr)
      reads :
          (s : System) (i : ℕ) (info : PeerConnectionData) (draw : G.Draw) (outcome : ReadOutcome)
          → get_elem? s.tasks i ≡ some (running (reading info))
          → Step config s
              (resume_task s i (after_read P G s.shared draw info outcome) (read_log outcome))
      writes :
          (s : System) (i : ℕ) (response : Response.ServerResponse P.uuid) (after : After P)
          (written : Bool)
          → get_elem? s.tasks i ≡ some (running (writing response after))
          → Step config s (
              resume_task s i (after_write P G s.shared after written) (write_log response written))
      waits :
          (s : System) (i : ℕ) (info : PeerConnectionData) (name : Name) (token : P.uuid.Uuid)
          (rx : P.oneshot.Receiver) (outcome : WaitOutcome)
          → get_elem? s.tasks i ≡ some (running (awaiting info name token rx))
          → Step config s (resume_task s i (after_wait P G s.shared info name token rx outcome) [])
      ends :
          (s : System) (i : ℕ) (success : Bool)
          → get_elem? s.tasks i ≡ some (running (finished success))
          → Step config s (end_task s i success)
      -- The cleanup task, or another server, changes the registry.
      cleans :
          (s : System) (registry : G.State)
          → Step config s (record s { shared = record s.shared { registry = registry } })

    pub data Reach (config : ServerConfig) (s : System) : System → Type 0 where
      here : Reach config s s
      next : {t u : System} → Reach config s t → Step config t u → Reach config s u
