-- ===== src/Server/Counts.antt =====
-- The metrics of the server count what its connections did (server/rust/src/server.rs).
use tcpunch.Base.{
  ℕ, true, false, List, some, refl, ok, err, ◌≡◌, Name, ◌%◌, ◌+◌, arith, Result, total, All, set,
  get_elem?, total-set, ◌∙◌, total-append, All-set,
}
use tcpunch.Platform.{Platform}
use tcpunch.Protocol.{PeerConnectionData, PairingStatus, SocketAddr, v4, v6}
use tcpunch.Protocol.Response as Response
use tcpunch.Registry.{RegistrationResult, RegistryError, waiting, paired, resumed}
use tcpunch.Server.Metrics.{word, fetch_add_one, fetch_sub_one}
use tcpunch.Server.Connection.{
  RegistryOps, Local, After, reading, writing, awaiting, finished, finish, succeed, time_out,
  await_peer, Shared, start, on_registered,
}
use tcpunch.Server.Accept.{
  System, Task, spawned, running, ended, LogEntry, wrote, unread, resume_task,
}

pub fetch_add_one-mod : (n : ℕ) → fetch_add_one (n % word) ≡ (n + 1) % word
unfolding fetch_add_one
fetch_add_one-mod n = omega arith

pub fetch_sub_one-mod : (n : ℕ) → fetch_sub_one ((n + 1) % word) ≡ n % word
unfolding fetch_sub_one
fetch_sub_one-mod n = omega arith

abbrev pub is_paired : PairingStatus → ℕ
is_paired PairingStatus.paired = 1
is_paired _ = 0

abbrev pub is_timeout : PairingStatus → ℕ
is_timeout PairingStatus.timeout = 1
is_timeout _ = 0

module _ (P : Platform PeerConnectionData) where
  -- A task counts as live while it runs, as begun from then on, and as failed if it ended in `Err`.
  abbrev pub live : Task P → ℕ
  live (spawned addr) = 0
  live (running l) = 1
  live (ended success) = 0

  abbrev pub begun : Task P → ℕ
  begun (spawned addr) = 0
  begun (running l) = 1
  begun (ended success) = 1

  abbrev pub failed : Task P → ℕ
  failed (spawned addr) = 0
  failed (running l) = 0
  failed (ended true) = 0
  failed (ended false) = 1

  -- A log entry counts as a pairing, or as a timeout.
  abbrev pub pairing : LogEntry P → ℕ
  pairing (wrote r) = is_paired r.status
  pairing unread = 0

  abbrev pub timeout : LogEntry P → ℕ
  timeout (wrote r) = is_timeout r.status
  timeout unread = 1

  abbrev pub succeeds : After P → ℕ
  succeeds succeed = 1
  succeeds finish = 0
  succeeds time_out = 0
  succeeds (await_peer info name token rx) = 0

  abbrev pub times_out : After P → ℕ
  times_out time_out = 1
  times_out finish = 0
  times_out succeed = 0
  times_out (await_peer info name token rx) = 0

  -- What follows a response fits its status.
  abbrev pub IsCoherentLocal : Local P → Type 0
  IsCoherentLocal (writing r after) =
      (is_paired r.status ≡ succeeds after) × (is_timeout r.status ≡ times_out after)
  IsCoherentLocal (reading info) = Unit
  IsCoherentLocal (awaiting info name token rx) = Unit
  IsCoherentLocal (finished success) = Unit

  abbrev pub IsCoherent : Task P → Type 0
  IsCoherent (running l) = IsCoherentLocal l
  IsCoherent (spawned addr) = Unit
  IsCoherent (ended success) = Unit

  pub start-IsCoherentLocal : (addr : SocketAddr) → IsCoherentLocal (start P addr)
  unfolding start Response.error
  start-IsCoherentLocal (v4 ip port) = tt
  start-IsCoherentLocal (v6 ip port) = (refl, refl)

  pub on_registered-IsCoherentLocal :
      (info : PeerConnectionData) (name : Name)
      (result : Result (RegistrationResult P) RegistryError)
      → IsCoherentLocal (on_registered P info name result)
  unfolding on_registered Response.paired Response.waiting Response.error
  on_registered-IsCoherentLocal info name (ok (paired token peer)) = (refl, refl)
  on_registered-IsCoherentLocal info name (ok (waiting token rx)) = (refl, refl)
  on_registered-IsCoherentLocal info name (ok (resumed token rx)) = (refl, refl)
  on_registered-IsCoherentLocal info name (err e) = (refl, refl)

  module _ (G : RegistryOps P) where
    pub record Counted (s : System P G) : Type 0 where
      pub active : s.shared.metrics.active_connections ≡ total live s.tasks % word
      pub started : s.shared.metrics.total_connections ≡ total begun s.tasks % word
      pub pairings : s.shared.metrics.successful_pairings ≡ total pairing s.log % word
      pub timed_out : s.shared.metrics.timeouts ≡ total timeout s.log % word
      pub errors : s.shared.metrics.errors ≡ total failed s.tasks % word
      pub coherent : All IsCoherent s.tasks

    -- Moving a running task to another running state changes no count of tasks.
    abbrev pub IsRunning : List (Task P) → ℕ → Type 0
    IsRunning tasks i = (l : Local P) × (get_elem? tasks i ≡ some (running l))

    pub total-run :
        (tasks : List (Task P)) (i : ℕ) (l : Local P)
        → IsRunning tasks i
        → (total live (set tasks i (running l)) ≡ total live tasks)
          × (total begun (set tasks i (running l)) ≡ total begun tasks)
          × (total failed (set tasks i (running l)) ≡ total failed tasks)
    total-run tasks i l (k, h) = (
      omega (arith, total-set live tasks i (running l) h),
      omega (arith, total-set begun tasks i (running l) h),
      omega (arith, total-set failed tasks i (running l) h),
    )

    -- A task goes on, the counters of pairings and timeouts go up by what it adds to the log.
    pub resume_task-Counted :
        (s : System P G) (i : ℕ) (x : Shared P G × Local P) (entries : List (LogEntry P))
        → Counted s
        → IsRunning s.tasks i
        → IsCoherentLocal x.1
        → x.0.metrics.active_connections ≡ s.shared.metrics.active_connections
        → x.0.metrics.total_connections ≡ s.shared.metrics.total_connections
        → x.0.metrics.errors ≡ s.shared.metrics.errors
        → x.0.metrics.successful_pairings ≡ (total pairing entries + total pairing s.log) % word
        → x.0.metrics.timeouts ≡ (total timeout entries + total timeout s.log) % word
        → Counted (resume_task P G s i x entries)
    unfolding resume_task
    resume_task-Counted s i x entries c h coh ha ht he hp hto =
        let (el, eb, ef) = total-run s.tasks i x.1 h in
        record {
          active = rw el (ha ∙ c.active);
          started = rw eb (ht ∙ c.started);
          errors = rw ef (he ∙ c.errors);
          pairings = rw (total-append pairing entries s.log) hp;
          timed_out = rw (total-append timeout entries s.log) hto;
          coherent = All-set IsCoherent s.tasks i c.coherent coh;
        }
