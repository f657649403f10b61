-- ===== src/Server/Service/Apart.antt =====
-- No two connections listen to one channel (server/rust/src/server.rs).
pub mod Steps
use tcpunch.Base.Fallible.{Result-cases}
use tcpunch.Base.{
  ℕ, Name, Bool, true, false, List, [], ◌∷◌, ◌++◌, Option, none, some, ok, err, inl, inr, ◌≡◌, ◌≢◌,
  ◌⊎◌, ◌∙◌, refl, sym, ap, subst, Result, get_elem?, set, get_elem?-set_cases,
  get_elem?-append_cases, All-get, none-ne-some, some-injective, Bool-cases, leb,
}
use tcpunch.Platform.{Platform, unissued}
use tcpunch.Protocol.{PeerConnectionData, SocketAddr, v4, v6}
use tcpunch.Protocol.Request as Request
use tcpunch.Registry.{RegistrationResult, RegistryError, waiting, paired, resumed}
use tcpunch.Registry.InMemory.{InMemoryRegistry, Draw}
use tcpunch.Server.{ServerConfig}
use tcpunch.Server.Accept.{
  System, Task, spawned, running, ended, accepts, shuts_down, begins, reads, writes, waits, ends,
  cleans, accept, begin_task, end_task, resume_task,
}
use tcpunch.Server.Connection.{
  Local, After, reading, writing, awaiting, finished, finish, succeed, time_out, await_peer, Shared,
  start, on_registered, on_request, after_read, after_write, after_wait, ReadOutcome, received,
  read_failed, read_elapsed, WaitOutcome, notified, sender_dropped, wait_elapsed,
}
use tcpunch.Server.Meeting.{in_memory}
use tcpunch.Server.Service.{Requests, Service, ServiceStep, IsActual}
use tcpunch.Server.Service.Inserting.{Outcome}
use tcpunch.Server.Service.Sound.{TaskOk, Sound}

module _ (P : Platform PeerConnectionData) where
  open P use {uuid.{Uuid}, oneshot.{Receiver, state}}

  abbrev pub heard_after : After P → Option Receiver
  heard_after (await_peer info name token rx) = some rx
  heard_after finish = none
  heard_after succeed = none
  heard_after time_out = none

  abbrev pub heard_local : Local P → Option Receiver
  heard_local (awaiting info name token rx) = some rx
  heard_local (writing response after) = heard_after after
  heard_local (reading info) = none
  heard_local (finished success) = none

  -- The channel that a task listens to, or will once its response is written.
  abbrev pub heard_at : Task P → Option Receiver
  heard_at (running l) = heard_local l
  heard_at (spawned addr) = none
  heard_at (ended success) = none

  abbrev pub Apart : List (Task P) → Type 0
  Apart tasks =
      (i j : ℕ) (rx : Receiver) (task task' : Task P)
      → get_elem? tasks i ≡ some task
      → get_elem? tasks j ≡ some task'
      → heard_at task ≡ some rx
      → heard_at task' ≡ some rx
      → i ≡ j

  -- A task that goes on listens to its channel, to none, or to one that no task listens to.
  pub set-Apart :
      (tasks : List (Task P)) (i : ℕ) (new old : Task P)
      → Apart tasks
      → get_elem? tasks i ≡ some old
      → ((rx : Receiver)
          → heard_at new ≡ some rx
          → (heard_at old ≡ some rx)
            ⊎ ((j : ℕ) (task : Task P) → get_elem? tasks j ≡ some task → heard_at task ≢ some rx))
      → Apart (set tasks i new)
  set-Apart tasks i new old apart at h a b rx task task' ha hb qa qb =
      elim (get_elem?-set_cases tasks i a new task ha) [
        | inl (ea, na) ↦ elim (get_elem?-set_cases tasks i b new task' hb) [
          | inl (eb, nb) ↦ sym ea ∙ eb
          | inr (neb, hb') ↦ sym ea ∙ one b task' hb' qb (ap heard_at na ∙ qa)
        ]
        | inr (nea, ha') ↦ elim (get_elem?-set_cases tasks i b new task' hb) [
          | inl (eb, nb) ↦ sym (one a task ha' qa (ap heard_at nb ∙ qb)) ∙ eb
          | inr (neb, hb') ↦ apart a b rx task task' ha' hb' qa qb
        ]
      ]
    where
      one :
          (j : ℕ) (other : Task P)
          → get_elem? tasks j ≡ some other
          → heard_at other ≡ some rx
          → heard_at new ≡ some rx
          → i ≡ j
      one j other hj qj qn = elim (h rx qn) [
        | inl same ↦ apart i j rx old other at hj same qj
        | inr fresh ↦ absurd (fresh j other hj qj)
      ]

  pub append-Apart :
      (tasks : List (Task P)) (addr : SocketAddr) → Apart tasks → Apart (tasks ++ spawned addr ∷ [])
  append-Apart tasks addr apart a b rx task task' ha hb qa qb =
      elim (get_elem?-append_cases tasks (spawned addr) a task ha) [
        | inl ha' ↦ elim (get_elem?-append_cases tasks (spawned addr) b task' hb) [
          | inl hb' ↦ apart a b rx task task' ha' hb' qa qb
          | inr e ↦ absurd (none-ne-some (ap heard_at e ∙ qb))
        ]
        | inr e ↦ absurd (none-ne-some (ap heard_at e ∙ qa))
      ]
