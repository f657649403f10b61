-- ===== src/Server/Progress.antt =====
-- How many steps the tasks of the server can take (server/rust/src/server.rs).
use tcpunch.Base.Fallible.{Result-cases}
use tcpunch.Base.{
  ℕ, ◌+◌, ◌*◌, ◌<◌, ◌≤◌, ◌≡◌, [], ◌∷◌, some, ok, err, true, false, Bool, get_elem?, set, total,
  arith, total-append, total-set, Name, Result, inl, inr, Bool-cases, leb,
}
use tcpunch.Platform.{Platform}
use tcpunch.Protocol.{PeerConnectionData, SocketAddr, v4, v6}
use tcpunch.Protocol.Request as Request
use tcpunch.Registry.{RegistrationResult, RegistryError, waiting, paired, resumed}
use tcpunch.Server.{ServerConfig}
use tcpunch.Server.Connection.{
  RegistryOps, Local, reading, writing, awaiting, finished, After, finish, succeed, time_out,
  await_peer, Shared, start, on_registered, on_request, after_read, after_write, after_wait,
  ReadOutcome, received, read_failed, read_elapsed, WaitOutcome, notified, sender_dropped,
  wait_elapsed,
}
use tcpunch.Server.Accept.{
  System, Task, spawned, running, ended, accept, begin_task, end_task, resume_task, Step, accepts,
  shuts_down, begins, reads, writes, waits, ends, cleans, Reach, here, next,
}

module _ (P : Platform PeerConnectionData) where
  -- How many more steps a task can take.
  abbrev pub left_after : After P → ℕ
  left_after (await_peer info name token rx) = 3
  left_after finish = 1
  left_after succeed = 1
  left_after time_out = 1

  abbrev pub left_local : Local P → ℕ
  left_local (reading info) = 5
  left_local (writing response after) = 1 + left_after after
  left_local (awaiting info name token rx) = 3
  left_local (finished success) = 1

  abbrev pub left : Task P → ℕ
  left (spawned addr) = 6
  left (running l) = left_local l
  left (ended success) = 0

  left-start : (addr : SocketAddr) → left_local (start P addr) < 6
  unfolding start
  left-start (v4 ip port) = omega arith
  left-start (v6 ip port) = omega arith

  left-on_registered :
      (info : PeerConnectionData) (name : Name)
      (result : Result (RegistrationResult P) RegistryError)
      → left_local (on_registered P info name result) < 5
  unfolding on_registered
  left-on_registered info name (ok (paired token peer)) = omega arith
  left-on_registered info name (ok (waiting token rx)) = omega arith
  left-on_registered info name (ok (resumed token rx)) = omega arith
  left-on_registered info name (err e) = omega arith

  module _ (G : RegistryOps P) where
    left-after_read :
        (s : Shared P G) (draw : G.Draw) (info : PeerConnectionData) (outcome : ReadOutcome)
        → left_local (after_read P G s draw info outcome).1 < 5
    unfolding after_read on_request
    left-after_read s draw info (received bytes) =
        elim (Result-cases (Request.from_bytes P.uuid bytes)) [
          | inl (req, e) ↦
              rw (e, after_read)
                (left-on_registered info req.pairing_name
                  (G.register s.registry req.pairing_name info req.reconnect_token draw).1)
          | inr (x, e) ↦ rw (e, after_read) (omega arith)
        ]
    left-after_read s draw info read_failed = omega arith
    left-after_read s draw info read_elapsed = omega arith

    left-after_write :
        (s : Shared P G) (after : After P) (written : Bool)
        → left_local (after_write P G s after written).1 ≤ left_after after
    unfolding after_write
    left-after_write s finish true = omega arith
    left-after_write s succeed true = omega arith
    left-after_write s time_out true = omega arith
    left-after_write s (await_peer info name token rx) true = omega arith
    left-after_write s finish false = omega arith
    left-after_write s succeed false = omega arith
    left-after_write s time_out false = omega arith
    left-after_write s (await_peer info name token rx) false = omega arith

    left-after_wait :
        (s : Shared P G) (info : PeerConnectionData) (name : Name) (token : P.uuid.Uuid)
        (rx : P.oneshot.Receiver) (outcome : WaitOutcome)
        → left_local (after_wait P G s info name token rx outcome).1 < 3
    unfolding after_wait
    left-after_wait s info name token rx (notified peer) = omega arith
    left-after_wait s info name token rx sender_dropped = omega arith
    left-after_wait s info name token rx wait_elapsed = omega arith

    module _ (config : ServerConfig) where
      -- The steps of a schedule that tasks take, and the connections that it accepts.
      abbrev pub is_task_step : {s t : System P G} → Step P G config s t → ℕ
      is_task_step (begins s i addr h) = 1
      is_task_step (reads s i info draw outcome h) = 1
      is_task_step (writes s i response after written h) = 1
      is_task_step (waits s i info name token rx outcome h) = 1
      is_task_step (ends s i success h) = 1
      is_task_step (accepts s addr h) = 0
      is_task_step (shuts_down s) = 0
      is_task_step (cleans s registry) = 0

      abbrev pub is_accept : {s t : System P G} → Step P G config s t → ℕ
      is_accept (accepts s addr h) = 1
      is_accept _ = 0

      abbrev pub task_steps : {s t : System P G} → Reach P G config s t → ℕ
      task_steps here = 0
      task_steps (next r step) = is_task_step step + task_steps r

      abbrev pub accepted : {s t : System P G} → Reach P G config s t → ℕ
      accepted here = 0
      accepted (next r step) = is_accept step + accepted r

      move :
          (s : System P G) (i : ℕ) (old new : Task P)
          → get_elem? s.tasks i ≡ some old
          → left new < left old
          → 1 + total left (set s.tasks i new) ≤ total left s.tasks
      move s i old new h less = omega (arith, total-set left s.tasks i new h)

      Step-left :
          {s t : System P G} (step : Step P G config s t)
          → is_task_step step + total left t.tasks ≤ total left s.tasks + 6 * is_accept step
      unfolding accept begin_task end_task resume_task
      Step-left (accepts s addr h) =
          elim (Bool-cases (leb config.max_connections s.shared.metrics.active_connections)) [
            | inl full ↦ rw full (omega arith)
            | inr room ↦ rw room (omega (arith, total-append left s.tasks (spawned addr ∷ [])))
          ]
      Step-left (shuts_down s) = omega arith
      Step-left (cleans s registry) = omega arith
      Step-left (begins s i addr h) =
          omega (arith, move s i _ (running (start P addr)) h (left-start addr))
      Step-left (reads s i info draw outcome h) = omega (
        arith,
        move s i _ (running (after_read P G s.shared draw info outcome).1) h
            (left-after_read s.shared draw info outcome),
      )
      Step-left (writes s i response after written h) = omega (
        arith,
        move s i _ (running (after_write P G s.shared after written).1) h
            (omega (arith, left-after_write s.shared after written)),
      )
      Step-left (waits s i info name token rx outcome h) = omega (
        arith,
        move s i _ (running (after_wait P G s.shared info name token rx outcome).1) h
            (left-after_wait s.shared info name token rx outcome),
      )
      Step-left (ends s i true h) = omega (arith, move s i _ (ended true) h (omega arith))
      Step-left (ends s i false h) = omega (arith, move s i _ (ended false) h (omega arith))

      -- In every schedule, the tasks take at most six steps for each connection accepted, beside those
      -- that the tasks of its first state have left; what the tasks of its last state have left is
      -- saved. This bounds the number of steps only: when a step is taken, if ever, is up to the
      -- network and the locks of the registry.
      pub task_steps_bounded :
          {s t : System P G} (schedule : Reach P G config s t)
          → task_steps schedule + total left t.tasks ≤ total left s.tasks + 6 * accepted schedule
      task_steps_bounded here = omega arith
      task_steps_bounded (next r step) = omega (arith, task_steps_bounded r, Step-left step)
