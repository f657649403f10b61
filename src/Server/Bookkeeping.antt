-- ===== src/Server/Bookkeeping.antt =====
-- Every step of the server keeps its metrics right (server/rust/src/server.rs).
use tcpunch.Base.Fallible.{Result-cases}
use tcpunch.Base.{
  ℕ, Bool, true, false, [], ◌∷◌, some, refl, ◌≡◌, get_elem?, total, inl, inr, ◌+◌, arith, ap, ◌∙◌,
  ◌%◌, Name, All-get,
}
use tcpunch.Platform.{Platform}
use tcpunch.Protocol.{PeerConnectionData}
use tcpunch.Protocol.Request as Request
use tcpunch.Protocol.Response as Response
use tcpunch.Server.{ServerConfig}
use tcpunch.Server.Metrics.{word, fetch_add_one, pairing_succeeded, timeout_occurred, no_metrics}
use tcpunch.Server.Connection.{
  RegistryOps, Local, After, reading, writing, awaiting, finish, succeed, time_out, await_peer,
  Shared, on_request, after_read, after_write, after_wait, ReadOutcome, received, read_failed,
  read_elapsed, WaitOutcome, notified, sender_dropped, wait_elapsed,
}
use tcpunch.Server.Accept.{
  System, running, wrote, unread, run_server, resume_task, Step, accepts, shuts_down, begins, reads,
  writes, waits, ends, cleans, Reach, here, next, read_log, write_log,
}
use tcpunch.Server.Counts.{
  Counted, IsCoherent, IsCoherentLocal, pairing, timeout, resume_task-Counted, fetch_add_one-mod,
  IsRunning, is_paired, on_registered-IsCoherentLocal, is_timeout, succeeds, times_out,
}
use tcpunch.Server.LifeCycle.{accept-Counted, begin_task-Counted, end_task-Counted}

module _ (P : Platform PeerConnectionData) (G : RegistryOps P) where
  none_added : (n : ℕ) {x : ℕ} → x ≡ n % word → x ≡ (0 + n) % word
  none_added n h = h ∙ ap (λ m. m % word) (omega arith)

  one_added : (n : ℕ) {x : ℕ} → x ≡ n % word → fetch_add_one x ≡ (1 + 0 + n) % word
  one_added n h = ap fetch_add_one h ∙ fetch_add_one-mod n ∙ ap (λ m. m % word) (omega arith)

  -- A task goes on with the metrics as they were and nothing for the log.
  quiet-Counted :
      (s : System P G) (i : ℕ) (x : Shared P G × Local P)
      → IsRunning P G s.tasks i
      → Counted P G s
      → IsCoherentLocal P x.1
      → x.0.metrics ≡ s.shared.metrics
      → Counted P G (resume_task P G s i x [])
  quiet-Counted s i x h c coh e =
      resume_task-Counted P G s i x [] c h coh (ap (λ m. m.active_connections) e)
        (ap (λ m. m.total_connections) e) (ap (λ m. m.errors) e)
        (none_added _ (ap (λ m. m.successful_pairings) e ∙ c.pairings))
        (none_added _ (ap (λ m. m.timeouts) e ∙ c.timed_out))

  after_read-Counted :
      (s : System P G) (i : ℕ) (info : PeerConnectionData) (draw : G.Draw) (outcome : ReadOutcome)
      → IsRunning P G s.tasks i
      → Counted P G s
      → Counted P G
          (resume_task P G s i (after_read P G s.shared draw info outcome) (read_log P G outcome))
  unfolding after_read on_request timeout_occurred Response.error
  after_read-Counted s i info draw (received bytes) h c =
      elim (Result-cases (Request.from_bytes P.uuid bytes)) [
        | inl (req, e) ↦
            rw (e, after_read)
              (quiet-Counted s i _ h c
                (on_registered-IsCoherentLocal P info req.pairing_name
                  (G.register s.shared.registry req.pairing_name info req.reconnect_token draw).1)
                refl)
        | inr (x, e) ↦ rw (e, after_read) (quiet-Counted s i _ h c (refl, refl) refl)
      ]
  after_read-Counted s i info draw read_failed h c = quiet-Counted s i _ h c tt refl
  after_read-Counted s i info draw read_elapsed h c =
      resume_task-Counted P G s i _ (unread ∷ []) c h tt refl refl refl (none_added _ c.pairings)
        (one_added _ c.timed_out)

  after_wait-Counted :
      (s : System P G) (i : ℕ) (info : PeerConnectionData) (name : Name) (token : P.uuid.Uuid)
      (rx : P.oneshot.Receiver) (outcome : WaitOutcome)
      → IsRunning P G s.tasks i
      → Counted P G s
      → Counted P G (resume_task P G s i (after_wait P G s.shared info name token rx outcome) [])
  unfolding after_wait Response.paired Response.timeout
  after_wait-Counted s i info name token rx (notified peer) h c =
      quiet-Counted s i _ h c (refl, refl) refl
  after_wait-Counted s i info name token rx sender_dropped h c =
      quiet-Counted s i _ h c (refl, refl) refl
  after_wait-Counted s i info name token rx wait_elapsed h c =
      quiet-Counted s i _ h c (refl, refl) refl

  after_write-Counted :
      (s : System P G) (i : ℕ) (response : Response.ServerResponse P.uuid) (after : After P)
      (written : Bool)
      → get_elem? s.tasks i ≡ some (running (writing response after))
      → Counted P G s
      → Counted P G (
          resume_task P G s i
            (after_write P G s.shared after written)
            (write_log P G response written))
  unfolding after_write pairing_succeeded timeout_occurred
  after_write-Counted s i response after written h c =
      go after written (All-get (IsCoherent P) s.tasks i c.coherent h)
    where
      r : IsRunning P G s.tasks i
      r = (writing response after, h)

      pairs : (n : ℕ) → is_paired response.status ≡ n → total (pairing P) (wrote response ∷ []) ≡ n
      pairs n e = omega (arith, e)

      times : (n : ℕ) → is_timeout response.status ≡ n → total (timeout P) (wrote response ∷ []) ≡ n
      times n e = omega (arith, e)

      none_of : (n : ℕ) {x k : ℕ} → k ≡ 0 → x ≡ n % word → x ≡ (k + n) % word
      none_of n k h = h ∙ ap (λ m. m % word) (omega (arith, k))

      one_of : (n : ℕ) {x k : ℕ} → k ≡ 1 → x ≡ n % word → fetch_add_one x ≡ (k + n) % word
      one_of n k h =
          ap fetch_add_one h ∙ fetch_add_one-mod n ∙ ap (λ m. m % word) (omega (arith, k))

      go :
          (a : After P) (w : Bool)
          → (is_paired response.status ≡ succeeds P a)
            × (is_timeout response.status ≡ times_out P a)
          → Counted P G
              (resume_task P G s i (after_write P G s.shared a w) (write_log P G response w))
      go finish true (p, t) =
          resume_task-Counted P G s i _ (wrote response ∷ []) c r tt refl refl refl
            (none_of _ (pairs 0 p) c.pairings) (none_of _ (times 0 t) c.timed_out)
      go (await_peer info name token rx) true (p, t) =
          resume_task-Counted P G s i _ (wrote response ∷ []) c r tt refl refl refl
            (none_of _ (pairs 0 p) c.pairings) (none_of _ (times 0 t) c.timed_out)
      go succeed true (p, t) =
          resume_task-Counted P G s i _ (wrote response ∷ []) c r tt refl refl refl
            (one_of _ (pairs 1 p) c.pairings) (none_of _ (times 0 t) c.timed_out)
      go time_out true (p, t) =
          resume_task-Counted P G s i _ (wrote response ∷ []) c r tt refl refl refl
            (none_of _ (pairs 0 p) c.pairings) (one_of _ (times 1 t) c.timed_out)
      go finish false _ = quiet-Counted s i _ r c tt refl
      go succeed false _ = quiet-Counted s i _ r c tt refl
      go time_out false _ = quiet-Counted s i _ r c tt refl
      go (await_peer info name token rx) false _ = quiet-Counted s i _ r c tt refl

  Step-Counted :
      (config : ServerConfig) {s t : System P G}
      → Step P G config s t
      → Counted P G s
      → Counted P G t
  Step-Counted config (accepts s addr open_loop) c = accept-Counted P G config s addr c
  Step-Counted config (shuts_down s) c = record {
    active = c.active;
    started = c.started;
    pairings = c.pairings;
    timed_out = c.timed_out;
    errors = c.errors;
    coherent = c.coherent;
  }
  Step-Counted config (begins s i addr h) c = begin_task-Counted P G s i addr h c
  Step-Counted config (reads s i info draw outcome h) c =
      after_read-Counted s i info draw outcome (reading info, h) c
  Step-Counted config (writes s i response after written h) c =
      after_write-Counted s i response after written h c
  Step-Counted config (waits s i info name token rx outcome h) c =
      after_wait-Counted s i info name token rx outcome (awaiting info name token rx, h) c
  Step-Counted config (ends s i success h) c = end_task-Counted P G s i success h c
  Step-Counted config (cleans s registry) c = record {
    active = c.active;
    started = c.started;
    pairings = c.pairings;
    timed_out = c.timed_out;
    errors = c.errors;
    coherent = c.coherent;
  }

  run_server-Counted : (registry : G.State) → Counted P G (run_server P G registry)
  unfolding run_server no_metrics
  run_server-Counted registry = record {
    active = refl;
    started = refl;
    pairings = refl;
    timed_out = refl;
    errors = refl;
    coherent = tt;
  }

  -- After any schedule of the server, whatever the clients, the registry and the network do, and up
  -- to the wrap-around of the 64-bit counters: `active_connections` is the number of the tasks that
  -- run, `total_connections` of those that have begun, `successful_pairings` of the "paired"
  -- responses written, `timeouts` of the "timeout" responses written and of the requests that never
  -- came, `errors` of the tasks that ended in `Err`. A task
  -- that writes a "paired" response counts a pairing next, and only then; so for timeouts.
  pub Reach-Counted :
      (config : ServerConfig) (registry : G.State) {s : System P G}
      → Reach P G config (run_server P G registry) s
      → Counted P G s
  Reach-Counted config registry here = run_server-Counted registry
  Reach-Counted config registry (next r step) =
      Step-Counted config step (Reach-Counted config registry r)
