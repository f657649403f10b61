-- ===== src/Server/LifeCycle.antt =====
-- A connection that is let in, begins or ends keeps the metrics right (server/rust/src/server.rs).
use tcpunch.Base.{
  ℕ, Bool, true, false, [], ◌∷◌, some, refl, ◌≡◌, get_elem?, total, inl, ◌++◌, set, inr, ◌+◌, arith,
  total-set, total-append, ap, Bool-cases, leb, ◌∙◌, ◌%◌, All-set, All-append,
}
use tcpunch.Platform.{Platform}
use tcpunch.Protocol.{PeerConnectionData, SocketAddr}
use tcpunch.Server.{ServerConfig}
use tcpunch.Server.Metrics.{
  word, fetch_add_one, fetch_sub_one, connection_started, connection_ended, error_occurred,
}
use tcpunch.Server.Connection.{RegistryOps, finished, start}
use tcpunch.Server.Accept.{System, Task, spawned, running, ended, accept, begin_task, end_task}
use tcpunch.Server.Counts.{
  Counted, IsCoherent, live, begun, failed, fetch_add_one-mod, start-IsCoherentLocal,
  fetch_sub_one-mod,
}

module _ (P : Platform PeerConnectionData) (G : RegistryOps P) where
  pub accept-Counted :
      (config : ServerConfig) (s : System P G) (addr : SocketAddr)
      → Counted P G s
      → Counted P G (accept P G config s addr)
  unfolding accept
  accept-Counted config s addr c =
      elim (Bool-cases (leb config.max_connections s.shared.metrics.active_connections)) [
        | inl full ↦ rw full c
        | inr room ↦ rw room (record {
          active = c.active ∙ ap (λ n. n % word) (grown (live P) refl);
          started = c.started ∙ ap (λ n. n % word) (grown (begun P) refl);
          pairings = c.pairings;
          timed_out = c.timed_out;
          errors = c.errors ∙ ap (λ n. n % word) (grown (failed P) refl);
          coherent = All-append (IsCoherent P) s.tasks (spawned addr ∷ []) c.coherent (tt, tt);
        })
      ]
    where
      grown :
          (w : Task P → ℕ)
          → w (spawned addr) ≡ 0
          → total w s.tasks ≡ total w (s.tasks ++ spawned addr ∷ [])
      grown w h = omega (arith, total-append w s.tasks (spawned addr ∷ []))

  pub begin_task-Counted :
      (s : System P G) (i : ℕ) (addr : SocketAddr)
      → get_elem? s.tasks i ≡ some (spawned addr)
      → Counted P G s
      → Counted P G (begin_task P G s i addr)
  unfolding begin_task connection_started
  begin_task-Counted s i addr h c =
      let el : total (live P) (set s.tasks i (running (start P addr)))
          ≡ total (live P) s.tasks + 1 =
        omega (arith, total-set (live P) s.tasks i (running (start P addr)) h) in
      let eb : total (begun P) (set s.tasks i (running (start P addr)))
          ≡ total (begun P) s.tasks + 1 =
        omega (arith, total-set (begun P) s.tasks i (running (start P addr)) h) in
      let ef : total (failed P) (set s.tasks i (running (start P addr)))
          ≡ total (failed P) s.tasks =
        omega (arith, total-set (failed P) s.tasks i (running (start P addr)) h) in
      record {
        active = rw el (ap fetch_add_one c.active ∙ fetch_add_one-mod (total (live P) s.tasks));
        started = rw eb (ap fetch_add_one c.started ∙ fetch_add_one-mod (total (begun P) s.tasks));
        pairings = c.pairings;
        timed_out = c.timed_out;
        errors = rw ef c.errors;
        coherent = All-set (IsCoherent P) s.tasks i c.coherent (start-IsCoherentLocal P addr);
      }

  pub end_task-Counted :
      (s : System P G) (i : ℕ) (success : Bool)
      → get_elem? s.tasks i ≡ some (running (finished success))
      → Counted P G s
      → Counted P G (end_task P G s i success)
  unfolding end_task connection_ended error_occurred
  end_task-Counted s i true h c =
      let el : total (live P) s.tasks ≡ total (live P) (set s.tasks i (ended true)) + 1 =
        omega (arith, total-set (live P) s.tasks i (ended true) h) in
      let eb : total (begun P) (set s.tasks i (ended true)) ≡ total (begun P) s.tasks =
        omega (arith, total-set (begun P) s.tasks i (ended true) h) in
      let ef : total (failed P) (set s.tasks i (ended true)) ≡ total (failed P) s.tasks =
        omega (arith, total-set (failed P) s.tasks i (ended true) h) in
      record {
        active = ap fetch_sub_one (c.active ∙ ap (λ n. n % word) el) ∙ fetch_sub_one-mod _;
        started = rw eb c.started;
        pairings = c.pairings;
        timed_out = c.timed_out;
        errors = rw ef c.errors;
        coherent = All-set (IsCoherent P) s.tasks i c.coherent tt;
      }
  end_task-Counted s i false h c =
      let el : total (live P) s.tasks ≡ total (live P) (set s.tasks i (ended false)) + 1 =
        omega (arith, total-set (live P) s.tasks i (ended false) h) in
      let eb : total (begun P) (set s.tasks i (ended false)) ≡ total (begun P) s.tasks =
        omega (arith, total-set (begun P) s.tasks i (ended false) h) in
      let ef : total (failed P) (set s.tasks i (ended false)) ≡ total (failed P) s.tasks + 1 =
        omega (arith, total-set (failed P) s.tasks i (ended false) h) in
      record {
        active = ap fetch_sub_one (c.active ∙ ap (λ n. n % word) el) ∙ fetch_sub_one-mod _;
        started = rw eb c.started;
        pairings = c.pairings;
        timed_out = c.timed_out;
        errors = rw ef (ap fetch_add_one c.errors ∙ fetch_add_one-mod (total (failed P) s.tasks));
        coherent = All-set (IsCoherent P) s.tasks i c.coherent tt;
      }
