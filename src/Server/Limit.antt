-- ===== src/Server/Limit.antt =====
-- The connection limit of `run_server` (server/rust/src/server.rs): `accept` compares with the
-- tasks that run, and a task counts only once it has begun.
use tcpunch.Server.Metrics.{no_metrics}
use tcpunch.Base.{
  ℕ, zero, suc, ◌+◌, ◌<◌, ◌≤◌, ◌≡◌, List, [], ◌∷◌, ◌++◌, refl, some, true, false, get_elem?, set,
  total, arith, total-append, total-set, leb, subst,
}
use tcpunch.Platform.{Platform}
use tcpunch.Protocol.{PeerConnectionData, SocketAddr}
use tcpunch.Server.{ServerConfig}
use tcpunch.Server.Connection.{RegistryOps, start}
use tcpunch.Server.Accept.{
  System, Task, spawned, running, ended, run_server, accept, begin_task, Reach, here, next, accepts,
  begins,
}
use tcpunch.Server.Counts.{live}
use tcpunch.Server.Metrics.{no_metrics}

module _ (P : Platform PeerConnectionData) where
  -- A task that has been spawned and has not begun.
  abbrev pub unbegun : Task P → ℕ
  unbegun (spawned addr) = 1
  unbegun (running l) = 0
  unbegun (ended success) = 0

  find_unbegun :
      (tasks : List (Task P))
      → 0 < total unbegun tasks
      → (i : ℕ) × (addr : SocketAddr) × (get_elem? tasks i ≡ some (spawned addr))
  find_unbegun [] h = absurd (omega arith)
  find_unbegun (spawned addr ∷ tasks) h = (0, addr, refl)
  find_unbegun (running l ∷ tasks) h =
      let (i, addr, e) = find_unbegun tasks (omega (arith, h)) in (suc i, addr, e)
  find_unbegun (ended success ∷ tasks) h =
      let (i, addr, e) = find_unbegun tasks (omega (arith, h)) in (suc i, addr, e)

  leb-false : (m n : ℕ) → n < m → leb m n ≡ false
  leb-false m n h = ground arith

  module _ (G : RegistryOps P) (config : ServerConfig) where
    abbrev opened_up : System P G → SocketAddr → System P G
    opened_up s addr = record s { tasks = s.tasks ++ spawned addr ∷ [] }

    open_up :
        (n : ℕ) (addr : SocketAddr) {r s : System P G}
        → Reach P G config r s
        → s.accepting ≡ true
        → s.shared.metrics.active_connections < config.max_connections
        → (t : System P G) × Reach P G config r t
          × (total unbegun t.tasks ≡ total unbegun s.tasks + n)
          × (total (live P) t.tasks ≡ total (live P) s.tasks)
    unfolding accept
    open_up zero addr {r} {s} h a room = (s, h, omega arith, refl)
    open_up (suc n) addr {r} {s} h a room =
        let e : accept P G config s addr ≡ opened_up s addr = rw (leb-false _ _ room) refl in
        let (t, h', b, l) =
          open_up n addr (subst (Reach P G config r) e (next h (accepts s addr a))) a room in
        (
          t,
          h',
          omega (arith, b, total-append unbegun s.tasks (spawned addr ∷ [])),
          omega (arith, l, total-append (live P) s.tasks (spawned addr ∷ [])),
        )

    begin_all :
        (n : ℕ) {r s : System P G}
        → Reach P G config r s
        → n ≤ total unbegun s.tasks
        → (t : System P G) × Reach P G config r t
          × (total (live P) t.tasks ≡ total (live P) s.tasks + n)
    unfolding begin_task
    begin_all zero {r} {s} h enough = (s, h, omega arith)
    begin_all (suc n) {r} {s} h enough =
        let (i, addr, e) = find_unbegun s.tasks (omega (arith, enough)) in
        let more : n ≤ total unbegun (set s.tasks i (running (start P addr))) =
          omega (arith, total-set unbegun s.tasks i (running (start P addr)) e) in
        let (t, h', c) = begin_all n (next h (begins s i addr e)) more in
        (t, h', omega (arith, c, total-set (live P) s.tasks i (running (start P addr)) e))

    -- The limit does not bound the tasks that run at a time: whatever it is, 1 or more, any number
    -- of clients can be let in and served at once, since the accept loop compares the limit with a
    -- counter that each task raises only when it is scheduled.
    pub overrun :
        (registry : G.State) (addr : SocketAddr) (n : ℕ)
        → 0 < config.max_connections
        → (s : System P G) × Reach P G config (run_server P G registry) s
          × (total (live P) s.tasks ≡ n)
    unfolding run_server no_metrics
    overrun registry addr n positive =
        let (t, h, b, l) = open_up n addr {s = run_server P G registry} here refl positive in
        let (u, h', c) = begin_all n h (omega (arith, b)) in (u, h', omega (arith, c, l))
