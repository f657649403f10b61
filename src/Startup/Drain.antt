-- ===== src/Startup/Drain.antt =====
-- The drain of the connections before the program ends (server/rust/src/main.rs and server.rs).
use tcpunch.Base.{
  ℕ, suc, List, [], ◌∷◌, some, ◌≡◌, ◌≢◌, ◌<◌, refl, arith, ◌∙◌, total, get_elem?, All, leb, map,
  false, Bool-cases, inl, inr, true-ne-false, total-get, All-get, sym, leb→le, subst,
}
use tcpunch.Platform.{Platform}
use tcpunch.Protocol.{PeerConnectionData, SocketAddr}
use tcpunch.Server.{ServerConfig}
use tcpunch.Server.Metrics.{word, no_metrics}
use tcpunch.Server.Connection.{RegistryOps}
use tcpunch.Server.Accept.{
  System, Task, spawned, run_server, Step, accept, accepts, shuts_down, begins, reads, writes,
  waits, ends, cleans, Reach, here, next,
}
use tcpunch.Server.Counts.{live}
use tcpunch.Server.Bookkeeping.{Reach-Counted}
use tcpunch.Server.Limit.{unbegun}
use tcpunch.Startup.{drain, drained, drain_timeout}

module _ (P : Platform PeerConnectionData) (G : RegistryOps P) (config : ServerConfig) where
  abbrev pub active : System P G → ℕ
  active s = s.shared.metrics.active_connections

  -- The accept loop has ended, and every task that it spawned has too.
  pub record IsStill (s : System P G) : Type 0 where
    pub shut : s.accepting ≡ false
    pub begun : total (unbegun P) s.tasks ≡ 0
    pub idle : total (live P) s.tasks ≡ 0

  no_step :
      (w : Task P → ℕ) (s : System P G) (i : ℕ) (task : Task P)
      → total w s.tasks ≡ 0
      → w task ≡ 1
      → get_elem? s.tasks i ≡ some task
      → ⊥
  no_step w s i task h one e = omega (arith, h, one, total-get w s.tasks i e)

  Step-IsStill :
      {s t : System P G}
      → Step P G config s t
      → IsStill s
      → IsStill t × (t.tasks ≡ s.tasks) × (t.log ≡ s.log) × (t.shared.metrics ≡ s.shared.metrics)
  Step-IsStill (accepts s addr open_loop) v = absurd (true-ne-false (sym open_loop ∙ v.shut))
  Step-IsStill (shuts_down s) v =
      (record { shut = refl; begun = v.begun; idle = v.idle }, refl, refl, refl)
  Step-IsStill (begins s i addr h) v = absurd (no_step (unbegun P) s i _ v.begun refl h)
  Step-IsStill (reads s i info draw outcome h) v = absurd (no_step (live P) s i _ v.idle refl h)
  Step-IsStill (writes s i response after written h) v =
      absurd (no_step (live P) s i _ v.idle refl h)
  Step-IsStill (waits s i info name token rx outcome h) v =
      absurd (no_step (live P) s i _ v.idle refl h)
  Step-IsStill (ends s i success h) v = absurd (no_step (live P) s i _ v.idle refl h)
  Step-IsStill (cleans s registry) v =
      (record { shut = v.shut; begun = v.begun; idle = v.idle }, refl, refl, refl)

  stays-IsStill :
      {s t : System P G}
      → Reach P G config s t
      → IsStill s
      → IsStill t × (t.tasks ≡ s.tasks) × (t.log ≡ s.log) × (t.shared.metrics ≡ s.shared.metrics)
  stays-IsStill here v = (v, refl, refl, refl)
  stays-IsStill (next r step) v =
      let (v', tasks, log, metrics) = stays-IsStill r v in
      let (v'', tasks', log', metrics') = Step-IsStill step v' in
      (v'', tasks' ∙ tasks, log' ∙ log, metrics' ∙ metrics)

  drained-ne : drain_timeout ≢ drained
  drained-ne e = cc

  -- The state at which the drain read 0.
  find_zero :
      (polls : List (System P G))
      → drain (map active polls) ≡ drained
      → (i : ℕ) × (s : System P G) × (get_elem? polls i ≡ some s) × (active s ≡ 0)
  unfolding drain
  find_zero [] h = absurd (drained-ne h)
  find_zero (s ∷ polls) h = elim (Bool-cases (leb (active s) 0)) [
    | inl e ↦ (0, s, refl, omega (arith, leb→le _ _ e))
    | inr e ↦ let (i, t, at, none_run) = find_zero polls (rw e at h) in (suc i, t, at, none_run)
  ]

  -- A drain that says "All connections drained" is right, if every task that was let in had begun: let
  -- the drain read the counter in states that the server came to after its accept loop had ended, with
  -- fewer than 2 ^ 64 tasks running. If it ends drained, then at one of the readings no task ran, and
  -- from then on, whatever happens, no task runs, begins or ends, nothing is written, and the metrics
  -- stay.
  pub drained_for_good :
      (registry : G.State) (polls : List (System P G))
      → All
          (λ s.
            Reach P G config (run_server P G registry) s
            × (s.accepting ≡ false)
            × (total (unbegun P) s.tasks ≡ 0)
            × (total (live P) s.tasks < word))
          polls
      → drain (map active polls) ≡ drained
      → (i : ℕ) × (s : System P G) × (get_elem? polls i ≡ some s)
        × (total (live P) s.tasks ≡ 0)
        × ((t : System P G)
            → Reach P G config s t
            → (t.tasks ≡ s.tasks) × (t.log ≡ s.log) × (t.shared.metrics ≡ s.shared.metrics))
  drained_for_good registry polls h e =
      let (i, s, at, none_run) = find_zero polls e in
      let (r, shut, begun, few) = All-get _ polls i h at in
      let c = Reach-Counted P G config registry r in
      let idle : total (live P) s.tasks ≡ 0 = omega (arith, c.active, none_run, few) in
      (
        i,
        s,
        at,
        idle,
        λ t reach.
            let (v, tasks, log, metrics) =
              stays-IsStill reach (record { shut = shut; begun = begun; idle = idle }) in
            (tasks, log, metrics),
      )

  -- The drain can say "All connections drained" while a client that was let in has not been answered:
  -- where the limit is not 0, the server comes to a state with its accept loop ended, one task that
  -- has been spawned and not begun, and a counter that reads 0.
  pub drain_misses :
      (registry : G.State) (addr : SocketAddr) (later : List ℕ)
      → 0 < config.max_connections
      → (s : System P G) × Reach P G config (run_server P G registry) s
        × (s.accepting ≡ false)
        × (s.tasks ≡ spawned addr ∷ [])
        × (drain (active s ∷ later) ≡ drained)
  unfolding run_server accept no_metrics drain
  drain_misses registry addr later positive =
      let opened = run_server P G registry in
      let e : leb config.max_connections 0 ≡ false = ground arith in
      let one : System P G = record opened { tasks = spawned addr ∷ [] } in
      (
        record one { accepting = false },
        next (subst (Reach P G config opened) (rw e refl) (next here (accepts opened addr refl)))
            (shuts_down one),
        refl,
        refl,
        refl,
      )
