-- ===== src/Server/Service/Truth.antt =====
-- Whom the server brings together (server/rust/src/server.rs and registry.rs).
use tcpunch.Base.{
  ℕ, Name, Bool, true, false, [], ◌∷◌, ◌++◌, some, inl, inr, ◌≡◌, sym, subst, Occurs, All-append,
  All-get, All-set, All-weaken, get_elem?, none-ne-some, Bool-cases, leb, ◌∙◌,
}
use tcpunch.Platform.{Platform}
use tcpunch.Protocol.{PeerConnectionData, SocketAddr}
use tcpunch.Protocol.Response as Response
use tcpunch.Registry.{RegistryConfig}
use tcpunch.Registry.InMemory.{InMemoryRegistry, new, pairing_map, cleanup_expired}
use tcpunch.Registry.InMemory.Invariant.{new-Inv}
use tcpunch.Registry.InMemory.Cleanup.{cleanup_expired-Inv}
use tcpunch.Registry.InMemory.Fade.{Shrinks-cleanup_expired}
use tcpunch.Server.{ServerConfig}
use tcpunch.Server.Accept.{
  spawned, wrote, accepts, shuts_down, begins, reads, writes, waits, ends, cleans, accept,
  begin_task, end_task, run_server,
}
use tcpunch.Server.Meeting.{in_memory}
use tcpunch.Server.Service.{Requests, Service, ServiceStep, IsActual, requested, Run, here, next}
use tcpunch.Server.Service.Listener.{Entries-Subsides, Subsides-Shrinks}
use tcpunch.Server.Service.Sound.{TaskOk, IsTruthfulEntry, TaskOk-Moves, Moves-Subsides, Sound}
use tcpunch.Server.Service.Sound.Steps.{start-LocalOk, reads-Sound, writes-Sound, waits-Sound}

module _ (P : Platform PeerConnectionData) where
  open P use {uuid.{Uuid}, oneshot.{Channels, Receiver}}

  module _ (config : ServerConfig) where
    accepts-Sound :
        (seen : Requests) (s : Service P config) (addr : SocketAddr)
        → Sound P config seen s
        → Sound P config seen (accept P (in_memory P) config s addr)
    unfolding accept
    accepts-Sound seen s addr v =
        elim (Bool-cases (leb config.max_connections s.shared.metrics.active_connections)) [
          | inl full ↦ rw full v
          | inr room ↦ rw room (record {
            inv = v.inv;
            known = v.known;
            tasks =
                All-append (TaskOk P seen s.shared.registry) s.tasks (spawned addr ∷ []) v.tasks
                  (tt, tt);
            log = v.log;
          })
        ]

    begins-Sound :
        (seen : Requests) (s : Service P config) (i : ℕ) (addr : SocketAddr)
        → Sound P config seen s
        → Sound P config seen (begin_task P (in_memory P) s i addr)
    unfolding begin_task
    begins-Sound seen s i addr v = record {
      inv = v.inv;
      known = v.known;
      tasks =
          All-set (TaskOk P seen s.shared.registry) s.tasks i v.tasks
            (start-LocalOk P seen s.shared.registry addr);
      log = v.log;
    }

    ends-Sound :
        (seen : Requests) (s : Service P config) (i : ℕ) (success : Bool)
        → Sound P config seen s
        → Sound P config seen (end_task P (in_memory P) s i success)
    unfolding end_task
    ends-Sound seen s i true v = record {
      inv = v.inv;
      known = v.known;
      tasks = All-set (TaskOk P seen s.shared.registry) s.tasks i v.tasks tt;
      log = v.log;
    }
    ends-Sound seen s i false v = record {
      inv = v.inv;
      known = v.known;
      tasks = All-set (TaskOk P seen s.shared.registry) s.tasks i v.tasks tt;
      log = v.log;
    }

    cleans-Sound :
        (seen : Requests) (s : Service P config) (now : ℕ) (registry : InMemoryRegistry P)
        → registry ≡ (cleanup_expired P s.shared.registry now).0
        → Sound P config seen s
        → Sound P config seen (record s { shared = record s.shared { registry = registry } })
    cleans-Sound seen s now registry same v =
        let c =
          Subsides-Shrinks P seen s.shared.registry (cleanup_expired P s.shared.registry now).0
            (Shrinks-cleanup_expired P s.shared.registry now) in
        subst (λ r. Sound P config seen (record s { shared = record s.shared { registry = r } }))
          (sym same)
          (record {
            inv = cleanup_expired-Inv P s.shared.registry now v.inv;
            known = Entries-Subsides P c v.known;
            tasks =
                All-weaken (TaskOk P seen s.shared.registry)
                  (TaskOk P seen (cleanup_expired P s.shared.registry now).0)
                  (TaskOk-Moves P (Moves-Subsides P c)) s.tasks v.tasks;
            log = v.log;
          })

    pub Step-Sound :
        (seen : Requests) {s t : Service P config} (step : ServiceStep P config s t)
        → IsActual P config step
        → Sound P config seen s
        → Sound P config (requested P config step ++ seen) t
    Step-Sound seen (accepts s addr h) a v = accepts-Sound seen s addr v
    Step-Sound seen (shuts_down s) a v = record {
      inv = v.inv;
      known = v.known;
      tasks = v.tasks;
      log = v.log;
    }
    Step-Sound seen (begins s i addr h) a v = begins-Sound seen s i addr v
    Step-Sound seen (reads s i info draw outcome h) a v =
        reads-Sound P config seen s i info draw outcome v a
    Step-Sound seen (writes s i response after written h) a v =
        let (told, k) = All-get (TaskOk P seen s.shared.registry) s.tasks i v.tasks h in
        writes-Sound P config seen s i response after written v told k
    Step-Sound seen (waits s i info name token rx outcome h) a v =
        waits-Sound P config seen s i info name token rx outcome v
          (All-get (TaskOk P seen s.shared.registry) s.tasks i v.tasks h) a
    Step-Sound seen (ends s i success h) a v = ends-Sound seen s i success v
    Step-Sound seen (cleans s registry) (now, same) v = cleans-Sound seen s now registry same v

    pub opened-Sound :
        (rc : RegistryConfig) (cs : Channels)
        → Sound P config [] (run_server P (in_memory P) (new P rc cs))
    unfolding run_server new
    opened-Sound rc cs = record {
      inv = unfold new in new-Inv P rc cs;
      known = λ n e h. absurd (none-ne-some (sym ((pairing_map P).get-new n) ∙ h));
      tasks = tt;
      log = tt;
    }

    pub Run-Sound :
        (rc : RegistryConfig) (cs : Channels) {seen : Requests} {s : Service P config}
        → Run P config (run_server P (in_memory P) (new P rc cs)) seen s
        → Sound P config seen s
    Run-Sound rc cs here = opened-Sound rc cs
    Run-Sound rc cs (next {seen} run step a) = Step-Sound seen step a (Run-Sound rc cs run)

    -- The server introduces nobody to a stranger. In any run of a server with its own new in-memory
    -- registry, in which waits end as their channels say, the registry changes by the calls of the
    -- connections and by the cleanup only, and each fresh token is one that the index does not know:
    -- whenever a client has been written the address of a peer, there is a name for which requests have
    -- been registered both from that client's address and from the peer's.
    pub no_stranger :
        (rc : RegistryConfig) (cs : Channels) {seen : Requests} {s : Service P config}
        → Run P config (run_server P (in_memory P) (new P rc cs)) seen s
        → (i : ℕ) (response : Response.ServerResponse P.uuid) (peer : PeerConnectionData)
        → get_elem? s.log i ≡ some (wrote response)
        → response.peer_info ≡ some peer
        → (name : Name) × Occurs (name, response.your_info) seen × Occurs (name, peer) seen
    no_stranger rc cs {seen} {s} run i response peer h e =
        All-get (IsTruthfulEntry P seen) s.log i (Run-Sound rc cs run).log h peer e
