-- ===== src/Tests/Startup.antt =====
-- The start and the end of the program, and the enum `Registry`, at concrete values
-- (server/rust/src/main.rs and registry.rs).
use tcpunch.Server.Metrics.{
  connection_ended, fetch_sub_one, timeout_occurred, fetch_add_one, no_metrics, connection_started,
}
use tcpunch.Server.Connection.{after_read, start}
use mathlib.Core.List.{lookup}
use tcpunch.Base.{get_elem?, ℕ, [], ◌∷◌, refl, some, none, err, ◌≡◌, arith, inl, false, total}
use tcpunch.Tests.Sample.{sample_platform as P, id_a}
use tcpunch.Tests.SampleRedis.{sample_redis as R, sample_json as J}
use tcpunch.Tests.Texts.{lobby, host}
use tcpunch.Tests.Registry.{empty}
use tcpunch.Tests.Redis.{no_keys, here as here_site}
use tcpunch.Tests.Server.{closed, silent}
use tcpunch.Protocol.{v4, from_socket_addr}
use tcpunch.Registry.{redis}
use tcpunch.Registry.Redis.{Site}
use tcpunch.Registry.Redis.Branches.{all_up}
use tcpunch.Registry.Redis.Calls as Calls
use tcpunch.Server.{default_server_config}
use tcpunch.Server.Meeting.{in_memory}
use tcpunch.Server.Counts.{live}
use tcpunch.Server.Accept.{
  System, Reach, run_server, spawned, shuts_down, next, accept, begin_task, resume_task, end_task,
}
use tcpunch.Startup.{Args, default_args, registry_config, drain, drained}
use tcpunch.Startup.Timeout.{nobody_served}
use tcpunch.Startup.Drain.{active, drained_for_good, drain_misses}

abbrev no_timeout : Args
no_timeout = record default_args { peer_timeout = 0 }

abbrev hasty : Site P R J
hasty = record {
  store = no_keys;
  registry = record here_site { config = registry_config no_timeout [] };
}

nobody_served_example :
    (Calls.register P R J lobby host none (all_up P R J id_a 7) hasty).1 ≡ err redis
unfolding lookup
nobody_served_example =
    (nobody_served P R J no_timeout [] hasty (inl refl) refl (λ n. refl) lobby host none
      (all_up P R J id_a 7)).0

abbrev shut : System P (in_memory P)
shut = record closed { accepting = false }

shut_down : Reach P (in_memory P) default_server_config (run_server P (in_memory P) empty) shut
shut_down = next silent (shuts_down closed)

-- The only client is gone when the drain begins.
drained_for_good_example :
    (i : ℕ) × (s : System P (in_memory P)) × (get_elem? (shut ∷ []) i ≡ some s)
    × (total (live P) s.tasks ≡ 0)
    × ((t : System P (in_memory P))
        → Reach P (in_memory P) default_server_config s t
        → (t.tasks ≡ s.tasks) × (t.log ≡ s.log) × (t.shared.metrics ≡ s.shared.metrics))
unfolding drain run_server accept begin_task resume_task after_read start default_server_config
    no_metrics connection_started from_socket_addr end_task connection_ended fetch_sub_one
    timeout_occurred fetch_add_one
drained_for_good_example =
    drained_for_good P (in_memory P) default_server_config empty (shut ∷ [])
      ((shut_down, refl, refl, omega arith), tt) refl

drain_misses_example :
    (s : System P (in_memory P)) × Reach P
      (in_memory P)
      default_server_config
      (run_server P (in_memory P) empty)
      s
    × (s.accepting ≡ false)
    × (s.tasks ≡ spawned (v4 host.ip host.port) ∷ [])
    × (drain (active P (in_memory P) default_server_config s ∷ 1 ∷ []) ≡ drained)
unfolding default_server_config
drain_misses_example =
    drain_misses P (in_memory P) default_server_config empty (v4 host.ip host.port) (1 ∷ [])
      (omega arith)
