-- ===== src/Tests/Service.antt =====
-- Two clients of one name on a server over its in-memory registry (server/rust/src/server.rs and
-- registry.rs).
use tcpunch.Server.Service.Wire.{nowhere, written_reads_back}
use mathlib.Core.List.{lookup, get_elem?, List}
use tcpunch.Base.{
  Name, [], ◌∷◌, some, refl, ◌≡◌, true, Occurs, name_discrete, ℕ, length, ok, inl, ◌≢◌, ap, inr,
}
use tcpunch.Protocol.{PeerConnectionData, v4, from_socket_addr, server_response_size}
use tcpunch.Protocol.Request as Request
use tcpunch.Protocol.Response as Response
use tcpunch.Protocol.Text.{parse_null_terminated_string, utf8_from}
use tcpunch.Registry.InMemory.{
  register, register_fresh, register_first, complete_pairing, new, first_entry, notify,
}
use tcpunch.Server.{default_server_config}
use tcpunch.Server.Accept.{
  accept, begin_task, resume_task, run_server, accepts, begins, reads, writes, waits, wrote,
  running,
}
use tcpunch.Server.Connection.{
  start, after_read, after_write, after_wait, on_request, on_registered, received, notified,
  await_peer, succeed, writing,
}
use tcpunch.Server.Meeting.{in_memory}
use tcpunch.Server.Metrics.{no_metrics, connection_started, fetch_add_one}
use tcpunch.Server.Service.{Run, here, next, Requests, Service}
use tcpunch.Server.Service.Fate.{Fate}
use tcpunch.Server.Service.Together.{both_told, read_in}
use tcpunch.Server.Service.Truth.{no_stranger}
use tcpunch.Tests.Registry.{config, draw_a, draw_b}
use tcpunch.Tests.Sample.{sample_platform as P, sample_uuid, id_a, id_b, SampleId-discrete}
use tcpunch.Tests.Server.{request_bytes, lobby_request}
use tcpunch.Tests.Texts.{lobby, host, guest}

abbrev started : Service P default_server_config
started = run_server P (in_memory P) (new P config [])

abbrev host_begun : Service P default_server_config
host_begun =
    begin_task P (in_memory P)
      (accept P (in_memory P) default_server_config started (v4 host.ip host.port)) 0
      (v4 host.ip host.port)

abbrev host_registered : Service P default_server_config
host_registered = read_in P default_server_config host_begun 0 host draw_a request_bytes

abbrev host_waits : Service P default_server_config
host_waits =
    resume_task P (in_memory P) host_registered 0
      (after_write P (in_memory P) host_registered.shared (await_peer host lobby id_a 0) true)
      (wrote (Response.waiting sample_uuid host id_a) ∷ [])

abbrev guest_begun : Service P default_server_config
guest_begun =
    begin_task P (in_memory P)
      (accept P (in_memory P) default_server_config host_waits (v4 guest.ip guest.port)) 1
      (v4 guest.ip guest.port)

evaluation : Unit {0}
unfolding run_server new accept begin_task resume_task start default_server_config no_metrics
    connection_started from_socket_addr after_read after_write after_wait on_request on_registered
    register register_fresh register_first first_entry complete_pairing notify Request.from_bytes
    Request.parse_reconnect_token parse_null_terminated_string utf8_from lookup fetch_add_one
    name_discrete SampleId-discrete Response.waiting Response.paired
evaluation = tt

both_there : Run P default_server_config started ((lobby, host) ∷ []) guest_begun
unfolding evaluation
both_there =
    next
      (next
        (next
          (next
            (next (next here (accepts started (v4 host.ip host.port) refl) tt)
              (begins _ 0 (v4 host.ip host.port) refl) tt)
            (reads host_begun 0 host draw_a (received request_bytes) refl) refl)
          (writes host_registered 0 (Response.waiting sample_uuid host id_a)
            (await_peer host lobby id_a 0) true refl)
          tt)
        (accepts host_waits (v4 guest.ip guest.port) refl) tt)
      (begins _ 1 (v4 guest.ip guest.port) refl) tt

-- The guest's request, and what both do with it.
abbrev paired_up : Service P default_server_config
paired_up = read_in P default_server_config guest_begun 1 guest draw_b request_bytes

abbrev host_notified : Service P default_server_config
host_notified =
    resume_task P (in_memory P) paired_up 0
      (after_wait P (in_memory P) paired_up.shared host lobby id_a 0 (notified guest)) []

host_hears : Run P default_server_config paired_up [] host_notified
unfolding evaluation
host_hears = next here (waits paired_up 0 host lobby id_a 0 (notified guest) refl) refl

both_told_example :
    (get_elem? paired_up.tasks 1
      ≡ some (running (writing (Response.paired sample_uuid guest host id_b) succeed)))
    × Fate P default_server_config 0 host lobby id_a 0 guest host_notified
unfolding evaluation host_hears
both_told_example =
    both_told P default_server_config config [] both_there 0 1 host guest lobby id_a 0
      (first_entry P config host 0 draw_a) 0 draw_b request_bytes lobby_request refl refl refl refl
      refl refl refl (λ e. cc) refl host_hears (tt, λ e q. cc)

abbrev guest_told : Service P default_server_config
guest_told =
    resume_task P (in_memory P) paired_up 1
      (after_write P (in_memory P) paired_up.shared succeed true)
      (wrote (Response.paired sample_uuid guest host id_b) ∷ [])

abbrev both_requests : Requests
both_requests = (lobby, guest) ∷ (lobby, host) ∷ []

told_run : Run P default_server_config started both_requests guest_told
unfolding evaluation both_there
told_run =
    next (next both_there (reads guest_begun 1 guest draw_b (received request_bytes) refl) refl)
      (writes paired_up 1 (Response.paired sample_uuid guest host id_b) succeed true refl) tt

no_stranger_example :
    (name : Name) × Occurs {A = Name × PeerConnectionData} (name, guest) both_requests
    × Occurs {A = Name × PeerConnectionData} (name, host) both_requests
unfolding evaluation
no_stranger_example =
    no_stranger P default_server_config config [] told_run 0
      (Response.paired sample_uuid guest host id_b) host refl refl

guest-ne-nowhere : guest ≢ nowhere
guest-ne-nowhere e = cc

host-ne-nowhere : host ≢ nowhere
host-ne-nowhere e = cc

everyone_somewhere :
    (name : Name) → ¬ Occurs {A = Name × PeerConnectionData} (name, nowhere) both_requests
everyone_somewhere name (inl e) = guest-ne-nowhere (ap (λ (x : Name × PeerConnectionData). x.1) e)
everyone_somewhere name (inr (inl e)) =
    host-ne-nowhere (ap (λ (x : Name × PeerConnectionData). x.1) e)
everyone_somewhere name (inr (inr h)) = h

written_reads_back_example :
    (bytes : List ℕ) × (Response.to_bytes sample_uuid (Response.paired sample_uuid guest host id_b)
      ≡ some bytes)
    × (length bytes ≡ server_response_size)
    × (Response.from_bytes sample_uuid bytes ≡ ok (Response.paired sample_uuid guest host id_b))
unfolding evaluation
written_reads_back_example =
    written_reads_back P default_server_config config [] told_run everyone_somewhere 0
      (Response.paired sample_uuid guest host id_b) refl
