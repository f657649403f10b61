-- ===== src/Tests/Server.antt =====
-- The server at concrete connections (server/rust/src/server.rs).
use tcpunch.Server.Abandoned.{client_abandoned}
use tcpunch.Protocol.Text.{parse_null_terminated_string}
use tcpunch.Registry.InMemory.{register, register_fresh, register_first}
use tcpunch.Server.Conversation.{
  Conversation, opens, reads as talk_reads, writes as talk_writes, waits as talk_waits, Heard,
  Conversation-Heard,
}
use tcpunch.Server.Limit.{overrun}
use tcpunch.Server.Progress.{task_steps, left, accepted, task_steps_bounded}
use mathlib.Core.List.{lookup}
use tcpunch.Base.{
  ℕ, List, refl, some, none, ◌≡◌, replicate, ◌++◌, [], ◌∷◌, true, ◌≤◌, total, ◌+◌, arith, ◌*◌,
  false,
}
use tcpunch.Tests.SampleRedis.{sample_redis as R, sample_json as J}
use tcpunch.Registry.Redis.{up}
use tcpunch.Tests.Sample.{sample_platform as P, sample_uuid, id_a, id_b}
use tcpunch.Tests.Texts.{lobby, host, guest}
use tcpunch.Tests.Protocol.{lobby-IsWireName}
use tcpunch.Tests.Registry.{
  draw_a, draw_b, empty, empty-Inv, fresh_a, lone, lone_entry, lone-Inv, lone_stored, run,
}
use tcpunch.Protocol.{v4, from_socket_addr}
use tcpunch.Protocol.Request as Request
use tcpunch.Protocol.Response as Response
use tcpunch.Protocol.Wire.{copy_at}
use tcpunch.Server.{default_server_config, ServerConfig}
use tcpunch.Server.Connection.{
  finished, after_wait, on_request, on_registered, wait_elapsed, Shared, writing, await_peer,
  after_read, received, read_elapsed, start, after_write, succeed,
}
use tcpunch.Server.Accept.{
  unread, System, run_server, accept, begin_task, resume_task, end_task, Reach, here, next, accepts,
  begins, reads, ends,
}
use tcpunch.Health.Prometheus.{prometheus_metrics}
use tcpunch.Health.Scrape.{scrape, scrape-prometheus_metrics}
use tcpunch.Health.Report.{health_state}
use tcpunch.Server.Metrics.{no_metrics, connection_started}
use tcpunch.Server.Counts.{Counted, live}
use tcpunch.Server.Bookkeeping.{Reach-Counted}
use tcpunch.Server.Meeting.{in_memory, clients_meet}
use tcpunch.Server.WrongToken.{wrong_token_not_refused}
use tcpunch.Protocol.Request.RoundTrip.{from_bytes-to_bytes_request}

abbrev pub request_bytes : List ℕ
request_bytes = lobby ++ replicate 136 0

abbrev pub lobby_request : Request.ClientRequest sample_uuid
lobby_request = record { pairing_name = lobby; reconnect_token = none }

sent_bytes : Request.to_bytes sample_uuid lobby_request ≡ some request_bytes
unfolding Request.to_bytes copy_at
sent_bytes = refl

abbrev start_state : Shared P (in_memory P)
start_state = record { registry = empty; metrics = no_metrics }

clients_meet_example :
    (after_read P (in_memory P) start_state draw_a host (received request_bytes)).1
    ≡ writing (Response.waiting sample_uuid host id_a) (await_peer host lobby id_a 0)
unfolding lookup
clients_meet_example =
    (clients_meet P start_state empty-Inv lobby_request lobby_request request_bytes request_bytes
      host guest draw_a draw_b lobby-IsWireName refl sent_bytes sent_bytes refl fresh_a (λ e. cc)).0

abbrev pub opened : System P (in_memory P)
opened = run_server P (in_memory P) empty

-- A client connects and never sends its request: the states that follow.
abbrev let_in : System P (in_memory P)
let_in = accept P (in_memory P) default_server_config opened (v4 host.ip host.port)

abbrev begun : System P (in_memory P)
begun = begin_task P (in_memory P) let_in 0 (v4 host.ip host.port)

abbrev elapsed : System P (in_memory P)
elapsed =
    resume_task P (in_memory P) begun 0
      (after_read P (in_memory P) begun.shared draw_a host read_elapsed) (unread ∷ [])

abbrev pub closed : System P (in_memory P)
closed = end_task P (in_memory P) elapsed 0 true

pub silent : Reach P (in_memory P) default_server_config opened closed
unfolding run_server accept begin_task resume_task after_read start default_server_config no_metrics
    connection_started from_socket_addr
silent =
    next
      (next
        (next (next here (accepts opened (v4 host.ip host.port) refl))
          (begins let_in 0 (v4 host.ip host.port) refl))
        (reads begun 0 host draw_a read_elapsed refl))
      (ends elapsed 0 true refl)

Reach-Counted_example : Counted P (in_memory P) closed
Reach-Counted_example = Reach-Counted P (in_memory P) default_server_config empty silent

-- Three clients at a time with a limit of one.
abbrev single : ServerConfig
single = record {
  listen_port = 10000;
  recv_timeout = 5000;
  peer_wait_timeout = 60000;
  max_connections = 1;
}

overrun_example :
    (s : System P (in_memory P)) × Reach P (in_memory P) single (run_server P (in_memory P) empty) s
    × (total (live P) s.tasks ≡ 3)
overrun_example = overrun P (in_memory P) single empty (v4 host.ip host.port) 3 (omega arith)

task_steps_bounded_example :
    task_steps P (in_memory P) default_server_config silent + total (left P) closed.tasks
    ≤ total (left P) opened.tasks + 6 * accepted P (in_memory P) default_server_config silent
task_steps_bounded_example = task_steps_bounded P (in_memory P) default_server_config silent

abbrev lone_state : Shared P (in_memory P)
lone_state = record { registry = lone; metrics = no_metrics }

client_abandoned_example :
    (after_read P
      (in_memory P)
      (after_write P (in_memory P) lone_state (await_peer host lobby id_a 0) false).0
      draw_b
      guest
      (received request_bytes)).1
    ≡ writing (Response.paired sample_uuid guest host id_b) succeed
unfolding lone_entry
client_abandoned_example =
    (client_abandoned P lone_state lone-Inv lobby_request request_bytes lone_entry 0 host guest
      draw_b lone_stored refl (λ e. cc) lobby-IsWireName sent_bytes).1

-- What a scraper reads of the same server: the silent client is not counted as active any more.
scrape-prometheus_metrics_example :
    scrape "tcpunch_active_connections"
      (49 ∷ [])
      (prometheus_metrics P R J (health_state P R J closed 0 (49 ∷ [])) 90000 up)
    ≡ some closed.shared.metrics.active_connections
scrape-prometheus_metrics_example =
    (scrape-prometheus_metrics P R J (health_state P R J closed 0 (49 ∷ [])) 90000 up
      ((λ e. cc), tt)).0

-- The first client of the lobby, for whom nobody comes.
lone_talk :
    Conversation P
      (v4 host.ip host.port)
      (in_memory P)
      (Response.waiting sample_uuid host id_a ∷ Response.timeout sample_uuid host id_a ∷ [])
      (finished true)
unfolding lookup start after_read after_write after_wait Request.from_bytes
    parse_null_terminated_string Request.parse_reconnect_token on_request on_registered register
    register_fresh register_first
lone_talk =
    talk_writes _ _ _
      (talk_waits _ host lobby id_a 0
        (talk_writes _ _ _ (talk_reads [] host opens start_state draw_a (received request_bytes))
          start_state true)
        start_state wait_elapsed)
      start_state true

Conversation-Heard_example :
    Heard P
      (v4 host.ip host.port)
      (Response.waiting sample_uuid host id_a ∷ Response.timeout sample_uuid host id_a ∷ [])
      (finished true)
Conversation-Heard_example = Conversation-Heard P (v4 host.ip host.port) (in_memory P) lone_talk

-- The host waits in the lobby, and the guest comes with a token that nobody was given.
abbrev wrong_request : Request.ClientRequest sample_uuid
wrong_request = record { pairing_name = lobby; reconnect_token = some id_b }

abbrev wrong_bytes : List ℕ
wrong_bytes = (from_bytes-to_bytes_request sample_uuid wrong_request lobby-IsWireName).0

wrong_token_not_refused_example :
    after_read P (in_memory P) lone_state draw_b guest (received wrong_bytes)
    ≡ on_request P (in_memory P) lone_state draw_b guest lobby_request
unfolding run
wrong_token_not_refused_example =
    (wrong_token_not_refused P lone_state draw_b guest wrong_request id_b wrong_bytes
      (from_bytes-to_bytes_request sample_uuid wrong_request lobby-IsWireName).3 refl (λ e. cc)).0
