-- ===== src/Server/Service/Wire.antt =====
-- The bytes of what the server writes (server/rust/src/server.rs and protocol.rs).
use tcpunch.Base.{ℕ, Name, List, some, ok, ◌≡◌, Occurs, get_elem?, length}
use tcpunch.Platform.{Platform}
use tcpunch.Protocol.{PeerConnectionData, unspecified, server_response_size}
use tcpunch.Protocol.Response as Response
use tcpunch.Protocol.Response.Laws.{from_bytes-to_bytes_response}
use tcpunch.Registry.{RegistryConfig}
use tcpunch.Registry.InMemory.{new}
use tcpunch.Server.{ServerConfig}
use tcpunch.Server.Accept.{wrote, run_server}
use tcpunch.Server.Meeting.{in_memory}
use tcpunch.Server.Service.{Service, Run, Requests}
use tcpunch.Server.Service.Truth.{no_stranger}

-- No client connects from here, and the wire has no form for a peer that would.
abbrev pub nowhere : PeerConnectionData
nowhere = record { ip = unspecified; port = 0 }

module _ (P : Platform PeerConnectionData) (config : ServerConfig) where
  open P use {oneshot.{Channels}}

  -- In any run of a server with its own new in-memory registry, in which waits end as their channels
  -- say, the registry changes by the calls of the connections and by the cleanup only, each fresh token
  -- is one that the index does not know, and no request has come from 0.0.0.0:0: each response that has
  -- been written has a form of 50 bytes, with no panic, which `ServerResponse::from_bytes` reads back as
  -- the response. These are not the 51 bytes that the clients of CLIENT_MIGRATION.md read.
  pub written_reads_back :
      (rc : RegistryConfig) (cs : Channels) {seen : Requests} {s : Service P config}
      → Run P config (run_server P (in_memory P) (new P rc cs)) seen s
      → ((name : Name) → ¬ Occurs (name, nowhere) seen)
      → (i : ℕ) (response : Response.ServerResponse P.uuid)
      → get_elem? s.log i ≡ some (wrote response)
      → (bytes : List ℕ) × (Response.to_bytes P.uuid response ≡ some bytes)
        × (length bytes ≡ server_response_size)
        × (Response.from_bytes P.uuid bytes ≡ ok response)
  written_reads_back rc cs run real i response h =
      from_bytes-to_bytes_response P.uuid response (λ e.
        let (name, own, other) = no_stranger P config rc cs run i response nowhere h e in
        real name other)
