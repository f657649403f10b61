-- ===== src/Server/Service/Together.antt =====
-- The two clients of a pairing in a run of the server (server/rust/src/server.rs and registry.rs).
use tcpunch.Server.Service.Attended.Steps.{waiting-open}
use tcpunch.Server.Service.Listener.{Listener}
use tcpunch.Base.{
  ℕ, Name, List, Option, [], ok, some, ◌≡◌, ◌≢◌, ◌∙◌, refl, sym, ap, get_elem?, get_elem?-set_self,
  none, some-injective, All-get, get_elem?-set_ne, subst,
}
use tcpunch.Platform.{Platform, sent, open_, after_send}
use tcpunch.Protocol.{PeerConnectionData}
use tcpunch.Protocol.Request as Request
use tcpunch.Protocol.Response as Response
use tcpunch.Registry.{RegistryConfig}
use tcpunch.Registry.InMemory.{PairingEntry, Draw, pairing_map, token_map, new, register}
use tcpunch.Registry.InMemory.Invariant.{token_of, Inv}
use tcpunch.Registry.InMemory.Rendezvous.{register_second_lem}
use tcpunch.Server.{ServerConfig}
use tcpunch.Server.Accept.{running, reads, resume_task, run_server, Task}
use tcpunch.Server.Connection.{
  awaiting, reading, writing, succeed, received, after_read, on_request, on_registered, Shared,
}
use tcpunch.Server.Meeting.{in_memory}
use tcpunch.Server.Service.{Service, Run, next, Requests}
use tcpunch.Server.Service.Fate.{Fate, IsInTime}
use tcpunch.Server.Service.Partner.{partner_told}
use tcpunch.Server.Service.Sound.{TaskOk}
use tcpunch.Server.Service.Truth.{Run-Sound}

module _ (P : Platform PeerConnectionData) (config : ServerConfig) where
  open P use {uuid.{Uuid}, oneshot.{Channels, Sender, Receiver, receiver, state}}
  open pairing_map P use {get as get_pairing}

  -- The server once task `j` has read the bytes of a request.
  abbrev pub read_in :
      Service P config → ℕ → PeerConnectionData → Draw P → List ℕ → Service P config
  read_in s j other draw bytes =
      resume_task P (in_memory P) s j
        (after_read P (in_memory P) s.shared draw other (received bytes)) []

  -- The second client's request, where the channel of the entry is open.
  module _ (s : Shared P (in_memory P)) (v : Inv P s.registry) (other : PeerConnectionData)
      (draw : Draw P) (bytes : List ℕ) (req : Request.ClientRequest P.uuid) (e : PairingEntry P)
      (tx : Sender) (parsed : Request.from_bytes P.uuid bytes ≡ ok req)
      (stored : get_pairing s.registry.pairings req.pairing_name ≡ some e)
      (held : e.notify_tx ≡ some tx) (another : req.reconnect_token ≢ some (token_of P e)) where
    second-hears :
        (after_read P (in_memory P) s draw other (received bytes)).1
        ≡ writing (Response.paired P.uuid other e.waiting_client.connection_info draw.token) succeed
    unfolding after_read on_request on_registered
    second-hears =
        rw
          (
            parsed,
            after_read,
            on_request,
            (register_second_lem P s.registry v req.pairing_name other draw e req.reconnect_token
                stored another).0,
          )
          refl

    first-sent :
        state s.registry.channels (receiver tx) ≡ open_
        → state
            (after_read P (in_memory P) s draw other (received bytes)).0.registry.channels
            (receiver tx)
          ≡ sent other
    unfolding after_read on_request
    first-sent listening =
        let (_, (ty, held', told), _, _) =
          register_second_lem P s.registry v req.pairing_name other draw e req.reconnect_token
            stored another in
        let same : ty ≡ tx = some-injective ty tx (sym held' ∙ held) in
        rw (parsed, after_read)
          (subst
              (λ z.
                state
                  (register P s.registry req.pairing_name other req.reconnect_token draw).0.channels
                  (receiver z)
                ≡ after_send other (state s.registry.channels (receiver z)))
              same told
            ∙ ap (after_send other) listening)

  -- Both clients of a pairing are told each other's address. In any run of a server with its own new
  -- in-memory registry, in which waits end as their channels say, the registry changes by the calls of
  -- the connections and by the cleanup only, and each fresh token is one that the index does not know:
  -- where task `i` waits for a peer, the stored entry of its name sends to its channel,
  -- and task `j` reads a request of the name with another token than the entry's (also a wrong one, which
  -- the code does not refuse), or none, task `j` goes on to write a response with the address of task `i`. However the run goes on from there, the wait of
  -- task `i` not running out of time, task `i` still waits with the address of task `j` in its channel,
  -- or writes the response with just this address, or has written it and returned `Ok`, or has failed to
  -- write it.
  pub both_told :
      (rc : RegistryConfig) (cs : Channels) {seen : Requests} {s : Service P config}
      → Run P config (run_server P (in_memory P) (new P rc cs)) seen s
      → (i j : ℕ) (info other : PeerConnectionData) (name : Name) (token : Uuid) (rx : Receiver)
        (e : PairingEntry P) (tx : Sender) (draw : Draw P) (bytes : List ℕ)
        (req : Request.ClientRequest P.uuid)
      → get_elem? s.tasks i ≡ some (running (awaiting info name token rx))
      → get_pairing s.shared.registry.pairings name ≡ some e
      → e.notify_tx ≡ some tx
      → receiver tx ≡ rx
      → get_elem? s.tasks j ≡ some (running (reading other))
      → Request.from_bytes P.uuid bytes ≡ ok req
      → req.pairing_name ≡ name
      → req.reconnect_token ≢ some (token_of P e)
      → (token_map P).get s.shared.registry.tokens draw.token ≡ none
      → {seen' : Requests} {t : Service P config}
        (run : Run P config (read_in s j other draw bytes) seen' t)
      → IsInTime P config i run
      → (get_elem? (read_in s j other draw bytes).tasks j
          ≡ some (running (writing (Response.paired P.uuid other info draw.token) succeed)))
        × Fate P config i info name token rx other t
  unfolding resume_task
  both_told rc cs {seen} {s} before i j info other name token rx e tx draw bytes req waits stored
        held same begun parsed named another fresh run d =
      let v = Run-Sound P config rc cs before in
      let l : Listener P seen s.shared.registry name info rx =
        All-get (TaskOk P seen s.shared.registry) s.tasks i v.tasks waits in
      let stored' : get_pairing s.shared.registry.pairings req.pairing_name ≡ some e =
        rw named stored in
      let i-ne-j : j ≢ i = λ q. reading-ne-awaiting (rw (q, waits) at begun) in
      (
        get_elem?-set_self s.tasks j _ begun
            ∙ ap (λ x. some (running x))
                (second-hears s.shared v.inv other draw bytes req e tx parsed stored' held another
                  ∙ ap (λ x. writing (Response.paired P.uuid other x draw.token) succeed)
                      (l.under name e tx stored held same).1),
        partner_told P config i info name token rx other rc cs
            (next before (reads s j other draw (received bytes) begun) fresh)
            (get_elem?-set_ne s.tasks j i _ i-ne-j ∙ waits)
            (subst
              (λ x. state (read_in s j other draw bytes).shared.registry.channels x ≡ sent other)
              same
              (first-sent s.shared v.inv other draw bytes req e tx parsed stored' held another (
                waiting-open P config rc cs before i info name token e tx (rw same waits) stored
                  held)))
            run d,
      )
    where
      reading-ne-awaiting : ¬ (
          ◌≡◌ {A = Option (Task P)}
            (some (running (awaiting info name token rx)))
            (some (running (reading other))))
      reading-ne-awaiting q = cc
