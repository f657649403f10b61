-- ===== src/Server/Meeting.antt =====
-- The server over the in-memory registry (server/rust/src/server.rs, registry.rs and protocol.rs).
use tcpunch.Base.{ℕ, List, some, none, refl, ◌≡◌, ◌≢◌, ◌∙◌, ap, sym, some-injective, subst}
use tcpunch.Platform.{Platform, sent, after_send}
use tcpunch.Protocol.{PeerConnectionData}
use tcpunch.Protocol.Request as Request
use tcpunch.Protocol.Request.RoundTrip.{IsWireName, from_bytes-to_bytes_request}
use tcpunch.Protocol.Response as Response
use tcpunch.Registry.InMemory.{InMemoryRegistry, Draw, pairing_map, token_map, register, unregister}
use tcpunch.Registry.InMemory.Invariant.{Inv}
use tcpunch.Registry.InMemory.Register.{register-Inv}
use tcpunch.Registry.InMemory.Rendezvous.{register_first_lem, register_second_lem}
use tcpunch.Server.Connection.{
  RegistryOps, Shared, writing, await_peer, succeed, after_read, on_request, on_registered,
  received,
}

-- The calls of the in-memory registry, and the end of a receiver's life.
abbrev pub in_memory : (P : Platform PeerConnectionData) → RegistryOps P
in_memory P = record {
  State = InMemoryRegistry P;
  Draw = Draw P;
  register = register P;
  unregister = unregister P;
  hang_up = λ r rx. record r { channels = P.oneshot.drop_receiver r.channels rx };
}

module _ (P : Platform PeerConnectionData) where
  open P use {uuid.{Uuid}, oneshot.{channel, receiver, state}}
  open pairing_map P use {get as get_pairing}
  open token_map P use {get as get_token}

  -- What a client sent is what the registry is called with.
  pub after_read-to_bytes :
      (s : Shared P (in_memory P)) (draw : Draw P) (info : PeerConnectionData)
      (req : Request.ClientRequest P.uuid) (bytes : List ℕ)
      → IsWireName req.pairing_name
      → Request.to_bytes P.uuid req ≡ some bytes
      → after_read P (in_memory P) s draw info (received bytes)
        ≡ on_request P (in_memory P) s draw info req
  unfolding after_read
  after_read-to_bytes s draw info req bytes w h =
      let (b, e, _, back) = from_bytes-to_bytes_request P.uuid req w in
      let same : b ≡ bytes = some-injective b bytes (sym e ∙ h) in
      rw (sym same, after_read, back) refl

  -- Two clients that name the same pairing meet, on a server whose in-memory registry is well formed.
  -- The first one's request comes in where nobody waits under the name, the second one's next, with
  -- another token than the first is given (also a wrong one, which the code does not refuse), or none;
  -- the names are nonempty UTF-8 without zeros and fit, and the first's fresh token is unused. Then the
  -- first is told to wait, with that token; the second is told the first one's address; the
  -- receiver that the first waits on holds the second one's address; and nobody waits any more.
  pub clients_meet :
      (s : Shared P (in_memory P)) (v : Inv P s.registry)
      (first second : Request.ClientRequest P.uuid) (bytes bytes' : List ℕ)
      (a b : PeerConnectionData) (draw draw' : Draw P)
      → IsWireName first.pairing_name
      → second.pairing_name ≡ first.pairing_name
      → Request.to_bytes P.uuid first ≡ some bytes
      → Request.to_bytes P.uuid second ≡ some bytes'
      → get_pairing s.registry.pairings first.pairing_name ≡ none
      → get_token s.registry.tokens draw.token ≡ none
      → second.reconnect_token ≢ some draw.token
      → let x = after_read P (in_memory P) s draw a (received bytes) in
        let y = after_read P (in_memory P) x.0 draw' b (received bytes') in
        let rx = (channel s.registry.channels).2 in
        (x.1
          ≡ writing
              (Response.waiting P.uuid a draw.token)
              (await_peer a first.pairing_name draw.token rx))
        × (y.1 ≡ writing (Response.paired P.uuid b a draw'.token) succeed)
        × (state y.0.registry.channels rx ≡ sent b)
        × (get_pairing y.0.registry.pairings first.pairing_name ≡ none)
  unfolding on_request on_registered
  clients_meet s v first second bytes bytes' a b draw draw' w same h h' absent fresh other =
      let name = first.pairing_name in
      let r = s.registry in
      let (told, _, opened, (entry, stored, from, keyed, _, (tx, held, ends))) =
        register_first_lem P r v name a draw first.reconnect_token absent in
      let r' = (register P r name a first.reconnect_token draw).0 in
      let v' = register-Inv P r v name a first.reconnect_token draw fresh in
      let (told', (tx', held', got), gone, _) =
        register_second_lem P r' v' name b draw' entry second.reconnect_token stored
          (λ e. other (e ∙ ap some keyed)) in
      let one = some-injective tx tx' (sym held ∙ held') in
      let s1 = record s { registry = r' } in
      let first_read : after_read P (in_memory P) s draw a (received bytes) ≡ (
        s1,
        writing (Response.waiting P.uuid a draw.token)
            (await_peer a name draw.token (channel r.channels).2),
      ) =
        after_read-to_bytes s draw a first bytes w h
        ∙ ap (λ q. (s1, on_registered P a name q)) told in
      let s2 = record s1 { registry = (register P r' name b second.reconnect_token draw').0 } in
      let second_read : after_read P (in_memory P) s1 draw' b (received bytes')
          ≡ (s2, writing (Response.paired P.uuid b a draw'.token) succeed) =
        after_read-to_bytes s1 draw' b second bytes' (subst IsWireName (sym same) w) h'
        ∙ ap (λ n. on_request P (in_memory P) s1 draw' b (record second { pairing_name = n })) same
        ∙ ap (λ q. (s2, on_registered P b name q)) told'
        ∙ ap (λ q. (s2, writing (Response.paired P.uuid b q draw'.token) succeed)) from in
      rw (first_read, second_read)
        (
          refl,
          refl,
          subst
              (λ rx.
                state (register P r' name b second.reconnect_token draw').0.channels rx ≡ sent b)
              (ap receiver (sym one) ∙ ends)
              (got
                ∙ ap (after_send b)
                    (ap (state r'.channels) (ap receiver (sym one) ∙ ends) ∙ opened)),
          gone,
        )
