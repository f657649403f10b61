-- ===== src/Server/WrongToken.antt =====
-- A client with a token that is not its name's (server/rust/src/server.rs, over the registry of
-- registry.rs).
use tcpunch.Registry.InMemory.Branches.{guard_no, register_waiting, register_paired}
use tcpunch.Base.{
  Name, ◌≢◌, some, ◌≡◌, none, Option-cases, inl, inr, name_discrete, ◌∙◌, ap, refl, List, ℕ, ok,
  none-ne-some,
}
use tcpunch.Server.Connection.{
  on_request, Shared, on_registered, After, writing, after_read, received, await_peer, succeed,
}
use tcpunch.Registry.InMemory.{
  pairing_map, token_map, reconnect, register, InMemoryRegistry, Draw, register_first,
  complete_pairing,
}
use tcpunch.Protocol.{PeerConnectionData}
use tcpunch.Platform.{Platform}
use tcpunch.Protocol.{PeerConnectionData, error}
use tcpunch.Protocol.Request as Request
use tcpunch.Protocol.Response as Response
use tcpunch.Server.Meeting.{in_memory}

module _ (P : Platform PeerConnectionData) where
  open P use {uuid.{Uuid}, oneshot.{channel}}
  open pairing_map P use {get as get_pairing}
  open token_map P use {get as get_token}

  -- A token that the index does not know, or knows for another name, does not find the name's entry.
  reconnect_wrong :
      (r : InMemoryRegistry P) (name : Name) (info : PeerConnectionData) (token : Uuid)
      → get_token r.tokens token ≢ some name
      → reconnect P r name info token ≡ none
  unfolding reconnect
  reconnect_wrong r name info token wrong = elim (Option-cases (get_token r.tokens token)) [
    | inl q ↦ rw q refl
    | inr (stored, q) ↦ elim (name_discrete stored name) [
      | yes p ↦ absurd (wrong (q ∙ ap some p))
      | no p ↦ rw (q, guard_no P r (name_discrete stored name) p) refl
    ]
  ]

  register_wrong :
      (r : InMemoryRegistry P) (name : Name) (info : PeerConnectionData) (token : Uuid)
      (draw : Draw P)
      → get_token r.tokens token ≢ some name
      → register P r name info (some token) draw ≡ register P r name info none draw
  unfolding register
  register_wrong r name info token draw wrong =
      rw (reconnect_wrong r name info token wrong, register)

  -- What a client with no token is told: that it waits, or its peer.
  told_fresh :
      (r : InMemoryRegistry P) (name : Name) (info : PeerConnectionData) (draw : Draw P)
      → (response : Response.ServerResponse P.uuid) × (after : After P) × (on_registered P info name
            (register P r name info none draw).1
          ≡ writing response after)
        × (response.status ≢ error)
  unfolding register_first complete_pairing on_registered Response.waiting Response.paired
  told_fresh r name info draw = elim (Option-cases (get_pairing r.pairings name)) [
    | inl q ↦ (
      Response.waiting P.uuid info draw.token,
      await_peer info name draw.token (channel r.channels).2,
      ap (λ x. on_registered P info name x.1) (register_waiting P r name info draw none q),
      λ e. cc,
    )
    | inr (entry, q) ↦ (
      Response.paired P.uuid info entry.waiting_client.connection_info draw.token,
      succeed,
      ap (λ x. on_registered P info name x.1)
          (register_paired P r name info draw entry none q (λ e. none-ne-some e)),
      λ e. cc,
    )
  ]

  -- A wrong token is not refused. Whatever the in-memory registry holds, a request whose token the
  -- index does not know, or knows for another name, does to the server just what the request without a
  -- token does; and the status of the response is not ERROR.
  pub wrong_token_not_refused :
      (s : Shared P (in_memory P)) (draw : Draw P) (info : PeerConnectionData)
      (req : Request.ClientRequest P.uuid) (token : Uuid) (bytes : List ℕ)
      → Request.from_bytes P.uuid bytes ≡ ok req
      → req.reconnect_token ≡ some token
      → get_token s.registry.tokens token ≢ some req.pairing_name
      → let x = after_read P (in_memory P) s draw info (received bytes) in
        (x ≡ on_request P (in_memory P) s draw info (record req { reconnect_token = none }))
        × ((response : Response.ServerResponse P.uuid) × (after : After P) × (x.1
              ≡ writing response after)
            × (response.status ≢ error))
  unfolding on_request after_read
  wrong_token_not_refused s draw info req token bytes parsed held wrong =
      let name = req.pairing_name in
      let same : after_read P (in_memory P) s draw info (received bytes)
          ≡ on_request P (in_memory P) s draw info (record req { reconnect_token = none }) =
        rw (parsed, after_read, held, register_wrong s.registry name info token draw wrong) refl in
      let (response, after, e, fine) = told_fresh s.registry name info draw in
      (same, (response, after, ap (λ x. x.1) same ∙ e, fine))
