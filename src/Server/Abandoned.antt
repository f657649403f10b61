-- ===== src/Server/Abandoned.antt =====
-- A client that cannot be told to wait (server/rust/src/server.rs, over the registry of registry.rs).
use tcpunch.Base.{
  ℕ, List, some, refl, ◌≡◌, ◌≢◌, ◌∙◌, ap, sym, subst, false, inl, inr, if_pos, some-injective,
}
use tcpunch.Platform.{Platform, Chan, receiver_gone, after_send, after_drop_receiver}
use tcpunch.Protocol.{PeerConnectionData}
use tcpunch.Protocol.Request as Request
use tcpunch.Protocol.Request.RoundTrip.{IsWireName}
use tcpunch.Protocol.Response as Response
use tcpunch.Registry.InMemory.{PairingEntry, Draw, pairing_map, register}
use tcpunch.Registry.InMemory.Invariant.{Inv, IsPending, token_of}
use tcpunch.Registry.InMemory.History.{Step-Inv, hangs_up}
use tcpunch.Registry.InMemory.Rendezvous.{register_second_lem}
use tcpunch.Server.Connection.{
  Shared, writing, await_peer, succeed, finished, after_read, after_write, on_request,
  on_registered, received,
}
use tcpunch.Server.Meeting.{in_memory, after_read-to_bytes}

module _ (P : Platform PeerConnectionData) where
  open P use {
    uuid.{Uuid},
    oneshot.{Sender, Receiver, receiver, state, drop_receiver, receiver_discrete},
  }
  open pairing_map P use {get as get_pairing}

  gone_of_pending :
      (c : Chan PeerConnectionData) → IsPending c → after_drop_receiver c ≡ receiver_gone
  gone_of_pending c (inl e) = rw e refl
  gone_of_pending c (inr e) = rw e refl

  -- A client that waits under a name loses its connection before the response that tells it to wait
  -- is written: its task ends in an error, and its entry stays. The next client of the name, with
  -- another token (also a wrong one, which the code does not refuse) or none, is told the lost client's
  -- address and counts as paired, and what is sent to the lost client reaches nobody. The in-memory
  -- registry is well formed.
  pub client_abandoned :
      (s : Shared P (in_memory P)) (v : Inv P s.registry) (req : Request.ClientRequest P.uuid)
      (bytes : List ℕ) (e : PairingEntry P) (tx : Sender) (a b : PeerConnectionData) (draw : Draw P)
      → get_pairing s.registry.pairings req.pairing_name ≡ some e
      → e.notify_tx ≡ some tx
      → req.reconnect_token ≢ some (token_of P e)
      → IsWireName req.pairing_name
      → Request.to_bytes P.uuid req ≡ some bytes
      → let x =
          after_write P
            (in_memory P)
            s
            (await_peer a req.pairing_name (token_of P e) (receiver tx))
            false in
        let y = after_read P (in_memory P) x.0 draw b (received bytes) in
        (x.1 ≡ finished false)
        × (y.1
            ≡ writing
                (Response.paired P.uuid b e.waiting_client.connection_info draw.token)
                succeed)
        × (state y.0.registry.channels (receiver tx) ≡ receiver_gone)
  unfolding on_request on_registered after_write
  client_abandoned s v req bytes e tx a b draw stored held other w h =
      let name = req.pairing_name in
      let rx = receiver tx in
      let r' = record s.registry { channels = drop_receiver s.registry.channels rx } in
      let v' = Step-Inv P (hangs_up s.registry rx) v in
      let (tx', held', p) = v.pending name e stored in
      let one = some-injective tx tx' (sym held ∙ held') in
      let closed : state r'.channels rx ≡ receiver_gone =
        P.oneshot.state-drop_receiver s.registry.channels rx rx
        ∙ if_pos (receiver_discrete rx rx) refl _ _
        ∙ gone_of_pending _
            (subst (λ t. IsPending (state s.registry.channels (receiver t))) (sym one) p) in
      let (told, (tx'', held'', got), _, _) =
        register_second_lem P r' v' name b draw e req.reconnect_token stored other in
      let two = some-injective tx tx'' (sym held ∙ held'') in
      let s1 = record s { registry = r' } in
      let s2 = record s { registry = (register P r' name b req.reconnect_token draw).0 } in
      let read : after_read P (in_memory P) s1 draw b (received bytes) ≡ (
        s2,
        writing (Response.paired P.uuid b e.waiting_client.connection_info draw.token) succeed,
      ) =
        after_read-to_bytes P s1 draw b req bytes w h
        ∙ ap (λ q. (s2, on_registered P b name q)) told in
      rw read (
        refl,
        refl,
        subst (λ t. state s2.registry.channels (receiver t) ≡ receiver_gone) (sym two)
            (got
              ∙ ap (λ t. after_send b (state r'.channels (receiver t))) (sym two)
              ∙ ap (after_send b) closed),
      )
