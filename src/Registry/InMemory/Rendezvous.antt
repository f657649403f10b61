-- ===== src/Registry/InMemory/Rendezvous.antt =====
-- What the two clients of a pairing get from `InMemoryRegistry` (server/rust/src/registry.rs).
use tcpunch.Registry.InMemory.Preserve.{IsPending-ne-unissued}
use tcpunch.Platform.Channels.{
  state-channel_self, state-send_self, state-drop_sender_self, state-channel_issued,
  state-drop_sender_ne, channel-ne_issued,
}
use tcpunch.Platform.Maps.{get-insert_self, get-remove_self}
use tcpunch.Base.{refl, some, none, ok, Name, Option, ◌≡◌, ◌≢◌, ◌∙◌, ap, sym}
use tcpunch.Platform.{Platform, open_, after_send, after_drop_sender, unissued}
use tcpunch.Protocol.{PeerConnectionData}
use tcpunch.Registry.{waiting, paired, resumed}
use tcpunch.Registry.InMemory.{
  InMemoryRegistry, PairingEntry, Draw, pairing_map, token_map, register, complete_pairing,
  register_first, refresh, first_entry, notify, drop_notify,
}
use tcpunch.Registry.InMemory.Branches.{register_waiting, register_paired, register_resumed}
use tcpunch.Registry.InMemory.Invariant.{Inv, token_of}

module _ (P : Platform PeerConnectionData) (r : InMemoryRegistry P) (v : Inv P r) (name : Name)
    (info : PeerConnectionData) (draw : Draw P) where
  open P use {uuid.{Uuid, uuid_discrete}, oneshot.{Sender, Receiver, channel, receiver, state}}
  open pairing_map P use {get as get_pairing}
  open token_map P use {get as get_token}

  -- The client that comes to an empty name waits: it is told its fresh token and a receiver, and the
  -- registry holds an entry with its address, that token, the time of the call and the sender of
  -- the receiver's channel, which is open.
  pub register_first_lem :
      (token : Option Uuid)
      → get_pairing r.pairings name ≡ none
      → let x = register P r name info token draw in
        let rx = (channel r.channels).2 in
        (x.1 ≡ ok (waiting draw.token rx))
        × (get_token x.0.tokens draw.token ≡ some name)
        × (state x.0.channels rx ≡ open_)
        × ((e : PairingEntry P) × (get_pairing x.0.pairings name ≡ some e)
            × (e.waiting_client.connection_info ≡ info)
            × (token_of P e ≡ draw.token)
            × (e.created_at ≡ draw.now)
            × ((tx : Sender) × (e.notify_tx ≡ some tx) × (receiver tx ≡ rx)))
  unfolding register_first first_entry
  register_first_lem token absent = rw (register_waiting P r name info draw token absent) (
    refl,
    get-insert_self (token_map P) r.tokens draw.token name,
    state-channel_self P.oneshot r.channels,
    (
      first_entry P r.config info (channel r.channels).1 draw,
      get-insert_self (pairing_map P) r.pairings name _,
      refl,
      refl,
      refl,
      ((channel r.channels).1, refl, P.oneshot.receiver-channel r.channels),
    ),
  )

  -- The client that comes to a taken name with any other token is paired at once with the waiting
  -- client's address, and the waiting client's receiver gets the newcomer's address, if it is still
  -- listening; the entry and its token are gone, so that no third client is paired with it.
  pub register_second_lem :
      (e : PairingEntry P) (token : Option Uuid)
      → get_pairing r.pairings name ≡ some e
      → token ≢ some (token_of P e)
      → let x = register P r name info token draw in
        (x.1 ≡ ok (paired draw.token e.waiting_client.connection_info))
        × ((tx : Sender) × (e.notify_tx ≡ some tx)
            × (state x.0.channels (receiver tx) ≡ after_send info (state r.channels (receiver tx))))
        × (get_pairing x.0.pairings name ≡ none)
        × (get_token x.0.tokens (token_of P e) ≡ none)
  unfolding complete_pairing notify
  register_second_lem e token stored other =
      let (tx, held, _) = v.pending name e stored in
      rw (register_paired P r name info draw e token stored other) (
        refl,
        (tx, held, rw (held, notify) (state-send_self P.oneshot r.channels tx info)),
        get-remove_self (pairing_map P) r.pairings name,
        get-remove_self (token_map P) r.tokens (token_of P e),
      )

  -- The client that comes back with the token of the waiting entry takes the entry over: the entry
  -- keeps its token and its age, has the new address, and its channel is a new one, open; the
  -- channel of the old connection is closed.
  pub register_resumed_lem :
      (e : PairingEntry P)
      → get_pairing r.pairings name ≡ some e
      → let x = register P r name info (some (token_of P e)) draw in
        let rx = (channel r.channels).2 in
        (x.1 ≡ ok (resumed (token_of P e) rx))
        × (state x.0.channels rx ≡ open_)
        × ((tx : Sender) × (e.notify_tx ≡ some tx)
            × (state x.0.channels (receiver tx)
                ≡ after_drop_sender (state r.channels (receiver tx))))
        × ((f : PairingEntry P) × (get_pairing x.0.pairings name ≡ some f)
            × (f.waiting_client.connection_info ≡ info)
            × (token_of P f ≡ token_of P e)
            × (f.created_at ≡ e.created_at))
  unfolding refresh drop_notify
  register_resumed_lem e stored =
      let (tx, held, p) = v.pending name e stored in
      let issued = IsPending-ne-unissued (state r.channels (receiver tx)) p in
      rw (register_resumed P r name info draw e stored (v.indexed name e stored)) (
        refl,
        rw (held, drop_notify)
            (state-drop_sender_ne P.oneshot (channel r.channels).0 tx (channel r.channels).2
                (λ q. channel-ne_issued P.oneshot r.channels (receiver tx) issued (sym q))
              ∙ state-channel_self P.oneshot r.channels),
        (tx, held, closed tx held issued),
        (
          refresh P e info (channel r.channels).1,
          get-insert_self (pairing_map P) r.pairings name _,
          refl,
          refl,
          refl,
        ),
      )
    where
      closed :
          (tx : Sender)
          → e.notify_tx ≡ some tx
          → state r.channels (receiver tx) ≢ unissued
          → state (drop_notify P (channel r.channels).0 e.notify_tx) (receiver tx)
            ≡ after_drop_sender (state r.channels (receiver tx))
      closed tx held issued =
          rw (held, drop_notify)
            (state-drop_sender_self P.oneshot (channel r.channels).0 tx
              ∙ ap after_drop_sender
                  (state-channel_issued P.oneshot r.channels (receiver tx) issued))
