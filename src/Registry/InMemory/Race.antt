-- ===== src/Registry/InMemory/Race.antt =====
-- Two threads in `InMemoryRegistry::register` at once (server/rust/src/registry.rs): the removal
-- that finds no entry and the insertion of the new one are two calls on the map, so that another
-- thread's insertion may come between them.
use tcpunch.Base.{Name, some, none, refl, ◌≡◌, ◌≢◌, ◌∙◌, ap, subst, Option}
use tcpunch.Platform.{Platform, open_, unissued, sender_gone, after_drop_sender}
use tcpunch.Platform.Channels.{state-channel_self, state-drop_sender_self, state-channel_issued}
use tcpunch.Platform.Maps.{get-insert_self, get-insert_ne}
use tcpunch.Protocol.{PeerConnectionData}
use tcpunch.Registry.{RegistrationResult, waiting}
use tcpunch.Registry.InMemory.{
  InMemoryRegistry, PairingEntry, Draw, pairing_map, token_map, drop_notify, first_entry,
  register_first,
}

module _ (P : Platform PeerConnectionData) where
  open P use {
    uuid.{Uuid, uuid_discrete},
    oneshot.{Channels, Sender, channel, drop_sender, receiver, state},
  }
  open pairing_map P use {get as get_pairing, insert as insert_pairing}
  open token_map P use {get as get_token, insert as insert_token}

  -- The entry that an insertion replaces is dropped, and its sender with it.
  unfoldable pub drop_replaced : Channels → Option (PairingEntry P) → Channels
  drop_replaced cs none = cs
  drop_replaced cs (some entry) = drop_notify P cs entry.notify_tx

  -- The rest of `register`, once its removal has found no entry.
  unfoldable pub register_unpaired :
      InMemoryRegistry P
      → Name
      → PeerConnectionData
      → Draw P
      → InMemoryRegistry P × RegistrationResult P
  register_unpaired r name info draw =
      let (channels, tx, rx) = channel r.channels in
      (
        record r {
          pairings = insert_pairing r.pairings name (first_entry P r.config info tx draw);
          tokens = insert_token r.tokens draw.token name;
          channels = drop_replaced channels (get_pairing r.pairings name);
        },
        waiting draw.token rx,
      )

  -- Where no other thread has come between, this is the first registration of a call in one step.
  pub register_unpaired-register_first :
      (r : InMemoryRegistry P) (name : Name) (info : PeerConnectionData) (draw : Draw P)
      → get_pairing r.pairings name ≡ none
      → register_unpaired r name info draw ≡ register_first P r name info draw
  unfolding register_unpaired register_first drop_replaced
  register_unpaired-register_first r name info draw absent = rw absent refl

  -- The channel of a sender that goes once another channel has been made.
  closed :
      (cs : Channels)
      → state (drop_sender (channel (channel cs).0).0 (channel cs).1) (channel cs).2 ≡ sender_gone
  closed cs =
      subst (λ q. state (drop_sender (channel (channel cs).0).0 (channel cs).1) q ≡ sender_gone)
        (P.oneshot.receiver-channel cs)
        (state-drop_sender_self P.oneshot (channel (channel cs).0).0 (channel cs).1
          ∙ ap after_drop_sender (
              ap (state (channel (channel cs).0).0) (P.oneshot.receiver-channel cs)
              ∙ state-channel_issued P.oneshot (channel cs).0 (channel cs).2 issued
              ∙ state-channel_self P.oneshot cs))
    where
      issued : state (channel cs).0 (channel cs).2 ≢ unissued
      issued h =
          let o : state (channel cs).0 (channel cs).2 ≡ open_ = state-channel_self P.oneshot cs in
          cc

  -- Two clients of one name whose calls both find no entry, before either inserts its own, are not
  -- paired: both are told to wait, the entry is the later one's, the channel of the earlier one is
  -- closed, and its token stays in the index. The two fresh tokens differ.
  pub both_wait :
      (r : InMemoryRegistry P) (name : Name) (a b : PeerConnectionData) (draw draw' : Draw P)
      → get_pairing r.pairings name ≡ none
      → draw'.token ≢ draw.token
      → let x = register_unpaired r name a draw in
        let y = register_unpaired x.0 name b draw' in
        let rx = (channel r.channels).2 in
        (x.1 ≡ waiting draw.token rx)
        × (y.1 ≡ waiting draw'.token (channel x.0.channels).2)
        × (get_pairing y.0.pairings name
            ≡ some (first_entry P r.config b (channel x.0.channels).1 draw'))
        × (state y.0.channels rx ≡ sender_gone)
        × (get_token y.0.tokens draw.token ≡ some name)
  unfolding register_unpaired drop_replaced drop_notify first_entry
  both_wait r name a b draw draw' absent differ = (
    refl,
    refl,
    get-insert_self (pairing_map P) _ name _,
    rw
        (
          get-insert_self (pairing_map P) r.pairings name
              (first_entry P r.config a (channel r.channels).1 draw),
          absent,
        )
        (closed r.channels),
    get-insert_ne (token_map P) _ draw'.token draw.token name differ
        ∙ get-insert_self (token_map P) r.tokens draw.token name,
  )
