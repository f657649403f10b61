-- ===== src/Registry/InMemory/Calls.antt =====
-- `register` and `unregister` of `InMemoryRegistry` keep its invariant
-- (server/rust/src/registry.rs).
use tcpunch.Platform.Maps.{get-remove_ne}
use tcpunch.Platform.Channels.{
  state-drop_sender_ne, channel-ne_issued, state-send_ne, state-channel_issued, state-channel_self,
}
use tcpunch.Base.{
  refl, some, inl, Name, ◌≡◌, ite, ◌≢◌, subst, if_pos, some-injective, if_neg, ◌∙◌, sym, ap,
}
use tcpunch.Platform.{Platform, open_}
use tcpunch.Protocol.{PeerConnectionData}
use tcpunch.Registry.InMemory.{
  InMemoryRegistry, PairingEntry, Draw, pairing_map, token_map, complete_pairing, drop_notify,
  notify, refresh,
}
use tcpunch.Registry.InMemory.Branches.{unregister_stored, resume}
use tcpunch.Registry.InMemory.Invariant.{Inv, IsPending, token_of}
use tcpunch.Registry.InMemory.Preserve.{remove-Inv, insert-Inv, IsPending-ne-unissued}

module _ (P : Platform PeerConnectionData) (r : InMemoryRegistry P) (v : Inv P r) where
  open P use {
    uuid.{Uuid, uuid_discrete},
    oneshot.{Channels, Sender, Receiver, channel, send, drop_sender, receiver, state},
  }
  open pairing_map P use {get as get_pairing, insert as insert_pairing, remove as remove_pairing}
  open token_map P use {
    Map as Tokens, get as get_token, insert as insert_token, remove as remove_token,
  }

  -- Two names have two tokens.
  pub token-apart :
      (n m : Name) (e f : PairingEntry P)
      → get_pairing r.pairings n ≡ some e
      → get_pairing r.pairings m ≡ some f
      → n ≢ m
      → token_of P e ≢ token_of P f
  token-apart n m e f h k ne same =
      ne (
        some-injective n m (sym (v.indexed n e h) ∙ ap (get_token r.tokens) same ∙ v.indexed m f k))

  pub held-IsPending :
      (n : Name) (e : PairingEntry P) (tx : Sender)
      → get_pairing r.pairings n ≡ some e
      → e.notify_tx ≡ some tx
      → IsPending (state r.channels (receiver tx))
  held-IsPending n e tx h q =
      let (tx', held, p) = v.pending n e h in
      subst (λ x. IsPending (state r.channels (receiver x))) (some-injective tx' tx (sym held ∙ q))
        p

  -- Sending to, or dropping, the sender of one entry changes no other entry's channel.
  module _ (n₀ : Name) (e₀ : PairingEntry P) (stored : get_pairing r.pairings n₀ ≡ some e₀) where
    pub receiver_apart :
        (n : Name) (e : PairingEntry P) (tx tx₀ : Sender)
        → n₀ ≢ n
        → get_pairing r.pairings n ≡ some e
        → e.notify_tx ≡ some tx
        → e₀.notify_tx ≡ some tx₀
        → receiver tx₀ ≢ receiver tx
    receiver_apart n e tx tx₀ ne h q q₀ same = ne (v.apart n₀ n e₀ e tx₀ tx stored h q₀ q same)

    notify_others :
        (info : PeerConnectionData) (n : Name) (e : PairingEntry P) (tx : Sender)
        → n₀ ≢ n
        → get_pairing r.pairings n ≡ some e
        → e.notify_tx ≡ some tx
        → state (notify P r.channels e₀.notify_tx info) (receiver tx)
          ≡ state r.channels (receiver tx)
    unfolding notify
    notify_others info n e tx ne h q =
        let (tx₀, q₀, _) = v.pending n₀ e₀ stored in
        rw (q₀, notify)
          (state-send_ne P.oneshot r.channels tx₀ info (receiver tx)
            (receiver_apart n e tx tx₀ ne h q q₀))

    drop_others :
        (cs : Channels) (n : Name) (e : PairingEntry P) (tx : Sender)
        → n₀ ≢ n
        → get_pairing r.pairings n ≡ some e
        → e.notify_tx ≡ some tx
        → state (drop_notify P cs e₀.notify_tx) (receiver tx) ≡ state cs (receiver tx)
    unfolding drop_notify
    drop_others cs n e tx ne h q =
        let (tx₀, q₀, _) = v.pending n₀ e₀ stored in
        rw (q₀, drop_notify)
          (state-drop_sender_ne P.oneshot cs tx₀ (receiver tx)
            (receiver_apart n e tx tx₀ ne h q q₀))

    remove_token_others :
        (n : Name) (e : PairingEntry P)
        → n₀ ≢ n
        → get_pairing r.pairings n ≡ some e
        → get_token (remove_token r.tokens (token_of P e₀)) (token_of P e) ≡ some n
    remove_token_others n e ne h =
        get-remove_ne (token_map P) r.tokens (token_of P e₀) (token_of P e)
          (token-apart n₀ n e₀ e stored h ne)
        ∙ v.indexed n e h

    pub complete_pairing-Inv :
        (info : PeerConnectionData) (draw : Draw P) → Inv P (complete_pairing P r n₀ e₀ info draw).0
    unfolding complete_pairing
    complete_pairing-Inv info draw =
        remove-Inv P r n₀ _ _ v
          (record { kept_index = remove_token_others; kept_state = notify_others info })

    pub unregister_stored-Inv : (token : Uuid) → Inv P (unregister_stored P r n₀ e₀ token)
    unregister_stored-Inv token =
        remove-Inv P r n₀ _ _ v (record { kept_index = kept; kept_state = drop_others r.channels })
      where
        kept :
            (n : Name) (e : PairingEntry P)
            → n₀ ≢ n
            → get_pairing r.pairings n ≡ some e
            → get_token
                (ite (uuid_discrete (token_of P e₀) token) (remove_token r.tokens token) r.tokens)
                (token_of P e)
              ≡ some n
        kept n e ne h = elim (uuid_discrete (token_of P e₀) token) [
          | yes p ↦ rw (if_pos _ p) (
              subst (λ t. get_token (remove_token r.tokens t) (token_of P e) ≡ some n) p
                (remove_token_others n e ne h))
          | no p ↦ rw (if_neg _ p) (v.indexed n e h)
        ]

    pub resume-Inv : (info : PeerConnectionData) → Inv P (resume P r n₀ e₀ info)
    unfolding refresh drop_notify
    resume-Inv info =
        insert-Inv P r n₀ (refresh P e₀ info (channel r.channels).1) (channel r.channels).1 r.tokens
          _ v (record { kept_index = λ n e ne h. v.indexed n e h; kept_state = kept })
          (v.indexed n₀ e₀ stored) refl (inl opened) own
      where
        own :
            (r' : Receiver) → IsPending (state r.channels r') → receiver (channel r.channels).1 ≢ r'
        own r' p e =
            channel-ne_issued P.oneshot r.channels r' (IsPending-ne-unissued _ p)
              (sym (P.oneshot.receiver-channel r.channels) ∙ e)

        kept :
            (n : Name) (e : PairingEntry P) (tx : Sender)
            → n₀ ≢ n
            → get_pairing r.pairings n ≡ some e
            → e.notify_tx ≡ some tx
            → state (drop_notify P (channel r.channels).0 e₀.notify_tx) (receiver tx)
              ≡ state r.channels (receiver tx)
        kept n e tx ne h q =
            drop_others (channel r.channels).0 n e tx ne h q
            ∙ state-channel_issued P.oneshot r.channels (receiver tx)
                (IsPending-ne-unissued _ (held-IsPending n e tx h q))

        opened :
            state
              (drop_notify P (channel r.channels).0 e₀.notify_tx)
              (receiver (channel r.channels).1)
            ≡ open_
        opened =
            let (tx₀, q₀, p₀) = v.pending n₀ e₀ stored in
            rw (q₀, drop_notify, P.oneshot.receiver-channel r.channels)
              (state-drop_sender_ne P.oneshot (channel r.channels).0 tx₀ (channel r.channels).2
                  (λ e.
                    channel-ne_issued P.oneshot r.channels (receiver tx₀)
                      (IsPending-ne-unissued _ p₀) (sym e))
                ∙ state-channel_self P.oneshot r.channels)
