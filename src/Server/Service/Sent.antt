-- ===== src/Server/Service/Sent.antt =====
-- An address that has been sent stays in its channel until the channel's own receiver hangs up
-- (server/rust/src/registry.rs).
use tcpunch.Base.{Name, Option, none, some, inl, inr, ◌≡◌, ◌≢◌, ◌∙◌, sym, ap, if_pos, if_neg}
use tcpunch.Platform.{Platform, Chan, unissued, open_, sent, after_send}
use tcpunch.Platform.Channels.{state-channel_issued}
use tcpunch.Protocol.{PeerConnectionData}
use tcpunch.Registry.InMemory.{
  InMemoryRegistry, Draw, pairing_map, register, register_first, complete_pairing, notify,
}
use tcpunch.Registry.InMemory.Fade.{Fades, Fades-drop_notify, Shrinks}
use tcpunch.Registry.InMemory.Invariant.{Inv}
use tcpunch.Registry.InMemory.Register.{register_cases}
use tcpunch.Server.Service.Listener.{hung_up}

sent-ne-unissued : {A : Type 0} {p : A} → ¬ (◌≡◌ {A = Chan A} (sent p) unissued)
sent-ne-unissued e = cc

sent-ne-open : {A : Type 0} {p : A} → ¬ (◌≡◌ {A = Chan A} (sent p) open_)
sent-ne-open e = cc

sent-Fades : {A : Type 0} (c d : Chan A) (p : A) → Fades c d → c ≡ sent p → d ≡ sent p
sent-Fades c d p (inl e) h = e ∙ h
sent-Fades c d p (inr (o, g)) h = absurd (sent-ne-open (sym h ∙ o))

module _ (P : Platform PeerConnectionData) where
  open P use {
    uuid.{Uuid},
    oneshot.{Channels, Sender, Receiver, receiver, receiver_discrete, state, channel, send},
  }
  open pairing_map P use {get as get_pairing}

  module _ (rx : Receiver) (p : PeerConnectionData) where
    pub sent-Shrinks :
        (r r' : InMemoryRegistry P)
        → Shrinks P r r'
        → state r.channels rx ≡ sent p
        → state r'.channels rx ≡ sent p
    sent-Shrinks r r' s h =
        sent-Fades (state r.channels rx) (state r'.channels rx) p (s.channels rx) h

    pub sent-hang_up :
        (r : InMemoryRegistry P) (ry : Receiver)
        → ry ≢ rx
        → state r.channels rx ≡ sent p
        → state (hung_up P r ry).channels rx ≡ sent p
    sent-hang_up r ry other h =
        P.oneshot.state-drop_receiver r.channels ry rx
        ∙ if_neg (receiver_discrete ry rx) other _ _
        ∙ h

    sent-notify :
        (cs : Channels) (o : Option Sender) (info : PeerConnectionData)
        → state cs rx ≡ sent p
        → state (notify P cs o info) rx ≡ sent p
    unfolding notify
    sent-notify cs none info h = h
    sent-notify cs (some tx) info h = elim (receiver_discrete (receiver tx) rx) [
      | yes same ↦
          P.oneshot.state-send cs tx info rx
          ∙ if_pos (receiver_discrete (receiver tx) rx) same _ _
          ∙ ap (after_send info) h
      | no other ↦
          P.oneshot.state-send cs tx info rx
          ∙ if_neg (receiver_discrete (receiver tx) rx) other _ _
          ∙ h
    ]

    module _ (r : InMemoryRegistry P) (v : Inv P r) (h : state r.channels rx ≡ sent p) where
      sent-channel : state (channel r.channels).0 rx ≡ sent p
      sent-channel =
          state-channel_issued P.oneshot r.channels rx (λ e. sent-ne-unissued (sym h ∙ e)) ∙ h

      pub sent-register :
          (name : Name) (info : PeerConnectionData) (token : Option Uuid) (draw : Draw P)
          → state (register P r name info token draw).0.channels rx ≡ sent p
      unfolding register_first complete_pairing
      sent-register name info token draw =
          register_cases P r v (λ x. state x.0.channels rx ≡ sent p) name info token draw
            (λ e stored same.
              sent-Fades (state (channel r.channels).0 rx) _ p
                (Fades-drop_notify P (channel r.channels).0 e.notify_tx rx) sent-channel)
            (λ e stored other. sent-notify r.channels e.notify_tx info h) (λ absent. sent-channel)
