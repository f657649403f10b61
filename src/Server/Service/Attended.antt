-- ===== src/Server/Service/Attended.antt =====
-- The receiver of a connection that listens is not gone (server/rust/src/server.rs and registry.rs).
pub mod Steps
use tcpunch.Base.{
  ℕ, Name, List, [], ◌∷◌, Option, none, some, inl, inr, ◌≡◌, ◌≢◌, ◌∙◌, refl, sym, ap, Result,
  if_pos, if_neg, get_elem?, set, get_elem?-set_cases,
}
use tcpunch.Platform.{Platform, Chan, unissued, open_, sender_gone, receiver_gone, sent, after_send}
use tcpunch.Protocol.{PeerConnectionData}
use tcpunch.Registry.{RegistrationResult, RegistryError}
use tcpunch.Registry.InMemory.{
  InMemoryRegistry, Draw, register, register_first, complete_pairing, notify,
}
use tcpunch.Registry.InMemory.Branches.{resume}
use tcpunch.Registry.InMemory.Fade.{Fades, Fades-drop_notify, Shrinks}
use tcpunch.Registry.InMemory.Invariant.{Inv}
use tcpunch.Registry.InMemory.Register.{register_cases}
use tcpunch.Server.Accept.{Task}
use tcpunch.Server.Service.Apart.{heard_at}
use tcpunch.Server.Service.Listener.{hung_up}

module _ {A : Type 0} where
  sender_gone-ne-receiver_gone : ¬ (◌≡◌ {A = Chan A} sender_gone receiver_gone)
  sender_gone-ne-receiver_gone e = cc

  open-ne-receiver_gone : ¬ (◌≡◌ {A = Chan A} open_ receiver_gone)
  open-ne-receiver_gone e = cc

  gone-Fades : (c d : Chan A) → Fades c d → d ≡ receiver_gone → c ≡ receiver_gone
  gone-Fades c d (inl e) h = sym e ∙ h
  gone-Fades c d (inr (o, g)) h = absurd (sender_gone-ne-receiver_gone (sym g ∙ h))

  gone-after_send : (p : A) (c : Chan A) → after_send p c ≡ receiver_gone → c ≡ receiver_gone
  gone-after_send p open_ h = absurd (cc)
  gone-after_send p unissued h = h
  gone-after_send p sender_gone h = h
  gone-after_send p receiver_gone h = h
  gone-after_send p (sent a) h = h

module _ (P : Platform PeerConnectionData) where
  open P use {
    uuid.{Uuid},
    oneshot.{Channels, Sender, Receiver, receiver, receiver_discrete, state, channel},
  }

  module _ (rx : Receiver) where
    pub gone-Shrinks :
        (r r' : InMemoryRegistry P)
        → Shrinks P r r'
        → state r'.channels rx ≡ receiver_gone
        → state r.channels rx ≡ receiver_gone
    gone-Shrinks r r' s h = gone-Fades _ _ (s.channels rx) h

    pub gone-hang_up :
        (r : InMemoryRegistry P) (ry : Receiver)
        → ry ≢ rx
        → state (hung_up P r ry).channels rx ≡ receiver_gone
        → state r.channels rx ≡ receiver_gone
    gone-hang_up r ry other h =
        sym (
          P.oneshot.state-drop_receiver r.channels ry rx
          ∙ if_neg (receiver_discrete ry rx) other _ _)
        ∙ h

    gone-notify :
        (cs : Channels) (o : Option Sender) (info : PeerConnectionData)
        → state (notify P cs o info) rx ≡ receiver_gone
        → state cs rx ≡ receiver_gone
    unfolding notify
    gone-notify cs none info h = h
    gone-notify cs (some tx) info h = elim (receiver_discrete (receiver tx) rx) [
      | yes same ↦ gone-after_send info (state cs rx) (
          sym (
            P.oneshot.state-send cs tx info rx
            ∙ if_pos (receiver_discrete (receiver tx) rx) same _ _)
          ∙ h)
      | no other ↦
          sym (
            P.oneshot.state-send cs tx info rx
            ∙ if_neg (receiver_discrete (receiver tx) rx) other _ _)
          ∙ h
    ]

    gone-channel :
        (cs : Channels) → state (channel cs).0 rx ≡ receiver_gone → state cs rx ≡ receiver_gone
    gone-channel cs h = elim (receiver_discrete (channel cs).2 rx) [
      | yes same ↦ absurd (
          open-ne-receiver_gone (
            sym (
              P.oneshot.state-channel cs rx ∙ if_pos (receiver_discrete (channel cs).2 rx) same _ _)
            ∙ h))
      | no other ↦
          sym
            (P.oneshot.state-channel cs rx ∙ if_neg (receiver_discrete (channel cs).2 rx) other _ _)
          ∙ h
    ]

    pub gone-register :
        (r : InMemoryRegistry P) (v : Inv P r) (name : Name) (info : PeerConnectionData)
        (token : Option Uuid) (draw : Draw P)
        → state (register P r name info token draw).0.channels rx ≡ receiver_gone
        → state r.channels rx ≡ receiver_gone
    unfolding register_first complete_pairing
    gone-register r v name info token draw =
        register_cases P r v
          (λ x. state x.0.channels rx ≡ receiver_gone → state r.channels rx ≡ receiver_gone) name
          info token draw
          (λ e stored same h.
            gone-channel r.channels
              (gone-Fades _ _ (Fades-drop_notify P (channel r.channels).0 e.notify_tx rx) h))
          (λ e stored other h. gone-notify r.channels e.notify_tx info h)
          (λ absent h. gone-channel r.channels h)

  -- Whatever channel a task listens to, its receiver is there.
  abbrev pub Attended : List (Task P) → Channels → Type 0
  Attended tasks cs =
      (i : ℕ) (rx : Receiver) (task : Task P)
      → get_elem? tasks i ≡ some task
      → heard_at P task ≡ some rx
      → state cs rx ≢ receiver_gone

  pub set-Attended :
      (tasks : List (Task P)) (cs cs' : Channels) (i : ℕ) (new : Task P)
      → Attended tasks cs
      → ((rx : Receiver) → heard_at P new ≡ some rx → state cs' rx ≢ receiver_gone)
      → ((j : ℕ) (rx : Receiver) (task : Task P)
          → i ≢ j
          → get_elem? tasks j ≡ some task
          → heard_at P task ≡ some rx
          → state cs' rx ≡ receiver_gone
          → state cs rx ≡ receiver_gone)
      → Attended (set tasks i new) cs'
  set-Attended tasks cs cs' i new attended mine others j rx task h q gone =
      elim (get_elem?-set_cases tasks i j new task h) [
        | inl (e, same) ↦ mine rx (ap (heard_at P) same ∙ q) gone
        | inr (ne, h') ↦ attended j rx task h' q (others j rx task ne h' q gone)
      ]
