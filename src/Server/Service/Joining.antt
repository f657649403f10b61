-- ===== src/Server/Service/Joining.antt =====
-- What `register` of the in-memory registry does to those who listen (server/rust/src/registry.rs).
use mathlib.Core.Path.{ap₂}
use tcpunch.Base.{
  Name, ◌∷◌, Option, some, ok, inl, inr, ◌≡◌, ◌≢◌, ◌⊎◌, ◌∙◌, refl, sym, subst, Occurs, if_pos,
  if_neg,
}
use tcpunch.Platform.{Platform, Chan, unissued, open_, sender_gone, receiver_gone, sent, after_send}
use tcpunch.Platform.Channels.{
  state-channel_self, channel-ne_issued, state-channel_issued, state-drop_sender_ne,
}
use tcpunch.Platform.Maps.{get-remove_cases}
use tcpunch.Protocol.{PeerConnectionData}
use tcpunch.Registry.{resumed}
use tcpunch.Registry.InMemory.{
  InMemoryRegistry, PairingEntry, Draw, pairing_map, token_map, register, register_first,
  complete_pairing, first_entry, refresh, notify, drop_notify,
}
use tcpunch.Registry.InMemory.Branches.{resume}
use tcpunch.Registry.InMemory.Fade.{Fades-drop_notify}
use tcpunch.Registry.InMemory.Invariant.{Inv}
use tcpunch.Registry.InMemory.Preserve.{IsPending-ne-unissued}
use tcpunch.Registry.InMemory.Register.{register_cases}
use tcpunch.Server.Service.{Requests}
use tcpunch.Server.Service.Listener.{Calms, Calms-Fades, Entries, Listener}
use tcpunch.Server.Service.Inserting.{Joined, insert-Entries, insert-Listener, insert-Outcome}

open-ne-unissued : {A : Type 0} → ¬ (◌≡◌ {A = Chan A} open_ unissued)
open-ne-unissued e = cc

open-ne-sent : {A : Type 0} {p : A} → ¬ (◌≡◌ {A = Chan A} open_ (sent p))
open-ne-sent e = cc

after_send-ne-unissued :
    {A : Type 0} (a : A) (c : Chan A) → c ≢ unissued → after_send a c ≢ unissued
after_send-ne-unissued a open_ h e = cc
after_send-ne-unissued a unissued h e = h e
after_send-ne-unissued a sender_gone h e = cc
after_send-ne-unissued a receiver_gone h e = cc
after_send-ne-unissued a (sent b) h e = cc

after_send_cases :
    {A : Type 0} (a : A) (c : Chan A) (p : A) → after_send a c ≡ sent p → (a ≡ p) ⊎ (c ≡ sent p)
after_send_cases a open_ p e = inl (cc)
after_send_cases a unissued p e = inr e
after_send_cases a sender_gone p e = inr e
after_send_cases a receiver_gone p e = inr e
after_send_cases a (sent b) p e = inr e

module _ (P : Platform PeerConnectionData) where
  open P use {
    oneshot.{Channels, Sender, Receiver, receiver, receiver_discrete, state, channel, send},
  }
  open pairing_map P use {get as get_pairing}

  module _ (seen : Requests) (r : InMemoryRegistry P) (v : Inv P r) (known : Entries P seen r)
      (name : Name) (info : PeerConnectionData) where
    abbrev seen' : Requests
    seen' = (name, info) ∷ seen

    abbrev fresh : Receiver
    fresh = (channel r.channels).2

    channel-Calms :
        (rx : Receiver)
        → state r.channels rx ≢ unissued
        → Calms (state r.channels rx) (state (channel r.channels).0 rx)
    channel-Calms rx made =
        Calms-Fades _ _ (inl (state-channel_issued P.oneshot r.channels rx made))

    first-Joined :
        (draw : Draw P)
        → Joined P seen r name info
            ((register_first P r name info draw).0, ok (register_first P r name info draw).1)
    unfolding register_first first_entry
    first-Joined draw =
        let e₀ = first_entry P r.config info (channel r.channels).1 draw in
        let tokens = (token_map P).insert r.tokens draw.token name in
        let listening = state-channel_self P.oneshot r.channels in
        record {
          entries =
              insert-Entries P seen r v known name info e₀ tokens (channel r.channels).0 refl refl
                channel-Calms listening;
          listeners =
              insert-Listener P seen r v known name info e₀ tokens (channel r.channels).0 refl refl
                channel-Calms listening;
          outcome =
              insert-Outcome P seen r v known name info e₀ tokens (channel r.channels).0 refl refl
                channel-Calms listening;
        }

    resume-Joined :
        (e : PairingEntry P)
        → get_pairing r.pairings name ≡ some e
        → Joined P seen r name info
            (resume P r name e info, ok (resumed e.waiting_client.reconnect_token fresh))
    unfolding refresh drop_notify
    resume-Joined e stored =
        let e₀ = refresh P e info (channel r.channels).1 in
        let channels = drop_notify P (channel r.channels).0 e.notify_tx in
        record {
          entries =
              insert-Entries P seen r v known name info e₀ r.tokens channels refl refl calm
                listening;
          listeners =
              insert-Listener P seen r v known name info e₀ r.tokens channels refl refl calm
                listening;
          outcome =
              insert-Outcome P seen r v known name info e₀ r.tokens channels refl refl calm
                listening;
        }
      where
        calm :
            (rx : Receiver)
            → state r.channels rx ≢ unissued
            → Calms
                (state r.channels rx)
                (state (drop_notify P (channel r.channels).0 e.notify_tx) rx)
        calm rx made =
            subst (λ c. Calms c (state (drop_notify P (channel r.channels).0 e.notify_tx) rx))
              (state-channel_issued P.oneshot r.channels rx made)
              (Calms-Fades _ _ (Fades-drop_notify P (channel r.channels).0 e.notify_tx rx))

        listening : state (drop_notify P (channel r.channels).0 e.notify_tx) fresh ≡ open_
        listening =
            let (tx, held, p) = v.pending name e stored in
            rw (held, drop_notify)
              (state-drop_sender_ne P.oneshot (channel r.channels).0 tx fresh (λ q.
                  channel-ne_issued P.oneshot r.channels (receiver tx) (IsPending-ne-unissued _ p)
                    (sym q))
                ∙ state-channel_self P.oneshot r.channels)

    pair-Joined :
        (draw : Draw P) (e : PairingEntry P)
        → get_pairing r.pairings name ≡ some e
        → Joined P seen r name info (
          (complete_pairing P r name e info draw).0,
          ok (complete_pairing P r name e info draw).1,
        )
    unfolding complete_pairing notify
    pair-Joined draw e stored =
        let (tx, held, p) = v.pending name e stored in
        record {
          entries =
              λ n f h. inr (known n f (get-remove_cases (pairing_map P) r.pairings name n f h).1);
          listeners = λ n i rx l. record {
            made = (told_of tx rx n i l held).0;
            own = inr l.own;
            told = (told_of tx rx n i l held).1;
            under = λ m f ty h.
                l.under m f ty (get-remove_cases (pairing_map P) r.pairings name m f h).1;
          };
          outcome = inr (known name e stored);
        }
      where
        told_of :
            (tx : Sender) (rx : Receiver) (n : Name) (i : PeerConnectionData)
            → Listener P seen r n i rx
            → e.notify_tx ≡ some tx
            → (state (notify P r.channels e.notify_tx info) rx ≢ unissued)
              × ((p : PeerConnectionData)
                  → state (notify P r.channels e.notify_tx info) rx ≡ sent p
                  → Occurs (n, p) seen')
        told_of tx rx n i l held =
            rw (held, notify)
              (elim (receiver_discrete (receiver tx) rx) [
                | yes same ↦
                    let after : state (send r.channels tx info) rx
                        ≡ after_send info (state r.channels rx) =
                      P.oneshot.state-send r.channels tx info rx
                      ∙ if_pos (receiver_discrete (receiver tx) rx) same _ _ in
                    (
                      λ h. after_send-ne-unissued info (state r.channels rx) l.made (sym after ∙ h),
                      λ p h. elim (after_send_cases info (state r.channels rx) p (sym after ∙ h)) [
                        | inl q ↦
                            inl (
                              ap₂ (λ (x : Name) y. (x, y)) (l.under name e tx stored held same).0 q)
                        | inr q ↦ inr (l.told p q)
                      ],
                    )
                | no other ↦
                    let after : state (send r.channels tx info) rx ≡ state r.channels rx =
                      P.oneshot.state-send r.channels tx info rx
                      ∙ if_neg (receiver_discrete (receiver tx) rx) other _ _ in
                    (λ h. l.made (sym after ∙ h), λ p h. inr (l.told p (sym after ∙ h)))
              ])

    -- Whoever listens goes on to listen, and hears of requests of the own name only.
    pub register-Joined :
        (token : Option P.uuid.Uuid) (draw : Draw P)
        → Joined P seen r name info (register P r name info token draw)
    register-Joined token draw =
        register_cases P r v (Joined P seen r name info) name info token draw
          (λ e stored same. resume-Joined e stored) (λ e stored other. pair-Joined draw e stored)
          (λ absent. first-Joined draw)
