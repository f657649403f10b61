-- ===== src/Server/Service/Inserting.antt =====
-- What `register` of the in-memory registry does to those who listen (server/rust/src/registry.rs).
use mathlib.Core.Path.{ap₂}
use tcpunch.Base.{
  Name, ◌∷◌, some, ok, err, inl, inr, ◌≡◌, ◌≢◌, ◌⊎◌, ◌∙◌, refl, sym, ap, Occurs, Result,
  some-injective,
}
use tcpunch.Platform.{Platform, Chan, unissued, open_, sender_gone, receiver_gone, sent, after_send}
use tcpunch.Platform.Channels.{channel-ne_issued}
use tcpunch.Platform.Maps.{get-insert_cases}
use tcpunch.Protocol.{PeerConnectionData}
use tcpunch.Registry.{RegistrationResult, RegistryError, waiting, paired, resumed}
use tcpunch.Registry.InMemory.{InMemoryRegistry, PairingEntry, pairing_map, token_map}
use tcpunch.Registry.InMemory.Invariant.{Inv}
use tcpunch.Registry.InMemory.Preserve.{IsPending-ne-unissued}
use tcpunch.Registry.InMemory.Calls.{held-IsPending}
use tcpunch.Server.Service.{Requests}
use tcpunch.Server.Service.Listener.{Calms, Entries, Listener}

open-ne-unissued : {A : Type 0} → ¬ (◌≡◌ {A = Chan A} open_ unissued)
open-ne-unissued e = cc

open-ne-sent : {A : Type 0} {p : A} → ¬ (◌≡◌ {A = Chan A} open_ (sent p))
open-ne-sent e = cc

after_send-ne-unissued :
    {A : Type 0} (a : A) (c : Chan A) → c ≢ unissued → after_send a c ≢ unissued
after_send-ne-unissued a open_ h e = cc
after_send-ne-unissued a unissued h e = h e
after_send-ne-unissued a sender_gone h e = cc
after_send-ne-unissued a receiver_gone h e = cc
after_send-ne-unissued a (sent b) h e = cc

after_send_cases :
    {A : Type 0} (a : A) (c : Chan A) (p : A) → after_send a c ≡ sent p → (a ≡ p) ⊎ (c ≡ sent p)
after_send_cases a open_ p e = inl (cc)
after_send_cases a unissued p e = inr e
after_send_cases a sender_gone p e = inr e
after_send_cases a receiver_gone p e = inr e
after_send_cases a (sent b) p e = inr e

module _ (P : Platform PeerConnectionData) where
  open P use {
    oneshot.{Channels, Sender, Receiver, receiver, receiver_discrete, state, channel, send},
  }
  open pairing_map P use {get as get_pairing, insert as insert_pairing}
  open token_map P use {Map as Tokens}

  -- What the caller of `register` gets: the address of a request of the name, or a new channel.
  abbrev pub Outcome :
      Requests
      → (r r' : InMemoryRegistry P) → Name
      → PeerConnectionData
      → Result (RegistrationResult P) RegistryError
      → Type 0
  Outcome seen r r' name info (ok (paired token peer)) = Occurs (name, peer) seen
  Outcome seen r r' name info (ok (waiting token rx)) =
      Listener P seen r' name info rx × (state r.channels rx ≡ unissued)
  Outcome seen r r' name info (ok (resumed token rx)) =
      Listener P seen r' name info rx × (state r.channels rx ≡ unissued)
  Outcome seen r r' name info (err e) = Unit {0}

  pub record Joined (seen : Requests) (r : InMemoryRegistry P) (name : Name)
      (info : PeerConnectionData)
      (x : InMemoryRegistry P × Result (RegistrationResult P) RegistryError) : Type 0 where
    pub entries : Entries P ((name, info) ∷ seen) x.0
    pub listeners :
        (n : Name) (i : PeerConnectionData) (rx : Receiver)
        → Listener P seen r n i rx
        → Listener P ((name, info) ∷ seen) x.0 n i rx
    pub outcome : Outcome ((name, info) ∷ seen) r x.0 name info x.1

  module _ (seen : Requests) (r : InMemoryRegistry P) (v : Inv P r) (known : Entries P seen r)
      (name : Name) (info : PeerConnectionData) where
    abbrev seen' : Requests
    seen' = (name, info) ∷ seen

    abbrev fresh : Receiver
    fresh = (channel r.channels).2

    -- An entry under the name with a new channel.
    module _ (e₀ : PairingEntry P) (tokens : Tokens) (channels : Channels)
        (held : e₀.notify_tx ≡ some (channel r.channels).1)
        (own : e₀.waiting_client.connection_info ≡ info)
        (calm : (rx : Receiver)
          → state r.channels rx ≢ unissued
          → Calms (state r.channels rx) (state channels rx))
        (listening : state channels fresh ≡ open_) where
      abbrev after : InMemoryRegistry P
      after = record r {
        pairings = insert_pairing r.pairings name e₀;
        tokens = tokens;
        channels = channels;
      }

      -- The entry sends to the new channel only, and the others to older ones.
      sends_to :
          (e : PairingEntry P) (tx : Sender) → e₀ ≡ e → e.notify_tx ≡ some tx → fresh ≡ receiver tx
      sends_to e tx same q =
          sym (P.oneshot.receiver-channel r.channels)
          ∙ ap receiver
              (some-injective _ tx (sym held ∙ ap (λ (x : PairingEntry P). x.notify_tx) same ∙ q))

      older :
          (n : Name) (e : PairingEntry P) (tx : Sender)
          → get_pairing r.pairings n ≡ some e
          → e.notify_tx ≡ some tx
          → fresh ≢ receiver tx
      older n e tx h q =
          channel-ne_issued P.oneshot r.channels (receiver tx)
            (IsPending-ne-unissued _ (held-IsPending P r v n e tx h q))

      pub insert-Entries : Entries P seen' after
      insert-Entries n e h = elim (get-insert_cases (pairing_map P) r.pairings name n e₀ e h) [
        | inl (a, b) ↦ inl (
            ap₂ (λ (x : Name) y. (x, y)) a
              (sym own ∙ ap (λ (x : PairingEntry P). x.waiting_client.connection_info) b))
        | inr (ne, h') ↦ inr (known n e h')
      ]

      pub insert-Listener :
          (n : Name) (i : PeerConnectionData) (rx : Receiver)
          → Listener P seen r n i rx
          → Listener P seen' after n i rx
      insert-Listener n i rx l = record {
        made = (calm rx l.made).0 l.made;
        own = inr l.own;
        told = λ p h. inr (l.told p ((calm rx l.made).1 p h));
        under = λ m e tx h q same.
            elim (get-insert_cases (pairing_map P) r.pairings name m e₀ e h) [
              | inl (a, b) ↦
                  absurd
                    (channel-ne_issued P.oneshot r.channels rx l.made (sends_to e tx b q ∙ same))
              | inr (ne, h') ↦ l.under m e tx h' q same
            ];
      }

      pub insert-Outcome :
          Listener P seen' after name info fresh × (state r.channels fresh ≡ unissued)
      insert-Outcome = (
        record {
          made = λ e. open-ne-unissued (sym listening ∙ e);
          own = inl refl;
          told = λ p h. absurd (open-ne-sent (sym listening ∙ h));
          under = λ m e tx h q same.
              elim (get-insert_cases (pairing_map P) r.pairings name m e₀ e h) [
                | inl (a, b) ↦ (
                  sym a,
                  ap (λ (x : PairingEntry P). x.waiting_client.connection_info) (sym b) ∙ own,
                )
                | inr (ne, h') ↦ absurd (older m e tx h' q (sym same))
              ];
        },
        P.oneshot.channel_fresh r.channels,
      )
