-- ===== src/Registry/InMemory/Invariant.antt =====
-- What the two maps of `InMemoryRegistry` and its channels have in common
-- (server/rust/src/registry.rs).
use tcpunch.Base.{◌≡◌, Name, ne-of-some, some, ◌⊎◌}
use tcpunch.Platform.{Platform, Chan, open_, receiver_gone}
use tcpunch.Protocol.{PeerConnectionData}
use tcpunch.Registry.{RegistryConfig}
use tcpunch.Registry.InMemory.{PairingEntry, InMemoryRegistry, pairing_map, token_map, new}

-- The sender of such a channel has neither sent nor gone.
abbrev pub IsPending : {A : Type 0} → Chan A → Type 0
IsPending c = (c ≡ open_) ⊎ (c ≡ receiver_gone)

module _ (P : Platform PeerConnectionData) where
  open P use {uuid.{Uuid, uuid_discrete}, oneshot.{Channels, Sender, Receiver, receiver, state}}
  open pairing_map P use {get as get_pairing}
  open token_map P use {get as get_token}

  abbrev pub token_of : PairingEntry P → Uuid
  token_of entry = entry.waiting_client.reconnect_token

  pub record Inv (r : InMemoryRegistry P) : Type 0 where
    -- The index leads from an entry's token to the entry's name.
    pub indexed :
        (n : Name) (e : PairingEntry P)
        → get_pairing r.pairings n ≡ some e
        → get_token r.tokens (token_of e) ≡ some n
    -- An entry holds a sender whose channel is still pending.
    pub pending :
        (n : Name) (e : PairingEntry P)
        → get_pairing r.pairings n ≡ some e
        → (tx : Sender) × (e.notify_tx ≡ some tx) × IsPending (state r.channels (receiver tx))
    -- Entries of two names have two channels.
    pub apart :
        (n m : Name) (e f : PairingEntry P) (tx ty : Sender)
        → get_pairing r.pairings n ≡ some e
        → get_pairing r.pairings m ≡ some f
        → e.notify_tx ≡ some tx
        → f.notify_tx ≡ some ty
        → receiver tx ≡ receiver ty
        → n ≡ m

  -- The index also leads back: every indexed token is the token of the entry under its name.
  unfoldable pub NoOrphans : InMemoryRegistry P → Type 0
  NoOrphans r =
      (t : Uuid) (n : Name)
      → get_token r.tokens t ≡ some n
      → (e : PairingEntry P) × (get_pairing r.pairings n ≡ some e) × (token_of e ≡ t)

  pub new-Inv : (config : RegistryConfig) (cs : Channels) → Inv (new P config cs)
  unfolding new
  new-Inv config cs = record {
    indexed = λ n e h. absurd (ne-of-some ((pairing_map P).get-new n) h);
    pending = λ n e h. absurd (ne-of-some ((pairing_map P).get-new n) h);
    apart = λ n m e f tx ty h k p q s. absurd (ne-of-some ((pairing_map P).get-new n) h);
  }

  pub new-NoOrphans : (config : RegistryConfig) (cs : Channels) → NoOrphans (new P config cs)
  unfolding new NoOrphans
  new-NoOrphans config cs t n h = absurd (ne-of-some ((token_map P).get-new t) h)
