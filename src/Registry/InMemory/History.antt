-- ===== src/Registry/InMemory/History.antt =====
-- Any history of calls on `InMemoryRegistry` (server/rust/src/registry.rs), in any order.
use tcpunch.Base.{none, inl, inr, Name, subst, Option, ◌≡◌, sym, if_pos, ℕ, if_neg}
use tcpunch.Platform.{Platform, after_drop_receiver, Chan}
use tcpunch.Protocol.{PeerConnectionData}
use tcpunch.Registry.{RegistryConfig}
use tcpunch.Registry.InMemory.{
  InMemoryRegistry, Draw, pairing_map, token_map, new, register, unregister, cleanup_expired,
}
use tcpunch.Registry.InMemory.Invariant.{Inv, IsPending, new-Inv}
use tcpunch.Registry.InMemory.Register.{register-Inv, unregister-Inv}
use tcpunch.Registry.InMemory.Cleanup.{cleanup_expired-Inv}

module _ (P : Platform PeerConnectionData) where
  open P use {
    uuid.{Uuid},
    oneshot.{Channels, Receiver, Sender, receiver_discrete, receiver, drop_receiver, state},
  }
  open token_map P use {get as get_token}
  open pairing_map P use {get as get_pairing}

  -- One call of a connection or of the cleanup task, or a connection that stops listening.
  pub data Step : InMemoryRegistry P → InMemoryRegistry P → Type 0 where
    registers :
        (r : InMemoryRegistry P) (name : Name) (info : PeerConnectionData) (token : Option Uuid)
        (draw : Draw P)
        → get_token r.tokens draw.token ≡ none
        → Step r (register P r name info token draw).0
    unregisters :
        (r : InMemoryRegistry P) (name : Name) (token : Uuid) → Step r (unregister P r name token).0
    cleans : (r : InMemoryRegistry P) (now : ℕ) → Step r (cleanup_expired P r now).0
    hangs_up :
        (r : InMemoryRegistry P) (rx : Receiver)
        → Step r (record r { channels = drop_receiver r.channels rx })

  pub data Reach (r : InMemoryRegistry P) : InMemoryRegistry P → Type 0 where
    here : Reach r r
    next : {s t : InMemoryRegistry P} → Reach r s → Step s t → Reach r t

  IsPending-hang_up :
      (cs : Channels) (rx r : Receiver)
      → IsPending (state cs r)
      → IsPending (state (drop_receiver cs rx) r)
  IsPending-hang_up cs rx r p =
      subst IsPending (sym (P.oneshot.state-drop_receiver cs rx r)) (elim (receiver_discrete rx r) [
        | yes same ↦
            rw
              (if_pos (receiver_discrete rx r) same (after_drop_receiver (state cs r)) (state cs r))
              (gone (state cs r) p)
        | no other ↦
            rw
              (if_neg (receiver_discrete rx r) other (after_drop_receiver (state cs r))
                (state cs r))
              p
      ])
    where
      gone : (c : Chan PeerConnectionData) → IsPending c → IsPending (after_drop_receiver c)
      gone c (inl e) = inr (rw e)
      gone c (inr e) = inr (rw e)

  pub Step-Inv : {r s : InMemoryRegistry P} → Step r s → Inv P r → Inv P s
  Step-Inv (registers r name info token draw fresh) v =
      register-Inv P r v name info token draw fresh
  Step-Inv (unregisters r name token) v = unregister-Inv P r v name token
  Step-Inv (cleans r now) v = cleanup_expired-Inv P r now v
  Step-Inv (hangs_up r rx) v = record {
    indexed = v.indexed;
    pending = λ n e h.
        let (tx, held, p) = v.pending n e h in
        (tx, held, IsPending-hang_up r.channels rx (receiver tx) p);
    apart = v.apart;
  }

  -- After any history from a new registry, in which each fresh token is one that the index does not
  -- know, every entry is indexed by its token, holds the sender of a pending channel, and shares
  -- that channel with no other name.
  pub Reach-Inv :
      (config : RegistryConfig) (cs : Channels) {r : InMemoryRegistry P}
      → Reach (new P config cs) r
      → Inv P r
  Reach-Inv config cs here = new-Inv P config cs
  Reach-Inv config cs (next history step) = Step-Inv step (Reach-Inv config cs history)
