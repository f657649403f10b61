-- ===== src/Registry/InMemory/Fade.antt =====
-- What the calls of `InMemoryRegistry` that only take entries away do to the channels
-- (server/rust/src/registry.rs).
use tcpunch.Base.{
  ℕ, Name, List, [], ◌∷◌, Option, Option-cases, none, some, inl, inr, ◌≡◌, ◌⊎◌, ◌∙◌, refl, sym,
  subst, if_pos, if_neg, Bool-cases,
}
use tcpunch.Platform.{
  Platform, Chan, unissued, open_, sender_gone, receiver_gone, sent, after_drop_sender,
}
use tcpunch.Platform.Maps.{get-remove_cases}
use tcpunch.Protocol.{PeerConnectionData}
use tcpunch.Registry.InMemory.{
  InMemoryRegistry, PairingEntry, Sweep, pairing_map, unregister, cleanup_expired, drop_notify,
  is_expired,
}
use tcpunch.Registry.InMemory.Branches.{unregister_absent, unregister_found}
use tcpunch.Registry.InMemory.Walk.{sweep, swept, sweep_kept, sweep_dropped}
use tcpunch.Registry.InMemory.Cleanup.{kept_cases, cleanup-final}

-- A channel is left as it was, or its sender has gone while it was open.
abbrev pub Fades : {A : Type 0} → Chan A → Chan A → Type 0
Fades c d = (d ≡ c) ⊎ ((c ≡ open_) × (d ≡ sender_gone))

module _ {A : Type 0} where
  Fades-after_drop_sender : (c : Chan A) → Fades c (after_drop_sender c)
  Fades-after_drop_sender open_ = inr (refl, refl)
  Fades-after_drop_sender unissued = inl refl
  Fades-after_drop_sender sender_gone = inl refl
  Fades-after_drop_sender receiver_gone = inl refl
  Fades-after_drop_sender (sent a) = inl refl

  gone-ne-open : ¬ (◌≡◌ {A = Chan A} sender_gone open_)
  gone-ne-open e = cc

  pub Fades-trans : (c d e : Chan A) → Fades c d → Fades d e → Fades c e
  Fades-trans c d e (inl p) (inl q) = inl (q ∙ p)
  Fades-trans c d e (inl p) (inr (o, g)) = inr (sym p ∙ o, g)
  Fades-trans c d e (inr (o, g)) (inl q) = inr (o, q ∙ g)
  Fades-trans c d e (inr (o, g)) (inr (o', g')) = absurd (gone-ne-open (sym g ∙ o'))

module _ (P : Platform PeerConnectionData) where
  open P use {
    uuid.{Uuid},
    oneshot.{Channels, Sender, Receiver, receiver, receiver_discrete, state, drop_sender},
  }
  open pairing_map P use {get as get_pairing}

  pub Fades-drop_sender :
      (cs : Channels) (tx : Sender) (rx : Receiver)
      → Fades (state cs rx) (state (drop_sender cs tx) rx)
  Fades-drop_sender cs tx rx = elim (receiver_discrete (receiver tx) rx) [
    | yes same ↦
        subst (Fades (state cs rx))
          (sym (
            P.oneshot.state-drop_sender cs tx rx
            ∙ if_pos (receiver_discrete (receiver tx) rx) same _ _))
          (Fades-after_drop_sender (state cs rx))
    | no other ↦ inl (
        P.oneshot.state-drop_sender cs tx rx
        ∙ if_neg (receiver_discrete (receiver tx) rx) other _ _)
  ]

  pub Fades-drop_notify :
      (cs : Channels) (o : Option Sender) (rx : Receiver)
      → Fades (state cs rx) (state (drop_notify P cs o) rx)
  unfolding drop_notify
  Fades-drop_notify cs none rx = inl refl
  Fades-drop_notify cs (some tx) rx = Fades-drop_sender cs tx rx

  pub Fades-sweep :
      (timeout now : ℕ) (rx : Receiver) (s : Sweep P) (es : List (Name × PairingEntry P))
      → Fades (state s.channels rx) (state (sweep P timeout now s es).0.channels rx)
  Fades-sweep timeout now rx s [] = inl (unfold sweep in refl)
  Fades-sweep timeout now rx s ((k, e) ∷ es) = elim (Bool-cases (is_expired P timeout now e)) [
    | inl old ↦ rw (sweep_dropped P timeout now s k e es old) (
        Fades-trans _ _ _ (Fades-drop_notify s.channels e.notify_tx rx)
          (Fades-sweep timeout now rx (swept P timeout now s e) es))
    | inr young ↦ rw (sweep_kept P timeout now s k e es young) (Fades-sweep timeout now rx s es)
  ]

  -- No entry is new, and each channel fades.
  pub record Shrinks (r r' : InMemoryRegistry P) : Type 0 where
    pub entries :
        (n : Name) (e : PairingEntry P)
        → get_pairing r'.pairings n ≡ some e
        → get_pairing r.pairings n ≡ some e
    pub channels : (rx : Receiver) → Fades (state r.channels rx) (state r'.channels rx)

  pub Shrinks-unregister :
      (r : InMemoryRegistry P) (name : Name) (token : Uuid)
      → Shrinks r (unregister P r name token).0
  Shrinks-unregister r name token = elim (Option-cases (get_pairing r.pairings name)) [
    | inl absent ↦
        rw (unregister_absent P r name token absent)
          (record { entries = λ n e h. h; channels = λ rx. inl refl })
    | inr (e, stored) ↦ rw (unregister_found P r name e token stored) (record {
      entries = λ n f h. (get-remove_cases (pairing_map P) r.pairings name n f h).1;
      channels = λ rx. Fades-drop_notify r.channels e.notify_tx rx;
    })
  ]

  pub Shrinks-cleanup_expired :
      (r : InMemoryRegistry P) (now : ℕ) → Shrinks r (cleanup_expired P r now).0
  Shrinks-cleanup_expired r now = record {
    entries = λ n e h. (kept_cases P r now n e h).0;
    channels = λ rx. rw ((cleanup-final P r now).1) (
        Fades-sweep r.config.pairing_timeout now rx
          (record { tokens = r.tokens; channels = r.channels; cleaned = 0 })
          ((pairing_map P).entries r.pairings));
  }
