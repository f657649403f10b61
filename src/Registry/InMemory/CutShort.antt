-- ===== src/Registry/InMemory/CutShort.antt =====
-- A client that comes back keeps the age of its entry (server/rust/src/registry.rs).
use tcpunch.Base.{
  ℕ, Name, List, [], ◌∷◌, none, some, ok, inl, inr, ◌≡◌, ◌⊎◌, ◌∙◌, ◌<◌, ◌-◌, refl, sym, ap, subst,
  if_pos, if_neg, Bool-cases, name_discrete, true, true-ne-false, none-ne-some, some-injective,
  lt→ltb,
}
use mathlib.Core.List.{lookup}
use tcpunch.Platform.{Platform, Chan, open_, sender_gone, after_drop_sender}
use tcpunch.Platform.Channels.{state-drop_sender_self}
use tcpunch.Platform.Maps.{get-insert_self}
use tcpunch.Protocol.{PeerConnectionData}
use tcpunch.Registry.{resumed}
use tcpunch.Registry.InMemory.{
  InMemoryRegistry, PairingEntry, Draw, Sweep, pairing_map, register, refresh, cleanup_expired,
  drop_notify, is_expired,
}
use tcpunch.Registry.InMemory.Branches.{register_resumed, resume}
use tcpunch.Registry.InMemory.Cleanup.{get_pairing-cleanup, cleanup-final}
use tcpunch.Registry.InMemory.Fade.{Fades, Fades-sweep, Fades-drop_notify}
use tcpunch.Registry.InMemory.Invariant.{Inv, token_of}
use tcpunch.Registry.InMemory.Rendezvous.{register_resumed_lem}
use tcpunch.Registry.InMemory.Walk.{sweep, swept, sweep_kept, sweep_dropped}

-- The channel is open, or its sender has gone.
abbrev IsUnsent : {A : Type 0} → Chan A → Type 0
IsUnsent c = (c ≡ open_) ⊎ (c ≡ sender_gone)

module _ {A : Type 0} where
  IsUnsent-Fades : (c d : Chan A) → Fades c d → IsUnsent c → IsUnsent d
  IsUnsent-Fades c d (inl e) (inl o) = inl (e ∙ o)
  IsUnsent-Fades c d (inl e) (inr g) = inr (e ∙ g)
  IsUnsent-Fades c d (inr (o, g)) u = inr g

  gone-Fades : (c d : Chan A) → Fades c d → c ≡ sender_gone → d ≡ sender_gone
  gone-Fades c d (inl e) h = e ∙ h
  gone-Fades c d (inr (o, g)) h = g

  after_drop_sender-gone : (c : Chan A) → IsUnsent c → after_drop_sender c ≡ sender_gone
  after_drop_sender-gone c (inl o) = ap after_drop_sender o
  after_drop_sender-gone c (inr g) = ap after_drop_sender g

module _ (P : Platform PeerConnectionData) where
  open P use {uuid.{Uuid}, oneshot.{Sender, Receiver, receiver, state, channel}}
  open pairing_map P use {get as get_pairing, entries}

  -- The walk closes the channel of an expired entry.
  state-sweep_expired :
      (timeout now : ℕ) (n : Name) (e : PairingEntry P) (tx : Sender) (s : Sweep P)
      (es : List (Name × PairingEntry P))
      → lookup name_discrete n es ≡ some e
      → is_expired P timeout now e ≡ true
      → e.notify_tx ≡ some tx
      → IsUnsent (state s.channels (receiver tx))
      → state (sweep P timeout now s es).0.channels (receiver tx) ≡ sender_gone
  unfolding lookup drop_notify
  state-sweep_expired timeout now n e tx s [] h old held u = absurd (none-ne-some h)
  state-sweep_expired timeout now n e tx s ((k, f) ∷ es) h old held u =
      elim (Bool-cases (is_expired P timeout now f)) [
        | inl old' ↦ rw (sweep_dropped P timeout now s k f es old') (elim (name_discrete n k) [
          | yes p ↦
              let same : f ≡ e = some-injective f e (sym (if_pos (name_discrete n k) p _ _) ∙ h) in
              gone-Fades _ _ (Fades-sweep P timeout now (receiver tx) (swept P timeout now s f) es)
                (rw (same, held, drop_notify)
                  (state-drop_sender_self P.oneshot s.channels tx
                    ∙ after_drop_sender-gone (state s.channels (receiver tx)) u))
          | no p ↦
              state-sweep_expired timeout now n e tx (swept P timeout now s f) es
                (sym (if_neg (name_discrete n k) p _ _) ∙ h) old held
                (IsUnsent-Fades _ _ (Fades-drop_notify P s.channels f.notify_tx (receiver tx)) u)
        ])
        | inr young ↦ rw (sweep_kept P timeout now s k f es young) (elim (name_discrete n k) [
          | yes p ↦ absurd (
              true-ne-false (
                sym old
                ∙ ap (is_expired P timeout now)
                    (sym (some-injective f e (sym (if_pos (name_discrete n k) p _ _) ∙ h)))
                ∙ young))
          | no p ↦
              state-sweep_expired timeout now n e tx s es
                (sym (if_neg (name_discrete n k) p _ _) ∙ h) old held u
        ])
      ]

  -- `cleanup_expired` closes the channel of an expired entry.
  state-cleanup_expired :
      (r : InMemoryRegistry P) (now : ℕ) (n : Name) (e : PairingEntry P) (tx : Sender)
      → get_pairing r.pairings n ≡ some e
      → r.config.pairing_timeout < now - e.created_at
      → e.notify_tx ≡ some tx
      → IsUnsent (state r.channels (receiver tx))
      → state (cleanup_expired P r now).0.channels (receiver tx) ≡ sender_gone
  unfolding is_expired
  state-cleanup_expired r now n e tx h old held u = rw ((cleanup-final P r now).1) (
      state-sweep_expired r.config.pairing_timeout now n e tx
        (record { tokens = r.tokens; channels = r.channels; cleaned = 0 }) (entries r.pairings)
        ((pairing_map P).lookup-entries r.pairings n ∙ h) (lt→ltb _ _ old) held u)

  -- A client that comes back, whenever it does, listens to an open channel; but where the timeout has
  -- passed since the entry of its name was first made, the next cleanup closes this channel and takes
  -- the entry away. The registry is well formed.
  pub resumed_cut_short :
      (r : InMemoryRegistry P) (v : Inv P r) (name : Name) (info : PeerConnectionData)
      (draw : Draw P) (e : PairingEntry P) (later : ℕ)
      → get_pairing r.pairings name ≡ some e
      → r.config.pairing_timeout < later - e.created_at
      → let x = register P r name info (some (token_of P e)) draw in
        let rx = (channel r.channels).2 in
        let y = (cleanup_expired P x.0 later).0 in
        (x.1 ≡ ok (resumed (token_of P e) rx))
        × (state x.0.channels rx ≡ open_)
        × (state y.channels rx ≡ sender_gone)
        × (get_pairing y.pairings name ≡ none)
  unfolding refresh is_expired
  resumed_cut_short r v name info draw e later stored old =
      let (told, listening, _, _) = register_resumed_lem P r v name info draw e stored in
      let same = register_resumed P r name info draw e stored (v.indexed name e stored) in
      let f = refresh P e info (channel r.channels).1 in
      let kept : get_pairing (resume P r name e info).pairings name ≡ some f =
        get-insert_self (pairing_map P) r.pairings name f in
      let opened : state (resume P r name e info).channels (channel r.channels).2 ≡ open_ =
        subst (λ x. state x.0.channels (channel r.channels).2 ≡ open_) same listening in
      let shut =
        state-cleanup_expired (resume P r name e info) later name f (channel r.channels).1 kept old
          refl in
      let late : is_expired P r.config.pairing_timeout later f ≡ true = lt→ltb _ _ old in
      (
        told,
        listening,
        rw (same, sym (P.oneshot.receiver-channel r.channels))
            (shut (inl (rw (P.oneshot.receiver-channel r.channels) opened))),
        rw same (get_pairing-cleanup P (resume P r name e info) later name ∙ rw (kept, late) refl),
      )
