-- ===== src/Registry/InMemory/Walk.antt =====
-- The walk of `cleanup_expired` in `InMemoryRegistry` (server/rust/src/registry.rs), entry by entry.
use tcpunch.Platform.Channels.{state-drop_sender_ne}
use tcpunch.Platform.Maps.{get-remove_self, get-remove_ne}
use mathlib.Core.List.{lookup, List}
use tcpunch.Base.{
  length, refl, some, none, inl, inr, [], ◌∷◌, ℕ, Option, ◌+◌, Name, if◌then◌else◌, ◌≡◌, true,
  false, name_discrete, All, subst, Bool-cases, none-ne-some, if_pos, ◌≢◌, if_neg, arith, ◌∙◌,
  some-injective, sym, true-ne-false, ap,
}
use tcpunch.Platform.{Platform, visit, IsKeyed}
use tcpunch.Protocol.{PeerConnectionData}
use tcpunch.Registry.InMemory.{PairingEntry, token_map, drop_notify, is_expired, sweep_entry, Sweep}

module _ (P : Platform PeerConnectionData) (timeout now : ℕ) where
  open P use {uuid.{Uuid, uuid_discrete}, oneshot.{Sender, Receiver, receiver, state}}
  open token_map P use {get as get_token, remove as remove_token}

  unfoldable pub sweep :
      Sweep P → List (Name × PairingEntry P) → Sweep P × List (Name × PairingEntry P)
  sweep = visit (sweep_entry P timeout now)

  -- What a lookup finds after the walk.
  abbrev pub surviving : Option (PairingEntry P) → Option (PairingEntry P)
  surviving none = none
  surviving (some e) = if is_expired P timeout now e then none else some e

  pub sweep_kept :
      (s : Sweep P) (n : Name) (e : PairingEntry P) (es : List (Name × PairingEntry P))
      → is_expired P timeout now e ≡ false
      → sweep s ((n, e) ∷ es) ≡ ((sweep s es).0, (n, e) ∷ (sweep s es).1)
  unfolding sweep sweep_entry
  sweep_kept s n e es h = rw h

  -- The effect of the closure on an expired entry.
  abbrev pub swept : Sweep P → PairingEntry P → Sweep P
  swept s e = record s {
    tokens = remove_token s.tokens e.waiting_client.reconnect_token;
    channels = drop_notify P s.channels e.notify_tx;
    cleaned = s.cleaned + 1;
  }

  pub sweep_dropped :
      (s : Sweep P) (n : Name) (e : PairingEntry P) (es : List (Name × PairingEntry P))
      → is_expired P timeout now e ≡ true
      → sweep s ((n, e) ∷ es) ≡ sweep (swept s e) es
  unfolding sweep sweep_entry
  sweep_dropped s n e es h = rw h

  lookup-dropped :
      (n k : Name) (e : PairingEntry P) (es kept : List (Name × PairingEntry P))
      → is_expired P timeout now e ≡ true
      → lookup name_discrete k es ≡ none
      → lookup name_discrete n kept ≡ surviving (lookup name_discrete n es)
      → lookup name_discrete n kept ≡ surviving (lookup name_discrete n ((k, e) ∷ es))
  unfolding lookup
  lookup-dropped n k e es kept old absent ih = elim (name_discrete n k) [
    | yes p ↦ rw (if_pos (name_discrete n k) p, old) (ih ∙ rw (p, absent))
    | no p ↦ rw (if_neg (name_discrete n k) p) ih
  ]

  lookup-kept :
      (n k : Name) (e : PairingEntry P) (es kept : List (Name × PairingEntry P))
      → is_expired P timeout now e ≡ false
      → lookup name_discrete n kept ≡ surviving (lookup name_discrete n es)
      → lookup name_discrete n ((k, e) ∷ kept) ≡ surviving (lookup name_discrete n ((k, e) ∷ es))
  unfolding lookup
  lookup-kept n k e es kept young ih = elim (name_discrete n k) [
    | yes p ↦
        if_pos (name_discrete n k) p _ _
        ∙ sym (rw (if_pos (name_discrete n k) p (some e) (lookup name_discrete n es), young))
    | no p ↦
        if_neg (name_discrete n k) p _ _
        ∙ rw (if_neg (name_discrete n k) p (some e) (lookup name_discrete n es)) ih
  ]

  -- The walk keeps exactly the entries that have not expired.
  pub lookup-sweep :
      (s : Sweep P) (n : Name) (es : List (Name × PairingEntry P))
      → IsKeyed name_discrete es
      → lookup name_discrete n (sweep s es).1 ≡ surviving (lookup name_discrete n es)
  lookup-sweep s n [] h = unfold lookup sweep in refl
  lookup-sweep s n ((k, e) ∷ es) h = elim (Bool-cases (is_expired P timeout now e)) [
    | inl old ↦
        rw (sweep_dropped s k e es old)
          (lookup-dropped n k e es _ old h.0 (lookup-sweep (swept s e) n es h.1))
    | inr young ↦
        rw (sweep_kept s k e es young) (lookup-kept n k e es _ young (lookup-sweep s n es h.1))
  ]

  -- It counts what it drops.
  pub cleaned-sweep :
      (s : Sweep P) (es : List (Name × PairingEntry P))
      → (sweep s es).0.cleaned + length (sweep s es).1 ≡ s.cleaned + length es
  cleaned-sweep s [] = unfold sweep in refl
  cleaned-sweep s ((k, e) ∷ es) = elim (Bool-cases (is_expired P timeout now e)) [
    | inl old ↦ rw (sweep_dropped s k e es old) (omega (arith, cleaned-sweep (swept s e) es))
    | inr young ↦ rw (sweep_kept s k e es young) (omega (arith, cleaned-sweep s es))
  ]

  -- A token that no expired entry has is left in the index.
  pub get_token-sweep :
      (t : Uuid) (s : Sweep P) (es : List (Name × PairingEntry P))
      → All (λ x. is_expired P timeout now x.1 ≡ true → x.1.waiting_client.reconnect_token ≢ t) es
      → get_token (sweep s es).0.tokens t ≡ get_token s.tokens t
  get_token-sweep t s [] h = unfold sweep in refl
  get_token-sweep t s ((k, e) ∷ es) h = elim (Bool-cases (is_expired P timeout now e)) [
    | inl old ↦ rw (sweep_dropped s k e es old) (
        get_token-sweep t (swept s e) es h.1
        ∙ get-remove_ne (token_map P) s.tokens e.waiting_client.reconnect_token t (h.0 old))
    | inr young ↦ rw (sweep_kept s k e es young) (get_token-sweep t s es h.1)
  ]

  -- A token that is not in the index does not come into it.
  get_token-sweep-none :
      (t : Uuid) (s : Sweep P) (es : List (Name × PairingEntry P))
      → get_token s.tokens t ≡ none
      → get_token (sweep s es).0.tokens t ≡ none
  get_token-sweep-none t s [] h = unfold sweep in h
  get_token-sweep-none t s ((k, e) ∷ es) h = elim (Bool-cases (is_expired P timeout now e)) [
    | inl old ↦ rw (sweep_dropped s k e es old) (get_token-sweep-none t (swept s e) es gone)
    | inr young ↦ rw (sweep_kept s k e es young) (get_token-sweep-none t s es h)
  ]
    where
      gone : get_token (remove_token s.tokens e.waiting_client.reconnect_token) t ≡ none
      gone = elim (uuid_discrete e.waiting_client.reconnect_token t) [
        | yes p ↦
            subst (λ u. get_token (remove_token s.tokens e.waiting_client.reconnect_token) u ≡ none)
              p (get-remove_self (token_map P) s.tokens e.waiting_client.reconnect_token)
        | no p ↦ get-remove_ne (token_map P) s.tokens e.waiting_client.reconnect_token t p ∙ h
      ]

  -- The token of an expired entry is out of the index.
  pub get_token-sweep_expired :
      (n : Name) (e : PairingEntry P) (s : Sweep P) (es : List (Name × PairingEntry P))
      → lookup name_discrete n es ≡ some e
      → is_expired P timeout now e ≡ true
      → get_token (sweep s es).0.tokens e.waiting_client.reconnect_token ≡ none
  unfolding lookup
  get_token-sweep_expired n e s [] h old = absurd (none-ne-some h)
  get_token-sweep_expired n e s ((k, f) ∷ es) h old =
      elim (Bool-cases (is_expired P timeout now f)) [
        | inl old' ↦ rw (sweep_dropped s k f es old') (elim (name_discrete n k) [
          | yes p ↦ get_token-sweep-none e.waiting_client.reconnect_token (swept s f) es (
              rw (some-injective f e (sym (if_pos (name_discrete n k) p _ _) ∙ h))
                (get-remove_self (token_map P) s.tokens e.waiting_client.reconnect_token))
          | no p ↦
              get_token-sweep_expired n e (swept s f) es
                (sym (if_neg (name_discrete n k) p _ _) ∙ h) old
        ])
        | inr young ↦ rw (sweep_kept s k f es young) (elim (name_discrete n k) [
          | yes p ↦ absurd (
              true-ne-false (
                sym old
                ∙ ap (is_expired P timeout now)
                    (sym (some-injective f e (sym (if_pos (name_discrete n k) p _ _) ∙ h)))
                ∙ young))
          | no p ↦ get_token-sweep_expired n e s es (sym (if_neg (name_discrete n k) p _ _) ∙ h) old
        ])
      ]

  -- A channel that no expired entry holds is left as it was.
  pub state-sweep :
      (rx : Receiver) (s : Sweep P) (es : List (Name × PairingEntry P))
      → All
          (λ x.
            is_expired P timeout now x.1 ≡ true
            → (tx : Sender) → x.1.notify_tx ≡ some tx
            → receiver tx ≢ rx)
          es
      → state (sweep s es).0.channels rx ≡ state s.channels rx
  state-sweep rx s [] h = unfold sweep in refl
  state-sweep rx s ((k, e) ∷ es) h = elim (Bool-cases (is_expired P timeout now e)) [
    | inl old ↦
        rw (sweep_dropped s k e es old)
          (state-sweep rx (swept s e) es h.1 ∙ dropped e.notify_tx (h.0 old))
    | inr young ↦ rw (sweep_kept s k e es young) (state-sweep rx s es h.1)
  ]
    where
      dropped :
          (o : Option Sender)
          → ((tx : Sender) → o ≡ some tx → receiver tx ≢ rx)
          → state (drop_notify P s.channels o) rx ≡ state s.channels rx
      dropped none h' = unfold drop_notify in refl
      dropped (some tx) h' =
          unfold drop_notify in state-drop_sender_ne P.oneshot s.channels tx rx (h' tx refl)
