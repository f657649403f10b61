-- ===== src/Registry/InMemory/Cleanup.antt =====
-- `cleanup_expired` of `InMemoryRegistry` as a whole (server/rust/src/registry.rs).
use tcpunch.Registry.InMemory.Calls.{token-apart}
use tcpunch.Platform.Maps.{All-of-lookup}
use tcpunch.Base.{
  some, none, inl, inr, ℕ, Name, ◌≡◌, ◌∙◌, ap, ◌<◌, false, subst, All, true, sym, Option, ◌-◌,
  none-ne-some, name_discrete, ◌≢◌, ◌≤◌, true-ne-false, ◌+◌, Bool-cases, some-injective, arith,
  length, lt→ltb,
}
use tcpunch.Platform.{Platform}
use tcpunch.Protocol.{PeerConnectionData}
use tcpunch.Registry.InMemory.{
  InMemoryRegistry, PairingEntry, Sweep, pairing_map, token_map, cleanup_expired, sweep_entry,
  is_expired, active_count,
}
use tcpunch.Registry.InMemory.Walk.{
  sweep, surviving, lookup-sweep, get_token-sweep, state-sweep, get_token-sweep_expired,
  cleaned-sweep,
}
use tcpunch.Registry.InMemory.Invariant.{Inv, IsPending, token_of}

module _ (P : Platform PeerConnectionData) (r : InMemoryRegistry P) (now : ℕ) where
  open P use {uuid.{Uuid, uuid_discrete}, oneshot.{Sender, Receiver, receiver, state}}
  open pairing_map P use {get as get_pairing, entries}
  open token_map P use {get as get_token}

  abbrev timeout : ℕ
  timeout = r.config.pairing_timeout

  abbrev start : Sweep P
  start = record { tokens = r.tokens; channels = r.channels; cleaned = 0 }

  -- What the walk leaves.
  abbrev final : Sweep P
  final = (sweep P timeout now start (entries r.pairings)).0

  abbrev after : InMemoryRegistry P
  after = (cleanup_expired P r now).0

  pub get_pairing-cleanup :
      (n : Name)
      → get_pairing (cleanup_expired P r now).0.pairings n
        ≡ surviving P r.config.pairing_timeout now (get_pairing r.pairings n)
  unfolding cleanup_expired sweep
  get_pairing-cleanup n =
      (pairing_map P).get-retain (sweep_entry P r.config.pairing_timeout now) start r.pairings n
      ∙ lookup-sweep P r.config.pairing_timeout now start n (entries r.pairings)
          ((pairing_map P).entries-IsKeyed r.pairings)
      ∙ ap (surviving P r.config.pairing_timeout now) ((pairing_map P).lookup-entries r.pairings n)

  pub cleanup-final :
      (after.tokens ≡ final.tokens)
      × (after.channels ≡ final.channels)
      × ((cleanup_expired P r now).1 ≡ final.cleaned)
  unfolding cleanup_expired sweep
  cleanup-final =
      let e = (pairing_map P).retain-state (sweep_entry P timeout now) start r.pairings in
      (
        ap (λ (s : Sweep P). s.tokens) e,
        ap (λ (s : Sweep P). s.channels) e,
        ap (λ (s : Sweep P). s.cleaned) e,
      )

  -- A kept entry was stored before, and has not expired.
  pub kept_cases :
      (n : Name) (e : PairingEntry P)
      → get_pairing after.pairings n ≡ some e
      → (get_pairing r.pairings n ≡ some e) × (is_expired P timeout now e ≡ false)
  kept_cases n e h = from_surviving (get_pairing r.pairings n) (sym (get_pairing-cleanup n) ∙ h)
    where
      from_surviving :
          (o : Option (PairingEntry P))
          → surviving P timeout now o ≡ some e
          → (o ≡ some e) × (is_expired P timeout now e ≡ false)
      from_surviving none k = absurd (none-ne-some k)
      from_surviving (some f) k = elim (Bool-cases (is_expired P timeout now f)) [
        | inl old ↦ absurd (none-ne-some {a = e} (rw old at k))
        | inr young ↦
            let q : f ≡ e = some-injective f e (rw young at k) in (ap some q, rw (← q) young)
      ]

  stored_everywhere :
      (Q : Name × PairingEntry P → Type 0)
      → ((n : Name) (e : PairingEntry P) → get_pairing r.pairings n ≡ some e → Q (n, e))
      → All Q (entries r.pairings)
  stored_everywhere Q h =
      All-of-lookup name_discrete Q (entries r.pairings)
        ((pairing_map P).entries-IsKeyed r.pairings)
        (λ n e k. h n e (sym ((pairing_map P).lookup-entries r.pairings n) ∙ k))

  cleanup-count : (cleanup_expired P r now).1 + active_count P after ≡ active_count P r
  unfolding active_count
  cleanup-count = omega (
    arith,
    cleanup-final.2,
    kept_length,
    cleaned-sweep P timeout now start (entries r.pairings),
    (pairing_map P).len-entries r.pairings,
  )
    where
      kept_length :
          (pairing_map P).len after.pairings
          ≡ length (sweep P timeout now start (entries r.pairings)).1
      kept_length =
          unfold cleanup_expired sweep in
          (pairing_map P).len-retain (sweep_entry P timeout now) start r.pairings

  expired_of_lt :
      (e : PairingEntry P) → timeout < now - e.created_at → is_expired P timeout now e ≡ true
  unfolding is_expired
  expired_of_lt e h = lt→ltb _ _ h

  young_of_le :
      (e : PairingEntry P) → now - e.created_at ≤ timeout → is_expired P timeout now e ≡ false
  unfolding is_expired
  young_of_le e h = ground arith

  module _ (v : Inv P r) where
    young-ne-old :
        (n m : Name) (e f : PairingEntry P)
        → get_pairing r.pairings n ≡ some e
        → get_pairing r.pairings m ≡ some f
        → is_expired P timeout now e ≡ false
        → is_expired P timeout now f ≡ true
        → n ≢ m
    young-ne-old n m e f h k young old same = true-ne-false (
        sym old
        ∙ ap (is_expired P timeout now)
            (some-injective f e (sym k ∙ ap (get_pairing r.pairings) (sym same) ∙ h))
        ∙ young)

    -- The token and the channel of a young entry are left as they were.
    token_kept :
        (n : Name) (e : PairingEntry P)
        → get_pairing r.pairings n ≡ some e
        → is_expired P timeout now e ≡ false
        → get_token after.tokens (token_of P e) ≡ some n
    token_kept n e h young = rw (cleanup-final.0) (
        get_token-sweep P timeout now (token_of P e) start (entries r.pairings) (
          stored_everywhere _ (λ m f k old same.
            token-apart P r v n m e f h k (young-ne-old n m e f h k young old) (sym same)))
        ∙ v.indexed n e h)

    channel_kept :
        (n : Name) (e : PairingEntry P) (tx : Sender)
        → get_pairing r.pairings n ≡ some e
        → is_expired P timeout now e ≡ false
        → e.notify_tx ≡ some tx
        → state after.channels (receiver tx) ≡ state r.channels (receiver tx)
    channel_kept n e tx h young held = rw (cleanup-final.1) (
        state-sweep P timeout now (receiver tx) start (entries r.pairings) (
          stored_everywhere _ (λ m f k old ty q same.
            young-ne-old n m e f h k young old (v.apart n m e f tx ty h k held q (sym same)))))

    -- `cleanup_expired` keeps the invariant.
    pub cleanup_expired-Inv : Inv P (cleanup_expired P r now).0
    cleanup_expired-Inv = record {
      indexed = λ n e h. let (h', young) = kept_cases n e h in token_kept n e h' young;
      pending = λ n e h.
          let (h', young) = kept_cases n e h in
          let (tx, held, p) = v.pending n e h' in
          (tx, held, subst IsPending (sym (channel_kept n e tx h' young held)) p);
      apart = λ n m e f tx ty h k. v.apart n m e f tx ty (kept_cases n e h).0 (kept_cases m f k).0;
    }

    -- After `cleanup_expired` an entry that has outlived the timeout is gone, and so is its token;
    -- a younger entry, its token and the channel of its waiter are as before; and the number that
    -- is returned is by how much the count of entries fell.
    pub cleanup_expired_lem :
        ((n : Name) (e : PairingEntry P)
          → get_pairing r.pairings n ≡ some e
          → timeout < now - e.created_at
          → (get_pairing after.pairings n ≡ none) × (get_token after.tokens (token_of P e) ≡ none))
        × ((n : Name) (e : PairingEntry P) (tx : Sender)
            → get_pairing r.pairings n ≡ some e
            → now - e.created_at ≤ timeout
            → e.notify_tx ≡ some tx
            → (get_pairing after.pairings n ≡ some e)
              × (get_token after.tokens (token_of P e) ≡ some n)
              × (state after.channels (receiver tx) ≡ state r.channels (receiver tx)))
        × ((cleanup_expired P r now).1 + active_count P after ≡ active_count P r)
    cleanup_expired_lem = (gone, stays, cleanup-count)
      where
        gone :
            (n : Name) (e : PairingEntry P)
            → get_pairing r.pairings n ≡ some e
            → timeout < now - e.created_at
            → (get_pairing after.pairings n ≡ none) × (get_token after.tokens (token_of P e) ≡ none)
        gone n e h late = (
          get_pairing-cleanup n ∙ rw (h, expired_of_lt e late),
          rw (cleanup-final.0) (
              get_token-sweep_expired P timeout now n e start (entries r.pairings)
                ((pairing_map P).lookup-entries r.pairings n ∙ h) (expired_of_lt e late)),
        )

        stays :
            (n : Name) (e : PairingEntry P) (tx : Sender)
            → get_pairing r.pairings n ≡ some e
            → now - e.created_at ≤ timeout
            → e.notify_tx ≡ some tx
            → (get_pairing after.pairings n ≡ some e)
              × (get_token after.tokens (token_of P e) ≡ some n)
              × (state after.channels (receiver tx) ≡ state r.channels (receiver tx))
        stays n e tx h soon held =
            let young = young_of_le e soon in
            (
              get_pairing-cleanup n ∙ rw (h, young),
              token_kept n e h young,
              channel_kept n e tx h young held,
            )
