-- ===== src/Registry/Redis/Preserve.antt =====
-- Writing and taking entries keeps the invariant of `RedisRegistry` (server/rust/src/registry.rs).
use tcpunch.Base.{
  Name, Option, none, some, ◌≡◌, ◌≢◌, ◌∙◌, sym, ap, subst, refl, inl, inr, name_discrete,
  some-injective, ◌⊎◌,
}
use tcpunch.Platform.{Platform, unissued}
use tcpunch.Platform.Maps.{get-insert_self, get-insert_ne, get-insert_cases}
use tcpunch.Platform.Channels.{
  state-channel_self, state-channel_issued, channel-ne_issued, state-drop_sender_ne,
}
use tcpunch.Platform.Redis.{RedisApi}
use tcpunch.Protocol.{PeerConnectionData}
use tcpunch.Registry.{WaitingClient}
use tcpunch.Registry.Json.{JsonApi}
use tcpunch.Registry.InMemory.Invariant.{IsPending}
use tcpunch.Registry.InMemory.Preserve.{IsPending-ne-unissued}
use tcpunch.Registry.Redis.{Site, RedisRegistry, pairing_key, token_key, waiter_map, drop_waiter}
use tcpunch.Registry.Redis.Invariant.{Inv, Waits}
use tcpunch.Registry.Redis.Branches.{listening}

module _ (P : Platform PeerConnectionData) (R : RedisApi) (J : JsonApi P) where
  open P use {
    uuid.{Uuid, uuid_discrete},
    oneshot.{Channels, Sender, Receiver, channel, receiver, state},
  }
  open waiter_map P R J use {get as get_waiter, insert as insert_waiter, remove as remove_waiter}

  pub state-drop_waiter :
      (cs : Channels) (old : Option Sender) (r : Receiver)
      → ((tx : Sender) → old ≡ some tx → receiver tx ≢ r)
      → state (drop_waiter P R J cs old) r ≡ state cs r
  unfolding drop_waiter
  state-drop_waiter cs none r h = refl
  state-drop_waiter cs (some tx) r h = state-drop_sender_ne P.oneshot cs tx r (h tx refl)

  -- The channels of a server's waiters are pending, and each is one waiter's only.
  module _ (r : RedisRegistry P R J)
      (pending : (n : Name) (tx : Sender)
        → get_waiter r.local_waiters n ≡ some tx
        → IsPending (state r.channels (receiver tx)))
      (apart : (n m : Name) (tx ty : Sender)
        → get_waiter r.local_waiters n ≡ some tx
        → get_waiter r.local_waiters m ≡ some ty
        → receiver tx ≡ receiver ty
        → n ≡ m)
      (name : Name) where
    issued :
        (n : Name) (tx : Sender)
        → get_waiter r.local_waiters n ≡ some tx
        → state r.channels (receiver tx) ≢ unissued
    issued n tx h = IsPending-ne-unissued (state r.channels (receiver tx)) (pending n tx h)

    new-ne :
        (n : Name) (tx : Sender)
        → get_waiter r.local_waiters n ≡ some tx
        → receiver (channel r.channels).1 ≢ receiver tx
    new-ne n tx h e =
        channel-ne_issued P.oneshot r.channels (receiver tx) (issued n tx h)
          (sym (P.oneshot.receiver-channel r.channels) ∙ e)

    listening-IsPending :
        (n : Name) (tx : Sender)
        → get_waiter (listening P R J r name).local_waiters n ≡ some tx
        → IsPending (state (listening P R J r name).channels (receiver tx))
    listening-IsPending n tx h =
        elim (get-insert_cases (waiter_map P R J) r.local_waiters name n (channel r.channels).1 tx
          h) [
            | inl (here, new) ↦ inl (
                ap (λ t. state (listening P R J r name).channels (receiver t)) (sym new)
                ∙ state-drop_waiter (channel r.channels).0 (get_waiter r.local_waiters name)
                    (receiver (channel r.channels).1) (λ old e q. new-ne name old e (sym q))
                ∙ ap (state (channel r.channels).0) (P.oneshot.receiver-channel r.channels)
                ∙ state-channel_self P.oneshot r.channels)
            | inr (other, h') ↦
                subst IsPending
                  (sym (
                    state-drop_waiter (channel r.channels).0 (get_waiter r.local_waiters name)
                      (receiver tx) (λ old e q. other (apart name n old tx e h' q))
                    ∙ state-channel_issued P.oneshot r.channels (receiver tx) (issued n tx h')))
                  (pending n tx h')
          ]

    pub listening_apart :
        (n m : Name) (tx ty : Sender)
        → get_waiter (listening P R J r name).local_waiters n ≡ some tx
        → get_waiter (listening P R J r name).local_waiters m ≡ some ty
        → receiver tx ≡ receiver ty
        → n ≡ m
    listening_apart n m tx ty h k e =
        go (get-insert_cases (waiter_map P R J) r.local_waiters name n (channel r.channels).1 tx h)
          (get-insert_cases (waiter_map P R J) r.local_waiters name m (channel r.channels).1 ty k)
      where
        go :
            (((name ≡ n) × ((channel r.channels).1 ≡ tx))
              ⊎ ((name ≢ n) × (get_waiter r.local_waiters n ≡ some tx)))
            → (((name ≡ m) × ((channel r.channels).1 ≡ ty))
                ⊎ ((name ≢ m) × (get_waiter r.local_waiters m ≡ some ty)))
            → n ≡ m
        go (inl (p, _)) (inl (q, _)) = sym p ∙ q
        go (inl (_, p)) (inr (_, k')) = absurd (new-ne m ty k' (ap receiver p ∙ e))
        go (inr (_, h')) (inl (_, q)) = absurd (new-ne n tx h' (ap receiver q ∙ sym e))
        go (inr (_, h')) (inr (_, k')) = apart n m tx ty h' k' e

  module _ (s : Site P R J) (v : Inv P R J s) (name : Name) where
    -- A store in which `w` waits under the name, and only its token leads there.
    pub record Put (st : R.Store) (w : WaitingClient P) : Type 0 where
      pub waits : Waits P R J st name w
      pub led : R.get st (token_key P R J w.reconnect_token) ≡ some name
      pub entries_kept :
          (m : Name) → name ≢ m → R.get st (pairing_key m) ≡ R.get s.store (pairing_key m)
      pub tokens_kept :
          (t : Uuid)
          → t ≢ w.reconnect_token
          → R.get st (token_key P R J t) ≡ R.get s.store (token_key P R J t)
      -- Before, no other token led to the name, and its token to no other name.
      pub only : (t : Uuid) → R.get s.store (token_key P R J t) ≡ some name → t ≡ w.reconnect_token
      pub own : (n : Name) → R.get s.store (token_key P R J w.reconnect_token) ≡ some n → name ≡ n

    pub put-Inv :
        (st : R.Store) (w : WaitingClient P)
        → Put st w
        → Inv P R J (record { store = st; registry = listening P R J s.registry name })
    put-Inv st w p = record {
      stored = λ n text h. stored_at n text h (name_discrete name n);
      indexed = λ t n h. indexed_at t n h (uuid_discrete t w.reconnect_token);
      pending = listening-IsPending s.registry v.pending v.apart name;
      apart = listening_apart s.registry v.pending v.apart name;
    }
      where
        stored_at :
            (n text : Name)
            → R.get st (pairing_key n) ≡ some text
            → Dec (name ≡ n)
            → (w' : WaitingClient P) × (J.waiting_from_str text ≡ some w')
              × (R.get st (token_key P R J w'.reconnect_token) ≡ some n)
              × ((tx : Sender) × (get_waiter (listening P R J s.registry name).local_waiters n
                    ≡ some tx))
        stored_at n text h (yes e) =
            let (text', at, read) = p.waits in
            (
              w,
              ap J.waiting_from_str (
                    some-injective text text'
                      (sym h ∙ ap (λ k. R.get st (pairing_key k)) (sym e) ∙ at))
                  ∙ read,
              p.led ∙ ap some e,
              (
                (channel s.registry.channels).1,
                ap (get_waiter (listening P R J s.registry name).local_waiters) (sym e)
                    ∙ get-insert_self (waiter_map P R J) s.registry.local_waiters name
                        (channel s.registry.channels).1,
              ),
            )
        stored_at n text h (no other) =
            let (w', read, led, (tx, held)) = v.stored n text (sym (p.entries_kept n other) ∙ h) in
            (
              w',
              read,
              p.tokens_kept w'.reconnect_token (λ q.
                    other (p.own n (ap (λ t. R.get s.store (token_key P R J t)) (sym q) ∙ led)))
                  ∙ led,
              (
                tx,
                get-insert_ne (waiter_map P R J) s.registry.local_waiters name n
                      (channel s.registry.channels).1 other
                    ∙ held,
              ),
            )

        indexed_at :
            (t : Uuid) (n : Name)
            → R.get st (token_key P R J t) ≡ some n
            → Dec (t ≡ w.reconnect_token)
            → (w' : WaitingClient P) × Waits P R J st n w' × (w'.reconnect_token ≡ t)
        indexed_at t n h (yes e) =
            let same : name ≡ n =
              some-injective name n
                (sym p.led ∙ ap (λ u. R.get st (token_key P R J u)) (sym e) ∙ h) in
            (w, subst (λ k. Waits P R J st k w) same p.waits, sym e)
        indexed_at t n h (no other) =
            let before = sym (p.tokens_kept t other) ∙ h in
            let (w', (text, at, read), same) = v.indexed t n before in
            let away : name ≢ n = λ e. other (p.only t (before ∙ ap some (sym e))) in
            (w', (text, p.entries_kept n away ∙ at, read), same)
