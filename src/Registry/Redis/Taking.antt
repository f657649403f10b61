-- ===== src/Registry/Redis/Taking.antt =====
-- Taking an entry away keeps the invariant of `RedisRegistry` (server/rust/src/registry.rs).
use tcpunch.Base.{
  Name, some, ◌≡◌, ◌≢◌, ◌∙◌, sym, ap, subst, name_discrete, ne-of-some, some-injective,
}
use tcpunch.Platform.{Platform}
use tcpunch.Platform.Maps.{get-remove_ne, get-remove_cases}
use tcpunch.Platform.Redis.{RedisApi}
use tcpunch.Protocol.{PeerConnectionData}
use tcpunch.Registry.{WaitingClient}
use tcpunch.Registry.Json.{JsonApi}
use tcpunch.Registry.InMemory.Invariant.{IsPending}
use tcpunch.Registry.Redis.{Site, pairing_key, token_key, waiter_map}
use tcpunch.Registry.Redis.Invariant.{Inv, Waits, Waits-unique}
use tcpunch.Registry.Redis.Deleted.{deleted, entry_gone, entry_left, token_gone, token_left}

module _ (P : Platform PeerConnectionData) (R : RedisApi) (J : JsonApi P) where
  open P use {
    uuid.{Uuid, uuid_discrete},
    oneshot.{Channels, Sender, Receiver, channel, receiver, state},
  }
  open waiter_map P R J use {get as get_waiter, insert as insert_waiter, remove as remove_waiter}

  module _ (s : Site P R J) (v : Inv P R J s) (name : Name) where
    -- Taking an entry, its token and its waiter away keeps the invariant, if the other channels are
    -- left alone.
    pub take-Inv :
        (w : WaitingClient P) (channels : Channels)
        → Waits P R J s.store name w
        → ((m : Name) (tx : Sender)
            → name ≢ m
            → get_waiter s.registry.local_waiters m ≡ some tx
            → state channels (receiver tx) ≡ state s.registry.channels (receiver tx))
        → Inv P R J (record {
          store = R.del (R.del s.store (pairing_key name)) (token_key P R J w.reconnect_token);
          registry = record s.registry {
            local_waiters = remove_waiter s.registry.local_waiters name;
            channels = channels;
          };
        })
    take-Inv w channels waits same = record {
      stored = λ n text h. stored_at n text h (name_discrete name n);
      indexed = λ t n h. indexed_at t n h (uuid_discrete w.reconnect_token t);
      pending = λ n tx h.
          let (other, h') =
            get-remove_cases (waiter_map P R J) s.registry.local_waiters name n tx h in
          subst IsPending (sym (same n tx other h')) (v.pending n tx h');
      apart = λ n m tx ty h k.
          v.apart n m tx ty
            (get-remove_cases (waiter_map P R J) s.registry.local_waiters name n tx h).1
            (get-remove_cases (waiter_map P R J) s.registry.local_waiters name m ty k).1;
    }
      where
        st : R.Store
        st = deleted P R J s.store name w.reconnect_token

        stored_at :
            (n text : Name)
            → R.get st (pairing_key n) ≡ some text
            → Dec (name ≡ n)
            → (w' : WaitingClient P) × (J.waiting_from_str text ≡ some w')
              × (R.get st (token_key P R J w'.reconnect_token) ≡ some n)
              × ((tx : Sender) × (get_waiter (remove_waiter s.registry.local_waiters name) n
                    ≡ some tx))
        stored_at n text h (yes e) = absurd (
            ne-of-some
              (ap (λ k. R.get st (pairing_key k)) (sym e)
                ∙ entry_gone P R J s.store name w.reconnect_token)
              h)
        stored_at n text h (no other) =
            let (w', read, led, (tx, held)) =
              v.stored n text (sym (entry_left P R J s.store name w.reconnect_token n other) ∙ h) in
            let (_, at0, read0) = waits in
            let (w0, read0', led0, _) = v.stored name _ at0 in
            let token0 : w0.reconnect_token ≡ w.reconnect_token =
              ap (λ (x : WaitingClient P). x.reconnect_token)
                (some-injective w0 w (sym read0' ∙ read0)) in
            (
              w',
              read,
              token_left P R J s.store name w.reconnect_token w'.reconnect_token (λ q. other (
                    some-injective name n
                      (sym led0 ∙ ap (λ t. R.get s.store (token_key P R J t)) (token0 ∙ q) ∙ led)))
                  ∙ led,
              (tx, get-remove_ne (waiter_map P R J) s.registry.local_waiters name n other ∙ held),
            )

        indexed_at :
            (t : Uuid) (n : Name)
            → R.get st (token_key P R J t) ≡ some n
            → Dec (w.reconnect_token ≡ t)
            → (w' : WaitingClient P) × Waits P R J st n w' × (w'.reconnect_token ≡ t)
        indexed_at t n h (yes e) = absurd (
            ne-of-some
              (ap (λ u. R.get st (token_key P R J u)) (sym e)
                ∙ token_gone P R J s.store name w.reconnect_token)
              h)
        indexed_at t n h (no other) =
            let (w', (text, at, read), same') =
              v.indexed t n (sym (token_left P R J s.store name w.reconnect_token t other) ∙ h) in
            let away : name ≢ n = λ e. other (
              ap (λ (x : WaitingClient P). x.reconnect_token)
                (Waits-unique P R J s.store name w w' waits
                  (subst (λ k. Waits P R J s.store k w') (sym e) (text, at, read)))
              ∙ same') in
            (w', (text, entry_left P R J s.store name w.reconnect_token n away ∙ at, read), same')
