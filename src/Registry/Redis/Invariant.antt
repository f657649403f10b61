-- ===== src/Registry/Redis/Invariant.antt =====
-- What the keys in the Redis server and the local waiters of `RedisRegistry` have in common where one
-- server runs (server/rust/src/registry.rs).
use tcpunch.Base.{Name, none, some, ◌≡◌, ◌≢◌, ◌∙◌, sym, ap, some-injective, ne-of-some}
use tcpunch.Platform.{Platform}
use tcpunch.Platform.Redis.{RedisApi}
use tcpunch.Protocol.{PeerConnectionData}
use tcpunch.Registry.{WaitingClient}
use tcpunch.Registry.Json.{JsonApi}
use tcpunch.Registry.InMemory.Invariant.{IsPending}
use tcpunch.Registry.Redis.{Site, pairing_key, token_key, waiter_map}

module _ (P : Platform PeerConnectionData) (R : RedisApi) (J : JsonApi P) where
  open P use {uuid.{Uuid}, oneshot.{Sender, receiver, state}}
  open waiter_map P R J use {get as get_waiter}

  -- A client waits under the name.
  abbrev pub Waits : R.Store → Name → WaitingClient P → Type 0
  Waits st n w =
      (text : Name) × (R.get st (pairing_key n) ≡ some text) × (J.waiting_from_str text ≡ some w)

  pub record Inv (s : Site P R J) : Type 0 where
    -- An entry can be read, its token leads to its name, and its client listens here.
    pub stored :
        (n text : Name)
        → R.get s.store (pairing_key n) ≡ some text
        → (w : WaitingClient P) × (J.waiting_from_str text ≡ some w)
          × (R.get s.store (token_key P R J w.reconnect_token) ≡ some n)
          × ((tx : Sender) × (get_waiter s.registry.local_waiters n ≡ some tx))
    -- A token leads to the entry that has it.
    pub indexed :
        (t : Uuid) (n : Name)
        → R.get s.store (token_key P R J t) ≡ some n
        → (w : WaitingClient P) × Waits s.store n w × (w.reconnect_token ≡ t)
    -- The channel of a local waiter is pending, and no other waiter's.
    pub pending :
        (n : Name) (tx : Sender)
        → get_waiter s.registry.local_waiters n ≡ some tx
        → IsPending (state s.registry.channels (receiver tx))
    pub apart :
        (n m : Name) (tx ty : Sender)
        → get_waiter s.registry.local_waiters n ≡ some tx
        → get_waiter s.registry.local_waiters m ≡ some ty
        → receiver tx ≡ receiver ty
        → n ≡ m

  -- Under a name at most one client waits.
  pub Waits-unique :
      (st : R.Store) (n : Name) (w w' : WaitingClient P) → Waits st n w → Waits st n w' → w ≡ w'
  Waits-unique st n w w' (text, at, read) (text', at', read') =
      some-injective w w'
        (sym read ∙ ap J.waiting_from_str (some-injective text text' (sym at ∙ at')) ∙ read')

  module _ (s : Site P R J) (v : Inv s) where
    -- A token that is not the waiting client's does not lead to the name.
    pub indexed-ne :
        (n : Name) (w : WaitingClient P) (t : Uuid)
        → Waits s.store n w
        → t ≢ w.reconnect_token
        → R.get s.store (token_key P R J t) ≢ some n
    indexed-ne n w t waits other led =
        let (w', waits', same) = v.indexed t n led in
        other (
          sym same
          ∙ ap (λ (x : WaitingClient P). x.reconnect_token)
              (Waits-unique s.store n w' w waits' waits))

    pub indexed-absent :
        (n : Name) (t : Uuid)
        → R.get s.store (pairing_key n) ≡ none
        → R.get s.store (token_key P R J t) ≢ some n
    indexed-absent n t absent led =
        let (w', (text, at, read), same) = v.indexed t n led in ne-of-some absent at
