-- ===== src/Registry/Redis/Register.antt =====
-- The calls of `RedisRegistry` keep its invariant (server/rust/src/registry.rs).
use tcpunch.Base.{Name, Option, none, some, ◌≡◌, ◌∙◌, sym, ap, refl, ne-of-some, some-injective}
use tcpunch.Platform.{Platform}
use tcpunch.Platform.Redis.{RedisApi}
use tcpunch.Platform.Redis.Laws.{get-setex_self, get-setex_ne, get-del_ne}
use tcpunch.Platform.Channels.{state-send_ne}
use tcpunch.Protocol.{PeerConnectionData}
use tcpunch.Registry.{WaitingClient}
use tcpunch.Registry.Json.{JsonApi}
use tcpunch.Registry.Redis.{
  Site, RedisRegistry, pairing_key, token_key, waiter_map, new_waiting, ttl_secs, up,
}
use tcpunch.Registry.Redis.Keys.{token_key-injective, pairing_key-ne-token_key}
use tcpunch.Registry.Redis.Calls.{register, unregister}
use tcpunch.Registry.Redis.Invariant.{Inv, Waits, Waits-unique}
use tcpunch.Registry.Redis.Branches.{all_up, IsTtl, Wrote}
use tcpunch.Registry.Redis.Cases.{register_cases}
use tcpunch.Registry.Redis.Refines.{pairing_key-ne, Wrote-Waits, Wrote-ne, indexed-get}
use tcpunch.Registry.Redis.Preserve.{Put, put-Inv, state-drop_waiter}
use tcpunch.Registry.Redis.Taking.{take-Inv}

module _ (P : Platform PeerConnectionData) (R : RedisApi) (J : JsonApi P) where
  open P use {uuid.{Uuid, uuid_discrete}, oneshot.{Channels, Sender, receiver, state}, DateTime}
  open waiter_map P R J use {get as get_waiter}

  -- A registry that has just been made, on a Redis server with no key of the program.
  pub new-Inv :
      (st : R.Store) (r : RedisRegistry P R J)
      → ((k : Name) → R.get st k ≡ none)
      → ((n : Name) → get_waiter r.local_waiters n ≡ none)
      → Inv P R J (record { store = st; registry = r })
  new-Inv st r empty quiet = record {
    stored = λ n text h. absurd (ne-of-some (empty (pairing_key n)) h);
    indexed = λ t n h. absurd (ne-of-some (empty (token_key P R J t)) h);
    pending = λ n tx h. absurd (ne-of-some (quiet n) h);
    apart = λ n m tx ty h k e. absurd (ne-of-some (quiet n) h);
  }

  module _ (s : Site P R J) (v : Inv P R J s) (name : Name) where
    token_of-led :
        (w : WaitingClient P)
        → Waits P R J s.store name w
        → R.get s.store (token_key P R J w.reconnect_token) ≡ some name
    token_of-led w (text, at, read) =
        let (w', read', led, _) = v.stored name text at in
        ap (λ (x : WaitingClient P). R.get s.store (token_key P R J x.reconnect_token))
          (some-injective w w' (sym read ∙ read'))
        ∙ led

    Put-resumed :
        (info : PeerConnectionData) (w : WaitingClient P) (date : DateTime) (st : R.Store)
        → Waits P R J s.store name w
        → Wrote P R J s.store st s.registry.config name
            (new_waiting P R J s.registry.config info w.reconnect_token date)
        → Put P R J s v name st (new_waiting P R J s.registry.config info w.reconnect_token date)
    Put-resumed info w date st waits written = record {
      waits = Wrote-Waits P R J s s.store st name _ written;
      led = kept w.reconnect_token ∙ token_of-led w waits;
      entries_kept = λ m h.
          Wrote-ne P R J s s.store st name _ (pairing_key m) written
            (pairing_key-ne P R J name m h);
      tokens_kept = λ t _. kept t;
      only = λ t h.
          let (w', waits', same) = v.indexed t name h in
          sym same
          ∙ ap (λ (x : WaitingClient P). x.reconnect_token)
              (Waits-unique P R J s.store name w' w waits' waits);
      own = λ n h. some-injective name n (sym (token_of-led w waits) ∙ h);
    }
      where
        kept : (t : Uuid) → R.get st (token_key P R J t) ≡ R.get s.store (token_key P R J t)
        kept t =
            Wrote-ne P R J s s.store st name _ (token_key P R J t) written
              (pairing_key-ne-token_key P R J name t)

    Put-waiting :
        (info : PeerConnectionData) (fresh : Uuid) (date : DateTime) (st st' : R.Store)
        → R.get s.store (token_key P R J fresh) ≡ none
        → R.get s.store (pairing_key name) ≡ none
        → Wrote P R J
            (R.del s.store (pairing_key name))
            st
            s.registry.config
            name
            (new_waiting P R J s.registry.config info fresh date)
        → R.setex st (token_key P R J fresh) (ttl_secs P R J s.registry.config) name ≡ some st'
        → Put P R J s v name st' (new_waiting P R J s.registry.config info fresh date)
    Put-waiting info fresh date st st' unused absent written done = record {
      waits =
          let (text, at, read) =
            Wrote-Waits P R J s (R.del s.store (pairing_key name)) st name _ written in
          (text, indexed-get P R J s st st' name fresh name done ∙ at, read);
      led = get-setex_self R st st' (token_key P R J fresh) (token_key P R J fresh) _ name done;
      entries_kept = λ m h.
          indexed-get P R J s st st' name fresh m done
          ∙ Wrote-ne P R J s (R.del s.store (pairing_key name)) st name _ (pairing_key m) written
              (pairing_key-ne P R J name m h)
          ∙ get-del_ne R s.store (pairing_key name) (pairing_key m) (pairing_key-ne P R J name m h);
      tokens_kept = λ t h.
          get-setex_ne R st st' (token_key P R J fresh) (token_key P R J t) _ name done
            (λ e. h (sym (token_key-injective P R J fresh t e)))
          ∙ Wrote-ne P R J s (R.del s.store (pairing_key name)) st name _ (token_key P R J t)
              written (pairing_key-ne-token_key P R J name t)
          ∙ get-del_ne R s.store (pairing_key name) (token_key P R J t)
              (pairing_key-ne-token_key P R J name t);
      only = λ t h.
          let (w', (text, at, read), same) = v.indexed t name h in absurd (ne-of-some absent at);
      own = λ n h. absurd (ne-of-some unused h);
    }

    -- Where every command succeeds and the fresh token is not in use, `register` keeps the invariant.
    pub redis_register-Inv :
        (ttl : IsTtl P R J s.registry.config) (info : PeerConnectionData) (token : Option Uuid)
        (fresh : Uuid) (date : DateTime)
        → R.get s.store (token_key P R J fresh) ≡ none
        → Inv P R J (register P R J name info token (all_up P R J fresh date) s).0
    redis_register-Inv ttl info token fresh date unused =
        register_cases P R J s v ttl name info fresh date (λ x. Inv P R J x.0) token
          (λ w st waits same written.
            put-Inv P R J s v name st _ (Put-resumed info w date st waits written))
          (λ w tx waits other here. take-Inv P R J s v name w _ waits (λ m ty h k.
            state-send_ne P.oneshot s.registry.channels tx info (receiver ty)
              (λ e. h (v.apart name m tx ty here k e))))
          (λ st st' absent written done.
            put-Inv P R J s v name st' _
              (Put-waiting info fresh date st st' unused absent written done))

    -- A client that gives its own token takes its entry, its token and its waiter away.
    pub redis_unregister-Inv :
        (w : WaitingClient P)
        → Waits P R J s.store name w
        → Inv P R J (unregister P R J name w.reconnect_token up s).0
    unfolding unregister
    redis_unregister-Inv w waits = take-Inv P R J s v name w _ waits (λ m ty h k.
        state-drop_waiter P R J s.registry.channels (get_waiter s.registry.local_waiters name)
          (receiver ty) (λ tx here e. h (v.apart name m tx ty here k e)))

    pub register-config :
        (ttl : IsTtl P R J s.registry.config) (info : PeerConnectionData) (token : Option Uuid)
        (fresh : Uuid) (date : DateTime)
        → (register P R J name info token (all_up P R J fresh date) s).0.registry.config
          ≡ s.registry.config
    register-config ttl info token fresh date =
        register_cases P R J s v ttl name info fresh date
          (λ x. x.0.registry.config ≡ s.registry.config) token (λ w st waits same written. refl)
          (λ w tx waits other here. refl) (λ st st' absent written done. refl)
