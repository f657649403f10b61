-- ===== src/Registry/Redis/Cases.antt =====
-- The three ways of `RedisRegistry::register` where one server runs and every command succeeds
-- (server/rust/src/registry.rs).
use tcpunch.Base.{
  Name, Option, none, some, ok, Result, ◌≡◌, ◌≢◌, ◌∙◌, sym, ap, subst, refl, Option-cases, inl, inr,
}
use tcpunch.Platform.{Platform}
use tcpunch.Platform.Redis.{RedisApi}
use tcpunch.Protocol.{PeerConnectionData}
use tcpunch.Registry.{WaitingClient, RegistrationResult, RegistryError, waiting, paired, resumed}
use tcpunch.Registry.Json.{JsonApi}
use tcpunch.Registry.Spec.{some_decide}
use tcpunch.Registry.Redis.{Site, pairing_key, token_key, waiter_map, new_waiting, ttl_secs}
use tcpunch.Registry.Redis.Calls.{register, reconnect}
use tcpunch.Registry.Redis.Invariant.{Inv, Waits, indexed-ne, indexed-absent}
use tcpunch.Registry.Redis.Branches.{
  all_up, IsTtl, listening, Wrote, wrote, reconnect_up, reconnect_missed,
}
use tcpunch.Registry.Redis.Joining.{register_resumed, register_beside, register_alone}

module _ (P : Platform PeerConnectionData) (R : RedisApi) (J : JsonApi P) where
  open P use {uuid.{Uuid, uuid_discrete}, oneshot.{Sender, channel, send}, DateTime}
  open waiter_map P R J use {get as get_waiter, insert as insert_waiter, remove as remove_waiter}

  -- The site once the second client of a name has been paired.
  abbrev pub parted : Site P R J → Name → PeerConnectionData → WaitingClient P → Sender → Site P R J
  parted s name info w tx = record {
    store = R.del (R.del s.store (pairing_key name)) (token_key P R J w.reconnect_token);
    registry = record s.registry {
      local_waiters = remove_waiter s.registry.local_waiters name;
      channels = send s.registry.channels tx info;
    };
  }

  module _ (s : Site P R J) (v : Inv P R J s) (ttl : IsTtl P R J s.registry.config) (name : Name)
      (info : PeerConnectionData) (fresh : Uuid) (date : DateTime) where
    falls_through :
        (token : Option Uuid)
        → ((t : Uuid) → token ≡ some t → R.get s.store (token_key P R J t) ≢ some name)
        → reconnect P R J name info token (all_up P R J fresh date) s ≡ (s, ok none)
    unfolding reconnect
    falls_through none h = refl
    falls_through (some t) h = reconnect_missed P R J s name info fresh date t (h t refl)

    register_Waits :
        (w : WaitingClient P) (token : Option Uuid)
        → Waits P R J s.store name w
        → token ≢ some w.reconnect_token
        → (tx : Sender) × (get_waiter s.registry.local_waiters name ≡ some tx)
          × (register P R J name info token (all_up P R J fresh date) s
              ≡ (parted s name info w tx, ok (paired fresh w.connection_info)))
    register_Waits w token (text, at, read) other =
        let (w', read', _, (tx, here)) = v.stored name text at in
        (
          tx,
          here,
          register_beside P R J s name info fresh date token w text tx
              (falls_through token (λ t e.
                indexed-ne P R J s v name w t (text, at, read) (λ q. other (e ∙ ap some q))))
              at read here,
        )

    register_absent :
        (token : Option Uuid)
        → R.get s.store (pairing_key name) ≡ none
        → (st st' : R.Store) × Wrote P R J
            (R.del s.store (pairing_key name))
            st
            s.registry.config
            name
            (new_waiting P R J s.registry.config info fresh date)
          × (R.setex st (token_key P R J fresh) (ttl_secs P R J s.registry.config) name ≡ some st')
          × (register P R J name info token (all_up P R J fresh date) s ≡ (
            record { store = st'; registry = listening P R J s.registry name },
            ok (waiting fresh (channel s.registry.channels).2),
          ))
    register_absent token absent =
        register_alone P R J s name info fresh date token ttl
          (falls_through token (λ t e. indexed-absent P R J s v name t absent)) absent

    -- What holds in each of the three ways holds of `register`.
    pub register_cases :
        (Q : Site P R J × Result (RegistrationResult P) RegistryError → Type 0)
        (token : Option Uuid)
        → ((w : WaitingClient P) (st : R.Store)
            → Waits P R J s.store name w
            → token ≡ some w.reconnect_token
            → Wrote P R J s.store st s.registry.config name
                (new_waiting P R J s.registry.config info w.reconnect_token date)
            → Q (
              record { store = st; registry = listening P R J s.registry name },
              ok (resumed w.reconnect_token (channel s.registry.channels).2),
            ))
        → ((w : WaitingClient P) (tx : Sender)
            → Waits P R J s.store name w
            → token ≢ some w.reconnect_token
            → get_waiter s.registry.local_waiters name ≡ some tx
            → Q (parted s name info w tx, ok (paired fresh w.connection_info)))
        → ((st st' : R.Store)
            → R.get s.store (pairing_key name) ≡ none
            → Wrote P R J
                (R.del s.store (pairing_key name))
                st
                s.registry.config
                name
                (new_waiting P R J s.registry.config info fresh date)
            → R.setex st (token_key P R J fresh) (ttl_secs P R J s.registry.config) name ≡ some st'
            → Q (
              record { store = st'; registry = listening P R J s.registry name },
              ok (waiting fresh (channel s.registry.channels).2),
            ))
        → Q (register P R J name info token (all_up P R J fresh date) s)
    register_cases Q token on_resumed on_paired on_waiting =
        elim (Option-cases (R.get s.store (pairing_key name))) [
          | inl absent ↦
              let (st, st', w, done, e) = register_absent token absent in
              subst Q (sym e) (on_waiting st st' absent w done)
          | inr (text, at) ↦ found text at (v.stored name text at)
        ]
      where
        found :
            (text : Name)
            → R.get s.store (pairing_key name) ≡ some text
            → ((w : WaitingClient P) × (J.waiting_from_str text ≡ some w)
                × (R.get s.store (token_key P R J w.reconnect_token) ≡ some name)
                × ((tx : Sender) × (get_waiter s.registry.local_waiters name ≡ some tx)))
            → Q (register P R J name info token (all_up P R J fresh date) s)
        found text at (w, read, led, _) = elim (some_decide uuid_discrete token w.reconnect_token) [
          | yes same ↦
              let (st, written) =
                wrote P R J s.store s.registry.config name
                  (new_waiting P R J s.registry.config info w.reconnect_token date) ttl in
              subst Q
                (sym (
                  ap (λ t. register P R J name info t (all_up P R J fresh date) s) same
                  ∙ register_resumed P R J s name info (some w.reconnect_token)
                      (all_up P R J fresh date)
                      (reconnect_up P R J s name info fresh date w.reconnect_token st led written)))
                (on_resumed w st (text, at, read) same written)
          | no other ↦
              let (tx, here, e) = register_Waits w token (text, at, read) other in
              subst Q (sym e) (on_paired w tx (text, at, read) other here)
        ]
