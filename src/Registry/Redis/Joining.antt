-- ===== src/Registry/Redis/Joining.antt =====
-- How `register` of `RedisRegistry` goes by its parts (server/rust/src/registry.rs).
use tcpunch.Base.{Name, Option, none, some, ok, ◌≡◌, refl, err, ◌∙◌}
use tcpunch.Platform.{Platform}
use tcpunch.Platform.Redis.{RedisApi}
use tcpunch.Protocol.{PeerConnectionData}
use tcpunch.Registry.{WaitingClient, RegistrationResult, waiting, paired, RegistryError}
use tcpunch.Registry.Json.{JsonApi}
use tcpunch.Registry.Redis.{Site, Draw, pairing_key, token_key, waiter_map, ttl_secs, new_waiting}
use tcpunch.Registry.Redis.Calls.{
  reconnect, complete_pairing, register_first, register_fresh, register,
}
use tcpunch.Registry.Redis.Branches.{
  all_up, IsTtl, listening, Wrote, wrote, register_first_up, complete_here,
}

module _ (P : Platform PeerConnectionData) (R : RedisApi) (J : JsonApi P) where
  open P use {uuid.{Uuid}, oneshot.{channel, send}, DateTime}
  open waiter_map P R J use {get as get_waiter, insert as insert_waiter, remove as remove_waiter}

  module _ (s : Site P R J) (name : Name) (info : PeerConnectionData) (token : Option Uuid)
      (draw : Draw P R J) where
    pub register_resumed :
        {s' : Site P R J} {x : RegistrationResult P}
        → reconnect P R J name info token draw s ≡ (s', ok (some x))
        → register P R J name info token draw s ≡ (s', ok x)
    unfolding register
    register_resumed e = rw e refl

    pub register_failed :
        {s' : Site P R J} {x : RegistryError}
        → reconnect P R J name info token draw s ≡ (s', err x)
        → register P R J name info token draw s ≡ (s', err x)
    unfolding register
    register_failed e = rw e refl

    pub register_missed :
        {s' : Site P R J}
        → reconnect P R J name info token draw s ≡ (s', ok none)
        → register P R J name info token draw s ≡ register_fresh P R J name info draw s'
    unfolding register
    register_missed e = rw e refl

  module _ (s : Site P R J) (name : Name) (info : PeerConnectionData) (fresh : Uuid)
      (date : DateTime) where
    -- The site once the entry of the name has been taken out.
    abbrev pub taken : Site P R J
    taken = record s { store = R.del s.store (pairing_key name) }

    pub register_fresh-some :
        (text : Name)
        → R.get s.store (pairing_key name) ≡ some text
        → register_fresh P R J name info (all_up P R J fresh date) s
          ≡ complete_pairing P R J name info text (all_up P R J fresh date) taken
    unfolding register_fresh
    register_fresh-some text stored = rw (R.getdel-eq s.store (pairing_key name), stored) refl

    pub register_fresh-none :
        R.get s.store (pairing_key name) ≡ none
        → register_fresh P R J name info (all_up P R J fresh date) s
          ≡ register_first P R J name info (all_up P R J fresh date) taken
    unfolding register_fresh
    register_fresh-none absent = rw (R.getdel-eq s.store (pairing_key name), absent) refl

    -- A client whose reconnection falls through, where nobody waits under the name.
    pub register_alone :
        (token : Option Uuid)
        → IsTtl P R J s.registry.config
        → reconnect P R J name info token (all_up P R J fresh date) s ≡ (s, ok none)
        → R.get s.store (pairing_key name) ≡ none
        → (st st' : R.Store) × Wrote P R J
            (R.del s.store (pairing_key name))
            st
            s.registry.config
            name
            (new_waiting P R J s.registry.config info fresh date)
          × (R.setex st (token_key P R J fresh) (ttl_secs P R J s.registry.config) name ≡ some st')
          × (register P R J name info token (all_up P R J fresh date) s ≡ (
            record { store = st'; registry = listening P R J s.registry name },
            ok (waiting fresh (channel s.registry.channels).2),
          ))
    register_alone token ttl missed absent =
        let (st, w) =
          wrote P R J taken.store s.registry.config name
            (new_waiting P R J s.registry.config info fresh date) ttl in
        let (st', done) =
          R.setex_in_range st (token_key P R J fresh) (ttl_secs P R J s.registry.config) name ttl.0
            ttl.1 in
        (
          st,
          st',
          w,
          done,
          register_missed s name info token (all_up P R J fresh date) missed
              ∙ register_fresh-none absent
              ∙ register_first_up P R J taken name info fresh date st st' w done,
        )

    -- A client whose reconnection falls through, where somebody waits under the name, on this server.
    pub register_beside :
        (token : Option Uuid) (w : WaitingClient P) (text : Name) (tx : P.oneshot.Sender)
        → reconnect P R J name info token (all_up P R J fresh date) s ≡ (s, ok none)
        → R.get s.store (pairing_key name) ≡ some text
        → J.waiting_from_str text ≡ some w
        → get_waiter s.registry.local_waiters name ≡ some tx
        → register P R J name info token (all_up P R J fresh date) s ≡ (
          record {
            store = R.del (R.del s.store (pairing_key name)) (token_key P R J w.reconnect_token);
            registry = record s.registry {
              local_waiters = remove_waiter s.registry.local_waiters name;
              channels = send s.registry.channels tx info;
            };
          },
          ok (paired fresh w.connection_info),
        )
    register_beside token w text tx missed at read here =
        register_missed s name info token (all_up P R J fresh date) missed
        ∙ register_fresh-some text at
        ∙ complete_here P R J taken name info fresh date w text tx read here
