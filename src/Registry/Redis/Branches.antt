-- ===== src/Registry/Redis/Branches.antt =====
-- What the calls of `RedisRegistry` do where every command succeeds (server/rust/src/registry.rs).
use tcpunch.Base.Exec.{pure, bind_ok}
use tcpunch.Base.{
  Name, none, some, ok, ◌≡◌, ◌≢◌, ◌<◌, ◌≤◌, refl, name_discrete, if_pos, if_neg, ◌++◌,
}
use tcpunch.Platform.{Platform}
use tcpunch.Platform.Redis.{RedisApi}
use tcpunch.Protocol.{PeerConnectionData}
use tcpunch.Registry.{RegistryConfig, WaitingClient, waiting, paired, resumed}
use tcpunch.Registry.Json.{JsonApi}
use tcpunch.Registry.Spec.{some_decide}
use tcpunch.Registry.Redis.{
  Site, Draw, RedisRegistry, up, pairing_key, token_key, waiter_map, drop_waiter, ttl_secs,
  new_waiting, notify_prefix,
}
use tcpunch.Registry.Redis.Calls.{
  resume, reconnect, notify_peer, complete_pairing, register_first, resume_some, publish_peer,
}

module _ (P : Platform PeerConnectionData) (R : RedisApi) (J : JsonApi P) where
  open P use {uuid.{Uuid}, oneshot.{channel, send}, DateTime}
  open waiter_map P R J use {get as get_waiter, insert as insert_waiter, remove as remove_waiter}

  -- A draw in which every command succeeds.
  abbrev pub all_up : Uuid → DateTime → Draw P R J
  all_up token date = record {
    token = token;
    date = date;
    on_get = up;
    on_getdel = up;
    on_del = up;
    on_publish = up;
    on_setex = up;
    on_setex_token = up;
  }

  -- The timeout of the configuration is one that the Redis server takes.
  abbrev pub IsTtl : RegistryConfig → Type 0
  IsTtl config = (0 < ttl_secs P R J config) × (ttl_secs P R J config ≤ R.max_seconds)

  -- The registry once a client has come to wait on it.
  abbrev pub listening : RedisRegistry P R J → Name → RedisRegistry P R J
  listening r name = record r {
    local_waiters = insert_waiter r.local_waiters name (channel r.channels).1;
    channels = drop_waiter P R J (channel r.channels).0 (get_waiter r.local_waiters name);
  }

  -- A store in which an entry has been written.
  abbrev pub Wrote : R.Store → R.Store → RegistryConfig → Name → WaitingClient P → Type 0
  Wrote st st' config name w =
      (text : Name) × (J.waiting_to_string w ≡ some text)
      × (R.setex st (pairing_key name) (ttl_secs P R J config) text ≡ some st')

  pub wrote :
      (st : R.Store) (config : RegistryConfig) (name : Name) (w : WaitingClient P)
      → IsTtl config
      → (st' : R.Store) × Wrote st st' config name w
  wrote st config name w (pos, small) =
      let (text, written) = J.waiting_written w in
      let (st', done) =
        R.setex_in_range st (pairing_key name) (ttl_secs P R J config) text pos small in
      (st', (text, written, done))

  module _ (s : Site P R J) (name : Name) (info : PeerConnectionData) (fresh : Uuid)
      (date : DateTime) where
    pub resume_up :
        (token : Uuid) (st : R.Store)
        → Wrote s.store st s.registry.config name
            (new_waiting P R J s.registry.config info token date)
        → resume P R J name info token (all_up fresh date) s ≡ (
          record { store = st; registry = listening s.registry name },
          ok (resumed token (channel s.registry.channels).2),
        )
    unfolding resume
    resume_up token st (text, written, done) = rw (written, done) refl

    pub reconnect_up :
        (token : Uuid) (st : R.Store)
        → R.get s.store (token_key P R J token) ≡ some name
        → Wrote s.store st s.registry.config name
            (new_waiting P R J s.registry.config info token date)
        → reconnect P R J name info (some token) (all_up fresh date) s ≡ (
          record { store = st; registry = listening s.registry name },
          ok (some (resumed token (channel s.registry.channels).2)),
        )
    unfolding reconnect
    reconnect_up token st indexed w =
        rw
          (
            indexed,
            if_pos (some_decide name_discrete (some name) name) refl
                (resume_some P R J name info token (all_up fresh date)) (pure none),
          )
          (bind_ok (resume P R J name info token (all_up fresh date)) (λ x. pure (some x))
            (resume_up token st w))

    pub reconnect_missed :
        (token : Uuid)
        → R.get s.store (token_key P R J token) ≢ some name
        → reconnect P R J name info (some token) (all_up fresh date) s ≡ (s, ok none)
    unfolding reconnect
    reconnect_missed token other =
        rw
          (if_neg (some_decide name_discrete (R.get s.store (token_key P R J token)) name) other
            (resume_some P R J name info token (all_up fresh date)) (pure none))
          refl

    notify_here :
        (w : WaitingClient P) (tx : P.oneshot.Sender)
        → get_waiter s.registry.local_waiters name ≡ some tx
        → notify_peer P R J name w info (all_up fresh date) s ≡ (
          record s {
            registry = record s.registry {
              local_waiters = remove_waiter s.registry.local_waiters name;
              channels = send s.registry.channels tx info;
            };
          },
          ok tt,
        )
    unfolding notify_peer
    notify_here w tx here = rw (here, notify_peer) refl

    notify_away :
        (w : WaitingClient P)
        → get_waiter s.registry.local_waiters name ≡ none
        → w.server_id ≢ s.registry.config.server_id
        → (message : Name) × (notify_peer P R J name w info (all_up fresh date) s
            ≡ (record s { store = R.publish s.store (notify_prefix ++ name) message }, ok tt))
    unfolding notify_peer publish_peer
    notify_away w away other =
        let (message, written) = J.info_written info in
        (
          message,
          rw
              (
                away,
                notify_peer,
                if_neg (name_discrete w.server_id s.registry.config.server_id) other (pure tt)
                    (publish_peer P R J name info (all_up fresh date)),
                written,
              )
              refl,
        )

    -- A first client: both keys are written.
    abbrev pub Indexed : R.Store → R.Store → Type 0
    Indexed st st' =
        R.setex st (token_key P R J fresh) (ttl_secs P R J s.registry.config) name ≡ some st'

    pub register_first_up :
        (st st' : R.Store)
        → Wrote s.store st s.registry.config name
            (new_waiting P R J s.registry.config info fresh date)
        → Indexed st st'
        → register_first P R J name info (all_up fresh date) s ≡ (
          record { store = st'; registry = listening s.registry name },
          ok (waiting fresh (channel s.registry.channels).2),
        )
    unfolding register_first
    register_first_up st st' (text, written, done) done' = rw (written, done, done') refl

  module _ (s : Site P R J) (name : Name) (info : PeerConnectionData) (fresh : Uuid)
      (date : DateTime) where
    -- The site once the peer's token has been deleted too.
    abbrev pub untold : WaitingClient P → Site P R J
    untold w = record s { store = R.del s.store (token_key P R J w.reconnect_token) }

    -- A second client whose peer waits on this registry.
    pub complete_here :
        (w : WaitingClient P) (text : Name) (tx : P.oneshot.Sender)
        → J.waiting_from_str text ≡ some w
        → get_waiter s.registry.local_waiters name ≡ some tx
        → complete_pairing P R J name info text (all_up fresh date) s ≡ (
          record s {
            store = R.del s.store (token_key P R J w.reconnect_token);
            registry = record s.registry {
              local_waiters = remove_waiter s.registry.local_waiters name;
              channels = send s.registry.channels tx info;
            };
          },
          ok (paired fresh w.connection_info),
        )
    unfolding complete_pairing
    complete_here w text tx read here = rw read (
        bind_ok (notify_peer P R J name w info (all_up fresh date))
          (λ _. pure (paired fresh w.connection_info))
          (notify_here (untold w) name info fresh date w tx here))

    -- A second client whose peer waits on the registry of another server.
    pub complete_away :
        (w : WaitingClient P) (text : Name)
        → J.waiting_from_str text ≡ some w
        → get_waiter s.registry.local_waiters name ≡ none
        → w.server_id ≢ s.registry.config.server_id
        → (message : Name) × (complete_pairing P R J name info text (all_up fresh date) s ≡ (
          record s {
            store =
                R.publish
                  (R.del s.store (token_key P R J w.reconnect_token))
                  (notify_prefix ++ name)
                  message;
          },
          ok (paired fresh w.connection_info),
        ))
    unfolding complete_pairing
    complete_away w text read away other =
        let (message, told) = notify_away (untold w) name info fresh date w away other in
        (
          message,
          rw read (
              bind_ok (notify_peer P R J name w info (all_up fresh date))
                (λ _. pure (paired fresh w.connection_info)) told),
        )
