-- ===== src/Registry/Redis/Calls.antt =====
-- server/rust/src/registry.rs: the calls of `RedisRegistry`.
use tcpunch.Base.{
  ℕ, List, [], ◌∷◌, ◌++◌, Option, none, some, Bool, false, Name, name_discrete, Result, ok, err,
  ◌+◌, length, if◌then◌else◌, ite, map,
}
use tcpunch.Base.Exec.{pure, gets, or_raise, unwrap_or, ◌>>=◌}
use tcpunch.Platform.{Platform}
use tcpunch.Platform.Redis.{RedisApi}
use tcpunch.Protocol.{PeerConnectionData}
use tcpunch.Registry.{
  RegistryConfig, WaitingClient, RegistrationResult, waiting, paired, resumed, RegistryError, redis,
  internal,
}
use tcpunch.Registry.Json.{JsonApi}
use tcpunch.Registry.Spec.{some_decide}
use tcpunch.Registry.Redis.{
  Site, Draw, RedisRegistry, Link, up, Call, query, get_command, getdel_command, del_command,
  setex_command, publish_command, pairing_key, token_key, pairing_prefix, notify_prefix, waiter_map,
  drop_waiter, wait_here, ttl_secs, new_waiting,
}

module _ (P : Platform PeerConnectionData) (R : RedisApi) (J : JsonApi P) where
  open P use {uuid.{Uuid}, oneshot.{Channels, Sender, send, none_made}}
  open waiter_map P R J use {get as get_waiter, remove as remove_waiter}

  -- `Client::open` and `get_connection_manager` may fail.
  unfoldable pub new :
      RegistryConfig
      → Channels
      → (opened connected : Link) → Result (RedisRegistry P R J) RegistryError
  new config channels up up =
      ok (record { config = config; local_waiters = (waiter_map P R J).new; channels = channels })
  new config channels _ _ = err redis

  abbrev ask : {A : Type 0} → Link → (R.Store → R.Store × Result A RegistryError) → Call P R J A
  ask = query P R J

  -- A client whose token leads to its name writes its entry anew, whoever's entry is there.
  unfoldable pub resume :
      Name → PeerConnectionData → Uuid → Draw P R J → Call P R J (RegistrationResult P)
  unfolding query wait_here
  resume name info token draw = do
    config ← gets (λ s. s.registry.config)
    waiting_json ←
        or_raise internal (J.waiting_to_string (new_waiting P R J config info token draw.date))
    _ ←
        ask draw.on_setex
          (setex_command P R J (pairing_key name) (ttl_secs P R J config) waiting_json)
    rx ← wait_here P R J name
    pure (resumed token rx)

  abbrev pub resume_some :
      Name → PeerConnectionData → Uuid → Draw P R J → Call P R J (Option (RegistrationResult P))
  resume_some name info token draw = do result ← resume name info token draw; pure (some result)

  -- The reconnection branch of `register`; `none` means that it falls through.
  unfoldable pub reconnect :
      Name
      → PeerConnectionData
      → Option Uuid
      → Draw P R J
      → Call P R J (Option (RegistrationResult P))
  unfolding query
  reconnect name info none draw = pure none
  reconnect name info (some token) draw = do
    stored_name ← ask draw.on_get (get_command P R J (token_key P R J token))
    ite (some_decide name_discrete stored_name name) (resume_some name info token draw) (pure none)

  unfoldable pub publish_peer : Name → PeerConnectionData → Draw P R J → Call P R J (Unit {0})
  unfolding query
  publish_peer name info draw = do
    notify_data ← or_raise internal (J.info_to_string info)
    ask draw.on_publish (publish_command P R J (notify_prefix ++ name) notify_data)

  -- The waiter of this server gets the newcomer's address; for one of another server it is published.
  unfoldable pub notify_peer :
      Name → WaitingClient P → PeerConnectionData → Draw P R J → Call P R J (Unit {0})
  notify_peer name peer info draw s = elim (get_waiter s.registry.local_waiters name) [
    | some tx ↦ (
      record s {
        registry = record s.registry {
          local_waiters = remove_waiter s.registry.local_waiters name;
          channels = send s.registry.channels tx info;
        };
      },
      ok tt,
    )
    | none ↦
        ite (name_discrete peer.server_id s.registry.config.server_id) (pure tt)
          (publish_peer name info draw) s
  ]

  -- A second client, where the first one's entry has been taken out.
  unfoldable pub complete_pairing :
      Name → PeerConnectionData → Name → Draw P R J → Call P R J (RegistrationResult P)
  unfolding query
  complete_pairing name info waiting_json draw = do
    peer ← or_raise internal (J.waiting_from_str waiting_json)
    _ ← ask draw.on_del (del_command P R J (token_key P R J peer.reconnect_token))
    _ ← notify_peer name peer info draw
    pure (paired draw.token peer.connection_info)

  unfoldable pub register_first :
      Name → PeerConnectionData → Draw P R J → Call P R J (RegistrationResult P)
  unfolding query wait_here
  register_first name info draw = do
    config ← gets (λ s. s.registry.config)
    waiting_json ←
        or_raise internal (J.waiting_to_string (new_waiting P R J config info draw.token draw.date))
    _ ←
        ask draw.on_setex
          (setex_command P R J (pairing_key name) (ttl_secs P R J config) waiting_json)
    _ ←
        ask draw.on_setex_token
          (setex_command P R J (token_key P R J draw.token) (ttl_secs P R J config) name)
    rx ← wait_here P R J name
    pure (waiting draw.token rx)

  unfoldable pub register_fresh :
      Name → PeerConnectionData → Draw P R J → Call P R J (RegistrationResult P)
  unfolding query
  register_fresh name info draw = do
    existing ← ask draw.on_getdel (getdel_command P R J (pairing_key name))
    elim existing [
      | some waiting_json ↦ complete_pairing name info waiting_json draw
      | none ↦ register_first name info draw
    ]

  unfoldable pub register :
      Name → PeerConnectionData → Option Uuid → Draw P R J → Call P R J (RegistrationResult P)
  register name info token draw = do
    resumption ← reconnect name info token draw
    elim resumption [ some result ↦ pure result | none ↦ register_fresh name info draw ]

  -- `local_waiters.remove`, with the sender that it drops.
  unfoldable pub remove_local : Name → RedisRegistry P R J → RedisRegistry P R J
  unfolding drop_waiter
  remove_local name r = record r {
    local_waiters = remove_waiter r.local_waiters name;
    channels = drop_waiter P R J r.channels (get_waiter r.local_waiters name);
  }

  -- One `DEL` of both keys, whoever's entry is under the name.
  unfoldable pub unregister : Name → Uuid → Link → Call P R J (Unit {0})
  unfolding query remove_local
  unregister name token on_del = do
    _ ← ask on_del (λ st. (R.del (R.del st (pairing_key name)) (token_key P R J token), ok tt))
    λ s. (record s { registry = remove_local name s.registry }, ok tt)

  -- `unwrap_or_default`: no keys where the query fails.
  unfoldable pub active_count : Link → Site P R J → ℕ
  unfolding query
  active_count link s =
      length (unwrap_or [] (ask link (λ st. (st, ok (R.keys st pairing_prefix))) s).1)

  -- `EXISTS`, with `unwrap_or(false)`.
  unfoldable pub is_present : Link → Name → Site P R J → Bool
  unfolding query
  is_present link name s =
      unwrap_or false (ask link (λ st. (st, ok (R.exists st (pairing_key name)))) s).1

  -- The loop over the names that had a waiter when it began.
  unfoldable pub check_waiters : (Name → Link) → List Name → Site P R J → ℕ → Site P R J × ℕ
  unfolding is_present remove_local
  check_waiters links [] s cleaned = (s, cleaned)
  check_waiters links (name ∷ names) s cleaned =
      let gone =
        check_waiters links names (record s { registry = remove_local name s.registry })
          (cleaned + 1) in
      let kept = check_waiters links names s cleaned in
      if is_present (links name) name s then kept else gone

  unfoldable pub cleanup_expired : (Name → Link) → Site P R J → Site P R J × ℕ
  unfolding check_waiters
  cleanup_expired links s =
      check_waiters links (map (λ e. e.0) ((waiter_map P R J).entries s.registry.local_waiters)) s 0
