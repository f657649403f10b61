-- ===== src/Registry/Redis/Elsewhere.antt =====
-- Two servers that share a Redis server (server/rust/src/registry.rs).
use tcpunch.Registry.Redis.Preserve.{listening_apart}
use tcpunch.Registry.Redis.Swept.{redis_cleanup_lem}
use tcpunch.Registry.InMemory.Invariant.{IsPending}
use tcpunch.Base.{Name, none, some, ok, ◌≡◌, ◌≢◌, ◌∙◌, ap, subst, refl, Result, ◌++◌, inl}
use tcpunch.Platform.{Platform, open_, sent, after_send, sender_gone, after_drop_sender}
use tcpunch.Platform.Channels.{state-channel_self, state-send_self}
use tcpunch.Platform.Maps.{get-insert_self}
use tcpunch.Platform.Redis.{RedisApi}
use tcpunch.Platform.Redis.Laws.{get-del_self, get-del_ne}
use tcpunch.Protocol.{PeerConnectionData}
use tcpunch.Registry.{WaitingClient, RegistrationResult, waiting, paired, RegistryError}
use tcpunch.Registry.Json.{JsonApi}
use tcpunch.Registry.Redis.{
  Site, RedisRegistry, pairing_key, token_key, waiter_map, new_waiting, drop_waiter, notify_prefix,
  Link,
}
use tcpunch.Registry.Redis.Calls.{register, reconnect, cleanup_expired}
use tcpunch.Registry.Redis.Invariant.{Waits}
use tcpunch.Registry.Redis.Branches.{all_up, IsTtl, listening, complete_away}
use tcpunch.Registry.Redis.Joining.{
  taken, register_alone, register_beside, register_missed, register_fresh-some,
}
use tcpunch.Registry.Redis.Refines.{token_key-ne-pairing_key, Wrote-Waits, indexed-get}

module _ (P : Platform PeerConnectionData) (R : RedisApi) (J : JsonApi P) where
  open P use {uuid.{Uuid}, oneshot.{Sender, channel, receiver, send, state}, DateTime}
  open waiter_map P R J use {get as get_waiter}

  -- A call of `register` by a client with no token, where every command succeeds.
  abbrev pub joins :
      R.Store
      → RedisRegistry P R J
      → Name
      → PeerConnectionData
      → Uuid
      → DateTime
      → Site P R J × Result (RegistrationResult P) RegistryError
  joins store registry name info fresh date =
      register P R J name info none (all_up P R J fresh date)
        (record { store = store; registry = registry })

  no_token :
      (s : Site P R J) (name : Name) (info : PeerConnectionData) (fresh : Uuid) (date : DateTime)
      → reconnect P R J name info none (all_up P R J fresh date) s ≡ (s, ok none)
  unfolding reconnect
  no_token s name info fresh date = refl

  -- The first client of a name, on a server where nobody listens under it.
  pub joins_alone :
      (store : R.Store) (r : RedisRegistry P R J) (name : Name) (info : PeerConnectionData)
      (fresh : Uuid) (date : DateTime)
      → IsTtl P R J r.config
      → R.get store (pairing_key name) ≡ none
      → (st : R.Store) × Waits P R J st name (new_waiting P R J r.config info fresh date)
        × (joins store r name info fresh date ≡ (
          record { store = st; registry = listening P R J r name },
          ok (waiting fresh (channel r.channels).2),
        ))
  joins_alone store r name info fresh date ttl absent =
      let s : Site P R J = record { store = store; registry = r } in
      let (st, st', written, done, e) =
        register_alone P R J s name info fresh date none ttl (no_token s name info fresh date)
          absent in
      let (text, at, read) =
        Wrote-Waits P R J s (R.del store (pairing_key name)) st name _ written in
      (st', (text, indexed-get P R J s st st' name fresh name done ∙ at, read), e)

  -- The second client of a name, on another server than the first.
  pub joins_away :
      (store : R.Store) (r : RedisRegistry P R J) (name : Name) (info : PeerConnectionData)
      (fresh : Uuid) (date : DateTime) (w : WaitingClient P)
      → Waits P R J store name w
      → get_waiter r.local_waiters name ≡ none
      → w.server_id ≢ r.config.server_id
      → (st : R.Store) × (R.get st (pairing_key name) ≡ none)
        × (joins store r name info fresh date
            ≡ (record { store = st; registry = r }, ok (paired fresh w.connection_info)))
  joins_away store r name info fresh date w (text, at, read) away other =
      let s : Site P R J = record { store = store; registry = r } in
      let (message, e) =
        complete_away P R J (taken P R J s name info fresh date) name info fresh date w text read
          away other in
      let gone = R.del (R.del store (pairing_key name)) (token_key P R J w.reconnect_token) in
      (
        R.publish gone (notify_prefix ++ name) message,
        R.get-publish gone (notify_prefix ++ name) message (pairing_key name)
            ∙ get-del_ne R (R.del store (pairing_key name)) (token_key P R J w.reconnect_token)
                (pairing_key name) (token_key-ne-pairing_key P R J w.reconnect_token name)
            ∙ get-del_self R store (pairing_key name),
        register_missed P R J s name info none (all_up P R J fresh date)
              (no_token s name info fresh date)
            ∙ register_fresh-some P R J s name info fresh date text at
            ∙ e,
      )

  module _ (store : R.Store) (here there : RedisRegistry P R J) (name : Name)
      (here_ttl : IsTtl P R J here.config) (there_ttl : IsTtl P R J there.config)
      (differ : here.config.server_id ≢ there.config.server_id)
      (absent : R.get store (pairing_key name) ≡ none)
      (quiet_here : get_waiter here.local_waiters name ≡ none)
      (quiet_there : get_waiter there.local_waiters name ≡ none) (a b : PeerConnectionData)
      (t u : Uuid) (date date' : DateTime) where
    -- `a` comes to this server, then `b` to the other one.
    abbrev pub after_a : Site P R J × Result (RegistrationResult P) RegistryError
    after_a = joins store here name a t date

    abbrev pub after_b : Site P R J × Result (RegistrationResult P) RegistryError
    after_b = joins after_a.0.store there name b u date'

    listening_state : state (listening P R J here name).channels (channel here.channels).2 ≡ open_
    unfolding drop_waiter
    listening_state = rw quiet_here (state-channel_self P.oneshot here.channels)

    -- Two clients of one name come to two servers that share a Redis server, where nobody waits or
    -- listens under the name: the second is told the first one's address. The next cleanup of the
    -- first server, whether its questions are answered or not, takes the first one's waiter away and
    -- closes its channel with nothing sent, so that all it can be told is a timeout. The channels of
    -- the first server's waiters are pending at the start, and each is one waiter's only.
    pub unheard :
        (pending : (n : Name) (tx : Sender)
          → get_waiter here.local_waiters n ≡ some tx
          → IsPending (state here.channels (receiver tx)))
        (apart : (n m : Name) (tx ty : Sender)
          → get_waiter here.local_waiters n ≡ some tx
          → get_waiter here.local_waiters m ≡ some ty
          → receiver tx ≡ receiver ty
          → n ≡ m)
        (links : Name → Link)
        → let x =
            (cleanup_expired P R J links
              (record { store = after_b.0.store; registry = after_a.0.registry })).0 in
          (after_a.1 ≡ ok (waiting t (channel here.channels).2))
          × (after_b.1 ≡ ok (paired u a))
          × (get_waiter x.registry.local_waiters name ≡ none)
          × (state x.registry.channels (channel here.channels).2 ≡ sender_gone)
    unheard pending apart links =
        let (st, waits, e) = joins_alone store here name a t date here_ttl absent in
        let (st', gone, e') = joins_away st there name b u date' _ waits quiet_there differ in
        let tx = (channel here.channels).1 in
        let s : Site P R J = record { store = st'; registry = listening P R J here name } in
        let (none_left, closed) =
          (redis_cleanup_lem P R J links s (listening_apart P R J here pending apart name)).1 name
            tx (get-insert_self (waiter_map P R J) here.local_waiters name tx) (inl gone) in
        rw (e, e')
          (
            refl,
            refl,
            none_left,
            subst (λ r. state (cleanup_expired P R J links s).0.registry.channels r ≡ sender_gone)
                (P.oneshot.receiver-channel here.channels)
                (closed
                  ∙ ap after_drop_sender (
                      ap (state (listening P R J here name).channels)
                        (P.oneshot.receiver-channel here.channels)
                      ∙ listening_state)),
          )

    module _ (c d : PeerConnectionData) (x y : Uuid) (date'' date''' : DateTime) where
      -- Then `d` comes to the other server, and `c` to this one.
      abbrev pub after_d : Site P R J × Result (RegistrationResult P) RegistryError
      after_d = joins after_b.0.store after_b.0.registry name d x date''

      abbrev pub after_c : Site P R J × Result (RegistrationResult P) RegistryError
      after_c = joins after_d.0.store after_a.0.registry name c y date'''

      -- The sender that was left makes a wrong pair. After those two clients, a third comes
      -- to the other server and waits, and a fourth comes to the first server: the fourth is told the
      -- third one's address, but its own address is sent to the first client, which still waits; the
      -- third hears of nobody.
      pub crossed :
          (after_d.1 ≡ ok (waiting x (channel there.channels).2))
          × (after_c.1 ≡ ok (paired y d))
          × (state after_c.0.registry.channels (channel here.channels).2 ≡ sent c)
          × (state after_d.0.registry.channels (channel there.channels).2 ≡ open_)
      unfolding drop_waiter
      crossed =
          let (st, waits, e) = joins_alone store here name a t date here_ttl absent in
          let (st', gone, e') = joins_away st there name b u date' _ waits quiet_there differ in
          let (st'', (text, at, read), e'') =
            joins_alone st' there name d x date'' there_ttl gone in
          let s : Site P R J = record { store = st''; registry = listening P R J here name } in
          let e''' =
            register_beside P R J s name c y date''' none _ text (channel here.channels).1
              (no_token s name c y date''') at read
              (get-insert_self (waiter_map P R J) here.local_waiters name
                (channel here.channels).1) in
          rw (e, e', e'', e''')
            (
              refl,
              refl,
              subst
                  (λ q.
                    state (send (listening P R J here name).channels (channel here.channels).1 c) q
                    ≡ sent c)
                  (P.oneshot.receiver-channel here.channels)
                  (state-send_self P.oneshot (listening P R J here name).channels
                      (channel here.channels).1 c
                    ∙ ap (after_send c) (
                        ap (state (listening P R J here name).channels)
                          (P.oneshot.receiver-channel here.channels)
                        ∙ listening_state)),
              rw quiet_there (state-channel_self P.oneshot there.channels),
            )
