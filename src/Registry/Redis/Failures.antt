-- ===== src/Registry/Redis/Failures.antt =====
-- `RedisRegistry` where commands fail (server/rust/src/registry.rs).
use tcpunch.Registry.Redis.Refines.{Wrote-Waits, indexed-get}
use tcpunch.Registry.Redis.Invariant.{Waits}
use tcpunch.Registry.Redis.Branches.{IsTtl, all_up, Wrote, wrote, untold}
use tcpunch.Registry.Redis.Joining.{taken}
use tcpunch.Base.{
  Name, Option, none, some, ok, err, ◌≡◌, ◌≢◌, ◌∙◌, refl, name_discrete, arith, if_pos,
}
use tcpunch.Base.Exec.{pure, bind_ok}
use tcpunch.Platform.{Platform}
use tcpunch.Platform.Redis.{RedisApi}
use tcpunch.Protocol.{PeerConnectionData}
use tcpunch.Registry.{WaitingClient, RegistryError, paired, redis}
use tcpunch.Registry.Json.{JsonApi}
use tcpunch.Registry.Redis.{
  Site, Draw, Link, up, lost, reply_lost, waiter_map, pairing_key, token_key, new_waiting, ttl_secs,
}
use tcpunch.Registry.Redis.Calls.{
  resume, reconnect, publish_peer, notify_peer, complete_pairing, register_first, register_fresh,
  register,
}

module _ (P : Platform PeerConnectionData) (R : RedisApi) (J : JsonApi P) where
  open P use {uuid.{Uuid}, oneshot.{Receiver, Sender}, DateTime}
  open waiter_map P R J use {get as get_waiter}

  module _ (name : Name) (info : PeerConnectionData) (draw : Draw P R J) (s : Site P R J) where
    resume_failed :
        (token : Uuid) (e : RegistryError)
        → (resume P R J name info token draw s).1 ≡ err e
        → (resume P R J name info token draw s).0.registry ≡ s.registry
    unfolding resume
    resume_failed token e h = ground arith

    first_failed :
        (e : RegistryError)
        → (register_first P R J name info draw s).1 ≡ err e
        → (register_first P R J name info draw s).0.registry ≡ s.registry
    unfolding register_first
    first_failed e h = ground arith

    complete_failed :
        (text : Name) (e : RegistryError)
        → (complete_pairing P R J name info text draw s).1 ≡ err e
        → (complete_pairing P R J name info text draw s).0.registry ≡ s.registry
    unfolding complete_pairing notify_peer publish_peer
    complete_failed text e h = ground arith

    fresh_failed :
        (e : RegistryError)
        → (register_fresh P R J name info draw s).1 ≡ err e
        → (register_fresh P R J name info draw s).0.registry ≡ s.registry
    unfolding register_fresh complete_pairing notify_peer publish_peer register_first
    fresh_failed e h = ground arith

    reconnect_failed :
        (token : Option Uuid) (e : RegistryError)
        → (reconnect P R J name info token draw s).1 ≡ err e
        → (reconnect P R J name info token draw s).0.registry ≡ s.registry
    unfolding reconnect resume
    reconnect_failed none e h = ground arith
    reconnect_failed (some token) e h = ground arith

    reconnect_missed_kept :
        (token : Option Uuid)
        → (reconnect P R J name info token draw s).1 ≡ ok none
        → (reconnect P R J name info token draw s).0.registry ≡ s.registry
    unfolding reconnect resume
    reconnect_missed_kept none h = ground arith
    reconnect_missed_kept (some token) h = ground arith

  module _ (name : Name) (info : PeerConnectionData) (draw : Draw P R J) (s : Site P R J) where
    -- Whatever commands fail, a `register` that returns an error leaves the local registry as it was:
    -- no waiter is added, taken or told, and no channel is made.
    pub register_failed_kept :
        (token : Option Uuid) (e : RegistryError)
        → (register P R J name info token draw s).1 ≡ err e
        → (register P R J name info token draw s).0.registry ≡ s.registry
    unfolding register
    register_failed_kept token e h = ground (
      arith,
      reconnect_failed name info draw s token e,
      reconnect_missed_kept name info draw s token,
      fresh_failed name info draw (reconnect P R J name info token draw s).0 e,
    )

  -- The first client of a name, whose second `SETEX` fails on its way or on its way back.
  abbrev pub half_up : Uuid → DateTime → Link → Draw P R J
  half_up token date link = record (all_up P R J token date) { on_setex_token = link }

  -- What the second `SETEX` leaves where it fails.
  abbrev pub half_store : Link → R.Store → R.Store → R.Store
  half_store up st st' = st'
  half_store lost st st' = st
  half_store reply_lost st st' = st'

  module _ (s : Site P R J) (name : Name) (info : PeerConnectionData) (fresh : Uuid)
      (date : DateTime) where
    half_first :
        (link : Link) (st st' : R.Store)
        → link ≢ up
        → R.get s.store (pairing_key name) ≡ none
        → Wrote P R J
            (R.del s.store (pairing_key name))
            st
            s.registry.config
            name
            (new_waiting P R J s.registry.config info fresh date)
        → R.setex st (token_key P R J fresh) (ttl_secs P R J s.registry.config) name ≡ some st'
        → register P R J name info none (half_up fresh date link) s
          ≡ (record s { store = half_store link st st' }, err redis)
    unfolding register reconnect register_fresh register_first
    half_first up st st' down absent (text, written, done) done' = absurd (down refl)
    half_first lost st st' down absent (text, written, done) done' =
        rw (R.getdel-eq s.store (pairing_key name), absent, written, done) refl
    half_first reply_lost st st' down absent (text, written, done) done' =
        rw (R.getdel-eq s.store (pairing_key name), absent, written, done, done') refl

    half_Waits :
        (link : Link) (st st' : R.Store) (w : WaitingClient P)
        → Waits P R J st name w
        → R.setex st (token_key P R J fresh) (ttl_secs P R J s.registry.config) name ≡ some st'
        → Waits P R J (half_store link st st') name w
    half_Waits up st st' w (text, at, read) done =
        (text, indexed-get P R J s st st' name fresh name done ∙ at, read)
    half_Waits lost st st' w waits done = waits
    half_Waits reply_lost st st' w (text, at, read) done =
        (text, indexed-get P R J s st st' name fresh name done ∙ at, read)

    notify_nobody :
        (w : WaitingClient P)
        → get_waiter s.registry.local_waiters name ≡ none
        → w.server_id ≡ s.registry.config.server_id
        → notify_peer P R J name w info (all_up P R J fresh date) s ≡ (s, ok tt)
    unfolding notify_peer
    notify_nobody w quiet same =
        rw
          (
            quiet,
            notify_peer,
            if_pos (name_discrete w.server_id s.registry.config.server_id) same (pure tt)
                (publish_peer P R J name info (all_up P R J fresh date)),
          )
          refl

  module _ (s : Site P R J) (name : Name) (info : PeerConnectionData) (fresh : Uuid)
      (date : DateTime) where
    -- A client that takes an entry of this server to which nobody listens.
    pub joins_unheard :
        (w : WaitingClient P)
        → Waits P R J s.store name w
        → get_waiter s.registry.local_waiters name ≡ none
        → w.server_id ≡ s.registry.config.server_id
        → register P R J name info none (all_up P R J fresh date) s ≡ (
          record s {
            store = R.del (R.del s.store (pairing_key name)) (token_key P R J w.reconnect_token);
          },
          ok (paired fresh w.connection_info),
        )
    unfolding register reconnect register_fresh complete_pairing
    joins_unheard w (text, at, read) quiet same =
        rw (R.getdel-eq s.store (pairing_key name), at, read)
          (bind_ok (notify_peer P R J name w info (all_up P R J fresh date))
            (λ _. pure (paired fresh w.connection_info))
            (notify_nobody
              (untold P R J (taken P R J s name info fresh date) name info fresh date w) name info
              fresh date w quiet same))

  -- A registration that fails may leave its entry. Where nobody waits or listens under the name and the
  -- command that writes the token fails, the client is told an error, but its entry stays; the next
  -- client of the name is told its address, and nobody is told of the next.
  pub half_registered :
      (s : Site P R J) (name : Name) (a b : PeerConnectionData) (t u : Uuid) (date date' : DateTime)
      (link : Link)
      → IsTtl P R J s.registry.config
      → link ≢ up
      → R.get s.store (pairing_key name) ≡ none
      → get_waiter s.registry.local_waiters name ≡ none
      → let x = register P R J name a none (half_up t date link) s in
        let y = register P R J name b none (all_up P R J u date') x.0 in
        (x.1 ≡ err redis) × (y.1 ≡ ok (paired u a)) × (y.0.registry ≡ s.registry)
  half_registered s name a b t u date date' link ttl down absent quiet =
      let (st, written) =
        wrote P R J (R.del s.store (pairing_key name)) s.registry.config name
          (new_waiting P R J s.registry.config a t date) ttl in
      let (st', done) =
        R.setex_in_range st (token_key P R J t) (ttl_secs P R J s.registry.config) name ttl.0
          ttl.1 in
      let s' : Site P R J = record s { store = half_store link st st' } in
      let waits =
        half_Waits s name a t date link st st' _
          (Wrote-Waits P R J s (R.del s.store (pairing_key name)) st name _ written) done in
      rw
        (
          half_first s name a t date link st st' down absent written done,
          joins_unheard s' name b u date' (new_waiting P R J s.registry.config a t date) waits quiet
              refl,
        )
        (refl, refl, refl)
