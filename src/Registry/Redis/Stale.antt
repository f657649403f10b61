-- ===== src/Registry/Redis/Stale.antt =====
-- `cleanup_expired` of `RedisRegistry` where a call comes between its question to the Redis server and
-- what it does with the answer (server/rust/src/registry.rs).
use tcpunch.Base.{
  ℕ, Name, List, ◌∷◌, Bool, true, false, none, some, ok, inl, inr, ◌≡◌, ◌∙◌, ◌+◌, refl, sym, ap,
  Bool-cases, subst,
}
use tcpunch.Platform.{Platform, open_, sender_gone, after_drop_sender}
use tcpunch.Platform.Channels.{state-channel_self, state-drop_sender_self, channel-ne_issued}
use tcpunch.Platform.Maps.{get-insert_self}
use tcpunch.Platform.Redis.{RedisApi}
use tcpunch.Protocol.{PeerConnectionData}
use tcpunch.Registry.{waiting, paired}
use tcpunch.Registry.InMemory.Preserve.{IsPending-ne-unissued}
use tcpunch.Registry.Json.{JsonApi}
use tcpunch.Registry.Redis.{Site, Link, up, waiter_map, pairing_key, new_waiting, drop_waiter}
use tcpunch.Registry.Redis.Branches.{IsTtl, all_up, listening}
use tcpunch.Registry.Redis.Calls.{register, remove_local, is_present, check_waiters}
use tcpunch.Registry.Redis.Cleanup.{check_present, check_absent, get-dropped_self}
use tcpunch.Registry.Redis.Elsewhere.{joins_alone}
use tcpunch.Registry.Redis.Failures.{joins_unheard}
use tcpunch.Registry.Redis.Invariant.{Inv}
use tcpunch.Registry.Redis.Preserve.{state-drop_waiter}

module _ (P : Platform PeerConnectionData) (R : RedisApi) (J : JsonApi P) where
  open P use {
    uuid.{Uuid},
    oneshot.{Receiver, Sender, receiver, state, channel, drop_sender},
    DateTime,
  }
  open waiter_map P R J use {get as get_waiter}

  -- The rest of the loop's body, once the answer to `EXISTS` is there.
  unfoldable pub check_one : (exists : Bool) → Name → Site P R J → Site P R J
  check_one true name s = s
  check_one false name s = record s { registry = remove_local P R J name s.registry }

  -- Where no call comes between, this is the loop of a call in one step.
  pub check_waiters-check_one :
      (links : Name → Link) (name : Name) (names : List Name) (s : Site P R J) (cleaned : ℕ)
      → (c : ℕ) × (check_waiters P R J links (name ∷ names) s cleaned
          ≡ check_waiters P R J links names
              (check_one (is_present P R J (links name) name s) name s)
              c)
  unfolding check_one
  check_waiters-check_one links name names s cleaned =
      elim (Bool-cases (is_present P R J (links name) name s)) [
        | inl here ↦ (cleaned, rw here (check_present P R J links name names s cleaned here))
        | inr missing ↦
            (cleaned + 1, rw missing (check_absent P R J links name names s cleaned missing))
      ]

  -- The cleanup can close the channel of a client that has just come. Where a client of this server still
  -- listens under a name whose key has expired, the cleanup asks for the key, and a client registers
  -- under the name before the cleanup goes on with the answer: the newcomer is told to wait, on an open
  -- channel, which the cleanup then closes; its entry stays, so that the next client is told its address,
  -- and nobody is told of that client. The commands of both registrations succeed, the time to live is
  -- one that the Redis server takes, and the registry is well formed.
  pub newcomer_swept :
      (s : Site P R J) (v : Inv P R J s) (name : Name) (a b : PeerConnectionData) (t u : Uuid)
      (date date' : DateTime) (old : Sender)
      → IsTtl P R J s.registry.config
      → get_waiter s.registry.local_waiters name ≡ some old
      → R.get s.store (pairing_key name) ≡ none
      → let answer = is_present P R J up name s in
        let x = register P R J name a none (all_up P R J t date) s in
        let y = check_one answer name x.0 in
        let z = register P R J name b none (all_up P R J u date') y in
        let rx = (channel s.registry.channels).2 in
        (x.1 ≡ ok (waiting t rx))
        × (state x.0.registry.channels rx ≡ open_)
        × (state y.registry.channels rx ≡ sender_gone)
        × (z.1 ≡ ok (paired u a))
        × (z.0.registry ≡ y.registry)
  unfolding is_present check_one remove_local drop_waiter
  newcomer_swept s v name a b t u date date' old ttl held absent =
      let (st, waits, e) = joins_alone P R J s.store s.registry name a t date ttl absent in
      let r = listening P R J s.registry name in
      let y : Site P R J = record { store = st; registry = remove_local P R J name r } in
      let answer : is_present P R J up name s ≡ false =
        rw (R.exists-none s.store (pairing_key name) absent) refl in
      let opened : state r.channels (channel s.registry.channels).2 ≡ open_ =
        state-drop_waiter P R J (channel s.registry.channels).0
          (get_waiter s.registry.local_waiters name) (channel s.registry.channels).2
          (λ tx h q.
            channel-ne_issued P.oneshot s.registry.channels (receiver tx)
              (IsPending-ne-unissued _ (v.pending name tx h)) (sym q))
        ∙ state-channel_self P.oneshot s.registry.channels in
      let next =
        joins_unheard P R J y name b u date' (new_waiting P R J s.registry.config a t date) waits
          (get-dropped_self P R J (record { store = st; registry = r }) name) refl in
      let tx = (channel s.registry.channels).1 in
      let same : receiver tx ≡ (channel s.registry.channels).2 =
        P.oneshot.receiver-channel s.registry.channels in
      let shut : state (drop_sender r.channels tx) (channel s.registry.channels).2 ≡ sender_gone =
        subst (λ z. state (drop_sender r.channels tx) z ≡ sender_gone) same
          (state-drop_sender_self P.oneshot r.channels tx
            ∙ ap after_drop_sender (subst (λ z. state r.channels z ≡ open_) (sym same) opened)) in
      rw (answer, e, next)
        (
          refl,
          opened,
          rw (get-insert_self (waiter_map P R J) s.registry.local_waiters name tx, drop_waiter)
              shut,
          refl,
          refl,
        )
