-- ===== src/Registry/Dispatch/Either.antt =====
-- What holds of the enum `Registry` whichever registry it is (server/rust/src/registry.rs).
use mathlib.Core.Path.{ap₂}
use tcpunch.Base.{
  Option-cases, inl, inr, List, [], ◌∷◌, Name, Option, none, some, ok, Result, ◌≡◌, ◌∙◌, ap, refl,
}
use tcpunch.Platform.{Platform}
use tcpunch.Platform.Redis.{RedisApi}
use tcpunch.Protocol.{PeerConnectionData}
use tcpunch.Registry.{RegistrationResult, RegistryError}
use tcpunch.Registry.Json.{JsonApi}
use tcpunch.Registry.Spec.{update}
use tcpunch.Registry.Seats.{seat_of, Seats, Told, seats, seats-update, put}
use tcpunch.Registry.Backends.{
  Registration, answer, step, in_memory_step, redis_step, in_memory_next, redis_next,
}
use tcpunch.Registry.Dispatch.{Registry, in_memory, redis, register, unregister}
use tcpunch.Registry.InMemory as InMemory
use tcpunch.Registry.InMemory.{InMemoryRegistry, token_map}
use tcpunch.Registry.InMemory.Invariant as InMemoryInvariant
use tcpunch.Registry.InMemory.Refines as InMemoryRefines
use tcpunch.Platform.Maps.{get-remove_ne}
use tcpunch.Registry.InMemory.Branches.{unregister_absent, unregister_found}
use tcpunch.Registry.Redis.{waiter_map, Site, up, token_key}
use tcpunch.Registry.Redis.Calls as Calls
use tcpunch.Registry.Redis.Invariant as RedisInvariant
use tcpunch.Registry.Redis.View as View
use tcpunch.Registry.Redis.Branches.{all_up, IsTtl}
use tcpunch.Registry.Redis.Deleted.{entry_gone, entry_left}

module _ (P : Platform PeerConnectionData) (R : RedisApi) (J : JsonApi P) where
  open P use {uuid.{Uuid}}

  -- Either registry's invariant; a Redis server takes the timeout of its registry.
  abbrev pub IsWellFormed : Registry P R J → Type 0
  IsWellFormed (in_memory r) = InMemoryInvariant.Inv P r
  IsWellFormed (redis s) = RedisInvariant.Inv P R J s × IsTtl P R J s.registry.config

  -- Who waits.
  unfoldable pub waiting_seats : Registry P R J → Seats P
  waiting_seats (in_memory r) = seats P (InMemoryRefines.slots P r)
  waiting_seats (redis s) = seats P (View.slots P R J s)

  -- The fresh token is in use nowhere.
  abbrev pub IsUnused : Registry P R J → Uuid → Type 0
  IsUnused (in_memory r) fresh = (token_map P).get r.tokens fresh ≡ none
  IsUnused (redis s) fresh = R.get s.store (token_key P R J fresh) ≡ none

  abbrev pub call :
      Registry P R J
      → Registration P R J
      → Registry P R J × Result (RegistrationResult P) RegistryError
  call g c = register P R J g c.name c.info c.token (record {
    for_memory = record { token = c.fresh; now = c.now; date = c.date };
    for_redis = all_up P R J c.fresh c.date;
  })

  abbrev pub answers : Registry P R J → List (Registration P R J) → List (Option (Told P))
  answers g [] = []
  answers g (c ∷ cs) = answer P R J (call g c).1 ∷ answers (call g c).0 cs

  abbrev pub AreUnused : Registry P R J → List (Registration P R J) → Type 0
  AreUnused g [] = Unit {0}
  AreUnused g (c ∷ cs) = IsUnused g c.fresh × AreUnused (call g c).0 cs

  -- The answers of the rendezvous itself.
  abbrev pub rendezvous : Seats P → List (Registration P R J) → List (Option (Told P))
  rendezvous f [] = []
  rendezvous f (c ∷ cs) = some (step P R J f c).1 ∷ rendezvous (step P R J f c).0 cs

  call_lem :
      (g : Registry P R J) (c : Registration P R J)
      → IsWellFormed g
      → IsUnused g c.fresh
      → IsWellFormed (call g c).0
        × (waiting_seats (call g c).0 ≡ (step P R J (waiting_seats g) c).0)
        × (answer P R J (call g c).1 ≡ some (step P R J (waiting_seats g) c).1)
  unfolding register waiting_seats
  call_lem (in_memory r) c v unused =
      let (e, answered) = in_memory_step P R J r c v in
      (in_memory_next P R J r c v unused, e, answered)
  call_lem (redis s) c (v, ttl) unused =
      let (e, answered) = redis_step P R J s c v ttl in
      (redis_next P R J s c v ttl unused, e, answered)

  -- Whichever registry the server has, a sequence of calls of `register` gets the answers of the
  -- rendezvous: the first client of a name is told to wait, with a fresh token; a client that comes
  -- with the waiting one's token waits again; any other, also one with a wrong token, which the code
  -- does not refuse, is told the waiting one's address, and nobody waits then. The registry is well formed, the fresh tokens are unused, and over Redis one server
  -- runs, its timeout is one that Redis takes, no entry expires and every command succeeds.
  pub answers-rendezvous :
      (g : Registry P R J) (calls : List (Registration P R J))
      → IsWellFormed g
      → AreUnused g calls
      → answers g calls ≡ rendezvous (waiting_seats g) calls
  answers-rendezvous g [] v h = refl
  answers-rendezvous g (c ∷ cs) v (unused, rest) =
      let (v', e, answered) = call_lem g c v unused in
      ap₂ ◌∷◌ answered (answers-rendezvous (call g c).0 cs v' rest ∙ ap (λ f. rendezvous f cs) e)

  in_memory_unregistered :
      (r : InMemoryRegistry P) (name : Name) (token : Uuid)
      → (InMemory.unregister P r name token).1 ≡ ok tt
  in_memory_unregistered r name token =
      elim (Option-cases ((InMemory.pairing_map P).get r.pairings name)) [
        | inl absent ↦ rw (unregister_absent P r name token absent) refl
        | inr (e, stored) ↦ rw (unregister_found P r name e token stored) refl
      ]

  -- The two deleted keys leave the entries of other names alone.
  slots-unregister :
      (s : Site P R J) (name : Name) (token : Uuid)
      → View.slots P R J (Calls.unregister P R J name token up s).0
        ≡ update P (View.slots P R J s) name none
  unfolding Calls.unregister
  slots-unregister s name token =
      let s' = (Calls.unregister P R J name token up s).0 in
      View.slots-update P R J s s' name none
        (View.slots-absent P R J s' name (entry_gone P R J s.store name token))
        (λ m other.
          View.slots-kept P R J s s' m (entry_left P R J s.store name token m other)
            (get-remove_ne (waiter_map P R J) s.registry.local_waiters name m other))

  -- Whichever registry the server has: after `unregister`, where the command reaches the Redis server
  -- and its reply comes back, nobody waits under the name, whoever's token it was, and who waits under
  -- the other names is as before. The registry is well formed.
  pub registry_unregister_lem :
      (g : Registry P R J) (name : Name) (token : Uuid)
      → IsWellFormed g
      → ((unregister P R J g name token up).1 ≡ ok tt)
        × (waiting_seats (unregister P R J g name token up).0 ≡ put P (waiting_seats g) name none)
  unfolding unregister waiting_seats seat_of
  registry_unregister_lem (in_memory r) name token v = (
    in_memory_unregistered r name token,
    ap (seats P) (InMemoryRefines.unregister-empties P r v name token)
        ∙ seats-update P (InMemoryRefines.slots P r) name none,
  )
  registry_unregister_lem (redis s) name token v = (
    unfold Calls.unregister in refl,
    ap (seats P) (slots-unregister s name token) ∙ seats-update P (View.slots P R J s) name none,
  )
