-- ===== src/Registry/Backends.antt =====
-- The two registries of server/rust/src/registry.rs side by side.
use mathlib.Core.Path.{ap₂}
use tcpunch.Base.{
  ℕ, List, [], ◌∷◌, Name, Option, none, some, ok, Result, err, ◌≡◌, ◌∙◌, sym, ap, subst, refl,
}
use tcpunch.Platform.{Platform}
use tcpunch.Platform.Redis.{RedisApi}
use tcpunch.Protocol.{PeerConnectionData}
use tcpunch.Registry.{RegistrationResult, RegistryError}
use tcpunch.Registry.Json.{JsonApi}
use tcpunch.Registry.Seats.{Seats, Told, seats, told, meet_seats, seats-meet}
use tcpunch.Registry.InMemory as InMemory
use tcpunch.Registry.InMemory.{InMemoryRegistry, token_map}
use tcpunch.Registry.InMemory.Invariant as InMemoryInvariant
use tcpunch.Registry.InMemory.Register as InMemoryRegister
use tcpunch.Registry.InMemory.Refines as InMemoryRefines
use tcpunch.Registry.Redis.{Site, token_key}
use tcpunch.Registry.Redis.Calls as Calls
use tcpunch.Registry.Redis.Invariant as RedisInvariant
use tcpunch.Registry.Redis.Register as RedisRegister
use tcpunch.Registry.Redis.Refines as RedisRefines
use tcpunch.Registry.Redis.View as View
use tcpunch.Registry.Redis.Branches.{all_up, IsTtl}

module _ (P : Platform PeerConnectionData) (R : RedisApi) (J : JsonApi P) where
  open P use {uuid.{Uuid, uuid_discrete}, oneshot.{channel}, DateTime}

  -- One call of `register`, and what it draws.
  pub record Registration : Type 0 where
    pub name : Name
    pub info : PeerConnectionData
    pub token : Option Uuid
    pub fresh : Uuid
    pub now : ℕ
    pub date : DateTime

  abbrev pub answer : Result (RegistrationResult P) RegistryError → Option (Told P)
  answer (ok x) = some (told P x)
  answer (err e) = none

  abbrev pub in_memory_call :
      InMemoryRegistry P
      → Registration
      → InMemoryRegistry P × Result (RegistrationResult P) RegistryError
  in_memory_call r c =
      InMemory.register P r c.name c.info c.token
        (record { token = c.fresh; now = c.now; date = c.date })

  abbrev pub redis_call :
      Site P R J → Registration → Site P R J × Result (RegistrationResult P) RegistryError
  redis_call s c = Calls.register P R J c.name c.info c.token (all_up P R J c.fresh c.date) s

  -- The answers to a sequence of calls.
  abbrev pub in_memory_answers : InMemoryRegistry P → List Registration → List (Option (Told P))
  in_memory_answers r [] = []
  in_memory_answers r (c ∷ cs) =
      answer (in_memory_call r c).1 ∷ in_memory_answers (in_memory_call r c).0 cs

  abbrev pub redis_answers : Site P R J → List Registration → List (Option (Told P))
  redis_answers s [] = []
  redis_answers s (c ∷ cs) = answer (redis_call s c).1 ∷ redis_answers (redis_call s c).0 cs

  -- Each fresh token is in use nowhere when it is drawn.
  abbrev pub AreFresh : InMemoryRegistry P → Site P R J → List Registration → Type 0
  AreFresh r s [] = Unit {0}
  AreFresh r s (c ∷ cs) =
      ((token_map P).get r.tokens c.fresh ≡ none)
      × (R.get s.store (token_key P R J c.fresh) ≡ none)
      × AreFresh (in_memory_call r c).0 (redis_call s c).0 cs

  -- The same clients wait in both, and both are well formed.
  pub record Agree (r : InMemoryRegistry P) (s : Site P R J) : Type 0 where
    pub in_memory : InMemoryInvariant.Inv P r
    pub redis : RedisInvariant.Inv P R J s
    pub ttl : IsTtl P R J s.registry.config
    pub same : seats P (InMemoryRefines.slots P r) ≡ seats P (View.slots P R J s)

  abbrev pub step : Seats P → Registration → Seats P × Told P
  step f c = meet_seats P f c.name c.info c.token c.fresh

  pub in_memory_step :
      (r : InMemoryRegistry P) (c : Registration)
      → InMemoryInvariant.Inv P r
      → (seats P (InMemoryRefines.slots P (in_memory_call r c).0)
          ≡ (step (seats P (InMemoryRefines.slots P r)) c).0)
        × (answer (in_memory_call r c).1 ≡ some (step (seats P (InMemoryRefines.slots P r)) c).1)
  in_memory_step r c v =
      let (e, e') =
        InMemoryRefines.register-refines-meet P r v c.name c.info c.token
          (record { token = c.fresh; now = c.now; date = c.date }) in
      let m =
        seats-meet P (InMemoryRefines.slots P r) c.name c.info c.token c.fresh
          (channel r.channels).2 in
      (
        ap (seats P) e ∙ ap (λ (x : Seats P × Told P). x.0) m,
        ap answer e' ∙ ap (λ (x : Seats P × Told P). some x.1) m,
      )

  pub redis_step :
      (s : Site P R J) (c : Registration)
      → RedisInvariant.Inv P R J s
      → IsTtl P R J s.registry.config
      → (seats P (View.slots P R J (redis_call s c).0) ≡ (step (seats P (View.slots P R J s)) c).0)
        × (answer (redis_call s c).1 ≡ some (step (seats P (View.slots P R J s)) c).1)
  redis_step s c v ttl =
      let (e, e') =
        RedisRefines.redis_register-refines-meet P R J s v ttl c.name c.info c.token c.fresh
          c.date in
      let m =
        seats-meet P (View.slots P R J s) c.name c.info c.token c.fresh
          (channel s.registry.channels).2 in
      (
        ap (seats P) e ∙ ap (λ (x : Seats P × Told P). x.0) m,
        ap answer e' ∙ ap (λ (x : Seats P × Told P). some x.1) m,
      )

  -- What a call keeps.
  pub in_memory_next :
      (r : InMemoryRegistry P) (c : Registration)
      → InMemoryInvariant.Inv P r
      → (token_map P).get r.tokens c.fresh ≡ none
      → InMemoryInvariant.Inv P (in_memory_call r c).0
  in_memory_next r c v unused =
      InMemoryRegister.register-Inv P r v c.name c.info c.token
        (record { token = c.fresh; now = c.now; date = c.date }) unused

  pub redis_next :
      (s : Site P R J) (c : Registration)
      → RedisInvariant.Inv P R J s
      → IsTtl P R J s.registry.config
      → R.get s.store (token_key P R J c.fresh) ≡ none
      → RedisInvariant.Inv P R J (redis_call s c).0 × IsTtl P R J (redis_call s c).0.registry.config
  redis_next s c v ttl unused = (
    RedisRegister.redis_register-Inv P R J s v c.name ttl c.info c.token c.fresh c.date unused,
    subst (IsTtl P R J)
        (sym (RedisRegister.register-config P R J s v c.name ttl c.info c.token c.fresh c.date))
        ttl,
  )

  -- The two registries answer alike: from states in which the same clients wait, the same sequence of
  -- calls of `register` gets the same answers from both (the receivers, which are the server's own,
  -- aside), where fresh tokens are unused, one server runs, its timeout is one that Redis takes, no
  -- entry expires and every command to the Redis server succeeds.
  pub backends_alike :
      (r : InMemoryRegistry P) (s : Site P R J) (calls : List Registration)
      → Agree r s
      → AreFresh r s calls
      → in_memory_answers r calls ≡ redis_answers s calls
  backends_alike r s [] a h = refl
  backends_alike r s (c ∷ cs) a (unused, unused', rest) =
      let (e, answered) = in_memory_step r c a.in_memory in
      let (e', answered') = redis_step s c a.redis a.ttl in
      let (v, ttl) = redis_next s c a.redis a.ttl unused' in
      let a' : Agree (in_memory_call r c).0 (redis_call s c).0 = record {
        in_memory = in_memory_next r c a.in_memory unused;
        redis = v;
        ttl = ttl;
        same = e ∙ ap (λ f. (step f c).0) a.same ∙ sym e';
      } in
      ap₂ ◌∷◌ (answered ∙ ap (λ f. some (step f c).1) a.same ∙ sym answered')
        (backends_alike (in_memory_call r c).0 (redis_call s c).0 cs a' rest)
