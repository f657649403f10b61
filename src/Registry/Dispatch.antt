-- ===== src/Registry/Dispatch.antt =====
-- server/rust/src/registry.rs: the enum `Registry`, which is one of the two registries. The Redis
-- server that a registry stands on is part of its state here.
pub mod Either
pub mod Operations
use mathlib.Core.Path.{ap₂}
use tcpunch.Base.{ℕ, List, [], ◌∷◌, Name, Option, none, some, Result, ◌≡◌, ◌∙◌, ap, refl}
use tcpunch.Platform.{Platform}
use tcpunch.Platform.Redis.{RedisApi}
use tcpunch.Protocol.{PeerConnectionData}
use tcpunch.Registry.{RegistrationResult, RegistryError}
use tcpunch.Registry.Json.{JsonApi}
use tcpunch.Registry.Spec.{Slots}
use tcpunch.Registry.InMemory as InMemory
use tcpunch.Registry.InMemory.{InMemoryRegistry, token_map}
use tcpunch.Registry.Redis.{Site, Link, up, Draw, token_key}
use tcpunch.Registry.Redis.Calls as Calls

module _ (P : Platform PeerConnectionData) (R : RedisApi) (J : JsonApi P) where
  open P use {uuid.{Uuid}}

  pub data Registry : Type 0 where
    in_memory : InMemoryRegistry P → Registry
    redis : Site P R J → Registry

  -- What a registration draws from outside, whichever registry it is.
  pub record Draws : Type 0 where
    pub for_memory : InMemory.Draw P
    pub for_redis : Draw P R J

  unfoldable pub register :
      Registry
      → Name
      → PeerConnectionData
      → Option Uuid
      → Draws
      → Registry × Result (RegistrationResult P) RegistryError
  register (in_memory r) name info token draws =
      let (r', result) = InMemory.register P r name info token draws.for_memory in
      (in_memory r', result)
  register (redis s) name info token draws =
      let (s', result) = Calls.register P R J name info token draws.for_redis s in
      (redis s', result)

  unfoldable pub unregister :
      Registry → Name → Uuid → Link → Registry × Result (Unit {0}) RegistryError
  unregister (in_memory r) name token on_del =
      let (r', result) = InMemory.unregister P r name token in (in_memory r', result)
  unregister (redis s) name token on_del =
      let (s', result) = Calls.unregister P R J name token on_del s in (redis s', result)

  unfoldable pub active_count : Registry → Link → ℕ
  active_count (in_memory r) on_keys = InMemory.active_count P r
  active_count (redis s) on_keys = Calls.active_count P R J on_keys s
