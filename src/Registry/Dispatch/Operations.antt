-- ===== src/Registry/Dispatch/Operations.antt =====
-- The enum `Registry` as what the connections of a server call (server/rust/src/registry.rs). Its
-- `unregister` reaches the Redis server; a call that does not is one after which the registry is
-- changed back, which the steps of a server allow.
use tcpunch.Platform.{Platform}
use tcpunch.Platform.Redis.{RedisApi}
use tcpunch.Protocol.{PeerConnectionData}
use tcpunch.Registry.Json.{JsonApi}
use tcpunch.Registry.Redis.{up}
use tcpunch.Registry.Dispatch.{Registry, Draws, in_memory, redis, register, unregister}
use tcpunch.Server.Connection.{RegistryOps}

module _ (P : Platform PeerConnectionData) (R : RedisApi) (J : JsonApi P) where
  open P use {oneshot.{Receiver, drop_receiver}}

  -- A receiver that is dropped closes its end of the channel.
  abbrev pub drop_peer_notify : Registry P R J → Receiver → Registry P R J
  drop_peer_notify (in_memory r) rx =
      in_memory (record r { channels = drop_receiver r.channels rx })
  drop_peer_notify (redis s) rx = redis (record s {
    registry = record s.registry { channels = drop_receiver s.registry.channels rx };
  })

  abbrev pub registry_ops : RegistryOps P
  registry_ops = record {
    State = Registry P R J;
    Draw = Draws P R J;
    register = register P R J;
    unregister = λ g name token. unregister P R J g name token up;
    hang_up = drop_peer_notify;
  }
