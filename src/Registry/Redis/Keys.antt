-- ===== src/Registry/Redis/Keys.antt =====
-- The keys of `RedisRegistry` do not clash (server/rust/src/registry.rs).
use tcpunch.Base.{Name, ◌≡◌, ◌≢◌, ap, some-injective, sym, ◌∙◌, drop, arith}
use tcpunch.Platform.{Platform}
use tcpunch.Platform.Redis.{RedisApi}
use tcpunch.Protocol.{PeerConnectionData}
use tcpunch.Registry.Json.{JsonApi}
use tcpunch.Registry.Redis.{pairing_key, token_key, pairing_prefix, token_prefix}

pub pairing_key-injective : (n m : Name) → pairing_key n ≡ pairing_key m → n ≡ m
unfolding pairing_key pairing_prefix
pairing_key-injective n m e = ap (drop 16) e

module _ (P : Platform PeerConnectionData) (R : RedisApi) (J : JsonApi P) where
  open P use {uuid.{Uuid, to_string, parse_str}}

  pub token_key-injective : (t u : Uuid) → token_key P R J t ≡ token_key P R J u → t ≡ u
  unfolding token_key token_prefix
  token_key-injective t u e = some-injective t u (
      sym (P.uuid.parse_str-to_string t)
      ∙ ap (λ k. parse_str (drop 14 k)) e
      ∙ P.uuid.parse_str-to_string u)

  pub pairing_key-ne-token_key : (n : Name) (t : Uuid) → pairing_key n ≢ token_key P R J t
  unfolding pairing_key pairing_prefix token_key token_prefix
  pairing_key-ne-token_key n t e = let e' = ap (drop 8) e in ground arith
