-- ===== src/Registry/Redis/Deleted.antt =====
-- What is left of the keys of `RedisRegistry` once an entry and a token have been deleted
-- (server/rust/src/registry.rs).
use tcpunch.Base.{Name, none, ◌≡◌, ◌≢◌, ◌∙◌}
use tcpunch.Platform.{Platform}
use tcpunch.Platform.Redis.{RedisApi}
use tcpunch.Platform.Redis.Laws.{get-del_self, get-del_ne}
use tcpunch.Protocol.{PeerConnectionData}
use tcpunch.Registry.Json.{JsonApi}
use tcpunch.Registry.Redis.{pairing_key, token_key}
use tcpunch.Registry.Redis.Keys.{token_key-injective, pairing_key-ne-token_key}
use tcpunch.Registry.Redis.Refines.{pairing_key-ne, token_key-ne-pairing_key}

module _ (P : Platform PeerConnectionData) (R : RedisApi) (J : JsonApi P) (st : R.Store)
    (name : Name) (token : P.uuid.Uuid) where
  abbrev pub without_entry : R.Store
  without_entry = R.del st (pairing_key name)

  abbrev pub deleted : R.Store
  deleted = R.del without_entry (token_key P R J token)

  pub entry_gone : R.get deleted (pairing_key name) ≡ none
  entry_gone =
      get-del_ne R without_entry (token_key P R J token) (pairing_key name)
        (token_key-ne-pairing_key P R J token name)
      ∙ get-del_self R st (pairing_key name)

  pub entry_left : (n : Name) → name ≢ n → R.get deleted (pairing_key n) ≡ R.get st (pairing_key n)
  entry_left n h =
      get-del_ne R without_entry (token_key P R J token) (pairing_key n)
        (token_key-ne-pairing_key P R J token n)
      ∙ get-del_ne R st (pairing_key name) (pairing_key n) (pairing_key-ne P R J name n h)

  pub token_gone : R.get deleted (token_key P R J token) ≡ none
  token_gone = get-del_self R without_entry (token_key P R J token)

  pub token_left :
      (t : P.uuid.Uuid)
      → token ≢ t
      → R.get deleted (token_key P R J t) ≡ R.get st (token_key P R J t)
  token_left t h =
      get-del_ne R without_entry (token_key P R J token) (token_key P R J t)
        (λ e. h (token_key-injective P R J token t e))
      ∙ get-del_ne R st (pairing_key name) (token_key P R J t)
          (pairing_key-ne-token_key P R J name t)
