-- ===== src/Platform/Redis.antt =====
-- The Redis server as server/rust/src/registry.rs uses it through the crate `redis`. Neither is part
-- of the repository: the commands are the fields, with their documented effect on the keys. A key
-- expires between two calls of the registry.
pub mod Laws
use tcpunch.Base.{
  ℕ, List, Option, none, some, Name, name_discrete, ◌≡◌, ◌<◌, ◌≤◌, ite, Bool, true, false, ◌++◌,
  get_elem?, ◌^◌,
}

pub record RedisApi : Type 1 where
  pub Store : Type 0
  pub get : Store → Name → Option Name
  -- `SETEX key seconds value`; `none` is the error reply to an expire time that is out of range.
  pub setex : Store → Name → (seconds : ℕ) → Name → Option Store
  pub del : Store → Name → Store
  pub getdel : Store → Name → Store × Option Name
  pub exists : Store → Name → Bool
  -- `KEYS prefix*`
  pub keys : Store → (prefix : Name) → List Name
  pub publish : Store → (channel message : Name) → Store
  -- The largest expire time; a larger one, or one that is negative as an `i64`, is refused, as is 0.
  pub max_seconds : ℕ
  pub max_seconds-lt : max_seconds < 2 ^ 63
  pub setex_in_range :
      (s : Store) (k : Name) (seconds : ℕ) (v : Name)
      → 0 < seconds
      → seconds ≤ max_seconds
      → (s' : Store) × (setex s k seconds v ≡ some s')
  pub setex_zero : (s : Store) (k v : Name) → setex s k 0 v ≡ none
  pub setex_large :
      (s : Store) (k : Name) (seconds : ℕ) (v : Name)
      → max_seconds < seconds
      → setex s k seconds v ≡ none
  pub get-setex :
      (s s' : Store) (k j : Name) (seconds : ℕ) (v : Name)
      → setex s k seconds v ≡ some s'
      → get s' j ≡ ite (name_discrete k j) (some v) (get s j)
  pub get-del : (s : Store) (k j : Name) → get (del s k) j ≡ ite (name_discrete k j) none (get s j)
  pub getdel-eq : (s : Store) (k : Name) → getdel s k ≡ (del s k, get s k)
  pub exists-none : (s : Store) (k : Name) → get s k ≡ none → exists s k ≡ false
  pub exists-some : (s : Store) (k v : Name) → get s k ≡ some v → exists s k ≡ true
  pub get-publish : (s : Store) (c m k : Name) → get (publish s c m) k ≡ get s k
  -- `KEYS` lists the keys that it matches.
  pub keys_complete :
      (s : Store) (p n v : Name)
      → get s (p ++ n) ≡ some v
      → (i : ℕ) × (get_elem? (keys s p) i ≡ some (p ++ n))
  pub keys_sound :
      (s : Store) (p : Name) (i : ℕ) (k : Name)
      → get_elem? (keys s p) i ≡ some k
      → (n : Name) × (v : Name) × (k ≡ p ++ n) × (get s k ≡ some v)
