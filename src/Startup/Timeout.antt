-- ===== src/Startup/Timeout.antt =====
-- A peer timeout that Redis does not take (server/rust/src/main.rs and registry.rs).
use tcpunch.Base.Exec.{pure, bind_err}
use tcpunch.Base.{
  Name, Option, none, some, ok, err, ◌≡◌, ◌∙◌, ◌<◌, ◌⊎◌, inl, inr, refl, arith, sym, ap,
  name_discrete, if_pos, if_neg, Result, subst,
}
use tcpunch.Platform.{Platform}
use tcpunch.Platform.Redis.{RedisApi}
use tcpunch.Platform.Redis.Laws.{get-del_self, get-del_ne}
use tcpunch.Protocol.{PeerConnectionData}
use tcpunch.Registry.{RegistryConfig, RegistryError, RegistrationResult, redis}
use tcpunch.Registry.Json.{JsonApi}
use tcpunch.Registry.Spec.{some_decide}
use tcpunch.Registry.Redis.{
  Site, Draw, Link, up, lost, reply_lost, query, setex_command, pairing_key, token_key, ttl_secs,
  new_waiting,
}
use tcpunch.Registry.Redis.Calls.{
  register, register_fresh, register_first, reconnect, resume, resume_some,
}
use tcpunch.Registry.Redis.Refines.{pairing_key-ne}
use tcpunch.Registry.Redis.Joining.{taken, register_missed, register_failed}
use tcpunch.Startup.{Args, registry_config}

module _ (P : Platform PeerConnectionData) (R : RedisApi) (J : JsonApi P) where
  open P use {uuid.{Uuid}}

  abbrev pub IsRefused : RegistryConfig → Type 0
  IsRefused config = (st : R.Store) (k v : Name) → R.setex st k (ttl_secs P R J config) v ≡ none

  abbrev pub IsDeserted : R.Store → Type 0
  IsDeserted st = (n : Name) → R.get st (pairing_key n) ≡ none

  refused :
      (args : Args) (server_id : Name)
      → (args.peer_timeout ≡ 0) ⊎ (R.max_seconds < args.peer_timeout)
      → IsRefused (registry_config args server_id)
  unfolding registry_config
  refused args server_id (inl h) st k v =
      let e : ttl_secs P R J (registry_config args server_id) ≡ 0 = omega (arith, h) in
      rw e (R.setex_zero st k v)
  refused args server_id (inr h) st k v = R.setex_large st k _ v (omega (arith, h))

  module _ (name : Name) (info : PeerConnectionData) (draw : Draw P R J) (s : Site P R J)
      (no_ttl : IsRefused s.registry.config) where
    setex_refused :
        (link : Link) (k v : Name)
        → query P R J link (setex_command P R J k (ttl_secs P R J s.registry.config) v) s
          ≡ (s, err redis)
    unfolding query
    setex_refused up k v = rw (no_ttl s.store k v) refl
    setex_refused lost k v = refl
    setex_refused reply_lost k v = rw (no_ttl s.store k v) refl

    resume_refused : (token : Uuid) → resume P R J name info token draw s ≡ (s, err redis)
    unfolding resume
    resume_refused token =
        let (text, written) =
          J.waiting_written (new_waiting P R J s.registry.config info token draw.date) in
        rw (written, setex_refused draw.on_setex (pairing_key name) text) refl

    first_refused : register_first P R J name info draw s ≡ (s, err redis)
    unfolding register_first
    first_refused =
        let (text, written) =
          J.waiting_written (new_waiting P R J s.registry.config info draw.token draw.date) in
        rw (written, setex_refused draw.on_setex (pairing_key name) text) refl

    reconnect_refused :
        (token : Option Uuid)
        → (reconnect P R J name info token draw s ≡ (s, ok none))
          ⊎ (reconnect P R J name info token draw s ≡ (s, err redis))
    unfolding reconnect some_decide token_key resume
    reconnect_refused none = inl refl
    reconnect_refused (some token) = asked draw.on_get
      where
        asked :
            (link : Link)
            → let x = reconnect P R J name info (some token) (record draw { on_get = link }) s in
              (x ≡ (s, ok none)) ⊎ (x ≡ (s, err redis))
        asked up = elim (some_decide name_discrete (R.get s.store (token_key P R J token)) name) [
          | yes same ↦ inr (
              rw
                (if_pos (some_decide name_discrete (R.get s.store (token_key P R J token)) name)
                  same (resume_some P R J name info token draw) (pure none))
                (bind_err (resume P R J name info token draw) (λ x. pure (some x))
                  (resume_refused token)))
          | no other ↦ inl (
              rw
                (if_neg (some_decide name_discrete (R.get s.store (token_key P R J token)) name)
                  other (resume_some P R J name info token draw) (pure none))
                refl)
        ]
        asked lost = inr refl
        asked reply_lost = inr refl

  module _ (name : Name) (info : PeerConnectionData) (draw : Draw P R J) (s : Site P R J)
      (no_ttl : IsRefused s.registry.config) (nobody : IsDeserted s.store) where
    -- An error, with the registry as it was and nobody waiting.
    abbrev pub IsTurnedAway : Site P R J × Result (RegistrationResult P) RegistryError → Type 0
    IsTurnedAway x = (x.1 ≡ err redis) × (x.0.registry ≡ s.registry) × IsDeserted x.0.store

    still_nobody : IsDeserted (R.del s.store (pairing_key name))
    still_nobody n = elim (name_discrete name n) [
      | yes same ↦
          ap (λ m. R.get (R.del s.store (pairing_key name)) (pairing_key m)) (sym same)
          ∙ get-del_self R s.store (pairing_key name)
      | no other ↦
          get-del_ne R s.store (pairing_key name) (pairing_key n)
            (pairing_key-ne P R J name n other)
          ∙ nobody n
    ]

    fresh-IsTurnedAway :
        (link : Link)
        → IsTurnedAway (register_fresh P R J name info (record draw { on_getdel = link }) s)
    unfolding register_fresh
    fresh-IsTurnedAway up =
        rw
          (
            R.getdel-eq s.store (pairing_key name),
            nobody name,
            first_refused name info (record draw { on_getdel = up })
                (taken P R J s name info draw.token draw.date) no_ttl,
          )
          (refl, refl, still_nobody)
    fresh-IsTurnedAway lost = (refl, refl, nobody)
    fresh-IsTurnedAway reply_lost =
        rw (R.getdel-eq s.store (pairing_key name)) (refl, refl, still_nobody)

    register-IsTurnedAway :
        (token : Option Uuid) → IsTurnedAway (register P R J name info token draw s)
    register-IsTurnedAway token = elim (reconnect_refused name info draw s no_ttl token) [
      | inl missed ↦
          rw (register_missed P R J s name info token draw missed)
            (fresh-IsTurnedAway draw.on_getdel)
      | inr failed ↦ rw (register_failed P R J s name info token draw failed) (refl, refl, nobody)
    ]

  -- A program that is started with a peer timeout of 0 seconds, or of more than the Redis server
  -- takes, serves nobody: where nobody waits, every call of `register`, whatever its name and token and
  -- however its commands fare, returns a Redis error, leaves the registry as it was, and again nobody
  -- waits.
  pub nobody_served :
      (args : Args) (server_id : Name) (s : Site P R J)
      → (args.peer_timeout ≡ 0) ⊎ (R.max_seconds < args.peer_timeout)
      → s.registry.config ≡ registry_config args server_id
      → IsDeserted s.store
      → (name : Name) (info : PeerConnectionData) (token : Option Uuid) (draw : Draw P R J)
      → let x = register P R J name info token draw s in
        (x.1 ≡ err redis) × (x.0.registry ≡ s.registry) × IsDeserted x.0.store
  nobody_served args server_id s h same nobody name info token draw =
      register-IsTurnedAway name info draw s (subst IsRefused (sym same) (refused args server_id h))
        nobody token
