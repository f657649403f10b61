-- ===== src/Registry/Redis/Others.antt =====
-- `unregister` and `active_count` of `RedisRegistry` (server/rust/src/registry.rs).
use tcpunch.Base.{
  Name, none, some, ok, ℕ, List, [], ◌∷◌, length, get_elem?, ◌≡◌, ◌≢◌, ◌∙◌, sym, ap, refl,
  ne-of-some, none-ne-some, arith, Option-cases, inl, inr,
}
use tcpunch.Platform.{Platform, after_drop_sender}
use tcpunch.Platform.Channels.{state-drop_sender_self}
use tcpunch.Platform.Maps.{get-remove_self}
use tcpunch.Platform.Redis.{RedisApi}
use tcpunch.Protocol.{PeerConnectionData}
use tcpunch.Registry.Json.{JsonApi}
use tcpunch.Registry.Redis.{
  Site, Link, up, lost, reply_lost, pairing_key, token_key, pairing_prefix, waiter_map, drop_waiter,
}
use tcpunch.Registry.Redis.Calls.{unregister, active_count}
use tcpunch.Registry.Redis.Deleted.{entry_gone, entry_left, token_gone, token_left}

module _ (P : Platform PeerConnectionData) (R : RedisApi) (J : JsonApi P) (s : Site P R J) where
  open P use {uuid.{Uuid}, oneshot.{Sender, receiver, state}}
  open waiter_map P R J use {get as get_waiter}

  -- `unregister` takes the entry of the name away whoever's it is, with the waiter that this server has
  -- under the name, whose channel it closes, and the token that it is given; it leaves the other
  -- names' entries and the other tokens alone, the entry's own included, if that is another.
  pub redis_unregister_lem :
      (name : Name) (token : Uuid) (tx : Sender)
      → get_waiter s.registry.local_waiters name ≡ some tx
      → let x = unregister P R J name token up s in
        (x.1 ≡ ok tt)
        × (R.get x.0.store (pairing_key name) ≡ none)
        × (R.get x.0.store (token_key P R J token) ≡ none)
        × (get_waiter x.0.registry.local_waiters name ≡ none)
        × (state x.0.registry.channels (receiver tx)
            ≡ after_drop_sender (state s.registry.channels (receiver tx)))
        × ((m : Name) → name ≢ m → R.get x.0.store (pairing_key m) ≡ R.get s.store (pairing_key m))
        × ((t : Uuid)
            → token ≢ t
            → R.get x.0.store (token_key P R J t) ≡ R.get s.store (token_key P R J t))
  unfolding unregister drop_waiter
  redis_unregister_lem name token tx held = (
    refl,
    entry_gone P R J s.store name token,
    token_gone P R J s.store name token,
    get-remove_self (waiter_map P R J) s.registry.local_waiters name,
    rw held (state-drop_sender_self P.oneshot s.registry.channels tx),
    entry_left P R J s.store name token,
    token_left P R J s.store name token,
  )

  first_elem : (xs : List Name) → xs ≢ [] → (k : Name) × (get_elem? xs 0 ≡ some k)
  first_elem [] h = absurd (h refl)
  first_elem (x ∷ xs) h = (x, refl)

  no_elem : (xs : List Name) (i : ℕ) {k : Name} → length xs ≡ 0 → get_elem? xs i ≡ some k → ⊥
  no_elem [] i h e = none-ne-some e
  no_elem (x ∷ xs) i h e = omega (arith, h)

  empty_of_none :
      (xs : List Name) → ((i : ℕ) (k : Name) → get_elem? xs i ≡ some k → ⊥) → length xs ≡ 0
  empty_of_none [] h = refl
  empty_of_none (x ∷ xs) h = absurd (h 0 x refl)

  -- `active_count` is 0 exactly if nobody waits under any name; and it is 0 whenever the Redis server
  -- does not answer.
  pub active_count_lem :
      (active_count P R J up s ≡ 0 → (n : Name) → R.get s.store (pairing_key n) ≡ none)
      × (((n : Name) → R.get s.store (pairing_key n) ≡ none) → active_count P R J up s ≡ 0)
      × ((link : Link) → link ≢ up → active_count P R J link s ≡ 0)
  unfolding active_count pairing_key
  active_count_lem = (
    λ zero n. elim (Option-cases (R.get s.store (pairing_key n))) [
      | inl absent ↦ absent
      | inr (v, at) ↦
          let (i, e) = R.keys_complete s.store pairing_prefix n v at in
          absurd (no_elem (R.keys s.store pairing_prefix) i zero e)
    ],
    λ nobody. empty_of_none (R.keys s.store pairing_prefix) (λ i k e.
        let (n, v, same, at) = R.keys_sound s.store pairing_prefix i k e in
        ne-of-some (nobody n) (ap (R.get s.store) (sym same) ∙ at)),
    silent,
  )
    where
      silent : (link : Link) → link ≢ up → active_count P R J link s ≡ 0
      silent up down = absurd (down refl)
      silent lost down = refl
      silent reply_lost down = refl
