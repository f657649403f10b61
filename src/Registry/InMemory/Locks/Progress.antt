-- ===== src/Registry/InMemory/Locks/Progress.antt =====
-- When a client that comes back and the cleanup go on (server/rust/src/registry.rs).
use tcpunch.Base.{
  [], ◌∷◌, ℕ_discrete, ℕ, Name, Option, Option-cases, Bool-cases, none, some, inl, inr, ◌≡◌, ◌⊎◌,
  refl, name_discrete, ap,
}
use tcpunch.Platform.{Platform}
use tcpunch.Protocol.{PeerConnectionData}
use tcpunch.Registry.{RegistrationResult}
use tcpunch.Registry.InMemory.{InMemoryRegistry, pairing_map, token_map, reconnect, is_expired}
use tcpunch.Registry.InMemory.Branches.{guard_yes, guard_no}
use tcpunch.Registry.InMemory.Invariant.{token_of}
use tcpunch.Registry.InMemory.Locks.{
  Threads, Comeback, asks, knows, holds, leaves, Walker, comes, walks, passes, IsWalking, Turn,
  finds_name, finds_no_name, has_other_name, finds_entry, finds_no_entry, has_other_token,
  takes_over, enters, retains, sweeps, finishes, Turns, none_yet, then_one,
}
use tcpunch.Registry.InMemory.Locks.Deadlock.{IsDeadlocked}

module _ (P : Platform PeerConnectionData) where
  open P use {uuid.{Uuid, uuid_discrete}, oneshot.{channel}}
  open pairing_map P use {get as get_pairing}
  open token_map P use {get as get_token}

  module _ (shard : Name → ℕ) (token_shard : Uuid → ℕ) (name : Name) (info : PeerConnectionData)
      (token : Uuid) (now : ℕ) where
    -- The client at its end, with what the reconnection in one step has returned.
    abbrev pub settled :
        InMemoryRegistry P
        → Walker P
        → Option (InMemoryRegistry P × RegistrationResult P)
        → Threads P
    settled r w none = record { registry = r; comeback = leaves none; walker = w }
    settled r w (some (r', result)) = record {
      registry = r';
      comeback = leaves (some result);
      walker = w;
    }

    -- As long as the walk is not in the shard of the name, a client that comes back can take its turns to
    -- the end, and they change the registry and answer as the reconnection of `register` does in one step.
    pub comeback-reconnect :
        (r : InMemoryRegistry P) (w : Walker P)
        → ¬ IsWalking P w
        → Turns P shard token_shard name info token now
            (record { registry = r; comeback = asks; walker = w })
            (settled r w (reconnect P r name info token))
    unfolding reconnect
    comeback-reconnect r w free = elim (Option-cases (get_token r.tokens token)) [
      | inl q ↦ rw q (then_one none_yet (finds_no_name r w q))
      | inr (stored, q) ↦ elim (name_discrete stored name) [
        | no p ↦
            rw (q, guard_no P r (name_discrete stored name) p)
              (then_one (then_one none_yet (finds_name r w stored q)) (has_other_name r w stored p))
        | yes p ↦ elim (Option-cases (get_pairing r.pairings name)) [
          | inl absent ↦
              rw (q, guard_yes P r (name_discrete stored name) p, absent)
                (then_one (then_one none_yet (finds_name r w stored q))
                  (finds_no_entry r w stored p free absent))
          | inr (e, h) ↦
              let known =
                then_one (then_one none_yet (finds_name r w stored q))
                  (finds_entry r w stored e p free h) in
              elim (uuid_discrete (token_of P e) token) [
                | no d ↦
                    rw
                      (
                        q,
                        guard_yes P r (name_discrete stored name) p,
                        h,
                        guard_no P r (uuid_discrete (token_of P e) token) d,
                      )
                      (then_one known (has_other_token r w e d))
                | yes d ↦
                    rw
                      (
                        q,
                        guard_yes P r (name_discrete stored name) p,
                        h,
                        guard_yes P r (uuid_discrete (token_of P e) token) d,
                      )
                      (then_one known (takes_over r w e d))
              ]
        ]
      ]
    ]

    gets_entry :
        (r : InMemoryRegistry P) (w : Walker P) (stored : Name)
        → stored ≡ name
        → ¬ IsWalking P w
        → (t : Threads P) × Turn P shard token_shard name info token now
            (record { registry = r; comeback = knows stored; walker = w })
            t
    gets_entry r w stored p free = elim (Option-cases (get_pairing r.pairings name)) [
      | inl q ↦ (_, finds_no_entry r w stored p free q)
      | inr (e, q) ↦ (_, finds_entry r w stored e p free q)
    ]

    -- Every other state of the two has a turn, or is the end of both.
    goes_on :
        (r : InMemoryRegistry P) (c : Comeback P) (w : Walker P)
        → let s : Threads P = record { registry = r; comeback = c; walker = w } in
          ((t : Threads P) × Turn P shard token_shard name info token now s t)
          ⊎ IsDeadlocked P token_shard name token now s
          ⊎ ((result : Option (RegistrationResult P)) × (c ≡ leaves result) × (w ≡ passes))
    goes_on r asks w = elim (Option-cases (get_token r.tokens token)) [
      | inl q ↦ inl (_, finds_no_name r w q)
      | inr (stored, q) ↦ inl (_, finds_name r w stored q)
    ]
    goes_on r (holds e) w = elim (uuid_discrete (token_of P e) token) [
      | no d ↦ inl (_, has_other_token r w e d)
      | yes d ↦ inl (_, takes_over r w e d)
    ]
    goes_on r (leaves result) passes = inr (inr (result, refl, refl))
    goes_on r (leaves result) comes = inl (_, enters r (leaves result) (λ h. h))
    goes_on r (leaves result) (walks []) = inl (_, finishes r (leaves result))
    goes_on r (leaves result) (walks ((n, e) ∷ rest)) =
        elim (Bool-cases (is_expired P r.config.pairing_timeout now e)) [
          | inl old ↦ inl (_, sweeps r (leaves result) n e rest old (λ h. absurd h))
          | inr young ↦ inl (_, retains r (leaves result) n e rest young)
        ]
    goes_on r (knows stored) comes = inl (_, enters r (knows stored) (λ h. h))
    goes_on r (knows stored) (walks []) = inl (_, finishes r (knows stored))
    goes_on r (knows stored) passes = elim (name_discrete stored name) [
      | no p ↦ inl (_, has_other_name r passes stored p)
      | yes p ↦ inl (gets_entry r passes stored p (λ h. h))
    ]
    goes_on r (knows stored) (walks ((n, e) ∷ rest)) = elim (name_discrete stored name) [
      | no p ↦ inl (_, has_other_name r (walks ((n, e) ∷ rest)) stored p)
      | yes p ↦ elim (Bool-cases (is_expired P r.config.pairing_timeout now e)) [
        | inr young ↦ inl (_, retains r (knows stored) n e rest young)
        | inl old ↦ elim (ℕ_discrete (token_shard token) (token_shard (token_of P e))) [
          | no d ↦ inl (_, sweeps r (knows stored) n e rest old (λ h. d))
          | yes d ↦ inr (
              inl (record {
                other = n;
                entry = e;
                rest = rest;
                client_waits = ap knows p;
                walk_waits = refl;
                same_shard = d;
                expired = old;
              }))
        ]
      ]
    ]

    -- A client that comes back and the walk of the cleanup over the name's shard, wherever they stand and
    -- whichever keys share a shard: one of them has a turn, or both have come to their end, or they are
    -- in the deadlock, in which the client wants an entry of the shard that the walk holds, and the walk
    -- wants to remove a token of the shard of the client's for an expired entry.
    pub goes_on_unless-IsDeadlocked :
        (s : Threads P)
        → ((t : Threads P) × Turn P shard token_shard name info token now s t)
          ⊎ IsDeadlocked P token_shard name token now s
          ⊎ ((result : Option (RegistrationResult P)) × (s.comeback ≡ leaves result)
              × (s.walker ≡ passes))
    goes_on_unless-IsDeadlocked s = goes_on s.registry s.comeback s.walker
