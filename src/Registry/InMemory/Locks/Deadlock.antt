-- ===== src/Registry/InMemory/Locks/Deadlock.antt =====
-- When a client that comes back and the cleanup wait for one another (server/rust/src/registry.rs).
use tcpunch.Base.{
  List, [], ◌∷◌, ite, ℕ_discrete, Occurs, none-ne-some, true-ne-false, ◌∙◌, ℕ, Name, true,
  Bool-cases, some, inl, inr, ◌≡◌, ◌<◌, ◌-◌, refl, sym, subst, name_discrete, lt→ltb, ap,
}
use tcpunch.Platform.{Platform}
use tcpunch.Protocol.{PeerConnectionData}
use tcpunch.Registry.InMemory.{InMemoryRegistry, PairingEntry, pairing_map, token_map, is_expired}
use tcpunch.Registry.InMemory.Invariant.{Inv, token_of}
use tcpunch.Registry.InMemory.Locks.{
  Threads, HoldsToken, asks, knows, comes, walks, IsWalking, Turn, finds_name, finds_no_name,
  has_other_name, finds_entry, finds_no_entry, has_other_token, takes_over, enters, retains, sweeps,
  finishes, Turns, none_yet, then_one, in_shard, swept,
}
use mathlib.Core.List.{lookup}

module _ (P : Platform PeerConnectionData) where
  open P use {uuid.{Uuid, uuid_discrete}, oneshot.{channel}}
  open pairing_map P use {get as get_pairing, entries}
  open token_map P use {get as get_token}

  -- The client, with a reference to its token, wants the entry of the name, whose shard the walk holds;
  -- and the walk is to remove a token of the shard of the client's, for an expired entry.
  pub record IsDeadlocked (token_shard : Uuid → ℕ) (name : Name) (token : Uuid) (now : ℕ)
      (s : Threads P) : Type 0 where
    pub other : Name
    pub entry : PairingEntry P
    pub rest : List (Name × PairingEntry P)
    pub client_waits : s.comeback ≡ knows name
    pub walk_waits : s.walker ≡ walks ((other, entry) ∷ rest)
    pub same_shard : token_shard token ≡ token_shard (token_of P entry)
    pub expired : is_expired P s.registry.config.pairing_timeout now entry ≡ true

  -- The name's entry is among those of its shard.
  in_shard-Occurs :
      (shard : Name → ℕ) (name : Name) (e : PairingEntry P) (es : List (Name × PairingEntry P))
      → lookup name_discrete name es ≡ some e
      → Occurs (name, e) (in_shard P shard name es)
  unfolding lookup in_shard
  in_shard-Occurs shard name e [] h = absurd (none-ne-some h)
  in_shard-Occurs shard name e ((n, d) ∷ es) h =
      go (name_discrete name n) (ℕ_discrete (shard n) (shard name)) h
        (in_shard-Occurs shard name e es)
    where
      go :
          (q : Dec (name ≡ n)) (p : Dec (shard n ≡ shard name))
          → ite q (some d) (lookup name_discrete name es) ≡ some e
          → (lookup name_discrete name es ≡ some e → Occurs (name, e) (in_shard P shard name es))
          → Occurs (name, e) (ite p ((n, d) ∷ in_shard P shard name es) (in_shard P shard name es))
      go (yes q) (yes p) k later = inl cc
      go (yes q) (no p) k later = absurd (p (ap shard (sym q)))
      go (no q) (yes p) k later = inr (later k)
      go (no q) (no p) k later = later k

  module _ (shard : Name → ℕ) (token_shard : Uuid → ℕ) (name : Name) (info : PeerConnectionData)
      (token : Uuid) (now : ℕ) where
    -- Neither goes on.
    IsDeadlocked-stuck :
        (s t : Threads P)
        → IsDeadlocked token_shard name token now s
        → ¬ Turn P shard token_shard name info token now s t
    IsDeadlocked-stuck s t d (finds_name r w stored h) = let q = d.client_waits in cc
    IsDeadlocked-stuck s t d (finds_no_name r w h) = let q = d.client_waits in cc
    IsDeadlocked-stuck s t d (has_other_name r w stored h) = let q = d.client_waits in h cc
    IsDeadlocked-stuck s t d (finds_entry r w stored e h free k) =
        free (subst (IsWalking P) (sym d.walk_waits) tt)
    IsDeadlocked-stuck s t d (finds_no_entry r w stored h free k) =
        free (subst (IsWalking P) (sym d.walk_waits) tt)
    IsDeadlocked-stuck s t d (has_other_token r w e h) = let q = d.client_waits in cc
    IsDeadlocked-stuck s t d (takes_over r w e h) = let q = d.client_waits in cc
    IsDeadlocked-stuck s t d (enters r c free) = let q = d.walk_waits in cc
    IsDeadlocked-stuck s t d (retains r c n e rest h) =
        let q = d.walk_waits in let x = d.expired in cc
    IsDeadlocked-stuck s t d (sweeps r c n e rest h free) =
        let q = d.walk_waits in
        let x = d.same_shard in free (subst (HoldsToken P) (sym d.client_waits) tt) cc
    IsDeadlocked-stuck s t d (finishes r c) = let q = d.walk_waits in cc

    -- The walk over a list with an expired entry whose token is in the client's shard comes no further
    -- than that entry.
    walks_into :
        (start : Threads P) (e : PairingEntry P) (es : List (Name × PairingEntry P))
        (r : InMemoryRegistry P)
        → Occurs (name, e) es
        → token_shard token ≡ token_shard (token_of P e)
        → is_expired P r.config.pairing_timeout now e ≡ true
        → Turns P shard token_shard name info token now start
            (record { registry = r; comeback = knows name; walker = walks es })
        → (t : Threads P) × Turns P shard token_shard name info token now start t
          × IsDeadlocked token_shard name token now t
    walks_into start e [] r h same old turns = absurd h
    walks_into start e ((n, d) ∷ es) r h same old turns =
        elim (Bool-cases (is_expired P r.config.pairing_timeout now d)) [
          | inr young ↦ elim h [
            | inl q ↦ absurd (
                true-ne-false (
                  sym old
                  ∙ ap
                      (λ (x : Name × PairingEntry P). is_expired P r.config.pairing_timeout now x.1)
                      (sym q)
                  ∙ young))
            | inr later ↦
                walks_into start e es r later same old
                  (then_one turns (retains r (knows name) n d es young))
          ]
          | inl expired ↦ elim (ℕ_discrete (token_shard token) (token_shard (token_of P d))) [
            | yes shared ↦ (
              _,
              turns,
              record {
                other = n;
                entry = d;
                rest = es;
                client_waits = refl;
                walk_waits = refl;
                same_shard = shared;
                expired = expired;
              },
            )
            | no apart ↦ elim h [
              | inl q ↦ absurd (
                  apart (
                    same
                    ∙ ap (λ (x : Name × PairingEntry P). token_shard (token_of P x.1)) (sym q)))
              | inr later ↦
                  walks_into start e es (swept P r n d now) later same old
                    (then_one turns (sweeps r (knows name) n d es expired (λ k. apart)))
            ]
          ]
        ]

  -- A client that comes back with the token of its entry, while the cleanup walks over the entry's
  -- shard, and the entry has expired: whichever keys share a shard, there is an order of their calls
  -- after which the client waits for the entry, whose shard the walk holds, and the walk waits to remove
  -- a token, whose shard the client holds, so that neither has a turn. The registry is well formed.
  pub deadlocks :
      (r : InMemoryRegistry P) (v : Inv P r) (shard : Name → ℕ) (token_shard : Uuid → ℕ)
      (name : Name) (info : PeerConnectionData) (now : ℕ) (e : PairingEntry P)
      → get_pairing r.pairings name ≡ some e
      → r.config.pairing_timeout < now - e.created_at
      → let token = token_of P e in
        (s : Threads P) × Turns P shard token_shard name info token now
          (record { registry = r; comeback = asks; walker = comes })
          s
        × IsDeadlocked token_shard name token now s
        × ((t : Threads P) → ¬ Turn P shard token_shard name info token now s t)
  unfolding is_expired
  deadlocks r v shard token_shard name info now e stored old =
      let token = token_of P e in
      let (s, turns, stuck) =
        walks_into shard token_shard name info token now _ e _ r
          (in_shard-Occurs shard name e (entries r.pairings)
            ((pairing_map P).lookup-entries r.pairings name ∙ stored))
          refl (lt→ltb _ _ old)
          (then_one (then_one none_yet (finds_name r comes name (v.indexed name e stored)))
            (enters r (knows name) (λ h. h))) in
      (s, turns, stuck, λ t. IsDeadlocked-stuck shard token_shard name info token now s t stuck)
