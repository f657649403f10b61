-- ===== src/Registry/InMemory/Locks.antt =====
-- A client that comes back while the cleanup walks over its entry's shard (server/rust/src/registry.rs):
-- the calls of `register` and of `cleanup_expired` on the two maps, and the locks that they hold
-- meanwhile. A `DashMap` has a lock for each shard of its keys: a reference to an entry holds the lock of
-- the key's shard, `retain` holds the lock of a shard while it walks over it, and a call that changes a
-- key, or asks for a reference to change it, waits as long as another thread holds the key's shard.
-- Which keys share a shard is a parameter. The walk over the other shards of `pairings` is left out: it
-- holds no lock that the client asks for.
pub mod Deadlock
pub mod Progress
use tcpunch.Base.{
  List, [], ◌∷◌, ite, ℕ_discrete, Name, Bool, true, false, Option, none, some, ◌≡◌, ◌≢◌, refl, ℕ,
}
use tcpunch.Platform.{Platform}
use tcpunch.Protocol.{PeerConnectionData}
use tcpunch.Registry.{RegistrationResult, resumed}
use tcpunch.Registry.InMemory.{
  InMemoryRegistry, PairingEntry, pairing_map, token_map, is_expired, sweep_entry,
}
use tcpunch.Registry.InMemory.Branches.{resume}
use tcpunch.Registry.InMemory.Invariant.{token_of}

module _ (P : Platform PeerConnectionData) where
  open P use {uuid.{Uuid}, oneshot.{channel}}
  open pairing_map P use {get as get_pairing, remove as remove_pairing, entries}
  open token_map P use {get as get_token}

  -- Where the branch of `register` stands for a client that comes back: before its first call, with
  -- a reference to the name of its token, with one to the entry as well, or at its end, where `none`
  -- means that it falls through and both references are dropped.
  pub data Comeback : Type 0 where
    asks : Comeback
    knows : Name → Comeback
    holds : PairingEntry P → Comeback
    leaves : Option (RegistrationResult P) → Comeback

  -- Where the walk of `retain` stands: before the name's shard, in it with the entries that it has yet
  -- to look at, or past it.
  pub data Walker : Type 0 where
    comes : Walker
    walks : List (Name × PairingEntry P) → Walker
    passes : Walker

  pub record Threads : Type 0 where
    pub registry : InMemoryRegistry P
    pub comeback : Comeback
    pub walker : Walker

  -- The client has a reference to the name of the token.
  abbrev pub HoldsToken : Comeback → Type 0
  HoldsToken asks = ⊥
  HoldsToken (knows stored) = Unit {0}
  HoldsToken (holds e) = Unit {0}
  HoldsToken (leaves result) = ⊥

  abbrev pub HoldsEntry : Comeback → Type 0
  HoldsEntry (holds e) = Unit {0}
  HoldsEntry asks = ⊥
  HoldsEntry (knows stored) = ⊥
  HoldsEntry (leaves result) = ⊥

  -- The walk holds the lock of the name's shard.
  abbrev pub IsWalking : Walker → Type 0
  IsWalking (walks todo) = Unit {0}
  IsWalking comes = ⊥
  IsWalking passes = ⊥

  -- The registry once the walk has refused the entry.
  abbrev pub swept : InMemoryRegistry P → Name → PairingEntry P → ℕ → InMemoryRegistry P
  swept r name e now =
      let (s, _) =
        sweep_entry P r.config.pairing_timeout now
          (record { tokens = r.tokens; channels = r.channels; cleaned = 0 }) name e in
      record r {
        pairings = remove_pairing r.pairings name;
        tokens = s.tokens;
        channels = s.channels;
      }

  -- The entries in the shard of a name, in the order of the walk.
  unfoldable pub in_shard :
      (shard : Name → ℕ) (name : Name) → List (Name × PairingEntry P) → List (Name × PairingEntry P)
  in_shard shard name [] = []
  in_shard shard name ((n, e) ∷ es) =
      let rest = in_shard shard name es in
      ite (ℕ_discrete (shard n) (shard name)) ((n, e) ∷ rest) rest

  -- The shard of a name in `pairings`, and of a token in `tokens`.
  module _ (shard : Name → ℕ) (token_shard : Uuid → ℕ) (name : Name) (info : PeerConnectionData)
      (token : Uuid) (now : ℕ) where
    pub data Turn : Threads → Threads → Type 0 where
      -- `self.tokens.get(&token)`
      finds_name :
          (r : InMemoryRegistry P) (w : Walker) (stored : Name)
          → get_token r.tokens token ≡ some stored
          → Turn
              (record { registry = r; comeback = asks; walker = w })
              (record { registry = r; comeback = knows stored; walker = w })
      finds_no_name :
          (r : InMemoryRegistry P) (w : Walker)
          → get_token r.tokens token ≡ none
          → Turn
              (record { registry = r; comeback = asks; walker = w })
              (record { registry = r; comeback = leaves none; walker = w })
      has_other_name :
          (r : InMemoryRegistry P) (w : Walker) (stored : Name)
          → stored ≢ name
          → Turn
              (record { registry = r; comeback = knows stored; walker = w })
              (record { registry = r; comeback = leaves none; walker = w })
      -- `self.pairings.get_mut(pairing_name)`
      finds_entry :
          (r : InMemoryRegistry P) (w : Walker) (stored : Name) (e : PairingEntry P)
          → stored ≡ name
          → ¬ IsWalking w
          → get_pairing r.pairings name ≡ some e
          → Turn
              (record { registry = r; comeback = knows stored; walker = w })
              (record { registry = r; comeback = holds e; walker = w })
      finds_no_entry :
          (r : InMemoryRegistry P) (w : Walker) (stored : Name)
          → stored ≡ name
          → ¬ IsWalking w
          → get_pairing r.pairings name ≡ none
          → Turn
              (record { registry = r; comeback = knows stored; walker = w })
              (record { registry = r; comeback = leaves none; walker = w })
      has_other_token :
          (r : InMemoryRegistry P) (w : Walker) (e : PairingEntry P)
          → token_of P e ≢ token
          → Turn
              (record { registry = r; comeback = holds e; walker = w })
              (record { registry = r; comeback = leaves none; walker = w })
      takes_over :
          (r : InMemoryRegistry P) (w : Walker) (e : PairingEntry P)
          → token_of P e ≡ token
          → Turn
              (record { registry = r; comeback = holds e; walker = w })
              (record {
                registry = resume P r name e info;
                comeback = leaves (some (resumed token (channel r.channels).2));
                walker = w;
              })
      -- `self.pairings.retain` takes the lock of the shard.
      enters :
          (r : InMemoryRegistry P) (c : Comeback)
          → ¬ HoldsEntry c
          → Turn
              (record { registry = r; comeback = c; walker = comes })
              (record {
                registry = r;
                comeback = c;
                walker = walks (in_shard shard name (entries r.pairings));
              })
      retains :
          (r : InMemoryRegistry P) (c : Comeback) (n : Name) (e : PairingEntry P)
          (rest : List (Name × PairingEntry P))
          → is_expired P r.config.pairing_timeout now e ≡ false
          → Turn
              (record { registry = r; comeback = c; walker = walks ((n, e) ∷ rest) })
              (record { registry = r; comeback = c; walker = walks rest })
      -- `self.tokens.remove(&entry.waiting_client.reconnect_token)`, and the entry goes.
      sweeps :
          (r : InMemoryRegistry P) (c : Comeback) (n : Name) (e : PairingEntry P)
          (rest : List (Name × PairingEntry P))
          → is_expired P r.config.pairing_timeout now e ≡ true
          → (HoldsToken c → token_shard token ≢ token_shard (token_of P e))
          → Turn
              (record { registry = r; comeback = c; walker = walks ((n, e) ∷ rest) })
              (record { registry = swept r n e now; comeback = c; walker = walks rest })
      finishes :
          (r : InMemoryRegistry P) (c : Comeback)
          → Turn
              (record { registry = r; comeback = c; walker = walks [] })
              (record { registry = r; comeback = c; walker = passes })

    pub data Turns (s : Threads) : Threads → Type 0 where
      none_yet : Turns s s
      then_one : {t u : Threads} → Turns s t → Turn t u → Turns s u
