-- ===== src/Registry/InMemory/Branches.antt =====
-- The branches of `register` and `unregister` (server/rust/src/registry.rs), each under the
-- condition on the maps that selects it.
use tcpunch.Base.{
  refl, some, none, inl, inr, ok, ◌≡◌, Name, Option, ite, ◌≢◌, name_discrete, Option-cases, ap, sym,
}
use tcpunch.Platform.{Platform}
use tcpunch.Protocol.{PeerConnectionData}
use tcpunch.Registry.{resumed}
use tcpunch.Registry.InMemory.{
  InMemoryRegistry, PairingEntry, Draw, pairing_map, token_map, register, unregister, reconnect,
  complete_pairing, register_first, register_fresh, drop_notify, refresh, guard,
}

module _ (P : Platform PeerConnectionData) (r : InMemoryRegistry P) where
  open P use {uuid.{Uuid, uuid_discrete}, oneshot.{channel}}
  open pairing_map P use {get as get_pairing, insert as insert_pairing, remove as remove_pairing}
  open token_map P use {get as get_token, remove as remove_token}

  -- The registry after a waiting client has come back.
  abbrev pub resume : Name → PairingEntry P → PeerConnectionData → InMemoryRegistry P
  resume name e info = record r {
    pairings = insert_pairing r.pairings name (refresh P e info (channel r.channels).1);
    channels = drop_notify P (channel r.channels).0 e.notify_tx;
  }

  -- The registry after `unregister` has found an entry.
  abbrev pub unregister_stored : Name → PairingEntry P → Uuid → InMemoryRegistry P
  unregister_stored name e token = record r {
    pairings = remove_pairing r.pairings name;
    tokens =
        ite (uuid_discrete e.waiting_client.reconnect_token token) (remove_token r.tokens token)
          r.tokens;
    channels = drop_notify P r.channels e.notify_tx;
  }

  pub guard_yes : {A : Type 0} (d : Dec A) → A → guard P d ≡ some tt
  guard_yes (yes p) a = refl
  guard_yes (no n) a = absurd (n a)

  pub guard_no : {A : Type 0} (d : Dec A) → ¬ A → guard P d ≡ none
  guard_no (yes p) n = absurd (n p)
  guard_no (no p) n = refl

  module _ (name : Name) (info : PeerConnectionData) (draw : Draw P) where
    reconnect_same :
        (e : PairingEntry P)
        → get_pairing r.pairings name ≡ some e
        → get_token r.tokens e.waiting_client.reconnect_token ≡ some name
        → reconnect P r name info e.waiting_client.reconnect_token
          ≡ some
              (resume name e info, resumed e.waiting_client.reconnect_token (channel r.channels).2)
    unfolding reconnect
    reconnect_same e stored indexed = rw (
      indexed,
      guard_yes (name_discrete name name) refl,
      stored,
      guard_yes (uuid_discrete e.waiting_client.reconnect_token e.waiting_client.reconnect_token)
          refl,
    )

    pub register_resumed :
        (e : PairingEntry P)
        → get_pairing r.pairings name ≡ some e
        → get_token r.tokens e.waiting_client.reconnect_token ≡ some name
        → register P r name info (some e.waiting_client.reconnect_token) draw ≡ (
          resume name e info,
          ok (resumed e.waiting_client.reconnect_token (channel r.channels).2),
        )
    unfolding register
    register_resumed e stored indexed = rw (reconnect_same e stored indexed, register)

    reconnect_other :
        (e : PairingEntry P) (token : Uuid)
        → get_pairing r.pairings name ≡ some e
        → e.waiting_client.reconnect_token ≢ token
        → reconnect P r name info token ≡ none
    unfolding reconnect
    reconnect_other e token stored ne = elim (Option-cases (get_token r.tokens token)) [
      | inl q ↦ rw q
      | inr (stored_name, q) ↦ elim (name_discrete stored_name name) [
        | yes p ↦ rw (
          q,
          guard_yes (name_discrete stored_name name) p,
          stored,
          guard_no (uuid_discrete e.waiting_client.reconnect_token token) ne,
        )
        | no p ↦ rw (q, guard_no (name_discrete stored_name name) p)
      ]
    ]

    reconnect_absent :
        (token : Uuid) → get_pairing r.pairings name ≡ none → reconnect P r name info token ≡ none
    unfolding reconnect
    reconnect_absent token absent = elim (Option-cases (get_token r.tokens token)) [
      | inl q ↦ rw q
      | inr (stored_name, q) ↦ elim (name_discrete stored_name name) [
        | yes p ↦ rw (q, guard_yes (name_discrete stored_name name) p, absent)
        | no p ↦ rw (q, guard_no (name_discrete stored_name name) p)
      ]
    ]

    pub register_paired :
        (e : PairingEntry P) (token : Option Uuid)
        → get_pairing r.pairings name ≡ some e
        → token ≢ some e.waiting_client.reconnect_token
        → register P r name info token draw ≡ (
          (complete_pairing P r name e info draw).0,
          ok (complete_pairing P r name e info draw).1,
        )
    unfolding register register_fresh
    register_paired e none stored ne = rw (stored, register_fresh)
    register_paired e (some t) stored ne =
        rw
          (reconnect_other e t stored (λ q. ne (ap some (sym q))), register, stored, register_fresh)

    pub register_waiting :
        (token : Option Uuid)
        → get_pairing r.pairings name ≡ none
        → register P r name info token draw
          ≡ ((register_first P r name info draw).0, ok (register_first P r name info draw).1)
    unfolding register register_fresh
    register_waiting none absent = rw (absent, register_fresh)
    register_waiting (some t) absent =
        rw (reconnect_absent t absent, register, absent, register_fresh)

  pub unregister_found :
      (name : Name) (e : PairingEntry P) (token : Uuid)
      → get_pairing r.pairings name ≡ some e
      → unregister P r name token ≡ (unregister_stored name e token, ok tt)
  unfolding unregister
  unregister_found name e token stored = rw (stored, unregister)

  pub unregister_absent :
      (name : Name) (token : Uuid)
      → get_pairing r.pairings name ≡ none
      → unregister P r name token ≡ (r, ok tt)
  unfolding unregister
  unregister_absent name token absent = rw (absent, unregister)
