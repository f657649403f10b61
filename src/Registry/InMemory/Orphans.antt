-- ===== src/Registry/InMemory/Orphans.antt =====
-- The token index of `InMemoryRegistry` leads back to live entries, until an `unregister` with
-- another client's token breaks that (server/rust/src/registry.rs).
use tcpunch.Platform.Maps.{
  get-remove_cases, get-insert_cases, get-remove_ne, get-insert_self, get-remove_self,
  get-insert_ne,
}
use tcpunch.Base.{
  refl, some, none, inl, inr, Name, ◌≡◌, Option, ◌≢◌, name_discrete, if_pos, ap, if_neg,
  none-ne-some, some-injective, ne-of-some, sym, ◌∙◌,
}
use tcpunch.Platform.{Platform}
use tcpunch.Protocol.{PeerConnectionData}
use tcpunch.Registry.InMemory.{
  InMemoryRegistry, PairingEntry, Draw, pairing_map, token_map, register, unregister,
  complete_pairing, register_first, refresh, first_entry,
}
use tcpunch.Registry.InMemory.Branches.{resume, unregister_found}
use tcpunch.Registry.InMemory.Invariant.{Inv, NoOrphans, token_of}
use tcpunch.Registry.InMemory.Register.{register_cases}

module _ (P : Platform PeerConnectionData) (r : InMemoryRegistry P) (v : Inv P r) where
  open P use {uuid.{Uuid, uuid_discrete}, oneshot.{channel}}
  open pairing_map P use {get as get_pairing, insert as insert_pairing, remove as remove_pairing}
  open token_map P use {get as get_token, insert as insert_token, remove as remove_token}

  module _ (whole : NoOrphans P r) (name : Name) where
    resume-NoOrphans :
        (e : PairingEntry P) (info : PeerConnectionData)
        → get_pairing r.pairings name ≡ some e
        → NoOrphans P (resume P r name e info)
    unfolding NoOrphans refresh
    resume-NoOrphans e info stored t n h =
        let (f, found, same) = whole t n h in
        elim (name_discrete name n) [
          | yes p ↦ (
            refresh P e info (channel r.channels).1,
            rw (← p) (
                get-insert_self (pairing_map P) r.pairings name
                  (refresh P e info (channel r.channels).1)),
            ap (token_of P)
                  (some-injective e f (sym stored ∙ ap (get_pairing r.pairings) p ∙ found))
                ∙ same,
          )
          | no p ↦ (
            f,
            get-insert_ne (pairing_map P) r.pairings name n
                  (refresh P e info (channel r.channels).1) p
                ∙ found,
            same,
          )
        ]

    remove-NoOrphans :
        (e : PairingEntry P)
        → get_pairing r.pairings name ≡ some e
        → (t : Uuid) (n : Name) → get_token (remove_token r.tokens (token_of P e)) t ≡ some n
        → (f : PairingEntry P) × (get_pairing (remove_pairing r.pairings name) n ≡ some f)
          × (token_of P f ≡ t)
    unfolding NoOrphans
    remove-NoOrphans e stored t n h =
        let (ne, h') = get-remove_cases (token_map P) r.tokens (token_of P e) t n h in
        let (f, found, same) = whole t n h' in
        (
          f,
          get-remove_ne (pairing_map P) r.pairings name n (λ p. ne (
                ap (token_of P)
                  (some-injective e f (sym stored ∙ ap (get_pairing r.pairings) p ∙ found))
                ∙ same))
              ∙ found,
          same,
        )

    register_first-NoOrphans :
        (info : PeerConnectionData) (draw : Draw P)
        → get_pairing r.pairings name ≡ none
        → NoOrphans P (register_first P r name info draw).0
    unfolding NoOrphans register_first first_entry
    register_first-NoOrphans info draw absent t n h =
        elim (get-insert_cases (token_map P) r.tokens draw.token t name n h) [
          | inl (p, q) ↦
              (fresh, rw (← q) (get-insert_self (pairing_map P) r.pairings name fresh), p)
          | inr (ne, h') ↦
              let (f, found, same) = whole t n h' in
              (
                f,
                get-insert_ne (pairing_map P) r.pairings name n fresh
                      (λ p. ne-of-some absent (ap (get_pairing r.pairings) p ∙ found))
                    ∙ found,
                same,
              )
        ]
      where
        fresh : PairingEntry P
        fresh = first_entry P r.config info (channel r.channels).1 draw

    -- `register` leaves no orphan in the index.
    pub register-NoOrphans :
        (info : PeerConnectionData) (token : Option Uuid) (draw : Draw P)
        → NoOrphans P (register P r name info token draw).0
    register-NoOrphans info token draw =
        register_cases P r v (λ x. NoOrphans P x.0) name info token draw
          (λ e stored same. resume-NoOrphans e info stored)
          (λ e stored other. unfold NoOrphans complete_pairing in remove-NoOrphans e stored)
          (register_first-NoOrphans info draw)

    -- Nor does `unregister` with the token of the entry that it takes away.
    pub unregister-NoOrphans :
        (e : PairingEntry P)
        → get_pairing r.pairings name ≡ some e
        → NoOrphans P (unregister P r name (token_of P e)).0
    unregister-NoOrphans e stored = rw (unregister_found P r name e (token_of P e) stored) (
        unfold NoOrphans in
        rw (if_pos (uuid_discrete (token_of P e) (token_of P e)) refl) (remove-NoOrphans e stored))

  -- `unregister` with a token that is not the entry's takes the entry away all the same, and leaves
  -- the entry's own token in the index with nothing behind it.
  pub unregister_leaks :
      (name : Name) (e : PairingEntry P) (token : Uuid)
      → get_pairing r.pairings name ≡ some e
      → token_of P e ≢ token
      → (get_pairing (unregister P r name token).0.pairings name ≡ none)
        × (get_token (unregister P r name token).0.tokens (token_of P e) ≡ some name)
        × (¬ NoOrphans P (unregister P r name token).0)
  unregister_leaks name e token stored ne = (gone, left, orphan)
    where
      gone : get_pairing (unregister P r name token).0.pairings name ≡ none
      gone =
          rw (unregister_found P r name e token stored)
            (get-remove_self (pairing_map P) r.pairings name)

      left : get_token (unregister P r name token).0.tokens (token_of P e) ≡ some name
      left =
          rw (unregister_found P r name e token stored)
            (rw (if_neg (uuid_discrete (token_of P e) token) ne) (v.indexed name e stored))

      orphan : ¬ NoOrphans P (unregister P r name token).0
      orphan whole =
          unfold NoOrphans in
          let (f, found, _) = whole (token_of P e) name left in none-ne-some (sym gone ∙ found)
