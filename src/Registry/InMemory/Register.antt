-- ===== src/Registry/InMemory/Register.antt =====
-- `register` and `unregister` of `InMemoryRegistry` as wholes: their cases, and that they keep the
-- invariant and leave no orphan in the token index (server/rust/src/registry.rs).
use tcpunch.Platform.Maps.{get-insert_ne, get-insert_self}
use tcpunch.Platform.Channels.{channel-ne_issued, state-channel_issued, state-channel_self}
use tcpunch.Registry.InMemory.Calls.{
  resume-Inv, complete_pairing-Inv, unregister_stored-Inv, held-IsPending,
}
use tcpunch.Base.{
  refl, some, none, inl, inr, ok, Option, ◌≡◌, Result, Name, ◌≢◌, Option-cases, subst, ap, sym, ◌∙◌,
  ne-of-some,
}
use tcpunch.Platform.{Platform}
use tcpunch.Protocol.{PeerConnectionData}
use tcpunch.Registry.{resumed, RegistrationResult, RegistryError}
use tcpunch.Registry.InMemory.{
  InMemoryRegistry, PairingEntry, Draw, pairing_map, token_map, register, unregister,
  complete_pairing, register_first, first_entry,
}
use tcpunch.Registry.Spec.{some_decide}
use tcpunch.Registry.InMemory.Branches.{
  resume, unregister_absent, unregister_found, register_waiting, register_resumed, register_paired,
}
use tcpunch.Registry.InMemory.Invariant.{Inv, IsPending, token_of}
use tcpunch.Registry.InMemory.Preserve.{insert-Inv, IsPending-ne-unissued}

module _ (P : Platform PeerConnectionData) (r : InMemoryRegistry P) (v : Inv P r) where
  open P use {uuid.{Uuid, uuid_discrete}, oneshot.{Sender, channel, receiver, state}}
  open pairing_map P use {get as get_pairing}
  open token_map P use {get as get_token}

  -- A token is fresh if the index does not know it.
  abbrev pub IsFresh : Uuid → Type 0
  IsFresh token = get_token r.tokens token ≡ none

  -- Whatever holds of the three outcomes of `register` holds of `register`.
  pub register_cases {ℓ} :
      (Q : InMemoryRegistry P × Result (RegistrationResult P) RegistryError → Type ℓ) (name : Name)
      (info : PeerConnectionData) (token : Option Uuid) (draw : Draw P)
      → ((e : PairingEntry P)
          → get_pairing r.pairings name ≡ some e
          → token ≡ some (token_of P e)
          → Q (resume P r name e info, ok (resumed (token_of P e) (channel r.channels).2)))
      → ((e : PairingEntry P)
          → get_pairing r.pairings name ≡ some e
          → token ≢ some (token_of P e)
          → Q (
            (complete_pairing P r name e info draw).0,
            ok (complete_pairing P r name e info draw).1,
          ))
      → (get_pairing r.pairings name ≡ none
          → Q ((register_first P r name info draw).0, ok (register_first P r name info draw).1))
      → Q (register P r name info token draw)
  register_cases Q name info token draw on_resume on_pair on_first =
      elim (Option-cases (get_pairing r.pairings name)) [
        | inl absent ↦
            subst Q (sym (register_waiting P r name info draw token absent)) (on_first absent)
        | inr (e, stored) ↦ elim (some_decide uuid_discrete token (token_of P e)) [
          | yes same ↦ rw same (
              subst Q (sym (register_resumed P r name info draw e stored (v.indexed name e stored)))
                (on_resume e stored same))
          | no other ↦
              subst Q (sym (register_paired P r name info draw e token stored other))
                (on_pair e stored other)
        ]
      ]

  register_first-Inv :
      (name : Name) (info : PeerConnectionData) (draw : Draw P)
      → IsFresh draw.token
      → get_pairing r.pairings name ≡ none
      → Inv P (register_first P r name info draw).0
  unfolding register_first first_entry
  register_first-Inv name info draw fresh absent =
      insert-Inv P r name (first_entry P r.config info (channel r.channels).1 draw)
        (channel r.channels).1 _ _ v (record { kept_index = index; kept_state = kept })
        (get-insert_self (token_map P) r.tokens draw.token name) refl
        (inl (rw (P.oneshot.receiver-channel r.channels) (state-channel_self P.oneshot r.channels)))
        own
    where
      own :
          (r' : P.oneshot.Receiver)
          → IsPending (state r.channels r')
          → receiver (channel r.channels).1 ≢ r'
      own r' p e =
          channel-ne_issued P.oneshot r.channels r' (IsPending-ne-unissued _ p)
            (sym (P.oneshot.receiver-channel r.channels) ∙ e)

      index :
          (n : Name) (e : PairingEntry P)
          → name ≢ n
          → get_pairing r.pairings n ≡ some e
          → get_token ((token_map P).insert r.tokens draw.token name) (token_of P e) ≡ some n
      index n e ne h =
          get-insert_ne (token_map P) r.tokens draw.token (token_of P e) name
            (λ q. ne-of-some fresh (ap (get_token r.tokens) q ∙ v.indexed n e h))
          ∙ v.indexed n e h

      kept :
          (n : Name) (e : PairingEntry P) (tx : Sender)
          → name ≢ n
          → get_pairing r.pairings n ≡ some e
          → e.notify_tx ≡ some tx
          → state (channel r.channels).0 (receiver tx) ≡ state r.channels (receiver tx)
      kept n e tx ne h q =
          state-channel_issued P.oneshot r.channels (receiver tx)
            (IsPending-ne-unissued _ (held-IsPending P r v n e tx h q))

  -- Every `register` keeps the invariant, if the token that it draws is fresh.
  pub register-Inv :
      (name : Name) (info : PeerConnectionData) (token : Option Uuid) (draw : Draw P)
      → IsFresh draw.token
      → Inv P (register P r name info token draw).0
  register-Inv name info token draw fresh =
      register_cases (λ x. Inv P x.0) name info token draw
        (λ e stored same. resume-Inv P r v name e stored info)
        (λ e stored other. complete_pairing-Inv P r v name e stored info draw)
        (register_first-Inv name info draw fresh)

  -- Every `unregister` keeps the invariant, whatever token it is given.
  pub unregister-Inv : (name : Name) (token : Uuid) → Inv P (unregister P r name token).0
  unregister-Inv name token = elim (Option-cases (get_pairing r.pairings name)) [
    | inl absent ↦ rw (unregister_absent P r name token absent) v
    | inr (e, stored) ↦
        rw (unregister_found P r name e token stored)
          (unregister_stored-Inv P r v name e stored token)
  ]
