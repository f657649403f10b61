-- ===== src/Registry/InMemory/Refines.antt =====
-- `InMemoryRegistry` refines the rendezvous of `Registry/Spec` (server/rust/src/registry.rs).
use tcpunch.Platform.Maps.{get-insert_ne, get-remove_ne}
use mathlib.Core.Option.{Option}
use mathlib.Core.Path.{fun_ext, ◌≡◌, ap, sym}
use tcpunch.Base.{
  refl, some, none, inl, inr, ok, Name, name_discrete, ◌∙◌, if_pos, if_neg, ◌≢◌, Option-cases,
}
use tcpunch.Platform.{Platform}
use tcpunch.Protocol.{PeerConnectionData}
use tcpunch.Registry.{RegistrationResult, waiting, paired, resumed}
use tcpunch.Registry.Spec.{Slot, Slots, update, meet, some_decide}
use tcpunch.Registry.InMemory.{
  InMemoryRegistry, PairingEntry, Draw, pairing_map, register, unregister, complete_pairing,
  register_first, refresh, first_entry, RegistrationResult, resumed,
}
use tcpunch.Registry.InMemory.Branches.{unregister_absent, unregister_found, unregister_stored}
use tcpunch.Registry.InMemory.Invariant.{Inv, token_of}
use tcpunch.Registry.InMemory.Register.{register_cases}

module _ (P : Platform PeerConnectionData) where
  open P use {uuid.{Uuid, uuid_discrete}, oneshot.{Sender, Receiver, channel, receiver}}
  open pairing_map P use {
    Map, get as get_pairing, insert as insert_pairing, remove as remove_pairing,
  }

  unfoldable pub receiver_of : Option Sender → Option Receiver
  receiver_of none = none
  receiver_of (some tx) = some (receiver tx)

  unfoldable pub slot_of : PairingEntry P → Slot P
  unfolding receiver_of
  slot_of e = record {
    info = e.waiting_client.connection_info;
    token = e.waiting_client.reconnect_token;
    receiver = receiver_of e.notify_tx;
  }

  unfoldable pub view_entry : Option (PairingEntry P) → Option (Slot P)
  view_entry none = none
  view_entry (some e) = some (slot_of e)

  -- The registry as a rendezvous: the token index, the dates and the clock are forgotten.
  unfoldable pub slots : InMemoryRegistry P → Slots P
  unfolding view_entry slot_of receiver_of
  slots r n = view_entry (get_pairing r.pairings n)

  pub slots-insert :
      (r r' : InMemoryRegistry P) (name : Name) (e : PairingEntry P)
      → r'.pairings ≡ insert_pairing r.pairings name e
      → slots r' ≡ update P (slots r) name (some (slot_of e))
  unfolding update slots
  slots-insert r r' name e h = fun_ext λ n. rw h (elim (name_discrete name n) [
    | yes p ↦
        ap view_entry
          ((pairing_map P).get-insert r.pairings name n e ∙ if_pos (name_discrete name n) p _ _)
        ∙ unfold view_entry in sym (if_pos (name_discrete name n) p _ _)
    | no p ↦
        ap view_entry (get-insert_ne (pairing_map P) r.pairings name n e p)
        ∙ sym (if_neg (name_discrete name n) p _ _)
  ])

  pub slots-remove :
      (r r' : InMemoryRegistry P) (name : Name)
      → r'.pairings ≡ remove_pairing r.pairings name
      → slots r' ≡ update P (slots r) name none
  unfolding update slots
  slots-remove r r' name h = fun_ext λ n. rw h (elim (name_discrete name n) [
    | yes p ↦
        ap view_entry
          ((pairing_map P).get-remove r.pairings name n ∙ if_pos (name_discrete name n) p _ _)
        ∙ unfold view_entry in sym (if_pos (name_discrete name n) p _ _)
    | no p ↦
        ap view_entry (get-remove_ne (pairing_map P) r.pairings name n p)
        ∙ sym (if_neg (name_discrete name n) p _ _)
  ])

  slot_of-refresh :
      (r : InMemoryRegistry P) (e : PairingEntry P) (info : PeerConnectionData)
      → slot_of (refresh P e info (channel r.channels).1)
        ≡ record (slot_of e) { info = info; receiver = some (channel r.channels).2 }
  unfolding slot_of refresh receiver_of
  slot_of-refresh r e info = rw (P.oneshot.receiver-channel r.channels)

  slot_of-first_entry :
      (r : InMemoryRegistry P) (info : PeerConnectionData) (draw : Draw P)
      → slot_of (first_entry P r.config info (channel r.channels).1 draw)
        ≡ record { info = info; token = draw.token; receiver = some (channel r.channels).2 }
  unfolding slot_of first_entry receiver_of
  slot_of-first_entry r info draw = rw (P.oneshot.receiver-channel r.channels)

  module _ (r : InMemoryRegistry P) (v : Inv P r) where
    -- The step of the rendezvous that a call makes.
    abbrev pub meets :
        Name → PeerConnectionData → Option Uuid → Draw P → Slots P × RegistrationResult P
    meets name info token draw = meet P (slots r) name info token draw.token (channel r.channels).2

    slot_at :
        (name : Name) (e : PairingEntry P)
        → get_pairing r.pairings name ≡ some e
        → slots r name ≡ some (slot_of e)
    unfolding slots
    slot_at name e stored = unfold view_entry in ap view_entry stored

    meet_resumed :
        (name : Name) (info : PeerConnectionData) (token : Option Uuid) (draw : Draw P)
        (e : PairingEntry P)
        → get_pairing r.pairings name ≡ some e
        → token ≡ some (token_of P e)
        → meets name info token draw ≡ (
          update P
              (slots r)
              name
              (some (record (slot_of e) { info = info; receiver = some (channel r.channels).2 })),
          resumed (token_of P e) (channel r.channels).2,
        )
    unfolding meet slot_of
    meet_resumed name info token draw e stored same =
        rw (slot_at name e stored, meet)
          (if_pos (some_decide uuid_discrete token (token_of P e)) same _ _)

    meet_paired :
        (name : Name) (info : PeerConnectionData) (token : Option Uuid) (draw : Draw P)
        (e : PairingEntry P)
        → get_pairing r.pairings name ≡ some e
        → token ≢ some (token_of P e)
        → meets name info token draw
          ≡ (update P (slots r) name none, paired draw.token e.waiting_client.connection_info)
    unfolding meet slot_of
    meet_paired name info token draw e stored other =
        rw (slot_at name e stored, meet)
          (if_neg (some_decide uuid_discrete token (token_of P e)) other _ _)

    meet_waiting :
        (name : Name) (info : PeerConnectionData) (token : Option Uuid) (draw : Draw P)
        → get_pairing r.pairings name ≡ none
        → meets name info token draw ≡ (
          update P (slots r) name (
              some (record {
                info = info;
                token = draw.token;
                receiver = some (channel r.channels).2;
              })),
          waiting draw.token (channel r.channels).2,
        )
    unfolding meet slots view_entry
    meet_waiting name info token draw absent = rw (absent, view_entry, meet)

    -- On a well-formed registry, `register` is the step of the rendezvous: the same outcome, and the same
    -- slots after it. The step pairs a client with a wrong token as it pairs one with none, since the
    -- code does not refuse a wrong token.
    pub register-refines-meet :
        (name : Name) (info : PeerConnectionData) (token : Option Uuid) (draw : Draw P)
        → (slots (register P r name info token draw).0 ≡ (meets name info token draw).0)
          × ((register P r name info token draw).1 ≡ ok (meets name info token draw).1)
    register-refines-meet name info token draw =
        register_cases P r v
          (λ x.
            (slots x.0 ≡ (meets name info token draw).0)
            × (x.1 ≡ ok (meets name info token draw).1))
          name info token draw
          (λ e stored same. rw (meet_resumed name info token draw e stored same) (
            slots-insert r _ name (refresh P e info (channel r.channels).1) refl
                ∙ ap (λ s. update P (slots r) name (some s)) (slot_of-refresh r e info),
            refl,
          ))
          (λ e stored other. rw (meet_paired name info token draw e stored other) (
            slots-remove r (complete_pairing P r name e info draw).0 name
                (unfold complete_pairing in refl),
            unfold complete_pairing in refl,
          ))
          (λ absent. rw (meet_waiting name info token draw absent) (
            slots-insert r (register_first P r name info draw).0 name
                  (first_entry P r.config info (channel r.channels).1 draw)
                  (unfold register_first in refl)
                ∙ ap (λ s. update P (slots r) name (some s)) (slot_of-first_entry r info draw),
            unfold register_first in refl,
          ))

    -- `unregister` empties the slot of the name, and touches no other.
    pub unregister-empties :
        (name : Name) (token : Uuid)
        → slots (unregister P r name token).0 ≡ update P (slots r) name none
    unregister-empties name token = elim (Option-cases (get_pairing r.pairings name)) [
      | inl absent ↦
          rw (unregister_absent P r name token absent)
            (sym (update_same name (unfold slots view_entry in rw absent)))
      | inr (e, stored) ↦
          rw (unregister_found P r name e token stored)
            (slots-remove r (unregister_stored P r name e token) name refl)
    ]
      where
        update_same : (n₀ : Name) → slots r n₀ ≡ none → update P (slots r) n₀ none ≡ slots r
        update_same n₀ h =
            unfold update in
            fun_ext λ n. elim (name_discrete n₀ n) [
              | yes p ↦ if_pos (name_discrete n₀ n) p _ _ ∙ sym h ∙ ap (slots r) p
              | no p ↦ if_neg (name_discrete n₀ n) p _ _
            ]
