-- ===== src/Registry/Seats.antt =====
-- What clients can tell of a rendezvous: who waits under which name with which token, and what a
-- call answers, without the channels of one server. The two registries of
-- server/rust/src/registry.rs are compared by it.
use mathlib.Core.Path.{fun_ext}
use tcpunch.Base.{
  Name, Option, none, some, Option-cases, inl, inr, ite, ◌≡◌, ◌≢◌, refl, ap, sym, ◌∙◌, if_pos,
  if_neg, name_discrete,
}
use tcpunch.Platform.{Platform}
use tcpunch.Protocol.{PeerConnectionData}
use tcpunch.Registry.{RegistrationResult, waiting, paired, resumed}
use tcpunch.Registry.Spec.{Slot, Slots, update, meet, some_decide}

module _ (P : Platform PeerConnectionData) where
  open P use {uuid.{Uuid, uuid_discrete}, oneshot.{Receiver}}

  pub record Seat : Type 0 where
    pub info : PeerConnectionData
    pub token : Uuid

  -- An answer without its receiver.
  pub data Told : Type 0 where
    wait : Uuid → Told
    peer : Uuid → PeerConnectionData → Told
    wait_again : Uuid → Told

  abbrev pub Seats : Type 0
  Seats = Name → Option Seat

  unfoldable pub seat_of : Option (Slot P) → Option Seat
  seat_of none = none
  seat_of (some slot) = some (record { info = slot.info; token = slot.token })

  unfoldable pub seats : Slots P → Seats
  seats slots n = seat_of (slots n)

  unfoldable pub told : RegistrationResult P → Told
  told (waiting token rx) = wait token
  told (paired token info) = peer token info
  told (resumed token rx) = wait_again token

  unfoldable pub put : Seats → Name → Option Seat → Seats
  put s name o n = ite (name_discrete name n) o (s n)

  -- The rendezvous on seats.
  unfoldable pub meet_seats : Seats → Name → PeerConnectionData → Option Uuid → Uuid → Seats × Told
  meet_seats s name info token fresh = elim (s name) [
    | none ↦ (put s name (some (record { info = info; token = fresh })), wait fresh)
    | some seat ↦
        ite (some_decide uuid_discrete token seat.token)
          (put s name (some (record { info = info; token = seat.token })), wait_again seat.token)
          (put s name none, peer fresh seat.info)
  ]

  pub seats-update :
      (s : Slots P) (name : Name) (o : Option (Slot P))
      → seats (update P s name o) ≡ put (seats s) name (seat_of o)
  unfolding seats update put
  seats-update s name o = fun_ext λ n. elim (name_discrete name n) [
    | yes p ↦
        ap seat_of (if_pos (name_discrete name n) p o (s n))
        ∙ sym (if_pos (name_discrete name n) p _ _)
    | no p ↦
        ap seat_of (if_neg (name_discrete name n) p o (s n))
        ∙ sym (if_neg (name_discrete name n) p _ _)
  ]

  seats_absent : (s : Slots P) (name : Name) → s name ≡ none → seats s name ≡ none
  unfolding seats seat_of
  seats_absent s name at = rw at refl

  seats_at :
      (s : Slots P) (name : Name) (slot : Slot P)
      → s name ≡ some slot
      → seats s name ≡ some (record { info = slot.info; token = slot.token })
  unfolding seats seat_of
  seats_at s name slot at = rw at refl

  module _ (s : Slots P) (name : Name) (info : PeerConnectionData) (token : Option Uuid)
      (fresh : Uuid) (rx : Receiver) where
    abbrev meets : Slots P × RegistrationResult P
    meets = meet P s name info token fresh rx

    seats-meet_absent :
        s name ≡ none → (seats meets.0, told meets.1) ≡ meet_seats (seats s) name info token fresh
    unfolding meet meet_seats told seat_of
    seats-meet_absent absent =
        rw (absent, meet, seats_absent s name absent, meet_seats)
          (ap (λ q. (q, wait fresh)) (seats-update s name _))

    seats-meet_same :
        (slot : Slot P)
        → s name ≡ some slot
        → token ≡ some slot.token
        → (seats meets.0, told meets.1) ≡ meet_seats (seats s) name info token fresh
    unfolding meet meet_seats told seat_of
    seats-meet_same slot at same =
        rw (at, meet, seats_at s name slot at, meet_seats)
          (ap (λ (x : Slots P × RegistrationResult P). (seats x.0, told x.1))
              (if_pos (some_decide uuid_discrete token slot.token) same _ _)
            ∙ ap (λ q. (q, wait_again slot.token)) (seats-update s name _)
            ∙ sym (if_pos (some_decide uuid_discrete token slot.token) same _ _))

    seats-meet_other :
        (slot : Slot P)
        → s name ≡ some slot
        → token ≢ some slot.token
        → (seats meets.0, told meets.1) ≡ meet_seats (seats s) name info token fresh
    unfolding meet meet_seats told seat_of
    seats-meet_other slot at other =
        rw (at, meet, seats_at s name slot at, meet_seats)
          (ap (λ (x : Slots P × RegistrationResult P). (seats x.0, told x.1))
              (if_neg (some_decide uuid_discrete token slot.token) other _ _)
            ∙ ap (λ q. (q, peer fresh slot.info)) (seats-update s name none)
            ∙ sym (if_neg (some_decide uuid_discrete token slot.token) other _ _))

    -- What clients can tell of a step of the rendezvous depends on what they could tell before.
    pub seats-meet : (seats meets.0, told meets.1) ≡ meet_seats (seats s) name info token fresh
    seats-meet = elim (Option-cases (s name)) [
      | inl absent ↦ seats-meet_absent absent
      | inr (slot, at) ↦ elim (some_decide uuid_discrete token slot.token) [
        | yes same ↦ seats-meet_same slot at same
        | no other ↦ seats-meet_other slot at other
      ]
    ]
