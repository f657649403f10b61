-- ===== src/Registry/Spec.antt =====
-- What a rendezvous registry promises, with no index, no map and no clock: under a name at most one
-- client waits, and whoever comes next with another token, or none, meets it: the code refuses no token. `InMemory/Refines` relates
-- server/rust/src/registry.rs to it.
use tcpunch.Base.{
  some, none, Option, Name, ite, ◌≡◌, name_discrete, none-ne-some, ap, some-injective,
}
use tcpunch.Platform.{Platform}
use tcpunch.Protocol.{PeerConnectionData}
use tcpunch.Registry.{RegistrationResult, waiting, paired, resumed}

-- Does an optional token hold this one?
unfoldable pub some_decide :
    {A : Type 0} (dec : Discrete A) (o : Option A) (a : A) → Dec (o ≡ some a)
some_decide dec none a = no none-ne-some
some_decide dec (some b) a = elim (dec b a) [
  | yes p ↦ yes (ap some p)
  | no p ↦ no (λ e. p (some-injective b a e))
]

module _ (P : Platform PeerConnectionData) where
  open P use {uuid.{Uuid, uuid_discrete}, oneshot.{Receiver}}

  -- A waiting client: its address, its token, and the receiver that hears of its peer.
  pub record Slot : Type 0 where
    pub info : PeerConnectionData
    pub token : Uuid
    pub receiver : Option Receiver

  abbrev pub Slots : Type 0
  Slots = Name → Option Slot

  unfoldable pub update : Slots → Name → Option Slot → Slots
  update s name o n = ite (name_discrete name n) o (s n)

  -- `fresh` and `rx` are the token and the receiver that a new slot or a new channel gets.
  unfoldable pub meet :
      Slots
      → Name
      → PeerConnectionData
      → Option Uuid
      → Uuid
      → Receiver
      → Slots × RegistrationResult P
  unfolding some_decide
  meet s name info token fresh rx = elim (s name) [
    | none ↦ (
      update s name (some (record { info = info; token = fresh; receiver = some rx })),
      waiting fresh rx,
    )
    | some slot ↦
        ite (some_decide uuid_discrete token slot.token)
          (
            update s name (some (record slot { info = info; receiver = some rx })),
            resumed slot.token rx,
          )
          (update s name none, paired fresh slot.info)
  ]
