-- ===== src/Registry/Redis/Refines.antt =====
-- `RedisRegistry` refines the rendezvous of `Registry/Spec` (server/rust/src/registry.rs).
use tcpunch.Base.{Name, Option, none, some, ok, ◌≡◌, ◌≢◌, ◌∙◌, sym, refl, if_pos, if_neg}
use tcpunch.Platform.{Platform}
use tcpunch.Platform.Maps.{get-insert_self, get-insert_ne, get-remove_ne}
use tcpunch.Platform.Redis.{RedisApi}
use tcpunch.Platform.Redis.Laws.{get-setex_self, get-setex_ne, get-del_self, get-del_ne}
use tcpunch.Protocol.{PeerConnectionData}
use tcpunch.Registry.{WaitingClient, RegistrationResult, waiting, paired, resumed}
use tcpunch.Registry.Json.{JsonApi}
use tcpunch.Registry.Spec.{Slots, update, meet, some_decide}
use tcpunch.Registry.InMemory.Refines.{receiver_of}
use tcpunch.Registry.Redis.{Site, pairing_key, token_key, waiter_map, ttl_secs, new_waiting}
use tcpunch.Registry.Redis.Keys.{pairing_key-injective, pairing_key-ne-token_key}
use tcpunch.Registry.Redis.Calls.{register}
use tcpunch.Registry.Redis.Invariant.{Inv, Waits}
use tcpunch.Registry.Redis.Branches.{all_up, IsTtl, listening, Wrote}
use tcpunch.Registry.Redis.Cases.{parted, register_cases}
use tcpunch.Registry.Redis.View.{
  slots, slot_of, slots-Waits, slots-absent, slots-kept, slots-update,
}

module _ (P : Platform PeerConnectionData) (R : RedisApi) (J : JsonApi P) where
  open P use {uuid.{Uuid, uuid_discrete}, oneshot.{Sender, Receiver, channel, receiver}, DateTime}
  open waiter_map P R J use {get as get_waiter}

  pub pairing_key-ne : (n m : Name) → n ≢ m → pairing_key n ≢ pairing_key m
  pairing_key-ne n m h e = h (pairing_key-injective n m e)

  pub token_key-ne-pairing_key : (t : Uuid) (n : Name) → token_key P R J t ≢ pairing_key n
  token_key-ne-pairing_key t n e = pairing_key-ne-token_key P R J n t (sym e)

  -- A written entry is there, and no other name's has changed.
  pub Wrote-Waits :
      (s : Site P R J) (st st' : R.Store) (name : Name) (w : WaitingClient P)
      → Wrote P R J st st' s.registry.config name w
      → Waits P R J st' name w
  Wrote-Waits s st st' name w (text, written, done) = (
    text,
    get-setex_self R st st' (pairing_key name) (pairing_key name) _ text done,
    J.waiting_read w text written,
  )

  pub Wrote-ne :
      (s : Site P R J) (st st' : R.Store) (name : Name) (w : WaitingClient P) (key : Name)
      → Wrote P R J st st' s.registry.config name w
      → pairing_key name ≢ key
      → R.get st' key ≡ R.get st key
  Wrote-ne s st st' name w key (text, written, done) h =
      get-setex_ne R st st' (pairing_key name) key _ text done h

  -- The token's key leaves the entries alone.
  pub indexed-get :
      (s : Site P R J) (st st' : R.Store) (name : Name) (fresh : Uuid) (m : Name)
      → R.setex st (token_key P R J fresh) (ttl_secs P R J s.registry.config) name ≡ some st'
      → R.get st' (pairing_key m) ≡ R.get st (pairing_key m)
  indexed-get s st st' name fresh m done =
      get-setex_ne R st st' (token_key P R J fresh) (pairing_key m) _ name done
        (token_key-ne-pairing_key fresh m)

  slots-listening :
      (s : Site P R J) (st : R.Store) (name : Name) (w : WaitingClient P)
      → Waits P R J st name w
      → ((m : Name) → name ≢ m → R.get st (pairing_key m) ≡ R.get s.store (pairing_key m))
      → slots P R J (record { store = st; registry = listening P R J s.registry name })
        ≡ update P (slots P R J s) name (
            some (record {
              info = w.connection_info;
              token = w.reconnect_token;
              receiver = some (channel s.registry.channels).2;
            }))
  unfolding slot_of receiver_of
  slots-listening s st name w waits rest =
      slots-update P R J s (record { store = st; registry = listening P R J s.registry name }) name
        _
        (slots-Waits P R J (record { store = st; registry = listening P R J s.registry name }) name
            w waits
          ∙ rw
              (
                get-insert_self (waiter_map P R J) s.registry.local_waiters name
                    (channel s.registry.channels).1,
                P.oneshot.receiver-channel s.registry.channels,
              )
              refl)
        (λ m h.
          slots-kept P R J s (record { store = st; registry = listening P R J s.registry name }) m
            (rest m h)
            (get-insert_ne (waiter_map P R J) s.registry.local_waiters name m
              (channel s.registry.channels).1 h))

  slots-parted :
      (s : Site P R J) (name : Name) (info : PeerConnectionData) (w : WaitingClient P) (tx : Sender)
      → slots P R J (parted P R J s name info w tx) ≡ update P (slots P R J s) name none
  slots-parted s name info w tx =
      slots-update P R J s (parted P R J s name info w tx) name none
        (slots-absent P R J (parted P R J s name info w tx) name (
          get-del_ne R (R.del s.store (pairing_key name)) (token_key P R J w.reconnect_token)
            (pairing_key name) (token_key-ne-pairing_key w.reconnect_token name)
          ∙ get-del_self R s.store (pairing_key name)))
        (λ m h.
          slots-kept P R J s (parted P R J s name info w tx) m
            (get-del_ne R (R.del s.store (pairing_key name)) (token_key P R J w.reconnect_token)
                (pairing_key m) (token_key-ne-pairing_key w.reconnect_token m)
              ∙ get-del_ne R s.store (pairing_key name) (pairing_key m) (pairing_key-ne name m h))
            (get-remove_ne (waiter_map P R J) s.registry.local_waiters name m h))

  module _ (s : Site P R J) (v : Inv P R J s) (ttl : IsTtl P R J s.registry.config) where
    abbrev pub meets :
        Name → PeerConnectionData → Option Uuid → Uuid → Slots P × RegistrationResult P
    meets name info token fresh =
        meet P (slots P R J s) name info token fresh (channel s.registry.channels).2

    meet_resumed :
        (name : Name) (info : PeerConnectionData) (token : Option Uuid) (fresh : Uuid)
        (w : WaitingClient P)
        → Waits P R J s.store name w
        → token ≡ some w.reconnect_token
        → meets name info token fresh ≡ (
          update P (slots P R J s) name (
              some (record {
                info = info;
                token = w.reconnect_token;
                receiver = some (channel s.registry.channels).2;
              })),
          resumed w.reconnect_token (channel s.registry.channels).2,
        )
    unfolding meet slot_of
    meet_resumed name info token fresh w waits same =
        rw (slots-Waits P R J s name w waits, meet)
          (if_pos (some_decide uuid_discrete token w.reconnect_token) same _ _)

    meet_paired :
        (name : Name) (info : PeerConnectionData) (token : Option Uuid) (fresh : Uuid)
        (w : WaitingClient P)
        → Waits P R J s.store name w
        → token ≢ some w.reconnect_token
        → meets name info token fresh
          ≡ (update P (slots P R J s) name none, paired fresh w.connection_info)
    unfolding meet slot_of
    meet_paired name info token fresh w waits other =
        rw (slots-Waits P R J s name w waits, meet)
          (if_neg (some_decide uuid_discrete token w.reconnect_token) other _ _)

    meet_waiting :
        (name : Name) (info : PeerConnectionData) (token : Option Uuid) (fresh : Uuid)
        → R.get s.store (pairing_key name) ≡ none
        → meets name info token fresh ≡ (
          update P (slots P R J s) name (
              some (record {
                info = info;
                token = fresh;
                receiver = some (channel s.registry.channels).2;
              })),
          waiting fresh (channel s.registry.channels).2,
        )
    unfolding meet
    meet_waiting name info token fresh absent = rw (slots-absent P R J s name absent, meet) refl

    -- Where one server runs, its timeout is one that Redis takes, and every command succeeds,
    -- `register` is the step of the rendezvous: the same outcome, and the same slots after it.
    pub redis_register-refines-meet :
        (name : Name) (info : PeerConnectionData) (token : Option Uuid) (fresh : Uuid)
        (date : DateTime)
        → let x = register P R J name info token (all_up P R J fresh date) s in
          (slots P R J x.0 ≡ (meets name info token fresh).0)
          × (x.1 ≡ ok (meets name info token fresh).1)
    redis_register-refines-meet name info token fresh date =
        register_cases P R J s v ttl name info fresh date
          (λ x.
            (slots P R J x.0 ≡ (meets name info token fresh).0)
            × (x.1 ≡ ok (meets name info token fresh).1))
          token
          (λ w st waits same written. rw (meet_resumed name info token fresh w waits same) (
            slots-listening s st name _ (Wrote-Waits s s.store st name _ written) (λ m h.
                Wrote-ne s s.store st name _ (pairing_key m) written (pairing_key-ne name m h)),
            refl,
          ))
          (λ w tx waits other here.
            rw (meet_paired name info token fresh w waits other)
              (slots-parted s name info w tx, refl))
          (λ st st' absent written done. rw (meet_waiting name info token fresh absent) (
            slots-listening s st' name (new_waiting P R J s.registry.config info fresh date)
                (let (text, at, read) =
                    Wrote-Waits s (R.del s.store (pairing_key name)) st name _ written in
                  (text, indexed-get s st st' name fresh name done ∙ at, read))
                (λ m h.
                  indexed-get s st st' name fresh m done
                  ∙ Wrote-ne s (R.del s.store (pairing_key name)) st name _ (pairing_key m) written
                      (pairing_key-ne name m h)
                  ∙ get-del_ne R s.store (pairing_key name) (pairing_key m)
                      (pairing_key-ne name m h)),
            refl,
          ))
