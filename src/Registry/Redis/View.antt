-- ===== src/Registry/Redis/View.antt =====
-- `RedisRegistry` as the rendezvous of `Registry/Spec` (server/rust/src/registry.rs).
use mathlib.Core.Path.{fun_ext}
use tcpunch.Base.{
  Name, Option, none, some, ◌≡◌, ◌≢◌, ◌∙◌, sym, ap, refl, if_pos, if_neg, name_discrete,
}
use tcpunch.Platform.{Platform}
use tcpunch.Platform.Redis.{RedisApi}
use tcpunch.Protocol.{PeerConnectionData}
use tcpunch.Registry.{WaitingClient}
use tcpunch.Registry.Json.{JsonApi}
use tcpunch.Registry.Spec.{Slot, Slots, update}
use tcpunch.Registry.InMemory.Refines.{receiver_of}
use tcpunch.Registry.Redis.{Site, pairing_key, waiter_map}
use tcpunch.Registry.Redis.Invariant.{Waits}

module _ (P : Platform PeerConnectionData) (R : RedisApi) (J : JsonApi P) where
  open P use {oneshot.{Sender, receiver}}
  open waiter_map P R J use {get as get_waiter}

  unfoldable pub slot_of : Option Sender → WaitingClient P → Slot P
  unfolding receiver_of
  slot_of tx w = record {
    info = w.connection_info;
    token = w.reconnect_token;
    receiver = receiver_of P tx;
  }

  unfoldable pub view_client : Option Sender → Option (WaitingClient P) → Option (Slot P)
  view_client tx none = none
  view_client tx (some w) = some (slot_of tx w)

  unfoldable pub view_text : Option Sender → Option Name → Option (Slot P)
  view_text tx none = none
  view_text tx (some text) = view_client tx (J.waiting_from_str text)

  unfoldable pub slots : Site P R J → Slots P
  slots s n = view_text (get_waiter s.registry.local_waiters n) (R.get s.store (pairing_key n))

  pub slots-Waits :
      (s : Site P R J) (n : Name) (w : WaitingClient P)
      → Waits P R J s.store n w
      → slots s n ≡ some (slot_of (get_waiter s.registry.local_waiters n) w)
  unfolding slots view_text slot_of view_client
  slots-Waits s n w (text, at, read) = rw (at, read) refl

  pub slots-absent :
      (s : Site P R J) (n : Name) → R.get s.store (pairing_key n) ≡ none → slots s n ≡ none
  unfolding slots view_text
  slots-absent s n at = rw at refl

  pub slots-kept :
      (s s' : Site P R J) (m : Name)
      → R.get s'.store (pairing_key m) ≡ R.get s.store (pairing_key m)
      → get_waiter s'.registry.local_waiters m ≡ get_waiter s.registry.local_waiters m
      → slots s' m ≡ slots s m
  unfolding slots
  slots-kept s s' m e e' = rw (e, e') refl

  -- A call that changes one name changes its slot only.
  pub slots-update :
      (s s' : Site P R J) (name : Name) (o : Option (Slot P))
      → slots s' name ≡ o
      → ((m : Name) → name ≢ m → slots s' m ≡ slots s m)
      → slots s' ≡ update P (slots s) name o
  unfolding update
  slots-update s s' name o here there = fun_ext λ m. elim (name_discrete name m) [
    | yes p ↦ ap (slots s') (sym p) ∙ here ∙ sym (if_pos (name_discrete name m) p o (slots s m))
    | no p ↦ there m p ∙ sym (if_neg (name_discrete name m) p o (slots s m))
  ]
