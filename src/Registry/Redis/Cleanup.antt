-- ===== src/Registry/Redis/Cleanup.antt =====
-- `cleanup_expired` of `RedisRegistry` (server/rust/src/registry.rs).
use mathlib.Core.List.{lookup}
use tcpunch.Base.{
  Name, List, [], ◌∷◌, Bool, true, false, none, some, ◌≡◌, ◌≢◌, ◌∙◌, ◌⊎◌, ℕ, ◌+◌, sym, refl, inl,
  inr, map, Bool-cases, none-ne-some, name_discrete, if_neg,
}
use tcpunch.Platform.{Platform, after_drop_sender}
use tcpunch.Platform.Channels.{state-drop_sender_self}
use tcpunch.Platform.Maps.{get-remove_self, get-remove_ne, get-remove_cases}
use tcpunch.Platform.Redis.{RedisApi}
use tcpunch.Protocol.{PeerConnectionData}
use tcpunch.Registry.Json.{JsonApi}
use tcpunch.Registry.Redis.{Site, Link, up, lost, reply_lost, waiter_map, drop_waiter}
use tcpunch.Registry.Redis.Calls.{remove_local, is_present, check_waiters}
use tcpunch.Registry.Redis.Preserve.{state-drop_waiter}

-- A name in a list.
abbrev pub IsIn : Name → List Name → Type 0
IsIn n [] = ⊥
IsIn n (m ∷ ms) = (m ≡ n) ⊎ IsIn n ms

pub IsIn-keys :
    {V : Type 0} (n : Name) (v : V) (es : List (Name × V))
    → lookup name_discrete n es ≡ some v
    → IsIn n (map (λ e. e.0) es)
unfolding lookup
IsIn-keys n v [] h = absurd (none-ne-some h)
IsIn-keys n v ((m, w) ∷ es) h = elim (name_discrete n m) [
  | yes p ↦ inl (sym p)
  | no p ↦ inr (
      IsIn-keys n v es
        (sym (if_neg (name_discrete n m) p (some w) (lookup name_discrete n es)) ∙ h))
]

module _ (P : Platform PeerConnectionData) (R : RedisApi) (J : JsonApi P) where
  open P use {oneshot.{Sender, Receiver, receiver, state}}
  open waiter_map P R J use {get as get_waiter, remove as remove_waiter}

  pub is_present-store :
      (link : Link) (name : Name) (s s' : Site P R J)
      → s'.store ≡ s.store
      → is_present P R J link name s' ≡ is_present P R J link name s
  unfolding is_present
  is_present-store up name s s' e = rw e refl
  is_present-store lost name s s' e = refl
  is_present-store reply_lost name s s' e = refl

  pub is_present_down :
      (link : Link) (name : Name) (s : Site P R J)
      → link ≢ up
      → is_present P R J link name s ≡ false
  unfolding is_present
  is_present_down up name s down = absurd (down refl)
  is_present_down lost name s down = refl
  is_present_down reply_lost name s down = refl

  -- The site once a name's waiter has been removed.
  abbrev pub dropped : Site P R J → Name → Site P R J
  dropped s name = record s { registry = remove_local P R J name s.registry }

  -- No two waiters share a channel.
  abbrev pub IsApart : Site P R J → Type 0
  IsApart s =
      (n m : Name) (tx ty : Sender)
      → get_waiter s.registry.local_waiters n ≡ some tx
      → get_waiter s.registry.local_waiters m ≡ some ty
      → receiver tx ≡ receiver ty
      → n ≡ m

  module _ (s : Site P R J) (name : Name) where
    pub get-dropped_self : get_waiter (dropped s name).registry.local_waiters name ≡ none
    unfolding remove_local
    get-dropped_self = get-remove_self (waiter_map P R J) s.registry.local_waiters name

    pub get-dropped_ne :
        (n : Name)
        → name ≢ n
        → get_waiter (dropped s name).registry.local_waiters n
          ≡ get_waiter s.registry.local_waiters n
    unfolding remove_local
    get-dropped_ne n h = get-remove_ne (waiter_map P R J) s.registry.local_waiters name n h

    pub get-dropped_cases :
        (n : Name) (tx : Sender)
        → get_waiter (dropped s name).registry.local_waiters n ≡ some tx
        → (name ≢ n) × (get_waiter s.registry.local_waiters n ≡ some tx)
    unfolding remove_local
    get-dropped_cases n tx h =
        get-remove_cases (waiter_map P R J) s.registry.local_waiters name n tx h

    pub dropped-IsApart : IsApart s → IsApart (dropped s name)
    dropped-IsApart a n m tx ty h k =
        a n m tx ty (get-dropped_cases n tx h).1 (get-dropped_cases m ty k).1

    pub state-dropped :
        (r : Receiver)
        → ((tx : Sender) → get_waiter s.registry.local_waiters name ≡ some tx → receiver tx ≢ r)
        → state (dropped s name).registry.channels r ≡ state s.registry.channels r
    unfolding remove_local
    state-dropped r h =
        state-drop_waiter P R J s.registry.channels (get_waiter s.registry.local_waiters name) r h

    pub state-dropped_self :
        (tx : Sender)
        → get_waiter s.registry.local_waiters name ≡ some tx
        → state (dropped s name).registry.channels (receiver tx)
          ≡ after_drop_sender (state s.registry.channels (receiver tx))
    unfolding remove_local drop_waiter
    state-dropped_self tx h = rw h (state-drop_sender_self P.oneshot s.registry.channels tx)

  module _ (links : Name → Link) where
    abbrev pub present : Site P R J → Name → Bool
    present s n = is_present P R J (links n) n s

    -- The two ways of one round.
    pub check_present :
        (name : Name) (names : List Name) (s : Site P R J) (c : ℕ)
        → present s name ≡ true
        → check_waiters P R J links (name ∷ names) s c ≡ check_waiters P R J links names s c
    unfolding check_waiters
    check_present name names s c e = rw e refl

    pub check_absent :
        (name : Name) (names : List Name) (s : Site P R J) (c : ℕ)
        → present s name ≡ false
        → check_waiters P R J links (name ∷ names) s c
          ≡ check_waiters P R J links names (dropped s name) (c + 1)
    unfolding check_waiters
    check_absent name names s c e = rw e refl

    -- What holds of a site and of each site with one waiter fewer, where its key is missing, holds in
    -- the end.
    pub check_induction :
        (Q : Site P R J → Type 0)
        → ((s : Site P R J) (name : Name) → present s name ≡ false → Q s → Q (dropped s name))
        → (names : List Name) (s : Site P R J) (c : ℕ) → Q s
        → Q (check_waiters P R J links names s c).0
    unfolding check_waiters
    check_induction Q step [] s c q = q
    check_induction Q step (name ∷ names) s c q = elim (Bool-cases (present s name)) [
      | inl here ↦ rw here (check_induction Q step names s c q)
      | inr gone ↦
          rw gone (check_induction Q step names (dropped s name) (c + 1) (step s name gone q))
    ]
