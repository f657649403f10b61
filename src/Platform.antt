-- ===== src/Platform.antt =====
-- What server/rust/src/registry.rs and server.rs take from crates that are not part of the
-- repository: `dashmap`, `tokio::sync::oneshot` and `chrono`. Each is a record of operations and of
-- the documented behaviour that the code relies on.
pub mod Assoc
pub mod Maps
pub mod Channels
pub mod Slots
pub mod Redis
use mathlib.Core.List.{lookup}
use tcpunch.Base.{ℕ, suc, ◌≡◌, List, [], ◌∷◌, Option, none, some, Bool, if◌then◌else◌, ite, length}
use tcpunch.Uuid.{UuidApi}

-- A walk that may change a state at each entry, and says whether the entry stays.
abbrev pub visit {ℓ} :
    {S : Type ℓ} {K V : Type 0} → (S → K → V → S × Bool) → S → List (K × V) → S × List (K × V)
visit f s [] = (s, [])
visit f s ((k, v) ∷ es) =
    let (s', keep) = f s k v in
    let (s'', kept) = visit f s' es in (s'', if keep then (k, v) ∷ kept else kept)

-- No key stands twice.
abbrev pub IsKeyed : {K V : Type 0} → Discrete K → List (K × V) → Type 0
IsKeyed dec [] = Unit {0}
IsKeyed dec ((k, v) ∷ es) = (lookup dec k es ≡ none) × IsKeyed dec es

-- `dashmap::DashMap`, one call at a time.
pub record DashMap (K V : Type 0) (dec : Discrete K) : Type 1 where
  pub Map : Type 0
  pub new : Map
  pub get : Map → K → Option V
  pub insert : Map → K → V → Map
  pub remove : Map → K → Map
  pub len : Map → ℕ
  -- The entries in the order of a walk.
  pub entries : Map → List (K × V)
  pub retain : {S : Type 0} → (S → K → V → S × Bool) → S → Map → S × Map
  pub get-new : (k : K) → get new k ≡ none
  pub get-insert :
      (m : Map) (k j : K) (v : V) → get (insert m k v) j ≡ ite (dec k j) (some v) (get m j)
  pub get-remove : (m : Map) (k j : K) → get (remove m k) j ≡ ite (dec k j) none (get m j)
  pub lookup-entries : (m : Map) (k : K) → lookup dec k (entries m) ≡ get m k
  pub entries-IsKeyed : (m : Map) → IsKeyed dec (entries m)
  pub len-entries : (m : Map) → len m ≡ length (entries m)
  pub len-new : len new ≡ 0
  pub len-insert_new : (m : Map) (k : K) (v : V) → get m k ≡ none → len (insert m k v) ≡ suc (len m)
  pub len-insert_old : (m : Map) (k : K) (v w : V) → get m k ≡ some w → len (insert m k v) ≡ len m
  pub len-remove_some :
      (m : Map) (k : K) (v : V) → get m k ≡ some v → suc (len (remove m k)) ≡ len m
  pub len-remove_none : (m : Map) (k : K) → get m k ≡ none → len (remove m k) ≡ len m
  -- `retain` visits each entry once, and keeps those that the closure keeps.
  pub retain-state :
      {S : Type 0} (f : S → K → V → S × Bool) (s : S) (m : Map)
      → (retain f s m).0 ≡ (visit f s (entries m)).0
  pub get-retain :
      {S : Type 0} (f : S → K → V → S × Bool) (s : S) (m : Map) (k : K)
      → get (retain f s m).1 k ≡ lookup dec k (visit f s (entries m)).1
  pub len-retain :
      {S : Type 0} (f : S → K → V → S × Bool) (s : S) (m : Map)
      → len (retain f s m).1 ≡ length (visit f s (entries m)).1

-- What a receiver of a one-shot channel would find.
pub data Chan (A : Type 0) : Type 0 where
  unissued open_ sender_gone receiver_gone : Chan A
  sent : A → Chan A

abbrev pub after_send : {A : Type 0} → A → Chan A → Chan A
after_send v open_ = sent v
after_send v s = s

abbrev pub after_drop_sender : {A : Type 0} → Chan A → Chan A
after_drop_sender open_ = sender_gone
after_drop_sender s = s

abbrev pub after_drop_receiver : {A : Type 0} → Chan A → Chan A
after_drop_receiver unissued = unissued
after_drop_receiver _ = receiver_gone

-- `tokio::sync::oneshot`: the channels that have been made, and their two ends. The result of
-- `send` is not there, since the code drops it.
pub record Oneshot (A : Type 0) : Type 1 where
  pub Channels : Type 0
  pub Sender : Type 0
  pub Receiver : Type 0
  pub receiver_discrete : Discrete Receiver
  pub none_made : Channels
  pub channel : Channels → Channels × Sender × Receiver
  pub send : Channels → Sender → A → Channels
  pub drop_sender : Channels → Sender → Channels
  pub drop_receiver : Channels → Receiver → Channels
  -- The other end of a sender, and what is in a channel.
  pub receiver : Sender → Receiver
  pub state : Channels → Receiver → Chan A
  pub receiver-channel : (cs : Channels) → receiver (channel cs).1 ≡ (channel cs).2
  pub channel_fresh : (cs : Channels) → state cs (channel cs).2 ≡ unissued
  pub state-channel :
      (cs : Channels) (r : Receiver)
      → state (channel cs).0 r ≡ ite (receiver_discrete (channel cs).2 r) open_ (state cs r)
  pub state-send :
      (cs : Channels) (tx : Sender) (v : A) (r : Receiver)
      → state (send cs tx v) r
        ≡ ite (receiver_discrete (receiver tx) r) (after_send v (state cs r)) (state cs r)
  pub state-drop_sender :
      (cs : Channels) (tx : Sender) (r : Receiver)
      → state (drop_sender cs tx) r
        ≡ ite (receiver_discrete (receiver tx) r) (after_drop_sender (state cs r)) (state cs r)
  pub state-drop_receiver :
      (cs : Channels) (rx r : Receiver)
      → state (drop_receiver cs rx) r
        ≡ ite (receiver_discrete rx r) (after_drop_receiver (state cs r)) (state cs r)

pub record Platform (A : Type 0) : Type 1 where
  pub uuid : UuidApi
  pub oneshot : Oneshot A
  pub dashmap : (K V : Type 0) (dec : Discrete K) → DashMap K V dec
  -- `chrono::DateTime<Utc>`
  pub DateTime : Type 0
