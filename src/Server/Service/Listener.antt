-- ===== src/Server/Service/Listener.antt =====
-- A connection that listens to a channel of the in-memory registry, across the calls of the others
-- (server/rust/src/server.rs and registry.rs).
use tcpunch.Base.{Name, some, inl, inr, ◌≡◌, ◌≢◌, ◌∙◌, sym, subst, Occurs, if_pos, if_neg}
use tcpunch.Platform.{
  Platform, Chan, unissued, open_, sender_gone, receiver_gone, sent, after_drop_receiver,
}
use tcpunch.Protocol.{PeerConnectionData}
use tcpunch.Registry.InMemory.{InMemoryRegistry, PairingEntry, pairing_map}
use tcpunch.Registry.InMemory.Fade.{Fades, Shrinks}
use tcpunch.Server.Service.{Requests}

-- No address is sent, and the channel does not become a new one.
abbrev pub Calms : {A : Type 0} → Chan A → Chan A → Type 0
Calms {A} c d = (c ≢ unissued → d ≢ unissued) × ((p : A) → d ≡ sent p → c ≡ sent p)

module _ {A : Type 0} where
  pub Calms-Fades : (c d : Chan A) → Fades c d → Calms c d
  Calms-Fades c d (inl e) = (λ h k. h (sym e ∙ k), λ p h. sym e ∙ h)
  Calms-Fades c d (inr (o, g)) = (λ h k. cc, λ p h. absurd (gone-ne-sent p (sym g ∙ h)))
    where
      gone-ne-sent : (p : A) → ¬ (◌≡◌ {A = Chan A} sender_gone (sent p))
      gone-ne-sent p e = cc

  pub Calms-after_drop_receiver : (c : Chan A) → Calms c (after_drop_receiver c)
  Calms-after_drop_receiver unissued = (λ h k. h k, λ p h. h)
  Calms-after_drop_receiver open_ = (λ h k. cc, λ p h. absurd (cc))
  Calms-after_drop_receiver sender_gone = (λ h k. cc, λ p h. absurd (cc))
  Calms-after_drop_receiver receiver_gone = (λ h k. cc, λ p h. absurd (cc))
  Calms-after_drop_receiver (sent a) = (λ h k. cc, λ p h. absurd (cc))

module _ (P : Platform PeerConnectionData) where
  open P use {
    oneshot.{Channels, Sender, Receiver, receiver, receiver_discrete, state, drop_receiver},
  }
  open pairing_map P use {get as get_pairing}

  -- Each entry is of a request of its name.
  abbrev pub Entries : Requests → InMemoryRegistry P → Type 0
  Entries seen r =
      (n : Name) (e : PairingEntry P)
      → get_pairing r.pairings n ≡ some e
      → Occurs (n, e.waiting_client.connection_info) seen

  -- A connection that has asked for the name from the address listens to the receiver: its channel has
  -- been made, what it is sent is the address of a request of the name, and an entry that can send to
  -- it is of the name and has the connection's address.
  pub record Listener (seen : Requests) (r : InMemoryRegistry P) (name : Name)
      (info : PeerConnectionData) (rx : Receiver) : Type 0 where
    pub made : state r.channels rx ≢ unissued
    pub own : Occurs (name, info) seen
    pub told : (p : PeerConnectionData) → state r.channels rx ≡ sent p → Occurs (name, p) seen
    pub under :
        (n : Name) (e : PairingEntry P) (tx : Sender)
        → get_pairing r.pairings n ≡ some e
        → e.notify_tx ≡ some tx
        → receiver tx ≡ rx
        → (n ≡ name) × (e.waiting_client.connection_info ≡ info)

  -- More requests may have been seen, no entry is new, and the channels calm.
  pub record Subsides (seen : Requests) (r : InMemoryRegistry P) (seen' : Requests)
      (r' : InMemoryRegistry P) : Type 0 where
    pub grows : (x : Name × PeerConnectionData) → Occurs x seen → Occurs x seen'
    pub entries :
        (n : Name) (e : PairingEntry P)
        → get_pairing r'.pairings n ≡ some e
        → get_pairing r.pairings n ≡ some e
    pub channels : (rx : Receiver) → Calms (state r.channels rx) (state r'.channels rx)

  module _ {seen : Requests} {r : InMemoryRegistry P} {seen' : Requests}
      {r' : InMemoryRegistry P} where
    pub Entries-Subsides : Subsides seen r seen' r' → Entries seen r → Entries seen' r'
    Entries-Subsides c h n e k = c.grows _ (h n e (c.entries n e k))

    pub Listener-Subsides :
        {name : Name} {info : PeerConnectionData} {rx : Receiver}
        → Subsides seen r seen' r'
        → Listener seen r name info rx
        → Listener seen' r' name info rx
    Listener-Subsides {rx} c l = record {
      made = (c.channels rx).0 l.made;
      own = c.grows _ l.own;
      told = λ p h. c.grows _ (l.told p ((c.channels rx).1 p h));
      under = λ n e tx h. l.under n e tx (c.entries n e h);
    }

  pub Subsides-refl : (seen : Requests) (r : InMemoryRegistry P) → Subsides seen r seen r
  Subsides-refl seen r = record {
    grows = λ x h. h;
    entries = λ n e h. h;
    channels = λ rx. (λ h. h, λ p h. h);
  }

  pub Subsides-Shrinks :
      (seen : Requests) (r r' : InMemoryRegistry P) → Shrinks P r r' → Subsides seen r seen r'
  Subsides-Shrinks seen r r' s = record {
    grows = λ x h. h;
    entries = s.entries;
    channels = λ rx. Calms-Fades (state r.channels rx) (state r'.channels rx) (s.channels rx);
  }

  pub Subsides-trans :
      {seen seen' seen'' : Requests} {r r' r'' : InMemoryRegistry P}
      → Subsides seen r seen' r'
      → Subsides seen' r' seen'' r''
      → Subsides seen r seen'' r''
  Subsides-trans a b = record {
    grows = λ x h. b.grows x (a.grows x h);
    entries = λ n e h. a.entries n e (b.entries n e h);
    channels = λ rx. (
      λ h. (b.channels rx).0 ((a.channels rx).0 h),
      λ p h. (a.channels rx).1 p ((b.channels rx).1 p h),
    );
  }

  -- A connection that hangs up.
  abbrev pub hung_up : InMemoryRegistry P → Receiver → InMemoryRegistry P
  hung_up r rx = record r { channels = drop_receiver r.channels rx }

  pub Subsides-hang_up :
      (seen : Requests) (r : InMemoryRegistry P) (rx : Receiver)
      → Subsides seen r seen (hung_up r rx)
  Subsides-hang_up seen r rx = record {
    grows = λ x h. h;
    entries = λ n e h. h;
    channels = λ ry. elim (receiver_discrete rx ry) [
      | yes same ↦
          subst (Calms (state r.channels ry))
            (sym (
              P.oneshot.state-drop_receiver r.channels rx ry
              ∙ if_pos (receiver_discrete rx ry) same _ _))
            (Calms-after_drop_receiver (state r.channels ry))
      | no other ↦
          subst (Calms (state r.channels ry))
            (sym (
              P.oneshot.state-drop_receiver r.channels rx ry
              ∙ if_neg (receiver_discrete rx ry) other _ _))
            (λ h. h, λ p h. h)
    ];
  }
