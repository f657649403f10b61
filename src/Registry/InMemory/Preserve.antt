-- ===== src/Registry/InMemory/Preserve.antt =====
-- Every call of `InMemoryRegistry` keeps its invariant (server/rust/src/registry.rs).
use tcpunch.Platform.Maps.{get-remove_cases, get-insert_cases}
use tcpunch.Base.{some, inl, inr, Name, ◌≡◌, ◌≢◌, ◌⊎◌, arith, subst, sym, ap, some-injective, ◌∙◌}
use tcpunch.Platform.{Platform, unissued, Chan}
use tcpunch.Protocol.{PeerConnectionData}
use tcpunch.Registry.InMemory.{InMemoryRegistry, PairingEntry, pairing_map, token_map}
use tcpunch.Registry.InMemory.Invariant.{Inv, IsPending, token_of}

pub IsPending-ne-unissued : {A : Type 0} (c : Chan A) → IsPending c → c ≢ unissued
IsPending-ne-unissued c (inl e) u = ground arith
IsPending-ne-unissued c (inr e) u = ground arith

module _ (P : Platform PeerConnectionData) where
  open P use {uuid.{Uuid, uuid_discrete}, oneshot.{Channels, Sender, Receiver, receiver, state}}
  open pairing_map P use {get as get_pairing, insert as insert_pairing, remove as remove_pairing}
  open token_map P use {Map as Tokens, get as get_token}

  -- What a call leaves of the entries under other names than `n₀`.
  pub record Others (r : InMemoryRegistry P) (n₀ : Name) (tokens : Tokens) (channels : Channels)
      : Type 0 where
    pub kept_index :
        (n : Name) (e : PairingEntry P)
        → n₀ ≢ n
        → get_pairing r.pairings n ≡ some e
        → get_token tokens (token_of P e) ≡ some n
    pub kept_state :
        (n : Name) (e : PairingEntry P) (tx : Sender)
        → n₀ ≢ n
        → get_pairing r.pairings n ≡ some e
        → e.notify_tx ≡ some tx
        → state channels (receiver tx) ≡ state r.channels (receiver tx)

  -- Taking the entry of `n₀` away keeps the invariant, if the other entries are left alone.
  pub remove-Inv :
      (r : InMemoryRegistry P) (n₀ : Name) (tokens : Tokens) (channels : Channels)
      → Inv P r
      → Others r n₀ tokens channels
      → Inv P (record r {
        pairings = remove_pairing r.pairings n₀;
        tokens = tokens;
        channels = channels;
      })
  remove-Inv r n₀ tokens channels v o = record {
    indexed = λ n e h.
        let (ne, h') = get-remove_cases (pairing_map P) r.pairings n₀ n e h in
        o.kept_index n e ne h';
    pending = λ n e h.
        let (ne, h') = get-remove_cases (pairing_map P) r.pairings n₀ n e h in
        let (tx, held, p) = v.pending n e h' in
        (tx, held, subst IsPending (sym (o.kept_state n e tx ne h' held)) p);
    apart = λ n m e f tx ty h k.
        v.apart n m e f tx ty (get-remove_cases (pairing_map P) r.pairings n₀ n e h).1
          (get-remove_cases (pairing_map P) r.pairings n₀ m f k).1;
  }

  -- Storing an entry under `n₀` keeps it too, if the entry is indexed and its channel is pending
  -- and its own.
  pub insert-Inv :
      (r : InMemoryRegistry P) (n₀ : Name) (e₀ : PairingEntry P) (tx₀ : Sender) (tokens : Tokens)
      (channels : Channels)
      → Inv P r
      → Others r n₀ tokens channels
      → get_token tokens (token_of P e₀) ≡ some n₀
      → e₀.notify_tx ≡ some tx₀
      → IsPending (state channels (receiver tx₀))
      → ((r' : Receiver) → IsPending (state r.channels r') → receiver tx₀ ≢ r')
      → Inv P (record r {
        pairings = insert_pairing r.pairings n₀ e₀;
        tokens = tokens;
        channels = channels;
      })
  insert-Inv r n₀ e₀ tx₀ tokens channels v o i held p own = record {
    indexed = λ n e h. elim (cases n e h) [
      | inl (a, b) ↦ subst (λ x. get_token tokens (token_of P x) ≡ some n) b (i ∙ ap some a)
      | inr (ne, h') ↦ o.kept_index n e ne h'
    ];
    pending = λ n e h. elim (cases n e h) [
      | inl (a, b) ↦
          subst
            (λ (x : PairingEntry P).
              (tx : Sender) × (x.notify_tx ≡ some tx) × IsPending (state channels (receiver tx)))
            b (tx₀, held, p)
      | inr (ne, h') ↦
          let (tx, held', p') = v.pending n e h' in
          (tx, held', subst IsPending (sym (o.kept_state n e tx ne h' held')) p')
    ];
    apart = λ n m e f tx ty h k q s same. elim (cases n e h) [
      | inl (a, b) ↦ elim (cases m f k) [
        | inl (c, d) ↦ sym a ∙ c
        | inr (ne, k') ↦ absurd (own (receiver ty) (is_pending m f ty k' s) (mine e tx b q ∙ same))
      ]
      | inr (ne, h') ↦ elim (cases m f k) [
        | inl (c, d) ↦
            absurd (own (receiver tx) (is_pending n e tx h' q) (mine f ty d s ∙ sym same))
        | inr (ne', k') ↦ v.apart n m e f tx ty h' k' q s same
      ]
    ];
  }
    where
      cases :
          (n : Name) (e : PairingEntry P)
          → get_pairing (insert_pairing r.pairings n₀ e₀) n ≡ some e
          → ((n₀ ≡ n) × (e₀ ≡ e)) ⊎ ((n₀ ≢ n) × (get_pairing r.pairings n ≡ some e))
      cases n e h = get-insert_cases (pairing_map P) r.pairings n₀ n e₀ e h

      mine :
          (e : PairingEntry P) (tx : Sender)
          → e₀ ≡ e
          → e.notify_tx ≡ some tx
          → receiver tx₀ ≡ receiver tx
      mine e tx b q =
          ap receiver
            (some-injective tx₀ tx (sym held ∙ ap (λ (x : PairingEntry P). x.notify_tx) b ∙ q))

      is_pending :
          (n : Name) (e : PairingEntry P) (tx : Sender)
          → get_pairing r.pairings n ≡ some e
          → e.notify_tx ≡ some tx
          → IsPending (state r.channels (receiver tx))
      is_pending n e tx h q =
          let (tx', held', p') = v.pending n e h in
          subst (λ x. IsPending (state r.channels (receiver x)))
            (some-injective tx' tx (sym held' ∙ q)) p'
