-- ===== src/Registry/InMemory/Ticker.antt =====
-- The cleanup task of `InMemoryRegistry` beside the calls of the connections, by the clock
-- (server/rust/src/registry.rs).
use tcpunch.Registry.InMemory.Branches.{unregister_absent, unregister_found}
use tcpunch.Base.{
  ℕ, Name, Option, none, some, inl, inr, ◌≡◌, ◌∙◌, ◌≤◌, ◌+◌, refl, sym, ap, subst, arith,
  none-ne-some, ◌⊎◌, false, Option-cases,
}
use tcpunch.Platform.{Platform}
use tcpunch.Platform.Maps.{get-insert_cases, get-remove_cases}
use tcpunch.Protocol.{PeerConnectionData}
use tcpunch.Registry.{RegistryConfig}
use tcpunch.Registry.InMemory.{
  InMemoryRegistry, PairingEntry, Draw, pairing_map, token_map, new, register, unregister,
  cleanup_expired, refresh, register_first, first_entry, complete_pairing, is_expired,
}
use tcpunch.Registry.InMemory.Cleanup.{kept_cases, cleanup_expired-Inv}
use tcpunch.Registry.InMemory.Fade.{Shrinks-unregister}
use tcpunch.Registry.InMemory.History as History
use tcpunch.Registry.InMemory.Invariant.{Inv, new-Inv}
use tcpunch.Registry.InMemory.Register.{register_cases, register-Inv, unregister-Inv}

module _ (P : Platform PeerConnectionData) (config : RegistryConfig) where
  open P use {uuid.{Uuid}, oneshot.{Channels, Receiver, channel, drop_receiver}}
  open pairing_map P use {get as get_pairing}

  -- The registry at an instant, with the instant of the ticker's last tick. The first tick is at once,
  -- and then there is one each interval; the calls and the passing of time come between two ticks.
  pub data Ticked : (last now : ℕ) → InMemoryRegistry P → Type 0 where
    opens : (now : ℕ) (cs : Channels) → Ticked now now (new P config cs)
    ticks :
        {last now : ℕ} {r : InMemoryRegistry P} (later : ℕ)
        → Ticked last now r
        → now ≤ later
        → later ≤ last + config.cleanup_interval
        → Ticked later later (cleanup_expired P r later).0
    passes :
        {last now : ℕ} {r : InMemoryRegistry P} (later : ℕ)
        → Ticked last now r
        → now ≤ later
        → later ≤ last + config.cleanup_interval
        → Ticked last later r
    registers :
        {last now : ℕ} {r : InMemoryRegistry P} (name : Name) (info : PeerConnectionData)
        (token : Option Uuid) (draw : Draw P)
        → Ticked last now r
        → draw.now ≡ now
        → (token_map P).get r.tokens draw.token ≡ none
        → Ticked last now (register P r name info token draw).0
    unregisters :
        {last now : ℕ} {r : InMemoryRegistry P} (name : Name) (token : Uuid)
        → Ticked last now r
        → Ticked last now (unregister P r name token).0
    hangs_up :
        {last now : ℕ} {r : InMemoryRegistry P} (rx : Receiver)
        → Ticked last now r
        → Ticked last now (record r { channels = drop_receiver r.channels rx })

  -- Each entry has been made by now, and had not expired at the last tick.
  pub record Timely (last now : ℕ) (r : InMemoryRegistry P) : Type 0 where
    pub inv : Inv P r
    pub same_config : r.config ≡ config
    pub recent : now ≤ last + config.cleanup_interval
    pub ordered : last ≤ now
    pub made :
        (n : Name) (e : PairingEntry P) → get_pairing r.pairings n ≡ some e → e.created_at ≤ now
    pub young :
        (n : Name) (e : PairingEntry P)
        → get_pairing r.pairings n ≡ some e
        → last ≤ e.created_at + config.pairing_timeout

  register-made :
      (r : InMemoryRegistry P) (v : Inv P r) (name : Name) (info : PeerConnectionData)
      (token : Option Uuid) (draw : Draw P) (n : Name) (e : PairingEntry P)
      → get_pairing (register P r name info token draw).0.pairings n ≡ some e
      → (e.created_at ≡ draw.now)
        ⊎ ((f : PairingEntry P) × (get_pairing r.pairings n ≡ some f)
            × (e.created_at ≡ f.created_at))
  unfolding refresh register_first first_entry complete_pairing
  register-made r v name info token draw n e =
      register_cases P r v
        (λ x.
          get_pairing x.0.pairings n ≡ some e
          → (e.created_at ≡ draw.now)
            ⊎ ((f : PairingEntry P) × (get_pairing r.pairings n ≡ some f)
                × (e.created_at ≡ f.created_at)))
        name info token draw
        (λ f stored same h. elim (get-insert_cases (pairing_map P) r.pairings name n _ e h) [
          | inl (a, b) ↦ inr (f, rw (← a) stored, ap (λ (x : PairingEntry P). x.created_at) (sym b))
          | inr (ne, h') ↦ inr (e, h', refl)
        ])
        (λ f stored other h.
          inr (e, (get-remove_cases (pairing_map P) r.pairings name n e h).1, refl))
        (λ absent h. elim (get-insert_cases (pairing_map P) r.pairings name n _ e h) [
          | inl (a, b) ↦ inl (ap (λ (x : PairingEntry P). x.created_at) (sym b))
          | inr (ne, h') ↦ inr (e, h', refl)
        ])

  register-config :
      (r : InMemoryRegistry P) (v : Inv P r) (name : Name) (info : PeerConnectionData)
      (token : Option Uuid) (draw : Draw P)
      → (register P r name info token draw).0.config ≡ r.config
  unfolding register_first complete_pairing
  register-config r v name info token draw =
      register_cases P r v (λ x. x.0.config ≡ r.config) name info token draw (λ f stored same. refl)
        (λ f stored other. refl) (λ absent. refl)

  cleanup_expired-config :
      (r : InMemoryRegistry P) (now : ℕ) → (cleanup_expired P r now).0.config ≡ r.config
  unfolding cleanup_expired
  cleanup_expired-config r now = refl

  unregister-config :
      (r : InMemoryRegistry P) (name : Name) (token : Uuid)
      → (unregister P r name token).0.config ≡ r.config
  unregister-config r name token = elim (Option-cases (get_pairing r.pairings name)) [
    | inl absent ↦ rw (unregister_absent P r name token absent)
    | inr (e, stored) ↦ rw (unregister_found P r name e token stored)
  ]

  young-age :
      (timeout now : ℕ) (e : PairingEntry P)
      → is_expired P timeout now e ≡ false
      → now ≤ e.created_at + timeout
  unfolding is_expired
  young-age timeout now e h = ground arith

  pub Ticked-Timely :
      {last now : ℕ} {r : InMemoryRegistry P} → Ticked last now r → Timely last now r
  unfolding new
  Ticked-Timely (opens now cs) = record {
    inv = unfold new in new-Inv P config cs;
    same_config = refl;
    recent = omega arith;
    ordered = omega arith;
    made = λ n e h. absurd (none-ne-some (sym ((pairing_map P).get-new n) ∙ h));
    young = λ n e h. absurd (none-ne-some (sym ((pairing_map P).get-new n) ∙ h));
  }
  Ticked-Timely (ticks {r} later history from to) =
      let v = Ticked-Timely history in
      record {
        inv = cleanup_expired-Inv P r later v.inv;
        same_config = cleanup_expired-config r later ∙ v.same_config;
        recent = omega arith;
        ordered = omega arith;
        made = λ n e h.
            let old = v.made n e (kept_cases P r later n e h).0 in omega (arith, old, from);
        young = λ n e h.
            subst (λ (c : RegistryConfig). later ≤ e.created_at + c.pairing_timeout) v.same_config
              (young-age r.config.pairing_timeout later e (kept_cases P r later n e h).1);
      }
  Ticked-Timely (passes later history from to) =
      let v = Ticked-Timely history in
      record {
        inv = v.inv;
        same_config = v.same_config;
        recent = to;
        ordered = omega (arith, v.ordered, from);
        made = λ n e h. omega (arith, v.made n e h, from);
        young = v.young;
      }
  Ticked-Timely (registers {last} {now} {r} name info token draw history at fresh) =
      let v = Ticked-Timely history in
      record {
        inv = register-Inv P r v.inv name info token draw fresh;
        same_config = register-config r v.inv name info token draw ∙ v.same_config;
        recent = v.recent;
        ordered = v.ordered;
        made = λ n e h. elim (register-made r v.inv name info token draw n e h) [
          | inl q ↦ omega (arith, q, at)
          | inr (f, k, q) ↦ omega (arith, q, v.made n f k)
        ];
        young = λ n e h. elim (register-made r v.inv name info token draw n e h) [
          | inl q ↦ omega (arith, q, at, v.ordered)
          | inr (f, k, q) ↦ omega (arith, q, v.young n f k)
        ];
      }
  Ticked-Timely (unregisters {last} {now} {r} name token history) =
      let v = Ticked-Timely history in
      let s = Shrinks-unregister P r name token in
      record {
        inv = unregister-Inv P r v.inv name token;
        same_config = unregister-config r name token ∙ v.same_config;
        recent = v.recent;
        ordered = v.ordered;
        made = λ n e h. v.made n e (s.entries n e h);
        young = λ n e h. v.young n e (s.entries n e h);
      }
  Ticked-Timely (hangs_up {last} {now} {r} rx history) =
      let v = Ticked-Timely history in
      record {
        inv = History.Step-Inv P (History.hangs_up r rx) v.inv;
        same_config = v.same_config;
        recent = v.recent;
        ordered = v.ordered;
        made = v.made;
        young = v.young;
      }

  -- No entry outlives the pairing timeout and one interval of the cleanup. In any history of calls on a
  -- new registry whose cleanup ticks at once and then again before an interval has passed, and in which
  -- each fresh token is one that the index does not know, every entry has been made by now, and now is
  -- no later than its creation, the timeout and the interval added up.
  pub entry_age_bounded :
      {last now : ℕ} {r : InMemoryRegistry P}
      → Ticked last now r
      → (n : Name) (e : PairingEntry P) → get_pairing r.pairings n ≡ some e
      → (e.created_at ≤ now)
        × (now ≤ e.created_at + config.pairing_timeout + config.cleanup_interval)
  entry_age_bounded history n e h =
      let v = Ticked-Timely history in (v.made n e h, omega (arith, v.young n e h, v.recent))
