-- ===== src/Registry/Redis/Swept.antt =====
-- What `cleanup_expired` of `RedisRegistry` leaves (server/rust/src/registry.rs).
use tcpunch.Base.{
  Name, List, [], ◌∷◌, Bool, true, false, none, some, ◌≡◌, ◌≢◌, ◌∙◌, ◌⊎◌, ℕ, ◌+◌, sym, ap, refl,
  inl, inr, map, Bool-cases, true-ne-false, ne-of-some, name_discrete,
}
use tcpunch.Platform.{Platform, after_drop_sender}
use tcpunch.Platform.Redis.{RedisApi}
use tcpunch.Protocol.{PeerConnectionData}
use tcpunch.Registry.Json.{JsonApi}
use tcpunch.Registry.Redis.{Site, Link, up, lost, reply_lost, waiter_map, pairing_key}
use tcpunch.Registry.Redis.Calls.{is_present, check_waiters, cleanup_expired}
use tcpunch.Registry.Redis.Cleanup.{
  IsIn, IsIn-keys, IsApart, dropped, is_present-store, is_present_down, get-dropped_self,
  get-dropped_ne, get-dropped_cases, dropped-IsApart, state-dropped, state-dropped_self,
  check_induction, check_present, check_absent,
}

module _ (P : Platform PeerConnectionData) (R : RedisApi) (J : JsonApi P)
    (links : Name → Link) where
  open P use {oneshot.{Sender, Receiver, receiver, state}}
  open waiter_map P R J use {get as get_waiter, entries as waiter_entries}

  abbrev pub present : Site P R J → Name → Bool
  present s n = is_present P R J (links n) n s

  -- No waiter listens to a channel.
  abbrev IsFree : Site P R J → Receiver → Type 0
  IsFree s r =
      (m : Name) (ty : Sender) → get_waiter s.registry.local_waiters m ≡ some ty → receiver ty ≢ r

  module _ (s₀ : Site P R J) (n : Name) (tx : Sender) where
    -- The waiter is as it was.
    abbrev Kept : Site P R J → Type 0
    Kept s =
        (get_waiter s.registry.local_waiters n ≡ some tx)
        × (state s.registry.channels (receiver tx) ≡ state s₀.registry.channels (receiver tx))

    -- Its key is missing, and it has been dropped.
    abbrev Gone : Site P R J → Type 0
    Gone s =
        (present s₀ n ≡ false)
        × (get_waiter s.registry.local_waiters n ≡ none)
        × (state s.registry.channels (receiver tx)
            ≡ after_drop_sender (state s₀.registry.channels (receiver tx)))
        × IsFree s (receiver tx)

    abbrev Along : Site P R J → Type 0
    Along s = (s.store ≡ s₀.store) × IsApart P R J s × (Kept s ⊎ Gone s)

    Kept-step :
        (s : Site P R J) (name : Name)
        → present s name ≡ false
        → s.store ≡ s₀.store
        → IsApart P R J s
        → Kept s
        → Kept (dropped P R J s name) ⊎ Gone (dropped P R J s name)
    Kept-step s name gone same a (held, st) = elim (name_discrete name n) [
      | yes e ↦ inr (
        sym (is_present-store P R J (links n) n s₀ s same) ∙ ap (present s) (sym e) ∙ gone,
        ap (get_waiter (dropped P R J s name).registry.local_waiters) (sym e)
            ∙ get-dropped_self P R J s name,
        state-dropped_self P R J s name tx (ap (get_waiter s.registry.local_waiters) e ∙ held)
            ∙ ap after_drop_sender st,
        λ m ty h q.
            let (other, h') = get-dropped_cases P R J s name m ty h in
            other (e ∙ sym (a m n ty tx h' held q)),
      )
      | no other ↦ inl (
        get-dropped_ne P R J s name n other ∙ held,
        state-dropped P R J s name (receiver tx) (λ ty h q. other (a name n ty tx h held q)) ∙ st,
      )
    ]

    Gone-step : (s : Site P R J) (name : Name) → Gone s → Gone (dropped P R J s name)
    Gone-step s name (missing, none_left, st, free) = (
      missing,
      (elim (name_discrete name n) [
        | yes e ↦
            ap (get_waiter (dropped P R J s name).registry.local_waiters) (sym e)
            ∙ get-dropped_self P R J s name
        | no other ↦ get-dropped_ne P R J s name n other ∙ none_left
      ]),
      state-dropped P R J s name (receiver tx) (λ ty h. free name ty h) ∙ st,
      λ m ty h. free m ty (get-dropped_cases P R J s name m ty h).1,
    )

    along :
        (names : List Name) (c : ℕ)
        → IsApart P R J s₀
        → get_waiter s₀.registry.local_waiters n ≡ some tx
        → Along (check_waiters P R J links names s₀ c).0
    along names c a held =
        check_induction P R J links Along
          (λ s name gone (same, apart, was).
            (same, dropped-IsApart P R J s name apart, step s name gone same apart was))
          names s₀ c (refl, a, inl (held, refl))
      where
        step :
            (s : Site P R J) (name : Name)
            → present s name ≡ false
            → s.store ≡ s₀.store
            → IsApart P R J s
            → Kept s ⊎ Gone s
            → Kept (dropped P R J s name) ⊎ Gone (dropped P R J s name)
        step s name gone same apart (inl k) = Kept-step s name gone same apart k
        step s name gone same apart (inr g) = inr (Gone-step s name g)

  removed :
      (n : Name) (names : List Name) (s : Site P R J) (c : ℕ)
      → IsIn n names
      → present s n ≡ false
      → get_waiter (check_waiters P R J links names s c).0.registry.local_waiters n ≡ none
  removed n [] s c h gone = absurd h
  removed n (m ∷ ms) s c (inl e) gone =
      rw (check_absent P R J links m ms s c (ap (present s) e ∙ gone)) (
        check_induction P R J links (λ t. get_waiter t.registry.local_waiters n ≡ none)
          (λ t name _ h. elim (name_discrete name n) [
            | yes q ↦
                ap (get_waiter (dropped P R J t name).registry.local_waiters) (sym q)
                ∙ get-dropped_self P R J t name
            | no other ↦ get-dropped_ne P R J t name n other ∙ h
          ])
          ms (dropped P R J s m) (c + 1)
          (ap (get_waiter (dropped P R J s m).registry.local_waiters) (sym e)
            ∙ get-dropped_self P R J s m))
  removed n (m ∷ ms) s c (inr h) gone = elim (Bool-cases (present s m)) [
    | inl here ↦ rw (check_present P R J links m ms s c here) (removed n ms s c h gone)
    | inr missing ↦ rw (check_absent P R J links m ms s c missing) (
        removed n ms (dropped P R J s m) (c + 1) h
          (is_present-store P R J (links n) n s (dropped P R J s m) refl ∙ gone))
  ]

  -- What `EXISTS` answers is about the key of the entry.
  is_present_stored :
      (link : Link) (n : Name) (s : Site P R J) (text : Name)
      → link ≡ up
      → R.get s.store (pairing_key n) ≡ some text
      → is_present P R J link n s ≡ true
  unfolding is_present
  is_present_stored up n s text answered stored = R.exists-some s.store (pairing_key n) text stored
  is_present_stored lost n s text answered stored = absurd cc
  is_present_stored reply_lost n s text answered stored = absurd cc

  is_present_missing :
      (link : Link) (n : Name) (s : Site P R J)
      → (R.get s.store (pairing_key n) ≡ none) ⊎ (link ≢ up)
      → is_present P R J link n s ≡ false
  unfolding is_present
  is_present_missing link n s (inr down) = is_present_down P R J link n s down
  is_present_missing up n s (inl absent) = R.exists-none s.store (pairing_key n) absent
  is_present_missing lost n s (inl absent) = refl
  is_present_missing reply_lost n s (inl absent) = refl

  module _ (s : Site P R J) (a : IsApart P R J s) where
    abbrev pub after : Site P R J
    after = (cleanup_expired P R J links s).0

    -- On a server of which no two waiters share a channel, whatever the store holds: a waiter whose entry
    -- is in the store, and whose question is answered, is kept, with its channel; one whose entry is not
    -- there, or whose question fails, is removed, and its channel is closed. The store is left alone.
    pub redis_cleanup_lem :
        ((n : Name) (tx : Sender) (text : Name)
          → get_waiter s.registry.local_waiters n ≡ some tx
          → R.get s.store (pairing_key n) ≡ some text
          → links n ≡ up
          → (get_waiter after.registry.local_waiters n ≡ some tx)
            × (state after.registry.channels (receiver tx)
                ≡ state s.registry.channels (receiver tx)))
        × ((n : Name) (tx : Sender)
            → get_waiter s.registry.local_waiters n ≡ some tx
            → (R.get s.store (pairing_key n) ≡ none) ⊎ (links n ≢ up)
            → (get_waiter after.registry.local_waiters n ≡ none)
              × (state after.registry.channels (receiver tx)
                  ≡ after_drop_sender (state s.registry.channels (receiver tx))))
        × (after.store ≡ s.store)
    unfolding cleanup_expired
    redis_cleanup_lem = (
      λ n tx text held stored answered.
          kept n tx (is_present_stored (links n) n s text answered stored)
            (along s n tx names 0 a held),
      λ n tx held missing.
          gone n tx held (is_present_missing (links n) n s missing) (along s n tx names 0 a held),
      check_induction P R J links (λ t. t.store ≡ s.store) (λ t name _ e. e) names s 0 refl,
    )
      where
        names : List Name
        names = map (λ e. e.0) (waiter_entries s.registry.local_waiters)

        kept :
            (n : Name) (tx : Sender) → present s n ≡ true → Along s n tx after → Kept s n tx after
        kept n tx here (_, _, inl k) = k
        kept n tx here (_, _, inr g) = absurd (true-ne-false (sym here ∙ g.0))

        gone :
            (n : Name) (tx : Sender)
            → get_waiter s.registry.local_waiters n ≡ some tx
            → present s n ≡ false
            → Along s n tx after
            → (get_waiter after.registry.local_waiters n ≡ none)
              × (state after.registry.channels (receiver tx)
                  ≡ after_drop_sender (state s.registry.channels (receiver tx)))
        gone n tx held missing (_, _, inl k) = absurd (
            ne-of-some
              (removed n names s 0
                (IsIn-keys n tx (waiter_entries s.registry.local_waiters)
                  ((waiter_map P R J).lookup-entries s.registry.local_waiters n ∙ held))
                missing)
              k.0)
        gone n tx held missing (_, _, inr g) = (g.1, g.2)
