-- ===== src/Platform/Slots.antt =====
-- One-shot channels in a list: a value of the `Oneshot` interface, for the tests.
use tcpunch.Base.{
  refl, [], ◌∷◌, zero, suc, List, ℕ, length, ◌++◌, get_or, ℕ_discrete, ◌≢◌, ◌≡◌, ap, ite, sym, ◌∙◌,
  if_pos, if_neg,
}
use tcpunch.Platform.{
  Oneshot, Chan, unissued, open_, after_send, after_drop_sender, after_drop_receiver,
}

module _ {A : Type 0} where
  abbrev pub chan_at : List (Chan A) → ℕ → Chan A
  chan_at cs r = get_or cs r unissued

  abbrev pub change : (Chan A → Chan A) → List (Chan A) → ℕ → List (Chan A)
  change f [] r = []
  change f (c ∷ cs) zero = f c ∷ cs
  change f (c ∷ cs) (suc r) = c ∷ change f cs r

  pub chan_at-new : (cs : List (Chan A)) → chan_at cs (length cs) ≡ unissued
  chan_at-new [] = refl
  chan_at-new (c ∷ cs) = chan_at-new cs

  chan_at-append_self : (cs : List (Chan A)) → chan_at (cs ++ open_ ∷ []) (length cs) ≡ open_
  chan_at-append_self [] = refl
  chan_at-append_self (c ∷ cs) = chan_at-append_self cs

  chan_at-append_ne :
      (cs : List (Chan A)) (r : ℕ) → length cs ≢ r → chan_at (cs ++ open_ ∷ []) r ≡ chan_at cs r
  chan_at-append_ne [] zero h = absurd (h refl)
  chan_at-append_ne [] (suc r) h = refl
  chan_at-append_ne (c ∷ cs) zero h = refl
  chan_at-append_ne (c ∷ cs) (suc r) h = chan_at-append_ne cs r (λ e. h (ap suc e))

  pub chan_at-append :
      (cs : List (Chan A)) (r : ℕ)
      → chan_at (cs ++ open_ ∷ []) r ≡ ite (ℕ_discrete (length cs) r) open_ (chan_at cs r)
  chan_at-append cs r = elim (ℕ_discrete (length cs) r) [
    | yes p ↦
        rw (← p)
          (chan_at-append_self cs ∙ sym (if_pos (ℕ_discrete (length cs) (length cs)) refl _ _))
    | no p ↦ chan_at-append_ne cs r p ∙ sym (if_neg (ℕ_discrete (length cs) r) p _ _)
  ]

  chan_at-change_self :
      (f : Chan A → Chan A) (cs : List (Chan A)) (r : ℕ)
      → f unissued ≡ unissued
      → chan_at (change f cs r) r ≡ f (chan_at cs r)
  chan_at-change_self f [] zero h = sym h
  chan_at-change_self f [] (suc r) h = sym h
  chan_at-change_self f (c ∷ cs) zero h = refl
  chan_at-change_self f (c ∷ cs) (suc r) h = chan_at-change_self f cs r h

  chan_at-change_ne :
      (f : Chan A → Chan A) (cs : List (Chan A)) (i r : ℕ)
      → i ≢ r
      → chan_at (change f cs i) r ≡ chan_at cs r
  chan_at-change_ne f [] i r h = refl
  chan_at-change_ne f (c ∷ cs) zero zero h = absurd (h refl)
  chan_at-change_ne f (c ∷ cs) zero (suc r) h = refl
  chan_at-change_ne f (c ∷ cs) (suc i) zero h = refl
  chan_at-change_ne f (c ∷ cs) (suc i) (suc r) h = chan_at-change_ne f cs i r (λ e. h (ap suc e))

  pub chan_at-change :
      (f : Chan A → Chan A) (cs : List (Chan A)) (i r : ℕ)
      → f unissued ≡ unissued
      → chan_at (change f cs i) r ≡ ite (ℕ_discrete i r) (f (chan_at cs r)) (chan_at cs r)
  chan_at-change f cs i r h = elim (ℕ_discrete i r) [
    | yes p ↦ rw p (chan_at-change_self f cs r h ∙ sym (if_pos (ℕ_discrete r r) refl _ _))
    | no p ↦ chan_at-change_ne f cs i r p ∙ sym (if_neg (ℕ_discrete i r) p _ _)
  ]

abbrev pub slot_channels : (A : Type 0) → Oneshot A
slot_channels A = record {
  Channels = List (Chan A);
  Sender = ℕ;
  Receiver = ℕ;
  receiver_discrete = ℕ_discrete;
  none_made = [];
  channel = λ cs. (cs ++ open_ ∷ [], length cs, length cs);
  send = λ cs tx v. change (after_send v) cs tx;
  drop_sender = λ cs tx. change after_drop_sender cs tx;
  drop_receiver = λ cs rx. change after_drop_receiver cs rx;
  receiver = λ tx. tx;
  state = chan_at;
  receiver-channel = λ cs. refl;
  channel_fresh = chan_at-new;
  state-channel = chan_at-append;
  state-send = λ cs tx v r. chan_at-change (after_send v) cs tx r refl;
  state-drop_sender = λ cs tx r. chan_at-change after_drop_sender cs tx r refl;
  state-drop_receiver = λ cs rx r. chan_at-change after_drop_receiver cs rx r refl;
}
