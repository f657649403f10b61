-- ===== src/Platform/Channels.antt =====
-- Laws of one-shot channels, derived from the documented ones of `Platform`.
use tcpunch.Base.{refl, ◌≢◌, ◌≡◌, ◌∙◌, subst, if_pos, if_neg}
use tcpunch.Platform.{Oneshot, unissued, open_, after_send, after_drop_sender}

module _ {A : Type 0} (O : Oneshot A) where
  open O use {
    Channels, Sender, Receiver, receiver_discrete, channel, send, drop_sender, receiver, state,
  }

  -- The new channel is open, and no channel that was made before is it.
  pub state-channel_self : (cs : Channels) → state (channel cs).0 (channel cs).2 ≡ open_
  state-channel_self cs = O.state-channel cs _ ∙ if_pos (receiver_discrete _ _) refl _ _

  pub channel-ne_issued :
      (cs : Channels) (r : Receiver) → state cs r ≢ unissued → (channel cs).2 ≢ r
  channel-ne_issued cs r h e = h (subst (λ x. state cs x ≡ unissued) e (O.channel_fresh cs))

  pub state-channel_issued :
      (cs : Channels) (r : Receiver) → state cs r ≢ unissued → state (channel cs).0 r ≡ state cs r
  state-channel_issued cs r h =
      O.state-channel cs r ∙ if_neg (receiver_discrete _ _) (channel-ne_issued cs r h) _ _

  pub state-send_ne :
      (cs : Channels) (tx : Sender) (v : A) (r : Receiver)
      → receiver tx ≢ r
      → state (send cs tx v) r ≡ state cs r
  state-send_ne cs tx v r h = O.state-send cs tx v r ∙ if_neg (receiver_discrete _ _) h _ _

  pub state-send_self :
      (cs : Channels) (tx : Sender) (v : A)
      → state (send cs tx v) (receiver tx) ≡ after_send v (state cs (receiver tx))
  state-send_self cs tx v = O.state-send cs tx v _ ∙ if_pos (receiver_discrete _ _) refl _ _

  pub state-drop_sender_ne :
      (cs : Channels) (tx : Sender) (r : Receiver)
      → receiver tx ≢ r
      → state (drop_sender cs tx) r ≡ state cs r
  state-drop_sender_ne cs tx r h =
      O.state-drop_sender cs tx r ∙ if_neg (receiver_discrete _ _) h _ _

  pub state-drop_sender_self :
      (cs : Channels) (tx : Sender)
      → state (drop_sender cs tx) (receiver tx) ≡ after_drop_sender (state cs (receiver tx))
  state-drop_sender_self cs tx =
      O.state-drop_sender cs tx _ ∙ if_pos (receiver_discrete _ _) refl _ _
