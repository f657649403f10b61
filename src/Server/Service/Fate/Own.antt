-- ===== src/Server/Service/Fate/Own.antt =====
-- A step of the connection itself (server/rust/src/server.rs).
use tcpunch.Base.{
  ℕ, Name, Bool, true, false, [], inl, inr, ◌≡◌, ◌≢◌, ◌∙◌, refl, ap, some, get_elem?,
  get_elem?-set_self,
}
use tcpunch.Platform.{Platform}
use tcpunch.Protocol.{PeerConnectionData, SocketAddr}
use tcpunch.Protocol.Response as Response
use tcpunch.Server.{ServerConfig}
use tcpunch.Server.Accept.{spawned, running, wrote, end_task, resume_task, write_log}
use tcpunch.Server.Connection.{
  After, reading, writing, awaiting, finished, finish, succeed, time_out, await_peer, after_write,
  after_wait, WaitOutcome, notified, sender_dropped, wait_elapsed,
}
use tcpunch.Server.Meeting.{in_memory}
use tcpunch.Server.Service.{Service, Heeds}
use tcpunch.Server.Service.Fate.{Fate, listens, hears, was_told, was_lost}

module _ (P : Platform PeerConnectionData) (config : ServerConfig) (i : ℕ)
    (info : PeerConnectionData) (name : Name) (token : P.uuid.Uuid) (rx : P.oneshot.Receiver)
    (p : PeerConnectionData) where
  open P use {uuid.{Uuid}, oneshot.{Receiver, state}}

  abbrev Fated : Service P config → Type 0
  Fated = Fate P config i info name token rx p

  -- The task itself goes on.
  pub self_write-Fate :
      (s : Service P config) (response : Response.ServerResponse P.uuid) (after : After P)
      (written : Bool)
      → get_elem? s.tasks i ≡ some (running (writing response after))
      → Fated s
      → Fated (
          resume_task P
            (in_memory P)
            s
            i
            (after_write P (in_memory P) s.shared after written)
            (write_log P (in_memory P) response written))
  unfolding resume_task after_write
  self_write-Fate s response after written h (listens k c) = absurd (cc)
  self_write-Fate s response succeed true h (hears k) =
      was_told (inl (get_elem?-set_self s.tasks i _ h)) (inl (ap wrote (cc)))
  self_write-Fate s response succeed false h (hears k) =
      was_lost (inl (get_elem?-set_self s.tasks i _ h))
  self_write-Fate s response finish written h (hears k) = absurd (cc)
  self_write-Fate s response time_out written h (hears k) = absurd (cc)
  self_write-Fate s response (await_peer other n t ry) written h (hears k) = absurd (cc)
  self_write-Fate s response after written h (was_told (inl k) w) = absurd (cc)
  self_write-Fate s response after written h (was_told (inr k) w) = absurd (cc)
  self_write-Fate s response after written h (was_lost (inl k)) = absurd (cc)
  self_write-Fate s response after written h (was_lost (inr k)) = absurd (cc)

  pub self_wait-Fate :
      (s : Service P config) (other : PeerConnectionData) (n : Name) (t : Uuid) (ry : Receiver)
      (outcome : WaitOutcome)
      → get_elem? s.tasks i ≡ some (running (awaiting other n t ry))
      → Heeds (state s.shared.registry.channels ry) outcome
      → outcome ≢ wait_elapsed
      → Fated s
      → Fated (
          resume_task P
            (in_memory P)
            s
            i
            (after_wait P (in_memory P) s.shared other n t ry outcome)
            [])
  unfolding resume_task after_wait
  self_wait-Fate s other n t ry (notified q) h a d (listens k c) =
      hears (get_elem?-set_self s.tasks i _ h ∙ cc)
  self_wait-Fate s other n t ry sender_dropped h a d (listens k c) = absurd (cc)
  self_wait-Fate s other n t ry wait_elapsed h a d (listens k c) = absurd (d refl)
  self_wait-Fate s other n t ry outcome h a d (hears k) = absurd (cc)
  self_wait-Fate s other n t ry outcome h a d (was_told (inl k) w) = absurd (cc)
  self_wait-Fate s other n t ry outcome h a d (was_told (inr k) w) = absurd (cc)
  self_wait-Fate s other n t ry outcome h a d (was_lost (inl k)) = absurd (cc)
  self_wait-Fate s other n t ry outcome h a d (was_lost (inr k)) = absurd (cc)

  -- A spawned task is none that waits or has answered.
  pub spawned-Fate :
      (s : Service P config) (addr : SocketAddr) {A : Type 0}
      → get_elem? s.tasks i ≡ some (spawned addr)
      → Fated s
      → A
  spawned-Fate s addr h (listens k c) = absurd (cc)
  spawned-Fate s addr h (hears k) = absurd (cc)
  spawned-Fate s addr h (was_told (inl k) w) = absurd (cc)
  spawned-Fate s addr h (was_told (inr k) w) = absurd (cc)
  spawned-Fate s addr h (was_lost (inl k)) = absurd (cc)
  spawned-Fate s addr h (was_lost (inr k)) = absurd (cc)

  pub reading-Fate :
      (s : Service P config) (other : PeerConnectionData) {A : Type 0}
      → get_elem? s.tasks i ≡ some (running (reading other))
      → Fated s
      → A
  reading-Fate s other h (listens k c) = absurd (cc)
  reading-Fate s other h (hears k) = absurd (cc)
  reading-Fate s other h (was_told (inl k) w) = absurd (cc)
  reading-Fate s other h (was_told (inr k) w) = absurd (cc)
  reading-Fate s other h (was_lost (inl k)) = absurd (cc)
  reading-Fate s other h (was_lost (inr k)) = absurd (cc)

  pub end_self-Fate :
      (s : Service P config) (success : Bool)
      → get_elem? s.tasks i ≡ some (running (finished success))
      → Fated s
      → Fated (end_task P (in_memory P) s i success)
  unfolding end_task
  end_self-Fate s success h (listens k c) = absurd (cc)
  end_self-Fate s success h (hears k) = absurd (cc)
  end_self-Fate s true h (was_told k w) = was_told (inr (get_elem?-set_self s.tasks i _ h)) w
  end_self-Fate s false h (was_told (inl k) w) = absurd (cc)
  end_self-Fate s false h (was_told (inr k) w) = absurd (cc)
  end_self-Fate s true h (was_lost (inl k)) = absurd (cc)
  end_self-Fate s true h (was_lost (inr k)) = absurd (cc)
  end_self-Fate s false h (was_lost k) = was_lost (inr (get_elem?-set_self s.tasks i _ h))
