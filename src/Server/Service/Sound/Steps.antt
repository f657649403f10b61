-- ===== src/Server/Service/Sound/Steps.antt =====
-- A task reads, writes or has waited: what the tasks know of one another stays true
-- (server/rust/src/server.rs).
use tcpunch.Base.Fallible.{Result-cases}
use tcpunch.Base.{
  ℕ, Name, Bool, true, false, List, [], ◌∷◌, ◌++◌, none, ok, err, inl, inr, ◌≡◌, refl, sym, subst,
  Occurs, All, Result, none-ne-some, some-injective,
}
use tcpunch.Platform.{Platform}
use tcpunch.Protocol.{PeerConnectionData, SocketAddr, v4, v6}
use tcpunch.Protocol.Request as Request
use tcpunch.Protocol.Response as Response
use tcpunch.Registry.{RegistrationResult, RegistryError, waiting, paired, resumed}
use tcpunch.Registry.InMemory.{InMemoryRegistry, Draw, pairing_map, token_map}
use tcpunch.Registry.InMemory.Invariant.{Inv}
use tcpunch.Registry.InMemory.Register.{register-Inv, unregister-Inv}
use tcpunch.Registry.InMemory.Fade.{Shrinks-unregister}
use tcpunch.Registry.InMemory.History as History
use tcpunch.Server.{ServerConfig}
use tcpunch.Server.Accept.{LogEntry, wrote, unread, resume_task, read_log, write_log}
use tcpunch.Server.Connection.{
  Local, After, finish, succeed, time_out, await_peer, Shared, start, on_registered, on_request,
  after_read, after_write, after_wait, ReadOutcome, received, read_failed, read_elapsed,
  WaitOutcome, notified, sender_dropped, wait_elapsed,
}
use tcpunch.Server.Meeting.{in_memory}
use tcpunch.Server.Service.{Requests, Service, request_of, Heeds}
use tcpunch.Server.Service.Listener.{
  Subsides-trans, Entries, Listener, Subsides, Entries-Subsides, Subsides-Shrinks, Subsides-hang_up,
  Subsides-refl, hung_up,
}
use tcpunch.Server.Service.Inserting.{Outcome}
use tcpunch.Server.Service.Joining.{register-Joined}
use tcpunch.Server.Service.Sound.{
  IsTruthful, AfterOk, LocalOk, IsTruthfulEntry, Moves, Moves-Subsides, Sound, resume_task-Sound,
}

module _ (P : Platform PeerConnectionData) where
  open P use {uuid.{Uuid}, oneshot.{Channels, Receiver}}
  open pairing_map P use {get as get_pairing}

  pub start-LocalOk :
      (seen : Requests) (r : InMemoryRegistry P) (addr : SocketAddr)
      → LocalOk P seen r (start P addr)
  unfolding start Response.error
  start-LocalOk seen r (v4 ip port) = tt
  start-LocalOk seen r (v6 ip port) = (λ peer e. absurd (none-ne-some e), tt)

  on_registered-LocalOk :
      (seen : Requests) (r r' : InMemoryRegistry P) (name : Name) (info : PeerConnectionData)
      (result : Result (RegistrationResult P) RegistryError)
      → Outcome P ((name, info) ∷ seen) r r' name info result
      → LocalOk P ((name, info) ∷ seen) r' (on_registered P info name result)
  unfolding on_registered Response.paired Response.waiting Response.error
  on_registered-LocalOk seen r r' name info (ok (paired token other)) h = (
    λ peer e. (
      name,
      inl refl,
      subst (λ x. Occurs (name, x) ((name, info) ∷ seen)) (some-injective other peer e) h,
    ),
    tt,
  )
  on_registered-LocalOk seen r r' name info (ok (waiting token rx)) (h, _) =
      (λ peer e. absurd (none-ne-some e), h)
  on_registered-LocalOk seen r r' name info (ok (resumed token rx)) (h, _) =
      (λ peer e. absurd (none-ne-some e), h)
  on_registered-LocalOk seen r r' name info (err e) h = (λ peer e. absurd (none-ne-some e), tt)

  module _ (config : ServerConfig) where
    quiet-Sound :
        (seen : Requests) (s : Service P config) (i : ℕ) (x : Shared P (in_memory P) × Local P)
        (entries : List (LogEntry P))
        → Sound P config seen s
        → x.0.registry ≡ s.shared.registry
        → LocalOk P seen s.shared.registry x.1
        → All (IsTruthfulEntry P seen) entries
        → Sound P config seen (resume_task P (in_memory P) s i x entries)
    quiet-Sound seen s i x entries v same h told =
        resume_task-Sound P config seen seen s i x entries v (subst (Inv P) (sym same) v.inv)
          (subst (Entries P seen) (sym same) v.known)
          (subst (Moves P seen s.shared.registry seen) (sym same)
            (Moves-Subsides P (Subsides-refl P seen s.shared.registry)))
          (subst (λ r. LocalOk P seen r x.1) (sym same) h) told

    pub reads-Sound :
        (seen : Requests) (s : Service P config) (i : ℕ) (info : PeerConnectionData) (draw : Draw P)
        (outcome : ReadOutcome)
        → Sound P config seen s
        → (token_map P).get s.shared.registry.tokens draw.token ≡ none
        → Sound P config (request_of P config info outcome ++ seen) (
            resume_task P
              (in_memory P)
              s
              i
              (after_read P (in_memory P) s.shared draw info outcome)
              (read_log P (in_memory P) outcome))
    unfolding after_read on_request Response.error
    reads-Sound seen s i info draw (received bytes) v fresh =
        elim (Result-cases (Request.from_bytes P.uuid bytes)) [
          | inl (req, e) ↦
              let j =
                register-Joined P seen s.shared.registry v.inv v.known req.pairing_name info
                  req.reconnect_token draw in
              rw (e, after_read, request_of)
                (resume_task-Sound P config seen ((req.pairing_name, info) ∷ seen) s i
                  (on_request P (in_memory P) s.shared draw info req) [] v
                  (register-Inv P s.shared.registry v.inv req.pairing_name info req.reconnect_token
                    draw fresh)
                  j.entries (record { grows = λ x h. inr h; listeners = j.listeners })
                  (on_registered-LocalOk seen s.shared.registry _ req.pairing_name info _ j.outcome)
                  tt)
          | inr (x, e) ↦
              rw (e, after_read, request_of)
                (quiet-Sound seen s i _ [] v refl (λ peer e. absurd (none-ne-some e), tt) tt)
        ]
    reads-Sound seen s i info draw read_failed v fresh = quiet-Sound seen s i _ [] v refl tt tt
    reads-Sound seen s i info draw read_elapsed v fresh =
        quiet-Sound seen s i _ (unread ∷ []) v refl tt (tt, tt)

    -- A step of a task that takes entries away at most.
    subsiding-Sound :
        (seen : Requests) (s : Service P config) (i : ℕ) (x : Shared P (in_memory P) × Local P)
        → Sound P config seen s
        → Inv P x.0.registry
        → Subsides P seen s.shared.registry seen x.0.registry
        → LocalOk P seen x.0.registry x.1
        → Sound P config seen (resume_task P (in_memory P) s i x [])
    subsiding-Sound seen s i x v inv c h =
        resume_task-Sound P config seen seen s i x [] v inv (Entries-Subsides P c v.known)
          (Moves-Subsides P c) h tt

    hung_up-Inv : (r : InMemoryRegistry P) (rx : Receiver) → Inv P r → Inv P (hung_up P r rx)
    hung_up-Inv r rx v = History.Step-Inv P (History.hangs_up r rx) v

    pub writes-Sound :
        (seen : Requests) (s : Service P config) (i : ℕ) (response : Response.ServerResponse P.uuid)
        (after : After P) (written : Bool)
        → Sound P config seen s
        → IsTruthful P seen response
        → AfterOk P seen s.shared.registry after
        → Sound P config seen (
            resume_task P
              (in_memory P)
              s
              i
              (after_write P (in_memory P) s.shared after written)
              (write_log P (in_memory P) response written))
    unfolding after_write
    writes-Sound seen s i response finish true v h k =
        quiet-Sound seen s i _ (wrote response ∷ []) v refl tt (h, tt)
    writes-Sound seen s i response succeed true v h k =
        quiet-Sound seen s i _ (wrote response ∷ []) v refl tt (h, tt)
    writes-Sound seen s i response time_out true v h k =
        quiet-Sound seen s i _ (wrote response ∷ []) v refl tt (h, tt)
    writes-Sound seen s i response (await_peer info name token rx) true v h k =
        quiet-Sound seen s i _ (wrote response ∷ []) v refl k (h, tt)
    writes-Sound seen s i response finish false v h k = quiet-Sound seen s i _ [] v refl tt tt
    writes-Sound seen s i response succeed false v h k = quiet-Sound seen s i _ [] v refl tt tt
    writes-Sound seen s i response time_out false v h k = quiet-Sound seen s i _ [] v refl tt tt
    writes-Sound seen s i response (await_peer info name token rx) false v h k =
        subsiding-Sound seen s i _ v (hung_up-Inv s.shared.registry rx v.inv)
          (Subsides-hang_up P seen s.shared.registry rx) tt

    pub waits-Sound :
        (seen : Requests) (s : Service P config) (i : ℕ) (info : PeerConnectionData) (name : Name)
        (token : Uuid) (rx : Receiver) (outcome : WaitOutcome)
        → Sound P config seen s
        → Listener P seen s.shared.registry name info rx
        → Heeds (P.oneshot.state s.shared.registry.channels rx) outcome
        → Sound P config seen (
            resume_task P
              (in_memory P)
              s
              i
              (after_wait P (in_memory P) s.shared info name token rx outcome)
              [])
    unfolding after_wait Response.paired Response.timeout
    waits-Sound seen s i info name token rx (notified other) v l heeds =
        quiet-Sound seen s i _ [] v refl
          (
            λ peer e. (
              name,
              l.own,
              subst (λ x. Occurs (name, x) seen) (some-injective other peer e) (l.told other heeds),
            ),
            tt,
          )
          tt
    waits-Sound seen s i info name token rx sender_dropped v l heeds =
        quiet-Sound seen s i _ [] v refl (λ peer e. absurd (none-ne-some e), tt) tt
    waits-Sound seen s i info name token rx wait_elapsed v l heeds =
        let r = s.shared.registry in
        subsiding-Sound seen s i _ v
          (unregister-Inv P (hung_up P r rx) (hung_up-Inv r rx v.inv) name token)
          (Subsides-trans P (Subsides-hang_up P seen r rx) (
            Subsides-Shrinks P seen (hung_up P r rx) _
              (Shrinks-unregister P (hung_up P r rx) name token)))
          (λ peer e. absurd (none-ne-some e), tt)
