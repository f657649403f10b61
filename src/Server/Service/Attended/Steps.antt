-- ===== src/Server/Service/Attended/Steps.antt =====
-- Each step keeps the receivers of the connections that listen (server/rust/src/server.rs).
use tcpunch.Base.{
  ℕ, Name, Bool, true, false, some, inl, inr, ◌≡◌, ◌≢◌, ◌∙◌, refl, sym, ap, subst, Bool-cases, leb,
  get_elem?, get_elem?-append_cases, none-ne-some, some-injective,
}
use tcpunch.Base.Fallible.{Result-cases}
use tcpunch.Platform.{Platform, Chan, unissued, receiver_gone, open_}
use tcpunch.Protocol.{PeerConnectionData, SocketAddr}
use tcpunch.Protocol.Request as Request
use tcpunch.Registry.{RegistryConfig}
use tcpunch.Registry.InMemory.{InMemoryRegistry, Draw, new, pairing_map, PairingEntry}
use tcpunch.Registry.InMemory.Fade.{Shrinks-unregister, Shrinks-cleanup_expired}
use tcpunch.Registry.InMemory.Invariant.{Inv, IsPending}
use tcpunch.Server.{ServerConfig}
use tcpunch.Server.Accept.{
  spawned, running, ended, accepts, shuts_down, begins, reads, writes, waits, ends, cleans, accept,
  begin_task, end_task, resume_task, run_server,
}
use tcpunch.Server.Connection.{
  After, writing, awaiting, finish, succeed, time_out, await_peer, Shared, start, on_request,
  after_read, after_write, after_wait, ReadOutcome, received, read_failed, read_elapsed,
  WaitOutcome, notified, sender_dropped, wait_elapsed,
}
use tcpunch.Server.Meeting.{in_memory}
use tcpunch.Server.Service.{Service, ServiceStep, IsActual, Requests, Run, here, next}
use tcpunch.Server.Service.Apart.{Apart, heard_after, heard_local, heard_at}
use tcpunch.Server.Service.Apart.Steps.{after_read-new, after_wait-heard, start-heard}
use tcpunch.Server.Service.Attended.{
  Attended, set-Attended, gone-register, gone-Shrinks, gone-hang_up,
}
use tcpunch.Server.Service.Listener.{hung_up}
use tcpunch.Server.Service.Partner.{Run-Apart}
use tcpunch.Server.Service.Sound.{Sound}
use tcpunch.Server.Service.Truth.{Run-Sound}

module _ (P : Platform PeerConnectionData) where
  open P use {uuid.{Uuid}, oneshot.{Channels, Receiver, state}}

  module _ (s : Shared P (in_memory P)) (rx : Receiver) where
    gone-after_read :
        (v : Inv P s.registry) (info : PeerConnectionData) (draw : Draw P) (outcome : ReadOutcome)
        → state (after_read P (in_memory P) s draw info outcome).0.registry.channels rx
          ≡ receiver_gone
        → state s.registry.channels rx ≡ receiver_gone
    unfolding after_read on_request
    gone-after_read v info draw (received bytes) h =
        elim (Result-cases (Request.from_bytes P.uuid bytes)) [
          | inl (req, e) ↦
              gone-register P rx s.registry v req.pairing_name info req.reconnect_token draw
                (rw (e, after_read) at h)
          | inr (x, e) ↦ rw (e, after_read) at h
        ]
    gone-after_read v info draw read_failed h = h
    gone-after_read v info draw read_elapsed h = h

    gone-after_write :
        (after : After P) (written : Bool)
        → heard_after P after ≢ some rx
        → state (after_write P (in_memory P) s after written).0.registry.channels rx ≡ receiver_gone
        → state s.registry.channels rx ≡ receiver_gone
    unfolding after_write
    gone-after_write (await_peer info name token ry) true ne h = h
    gone-after_write (await_peer info name token ry) false ne h =
        gone-hang_up P rx s.registry ry (λ q. ne (ap some q)) h
    gone-after_write finish true ne h = h
    gone-after_write succeed true ne h = h
    gone-after_write time_out true ne h = h
    gone-after_write finish false ne h = h
    gone-after_write succeed false ne h = h
    gone-after_write time_out false ne h = h

    -- A task that goes on to listen has listened, and no channel has changed.
    after_write-same :
        (after : After P) (written : Bool)
        → heard_local P (after_write P (in_memory P) s after written).1 ≡ some rx
        → (heard_after P after ≡ some rx)
          × ((after_write P (in_memory P) s after written).0.registry ≡ s.registry)
    unfolding after_write
    after_write-same (await_peer info name token ry) true h = (h, refl)
    after_write-same (await_peer info name token ry) false h = absurd (none-ne-some h)
    after_write-same finish true h = absurd (none-ne-some h)
    after_write-same succeed true h = absurd (none-ne-some h)
    after_write-same time_out true h = absurd (none-ne-some h)
    after_write-same finish false h = absurd (none-ne-some h)
    after_write-same succeed false h = absurd (none-ne-some h)
    after_write-same time_out false h = absurd (none-ne-some h)

    gone-after_wait :
        (info : PeerConnectionData) (name : Name) (token : Uuid) (ry : Receiver)
        (outcome : WaitOutcome)
        → ry ≢ rx
        → state (after_wait P (in_memory P) s info name token ry outcome).0.registry.channels rx
          ≡ receiver_gone
        → state s.registry.channels rx ≡ receiver_gone
    unfolding after_wait
    gone-after_wait info name token ry (notified peer) ne h = h
    gone-after_wait info name token ry sender_dropped ne h = h
    gone-after_wait info name token ry wait_elapsed ne h = gone-hang_up P rx s.registry ry ne (
        gone-Shrinks P rx (hung_up P s.registry ry) _
          (Shrinks-unregister P (hung_up P s.registry ry) name token) h)

  module _ (config : ServerConfig) where
    accept-Attended :
        (s : Service P config) (addr : SocketAddr)
        → Attended P s.tasks s.shared.registry.channels
        → let t = accept P (in_memory P) config s addr in
          Attended P t.tasks t.shared.registry.channels
    unfolding accept
    accept-Attended s addr attended =
        elim (Bool-cases (leb config.max_connections s.shared.metrics.active_connections)) [
          | inl full ↦ rw full attended
          | inr room ↦ rw room (λ i rx task h q.
              elim (get_elem?-append_cases s.tasks (spawned addr) i task h) [
                | inl h' ↦ attended i rx task h' q
                | inr e ↦ absurd (none-ne-some (ap (heard_at P) e ∙ q))
              ])
        ]

    unissued-ne-gone : ¬ (◌≡◌ {A = Chan PeerConnectionData} unissued receiver_gone)
    unissued-ne-gone e = cc

    -- Every step keeps the receivers.
    Step-Attended :
        (seen : Requests) {s t : Service P config} (step : ServiceStep P config s t)
        → IsActual P config step
        → Sound P config seen s
        → Apart P s.tasks
        → Attended P s.tasks s.shared.registry.channels
        → Attended P t.tasks t.shared.registry.channels
    unfolding begin_task end_task resume_task
    Step-Attended seen (accepts s addr h) a v apart attended = accept-Attended s addr attended
    Step-Attended seen (shuts_down s) a v apart attended = attended
    Step-Attended seen (cleans s registry) (now, same) v apart attended = λ i rx task h q gone.
        attended i rx task h q (
          gone-Shrinks P rx s.shared.registry _ (Shrinks-cleanup_expired P s.shared.registry now)
            (subst (λ r. state r.channels rx ≡ receiver_gone) same gone))
    Step-Attended seen (begins s i addr h) a v apart attended =
        set-Attended P s.tasks _ _ i (running (start P addr)) attended
          (λ rx e. absurd (none-ne-some (sym (start-heard P addr) ∙ e)))
          (λ j rx task ne k q gone. gone)
    Step-Attended seen (reads s i info draw outcome h) a v apart attended =
        set-Attended P s.tasks _ _ i _ attended
          (λ rx e gone. unissued-ne-gone (
            sym (after_read-new P config seen s v info draw outcome rx e)
            ∙ gone-after_read s.shared rx v.inv info draw outcome gone))
          (λ j rx task ne k q gone. gone-after_read s.shared rx v.inv info draw outcome gone)
    Step-Attended seen (writes s i response after written h) a v apart attended =
        set-Attended P s.tasks _ _ i _ attended
          (λ rx e gone.
            let (heard, same) = after_write-same s.shared rx after written e in
            attended i rx (running (writing response after)) h heard
              (subst (λ r. state r.channels rx ≡ receiver_gone) same gone))
          (λ j rx task ne k q gone.
            gone-after_write s.shared rx after written
              (λ e. ne (apart i j rx (running (writing response after)) task h k e q)) gone)
    Step-Attended seen (waits s i info name token ry outcome h) a v apart attended =
        set-Attended P s.tasks _ _ i _ attended
          (λ rx e.
            absurd
              (none-ne-some (sym (after_wait-heard P s.shared info name token ry outcome) ∙ e)))
          (λ j rx task ne k q gone.
            gone-after_wait s.shared rx info name token ry outcome
              (λ e.
                ne (apart i j rx (running (awaiting info name token ry)) task h k (ap some e) q))
              gone)
    Step-Attended seen (ends s i true h) a v apart attended =
        set-Attended P s.tasks _ _ i (ended true) attended (λ rx e. absurd (none-ne-some e))
          (λ j rx task ne k q gone. gone)
    Step-Attended seen (ends s i false h) a v apart attended =
        set-Attended P s.tasks _ _ i (ended false) attended (λ rx e. absurd (none-ne-some e))
          (λ j rx task ne k q gone. gone)

    opened-Attended :
        (r : InMemoryRegistry P) → Attended P (run_server P (in_memory P) r).tasks r.channels
    unfolding run_server
    opened-Attended r i rx task h q gone = none-ne-some h

    pub Run-Attended :
        (rc : RegistryConfig) (cs : Channels) {seen : Requests} {s : Service P config}
        → Run P config (run_server P (in_memory P) (new P rc cs)) seen s
        → Attended P s.tasks s.shared.registry.channels
    unfolding run_server
    Run-Attended rc cs here = opened-Attended (new P rc cs)
    Run-Attended rc cs (next {seen} run step a) =
        Step-Attended seen step a (Run-Sound P config rc cs run) (Run-Apart P config rc cs run)
          (Run-Attended rc cs run)

    -- A connection that waits on the channel of a stored entry waits on an open one.
    pub waiting-open :
        (rc : RegistryConfig) (cs : Channels) {seen : Requests} {s : Service P config}
        → Run P config (run_server P (in_memory P) (new P rc cs)) seen s
        → (i : ℕ) (info : PeerConnectionData) (name : Name) (token : Uuid) (e : PairingEntry P)
          (tx : P.oneshot.Sender)
        → get_elem? s.tasks i ≡ some (running (awaiting info name token (P.oneshot.receiver tx)))
        → (pairing_map P).get s.shared.registry.pairings name ≡ some e
        → e.notify_tx ≡ some tx
        → state s.shared.registry.channels (P.oneshot.receiver tx) ≡ open_
    waiting-open rc cs {seen} {s} run i info name token e tx h stored held =
        let (ty, held', pending) = (Run-Sound P config rc cs run).inv.pending name e stored in
        let same : ty ≡ tx = some-injective ty tx (sym held' ∙ held) in
        elim (subst (λ z. IsPending (state s.shared.registry.channels (P.oneshot.receiver z))) same
          pending) [
            | inl o ↦ o
            | inr gone ↦ absurd (Run-Attended rc cs run i (P.oneshot.receiver tx) _ h refl gone)
          ]
