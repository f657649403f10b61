-- ===== src/Tests/Cleanup.antt =====
-- The cleanup of the in-memory registry beside a client that comes back (server/rust/src/registry.rs),
-- and the health endpoint's routes (server/rust/src/health.rs).
use tcpunch.Base.{
  ◌∷◌, ◌%◌, Name, ℕ, length, Option, [], none, some, refl, ◌≡◌, ◌≤◌, ◌+◌, ◌⊎◌, arith,
}
use tcpunch.Platform.{sender_gone}
use tcpunch.Registry.{RegistrationResult}
use tcpunch.Registry.InMemory.{register, cleanup_expired, new, reconnect}
use tcpunch.Registry.InMemory.CutShort.{resumed_cut_short}
use tcpunch.Registry.InMemory.Locks.{
  Threads, asks, knows, leaves, comes, walks, passes, Turn, Turns,
}
use tcpunch.Registry.InMemory.Locks.Deadlock.{deadlocks, IsDeadlocked}
use tcpunch.Registry.InMemory.Locks.Progress.{
  goes_on_unless-IsDeadlocked, comeback-reconnect, settled,
}
use tcpunch.Registry.InMemory.Ticker.{Ticked, opens, passes as waits, registers, entry_age_bounded}
use tcpunch.Tests.Registry.{config, draw_a, draw_b, lone, lone-Inv, lone_entry, lone_stored, run}
use tcpunch.Tests.Sample.{sample_platform as P, id_a}
use tcpunch.Tests.Texts.{lobby, host, guest}

-- Two shards, of the keys of even and of odd length; the tokens share one.
abbrev parity : Name → ℕ
parity name = length name % 2

abbrev one_shard : P.uuid.Uuid → ℕ
one_shard token = 0

-- The waiting client comes back at the end of the minute, while the cleanup walks over its shard.
deadlocks_example :
    (s : Threads P) × Turns P parity one_shard lobby guest id_a 61001
      (record { registry = lone; comeback = asks; walker = comes })
      s
    × IsDeadlocked P one_shard lobby id_a 61001 s
    × ((t : Threads P) → ¬ Turn P parity one_shard lobby guest id_a 61001 s t)
unfolding run
deadlocks_example =
    deadlocks P lone lone-Inv parity one_shard lobby guest 61001 lone_entry lone_stored
      (omega arith)

abbrev both_inside : Threads P
both_inside = record {
  registry = lone;
  comeback = knows lobby;
  walker = walks ((lobby, lone_entry) ∷ []);
}

goes_on_unless-IsDeadlocked_example :
    ((t : Threads P) × Turn P parity one_shard lobby guest id_a 61001 both_inside t)
    ⊎ IsDeadlocked P one_shard lobby id_a 61001 both_inside
    ⊎ ((result : Option (RegistrationResult P)) × (both_inside.comeback ≡ leaves result)
        × (both_inside.walker ≡ passes))
goes_on_unless-IsDeadlocked_example =
    goes_on_unless-IsDeadlocked P parity one_shard lobby guest id_a 61001 both_inside

comeback-reconnect_example :
    Turns P parity one_shard lobby guest id_a 2000
      (record { registry = lone; comeback = asks; walker = passes })
      (settled P parity one_shard lobby guest id_a 2000 lone passes
        (reconnect P lone lobby guest id_a))
comeback-reconnect_example =
    comeback-reconnect P parity one_shard lobby guest id_a 2000 lone passes (λ h. h)

resumed_cut_short_example :
    P.oneshot.state
      (cleanup_expired P (register P lone lobby guest (some id_a) draw_b).0 61001).0.channels
      1
    ≡ sender_gone
unfolding run
resumed_cut_short_example =
    (resumed_cut_short P lone lone-Inv lobby guest draw_b lone_entry 61001 lone_stored
      (omega arith)).2

aged : Ticked P config 0 30000 lone
unfolding run lone new
aged =
    waits 30000
      (registers lobby host none draw_a (waits 1000 (opens 0 []) (omega arith) (omega arith)) refl
        refl)
      (omega arith) (omega arith)

entry_age_bounded_example : (1000 ≤ 30000) × (30000 ≤ 1000 + 60000 + 30000)
unfolding run
entry_age_bounded_example = entry_age_bounded P config aged lobby lone_entry lone_stored
