-- ===== src/Tests/Registry.antt =====
-- The in-memory registry at concrete states (server/rust/src/registry.rs).
use tcpunch.Registry.InMemory.Race.{register_unpaired, both_wait, drop_replaced}
use tcpunch.Registry.Spec.{meet}
use mathlib.Core.List.{lookup, []}
use tcpunch.Base.{refl, ◌≡◌, some, none, name_discrete, ◌≢◌, arith, ok}
use tcpunch.Tests.Sample.{sample_platform as P, id_a, id_b, id_c, SampleId-discrete}
use tcpunch.Tests.Texts.{lobby, host, guest}
use tcpunch.Registry.{RegistryConfig, waiting}
use tcpunch.Registry.InMemory.{
  InMemoryRegistry, PairingEntry, Draw, pairing_map, token_map, new, register, unregister,
  cleanup_expired, reconnect, register_fresh, register_first, complete_pairing, first_entry,
}
use tcpunch.Registry.InMemory.Invariant.{Inv, NoOrphans, new-Inv, new-NoOrphans}
use tcpunch.Registry.InMemory.Register.{register-Inv, unregister-Inv}
use tcpunch.Registry.InMemory.Orphans.{register-NoOrphans, unregister-NoOrphans, unregister_leaks}
use tcpunch.Registry.InMemory.Cleanup.{cleanup_expired-Inv, cleanup_expired_lem}
use tcpunch.Registry.InMemory.Refines.{register-refines-meet, slots}
use tcpunch.Registry.InMemory.History.{Reach-Inv, Reach, here, next, registers, cleans}

abbrev pub config : RegistryConfig
config = record { pairing_timeout = 60000; cleanup_interval = 30000; server_id = [] }

abbrev pub draw_a : Draw P
draw_a = record { token = id_a; now = 1000; date = 7 }

abbrev pub draw_b : Draw P
draw_b = record { token = id_b; now = 2000; date = 8 }

abbrev pub empty : InMemoryRegistry P
empty = record {
  config = config;
  pairings = record { items = []; keyed = tt };
  tokens = record { items = []; keyed = tt };
  channels = [];
}

pub empty-Inv : Inv P empty
unfolding new
empty-Inv = new-Inv P config []

empty-NoOrphans : NoOrphans P empty
unfolding new
empty-NoOrphans = new-NoOrphans P config []

-- One client waits in the lobby.
unfoldable pub lone : InMemoryRegistry P
lone = (register P empty lobby host none draw_a).0

pub fresh_a : (token_map P).get empty.tokens id_a ≡ none
unfolding lookup
fresh_a = refl

pub lone-Inv : Inv P lone
unfolding lone
lone-Inv = register-Inv P empty empty-Inv lobby host none draw_a fresh_a

unfoldable pub lone_entry : PairingEntry P
unfolding first_entry
lone_entry = first_entry P config host 0 draw_a

unfoldable pub run : Unit {0}
unfolding lone register register_fresh register_first reconnect complete_pairing first_entry lookup
    name_discrete SampleId-discrete lone_entry
run = tt

pub lone_stored : (pairing_map P).get lone.pairings lobby ≡ some lone_entry
unfolding run
lone_stored = refl

fresh_b : (token_map P).get lone.tokens id_b ≡ none
unfolding run
fresh_b = refl

register-Inv_example : Inv P (register P lone lobby guest (some id_a) draw_b).0
register-Inv_example = register-Inv P lone lone-Inv lobby guest (some id_a) draw_b fresh_b

unregister-Inv_example : Inv P (unregister P lone lobby id_c).0
unregister-Inv_example = unregister-Inv P lone lone-Inv lobby id_c

lone-NoOrphans : NoOrphans P lone
unfolding lone
lone-NoOrphans = register-NoOrphans P empty empty-Inv empty-NoOrphans lobby host none draw_a

unregister-NoOrphans_example : NoOrphans P (unregister P lone lobby id_a).0
unfolding lone_entry
unregister-NoOrphans_example =
    unregister-NoOrphans P lone lone-Inv lone-NoOrphans lobby lone_entry lone_stored

a-ne-c : id_a ≢ id_c
a-ne-c e = cc

a-ne-b : id_a ≢ id_b
a-ne-b e = cc

unregister_leaks_example :
    ((pairing_map P).get (unregister P lone lobby id_c).0.pairings lobby ≡ none)
    × ((token_map P).get (unregister P lone lobby id_c).0.tokens id_a ≡ some lobby)
    × (¬ NoOrphans P (unregister P lone lobby id_c).0)
unfolding lone_entry
unregister_leaks_example = unregister_leaks P lone lone-Inv lobby lone_entry id_c lone_stored a-ne-c

cleanup_expired-Inv_example : Inv P (cleanup_expired P lone 70000).0
cleanup_expired-Inv_example = cleanup_expired-Inv P lone 70000 lone-Inv

-- The entry of time 1000 has outlived 60 seconds at time 61001.
cleanup_expired_example : (pairing_map P).get (cleanup_expired P lone 61001).0.pairings lobby ≡ none
unfolding lone_entry run
cleanup_expired_example =
    ((cleanup_expired_lem P lone 61001 lone-Inv).0 lobby lone_entry lone_stored (omega arith)).0

register-refines-meet_example :
    (slots P (register P lone lobby guest none draw_b).0
      ≡ (meet P (slots P lone) lobby guest none id_b 1).0)
    × ((register P lone lobby guest none draw_b).1
        ≡ ok (meet P (slots P lone) lobby guest none id_b 1).1)
unfolding run
register-refines-meet_example = register-refines-meet P lone lone-Inv lobby guest none draw_b

history :
    Reach P
      (new P config [])
      (cleanup_expired P (register P (new P config []) lobby host none draw_a).0 5000).0
unfolding lookup new
history =
    next (next here (registers empty lobby host none draw_a fresh_a))
      (cleans (register P (new P config []) lobby host none draw_a).0 5000)

Reach-Inv_example :
    Inv P (cleanup_expired P (register P (new P config []) lobby host none draw_a).0 5000).0
Reach-Inv_example = Reach-Inv P config [] history

both_wait_example :
    (register_unpaired P (register_unpaired P empty lobby host draw_a).0 lobby guest draw_b).1
    ≡ waiting id_b 1
unfolding lookup register_unpaired drop_replaced
both_wait_example = (both_wait P empty lobby host guest draw_a draw_b refl (λ e. cc)).1
