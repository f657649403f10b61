-- ===== src/Tests/Redis.antt =====
-- The Redis registry at concrete states (server/rust/src/registry.rs).
use tcpunch.Protocol.{PeerConnectionData}
use mathlib.Core.List.{lookup}
use mathlib.Core.Path.{fun_ext}
use tcpunch.Registry.Seats.{seats, seat_of}
use tcpunch.Registry.InMemory.Refines.{slots as in_memory_slots, view_entry}
use tcpunch.Registry.InMemory as InMemory
use tcpunch.Base.{List, [], ◌∷◌, refl, some, none, ok, ◌≡◌, arith, name_discrete, none-ne-some}
use tcpunch.Tests.Sample.{sample_platform as P, id_a, id_b, id_c, id_d, SampleId-discrete}
use tcpunch.Tests.SampleRedis.{sample_redis as R, sample_json as J}
use tcpunch.Tests.Texts.{lobby, host, guest}
use tcpunch.Tests.Registry.{empty as empty_registry, empty-Inv}
use tcpunch.Platform.{sent, sender_gone}
use tcpunch.Registry.{RegistryConfig, paired}
use tcpunch.Registry.Redis.{
  Site, RedisRegistry, Draw, up, lost, reply_lost, pairing_key, token_key, pairing_prefix,
  token_prefix, waiter_map, query, wait_here, drop_waiter,
}
use tcpunch.Registry.Redis.Calls.{
  register, cleanup_expired, is_present, reconnect, register_fresh, register_first,
}
use tcpunch.Registry.Redis.Invariant.{Inv}
use tcpunch.Registry.Redis.Branches.{all_up, IsTtl}
use tcpunch.Registry.Redis.View.{slots, view_text}
use tcpunch.Registry.Redis.Register.{new-Inv, redis_register-Inv}
use tcpunch.Registry.Redis.Elsewhere.{unheard, crossed, joins}
use tcpunch.Registry.Redis.Failures.{half_registered, half_up}
use tcpunch.Registry.Redis.Stale.{check_one, newcomer_swept}
use tcpunch.Registry.Redis.Swept.{redis_cleanup_lem}
use tcpunch.Registry.Dispatch as Dispatch
use tcpunch.Registry.Dispatch.{in_memory as memory, redis as over_redis}
use tcpunch.Registry.Dispatch.Either.{
  answers, rendezvous, waiting_seats, answers-rendezvous, registry_unregister_lem,
}
use tcpunch.Registry.Backends.{
  Registration, Agree, backends_alike, in_memory_answers, redis_answers,
}

abbrev here_config : RegistryConfig
here_config = record { pairing_timeout = 60000; cleanup_interval = 30000; server_id = 1 ∷ [] }

abbrev pub no_keys : R.Store
no_keys = record { items = []; keyed = tt }

abbrev pub here : RedisRegistry P R J
here = record {
  config = here_config;
  local_waiters = record { items = []; keyed = tt };
  channels = [];
}

abbrev there : RedisRegistry P R J
there = record here { config = record here_config { server_id = 2 ∷ [] } }

abbrev quiet : Site P R J
quiet = record { store = no_keys; registry = here }

quiet-Inv : Inv P R J quiet
unfolding lookup
quiet-Inv = new-Inv P R J no_keys here (λ k. refl) (λ n. refl)

minute : IsTtl P R J here_config
minute = omega arith

-- One client waits in the lobby.
lone : Site P R J
lone = (register P R J lobby host none (all_up P R J id_a 7) quiet).0

run : Unit {0}
unfolding lone register reconnect register_fresh register_first query wait_here drop_waiter lookup
    name_discrete SampleId-discrete pairing_key token_key pairing_prefix token_prefix
run = tt

lone-Inv : Inv P R J lone
unfolding lone lookup
lone-Inv = redis_register-Inv P R J quiet quiet-Inv lobby minute host none id_a 7 refl

lone_waiter : (waiter_map P R J).get lone.registry.local_waiters lobby ≡ some 0
unfolding run
lone_waiter = refl

redis_register-Inv_example :
    Inv P R J (register P R J lobby guest none (all_up P R J id_b 8) lone).0
unfolding run
redis_register-Inv_example =
    redis_register-Inv P R J lone lone-Inv lobby minute guest none id_b 8 refl

abbrev calls : List (Registration P R J)
calls =
    (record { name = lobby; info = host; token = none; fresh = id_a; now = 1000; date = 7 })
    ∷ (record { name = lobby; info = guest; token = none; fresh = id_b; now = 2000; date = 8 })
    ∷ []

both_empty : Agree P R J empty_registry quiet
unfolding in_memory_slots slots seats seat_of view_entry view_text lookup
both_empty = record {
  in_memory = empty-Inv;
  redis = quiet-Inv;
  ttl = minute;
  same = fun_ext (λ n. refl);
}

backends_alike_example :
    in_memory_answers P R J empty_registry calls ≡ redis_answers P R J quiet calls
unfolding run InMemory.register InMemory.register_fresh InMemory.register_first InMemory.reconnect
    InMemory.first_entry
backends_alike_example =
    backends_alike P R J empty_registry quiet calls both_empty (refl, refl, (refl, refl, tt))

-- The host waits here, and the guest comes to the other server.
abbrev host_here : Site P R J
host_here = (joins P R J no_keys here lobby host id_a 7).0

abbrev guest_there : Site P R J
guest_there = (joins P R J host_here.store there lobby guest id_b 8).0

unheard_example :
    P.oneshot.state
      (cleanup_expired P R J
        (λ n. up)
        (record { store = guest_there.store; registry = host_here.registry })).0.registry.channels
      0
    ≡ sender_gone
unfolding lookup
unheard_example =
    (unheard P R J no_keys here there lobby minute minute (λ e. cc) refl refl refl host guest id_a
      id_b 7 8 quiet-Inv.pending quiet-Inv.apart (λ n. up)).3

abbrev third : PeerConnectionData
third = record host { port = 4000 }

abbrev fourth : PeerConnectionData
fourth = record guest { port = 5000 }

crossed_example :
    P.oneshot.state
      (joins P R J
        (joins P R J
          (joins P R J
            (joins P R J no_keys here lobby host id_a 7).0.store
            there
            lobby
            guest
            id_b
            8).0.store
          (joins P R J
            (joins P R J no_keys here lobby host id_a 7).0.store
            there
            lobby
            guest
            id_b
            8).0.registry
          lobby
          fourth
          id_c
          9).0.store
        (joins P R J no_keys here lobby host id_a 7).0.registry
        lobby
        third
        id_d
        10).0.registry.channels
      0
    ≡ sent third
unfolding lookup
crossed_example =
    (crossed P R J no_keys here there lobby minute minute (λ e. cc) refl refl refl host guest id_a
      id_b 7 8 third fourth id_c id_d 9 10).2

abbrev no_getdel : Draw P R J
no_getdel = record (all_up P R J id_a 7) { on_getdel = reply_lost }

half_registered_example :
    (register P R J lobby guest none
      (all_up P R J id_b 8)
      (register P R J lobby host none (half_up P R J id_a 7 lost) quiet).0).1
    ≡ ok (paired id_b host)
unfolding lookup
half_registered_example =
    (half_registered P R J quiet lobby host guest id_a id_b 7 8 lost minute (λ e. cc) refl refl).1

redis_cleanup_example :
    (waiter_map P R J).get (cleanup_expired P R J (λ n. up) lone).0.registry.local_waiters lobby
    ≡ some 0
unfolding run is_present
redis_cleanup_example =
    ((redis_cleanup_lem P R J (λ n. up) lone lone-Inv.apart).0 lobby 0 _ lone_waiter refl refl).0

answers-rendezvous_example :
    answers P R J (memory empty_registry) calls
    ≡ rendezvous P R J (waiting_seats P R J (memory empty_registry)) calls
unfolding run Dispatch.register InMemory.register InMemory.register_fresh InMemory.register_first
    InMemory.reconnect InMemory.first_entry
answers-rendezvous_example =
    answers-rendezvous P R J (memory empty_registry) calls empty-Inv (refl, (refl, tt))

registry_unregister_example : (Dispatch.unregister P R J (over_redis lone) lobby id_c up).1 ≡ ok tt
unfolding run
registry_unregister_example =
    (registry_unregister_lem P R J (over_redis lone) lobby id_c (lone-Inv, minute)).0

-- The host still listens under the lobby, whose key has expired.
abbrev lapsed : Site P R J
lapsed = record lone { store = no_keys }

lapsed-Inv : Inv P R J lapsed
unfolding lookup
lapsed-Inv = record {
  stored = λ n text h. absurd (none-ne-some h);
  indexed = λ t n h. absurd (none-ne-some h);
  pending = lone-Inv.pending;
  apart = lone-Inv.apart;
}

newcomer_swept_example :
    (register P R J lobby third none (all_up P R J id_c 9) (
      check_one P R J
        (is_present P R J up lobby lapsed)
        lobby
        (register P R J lobby guest none (all_up P R J id_b 8) lapsed).0)).1
    ≡ ok (paired id_c guest)
unfolding run
newcomer_swept_example =
    (newcomer_swept P R J lapsed lapsed-Inv lobby guest third id_b id_c 8 9 0 minute lone_waiter
      refl).3
