-- ===== src/Registry/Redis.antt =====
-- server/rust/src/registry.rs: `RedisRegistry`. A call is a chain of commands to the Redis server,
-- each of which may fail, with state and error in one monad: what was done before a failure stays.
-- A `String` that is read back is one that the registry has written, so it is UTF-8.
pub mod Calls
pub mod Keys
pub mod Invariant
pub mod View
pub mod Cases
pub mod Refines
pub mod Preserve
pub mod Deleted
pub mod Taking
pub mod Register
pub mod Elsewhere
pub mod Failures
pub mod Cleanup
pub mod Swept
pub mod Stale
pub mod Others
pub mod Branches
pub mod Joining
use Prim.Native.Char.{code}
use Prim.Native.String.{String}
use tcpunch.Base.{
  ℕ, List, [], ◌∷◌, ◌++◌, Option, none, some, Bool, true, false, Name, name_discrete, Result, ok,
  err, ◌/◌, ◌+◌, length, map, if◌then◌else◌, ite,
}
use tcpunch.Base.Exec.{Exec}
use tcpunch.Platform.{Platform, DashMap}
use tcpunch.Platform.Redis.{RedisApi}
use tcpunch.Protocol.{PeerConnectionData}
use tcpunch.Registry.{
  RegistryConfig, WaitingClient, RegistrationResult, waiting, paired, resumed, RegistryError, redis,
  internal,
}
use tcpunch.Registry.Json.{JsonApi}
use tcpunch.Registry.Spec.{some_decide}

-- The bytes of an ASCII literal.
abbrev pub codes : String → Name
codes String.[] = []
codes (String.◌∷◌ c s) = code c ∷ codes s

unfoldable pub pairing_prefix : Name
pairing_prefix = codes "tcpunch:pairing:"

unfoldable pub token_prefix : Name
token_prefix = codes "tcpunch:token:"

unfoldable pub notify_prefix : Name
notify_prefix = codes "tcpunch:notify:"

unfoldable pub pairing_key : Name → Name
pairing_key pairing_name = pairing_prefix ++ pairing_name

-- How a command fares: it succeeds, is lost on its way, or is carried out and its reply is lost.
pub data Link : Type 0 where
  up lost reply_lost : Link

module _ (P : Platform PeerConnectionData) (R : RedisApi) (J : JsonApi P) where
  open P use {
    uuid.{Uuid, to_string},
    oneshot.{Channels, Sender, Receiver, channel, send, drop_sender},
    DateTime,
  }
  open R use {Store}

  unfoldable pub token_key : Uuid → Name
  token_key token = token_prefix ++ to_string token

  abbrev pub waiter_map : DashMap Name Sender name_discrete
  waiter_map = P.dashmap Name Sender name_discrete

  open waiter_map use {
    Map as Waiters, get as get_waiter, insert as insert_waiter, remove as remove_waiter,
    entries as waiter_entries,
  }

  -- The registry of one server, and the channels that its waiters listen to.
  pub record RedisRegistry : Type 0 where
    pub config : RegistryConfig
    pub local_waiters : Waiters
    pub channels : Channels

  -- The Redis server, which all servers share, and one registry.
  pub record Site : Type 0 where
    pub store : Store
    pub registry : RedisRegistry

  -- What a call draws from outside: the fresh token, the date, and how each of its commands fares.
  pub record Draw : Type 0 where
    pub token : Uuid
    pub date : DateTime
    pub on_get : Link
    pub on_getdel : Link
    pub on_del : Link
    pub on_publish : Link
    pub on_setex : Link
    pub on_setex_token : Link

  -- A call of the registry.
  abbrev pub Call : Type 0 → Type 0
  Call A = Exec Site RegistryError A

  -- `query_async(..).await?` of a command.
  unfoldable pub query : {A : Type 0} → Link → (Store → Store × Result A RegistryError) → Call A
  query up command s = (record s { store = (command s.store).0 }, (command s.store).1)
  query lost command s = (s, err redis)
  query reply_lost command s = (record s { store = (command s.store).0 }, err redis)

  abbrev pub get_command : Name → Store → Store × Result (Option Name) RegistryError
  get_command key st = (st, ok (R.get st key))

  abbrev pub getdel_command : Name → Store → Store × Result (Option Name) RegistryError
  getdel_command key st = let (st', value) = R.getdel st key in (st', ok value)

  abbrev pub del_command : Name → Store → Store × Result (Unit {0}) RegistryError
  del_command key st = (R.del st key, ok tt)

  -- An error reply is an error of the query.
  abbrev pub setex_reply : Store → Option Store → Store × Result (Unit {0}) RegistryError
  setex_reply st none = (st, err redis)
  setex_reply st (some st') = (st', ok tt)

  abbrev pub setex_command : Name → ℕ → Name → Store → Store × Result (Unit {0}) RegistryError
  setex_command key seconds value st = setex_reply st (R.setex st key seconds value)

  abbrev pub publish_command : Name → Name → Store → Store × Result (Unit {0}) RegistryError
  publish_command to message st = (R.publish st to message, ok tt)

  -- A sender that is replaced or taken out of the map is dropped.
  unfoldable pub drop_waiter : Channels → Option Sender → Channels
  drop_waiter cs none = cs
  drop_waiter cs (some tx) = drop_sender cs tx

  -- A new channel, whose sender waits under the name.
  unfoldable pub wait_here : Name → Call Receiver
  unfolding drop_waiter
  wait_here name s =
      let r = s.registry in
      let (channels, tx, rx) = channel r.channels in
      (
        record s {
          registry = record r {
            local_waiters = insert_waiter r.local_waiters name tx;
            channels = drop_waiter channels (get_waiter r.local_waiters name);
          };
        },
        ok rx,
      )

  -- `pairing_timeout.as_secs()`
  abbrev pub ttl_secs : RegistryConfig → ℕ
  ttl_secs config = config.pairing_timeout / 1000

  abbrev pub new_waiting : RegistryConfig → PeerConnectionData → Uuid → DateTime → WaitingClient P
  new_waiting config info token date = record {
    connection_info = info;
    reconnect_token = token;
    server_id = config.server_id;
    registered_at = date;
  }
