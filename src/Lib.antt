-- ===== src/Lib.antt =====
-- The TCPunch rendezvous server (server/rust): two clients that name the same pairing are told
-- each other's public address, so that they can punch a TCP connection through their NATs.
--
-- A client sends a request with a pairing name and perhaps a token; the server registers it in a
-- registry, and answers with a status, the client's own address, the peer's address once there
-- is one, and a token for reconnecting.
--
-- The parts, and the files that model them:
--
-- * Protocol (server/rust/src/protocol.rs): the constants, types and conversions; Protocol/Text
--   has null-terminated strings and UTF-8, Protocol/Wire the writes into a buffer,
--   Protocol/Request and Protocol/Response the two messages. `from_bytes` and `to_bytes` keep
--   their names. A byte is a number, a String the list of its UTF-8 bytes, an Option result of
--   `to_bytes` has `none` for a panic.
-- * Registry (server/rust/src/registry.rs): the shared types; Registry/InMemory the in-memory
--   registry, with `register`, `unregister`, `active_count` and `cleanup_expired`; its children
--   are about its branches, its invariant, the abstract rendezvous in Registry/Spec, and
--   histories of calls; Registry/InMemory/Race cuts `register` where another thread can come
--   between; Registry/InMemory/Locks has the locks of the two maps that `register` and
--   `cleanup_expired` hold; below it, Deadlock is about when they wait for one another, and
--   Progress about when they go on; Registry/InMemory/Ticker is the cleanup task by the clock,
--   Registry/InMemory/CutShort is about the age of a client that comes back, and
--   Registry/InMemory/Fade about the calls that only take entries away. Registry/Redis is the
--   registry that several servers share, each call a chain of commands in the monad of
--   Base/Exec; its module Calls has the operations, and the others are about its invariant, its
--   view as a rendezvous, two servers on one store (Elsewhere), failing commands (Failures) and
--   the sweep (Cleanup, Swept, and Stale, where a call comes between its question and the
--   answer's use). Registry/Json has the crate serde_json as an interface, with a date no finer
--   than the milliseconds that are written. Registry/Seats and Registry/Backends put the two
--   registries side by side.
-- * Server (server/rust/src/server.rs): the configuration; Server/Metrics has the counters, 64
--   bits wide, Server/Connection `handle_connection` cut at its `await` points, Server/Accept
--   `run_server` with its tasks as a step relation; Server/Counts, Server/LifeCycle and
--   Server/Bookkeeping are about the counters, Server/Progress about the steps that tasks take,
--   Server/Limit about the connection limit, Server/Conversation about what one client hears;
--   Server/Service is the server over its in-memory registry, where a wait ends as its channel
--   says; its children are about what the tasks know of one another (Listener, Inserting,
--   Joining, Sound), what clients are told (Truth), which channel a task listens to (Apart),
--   that its receiver stays (Attended), what becomes of a client whose peer has arrived (Sent,
--   Fate, Partner, Together), and the bytes of what the server writes (Wire). Server/Meeting,
--   Server/Abandoned and Server/WrongToken put the server, the wire format and the in-memory
--   registry together.
-- * Registry/Dispatch (server/rust/src/registry.rs): the enum `Registry`, and in Either what
--   holds of both of its cases.
-- * Startup (server/rust/src/main.rs): the arguments, the configurations and the registry made
--   of them, and the drain at the end; Startup/Program starts the server and the health endpoint
--   beside it, over Registry/Dispatch/Operations; Startup/Timeout is about a peer timeout that
--   Redis refuses, Startup/Drain about the drain of a server.
-- * Health (server/rust/src/health.rs): the responses of the health endpoint; Health/Report is
--   about what they say of a running server, Health/Prometheus the text of the metrics endpoint,
--   Health/Scrape what a reader of it finds, and Health/Router the routes.
-- * Uuid and Platform: the crates uuid, dashmap, tokio (one-shot channels), chrono and redis
--   (with its server), which the repository does not contain, as records of operations with
--   their documented behaviour. Platform/Assoc and Platform/Slots are values of these records,
--   over which Tests runs.
--
-- Time, fresh tokens and dates are arguments of the calls that draw them. Durations and instants
-- count milliseconds. A fresh token is assumed not to be in the token index. A step of the
-- server takes how its read, write or wait ended as an argument, and the cleanup task and other
-- servers may change the registry to anything between two steps, so that what holds of every
-- schedule holds of those that the network and the registry allow. A command to the Redis server
-- succeeds, is lost, or is carried out and its reply lost; keys expire between two calls of a
-- registry. In Server/Service the registry changes by the calls of the connections and the
-- cleanup only. In Registry/InMemory/Locks, which keys share a shard of a `DashMap`, and so a
-- lock, is a parameter, and the cleanup walks over the shard of one name. The loop of the Redis
-- registry's background task, the command line parser, logging, signals and how the tasks are
-- spawned are not modelled. Every loop is a recursion on a list; the digits of a number
-- (Base/Decimal) take as much fuel as the number and one, and a number has fewer digits than
-- that.
mod Base
pub mod Uuid
pub mod Protocol
pub mod Platform
pub mod Registry
pub mod Server
pub mod Health
pub mod Startup
mod Tests
