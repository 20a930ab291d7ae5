-- ===== src/Lib.antt =====
-- The Redis cluster coordinator of mcpg: a key/value store, leases, peers and messages that the
-- replicas of a gateway share through one Redis.
--
-- Redis is not part of the program. It is a parameter, a `Server` (Redis/Server.antt): some state,
-- the commands the coordinator sends, and a `view` of the state under which each command has the
-- effect and the reply that its documentation states (`documented`, Redis/Commands.antt). The view
-- is the server's clock and what each key holds: a string or a sorted set, with a deadline.
-- Tests/Memory.antt has a server that keeps these laws. A Lua script is a `Script` (Script.antt):
-- it runs alone on the server, and an error of one of its commands ends it and keeps what it wrote.
--
-- A replica is a `Client` (Client.antt): its requests meet a `schedule` of events, in which other
-- clients and time change the store before a request and between the commands of a pipeline, and a
-- request or its reply is lost. Client/Keep.antt carries invariants of the store through any
-- schedule. A schedule may be of any length; past its end nothing else happens.
--
-- Which file models which part of the code:
--   Config               the configuration, its validation, the URL in logs (src/config.rs)
--   Config/Load          how it is loaded, and the client that it makes (src/config.rs, src/lib.rs)
--   Keys                 the names of keys (src/state/kv.rs, src/lib.rs, src/peer.rs, src/pubsub.rs)
--   Kv/Scripts           the Lua scripts that write the store (src/state/kv.rs)
--   Kv/Store             `impl KeyValueStore for RedisKv`, but the listings (src/state/kv.rs)
--   Kv/Listing           the listings, by the key index and by SCAN (src/state/kv.rs)
--   Kv/Upkeep            pruning, sweeping and filling the key index (src/state/kv.rs)
--   Kv/Spec              the store as a map from keys to values with deadlines, on a clock
--   Kv/Spec/Steps        runs of the store's operations, beside those of the map
--   Kv/Simulate          the scripts do on a server what they do on its view
--   Kv/Effect, Kv/Index  what the scripts do, and what the two indexes promise
--   Envelope             the envelope of published payloads (src/envelope.rs)
--   PubSub               messages, subscriptions and the topic bus (src/pubsub.rs, src/state/topic.rs)
--   Lease, Lease/Scripts leases (src/lease.rs)
--   Lease/Run            the lease scripts of several replicas in any order
--   Peer, Peer/Watch     registrations, and `watch_peers` (src/peer.rs, src/lib.rs)
--   Maintenance          the task that sweeps and gates the key index (src/maintenance.rs)
--   Backend              how the plugin composes these (src/lib.rs)
--   Host                 the plugin's life and the operations the host calls (src/lib.rs, src/peer.rs)
--   Host/Leases          the host's pointers to leases, and their reference counts (src/lease.rs)
--   Host/Locks           the leases that the host asks for (src/lib.rs)
-- The operations of the store and the leases run scripts on the server; the maintenance task lists
-- the peers, takes a lease, sweeps the index and sets the mark that listings go by. A model has the
-- name of the function, type or Lua script that it models, a script in snake case (`SET_LUA` is
-- `set_script`).
--
-- Parameters besides Redis: SCAN, PUBLISH, the JSON of registrations, of scan cursors and of the
-- configuration, the set-up of the connection (`connect` of the backend, `open_manager` of the
-- host), the constructors of the Redis client, files, the hasher, HOSTNAME and the random suffix of a
-- node id.
--
-- Strings are lists of bytes, in `Config` and in the blank test of a lease's name of code points.
-- Times are natural numbers: of a `Duration` nanoseconds, on a clock Unix milliseconds, and an
-- RFC 3339 text is its Unix seconds; an `Instant` is read off the replica's clock. `ClusterError`
-- has no texts, and one case more, `panicked`, for a call that panics. Lua computes with doubles:
-- times are taken as exact, which holds below 2^53 ms; where a counter's value is computed
-- (`Codec.round`) and where a counter's reply comes out of a script (`return_integer`,
-- `Codec.through_lua`), rounding is part of the model, exact up to 2^53. The theorems on the store
-- ask for a TTL below 2^52 ms and a server clock below it. The calendar of `chrono` ends with the
-- year 262142 (`calendar_end`), and a lease that would end after it panics. A `u64` product wraps.
--
-- Loops that wait for the server (sweep, backfill, SCAN, the waiting acquire) run on fuel, a unit a
-- round; how many rounds they take is up to the server and the other clients, so no bound is fixed,
-- and the theorems about them hold for any fuel. Where fuel ends, a loop answers what it has so far.
-- The `LegacyPeerScan` after a listing that fails is taken as it was before.
--
-- An operation of the host takes the cells of the plugin (`Cells`) and gives them back, whether it
-- fails or not. A pointer of the host is an address of a `Heap`; an abort drops the task's reference
-- at once, and each operation runs to its end before the next.
--
-- Not modelled: the vtable of the host and the forwarding of streams over it, the handshake of TLS,
-- the runtime, operations that run at the same time on one handle, the reconnects of the
-- connection, logging, the manifest, the tests.
pub mod Common
pub mod Script
pub mod Redis
pub mod Client
pub mod Envelope
pub mod Keys
pub mod Lease
pub mod Kv
pub mod Tests
pub mod Config
pub mod Peer
pub mod Backend
pub mod Host
pub mod Maintenance
pub mod PubSub
