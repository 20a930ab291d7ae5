-- ===== src/Redis.antt =====
-- The Redis server is no code of this repository: its state and its commands are parameters. The
-- children say what its documentation promises of them.
pub mod Zset
pub mod View
pub mod Commands
pub mod Server
