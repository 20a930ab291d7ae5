-- ===== src/Tests.antt =====
-- A concrete server, and the theorems at concrete inputs.
mod Memory
mod Kv
mod Spec
mod Lease
mod Envelope
mod Config
mod PubSub
mod Maintenance
mod Handle
mod Renewal
mod Host
mod Load
mod Glob
mod Bounds
