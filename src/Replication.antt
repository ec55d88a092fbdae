-- ===== src/Replication.antt =====
-- The package replication/: snapshots of a room's objects, deltas between them, their codec and
-- datagrams, and the per-session state of the server.
pub mod Types
pub mod Snapshot
pub mod Delta
pub mod Ring
pub mod Session
pub mod Control
pub mod Codec
pub mod Datagram
pub mod Reassembler
pub mod Replicator
pub mod Shadow
pub mod Schema
