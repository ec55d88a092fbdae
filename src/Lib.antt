-- ===== src/Lib.antt =====
-- cube-core is a Go library for game servers: entities with locks, messages and checkpoints, and the
-- replication of a room's state to its clients. This library models the parts that decide what a
-- client comes to see, and states what makes them correct.
--
-- The parts and how they interact:
--   * replication/types.go (Replication.Types): limits, references, snapshots and delta frames; the
--     other files of the package use them. The replication policy stands with the schemas.
--   * replication/shadow.go (Replication.Shadow): `ShadowStore`, the copies that business code writes
--     and `Capture` hands to `NewSnapshot`.
--   * replication/snapshot.go (Replication.Snapshot): `NewSnapshot` sorts and checks the objects of a
--     room; a snapshot in this normal form is what all others compare.
--   * replication/delta.go (Replication.Delta): `BuildDelta` merges two snapshots into a frame, and
--     `ApplyDelta` gives the second snapshot back to a receiver that has the first.
--   * replication/codec.go (Replication.Codec): `EncodeFrame` and `DecodeFrame`, the bytes of a frame,
--     and `validateDeltaFrame`, which guards both.
--   * replication/ring.go (Replication.Ring): `SnapshotRing`, the last snapshots of a room by tick.
--   * replication/session.go (Replication.Session): `SessionState`, what one client was sent and has
--     acknowledged; it chooses the baseline of the next frame, or none.
--   * replication/control.go (Replication.Control): the client's acknowledgements and requests for a
--     full frame, with their checksum.
--   * replication/datagram.go (Replication.Datagram, Replication.Reassembler): `FragmentFrame` cuts an
--     encoded frame into datagrams, and `Reassembler` puts them together again.
--   * replication/replicator.go, replication/transport.go (Replication.Replicator): `Replicator`, which
--     drives the parts above for the clients of a room: it publishes snapshots into the ring, prepares
--     a frame for a session, encodes, cuts and sends it, and hands control messages to the session.
--   * replication/schema.go (Replication.Schema): `SchemaRegistry`, component types by identifier and
--     by name.
--   * entity/subject_sync.go (Entity.Profiles, Entity.SubjectSync): `SubjectSyncState`, the content
--     state of one entity: what is dirty, the update that is under way, and its commit or abort.
--   * checkpoint/dirty.go (Checkpoint.Dirty): `DirtyTracker`, the masks of the dirty fields of an
--     entity that are to be written to the store or sent to other servers.
--   * entity/entity_factory.go, entity/policy.go, entity/types.go (Entity.Kinds): the registry of the
--     kinds of entities, their categories, remote policies and builders.
--   * entity/idgen.go, entity/resolver.go (Entity.Ids): the layout of an identifier, which takes the
--     category and policy of its kind from the registry, and `IDGen`, the generator of its numbers.
--   * lock/reentrant_mutex.go (Lock.ReentrantMutex): `ReentrantMutex`.
--   * migration/migration.go (Migration): the registries of migration steps and the loops that run them.
--   * security/ratelimit.go (Security.RateLimit): `RateLimiter`, buckets of tokens by owner and action.
-- Base has what they share: Boolean tests and lists over the native numbers, results, maps with
-- ordered keys, sorting by a key, byte strings with their order, words in them, masks and fields of bits.
--
-- A file translates the functions of one source file, under their names in lower case; its children
-- hold the lemmas and the theorems, named for what they are about, and Examples applies them. A method
-- takes the state and returns the new one with its result; an error is the package's sentinel, and
-- what `%w` wraps around it is left out. Methods that hold a lock are one step, and a theorem about
-- any calls in any order is about a list of them. `prepareLocked` in entity/subject_sync.go lets go
-- of its lock, and is two steps, as are a frame's preparation and its commit by the caller. `IDGen` has
-- no lock: there a step is one atomic operation of one goroutine, and in `ReentrantMutex` one section
-- under its inner lock. `DirtyTracker` has no lock either, but there a method is one step, also where it
-- is several atomic operations in a row. A panic is an answer or an error. Calls on a nil receiver are left out.
--
-- A `Replicator` has the session objects it ever made in a store, since a prepared frame keeps its
-- session while another takes its identifier. The transport, the projector, the steps of migrations
-- and the allocator of blocks of numbers are the application's: they are parameters, or inputs of a
-- step. The transport acts on a world of its own; the projector is a function of its arguments, so that
-- one that keeps a state of its own is not covered.
--
-- Words are natural numbers, with the wrap-around written out where the code can reach it. Limits and
-- durations are `int`s that the code replaces by a default where they are not positive: 0 stands for
-- all of those. A map is an association list with a test of equality on its keys, a string the list of
-- its bytes. Go shares or copies slices, while values are shared here, so copies are the identity.
-- A loop is a recursion over a list or down a count that the code fixes before it (the rounds of
-- `FragmentFrame`, the steps of the checksums). The loops of migrations run on fuel, the distance from
-- the version to the target, which is enough, since the registries hold only steps that go up; the
-- loops that wait for another goroutine are one step of the relation for each round.
--
-- Not modelled: the levels of detail (replication/lod.go), a projector among others; the counters of
-- `Replicator`; the getters of single fields; the lock of the entity and the objects that the builders
-- of kinds make; and the other packages of the repository, which are I/O and glue or await their turn.
pub mod Base
pub mod Lock
pub mod Migration
pub mod Replication
pub mod Security
pub mod Entity
pub mod Checkpoint
