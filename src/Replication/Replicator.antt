-- ===== src/Replication/Replicator.antt =====
-- replication/replicator.go, `HandleControl` of replication/control.go and the interfaces of
-- replication/transport.go: the sessions of a room, its published snapshots and the frames that are
-- built from them. A call is one step: `begin` and the wait group let `Close` wait for the others, and
-- what may happen between `PrepareLatest` and `Commit` is a step between them.
--
-- The projector is the application's function. The transport acts on an outside world `W` and may have
-- the optional methods of the interfaces; an identity tells comparable transports apart. Sessions are
-- shared objects: the map of the sessions has their places in a store, and a prepared frame keeps the
-- place of its own. The counters of `ReplicatorStats` that only count calls are left out.
pub mod Sessions
pub mod Frames
pub mod Baseline
pub mod Invariant
pub mod Keeping
pub mod Membership
pub mod Calls
pub mod Sending
pub mod Projection
pub mod Delivery
pub mod Epochs
mod Examples
pub mod Scenario
use cube_core.Base.{
  ℕ, suc, Bool, true, false, not, ◌||◌, List, [], ◌∷◌, Option, none, some, ◌==◌, if◌then◌else◌,
}
use cube_core.Base.Results.{Result, ok, err, ◌>>=◌, ◌>>◌, reject_if}
use cube_core.Base.Keys.{nat_key}
use cube_core.Base.Maps.{Map, find, put}
use cube_core.Replication.Types.{
  schema_frozen, Error, invalid_frame, session_not_found, replicator_closed, Limits,
  normalize_limits, default_max_datagram, SessionInfo, Snapshot,
}
use cube_core.Replication.Snapshot.{new_snapshot}
use cube_core.Replication.Ring.{SnapshotRing, new_ring, add}
use cube_core.Replication.Session.{SessionState}

pub record ProjectionContext : Type 0 where
  pub session : SessionInfo
  pub quality_tier : ℕ
  pub previous : Option Snapshot
  pub current : Option Snapshot
  pub full_refresh : Bool

-- A projector, which sees only the session, or a contextual one.
pub data Projector : Type 0 where
  plain : (SessionInfo → Snapshot → Result Error Snapshot) → Projector
  contextual : (ProjectionContext → Snapshot → Result Error Snapshot) → Projector

-- `ProjectorFunc(nil)`.
abbrev pub identity_projector : Projector
identity_projector = plain (λ info s. ok s)

unfoldable pub project : Projector → ProjectionContext → Snapshot → Result Error Snapshot
project (plain f) context s = f context.session s
project (contextual f) context s = f context s

-- `SessionTransport`.
pub record Lifecycle (W : Type 0) : Type 0 where
  pub register : W → SessionInfo → W × Result Error (Unit {0})
  pub remove : W → ℕ → W

pub record Transport (W : Type 0) : Type 0 where
  pub identity : Option ℕ
  pub send_datagram : W → ℕ → List ℕ → W × Result Error (Unit {0})
  pub send_reliable : W → ℕ → List ℕ → W × Result Error (Unit {0})
  pub send_batch : Option (W → ℕ → List (List ℕ) → W × Result Error (Unit {0}))
  pub lifecycle : Option (Lifecycle W)

pub record Replicator (W : Type 0) : Type 0 where
  pub limits : Limits
  pub max_datagram : ℕ
  pub ring : SnapshotRing
  pub projector : Projector
  pub transport : Option (Transport W)
  pub sessions : Map ℕ ℕ
  pub store : Map ℕ SessionState
  pub next_place : ℕ
  pub closed : Bool
  pub wire : W

-- `ReplicatorConfig`, where 0 stands for the values that the defaults replace.
unfoldable pub new_replicator :
    {W : Type 0} → Limits → ℕ → ℕ → Option Projector → Option (Transport W) → W → Replicator W
new_replicator limits ring_size max_datagram projector transport wire = record {
  limits = normalize_limits limits;
  max_datagram = if max_datagram == 0 then default_max_datagram else max_datagram;
  ring = new_ring ring_size;
  projector = elim projector [ none ↦ identity_projector | some p ↦ p ];
  transport = transport;
  sessions = [];
  store = [];
  next_place = 0;
  closed = false;
  wire = wire;
}

-- The place of a session, for a call that begins.
unfoldable pub session_place : {W : Type 0} → Replicator W → ℕ → Result Error ℕ
session_place r id =
    if r.closed
    then err replicator_closed
    else if id == 0
    then err session_not_found
    else elim (find id r.sessions) [ none ↦ err session_not_found | some place ↦ ok place ]

-- The session at a place of the store.
unfoldable pub session_at : {W : Type 0} → Replicator W → ℕ → Result Error SessionState
session_at r place = elim (find place r.store) [ none ↦ err session_not_found | some s ↦ ok s ]

unfoldable pub write_session : {W : Type 0} → Replicator W → ℕ → SessionState → Replicator W
write_session r place s = record r { store = put place s r.store }

unfoldable pub publish :
    {W : Type 0} → Replicator W → Snapshot → Replicator W × Result Error (Unit {0})
publish r s =
    if r.closed then (r, err replicator_closed) else elim (new_snapshot s.meta s.objects r.limits) [
      | err e ↦ (r, err e)
      | ok normalized ↦ elim (add r.ring normalized) [
        | err e ↦ (r, err e)
        | ok ring ↦ (record r { ring = ring }, ok tt)
      ]
    ]

unfoldable pub set_projector :
    {W : Type 0} → Replicator W → Option Projector → Replicator W × Result Error (Unit {0})
set_projector r projector = if r.closed then (r, err replicator_closed) else elim r.sessions [
  | _ ∷ _ ↦ (r, err schema_frozen)
  | [] ↦ elim r.ring.items [
    | _ ∷ _ ↦ (r, err schema_frozen)
    | [] ↦
        (record r { projector = elim projector [ none ↦ identity_projector | some p ↦ p ] }, ok tt)
  ]
]

-- The projection of a snapshot in normal form; a projector must keep the metadata.
unfoldable pub project_and_normalize :
    {W : Type 0} → Replicator W → ProjectionContext → Snapshot → Result Error Snapshot
project_and_normalize r context s = do
  projected ← project r.projector context s
  reject_if
      (not (projected.meta.room_id == s.meta.room_id)
        || not (projected.meta.epoch == s.meta.epoch)
        || not (projected.meta.tick == s.meta.tick)
        || not (projected.meta.schema_version == s.meta.schema_version))
      invalid_frame
  new_snapshot projected.meta projected.objects r.limits
