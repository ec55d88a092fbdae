-- ===== src/Replication/Types.antt =====
-- replication/types.go: the limits, object references, snapshots and delta frames of the package.
-- A machine word is a natural number; where the code can wrap, the wrap-around is written out. A
-- limit is an `int` of which only the positive values are told apart (`normalize_limits` comes
-- before every use), so 0 stands for all values up to 0. A byte is a number below 256.
use cube_core.Base.{
  refl, ℕ, ◌≡◌, ◌↔◌, Bool, true, false, not, ◌&&◌, ◌||◌, List, arith, ltb, ◌==◌, if◌then◌else◌,
}
use cube_core.Base.Keys.{Key}
use cube_core.Base.Results.{Result, ok, err}

-- The package's sentinel errors; an error that wraps one by `%w` is that one here.
pub data Error : Type 0 where
  invalid_object_ref object_not_found object_limit component_limit component_too_large : Error
  frame_too_large invalid_frame baseline_mismatch snapshot_not_found session_not_found : Error
  invalid_ack invalid_control prepared_frame_stale invalid_datagram checksum_mismatch : Error
  fragment_limit reassembly_capacity transport_missing replicator_closed schema_frozen : Error
  invalid_lod : Error
  -- Errors with no sentinel: a component type or name that stands in the registry already, a
  -- session that is registered already.
  already_registered : Error

pub record Limits : Type 0 where
  pub max_objects : ℕ
  pub max_components_per_object : ℕ
  pub max_component_bytes : ℕ
  pub max_frame_bytes : ℕ
  pub max_datagram_bytes : ℕ
  pub max_fragments : ℕ
  pub max_inflight_frames : ℕ

abbrev pub default_max_datagram : ℕ
default_max_datagram = 1200

abbrev pub protocol_version : ℕ
protocol_version = 1

abbrev pub default_snapshot_rate_hz : ℕ
default_snapshot_rate_hz = 20

abbrev pub default_limits : Limits
default_limits = record {
  max_objects = 100;
  max_components_per_object = 64;
  max_component_bytes = 65536;
  max_frame_bytes = 4194304;
  max_datagram_bytes = default_max_datagram;
  max_fragments = 64;
  max_inflight_frames = 32;
}

abbrev or_default : ℕ → ℕ → ℕ
or_default v d = if v == 0 then d else v

unfoldable pub normalize_limits : Limits → Limits
normalize_limits l = record {
  max_objects = or_default l.max_objects default_limits.max_objects;
  max_components_per_object =
      or_default l.max_components_per_object default_limits.max_components_per_object;
  max_component_bytes = or_default l.max_component_bytes default_limits.max_component_bytes;
  max_frame_bytes = or_default l.max_frame_bytes default_limits.max_frame_bytes;
  max_datagram_bytes = or_default l.max_datagram_bytes default_limits.max_datagram_bytes;
  max_fragments = or_default l.max_fragments default_limits.max_fragments;
  max_inflight_frames = or_default l.max_inflight_frames default_limits.max_inflight_frames;
}

pub record ObjectRef : Type 0 where
  pub id : ℕ
  pub generation : ℕ

unfoldable pub valid_ref : ObjectRef → Bool
valid_ref r = not (r.id == 0) && not (r.generation == 0)

unfoldable pub less_ref : ObjectRef → ObjectRef → Bool
less_ref r other =
    if not (r.id == other.id) then ltb r.id other.id else ltb r.generation other.generation

-- `==` on two references.
unfoldable pub same_ref : ObjectRef → ObjectRef → Bool
same_ref r s = (r.id == s.id) && (r.generation == s.generation)

pub same_ref_iff : (r s : ObjectRef) → (same_ref r s ≡ true) ↔ (r ≡ s)
unfolding same_ref
same_ref_iff r s = ground arith

pub less_ref_irrefl : (r : ObjectRef) → less_ref r r ≡ false
unfolding less_ref
less_ref_irrefl r = ground arith

pub less_ref_trans :
    (r s t : ObjectRef) → less_ref r s ≡ true → less_ref s t ≡ true → less_ref r t ≡ true
unfolding less_ref
less_ref_trans r s t h k = ground arith

pub less_ref_connex : (r s : ObjectRef) → less_ref r s ≡ false → less_ref s r ≡ false → r ≡ s
unfolding less_ref
less_ref_connex r s h k = ground arith

instance abbrev pub ref_key : Key ObjectRef
ref_key = record {
  lt = less_ref;
  eq = same_ref;
  eq_iff = same_ref_iff;
  lt_irrefl = less_ref_irrefl;
  lt_trans = less_ref_trans;
  lt_connex = less_ref_connex;
}

pub record SnapshotMeta : Type 0 where
  pub room_id : ℕ
  pub epoch : ℕ
  pub tick : ℕ
  pub schema_version : ℕ

unfoldable pub validate_meta : SnapshotMeta → Result Error (Unit {0})
validate_meta m =
    if (m.room_id == 0) || (m.epoch == 0) || (m.tick == 0) || (m.schema_version == 0)
    then err invalid_frame
    else ok tt

pub record ComponentState : Type 0 where
  pub type_id : ℕ
  pub schema_version : ℕ
  pub bytes : List ℕ

pub record ObjectState : Type 0 where
  pub ref : ObjectRef
  pub archetype : ℕ
  pub components : List ComponentState

pub record Snapshot : Type 0 where
  pub meta : SnapshotMeta
  pub objects : List ObjectState

-- The enumerations of the wire format are numbers, since a decoded one may be out of range.
abbrev pub frame_full : ℕ
frame_full = 1

abbrev pub frame_delta : ℕ
frame_delta = 2

abbrev pub object_create : ℕ
object_create = 1

abbrev pub object_update : ℕ
object_update = 2

abbrev pub object_remove : ℕ
object_remove = 3

abbrev pub component_set : ℕ
component_set = 1

abbrev pub component_remove : ℕ
component_remove = 2

pub record ComponentDelta : Type 0 where
  pub operation : ℕ
  pub type_id : ℕ
  pub schema_version : ℕ
  pub bytes : List ℕ

pub record ObjectDelta : Type 0 where
  pub operation : ℕ
  pub ref : ObjectRef
  pub archetype : ℕ
  pub components : List ComponentDelta

pub record DeltaFrame : Type 0 where
  pub meta : SnapshotMeta
  pub kind : ℕ
  pub base_tick : ℕ
  pub objects : List ObjectDelta

abbrev pub zero_meta : SnapshotMeta
zero_meta = record { room_id = 0; epoch = 0; tick = 0; schema_version = 0 }

pub record SessionInfo : Type 0 where
  pub id : ℕ
  pub owner_id : ℕ
  pub team_id : ℕ
  pub roles : ℕ

or_default_idem : (v d : ℕ) → (d == 0) ≡ false → or_default (or_default v d) d ≡ or_default v d
or_default_idem v d h = ground arith

pub normalize_limits_idem :
    (l : Limits) → normalize_limits (normalize_limits l) ≡ normalize_limits l
unfolding normalize_limits
normalize_limits_idem l i = record {
  max_objects = or_default_idem l.max_objects 100 refl i;
  max_components_per_object = or_default_idem l.max_components_per_object 64 refl i;
  max_component_bytes = or_default_idem l.max_component_bytes 65536 refl i;
  max_frame_bytes = or_default_idem l.max_frame_bytes 4194304 refl i;
  max_datagram_bytes = or_default_idem l.max_datagram_bytes 1200 refl i;
  max_fragments = or_default_idem l.max_fragments 64 refl i;
  max_inflight_frames = or_default_idem l.max_inflight_frames 32 refl i;
}
