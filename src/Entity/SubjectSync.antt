-- ===== src/Entity/SubjectSync.antt =====
-- entity/subject_sync.go: the content state of a subject. The code's methods lock the state; each is
-- one step here. `prepareLocked` lets go of the lock while the packer runs, so it is two steps,
-- `begin_prepare` and `end_prepare`, between which other calls may come; `Close` and
-- `CaptureSnapshot` take the prepare lock and do not. Calls on a nil state return at once and are
-- left out, and so is the entity's lock, under which a caller may run `Prepare`. The packer and the
-- notifier are the caller's: a packer is a pair of functions whose errors are numbers, a notifier a
-- number, and a method that calls it hands it back.
pub mod Prepare
pub mod Capture
pub mod Packing
pub mod Marks
pub mod Behaviour
pub mod Endings
mod Examples
use cube_core.Base.{
  ℕ, ◌+◌, ◌%◌, ◌^◌, bit_or, Bool, true, false, not, ◌&&◌, ◌||◌, List, [], ◌∷◌, Option, none, some,
  ◌==◌, if◌then◌else◌,
}
use cube_core.Base.Results.{Result, ok, err}
use cube_core.Entity.Profiles.{SyncProfile, normalize_sync_profiles}

pub data SyncError : Type 0 where
  closed not_dirty in_flight packer_missing stale_prepare finished : SyncError
  -- What the packer answers, as it is and with the subject and the profile.
  raised : ℕ → SyncError
  pack_failed snapshot_failed : ℕ → List ℕ → ℕ → SyncError

abbrev pub sync_full_reason_none : ℕ
sync_full_reason_none = 0

abbrev pub sync_full_reason_dirty : ℕ
sync_full_reason_dirty = 1

abbrev pub sync_full_reason_resync : ℕ
sync_full_reason_resync = 2

pub record FrozenSyncPayload : Type 0 where
  pub codec : ℕ
  pub bytes : List ℕ

pub record SubjectSyncPacker : Type 0 where
  pub pack_subject_snapshot : SyncProfile → Result ℕ FrozenSyncPayload
  pub pack_subject_delta : SyncProfile → ℕ → Result ℕ FrozenSyncPayload

pub record SubjectSyncUpdate : Type 0 where
  pub subject_id : ℕ
  pub namespace : List ℕ
  pub subject_kind : ℕ
  pub profile : SyncProfile
  pub version : ℕ
  pub base_version : ℕ
  pub mask : ℕ
  pub full : Bool
  pub reason : ℕ
  pub payload : FrozenSyncPayload

pub record SubjectSyncState : Type 0 where
  pub enabled : Bool
  pub subject_id : ℕ
  pub namespace : List ℕ
  pub subject_kind : ℕ
  pub version : ℕ
  pub dirty_mask : ℕ
  pub full_dirty : Bool
  pub full_reason : ℕ
  pub dirty_generation : ℕ
  pub packer : Option SubjectSyncPacker
  pub dirty_notifier : Option ℕ
  pub next_token : ℕ
  pub inflight_token : ℕ
  pub last_error : Option SyncError

pub record SubjectSyncCreateParam : Type 0 where
  pub enabled : Bool
  pub subject_id : ℕ
  pub namespace : List ℕ
  pub subject_kind : ℕ
  pub packer : Option SubjectSyncPacker

unfoldable pub new_subject_sync_state : SubjectSyncCreateParam → Option SubjectSyncState
new_subject_sync_state param =
    if not param.enabled
    then none
    else some (record {
      enabled = true;
      subject_id = param.subject_id;
      namespace = param.namespace;
      subject_kind = param.subject_kind;
      version = 0;
      dirty_mask = 0;
      full_dirty = false;
      full_reason = sync_full_reason_none;
      dirty_generation = 0;
      packer = param.packer;
      dirty_notifier = none;
      next_token = 0;
      inflight_token = 0;
      last_error = none;
    })

unfoldable pub pending_dirty : SubjectSyncState → Bool
pending_dirty s = not (s.dirty_mask == 0) || s.full_dirty

unfoldable pub set_packer : SubjectSyncState → Option SubjectSyncPacker → SubjectSyncState
set_packer s packer = record s { packer = packer }

-- With the notifier to call after it.
unfoldable pub set_dirty_notifier : SubjectSyncState → Option ℕ → SubjectSyncState × Option ℕ
set_dirty_notifier s notifier = (
  if s.enabled then record s { dirty_notifier = notifier } else s,
  if s.enabled && pending_dirty s then notifier else none,
)

unfoldable pub mark_dirty : SubjectSyncState → ℕ → SubjectSyncState × Option ℕ
mark_dirty s mask = if (mask == 0) || not s.enabled then (s, none) else (
  record s {
    dirty_mask = bit_or s.dirty_mask mask;
    dirty_generation = (s.dirty_generation + 1) % 2 ^ 64;
  },
  s.dirty_notifier,
)

unfoldable pub mark_full_dirty : SubjectSyncState → ℕ → SubjectSyncState × Option ℕ
mark_full_dirty s reason = if not s.enabled then (s, none) else (
  record s {
    full_dirty = true;
    full_reason = if reason == sync_full_reason_none then sync_full_reason_dirty else reason;
    dirty_mask = 0;
    dirty_generation = (s.dirty_generation + 1) % 2 ^ 64;
  },
  s.dirty_notifier,
)

unfoldable pub close : SubjectSyncState → SubjectSyncState
close s = record s {
  enabled = false;
  dirty_mask = 0;
  full_dirty = false;
  full_reason = sync_full_reason_none;
  inflight_token = 0;
  packer = none;
  dirty_notifier = none;
}
