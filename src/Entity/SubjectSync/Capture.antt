-- ===== src/Entity/SubjectSync/Capture.antt =====
-- entity/subject_sync.go: snapshots of the content.
use cube_core.Base.{ℕ, true, not, List, [], ◌∷◌, none, some, ◌==◌, if◌then◌else◌}
use cube_core.Base.Results.{Result, ok, err}
use cube_core.Entity.Profiles.{SyncProfile, normalize_sync_profiles}
use cube_core.Entity.SubjectSync.{
  FrozenSyncPayload, sync_full_reason_resync, sync_full_reason_none, SubjectSyncUpdate,
  SubjectSyncState, SubjectSyncPacker, SyncError, closed, packer_missing, snapshot_failed,
}

abbrev pub captured_as : SubjectSyncState → ℕ → SyncProfile → FrozenSyncPayload → SubjectSyncUpdate
captured_as s reason profile payload = record {
  subject_id = s.subject_id;
  namespace = s.namespace;
  subject_kind = s.subject_kind;
  profile = profile;
  version = s.version;
  base_version = s.version;
  mask = 0;
  full = true;
  reason = reason;
  payload = payload;
}

-- The loop of `CaptureSnapshot`; it stops at the packer's first error.
unfoldable pub capture_updates :
    SubjectSyncPacker
    → SubjectSyncState
    → ℕ
    → List SyncProfile
    → Result SyncError (List SubjectSyncUpdate)
capture_updates packer s reason [] = ok []
capture_updates packer s reason (profile ∷ profiles) =
    let rest = capture_updates packer s reason profiles in
    elim (packer.pack_subject_snapshot profile) [
      | err e ↦ err (snapshot_failed s.subject_id profile.key e)
      | ok payload ↦ elim rest [
        | err e ↦ err e
        | ok updates ↦ ok (captured_as s reason profile payload ∷ updates)
      ]
    ]

unfoldable pub capture_result :
    SubjectSyncState → List SyncProfile → ℕ → Result SyncError (List SubjectSyncUpdate)
capture_result s profiles reason = if not s.enabled then err closed else elim s.packer [
  | none ↦ err packer_missing
  | some packer ↦
      capture_updates packer s
        (if reason == sync_full_reason_none then sync_full_reason_resync else reason)
        (normalize_sync_profiles profiles)
]

unfoldable pub capture_snapshot :
    SubjectSyncState
    → List SyncProfile
    → ℕ
    → SubjectSyncState × Result SyncError (List SubjectSyncUpdate)
capture_snapshot s profiles reason = elim (capture_result s profiles reason) [
  | err e ↦ (record s { last_error = some e }, err e)
  | ok updates ↦ (record s { last_error = none }, ok updates)
]
