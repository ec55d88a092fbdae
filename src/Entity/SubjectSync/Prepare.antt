-- ===== src/Entity/SubjectSync/Prepare.antt =====
-- entity/subject_sync.go: the preparation of an update, and its end.
use cube_core.Base.{
  ℕ, ◌+◌, ◌%◌, ◌^◌, Bool, true, false, not, ◌&&◌, ◌||◌, List, [], ◌∷◌, Option, none, some, ◌==◌,
  if◌then◌else◌,
}
use cube_core.Base.Results.{Result, ok, err}
use cube_core.Entity.Profiles.{SyncProfile, normalize_sync_profiles}
use cube_core.Entity.SubjectSync.{
  FrozenSyncPayload, sync_full_reason_dirty, sync_full_reason_none, SubjectSyncUpdate,
  SubjectSyncState, SubjectSyncPacker, SyncError, closed, not_dirty, in_flight, packer_missing,
  stale_prepare, finished, raised, pack_failed,
}

-- The local variables of `prepareLocked` while the packer runs.
pub record Begun : Type 0 where
  pub token : ℕ
  pub packer : SubjectSyncPacker
  pub subject_id : ℕ
  pub namespace : List ℕ
  pub subject_kind : ℕ
  pub base_version : ℕ
  pub version : ℕ
  pub mask : ℕ
  pub full : Bool
  pub reason : ℕ
  pub generation : ℕ

pub record PreparedSubjectSync : Type 0 where
  pub token : ℕ
  pub generation : ℕ
  pub base_version : ℕ
  pub version : ℕ
  pub updates : List SubjectSyncUpdate
  pub finished : Bool

unfoldable pub begin_prepare : SubjectSyncState → SubjectSyncState × Result SyncError Begun
begin_prepare s =
    if not s.enabled
    then (s, err closed)
    else if not (s.inflight_token == 0)
    then (s, err in_flight)
    else if (s.dirty_mask == 0) && not s.full_dirty
    then (s, err not_dirty)
    else elim s.packer [
      | none ↦ (record s { last_error = some packer_missing }, err packer_missing)
      | some packer ↦
          let token = (s.next_token + 1) % 2 ^ 64 in
          (
            record s { next_token = token; inflight_token = token },
            ok (record {
              token = token;
              packer = packer;
              subject_id = s.subject_id;
              namespace = s.namespace;
              subject_kind = s.subject_kind;
              base_version = s.version;
              version = (s.version + 1) % 2 ^ 64;
              mask = s.dirty_mask;
              full = s.full_dirty;
              reason =
                  if s.full_dirty && (s.full_reason == sync_full_reason_none)
                  then sync_full_reason_dirty
                  else s.full_reason;
              generation = s.dirty_generation;
            }),
          )
    ]

unfoldable pub fail_prepare : SubjectSyncState → ℕ → SyncError → SubjectSyncState
fail_prepare s token e = record s {
  inflight_token = if s.inflight_token == token then 0 else s.inflight_token;
  last_error = some e;
}

-- What the packer answers for a profile.
abbrev pub packed_as : Begun → SyncProfile → Result ℕ FrozenSyncPayload
packed_as b profile =
    if b.full
    then b.packer.pack_subject_snapshot profile
    else b.packer.pack_subject_delta profile b.mask

abbrev pub update_of : Begun → SyncProfile → FrozenSyncPayload → SubjectSyncUpdate
update_of b profile payload = record {
  subject_id = b.subject_id;
  namespace = b.namespace;
  subject_kind = b.subject_kind;
  profile = profile;
  version = b.version;
  base_version = b.base_version;
  mask = b.mask;
  full = b.full;
  reason = b.reason;
  payload = payload;
}

-- The loop over the profiles; it stops at the packer's first error, with the profile's key.
unfoldable pub pack_updates :
    Begun → List SyncProfile → Result (List ℕ × ℕ) (List SubjectSyncUpdate)
pack_updates b [] = ok []
pack_updates b (profile ∷ profiles) =
    let rest = pack_updates b profiles in
    elim (packed_as b profile) [
      | err e ↦ err (profile.key, e)
      | ok payload ↦ elim rest [
        | err e ↦ err e
        | ok updates ↦ ok (update_of b profile payload ∷ updates)
      ]
    ]

unfoldable pub end_prepare :
    SubjectSyncState
    → Begun
    → List SyncProfile
    → SubjectSyncState × Result SyncError PreparedSubjectSync
end_prepare s b profiles = elim (pack_updates b (normalize_sync_profiles profiles)) [
  | err (key, e) ↦ (fail_prepare s b.token (raised e), err (pack_failed b.subject_id key e))
  | ok updates ↦ (
    s,
    ok (record {
      token = b.token;
      generation = b.generation;
      base_version = b.base_version;
      version = b.version;
      updates = updates;
      finished = false;
    }),
  )
]

unfoldable pub prepare :
    SubjectSyncState → List SyncProfile → SubjectSyncState × Result SyncError PreparedSubjectSync
prepare s profiles =
    let (t, begun) = begin_prepare s in
    elim begun [ err e ↦ (t, err e) | ok b ↦ end_prepare t b profiles ]

-- The state and the prepared update after it.
unfoldable pub commit :
    SubjectSyncState
    → PreparedSubjectSync
    → SubjectSyncState × PreparedSubjectSync × Result SyncError (Unit {0})
commit s p =
    if p.finished
    then (s, p, err finished)
    else if not s.enabled || not (s.inflight_token == p.token) || not (s.version == p.base_version)
    then (
      if s.inflight_token == p.token then record s { inflight_token = 0 } else s,
      record p { finished = true },
      err stale_prepare,
    )
    else (
      record s {
        version = p.version;
        dirty_mask = if s.dirty_generation == p.generation then 0 else s.dirty_mask;
        full_dirty = if s.dirty_generation == p.generation then false else s.full_dirty;
        full_reason =
            if s.dirty_generation == p.generation then sync_full_reason_none else s.full_reason;
        inflight_token = 0;
        last_error = none;
      },
      record p { finished = true },
      ok tt,
    )

unfoldable pub abort_with_error :
    SubjectSyncState
    → PreparedSubjectSync
    → Option SyncError
    → SubjectSyncState × PreparedSubjectSync × Result SyncError (Unit {0})
abort_with_error s p cause =
    if p.finished
    then (s, p, err finished)
    else if not (s.inflight_token == p.token)
    then (s, record p { finished = true }, err stale_prepare)
    else (record s { inflight_token = 0; last_error = cause }, record p { finished = true }, ok tt)
