-- ===== src/Entity/SubjectSync/Examples.antt =====
-- A subject whose packer counts.
use cube_core.Base.Maps.{put}
use cube_core.Base.Bytes.{bytes_equal}
use cube_core.Base.Ordered.{put_all}
use cube_core.Base.Sorting.{sort_by}
use cube_core.Base.Results.{Result, err, ok}
use cube_core.Base.{arith, ◌≢◌, All, map, ℕ, ◌≡◌, List, [], ◌∷◌, some, refl, none, inr, true, false}
use cube_core.Entity.Profiles.{profile_key, SyncProfile, normalize_sync_profiles, normalize_profile}
use cube_core.Entity.SubjectSync.{
  mark_dirty, SyncError, finished, Result, ok, err, SubjectSyncState, SubjectSyncPacker, closed,
  close, pending_dirty, SubjectSyncUpdate,
}
use cube_core.Entity.SubjectSync.Prepare.{
  pack_updates, Begun, PreparedSubjectSync, begin_prepare, end_prepare, prepare, commit,
  abort_with_error,
}
use cube_core.Entity.SubjectSync.Capture.{capture_updates, capture_result, capture_snapshot}
use cube_core.Entity.SubjectSync.Packing.{Describes, Shows, prepare_lem, capture_snapshot_lem}
use cube_core.Entity.SubjectSync.Marks.{bits, mark, marks, counted}
use cube_core.Entity.SubjectSync.Behaviour.{commit-marks, commit_once}
use cube_core.Entity.SubjectSync.Endings.{begin_prepare-abort, close_lem}

abbrev packer : SubjectSyncPacker
packer = record {
  pack_subject_snapshot = λ p. ok (record { codec = 1; bytes = p.key });
  pack_subject_delta = λ p mask. ok (record { codec = 2; bytes = mask ∷ [] });
}

abbrev near : SyncProfile
near = record { key = 110 ∷ []; lod = 1; schema_version = 3 }

abbrev idle : ℕ → ℕ → SubjectSyncState
idle version mask = record {
  enabled = true;
  subject_id = 8;
  namespace = 117 ∷ [];
  subject_kind = 2;
  version = version;
  dirty_mask = mask;
  full_dirty = false;
  full_reason = 0;
  dirty_generation = 4;
  packer = some packer;
  dirty_notifier = none;
  next_token = 6;
  inflight_token = 0;
  last_error = none;
}

abbrev busy : SubjectSyncState
busy = record (idle 5 3) { next_token = 7; inflight_token = 7 }

abbrev begun : Begun
begun = record {
  token = 7;
  packer = packer;
  subject_id = 8;
  namespace = 117 ∷ [];
  subject_kind = 2;
  base_version = 5;
  version = 6;
  mask = 3;
  full = false;
  reason = 0;
  generation = 4;
}

abbrev update : SubjectSyncUpdate
update = record {
  subject_id = 8;
  namespace = 117 ∷ [];
  subject_kind = 2;
  profile = near;
  version = 6;
  base_version = 5;
  mask = 3;
  full = false;
  reason = 0;
  payload = record { codec = 2; bytes = 3 ∷ [] };
}

abbrev prepared : PreparedSubjectSync
prepared = record {
  token = 7;
  generation = 4;
  base_version = 5;
  version = 6;
  updates = update ∷ [];
  finished = false;
}

abbrev done : PreparedSubjectSync
done = record prepared { finished = true }

-- Another mark has come while the update was on its way.
abbrev after : SubjectSyncState
after = record busy { version = 6; dirty_mask = 11; dirty_generation = 5; inflight_token = 0 }

prepare_lem_example :
    (prepared.base_version ≡ 5)
    × (prepared.version ≡ 6)
    × (prepared.generation ≡ 4)
    × (prepared.token ≡ 7)
    × (prepared.finished ≡ false)
    × (busy ≡ record (idle 5 3) { next_token = 7; inflight_token = 7 })
    × (map (λ (u : SubjectSyncUpdate). u.profile) prepared.updates
        ≡ normalize_sync_profiles (near ∷ []))
    × ((k : SubjectSyncPacker) × (some packer ≡ some k)
        × All (Describes (idle 5 3) k) prepared.updates)
unfolding prepare begin_prepare end_prepare normalize_sync_profiles pack_updates sort_by put_all put
    normalize_profile bytes_equal
prepare_lem_example = prepare_lem (idle 5 3) busy (near ∷ []) prepared refl

abbrev accepted : Result SyncError (Unit {0})
accepted = ok tt

commit-marks_example : (accepted ≡ ok tt) × (after.version ≡ 6) × (pending_dirty after ≡ true)
unfolding begin_prepare end_prepare commit marks mark counted normalize_sync_profiles pack_updates
    sort_by put_all put normalize_profile bytes_equal mark_dirty
commit-marks_example =
    commit-marks (idle 5 3) busy busy after begun (near ∷ []) prepared done [] (bits 8 ∷ []) (ok tt)
      (omega arith) (omega arith) refl refl refl

commit_once_example :
    (commit after done ≡ (after, done, err finished))
    × ((commit (marks after (bits 1 ∷ [])) (record prepared { token = 6 })).2 ≢ ok tt)
    × ((commit (marks after (bits 1 ∷ [])) (record prepared { token = 6 })).0
        ≡ marks after (bits 1 ∷ []))
unfolding commit
commit_once_example =
    commit_once (record busy { dirty_mask = 11; dirty_generation = 5 }) after prepared done
      (record prepared { token = 6 }) (bits 1 ∷ []) refl (omega arith)

begin_prepare-abort_example :
    ((idle 5 3).version ≡ 5)
    × ((idle 5 3).dirty_mask ≡ 3)
    × ((idle 5 3).full_dirty ≡ false)
    × ((begin_prepare (record busy { inflight_token = 0 })).1 ≡ ok (record begun { token = 8 }))
unfolding begin_prepare end_prepare abort_with_error normalize_sync_profiles pack_updates sort_by
    put_all put normalize_profile bytes_equal
begin_prepare-abort_example =
    begin_prepare-abort (idle 5 3) busy (record busy { inflight_token = 0 }) begun prepared none
      (near ∷ []) closed refl (inr (refl, refl))

close_lem_example :
    ((begin_prepare (marks (close busy) (bits 1 ∷ []))).1 ≡ err closed)
    × ((commit (marks (close busy) (bits 1 ∷ [])) prepared).2 ≢ ok tt)
    × ((commit (marks (close busy) (bits 1 ∷ [])) prepared).0.version ≡ 5)
    × (pending_dirty (marks (close busy) (bits 1 ∷ [])) ≡ false)
close_lem_example = close_lem busy prepared (bits 1 ∷ [])

capture_snapshot_lem_example :
    (record busy { last_error = none } ≡ busy)
    × ((us : List SubjectSyncUpdate)
        → (capture_snapshot busy (near ∷ []) 0).1 ≡ ok us
        → (k : SubjectSyncPacker) × (some packer ≡ some k)
          × (map (λ (u : SubjectSyncUpdate). u.profile) us ≡ normalize_sync_profiles (near ∷ []))
          × All (Shows k busy) us)
unfolding capture_snapshot capture_result capture_updates normalize_sync_profiles sort_by put_all
    put
capture_snapshot_lem_example =
    capture_snapshot_lem busy busy (near ∷ []) 0 (capture_snapshot busy (near ∷ []) 0).1 refl
