-- ===== src/Entity/SubjectSync/Endings.antt =====
-- The other ends of a preparation: a failure, an abort, the end of the state.
use cube_core.Base.Results.{Result-cases, err, ok}
use cube_core.Base.{
  ◌∙◌, sym, ap, refl, false, ◌+◌, ◌^◌, ◌%◌, ◌≡◌, ◌≢◌, ◌⊎◌, inl, inr, arith, Option, some, List, [],
  ◌∷◌,
}
use cube_core.Entity.Profiles.{SyncProfile, normalize_sync_profiles}
use cube_core.Entity.SubjectSync.{
  raised, closed, ok, SubjectSyncState, SyncError, mark_dirty, mark_full_dirty, close,
  pending_dirty,
}
use cube_core.Entity.SubjectSync.Prepare.{
  pack_updates, fail_prepare, Begun, PreparedSubjectSync, begin_prepare, end_prepare, commit,
  abort_with_error,
}
use cube_core.Entity.SubjectSync.Marks.{Mark, bits, whole, mark, marks}
use cube_core.Entity.SubjectSync.Behaviour.{begin_fields, begin_keeps}

begin_again :
    (s t : SubjectSyncState) (b : Begun) (e : Option SyncError)
    → begin_prepare s ≡ (t, ok b)
    → (begin_prepare (record t { inflight_token = 0; last_error = e })).1
      ≡ ok (record b { token = (b.token + 1) % 2 ^ 64 })
unfolding begin_prepare
begin_again s t b e h = ground arith

fail_leaves :
    (t u : SubjectSyncState) (b : Begun) (profiles : List SyncProfile) (e : SyncError)
    → t.inflight_token ≡ b.token
    → end_prepare t b profiles ≡ (u, err e)
    → (x : Option SyncError) × (record t { inflight_token = 0; last_error = x } ≡ u)
unfolding end_prepare fail_prepare
fail_leaves t u b profiles e token h =
    elim (Result-cases (pack_updates b (normalize_sync_profiles profiles))) [
      | inl (us, q) ↦ absurd (ground arith)
      | inr ((key, x), q) ↦ (some (raised x), ground arith)
    ]

abort_leaves :
    (t : SubjectSyncState) (b : Begun) (profiles : List SyncProfile) (p : PreparedSubjectSync)
    (cause : Option SyncError)
    → t.inflight_token ≡ b.token
    → end_prepare t b profiles ≡ (t, ok p)
    → record t { inflight_token = 0; last_error = cause } ≡ (abort_with_error t p cause).0
unfolding end_prepare abort_with_error
abort_leaves t b profiles p cause token h = ground arith

-- A preparation that is aborted, or whose packer fails, loses nothing: the version, and what is dirty,
-- stay as they were, and the next preparation is the same one again under the next token.
pub begin_prepare-abort :
    (s t u : SubjectSyncState) (b : Begun) (p : PreparedSubjectSync) (cause : Option SyncError)
    (profiles : List SyncProfile) (e : SyncError)
    → begin_prepare s ≡ (t, ok b)
    → ((end_prepare t b profiles ≡ (u, err e))
        ⊎ ((end_prepare t b profiles ≡ (t, ok p)) × ((abort_with_error t p cause).0 ≡ u)))
    → (u.version ≡ s.version)
      × (u.dirty_mask ≡ s.dirty_mask)
      × (u.full_dirty ≡ s.full_dirty)
      × ((begin_prepare u).1 ≡ ok (record b { token = (b.token + 1) % 2 ^ 64 }))
begin_prepare-abort s t u b p cause profiles e hb h =
    let token = (begin_fields s t b hb).3 in
    let kept = begin_keeps s t b hb in
    elim h [
      | inl failed ↦
          let left = fail_leaves t u b profiles e token failed in
          (
            ground (arith, left.1, kept),
            ground (arith, left.1, kept),
            ground (arith, left.1, kept),
            ap (λ x. (begin_prepare x).1) (sym left.1) ∙ begin_again s t b left.0 hb,
          )
      | inr (ended, aborted) ↦
          let left = abort_leaves t b profiles p cause token ended ∙ aborted in
          (
            ground (arith, left, kept),
            ground (arith, left, kept),
            ground (arith, left, kept),
            ap (λ x. (begin_prepare x).1) (sym left) ∙ begin_again s t b cause hb,
          )
    ]

marks-closed : (s : SubjectSyncState) (ms : List Mark) → s.enabled ≡ false → marks s ms ≡ s
unfolding marks mark mark_dirty mark_full_dirty
marks-closed s [] off = refl
marks-closed s (bits mask ∷ ms) off = ground (arith, marks-closed s ms off)
marks-closed s (whole reason ∷ ms) off = ground (arith, marks-closed s ms off)

-- A closed state is done with: no preparation begins, what was prepared before is not committed, and
-- marks leave nothing pending.
pub close_lem :
    (s : SubjectSyncState) (p : PreparedSubjectSync) (ms : List Mark)
    → ((begin_prepare (marks (close s) ms)).1 ≡ err closed)
      × ((commit (marks (close s) ms) p).2 ≢ ok tt)
      × ((commit (marks (close s) ms) p).0.version ≡ s.version)
      × (pending_dirty (marks (close s) ms) ≡ false)
unfolding begin_prepare commit pending_dirty close
close_lem s p ms =
    rw (marks-closed (close s) ms refl) (ground arith, ground arith, ground arith, ground arith)
