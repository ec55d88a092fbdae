-- ===== src/Entity/SubjectSync/Behaviour.antt =====
-- What a preparation covers, and what its commit leaves to the next one.
use cube_core.Base.Results.{err, ok, Result}
use cube_core.Base.{
  false, not, ◌==◌, if◌then◌else◌, true, ℕ, ◌+◌, ◌<◌, ◌^◌, ◌%◌, ◌≡◌, ◌≢◌, arith, List,
}
use cube_core.Entity.Profiles.{SyncProfile}
use cube_core.Entity.SubjectSync.{ok, Result, SubjectSyncState, SyncError, finished, pending_dirty}
use cube_core.Entity.SubjectSync.Prepare.{
  Begun, PreparedSubjectSync, begin_prepare, end_prepare, commit,
}
use cube_core.Entity.SubjectSync.Marks.{
  Mark, marks, counted, marks_fields, marks-pending, marks-range,
}

-- A commit whose preparation is the current one.
commit_current :
    (s t : SubjectSyncState) (p q : PreparedSubjectSync) (r : Result SyncError (Unit {0}))
    → s.enabled ≡ true
    → s.inflight_token ≡ p.token
    → s.version ≡ p.base_version
    → p.finished ≡ false
    → commit s p ≡ (t, q, r)
    → (r ≡ ok tt)
      × (t.version ≡ p.version)
      × (pending_dirty t ≡ (if s.dirty_generation == p.generation then false else pending_dirty s))
unfolding commit pending_dirty
commit_current s t p q r on token version fresh h = (ground arith, ground arith, ground arith)

pub begin_fields :
    (s t : SubjectSyncState) (b : Begun)
    → begin_prepare s ≡ (t, ok b)
    → (t.enabled ≡ true)
      × (t.version ≡ s.version)
      × (t.dirty_generation ≡ s.dirty_generation)
      × (t.inflight_token ≡ b.token)
      × (b.base_version ≡ s.version)
      × (b.version ≡ (s.version + 1) % 2 ^ 64)
      × (b.generation ≡ s.dirty_generation)
unfolding begin_prepare
begin_fields s t b h = (
  ground arith,
  ground arith,
  ground arith,
  ground arith,
  ground arith,
  ground arith,
  ground arith,
)

pub begin_keeps :
    (s t : SubjectSyncState) (b : Begun)
    → begin_prepare s ≡ (t, ok b)
    → (t.version ≡ s.version) × (t.dirty_mask ≡ s.dirty_mask) × (t.full_dirty ≡ s.full_dirty)
unfolding begin_prepare
begin_keeps s t b h = (ground arith, ground arith, ground arith)

end_fields :
    (s t : SubjectSyncState) (b : Begun) (profiles : List SyncProfile) (p : PreparedSubjectSync)
    → end_prepare s b profiles ≡ (t, ok p)
    → (t ≡ s)
      × (p.token ≡ b.token)
      × (p.base_version ≡ b.base_version)
      × (p.version ≡ b.version)
      × (p.generation ≡ b.generation)
      × (p.finished ≡ false)
unfolding end_prepare
end_fields s t b profiles p h =
    (ground arith, ground arith, ground arith, ground arith, ground arith, ground arith)

-- The count of marks comes back to where it was only without a mark.
moved :
    (g u w cd ca p : ℕ)
    → g < 2 ^ 64
    → u < 2 ^ 64
    → w < 2 ^ 64
    → cd + ca < 2 ^ 64
    → u % 2 ^ 64 ≡ (g + cd) % 2 ^ 64
    → w % 2 ^ 64 ≡ (u + ca) % 2 ^ 64
    → p ≡ g
    → (w == p) ≡ (cd + ca == 0)
moved g u w cd ca p hg hu hw few h k e = ground arith

-- An update that is prepared, while the packer runs and after it with any marks in between, and then
-- committed, moves the version on by one; the state is pending afterwards exactly if there was such a
-- mark. The generation is a word, and the marks are fewer than it counts.
pub commit-marks :
    (s t u v : SubjectSyncState) (b : Begun) (profiles : List SyncProfile)
    (p q : PreparedSubjectSync) (during after : List Mark) (r : Result SyncError (Unit {0}))
    → s.dirty_generation < 2 ^ 64
    → counted during + counted after < 2 ^ 64
    → begin_prepare s ≡ (t, ok b)
    → end_prepare (marks t during) b profiles ≡ (u, ok p)
    → commit (marks u after) p ≡ (v, q, r)
    → (r ≡ ok tt)
      × (v.version ≡ (s.version + 1) % 2 ^ 64)
      × (pending_dirty v ≡ not (counted during + counted after == 0))
commit-marks s t u v b profiles p q during after r range few hb he hc =
    let f = begin_fields s t b hb in
    let g = end_fields (marks t during) u b profiles p he in
    let d = marks_fields t during f.0 in
    let on : u.enabled ≡ true = ground (arith, d.0, g.0) in
    let a = marks_fields u after on in
    let c =
      commit_current (marks u after) v p q r (ground arith) (ground arith) (ground arith)
        (ground arith) hc in
    let bound : t.dirty_generation < 2 ^ 64 = ground arith in
    let bound' : u.dirty_generation < 2 ^ 64 = ground (arith, marks-range t during bound) in
    let small = marks-range u after bound' in
    let marked = marks-pending u after on in
    let earlier = marks-pending t during f.0 in
    let same : ((marks u after).dirty_generation == p.generation)
        ≡ (counted during + counted after == 0) =
      moved t.dirty_generation u.dirty_generation (marks u after).dirty_generation (counted during)
        (counted after) p.generation bound bound' small few (ground (arith, g.0, d.3)) a.3
        (ground arith) in
    (ground arith, ground arith, ground (arith, same, c.2, marked, earlier, g.0))

commit_fields :
    (s t : SubjectSyncState) (p q : PreparedSubjectSync)
    → commit s p ≡ (t, q, ok tt)
    → (t.enabled ≡ true) × (t.inflight_token ≡ 0) × (q.finished ≡ true)
unfolding commit
commit_fields s t p q h = (ground arith, ground arith, ground arith)

commit_other :
    (s : SubjectSyncState) (p : PreparedSubjectSync)
    → s.inflight_token ≡ 0
    → p.token ≢ 0
    → ((commit s p).2 ≢ ok tt) × ((commit s p).0 ≡ s)
unfolding commit
commit_other s p idle token = (ground arith, ground arith)

commit_finished :
    (s : SubjectSyncState) (p : PreparedSubjectSync)
    → p.finished ≡ true
    → commit s p ≡ (s, p, err finished)
unfolding commit
commit_finished s p done = ground arith

-- An update is committed once, and no other one that was prepared before is committed after it,
-- whatever marks come in between; 0 is no token, unless the count of tokens has wrapped around.
pub commit_once :
    (s t : SubjectSyncState) (p q p' : PreparedSubjectSync) (ms : List Mark)
    → commit s p ≡ (t, q, ok tt)
    → p'.token ≢ 0
    → (commit t q ≡ (t, q, err finished))
      × ((commit (marks t ms) p').2 ≢ ok tt)
      × ((commit (marks t ms) p').0 ≡ marks t ms)
commit_once s t p q p' ms h token =
    let f = commit_fields s t p q h in
    let m = marks_fields t ms f.0 in
    let idle : (marks t ms).inflight_token ≡ 0 = ground arith in
    let refused = commit_other (marks t ms) p' idle token in
    (commit_finished t q f.2, refused.0, refused.1)
