-- ===== src/Replication/Replicator/Sending.antt =====
-- The snapshot that a frame is prepared from, and the sessions after a frame was sent.
use cube_core.Replication.Session.{SessionState}
use cube_core.Replication.Replicator.Keeping.{
  at-IsGood, commit_frame-IsSound, prepare_at-IsSound, IsSound,
}
use cube_core.Replication.Snapshot.{new_snapshot}
use cube_core.Base.{subst, ℕ, ◌≡◌, ◌∙◌, ap, arith, inl, inr, Option-cases}
use cube_core.Base.Results.{Result, ok, err, Result-cases}
use cube_core.Replication.Types.{ref_key, Error, Limits, Snapshot}
use cube_core.Replication.Snapshot.Normal.{new_snapshot-IsNormal, new_snapshot_idem}
use cube_core.Replication.Replicator.{
  session_at, Error, session_place, SessionState, new_snapshot, Replicator, ProjectionContext,
  project, project_and_normalize,
}
use cube_core.Replication.Replicator.Frames.{
  send_frame, after_send, PreparedFrame, prepare_at, prepare_latest, commit_frame, send_latest,
}
use cube_core.Replication.Replicator.Baseline.{prepare_latest-PreparedFrom}
use cube_core.Replication.Replicator.Invariant.{IsFixed}

-- The projected snapshot has the metadata of its source and is in normal form.
pub project_and_normalize_lem :
    {W : Type 0} (r : Replicator W) (context : ProjectionContext) (s t : Snapshot)
    → project_and_normalize r context s ≡ ok t
    → IsFixed r.limits t × (t.meta ≡ s.meta)
unfolding project_and_normalize
project_and_normalize_lem r context s t h = elim (Result-cases (project r.projector context s)) [
  | inr (e, a) ↦ absurd (ground (arith, a, h))
  | inl (p, a) ↦
      let made : new_snapshot p.meta p.objects r.limits ≡ ok t = ground (arith, a, h) in
      let same : p.meta ≡ s.meta = ground (arith, a, h) in
      (
        new_snapshot_idem p.meta p.objects r.limits t made,
        (new_snapshot-IsNormal p.meta p.objects r.limits t made).1 ∙ same,
      )
]

module _ {W : Type 0} where
  pub prepared-IsFixed :
      (r r' : Replicator W) (id : ℕ) (p : PreparedFrame)
      → prepare_latest r id ≡ (r', ok p)
      → IsFixed r.limits p.snapshot
  prepared-IsFixed r r' id p h =
      let f = prepare_latest-PreparedFrom r r' id p h in
      (project_and_normalize_lem r _ f.latest p.snapshot (f.parts).projected).0

  -- After the transport's answer.
  sent-IsSound :
      (l : Limits) (r : Replicator W) (p : PreparedFrame) (out : W × Result Error (Unit {0}))
      → IsSound l r
      → IsFixed l p.snapshot
      → IsSound l (after_send r p out).0
  unfolding after_send
  sent-IsSound l r p (wire, err e) v fixed = record { limited = v.limited; stored = v.stored }
  sent-IsSound l r p (wire, ok u) v fixed =
      let r' = record r { wire = wire } in
      let w =
        commit_frame-IsSound l r' p (record { limited = v.limited; stored = v.stored }) fixed in
      elim (Result-cases (commit_frame r' p).2) [
        | inr (e, a) ↦ rw (a, after_send) w
        | inl (u', a) ↦ rw (a, after_send) w
      ]

  prepare_latest-prepare_at :
      (r : Replicator W) (id place : ℕ) (s : SessionState) (p : PreparedFrame)
      → session_place r id ≡ ok place
      → session_at r place ≡ ok s
      → (prepare_at r place s).1 ≡ ok p
      → prepare_latest r id ≡ ((prepare_at r place s).0, ok p)
  unfolding prepare_latest
  prepare_latest-prepare_at r id place s p a b c =
      rw (a, b, prepare_latest) (ap (λ made. ((prepare_at r place s).0, made)) c)

  pub send_latest-IsSound :
      (l : Limits) (r : Replicator W) (id : ℕ) → IsSound l r → IsSound l (send_latest r id).0
  unfolding send_latest
  send_latest-IsSound l r id v = elim (Result-cases (session_place r id)) [
    | inr (e, a) ↦ rw (a, send_latest) v
    | inl (place, a) ↦ elim (Result-cases (session_at r place)) [
      | inr (e, b) ↦ rw (a, b, send_latest) v
      | inl (s, b) ↦ elim (Option-cases r.transport) [
        | inl c ↦ rw (a, b, c, send_latest) v
        | inr (t, c) ↦
            let w = prepare_at-IsSound l r place s v (at-IsGood l r place s v b) in
            elim (Result-cases (prepare_at r place s).1) [
              | inr (e, d) ↦ rw (a, b, c, d, send_latest) w
              | inl (p, d) ↦
                  rw (a, b, c, d, send_latest)
                    (sent-IsSound l (prepare_at r place s).0 p
                      (send_frame t (prepare_at r place s).0.wire id p.datagrams) w
                      (subst (λ k. IsFixed k p.snapshot) v.limited
                        (prepared-IsFixed r (prepare_at r place s).0 id p
                          (prepare_latest-prepare_at r id place s p a b d))))
            ]
      ]
    ]
  ]
