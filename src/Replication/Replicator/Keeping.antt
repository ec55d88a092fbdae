-- ===== src/Replication/Replicator/Keeping.antt =====
-- The calls on a replicator, and what is asked of its sessions after them.
use cube_core.Base.Keys.{nat_key}
use cube_core.Replication.Control.{decode_control}
use cube_core.Replication.Ring.{latest_snapshot}
use cube_core.Base.{
  ◌||◌, not, ◌==◌, if_cases, subst, ℕ, ◌≡◌, ◌∙◌, sym, List, Option, arith, inl, inr, Option-cases,
}
use cube_core.Base.Results.{Result, ok, Result-cases}
use cube_core.Replication.Types.{Error, Limits, Snapshot}
use cube_core.Replication.Session.{handle_control, prepare, SessionState, commit_prepared}
use cube_core.Replication.Replicator.{
  Error, Replicator, Projector, session_place, session_at, write_session, publish, set_projector,
}
use cube_core.Replication.Replicator.Sessions.{Outcome, on_session, handle_control_for}
use cube_core.Replication.Replicator.Frames.{
  PreparedFrame, prepare_at, prepare_latest, commit_frame, send_reliable,
}
use cube_core.Replication.Replicator.Invariant.{
  handle_control-IsGood, prepare-IsGood, commit_prepared-IsGood, put-IsStore, IsFixed, IsGood,
  IsStore,
}

module _ {W : Type 0} where
  -- A replicator with limits `l` whose sessions are good.
  pub record IsSound (l : Limits) (r : Replicator W) : Type 0 where
    pub limited : r.limits ≡ l
    pub stored : IsStore l r.sessions r.store

  pub same-IsSound :
      (l : Limits) (r r' : Replicator W)
      → r'.limits ≡ r.limits
      → r'.sessions ≡ r.sessions
      → r'.store ≡ r.store
      → IsSound l r
      → IsSound l r'
  same-IsSound l r r' a b c v = record {
    limited = a ∙ v.limited;
    stored =
        subst (λ m. IsStore l m r'.store) (sym b) (subst (IsStore l r.sessions) (sym c) v.stored);
  }

  pub publish-IsSound :
      (l : Limits) (r : Replicator W) (s : Snapshot) → IsSound l r → IsSound l (publish r s).0
  unfolding publish
  publish-IsSound l r s v =
      same-IsSound l r (publish r s).0 (ground arith) (ground arith) (ground arith) v

  pub set_projector-IsSound :
      (l : Limits) (r : Replicator W) (p : Option Projector)
      → IsSound l r
      → IsSound l (set_projector r p).0
  unfolding set_projector
  set_projector-IsSound l r p v =
      same-IsSound l r (set_projector r p).0 (ground arith) (ground arith) (ground arith) v

  pub send_reliable-IsSound :
      (l : Limits) (r : Replicator W) (id : ℕ) (payload : List ℕ)
      → IsSound l r
      → IsSound l (send_reliable r id payload).0
  unfolding send_reliable
  send_reliable-IsSound l r id payload v =
      same-IsSound l r (send_reliable r id payload).0 (ground arith) (ground arith) (ground arith) v

  pub at-IsGood :
      (l : Limits) (r : Replicator W) (place : ℕ) (s : SessionState)
      → IsSound l r
      → session_at r place ≡ ok s
      → IsGood l s
  unfolding session_at
  at-IsGood l r place s v e = v.stored.good place s (ground (arith, e))

  pub write-IsSound :
      (l : Limits) (r : Replicator W) (place : ℕ) (s : SessionState)
      → IsSound l r
      → IsGood l s
      → IsSound l (write_session r place s)
  unfolding write_session
  write-IsSound l r place s v g = record {
    limited = v.limited;
    stored = put-IsStore l r.sessions r.store v.stored place s g;
  }

  pub on_session-IsSound :
      (l : Limits) (r : Replicator W) (id : ℕ)
      (f : SessionState → SessionState × Result Error (Unit {0}))
      → ((s : SessionState) → IsGood l s → IsGood l (f s).0)
      → IsSound l r
      → IsSound l (on_session r id f).0
  unfolding on_session
  on_session-IsSound l r id f keeps v = elim (Result-cases (session_place r id)) [
    | inr (e, a) ↦ rw (a, on_session) v
    | inl (place, a) ↦ elim (Result-cases (session_at r place)) [
      | inr (e, b) ↦ rw (a, b, on_session) v
      | inl (s, b) ↦
          rw (a, b, on_session)
            (write-IsSound l r place (f s).0 v (keeps s (at-IsGood l r place s v b)))
    ]
  ]

  pub handle_control_for-IsSound :
      (l : Limits) (r : Replicator W) (id : ℕ) (raw : List ℕ)
      → IsSound l r
      → IsSound l (handle_control_for r id raw).0
  unfolding handle_control_for
  handle_control_for-IsSound l r id raw v =
      if_cases (λ (o : Outcome W). IsSound l o.0) r.closed (λ shut. v)
        λ open_. elim (Result-cases (decode_control raw)) [
          | inr (e, a) ↦ rw (a, handle_control_for) v
          | inl (m, a) ↦ elim (Result-cases (session_place r id)) [
            | inr (e, b) ↦ rw (a, b, handle_control_for) v
            | inl (place, b) ↦ elim (Option-cases (latest_snapshot r.ring)) [
              | inl c ↦ rw (a, b, c, handle_control_for) v
              | inr (latest, c) ↦
                  rw (a, b, c, handle_control_for)
                    (if_cases (λ (o : Outcome W). IsSound l o.0)
                      (not (m.room_id == latest.meta.room_id) || not (m.epoch == latest.meta.epoch))
                      (λ other. v)
                      λ same.
                        on_session-IsSound l r id (λ s. handle_control s m latest.meta.tick)
                          (λ s g. handle_control-IsGood l s g m latest.meta.tick) v)
            ]
          ]
        ]

  pub prepare_at-IsSound :
      (l : Limits) (r : Replicator W) (place : ℕ) (s : SessionState)
      → IsSound l r
      → IsGood l s
      → IsSound l (prepare_at r place s).0
  unfolding prepare_at
  prepare_at-IsSound l r place s v g = elim (Option-cases (latest_snapshot r.ring)) [
    | inl a ↦ rw (a, prepare_at) v
    | inr (latest, a) ↦
        let w =
          write-IsSound l r place (prepare s latest.meta.tick).0 v
            (prepare-IsGood l s g latest.meta.tick) in
        elim (Result-cases (prepare s latest.meta.tick).1) [
          | inr (e, b) ↦ rw (a, b, prepare_at) w
          | inl (p, b) ↦ rw (a, b, prepare_at) w
        ]
  ]

  pub prepare_latest-IsSound :
      (l : Limits) (r : Replicator W) (id : ℕ) → IsSound l r → IsSound l (prepare_latest r id).0
  unfolding prepare_latest
  prepare_latest-IsSound l r id v = elim (Result-cases (session_place r id)) [
    | inr (e, a) ↦ rw (a, prepare_latest) v
    | inl (place, a) ↦ elim (Result-cases (session_at r place)) [
      | inr (e, b) ↦ rw (a, b, prepare_latest) v
      | inl (s, b) ↦
          rw (a, b, prepare_latest) (prepare_at-IsSound l r place s v (at-IsGood l r place s v b))
    ]
  ]

  pub commit_frame-IsSound :
      (l : Limits) (r : Replicator W) (p : PreparedFrame)
      → IsSound l r
      → IsFixed l p.snapshot
      → IsSound l (commit_frame r p).0
  unfolding commit_frame
  commit_frame-IsSound l r p v fixed = elim (Option-cases p.done) [
    | inr (answer, a) ↦ rw (a, commit_frame) v
    | inl a ↦ elim (Result-cases (session_at r p.place)) [
      | inr (e, b) ↦ rw (a, b, commit_frame) v
      | inl (s, b) ↦
          rw (a, b, commit_frame)
            (write-IsSound l r p.place
              (commit_prepared s p.snapshot p.sequence p.generation p.full).0 v
              (commit_prepared-IsGood l s (at-IsGood l r p.place s v b) p.snapshot p.sequence
                p.generation p.full fixed))
    ]
  ]
