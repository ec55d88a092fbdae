-- ===== src/Replication/Replicator/Calls.antt =====
-- A replicator with the frames it has prepared, and any calls in any order.
use cube_core.Base.Maps.{find}
use cube_core.Replication.Session.{set_quality_tier, force_full, acknowledge}
use cube_core.Replication.Replicator.Keeping.{
  send_reliable-IsSound, prepare_latest-IsSound, handle_control_for-IsSound, on_session-IsSound,
  commit_frame-IsSound, set_projector-IsSound, publish-IsSound, IsSound,
}
use cube_core.Replication.Replicator.Membership.{
  close_replicator-IsSound, set_transport-IsSound, remove_session-IsSound, register_session-IsSound,
}
use cube_core.Base.{
  All-set, All-get_elem?, subst, ℕ, ◌≡◌, refl, sym, ap, List, [], ◌∷◌, ◌++◌, Option, none, some,
  All, All-append, get_elem?, set, arith, inl, inr, Option-cases,
}
use cube_core.Base.Results.{ok, err, Result-cases}
use cube_core.Replication.Types.{Limits, normalize_limits, Snapshot, SessionInfo}
use cube_core.Replication.Replicator.{
  find, Replicator, Transport, Projector, new_replicator, publish, set_projector,
}
use cube_core.Replication.Replicator.Sessions.{
  register_session, remove_session, acknowledge_for, force_full_for, set_quality_tier_for,
  handle_control_for, set_transport, close_replicator,
}
use cube_core.Replication.Replicator.Frames.{
  PreparedFrame, prepare_latest, commit_frame, abort_frame, send_latest, send_reliable,
}
use cube_core.Replication.Replicator.Invariant.{
  set_quality_tier-IsGood, force_full-IsGood, acknowledge-IsGood, IsFixed,
}
use cube_core.Replication.Replicator.Sending.{prepared-IsFixed, send_latest-IsSound}

-- A replicator, and the frames that `PrepareLatest` handed out, the first of them first.
pub record Room (W : Type 0) : Type 0 where
  pub replicator : Replicator W
  pub prepared : List PreparedFrame

-- The calls; a frame is committed or aborted by its number.
pub data Call (W : Type 0) : Type 0 where
  publishes : Snapshot → Call W
  sets_projector : Option Projector → Call W
  registers : SessionInfo → Call W
  removes : ℕ → Call W
  acknowledges : ℕ → ℕ → Call W
  forces_full : ℕ → Call W
  sets_tier : ℕ → ℕ → Call W
  controls : ℕ → List ℕ → Call W
  prepares : ℕ → Call W
  commits : ℕ → Call W
  aborts : ℕ → Call W
  sends : ℕ → Call W
  sends_reliable : ℕ → List ℕ → Call W
  sets_transport : Option (Transport W) → Call W
  closes : Call W

-- A call of the replicator itself.
abbrev with : {W : Type 0} → Room W → Replicator W → Room W
with x r = record x { replicator = r }

unfoldable pub step : {W : Type 0} → Room W → Call W → Room W
step x (publishes s) = with x (publish x.replicator s).0
step x (sets_projector p) = with x (set_projector x.replicator p).0
step x (registers info) = with x (register_session x.replicator info).0
step x (removes id) = with x (remove_session x.replicator id).0
step x (acknowledges id tick) = with x (acknowledge_for x.replicator id tick).0
step x (forces_full id) = with x (force_full_for x.replicator id).0
step x (sets_tier id tier) = with x (set_quality_tier_for x.replicator id tier).0
step x (controls id raw) = with x (handle_control_for x.replicator id raw).0
step x (prepares id) =
    let (r, made) = prepare_latest x.replicator id in
    elim made [
      | err e ↦ with x r
      | ok p ↦ record { replicator = r; prepared = x.prepared ++ p ∷ [] }
    ]
step x (commits n) = elim (get_elem? x.prepared n) [
  | none ↦ x
  | some p ↦
      let (r, p', answer) = commit_frame x.replicator p in
      record { replicator = r; prepared = set x.prepared n p' }
]
step x (aborts n) = elim (get_elem? x.prepared n) [
  | none ↦ x
  | some p ↦ record x { prepared = set x.prepared n (abort_frame p) }
]
step x (sends id) = with x (send_latest x.replicator id).0
step x (sends_reliable id payload) = with x (send_reliable x.replicator id payload).0
step x (sets_transport t) = with x (set_transport x.replicator t).0
step x closes = with x (close_replicator x.replicator)

unfoldable pub run : {W : Type 0} → Room W → List (Call W) → Room W
run x [] = x
run x (c ∷ cs) = run (step x c) cs

abort_frame-snapshot : (p : PreparedFrame) → (abort_frame p).snapshot ≡ p.snapshot
unfolding abort_frame
abort_frame-snapshot p = ground arith

module _ {W : Type 0} where
  -- What the calls keep of a room.
  pub record IsRoom (l : Limits) (x : Room W) : Type 0 where
    pub sound : IsSound l x.replicator
    pub fixed : All (λ (p : PreparedFrame). IsFixed l p.snapshot) x.prepared

  commit_frame-snapshot :
      (r : Replicator W) (p : PreparedFrame) → (commit_frame r p).1.snapshot ≡ p.snapshot
  unfolding commit_frame
  commit_frame-snapshot r p = ground arith

  -- A call that leaves the prepared frames alone.
  with-IsRoom :
      (l : Limits) (x : Room W) (r : Replicator W) → IsRoom l x → IsSound l r → IsRoom l (with x r)
  with-IsRoom l x r v w = record { sound = w; fixed = v.fixed }

  -- A prepared frame that is committed or aborted keeps its snapshot.
  set-IsRoom :
      (l : Limits) (x : Room W) (r : Replicator W) (n : ℕ) (p p' : PreparedFrame)
      → IsRoom l x
      → get_elem? x.prepared n ≡ some p
      → p'.snapshot ≡ p.snapshot
      → IsSound l r
      → IsRoom l (record { replicator = r; prepared = set x.prepared n p' })
  set-IsRoom l x r n p p' v a same w = record {
    sound = w;
    fixed =
        let Fixed : PreparedFrame → Type 0 = λ q. IsFixed l q.snapshot in
        All-set Fixed x.prepared n p' v.fixed
          (subst (IsFixed l) (sym same) (All-get_elem? Fixed x.prepared n p v.fixed a));
  }

  prepare-IsRoom : (l : Limits) (x : Room W) (id : ℕ) → IsRoom l x → IsRoom l (step x (prepares id))
  unfolding step
  prepare-IsRoom l x id v =
      let w = prepare_latest-IsSound l x.replicator id v.sound in
      elim (Result-cases (prepare_latest x.replicator id).1) [
        | inr (e, a) ↦ rw (a, step) (record { sound = w; fixed = v.fixed })
        | inl (p, a) ↦
            let made =
              prepared-IsFixed x.replicator (prepare_latest x.replicator id).0 id p
                (ap (λ m. ((prepare_latest x.replicator id).0, m)) a) in
            rw (a, step)
              (record {
                sound = w;
                fixed =
                    All-append (λ (q : PreparedFrame). IsFixed l q.snapshot) x.prepared (p ∷ [])
                      v.fixed (subst (λ k. IsFixed k p.snapshot) (v.sound).limited made, tt);
              })
      ]

  commit-IsRoom : (l : Limits) (x : Room W) (n : ℕ) → IsRoom l x → IsRoom l (step x (commits n))
  unfolding step
  commit-IsRoom l x n v = elim (Option-cases (get_elem? x.prepared n)) [
    | inl a ↦ rw (a, step) v
    | inr (p, a) ↦
        let fixed =
          All-get_elem? (λ (q : PreparedFrame). IsFixed l q.snapshot) x.prepared n p v.fixed a in
        rw (a, step)
          (set-IsRoom l x (commit_frame x.replicator p).0 n p (commit_frame x.replicator p).1 v a
            (commit_frame-snapshot x.replicator p)
            (commit_frame-IsSound l x.replicator p v.sound fixed))
  ]

  abort-IsRoom : (l : Limits) (x : Room W) (n : ℕ) → IsRoom l x → IsRoom l (step x (aborts n))
  unfolding step
  abort-IsRoom l x n v = elim (Option-cases (get_elem? x.prepared n)) [
    | inl a ↦ rw (a, step) v
    | inr (p, a) ↦
        rw (a, step)
          (set-IsRoom l x x.replicator n p (abort_frame p) v a (abort_frame-snapshot p) v.sound)
  ]

  step-IsRoom : (l : Limits) (x : Room W) (c : Call W) → IsRoom l x → IsRoom l (step x c)
  unfolding step acknowledge_for force_full_for set_quality_tier_for
  step-IsRoom l x (publishes s) v = with-IsRoom l x _ v (publish-IsSound l x.replicator s v.sound)
  step-IsRoom l x (sets_projector p) v =
      with-IsRoom l x _ v (set_projector-IsSound l x.replicator p v.sound)
  step-IsRoom l x (registers info) v =
      with-IsRoom l x _ v (register_session-IsSound l x.replicator info v.sound)
  step-IsRoom l x (removes id) v =
      with-IsRoom l x _ v (remove_session-IsSound l x.replicator id v.sound)
  step-IsRoom l x (acknowledges id tick) v = with-IsRoom l x _ v (
      on_session-IsSound l x.replicator id (λ s. acknowledge s tick (x.replicator).ring.latest)
        (λ s g. acknowledge-IsGood l s g tick (x.replicator).ring.latest) v.sound)
  step-IsRoom l x (forces_full id) v = with-IsRoom l x _ v (
      on_session-IsSound l x.replicator id (λ s. (force_full s, ok tt))
        (λ s g. force_full-IsGood l s g) v.sound)
  step-IsRoom l x (sets_tier id tier) v = with-IsRoom l x _ v (
      on_session-IsSound l x.replicator id (λ s. set_quality_tier s tier)
        (λ s g. set_quality_tier-IsGood l s g tier) v.sound)
  step-IsRoom l x (controls id raw) v =
      with-IsRoom l x _ v (handle_control_for-IsSound l x.replicator id raw v.sound)
  step-IsRoom l x (prepares id) v = prepare-IsRoom l x id v
  step-IsRoom l x (commits n) v = commit-IsRoom l x n v
  step-IsRoom l x (aborts n) v = abort-IsRoom l x n v
  step-IsRoom l x (sends id) v = with-IsRoom l x _ v (send_latest-IsSound l x.replicator id v.sound)
  step-IsRoom l x (sends_reliable id payload) v =
      with-IsRoom l x _ v (send_reliable-IsSound l x.replicator id payload v.sound)
  step-IsRoom l x (sets_transport t) v =
      with-IsRoom l x _ v (set_transport-IsSound l x.replicator t v.sound)
  step-IsRoom l x closes v = with-IsRoom l x _ v (close_replicator-IsSound l x.replicator v.sound)

  run-IsRoom' : (l : Limits) (x : Room W) (cs : List (Call W)) → IsRoom l x → IsRoom l (run x cs)
  unfolding run
  run-IsRoom' l x [] v = v
  run-IsRoom' l x (c ∷ cs) v = run-IsRoom' l (step x c) cs (step-IsRoom l x c v)

  -- A room whose replicator was just made.
  abbrev pub new_room : Limits → ℕ → ℕ → Option Projector → Option (Transport W) → W → Room W
  new_room limits ring_size max_datagram projector transport wire = record {
    replicator = new_replicator limits ring_size max_datagram projector transport wire;
    prepared = [];
  }

  -- Whatever calls a replicator served, in any order, with any projector and any transport: every identifier
  -- of a session leads to a session, all sessions keep the promises of a session's history, and every
  -- snapshot that one retains, like that of every frame that was handed out, is in normal form under the
  -- replicator's limits.
  pub run-IsRoom :
      (limits : Limits) (ring_size max_datagram : ℕ) (projector : Option Projector)
      (transport : Option (Transport W)) (wire : W) (cs : List (Call W))
      → IsRoom
          (normalize_limits limits)
          (run (new_room limits ring_size max_datagram projector transport wire) cs)
  unfolding new_replicator find
  run-IsRoom limits ring_size max_datagram projector transport wire cs =
      run-IsRoom' (normalize_limits limits)
        (new_room limits ring_size max_datagram projector transport wire) cs
        (record {
          sound = record {
            limited = refl;
            stored = record {
              good = λ place s e. absurd (cc e);
              placed = λ id place e. absurd (cc e);
            };
          };
          fixed = tt;
        })
