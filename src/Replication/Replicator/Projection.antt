-- ===== src/Replication/Replicator/Projection.antt =====
-- The snapshot of a prepared frame, against the projector's answer.
use cube_core.Base.Sorting.{find_by}
use cube_core.Replication.Snapshot.{sort_object, new_snapshot}
use cube_core.Replication.Snapshot.Normal.{new_snapshot-IsNormal, IsNormal}
use mathlib.Core.Option
use cube_core.Base.Keys.{nat_key}
use cube_core.Base.{Bool, Option-cases, ℕ, ◌≡◌, ◌∙◌, sym, ap, true, none, arith, inl, inr}
use cube_core.Base.Results.{Result-cases, ok}
use cube_core.Base.Maps.{find}
use cube_core.Replication.Types.{ref_key, ObjectState, ObjectRef, normalize_limits, Snapshot}
use cube_core.Replication.Session.{Prepared, prepare_base, SessionState, prepare}
use cube_core.Replication.Replicator.{
  new_snapshot, project, project_and_normalize, ProjectionContext, Replicator,
}
use cube_core.Replication.Replicator.Frames.{PreparedFrame}
use cube_core.Replication.Replicator.Baseline.{PreparedFrom}
use cube_core.Replication.Replicator.Sending.{project_and_normalize_lem}

-- The snapshot is the projector's answer for the latest one, under this context, in normal form: it has
-- the metadata of the latest one, and under every reference the projected object, with its components
-- sorted, or none.
pub record IsProjection {W : Type 0} (r : Replicator W) (context : ProjectionContext)
    (latest x : Snapshot) : Type 0 where
  pub projected : Snapshot
  pub answered : project r.projector context latest ≡ ok projected
  pub kept_meta : x.meta ≡ latest.meta
  pub normal : IsNormal (normalize_limits r.limits) x
  pub same_objects :
      (k : ObjectRef)
      → find_by (λ (o : ObjectState). o.ref) k x.objects
        ≡ Option.map sort_object (find_by (λ (o : ObjectState). o.ref) k projected.objects)

pub project_and_normalize-IsProjection :
    {W : Type 0} (r : Replicator W) (context : ProjectionContext) (latest x : Snapshot)
    → project_and_normalize r context latest ≡ ok x
    → IsProjection r context latest x
unfolding project_and_normalize
project_and_normalize-IsProjection r context latest x h =
    elim (Result-cases (project r.projector context latest)) [
      | inr (e, a) ↦ absurd (ground (arith, a, h))
      | inl (p, a) ↦
          let made : new_snapshot p.meta p.objects r.limits ≡ ok x = ground (arith, a, h) in
          let n = new_snapshot-IsNormal p.meta p.objects r.limits x made in
          record {
            projected = p;
            answered = a;
            kept_meta = (project_and_normalize_lem r context latest x h).1;
            normal = n.0;
            same_objects = n.2;
          }
    ]

-- What the projector is told of a session.
abbrev pub context_of : SessionState → Bool → ProjectionContext
context_of s full_refresh = record {
  session = s.info;
  quality_tier = s.quality_tier;
  previous = find s.last_sent s.sent;
  current = none;
  full_refresh = full_refresh;
}

prepare_context :
    (s t : SessionState) (target : ℕ) (p : Prepared)
    → prepare s target ≡ (t, ok p)
    → context_of s p.full ≡ record {
      session = p.info;
      quality_tier = p.quality_tier;
      previous = p.previous;
      current = none;
      full_refresh = p.full;
    }
unfolding prepare prepare_base
prepare_context s t target p h = elim (Option-cases (find s.ack_tick s.sent)) [
  | inl n ↦ ground arith
  | inr (b, n) ↦ ground arith
]

pub prepare_full :
    (s t : SessionState) (target : ℕ) (p : Prepared)
    → prepare s target ≡ (t, ok p)
    → p.base ≡ none
    → p.full ≡ true
unfolding prepare prepare_base
prepare_full s t target p h e = elim (Option-cases (find s.ack_tick s.sent)) [
  | inl n ↦ ground arith
  | inr (b, n) ↦ ground arith
]

-- The snapshot of a prepared frame, for the session that it was prepared for.
pub prepared-IsProjection :
    {W : Type 0} (r r' : Replicator W) (id : ℕ) (p : PreparedFrame) (s : SessionState) (full : Bool)
    (f : PreparedFrom r r' id p)
    → prepare s f.latest.meta.tick ≡ (f.after, ok f.chosen)
    → f.chosen.full ≡ full
    → IsProjection r (context_of s full) f.latest p.snapshot
prepared-IsProjection r r' id p s full f chose same =
    project_and_normalize-IsProjection r (context_of s full) f.latest p.snapshot (
      ap (λ b. project_and_normalize r (context_of s b) f.latest) (sym same)
      ∙ ap (λ c. project_and_normalize r c f.latest)
          (prepare_context s f.after f.latest.meta.tick f.chosen chose)
      ∙ (f.parts).projected)
