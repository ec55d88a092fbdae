-- ===== src/Replication/Delta/Roundtrip.antt =====
-- `ApplyDelta` after `BuildDelta`.
use mathlib.Core.Option
use cube_core.Base.{
  ◌+◌, ◌≤◌, ◌≡◌, refl, ap, ◌∙◌, List, [], ◌∷◌, map, Option, none, some, length, All, arith,
}
use cube_core.Base.Results.{ok, err}
use cube_core.Base.Maps.{Map, find, length-put}
use cube_core.Base.Ordered.{
  values, IsKeyed, put_all, put_all-IsKeyed, find-put_all, length-put_all-le, values-Distinct,
  find_by-values,
}
use cube_core.Base.Ordered.{Ascending-ext, length-values}
use cube_core.Replication.Types.{ObjectDelta, less_ref_trans, less_ref_irrefl}
use cube_core.Replication.Delta.Components.{
  apply_component_deltas-diff_components, map_set-diff_components,
}
use cube_core.Base.{subst}
use cube_core.Base.Sorting.{
  sort_by, sort_by-Ascending, find_by-sort_by, length-sort_by, find_by, find_by-Above, Above,
  Ascending, Ascending-Distinct,
}
use cube_core.Replication.Types.{
  Limits, normalize_limits, normalize_limits_idem, ObjectRef, ref_key, ObjectState, Snapshot,
  DeltaFrame, validate_meta, object_limit,
}
use cube_core.Replication.Snapshot.{new_snapshot}
use cube_core.Replication.Snapshot.Checks.{FitsObject}
use cube_core.Replication.Snapshot.Normal.{new_snapshot-IsNormal, new_snapshot_recovers}
use cube_core.Replication.Delta.{
  create_object_delta, diff_objects, build_delta, start_objects, apply_object, apply_objects,
  apply_delta, change_object, create_object,
}
use cube_core.Replication.Delta.Objects.{ref_of, shown, AllRoom, Holds, expected}
use cube_core.Replication.Delta.Merge.{diff_objects_lem}

start_map : List ObjectState → Map ObjectRef ObjectState
start_map bs = put_all (λ o. o.ref) bs []

find-start_map :
    (r : ObjectRef) (bs : List ObjectState)
    → Ascending ref_of bs
    → find r (start_map bs) ≡ find_by ref_of r bs
unfolding start_map find
find-start_map r bs a = ground (arith, find-put_all ref_of r bs [] (Ascending-Distinct ref_of bs a))

-- A map that shows what the merge is expected to show makes the second snapshot.
recovered :
    (current : Snapshot) (bs : List ObjectState) (m : Map ObjectRef ObjectState) (limits : Limits)
    → new_snapshot current.meta current.objects limits ≡ ok current
    → Ascending ref_of bs
    → IsKeyed ref_of m
    → ((r : ObjectRef) → shown r m ≡ expected bs current.objects r (shown r (start_map bs)))
    → new_snapshot current.meta (values m) (normalize_limits limits) ≡ ok current
unfolding new_snapshot
recovered current bs m limits h a keyed shows = rw (normalize_limits_idem limits) (
    new_snapshot_recovers current (values m) limits h (values-Distinct ref_of m keyed) (λ r.
      ap (Option.map _) (find_by-values ref_of r m keyed)
      ∙ shows r
      ∙ ground (arith, find-start_map r bs a)))

Holds-start_map : (bs : List ObjectState) → Ascending ref_of bs → Holds (start_map bs) bs
Holds-start_map bs a r b h = find-start_map r bs a ∙ h

-- A receiver that applies the delta between two normal snapshots to the first gets exactly the
-- second, if the limits leave room for the objects of both, and for the components of both
-- versions of each object.
pub apply_delta-build_delta :
    (base current : Snapshot) (limits : Limits) (frame : DeltaFrame)
    → new_snapshot base.meta base.objects limits ≡ ok base
    → new_snapshot current.meta current.objects limits ≡ ok current
    → length base.objects + length current.objects ≤ (normalize_limits limits).max_objects
    → AllRoom (normalize_limits limits) base.objects current.objects
    → build_delta (some base) current ≡ ok frame
    → apply_delta (some base) frame limits ≡ ok current
unfolding build_delta apply_delta start_objects validate_meta start_map
apply_delta-build_delta base current limits frame hb hc size room built =
    let l : Limits = normalize_limits limits in
    let nb = (new_snapshot-IsNormal base.meta base.objects limits base hb).0 in
    let nc = (new_snapshot-IsNormal current.meta current.objects limits current hc).0 in
    let r =
      diff_objects_lem l base.objects current.objects (start_map base.objects) nb.fitting nc.fitting
        nb.ordered nc.ordered room (Holds-start_map base.objects nb.ordered)
        (put_all-IsKeyed ref_of base.objects [] tt)
        (omega (arith, length-put_all-le ref_of base.objects [])) in
    let made = recovered current base.objects r.0 limits hc nb.ordered r.2 r.3 in
    ground (arith, r.1, made, nb.described)

map_create-diff_objects : (cs : List ObjectState) → map create_object_delta cs ≡ diff_objects [] cs
unfolding diff_objects
map_create-diff_objects [] = refl
map_create-diff_objects (c ∷ cs) = ap (◌∷◌ (create_object_delta c)) (map_create-diff_objects cs)

-- Without a baseline the receiver gets the sender's normal snapshot, whatever it held before.
pub apply_delta-build_delta_full :
    (held : Option Snapshot) (current : Snapshot) (limits : Limits) (frame : DeltaFrame)
    → new_snapshot current.meta current.objects limits ≡ ok current
    → build_delta none current ≡ ok frame
    → apply_delta held frame limits ≡ ok current
unfolding build_delta apply_delta start_objects start_map put_all
apply_delta-build_delta_full held current limits frame hc built =
    let l : Limits = normalize_limits limits in
    let nc = (new_snapshot-IsNormal current.meta current.objects limits current hc).0 in
    let r =
      diff_objects_lem l [] current.objects [] tt nc.fitting tt nc.ordered tt
        (Holds-start_map [] tt) tt (omega (arith, nc.counted)) in
    let made = recovered current [] r.0 limits hc tt r.2 r.3 in
    ground (arith, r.1, made, nc.described, map_create-diff_objects current.objects)

length-start_map : (bs : List ObjectState) → Ascending ref_of bs → length (start_map bs) ≡ length bs
unfolding start_map
length-start_map bs a =
    let m : Map ObjectRef ObjectState = start_map bs in
    let keyed = put_all-IsKeyed ref_of bs [] tt in
    let same =
      Ascending-ext ref_of (sort_by ref_of (values m)) bs
        (sort_by-Ascending ref_of (values m) (values-Distinct ref_of m keyed)) a
        (λ r.
          find_by-sort_by ref_of r (values m)
          ∙ find_by-values ref_of r m keyed
          ∙ find-start_map r bs a) in
    omega (arith, ap length same, length-sort_by ref_of (values m), length-values ref_of m)

diff_objects-Above :
    (bs cs : List ObjectState) (c : ObjectState)
    → Above ref_of c.ref bs
    → (rest : List ObjectDelta) × (diff_objects bs (c ∷ cs) ≡ create_object_delta c ∷ rest)
unfolding diff_objects
diff_objects-Above [] cs c above = (diff_objects [] cs, refl)
diff_objects-Above (b ∷ bs) cs c above = (
  diff_objects (b ∷ bs) cs,
  ground (arith, less_ref_trans b.ref c.ref b.ref, less_ref_irrefl b.ref),
)

refused_create :
    (l : Limits) (m : Map ObjectRef ObjectState) (c : ObjectState)
    → FitsObject l c
    → find c.ref m ≡ none
    → length m ≡ l.max_objects
    → apply_object l m (create_object_delta c) ≡ err object_limit
unfolding apply_object change_object create_object
refused_create l m c fits new full =
    let r =
      apply_component_deltas-diff_components l [] c.components tt fits.fitting tt fits.ordered
        (omega (arith, fits.bounded)) in
    let o : ObjectState = record { ref = c.ref; archetype = c.archetype; components = r.0 } in
    rw (map_set-diff_components c.components, r.1)
      (ground (arith, fits.valid, fits.shaped, length-put c.ref o m))

-- In a room at its limit of objects the delta that brings in an object below all the others is
-- refused, although both snapshots are valid: the object is created before another is removed, and
-- the number of objects is checked in between.
pub apply_delta_full_room :
    (base current : Snapshot) (c : ObjectState) (cs : List ObjectState) (limits : Limits)
    (frame : DeltaFrame)
    → new_snapshot base.meta base.objects limits ≡ ok base
    → new_snapshot current.meta current.objects limits ≡ ok current
    → length base.objects ≡ (normalize_limits limits).max_objects
    → current.objects ≡ c ∷ cs
    → Above (λ (o : ObjectState). o.ref) c.ref base.objects
    → build_delta (some base) current ≡ ok frame
    → apply_delta (some base) frame limits ≡ err object_limit
unfolding build_delta apply_delta start_objects start_map apply_objects validate_meta
apply_delta_full_room base current c cs limits frame hb hc full new above built =
    let l : Limits = normalize_limits limits in
    let nb = (new_snapshot-IsNormal base.meta base.objects limits base hb).0 in
    let nc = (new_snapshot-IsNormal current.meta current.objects limits current hc).0 in
    let fits : All (FitsObject l) (c ∷ cs) = subst (All (FitsObject l)) new nc.fitting in
    let m : Map ObjectRef ObjectState = start_map base.objects in
    let absent : find c.ref m ≡ none =
      find-start_map c.ref base.objects nb.ordered
      ∙ find_by-Above ref_of c.ref base.objects above in
    let refused =
      refused_create l m c fits.0 absent (length-start_map base.objects nb.ordered ∙ full) in
    ground (arith, refused, nb.described, new, diff_objects-Above base.objects cs c above)
