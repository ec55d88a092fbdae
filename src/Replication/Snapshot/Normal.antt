-- ===== src/Replication/Snapshot/Normal.antt =====
-- What `NewSnapshot` returns, that it returns it again, and that the order of its input is lost.
use cube_core.Replication.Types.{
  normalize_limits, validate_meta, SnapshotMeta, Limits, ObjectRef, ref_key, ObjectState, Snapshot,
}
use mathlib.Core.Option
use cube_core.Base.Ordered.{Ascending-ext}
use cube_core.Replication.Snapshot.{check_objects, sort_object, sort_objects, new_snapshot}
use cube_core.Replication.Snapshot.Checks.{
  FitsObject, check_objects-map, check_objects-All, check_objects-Ascending,
  check_objects-sort_object,
}
use cube_core.Base.{
  le→not_ltb, length-map, true, ◌∙◌, refl, ap, sym, ◌≤◌, ◌≡◌, List, [], ◌∷◌, map, none, length, All,
  arith, subst,
}
use cube_core.Base.Results.{ok}
use cube_core.Base.Sorting.{
  sort_by-Sorted, length-sort_by, Ascending-Sorted, find_by-sort_by, sort_by-Ascending, sort_by_id,
  find_by, Distinct, Ascending,
}

abbrev ref_of : ObjectState → ObjectRef
ref_of o = o.ref

-- A snapshot in normal form under normalised limits: what every snapshot of the package is that
-- `NewSnapshot` made.
pub record IsNormal (l : Limits) (s : Snapshot) : Type 0 where
  pub described : validate_meta s.meta ≡ ok tt
  pub counted : length s.objects ≤ l.max_objects
  pub ordered : Ascending (λ (o : ObjectState). o.ref) s.objects
  pub fitting : All (FitsObject l) s.objects

-- A successful call, taken apart.
new_snapshot-inv :
    (m : SnapshotMeta) (os : List ObjectState) (limits : Limits) {s : Snapshot}
    → new_snapshot m os limits ≡ ok s
    → (validate_meta m ≡ ok tt)
      × (length os ≤ (normalize_limits limits).max_objects)
      × (s.meta ≡ m)
      × (check_objects (normalize_limits limits) none 32 (sort_objects os) ≡ ok s.objects)
unfolding new_snapshot
new_snapshot-inv m os limits h = (ground arith, ground arith, ground arith, ground arith)

pub Ascending-map-sort_object :
    (os : List ObjectState)
    → Ascending (λ (o : ObjectState). o.ref) os
    → Ascending (λ (o : ObjectState). o.ref) (map sort_object os)
Ascending-map-sort_object [] a = tt
Ascending-map-sort_object (o ∷ os) a = (above os a.0, Ascending-map-sort_object os a.1)
  where
    above :
        (xs : List ObjectState)
        → All (λ (y : ObjectState). ref_key.lt o.ref y.ref ≡ true) xs
        → All (λ (y : ObjectState). ref_key.lt o.ref y.ref ≡ true) (map sort_object xs)
    above [] h = tt
    above (x ∷ xs) h = (h.0, above xs h.1)

pub find_by-map-sort_object :
    (r : ObjectRef) (os : List ObjectState)
    → find_by ref_of r (map sort_object os) ≡ Option.map sort_object (find_by ref_of r os)
unfolding find_by
find_by-map-sort_object r [] = refl
find_by-map-sort_object r (o ∷ os) = ground (arith, find_by-map-sort_object r os)

-- Whatever `NewSnapshot` accepts, its result carries the metadata, is in normal form under the
-- normalised limits, and holds under every reference what the input holds, components sorted.
pub new_snapshot-IsNormal :
    (m : SnapshotMeta) (os : List ObjectState) (limits : Limits) (s : Snapshot)
    → new_snapshot m os limits ≡ ok s
    → IsNormal (normalize_limits limits) s
      × (s.meta ≡ m)
      × ((r : ObjectRef)
          → find_by (λ (o : ObjectState). o.ref) r s.objects
            ≡ Option.map sort_object (find_by (λ (o : ObjectState). o.ref) r os))
new_snapshot-IsNormal m os limits s h =
    let l : Limits = normalize_limits limits in
    let i = new_snapshot-inv m os limits h in
    let same = check_objects-map l none 32 (sort_objects os) i.3 in
    (
      record {
        described = rw i.2 i.0;
        counted = omega (
          arith,
          i.1,
          ap length same,
          length-map sort_object (sort_objects os),
          length-sort_by ref_of os,
        );
        ordered = subst (Ascending ref_of) (sym same) (
            Ascending-map-sort_object (sort_objects os)
              (check_objects-Ascending l 32 (sort_objects os) i.3 (sort_by-Sorted ref_of os)));
        fitting =
            subst (All (FitsObject l)) (sym same)
              (check_objects-All l none 32 (sort_objects os) i.3);
      },
      i.2,
      λ r.
          ap (find_by ref_of r) same
          ∙ find_by-map-sort_object r (sort_objects os)
          ∙ ap (Option.map sort_object) (find_by-sort_by ref_of r os),
    )

-- The snapshot that two inputs make is the same if they hold the same objects in other orders.
pub new_snapshot-order :
    (m : SnapshotMeta) (xs ys : List ObjectState) (limits : Limits)
    → Distinct (λ (o : ObjectState). o.ref) xs
    → Distinct (λ (o : ObjectState). o.ref) ys
    → ((r : ObjectRef)
        → find_by (λ (o : ObjectState). o.ref) r xs ≡ find_by (λ (o : ObjectState). o.ref) r ys)
    → new_snapshot m xs limits ≡ new_snapshot m ys limits
unfolding new_snapshot
new_snapshot-order m xs ys limits dx dy h =
    let same : sort_objects xs ≡ sort_objects ys =
      Ascending-ext ref_of (sort_objects xs) (sort_objects ys) (sort_by-Ascending ref_of xs dx)
        (sort_by-Ascending ref_of ys dy)
        (λ r. find_by-sort_by ref_of r xs ∙ h r ∙ sym (find_by-sort_by ref_of r ys)) in
    let sizes : length xs ≡ length ys =
      omega (arith, ap length same, length-sort_by ref_of xs, length-sort_by ref_of ys) in
    rw (same, sizes)

new_snapshot-intro :
    (s : Snapshot) (limits : Limits)
    → validate_meta s.meta ≡ ok tt
    → length s.objects ≤ (normalize_limits limits).max_objects
    → check_objects (normalize_limits limits) none 32 (sort_objects s.objects) ≡ ok s.objects
    → new_snapshot s.meta s.objects limits ≡ ok s
unfolding new_snapshot
new_snapshot-intro s limits v n c = rw (v, c, le→not_ltb _ _ n) refl

-- A snapshot that `NewSnapshot` made is returned unchanged by a second call.
pub new_snapshot_idem :
    (m : SnapshotMeta) (os : List ObjectState) (limits : Limits) (s : Snapshot)
    → new_snapshot m os limits ≡ ok s
    → new_snapshot s.meta s.objects limits ≡ ok s
new_snapshot_idem m os limits s h =
    let l : Limits = normalize_limits limits in
    let i = new_snapshot-inv m os limits h in
    let normal = (new_snapshot-IsNormal m os limits s h).0 in
    let same = check_objects-map l none 32 (sort_objects os) i.3 in
    let again : check_objects l none 32 (sort_objects s.objects) ≡ ok s.objects =
      ap (check_objects l none 32)
        (sort_by_id ref_of s.objects (Ascending-Sorted ref_of s.objects normal.ordered) ∙ same)
      ∙ check_objects-sort_object l none 32 (sort_objects os)
      ∙ i.3 in
    new_snapshot-intro s limits normal.described normal.counted again

-- Objects that show what a normal snapshot holds, in any order and their components in any order,
-- make that snapshot.
pub new_snapshot_recovers :
    (s : Snapshot) (os : List ObjectState) (limits : Limits)
    → new_snapshot s.meta s.objects limits ≡ ok s
    → Distinct (λ (o : ObjectState). o.ref) os
    → ((r : ObjectRef)
        → Option.map sort_object (find_by (λ (o : ObjectState). o.ref) r os)
          ≡ find_by (λ (o : ObjectState). o.ref) r s.objects)
    → new_snapshot s.meta os limits ≡ ok s
unfolding new_snapshot
new_snapshot_recovers s os limits h distinct shows =
    let l : Limits = normalize_limits limits in
    let i = new_snapshot-inv s.meta s.objects limits h in
    let normal = (new_snapshot-IsNormal s.meta s.objects limits s h).0 in
    let t : List ObjectState = sort_objects os in
    let same : map sort_object t ≡ s.objects =
      Ascending-ext ref_of (map sort_object t) s.objects
        (Ascending-map-sort_object t (sort_by-Ascending ref_of os distinct)) normal.ordered
        (λ r.
          find_by-map-sort_object r t
          ∙ ap (Option.map sort_object) (find_by-sort_by ref_of r os)
          ∙ shows r) in
    let checked : check_objects l none 32 t ≡ ok s.objects =
      sym (check_objects-sort_object l none 32 t)
      ∙ ap (check_objects l none 32) (
          same
          ∙ sym (sort_by_id ref_of s.objects (Ascending-Sorted ref_of s.objects normal.ordered)))
      ∙ i.3 in
    let counted : length os ≤ l.max_objects =
      omega (arith, i.1, ap length same, length-map sort_object t, length-sort_by ref_of os) in
    rw (i.0, checked, le→not_ltb _ _ counted) refl
