-- ===== src/Replication/Shadow/Capture.antt =====
-- A snapshot of the store shows the store.
use cube_core.Base.Ordered.{find_by-values, find_by-values, values}
use cube_core.Base.Keys.{nat_key}
use cube_core.Base.Results.{ok}
use cube_core.Base.Maps.{Map, find}
use cube_core.Replication.Types.{
  same_ref_iff, same_ref, ref_key, ComponentState, ObjectState, normalize_limits, ObjectRef,
  Snapshot, SnapshotMeta,
}
use cube_core.Base.{
  Bool-cases, [], ◌∷◌, refl, ◌∙◌, inr, arith, some, inl, Option-cases, none, map, ℕ, ◌≡◌, Option,
}
use cube_core.Base.Sorting.{find_by-sort_by, find_by}
use cube_core.Replication.Snapshot.{sort_object}
use cube_core.Replication.Snapshot.Normal.{IsNormal, new_snapshot-IsNormal}
use cube_core.Replication.Shadow.{
  values, ObjectState, ComponentState, normalize_limits, ObjectRef, ok, find, SnapshotMeta,
  Snapshot, ShadowStore, ShadowObject, capture_object, capture,
}
use cube_core.Replication.Shadow.Store.{IsStore}
use cube_core.Replication.Shadow.Writes.{component_at}

find_by-capture_object :
    (r : ObjectRef) (m : Map ObjectRef ShadowObject)
    → find_by (λ (o : ObjectState). o.ref) r (map capture_object m)
      ≡ (elim (find r m) [ none ↦ none | some o ↦ some (capture_object (r, o)) ])
unfolding find_by find
find_by-capture_object r [] = refl
find_by-capture_object r ((q, o) ∷ m) = elim (Bool-cases (same_ref q r)) [
  | inl e ↦ rw (e, (same_ref_iff q r).0 e) refl
  | inr e ↦ rw e (find_by-capture_object r m)
]

-- The component of a type that a snapshot shows for an object.
unfoldable pub shown : Snapshot → ObjectRef → ℕ → Option ComponentState
shown x ref type_id = elim (find_by (λ (o : ObjectState). o.ref) ref x.objects) [
  | none ↦ none
  | some o ↦ find_by (λ (c : ComponentState). c.type_id) type_id o.components
]

-- The archetype that a snapshot shows for an object, if it shows the object.
unfoldable pub shown_archetype : Snapshot → ObjectRef → Option ℕ
shown_archetype x ref = elim (find_by (λ (o : ObjectState). o.ref) ref x.objects) [
  | none ↦ none
  | some o ↦ some o.archetype
]

-- The archetype that the store holds for an object, if it holds the object.
unfoldable pub archetype_at : ShadowStore → ObjectRef → Option ℕ
archetype_at s ref = elim (find ref s.objects) [ none ↦ none | some obj ↦ some obj.archetype ]

-- A captured snapshot carries the given metadata, is in normal form under the store's limits, and
-- shows exactly the objects that the store holds, each with its archetype, and for every object and
-- every component type what the store holds, and nothing else.
pub capture_lem :
    (s : ShadowStore) (m : SnapshotMeta) (x : Snapshot)
    → IsStore s
    → capture s m ≡ ok x
    → IsNormal (normalize_limits s.limits) x
      × (x.meta ≡ m)
      × ((r : ObjectRef) → shown_archetype x r ≡ archetype_at s r)
      × ((r : ObjectRef) (k : ℕ) → shown x r k ≡ component_at s r k)
unfolding capture shown component_at shown_archetype archetype_at
capture_lem s m x v h =
    let n = new_snapshot-IsNormal m (map capture_object s.objects) s.limits x h in
    (
      n.0,
      n.1,
      λ r. elim (Option-cases (find r s.objects)) [
        | inl o ↦ ground (arith, n.2 r, find_by-capture_object r s.objects)
        | inr (obj, o) ↦ ground (arith, n.2 r, find_by-capture_object r s.objects, o)
      ],
      λ r k. elim (Option-cases (find r s.objects)) [
        | inl o ↦ ground (arith, n.2 r, find_by-capture_object r s.objects)
        | inr (obj, o) ↦
            let at : find_by (λ (z : ObjectState). z.ref) r x.objects
                ≡ some (sort_object (capture_object (r, obj))) =
              ground (arith, n.2 r, find_by-capture_object r s.objects) in
            let held =
              find_by-sort_by (λ (c : ComponentState). c.type_id) k (values obj.components)
              ∙ find_by-values (λ (c : ComponentState). c.type_id) k obj.components
                  (v.fitting r obj o).keyed in
            ground (arith, at, o, held)
      ],
    )
