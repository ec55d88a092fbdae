-- ===== src/Replication/Delta/Objects.antt =====
-- The objects of two snapshots: what each object delta of `diffObjects` does to the receiver's map.
use cube_core.Base.Keys.{nat_key}
use cube_core.Base.{
  subst, ℕ, ◌+◌, ◌≤◌, ◌≡◌, refl, sym, ap, ◌∙◌, inl, inr, false, List, [], ◌∷◌, Option, none, some,
  length, ◌==◌, All, arith, Bool-cases,
}
use mathlib.Core.Option
use cube_core.Base.Results.{ok}
use cube_core.Base.Maps.{
  Map, find, put, delete, find-put, find-delete, length-put-le, length-delete-le,
}
use cube_core.Base.Ordered.{IsKeyed, put-IsKeyed, delete-IsKeyed}
use cube_core.Base.Sorting.{sort_by_id, Ascending-Sorted, find_by-Above, find_by, Above}
use cube_core.Replication.Types.{
  Limits, ObjectRef, ref_key, same_ref, same_ref_iff, ObjectState, ObjectDelta,
}
use cube_core.Replication.Snapshot.{sort_object}
use cube_core.Replication.Snapshot.Checks.{FitsObject}
use cube_core.Replication.Delta.{
  ComponentDelta, create_object_delta, remove_object_delta, update_object_delta, diff_components,
  diff_object, create_object, update_object, change_object, apply_object, apply_objects,
}
use cube_core.Replication.Delta.Components.{
  type_of, apply_component_deltas-diff_components, diff_components-nil, map_set-diff_components,
}

abbrev pub ref_of : ObjectState → ObjectRef
ref_of o = o.ref

-- The object under a reference as a snapshot will show it.
abbrev pub shown : ObjectRef → Map ObjectRef ObjectState → Option ObjectState
shown r m = Option.map sort_object (find r m)

abbrev pub added : Option ObjectState → ℕ
added none = 0
added (some o) = 1

-- The map changed under one reference, which now shows `v`.
pub record Changed (m m1 : Map ObjectRef ObjectState) (r : ObjectRef) (v : Option ObjectState)
    : Type 0 where
  pub keyed : IsKeyed ref_of m1
  pub size : length m1 ≤ length m + added v
  pub here : shown r m1 ≡ v
  pub elsewhere : (s : ObjectRef) → same_ref r s ≡ false → find s m1 ≡ find s m

pub removed_lem :
    (l : Limits) (m : Map ObjectRef ObjectState) (b : ObjectState)
    → FitsObject l b
    → IsKeyed ref_of m
    → length m ≤ l.max_objects
    → (m1 : Map ObjectRef ObjectState) × (apply_object l m (remove_object_delta b) ≡ ok m1)
      × Changed m m1 b.ref none
unfolding apply_object change_object
removed_lem l m b fits keyed room = (
  delete b.ref m,
  ground (arith, fits.valid, length-delete-le b.ref m),
  record {
    keyed = delete-IsKeyed ref_of b.ref m keyed;
    size = omega (arith, length-delete-le b.ref m);
    here = ground (arith, find-delete b.ref b.ref m, same_ref_iff b.ref b.ref);
    elsewhere = λ s h. ground (arith, find-delete b.ref s m);
  },
)

stored_lem :
    (m : Map ObjectRef ObjectState) (o c : ObjectState)
    → IsKeyed ref_of m
    → o.ref ≡ c.ref
    → sort_object o ≡ c
    → Changed m (put c.ref o m) c.ref (some c)
stored_lem m o c keyed same shows = record {
  keyed = subst (λ r. IsKeyed ref_of (put r o m)) same (put-IsKeyed ref_of o m keyed);
  size = length-put-le c.ref o m;
  here = ground (arith, find-put c.ref c.ref o m, same_ref_iff c.ref c.ref);
  elsewhere = λ s h. ground (arith, find-put c.ref s o m);
}

pub created_lem :
    (l : Limits) (m : Map ObjectRef ObjectState) (c : ObjectState)
    → FitsObject l c
    → IsKeyed ref_of m
    → length m + 1 ≤ l.max_objects
    → (m1 : Map ObjectRef ObjectState) × (apply_object l m (create_object_delta c) ≡ ok m1)
      × Changed m m1 c.ref (some c)
unfolding apply_object change_object create_object
created_lem l m c fits keyed room =
    let r =
      apply_component_deltas-diff_components l [] c.components tt fits.fitting tt fits.ordered
        (omega (arith, fits.bounded)) in
    let o : ObjectState = record { ref = c.ref; archetype = c.archetype; components = r.0 } in
    let shows : sort_object o ≡ c = λ i. record c { components = r.2 i } in
    (
      put c.ref o m,
      rw (map_set-diff_components c.components, r.1)
          (ground (arith, fits.valid, fits.shaped, length-put-le c.ref o m)),
      stored_lem m o c keyed refl shows,
    )

-- The two versions of an object have room together.
abbrev pub HasRoom : Limits → ObjectState → ObjectState → Type 0
HasRoom l b c = length b.components + length c.components ≤ l.max_components_per_object

pub updated_lem :
    (l : Limits) (m : Map ObjectRef ObjectState) (b c : ObjectState)
    → FitsObject l b
    → FitsObject l c
    → HasRoom l b c
    → b.ref ≡ c.ref
    → b.archetype ≡ c.archetype
    → find b.ref m ≡ some b
    → IsKeyed ref_of m
    → length m + 1 ≤ l.max_objects
    → (m1 : Map ObjectRef ObjectState) × (apply_object l m
          (update_object_delta c (diff_components b.components c.components))
        ≡ ok m1)
      × Changed m m1 c.ref (some c)
unfolding apply_object change_object update_object
updated_lem l m b c fb fc room refs archetypes held keyed size =
    let r =
      apply_component_deltas-diff_components l b.components c.components fb.fitting fc.fitting
        fb.ordered fc.ordered room in
    let o : ObjectState = record b { components = r.0 } in
    let shows : sort_object o ≡ c =
      λ i. record { ref = refs i; archetype = archetypes i; components = r.2 i } in
    let held' : find c.ref m ≡ some b = ap (λ r. find r m) (sym refs) ∙ held in
    (
      put c.ref o m,
      ground (arith, held', r.1, fc.valid, archetypes, length-put-le c.ref o m),
      stored_lem m o c keyed refs shows,
    )

-- The map shows an object that is in normal form already.
kept_lem :
    (l : Limits) (m : Map ObjectRef ObjectState) (b c : ObjectState)
    → FitsObject l b
    → b ≡ c
    → find b.ref m ≡ some b
    → IsKeyed ref_of m
    → Changed m m c.ref (some c)
kept_lem l m b c fb same held keyed =
    let in_order =
      sort_by_id type_of b.components (Ascending-Sorted type_of b.components fb.ordered) in
    let shows : sort_object b ≡ b = λ i. record b { components = in_order i } in
    record {
      keyed = keyed;
      size = omega arith;
      here =
          subst (λ o. shown o.ref m ≡ some o) same
            (ap (Option.map sort_object) held ∙ ap some shows);
      elsewhere = λ s h. refl;
    }

-- Two versions with the same archetype, by the difference of their components.
same_archetype_lem :
    (l : Limits) (m : Map ObjectRef ObjectState) (b c : ObjectState) (rest : List ObjectDelta)
    (ds : List ComponentDelta)
    → diff_components b.components c.components ≡ ds
    → FitsObject l b
    → FitsObject l c
    → HasRoom l b c
    → b.ref ≡ c.ref
    → b.archetype ≡ c.archetype
    → find b.ref m ≡ some b
    → IsKeyed ref_of m
    → length m + 1 ≤ l.max_objects
    → (m1 : Map ObjectRef ObjectState) × (apply_objects l m (diff_object b c rest)
        ≡ apply_objects l m1 rest)
      × Changed m m1 c.ref (some c)
unfolding diff_object apply_objects
same_archetype_lem l m b c rest [] e fb fc room refs archetypes held keyed size =
    let components = diff_components-nil b.components c.components fb.ordered fc.ordered e in
    let same : b ≡ c =
      λ i. record { ref = refs i; archetype = archetypes i; components = components i } in
    (m, ground (arith, e), kept_lem l m b c fb same held keyed)
same_archetype_lem l m b c rest (d ∷ ds) e fb fc room refs archetypes held keyed size =
    let r = updated_lem l m b c fb fc room refs archetypes held keyed size in
    (r.0, ground (arith, e, r.1), r.2)

-- The delta of an object that both snapshots hold, whatever follows it.
pub diff_object_lem :
    (l : Limits) (m : Map ObjectRef ObjectState) (b c : ObjectState) (rest : List ObjectDelta)
    → FitsObject l b
    → FitsObject l c
    → HasRoom l b c
    → b.ref ≡ c.ref
    → find b.ref m ≡ some b
    → IsKeyed ref_of m
    → length m + 1 ≤ l.max_objects
    → (m1 : Map ObjectRef ObjectState) × (apply_objects l m (diff_object b c rest)
        ≡ apply_objects l m1 rest)
      × Changed m m1 c.ref (some c)
unfolding diff_object apply_objects
diff_object_lem l m b c rest fb fc room refs held keyed size =
    elim (Bool-cases (b.archetype == c.archetype)) [
      | inr e ↦ let r = created_lem l m c fc keyed size in (r.0, rw (e, r.1) refl, r.2)
      | inl e ↦
          same_archetype_lem l m b c rest (diff_components b.components c.components) refl fb fc
            room refs (ground arith) held keyed size
    ]

-- What the map shows under a reference after the deltas: the second snapshot's object, nothing
-- where only the first has one, and what it showed before elsewhere.
abbrev pub expected :
    List ObjectState → List ObjectState → ObjectRef → Option ObjectState → Option ObjectState
expected bs cs r before = elim (find_by ref_of r cs) [
  | some c ↦ some c
  | none ↦ elim (find_by ref_of r bs) [ some b ↦ none | none ↦ before ]
]

-- Objects of the same reference have room together.
abbrev pub AllRoom : Limits → List ObjectState → List ObjectState → Type 0
AllRoom l bs cs = All (λ b. All (HasRoom l b) cs) bs

-- The map holds the objects that are still to be compared.
abbrev pub Holds : Map ObjectRef ObjectState → List ObjectState → Type 0
Holds m bs = (r : ObjectRef) (b : ObjectState) → find_by ref_of r bs ≡ some b → find r m ≡ some b

pub Holds-Changed :
    (m m1 : Map ObjectRef ObjectState) (r : ObjectRef) (v : Option ObjectState)
    (bs : List ObjectState)
    → Changed m m1 r v
    → Above ref_of r bs
    → Holds m bs
    → Holds m1 bs
Holds-Changed m m1 r v bs ch above holds s b h =
    ground (arith, ch.elsewhere s, holds s b h, same_ref_iff r s, find_by-Above ref_of r bs above)
