-- ===== src/Replication/Snapshot/Checks.antt =====
-- What the loops of `NewSnapshot` establish, and what they need.
use cube_core.Replication.Snapshot.{check_components, check_objects, sort_components, sort_object}
use cube_core.Replication.Types.{
  Limits, ObjectRef, valid_ref, same_ref, ref_key, ComponentState, ObjectState,
}
use cube_core.Base.Keys.{nat_key}
use cube_core.Base.{
  ◌∙◌, refl, ap, map, inr, inl, ℕ, ◌+◌, ◌≤◌, ◌≡◌, true, false, List, [], ◌∷◌, Option, none, some,
  length, ◌==◌, All, arith,
}
use cube_core.Base.Results.{Result-cases, ok}
use cube_core.Base.Sorting.{
  sort_by-Sorted, length-sort_by, sort_by_id, Sorted-Ascending, Sorted, Apart, Ascending,
}

-- A component that the loop lets pass.
pub record FitsComponent (l : Limits) (c : ComponentState) : Type 0 where
  pub typed : (c.type_id == 0) ≡ false
  pub versioned : (c.schema_version == 0) ≡ false
  pub sized : length c.bytes ≤ l.max_component_bytes

pub check_components-All :
    (l : Limits) (last : Option ℕ) (estimated : ℕ) (cs : List ComponentState) {n : ℕ}
    → check_components l last estimated cs ≡ ok n
    → All (FitsComponent l) cs
unfolding check_components
check_components-All l last estimated [] h = tt
check_components-All l last estimated (c ∷ cs) {n} h = (
  record { typed = ground arith; versioned = ground arith; sized = ground arith },
  check_components-All l (some c.type_id) (estimated + 12 + length c.bytes) cs {n = n}
      (ground arith),
)

pub check_components-Apart :
    (l : Limits) (t estimated : ℕ) (cs : List ComponentState) {n : ℕ}
    → check_components l (some t) estimated cs ≡ ok n
    → Apart (λ c. c.type_id) t cs
unfolding check_components
check_components-Apart l t estimated [] h = tt
check_components-Apart l t estimated (c ∷ cs) {n} h = (
  ground arith,
  check_components-Apart l c.type_id (estimated + 12 + length c.bytes) cs {n = n} (ground arith),
)

pub check_components-Ascending :
    (l : Limits) (estimated : ℕ) (cs : List ComponentState) {n : ℕ}
    → check_components l none estimated cs ≡ ok n
    → Sorted (λ c. c.type_id) cs
    → Ascending (λ c. c.type_id) cs
unfolding check_components
check_components-Ascending l estimated [] h s = tt
check_components-Ascending l estimated (c ∷ cs) {n} h s =
    Sorted-Ascending (λ c. c.type_id) c cs s
      (check_components-Apart l c.type_id (estimated + 12 + length c.bytes) cs {n = n}
        (ground arith))

-- An object that the loop hands on: valid, within the limits, its components in ascending order.
pub record FitsObject (l : Limits) (o : ObjectState) : Type 0 where
  pub valid : valid_ref o.ref ≡ true
  pub shaped : (o.archetype == 0) ≡ false
  pub bounded : length o.components ≤ l.max_components_per_object
  pub ordered : Ascending (λ (c : ComponentState). c.type_id) o.components
  pub fitting : All (FitsComponent l) o.components

-- One round of the loop over the objects, taken apart.
check_objects-inv :
    (l : Limits) (last : Option ObjectRef) (estimated : ℕ) (o : ObjectState) (os : List ObjectState)
    {ys : List ObjectState}
    → check_objects l last estimated (o ∷ os) ≡ ok ys
    → (valid_ref o.ref ≡ true)
      × ((o.archetype == 0) ≡ false)
      × ((elim last [ none ↦ false | some r ↦ same_ref o.ref r ]) ≡ false)
      × (length o.components ≤ l.max_components_per_object)
      × ((grown : ℕ) × (rest : List ObjectState) × (check_components l none
              (estimated + 9)
              (sort_components o.components)
            ≡ ok grown)
          × (check_objects l (some o.ref) grown os ≡ ok rest)
          × (ys ≡ sort_object o ∷ rest))
unfolding check_objects
check_objects-inv l last estimated o os h =
    elim (Result-cases (check_components l none (estimated + 9) (sort_components o.components))) [
      | inl (n, e) ↦ elim (Result-cases (check_objects l (some o.ref) n os)) [
        | inl (rest, e2) ↦
            (ground arith, ground arith, ground arith, ground arith, (n, rest, e, e2, ground arith))
        | inr (x, e2) ↦ absurd (ground arith)
      ]
      | inr (x, e) ↦ absurd (ground arith)
    ]

FitsObject-sort_object :
    (l : Limits) (o : ObjectState) (estimated : ℕ) {n : ℕ}
    → valid_ref o.ref ≡ true
    → (o.archetype == 0) ≡ false
    → length o.components ≤ l.max_components_per_object
    → check_components l none estimated (sort_components o.components) ≡ ok n
    → FitsObject l (sort_object o)
FitsObject-sort_object l o estimated valid shaped bounded passed = record {
  valid = valid;
  shaped = shaped;
  bounded = omega (arith, length-sort_by (λ (c : ComponentState). c.type_id) o.components);
  ordered =
      check_components-Ascending l estimated (sort_components o.components) passed
        (sort_by-Sorted (λ c. c.type_id) o.components);
  fitting = check_components-All l none estimated (sort_components o.components) passed;
}

-- The loop hands the objects on in their order, each with its components sorted.
pub check_objects-map :
    (l : Limits) (last : Option ObjectRef) (estimated : ℕ) (os : List ObjectState)
    {ys : List ObjectState}
    → check_objects l last estimated os ≡ ok ys
    → ys ≡ map sort_object os
unfolding check_objects
check_objects-map l last estimated [] h = ground arith
check_objects-map l last estimated (o ∷ os) h =
    let r = check_objects-inv l last estimated o os h in
    r.4.4 ∙ ap (◌∷◌ (sort_object o)) (check_objects-map l (some o.ref) r.4.0 os r.4.3)

pub check_objects-All :
    (l : Limits) (last : Option ObjectRef) (estimated : ℕ) (os : List ObjectState)
    {ys : List ObjectState}
    → check_objects l last estimated os ≡ ok ys
    → All (FitsObject l) (map sort_object os)
check_objects-All l last estimated [] h = tt
check_objects-All l last estimated (o ∷ os) h =
    let r = check_objects-inv l last estimated o os h in
    (
      FitsObject-sort_object l o (estimated + 9) r.0 r.1 r.3 r.4.2,
      check_objects-All l (some o.ref) r.4.0 os r.4.3,
    )

check_objects-Apart :
    (l : Limits) (last : ObjectRef) (estimated : ℕ) (os : List ObjectState) {ys : List ObjectState}
    → check_objects l (some last) estimated os ≡ ok ys
    → Apart (λ (o : ObjectState). o.ref) last os
check_objects-Apart l last estimated [] h = tt
check_objects-Apart l last estimated (o ∷ os) h =
    let r = check_objects-inv l (some last) estimated o os h in
    (r.2, check_objects-Apart l o.ref r.4.0 os r.4.3)

pub check_objects-Ascending :
    (l : Limits) (estimated : ℕ) (os : List ObjectState) {ys : List ObjectState}
    → check_objects l none estimated os ≡ ok ys
    → Sorted (λ (o : ObjectState). o.ref) os
    → Ascending (λ (o : ObjectState). o.ref) os
check_objects-Ascending l estimated [] h s = tt
check_objects-Ascending l estimated (o ∷ os) h s =
    let r = check_objects-inv l none estimated o os h in
    Sorted-Ascending (λ (o : ObjectState). o.ref) o os s
      (check_objects-Apart l o.ref r.4.0 os r.4.3)

sort_components_idem :
    (cs : List ComponentState) → sort_components (sort_components cs) ≡ sort_components cs
sort_components_idem cs =
    sort_by_id (λ (c : ComponentState). c.type_id) (sort_components cs)
      (sort_by-Sorted (λ c. c.type_id) cs)

pub sort_object_idem : (o : ObjectState) → sort_object (sort_object o) ≡ sort_object o
sort_object_idem o i = record o { components = sort_components_idem o.components i }

-- Sorting the components beforehand changes nothing.
pub check_objects-sort_object :
    (l : Limits) (last : Option ObjectRef) (estimated : ℕ) (os : List ObjectState)
    → check_objects l last estimated (map sort_object os) ≡ check_objects l last estimated os
unfolding check_objects
check_objects-sort_object l last estimated [] = refl
check_objects-sort_object l last estimated (o ∷ os) =
    elim (Result-cases (check_components l none (estimated + 9) (sort_components o.components))) [
      | inl (n, e) ↦ ground (
        arith,
        sort_components_idem o.components,
        length-sort_by (λ (c : ComponentState). c.type_id) o.components,
        sort_object_idem o,
        check_objects-sort_object l (some o.ref) n os,
      )
      | inr (x, e) ↦ ground (
        arith,
        sort_components_idem o.components,
        length-sort_by (λ (c : ComponentState). c.type_id) o.components,
      )
    ]
