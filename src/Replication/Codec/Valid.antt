-- ===== src/Replication/Codec/Valid.antt =====
-- What the validation of a frame guarantees.
use cube_core.Base.Keys.{nat_key}
use cube_core.Base.{
  inl, inr, or_left, ◌==◌, or_right, ℕ, ◌≡◌, ◌≤◌, ◌*◌, ◌<◌, ◌⊎◌, true, false, List, [], ◌∷◌, length,
  All, arith,
}
use cube_core.Base.Results.{ok, Result-cases}
use cube_core.Base.Sorting.{Distinct, Absent}
use cube_core.Replication.Types.{
  same_ref, valid_ref, ref_key, Limits, ObjectRef, ComponentDelta, ObjectDelta, DeltaFrame,
}
use cube_core.Replication.Codec.{
  same_ref, valid_ref, seen_ref, seen_type, validate_components, validate_objects,
  validate_delta_frame,
}

abbrev NotSeenType : List ℕ → List ComponentDelta → Type 0
NotSeenType seen = All (λ c. seen_type c.type_id seen ≡ false)

-- Nothing that was seen comes again, and nothing comes twice.
validate_components-Distinct :
    (l : Limits) (operation : ℕ) (seen : List ℕ) (cs : List ComponentDelta)
    → validate_components l operation seen cs ≡ ok tt
    → NotSeenType seen cs × Distinct (λ (c : ComponentDelta). c.type_id) cs
unfolding validate_components seen_type
validate_components-Distinct l operation seen [] h = (tt, tt)
validate_components-Distinct l operation seen (c ∷ cs) h =
    let rest = validate_components-Distinct l operation (c.type_id ∷ seen) cs (ground arith) in
    ((ground arith, older seen c.type_id cs rest.0), (newer seen c.type_id cs rest.0, rest.1))
  where
    older :
        (ss : List ℕ) (t : ℕ) (xs : List ComponentDelta)
        → NotSeenType (t ∷ ss) xs
        → NotSeenType ss xs
    older ss t [] n = tt
    older ss t (x ∷ xs) n = (or_right (t == x.type_id) _ n.0, older ss t xs n.1)

    newer :
        (ss : List ℕ) (t : ℕ) (xs : List ComponentDelta)
        → NotSeenType (t ∷ ss) xs
        → Absent (λ (c : ComponentDelta). c.type_id) t xs
    newer ss t [] n = tt
    newer ss t (x ∷ xs) n = (or_left (t == x.type_id) _ n.0, newer ss t xs n.1)

abbrev NotSeenRef : List ObjectRef → List ObjectDelta → Type 0
NotSeenRef seen = All (λ o. seen_ref o.ref seen ≡ false)

-- An object of a frame that is accepted.
pub record IsDelta (l : Limits) (kind : ℕ) (o : ObjectDelta) : Type 0 where
  pub valid : valid_ref o.ref ≡ true
  pub created : kind ≡ 1 → o.operation ≡ 1
  pub bare : o.operation ≡ 3 → length o.components ≡ 0
  pub bounded : length o.components ≤ l.max_components_per_object * 2
  pub distinct : Distinct (λ (c : ComponentDelta). c.type_id) o.components

validate_objects-Distinct :
    (l : Limits) (kind : ℕ) (seen : List ObjectRef) (os : List ObjectDelta)
    → validate_objects l kind seen os ≡ ok tt
    → NotSeenRef seen os × Distinct (λ (o : ObjectDelta). o.ref) os × All (IsDelta l kind) os
unfolding validate_objects seen_ref
validate_objects-Distinct l kind seen [] h = (tt, tt, tt)
validate_objects-Distinct l kind seen (o ∷ os) h =
    elim (Result-cases (validate_components l o.operation [] o.components)) [
      | inr (e, r) ↦ absurd (ground arith)
      | inl (u, r) ↦
          let rest = validate_objects-Distinct l kind (o.ref ∷ seen) os (ground arith) in
          (
            (ground arith, older seen o.ref os rest.0),
            (newer seen o.ref os rest.0, rest.1),
            (
              record {
                valid = ground arith;
                created = λ k. ground arith;
                bare = λ k. ground arith;
                bounded = ground arith;
                distinct =
                    (validate_components-Distinct l o.operation [] o.components (ground arith)).1;
              },
              rest.2,
            ),
          )
    ]
  where
    older :
        (ss : List ObjectRef) (t : ObjectRef) (xs : List ObjectDelta)
        → NotSeenRef (t ∷ ss) xs
        → NotSeenRef ss xs
    older ss t [] n = tt
    older ss t (x ∷ xs) n = (or_right (same_ref t x.ref) _ n.0, older ss t xs n.1)

    newer :
        (ss : List ObjectRef) (t : ObjectRef) (xs : List ObjectDelta)
        → NotSeenRef (t ∷ ss) xs
        → Absent (λ (o : ObjectDelta). o.ref) t xs
    newer ss t [] n = tt
    newer ss t (x ∷ xs) n = (or_left (same_ref t x.ref) _ n.0, newer ss t xs n.1)

-- A frame that is accepted is either a full one without a baseline or a delta from an earlier tick. No
-- object comes twice in it, and no component twice in an object; a full frame only creates objects, and
-- an object that is removed has no components.
pub validate_delta_frame_lem :
    (frame : DeltaFrame) (l : Limits)
    → validate_delta_frame frame l ≡ ok tt
    → (((frame.kind ≡ 1) × (frame.base_tick ≡ 0))
        ⊎ ((frame.kind ≡ 2) × (0 < frame.base_tick) × (frame.base_tick < frame.meta.tick)))
      × (length frame.objects ≤ l.max_objects * 2)
      × Distinct (λ (o : ObjectDelta). o.ref) frame.objects
      × All (IsDelta l frame.kind) frame.objects
unfolding validate_delta_frame
validate_delta_frame_lem frame l h =
    let passed : validate_objects l frame.kind [] frame.objects ≡ ok tt = ground arith in
    let v = validate_objects-Distinct l frame.kind [] frame.objects passed in
    (ground arith, ground arith, v.1, v.2)
