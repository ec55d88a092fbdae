-- ===== src/Replication/Delta/Merge.antt =====
-- `ApplyDelta` after `BuildDelta`: the receiver gets the sender's snapshot back.
use cube_core.Base.{
  ◌+◌, ◌≤◌, ◌≡◌, refl, ◌∙◌, inl, inr, List, [], ◌∷◌, none, some, length, All, arith, Bool-cases,
}
use cube_core.Base.Results.{ok}
use cube_core.Base.Maps.{Map, find}
use cube_core.Base.Ordered.{IsKeyed}
use cube_core.Base.Sorting.{find_by, find_by-Above, Above, Above-trans, Ascending}
use cube_core.Replication.Types.{
  Limits, ObjectRef, ref_key, less_ref, less_ref_connex, same_ref_iff, ObjectState,
}
use cube_core.Replication.Snapshot.Checks.{FitsObject}
use cube_core.Replication.Delta.{diff_objects, apply_objects}
use cube_core.Replication.Delta.Objects.{
  ref_of, shown, Changed, removed_lem, created_lem, diff_object_lem, AllRoom, Holds, Holds-Changed,
  expected,
}

AllRoom-tail :
    (l : Limits) (bs : List ObjectState) (c : ObjectState) (cs : List ObjectState)
    → AllRoom l bs (c ∷ cs)
    → AllRoom l bs cs
AllRoom-tail l [] c cs h = tt
AllRoom-tail l (b ∷ bs) c cs h = (h.0.1, AllRoom-tail l bs c cs h.1)

-- The head of a list is found under its reference, and no other record of it is.
Holds-tail :
    (m : Map ObjectRef ObjectState) (b : ObjectState) (bs : List ObjectState)
    → Above ref_of b.ref bs
    → Holds m (b ∷ bs)
    → Holds m bs
unfolding find_by
Holds-tail m b bs above holds r x h =
    ground (arith, holds r x, same_ref_iff b.ref r, find_by-Above ref_of b.ref bs above)

Holds-head :
    (m : Map ObjectRef ObjectState) (b : ObjectState) (bs : List ObjectState)
    → Holds m (b ∷ bs)
    → find b.ref m ≡ some b
unfolding find_by
Holds-head m b bs holds = ground (arith, holds b.ref b, same_ref_iff b.ref b.ref)

-- The rest of the merge, after the map has changed under one reference.
abbrev Merged :
    Limits
    → List ObjectState
    → List ObjectState
    → Map ObjectRef ObjectState
    → List ObjectState
    → List ObjectState
    → Map ObjectRef ObjectState
    → Type 0
Merged l bs0 cs0 m0 bs cs m =
    (m' : Map ObjectRef ObjectState) × (apply_objects l m (diff_objects bs cs) ≡ ok m')
    × IsKeyed ref_of m'
    × ((r : ObjectRef) → shown r m' ≡ expected bs0 cs0 r (shown r m0))

removed_expected :
    (m m1 m' : Map ObjectRef ObjectState) (b : ObjectState) (bs cs : List ObjectState)
    → Changed m m1 b.ref none
    → Above ref_of b.ref bs
    → Above ref_of b.ref cs
    → ((r : ObjectRef) → shown r m' ≡ expected bs cs r (shown r m1))
    → (r : ObjectRef) → shown r m' ≡ expected (b ∷ bs) cs r (shown r m)
unfolding find_by
removed_expected m m1 m' b bs cs ch ab ac h r = ground (
  arith,
  h r,
  ch.here,
  ch.elsewhere r,
  same_ref_iff b.ref r,
  find_by-Above ref_of b.ref bs ab,
  find_by-Above ref_of b.ref cs ac,
)

stored_expected :
    (m m1 m' : Map ObjectRef ObjectState) (c : ObjectState) (bs cs : List ObjectState)
    → Changed m m1 c.ref (some c)
    → Above ref_of c.ref bs
    → Above ref_of c.ref cs
    → ((r : ObjectRef) → shown r m' ≡ expected bs cs r (shown r m1))
    → (r : ObjectRef) → shown r m' ≡ expected bs (c ∷ cs) r (shown r m)
unfolding find_by
stored_expected m m1 m' c bs cs ch ab ac h r = ground (
  arith,
  h r,
  ch.here,
  ch.elsewhere r,
  same_ref_iff c.ref r,
  find_by-Above ref_of c.ref bs ab,
  find_by-Above ref_of c.ref cs ac,
)

both_expected :
    (m m1 m' : Map ObjectRef ObjectState) (b c : ObjectState) (bs cs : List ObjectState)
    → b.ref ≡ c.ref
    → Changed m m1 c.ref (some c)
    → Above ref_of c.ref bs
    → Above ref_of c.ref cs
    → ((r : ObjectRef) → shown r m' ≡ expected bs cs r (shown r m1))
    → (r : ObjectRef) → shown r m' ≡ expected (b ∷ bs) (c ∷ cs) r (shown r m)
unfolding find_by
both_expected m m1 m' b c bs cs same ch ab ac h r = ground (
  arith,
  h r,
  ch.here,
  ch.elsewhere r,
  same_ref_iff c.ref r,
  same_ref_iff b.ref r,
  find_by-Above ref_of c.ref bs ab,
  find_by-Above ref_of c.ref cs ac,
)

-- The merge from a map that holds the first list's objects, with room for those of the second.
pub diff_objects_lem :
    (l : Limits) (bs cs : List ObjectState) (m : Map ObjectRef ObjectState)
    → All (FitsObject l) bs
    → All (FitsObject l) cs
    → Ascending (λ (o : ObjectState). o.ref) bs
    → Ascending (λ (o : ObjectState). o.ref) cs
    → AllRoom l bs cs
    → Holds m bs
    → IsKeyed ref_of m
    → length m + length cs ≤ l.max_objects
    → (m' : Map ObjectRef ObjectState) × (apply_objects l m (diff_objects bs cs) ≡ ok m')
      × IsKeyed ref_of m'
      × ((r : ObjectRef) → shown r m' ≡ expected bs cs r (shown r m))
unfolding diff_objects apply_objects find_by
diff_objects_lem l [] [] m fb fc ab ac room holds keyed size = (m, refl, keyed, λ r. refl)
diff_objects_lem l [] (c ∷ cs) m fb fc ab ac room holds keyed size =
    let s = created_lem l m c fc.0 keyed (omega arith) in
    let r =
      diff_objects_lem l [] cs s.0 tt fc.1 tt ac.1 tt (λ j x h. absurd (cc h)) s.2.keyed
        (omega (arith, s.2.size)) in
    (r.0, rw s.1 r.1, r.2, stored_expected m s.0 r.0 c [] cs s.2 tt ac.0 r.3)
diff_objects_lem l (b ∷ bs) [] m fb fc ab ac room holds keyed size =
    let s = removed_lem l m b fb.0 keyed (omega arith) in
    let rest = Holds-Changed m s.0 b.ref none bs s.2 ab.0 (Holds-tail m b bs ab.0 holds) in
    let r =
      diff_objects_lem l bs [] s.0 fb.1 tt ab.1 tt room.1 rest s.2.keyed
        (omega (arith, s.2.size)) in
    (r.0, rw s.1 r.1, r.2, removed_expected m s.0 r.0 b bs [] s.2 ab.0 tt r.3)
diff_objects_lem l (b ∷ bs) (c ∷ cs) m fb fc ab ac room holds keyed size =
    elim (Bool-cases (less_ref b.ref c.ref)) [
      | inl x ↦
          let above : Above ref_of b.ref (c ∷ cs) = (x, Above-trans ref_of b.ref c.ref cs x ac.0) in
          let s = removed_lem l m b fb.0 keyed (omega arith) in
          let rest = Holds-Changed m s.0 b.ref none bs s.2 ab.0 (Holds-tail m b bs ab.0 holds) in
          let r =
            diff_objects_lem l bs (c ∷ cs) s.0 fb.1 fc ab.1 ac room.1 rest s.2.keyed
              (omega (arith, s.2.size)) in
          (
            r.0,
            rw (x, diff_objects) (rw s.1 r.1),
            r.2,
            removed_expected m s.0 r.0 b bs (c ∷ cs) s.2 ab.0 above r.3,
          )
      | inr x ↦ elim (Bool-cases (less_ref c.ref b.ref)) [
        | inl y ↦
            let above : Above ref_of c.ref (b ∷ bs) =
              (y, Above-trans ref_of c.ref b.ref bs y ab.0) in
            let s = created_lem l m c fc.0 keyed (omega arith) in
            let rest = Holds-Changed m s.0 c.ref (some c) (b ∷ bs) s.2 above holds in
            let r =
              diff_objects_lem l (b ∷ bs) cs s.0 fb fc.1 ab ac.1 (AllRoom-tail l (b ∷ bs) c cs room)
                rest s.2.keyed (omega (arith, s.2.size)) in
            (
              r.0,
              rw (x, y, diff_objects) (rw s.1 r.1),
              r.2,
              stored_expected m s.0 r.0 c (b ∷ bs) cs s.2 above ac.0 r.3,
            )
        | inr y ↦
            let same : b.ref ≡ c.ref = less_ref_connex b.ref c.ref x y in
            let above : Above ref_of c.ref bs = rw (← same) ab.0 in
            let s =
              diff_object_lem l m b c (diff_objects bs cs) fb.0 fc.0 room.0.0 same
                (Holds-head m b bs holds) keyed (omega arith) in
            let rest =
              Holds-Changed m s.0 c.ref (some c) bs s.2 above (Holds-tail m b bs ab.0 holds) in
            let r =
              diff_objects_lem l bs cs s.0 fb.1 fc.1 ab.1 ac.1 (AllRoom-tail l bs c cs room.1) rest
                s.2.keyed (omega (arith, s.2.size)) in
            (
              r.0,
              rw (x, y, diff_objects) (s.1 ∙ r.1),
              r.2,
              both_expected m s.0 r.0 b c bs cs same s.2 above ac.0 r.3,
            )
      ]
    ]
