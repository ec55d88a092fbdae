-- ===== src/Replication/Shadow/Store.antt =====
-- What the store of shadows keeps, and what a write to it changes.
use cube_core.Base.Keys.{nat_key}
use cube_core.Base.Results.{Result-cases}
use cube_core.Replication.Types.{
  same_ref_iff, same_ref, ref_key, valid_ref, ComponentState, Limits, ObjectRef,
}
use cube_core.Base.{
  not, Bool-cases, [], subst, ◌&&◌, arith, inr, true, inl, some, Option-cases, false, ◌==◌, ℕ, ◌≤◌,
  length, ◌≡◌,
}
use cube_core.Base.Maps.{
  delete-IsMap, find-delete, length-delete-le, delete, length-put, put-IsMap, put, IsMap, find,
  find-put,
}
use cube_core.Base.Ordered.{delete-IsKeyed, put-IsKeyed, IsKeyed}
use cube_core.Replication.Snapshot.Checks.{FitsComponent}
use cube_core.Replication.Shadow.{
  valid_ref, ObjectRef, ComponentState, Limits, ShadowStore, ShadowObject, upsert_object,
  set_component, remove_component, remove_object,
}

abbrev type_of : ComponentState → ℕ
type_of c = c.type_id

-- An object within the limits, its components under their own types.
pub record FitsShadow (l : Limits) (o : ShadowObject) : Type 0 where
  pub shaped : (o.archetype == 0) ≡ false
  pub keyed : IsKeyed (λ (c : ComponentState). c.type_id) o.components
  pub bounded : length o.components ≤ l.max_components_per_object
  pub fitting : (k : ℕ) (c : ComponentState) → find k o.components ≡ some c → FitsComponent l c

pub record IsStore (s : ShadowStore) : Type 0 where
  pub bounded : length s.objects ≤ s.limits.max_objects
  pub unique : IsMap s.objects
  pub valid : (r : ObjectRef) (o : ShadowObject) → find r s.objects ≡ some o → valid_ref r ≡ true
  pub fitting :
      (r : ObjectRef) (o : ShadowObject) → find r s.objects ≡ some o → FitsShadow s.limits o

-- A write of one object keeps the store well-formed.
put_object-IsStore :
    (s : ShadowStore) (ref : ObjectRef) (o : ShadowObject)
    → IsStore s
    → valid_ref ref ≡ true
    → FitsShadow s.limits o
    → length (put ref o s.objects) ≤ s.limits.max_objects
    → IsStore (record s { objects = put ref o s.objects })
put_object-IsStore s ref o v valid fits room = record {
  bounded = room;
  unique = put-IsMap ref o s.objects v.unique;
  valid = λ r x h. ground (arith, v.valid r x, find-put ref r o s.objects, same_ref_iff ref r);
  fitting = λ r x h. elim (Bool-cases (same_ref ref r)) [
    | inl e ↦ subst (FitsShadow s.limits) {x = o} (ground (arith, find-put ref r o s.objects)) fits
    | inr e ↦ v.fitting r x (ground (arith, find-put ref r o s.objects))
  ];
}

bare-FitsShadow :
    (l : Limits) (archetype : ℕ)
    → (archetype == 0) ≡ false
    → FitsShadow l (record { archetype = archetype; components = [] })
unfolding find
bare-FitsShadow l archetype h = record {
  shaped = h;
  keyed = tt;
  bounded = omega arith;
  fitting = λ k c e. absurd (cc e);
}

pub upsert_object-IsStore :
    (s : ShadowStore) (ref : ObjectRef) (archetype : ℕ)
    → IsStore s
    → IsStore (upsert_object s ref archetype).0
unfolding upsert_object
upsert_object-IsStore s ref archetype v = elim (Result-cases (upsert_object s ref archetype).1) [
  | inr (e, f) ↦ subst IsStore {x = s} (ground arith) v
  | inl (u, f) ↦ elim (Option-cases (find ref s.objects)) [
    | inl o ↦
        let new : ShadowObject = record { archetype = archetype; components = [] } in
        subst IsStore {x = record s { objects = put ref new s.objects }} (ground arith) (
          put_object-IsStore s ref new v (ground arith)
            (bare-FitsShadow s.limits archetype (ground arith))
            (ground (arith, length-put ref new s.objects)))
    | inr (obj, o) ↦
        let new : ShadowObject = record obj { archetype = archetype } in
        let old = v.fitting ref obj o in
        let fits : FitsShadow s.limits new = record {
          shaped = ground arith;
          keyed = old.keyed;
          bounded = old.bounded;
          fitting = old.fitting;
        } in
        subst IsStore {x = record s { objects = put ref new s.objects }} (ground arith) (
          put_object-IsStore s ref new v (ground arith) fits
            (ground (arith, v.bounded, length-put ref new s.objects)))
  ]
]

pub set_component-IsStore :
    (s : ShadowStore) (ref : ObjectRef) (c : ComponentState)
    → IsStore s
    → IsStore (set_component s ref c).0
unfolding set_component
set_component-IsStore s ref c v = elim (Result-cases (set_component s ref c).1) [
  | inr (e, f) ↦ subst IsStore {x = s} (ground arith) v
  | inl (u, f) ↦ elim (Option-cases (find ref s.objects)) [
    | inl o ↦ absurd (ground arith)
    | inr (obj, o) ↦
        let new : ShadowObject = record obj { components = put c.type_id c obj.components } in
        let old = v.fitting ref obj o in
        let fits : FitsShadow s.limits new = record {
          shaped = old.shaped;
          keyed = put-IsKeyed (λ (x : ComponentState). x.type_id) c obj.components old.keyed;
          bounded = ground (arith, old.bounded, length-put c.type_id c obj.components);
          fitting = λ k x h. elim (Bool-cases (c.type_id == k)) [
            | inl e ↦
                subst (FitsComponent s.limits) {x = c}
                  (ground (arith, find-put c.type_id k c obj.components))
                  (record { typed = ground arith; versioned = ground arith; sized = ground arith })
            | inr e ↦ old.fitting k x (ground (arith, find-put c.type_id k c obj.components))
          ];
        } in
        subst IsStore {x = record s { objects = put ref new s.objects }} (ground arith) (
          put_object-IsStore s ref new v (ground arith) fits
            (ground (arith, v.bounded, length-put ref new s.objects)))
  ]
]

pub remove_component-IsStore :
    (s : ShadowStore) (ref : ObjectRef) (k : ℕ) → IsStore s → IsStore (remove_component s ref k).0
unfolding remove_component
remove_component-IsStore s ref k v = elim (Bool-cases (valid_ref ref && not (k == 0))) [
  | inr f ↦ subst IsStore {x = s} (ground arith) v
  | inl f ↦ elim (Option-cases (find ref s.objects)) [
    | inl o ↦ subst IsStore {x = s} (ground arith) v
    | inr (obj, o) ↦
        let new : ShadowObject = record obj { components = delete k obj.components } in
        let old = v.fitting ref obj o in
        let fits : FitsShadow s.limits new = record {
          shaped = old.shaped;
          keyed = delete-IsKeyed (λ (x : ComponentState). x.type_id) k obj.components old.keyed;
          bounded = omega (arith, old.bounded, length-delete-le k obj.components);
          fitting = λ j x h. old.fitting j x (ground (arith, find-delete k j obj.components));
        } in
        subst IsStore {x = record s { objects = put ref new s.objects }} (ground arith) (
          put_object-IsStore s ref new v (ground arith) fits
            (ground (arith, v.bounded, length-put ref new s.objects)))
  ]
]

pub remove_object-IsStore :
    (s : ShadowStore) (ref : ObjectRef) → IsStore s → IsStore (remove_object s ref).0
unfolding remove_object
remove_object-IsStore s ref v = elim (Bool-cases (valid_ref ref)) [
  | inr f ↦ subst IsStore {x = s} (ground arith) v
  | inl f ↦ subst IsStore {x = record s { objects = delete ref s.objects }} (ground arith) (record {
    bounded = omega (arith, v.bounded, length-delete-le ref s.objects);
    unique = delete-IsMap ref s.objects v.unique;
    valid = λ r x h. v.valid r x (ground (arith, find-delete ref r s.objects));
    fitting = λ r x h. v.fitting r x (ground (arith, find-delete ref r s.objects));
  })
]

pub empty-IsStore : (s : ShadowStore) → IsStore (record s { objects = [] })
unfolding find
empty-IsStore s = record {
  bounded = omega arith;
  unique = tt;
  valid = λ r o h. absurd (cc h);
  fitting = λ r o h. absurd (cc h);
}
