-- ===== src/Replication/Shadow/Writes.antt =====
-- What a write to the store of shadows changes.
use cube_core.Base.Keys.{nat_key}
use cube_core.Base.Results.{Result-cases, ok, Result}
use cube_core.Replication.Types.{same_ref_iff, same_ref, ref_key, Error, ComponentState, ObjectRef}
use cube_core.Base.{
  ◌&&◌, arith, inr, if◌then◌else◌, ◌≢◌, inl, some, Option-cases, none, ◌==◌, ℕ, ◌≡◌, ◌⊎◌, Option,
}
use cube_core.Base.Maps.{put, find, find-put}
use cube_core.Replication.Shadow.{
  Error, Result, ObjectRef, ComponentState, ShadowStore, set_component,
}

-- The component that the store holds for an object.
unfoldable pub component_at : ShadowStore → ObjectRef → ℕ → Option ComponentState
component_at s ref type_id = elim (find ref s.objects) [
  | none ↦ none
  | some obj ↦ find type_id obj.components
]

-- What a write of a component does, accepted or refused.
abbrev pub SetResult :
    ShadowStore → ShadowStore → ObjectRef → ComponentState → Result Error (Unit {0}) → Type 0
SetResult s t ref c result =
    ((result ≡ ok tt)
      × (find ref s.objects ≢ none)
      × ((r : ObjectRef) (k : ℕ)
          → component_at t r k
            ≡ (if same_ref ref r && (c.type_id == k) then some c else component_at s r k)))
    ⊎ ((result ≢ ok tt) × (t ≡ s))

-- A write of a component that is accepted changes that component of that object, which stands in the
-- store before, and no other component of any object; a refused one changes nothing.
pub set_component_lem :
    (s t : ShadowStore) (ref : ObjectRef) (c : ComponentState) (result : Result Error (Unit {0}))
    → set_component s ref c ≡ (t, result)
    → SetResult s t ref c result
unfolding set_component component_at
set_component_lem s t ref c result h = elim (Option-cases (find ref s.objects)) [
  | inl o ↦ inr (ground arith, ground arith)
  | inr (obj, o) ↦ elim (Result-cases result) [
    | inr (e, f) ↦ inr (ground arith, ground arith)
    | inl (u, f) ↦ inl (
      ground arith,
      ground arith,
      λ r k. ground (
        arith,
        find-put ref r (record obj { components = put c.type_id c obj.components }) s.objects,
        find-put c.type_id k c obj.components,
        same_ref_iff ref r,
      ),
    )
  ]
]
