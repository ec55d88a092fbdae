-- ===== src/Replication/Shadow/Examples.antt =====
-- A store with one object.
use cube_core.Replication.Snapshot.Normal.{IsNormal}
use cube_core.Base.Sorting.{insert_by, sort_by}
use cube_core.Base.Maps.{delete, put, find}
use cube_core.Replication.Snapshot.{check_components, check_objects, new_snapshot}
use cube_core.Base.{ℕ, ◌≡◌, List, [], ◌∷◌, refl}
use cube_core.Replication.Types.{
  same_ref, validate_meta, valid_ref, Snapshot, SnapshotMeta, ObjectRef, ComponentState,
  default_limits, normalize_limits,
}
use cube_core.Replication.Shadow.{
  find, new_snapshot, SnapshotMeta, ObjectRef, ComponentState, valid_ref, Snapshot, ShadowStore,
  new_shadow_store, set_component, capture, upsert_object, remove_object,
}
use cube_core.Replication.Shadow.Store.{IsStore}
use cube_core.Replication.Shadow.Calls.{Call, upserts, sets, removes, run, step, run-IsStore}
use cube_core.Replication.Shadow.Writes.{component_at}
use cube_core.Replication.Shadow.Capture.{archetype_at, shown_archetype, shown, capture_lem}

abbrev tank : ObjectRef
tank = record { id = 4; generation = 1 }

abbrev armour : ℕ → ComponentState
armour points = record { type_id = 3; schema_version = 1; bytes = points ∷ [] }

abbrev calls : List Call
calls = upserts tank 2 ∷ sets tank (armour 9) ∷ removes (record { id = 5; generation = 1 }) ∷ []

abbrev holding : ℕ → ShadowStore
holding points = record {
  limits = default_limits;
  objects = (tank, record { archetype = 2; components = (3, armour points) ∷ [] }) ∷ [];
}

abbrev meta : SnapshotMeta
meta = record { room_id = 9; epoch = 1; tick = 6; schema_version = 1 }

abbrev taken : Snapshot
taken = record {
  meta = meta;
  objects = record { ref = tank; archetype = 2; components = armour 9 ∷ [] } ∷ [];
}

run-IsStore_example : IsStore (run (new_shadow_store default_limits) calls)
run-IsStore_example = run-IsStore default_limits calls

holding-IsStore : IsStore (holding 9)
unfolding run step new_shadow_store normalize_limits upsert_object set_component remove_object
    valid_ref find put delete same_ref
holding-IsStore = run-IsStore_example'
  where
    run-IsStore_example' : IsStore (run (new_shadow_store default_limits) calls)
    run-IsStore_example' = run-IsStore default_limits calls

capture_lem_example :
    IsNormal default_limits taken
    × (taken.meta ≡ meta)
    × ((r : ObjectRef) → shown_archetype taken r ≡ archetype_at (holding 9) r)
    × ((r : ObjectRef) (k : ℕ) → shown taken r k ≡ component_at (holding 9) r k)
unfolding capture new_snapshot validate_meta check_objects check_components sort_by insert_by
    normalize_limits valid_ref
capture_lem_example = capture_lem (holding 9) meta taken holding-IsStore refl
