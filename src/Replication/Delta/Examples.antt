-- ===== src/Replication/Delta/Examples.antt =====
-- Concrete snapshots and deltas.
use cube_core.Base.{ℕ, ◌≡◌, refl, List, [], ◌∷◌, some, arith}
use cube_core.Base.Results.{ok, err}
use cube_core.Base.Keys.{nat_key}
use cube_core.Base.Sorting.{find_by, sort_by}
use cube_core.Replication.Types.{
  Limits, normalize_limits, ref_key, less_ref, same_ref, valid_ref, validate_meta, ComponentState,
  ObjectState, Snapshot, DeltaFrame, object_limit,
}
use cube_core.Replication.Snapshot.{new_snapshot, check_objects, check_components}
use cube_core.Replication.Snapshot.Normal.{
  IsNormal, new_snapshot-IsNormal, new_snapshot-order, new_snapshot_idem,
}
use cube_core.Replication.Delta.{build_delta, apply_delta}
use cube_core.Replication.Delta.Roundtrip.{apply_delta-build_delta, apply_delta_full_room}

abbrev limits : Limits
limits = record {
  max_objects = 0;
  max_components_per_object = 0;
  max_component_bytes = 0;
  max_frame_bytes = 0;
  max_datagram_bytes = 0;
  max_fragments = 0;
  max_inflight_frames = 0;
}

abbrev two_objects : Limits
two_objects = record limits { max_objects = 2 }

abbrev component : ℕ → List ℕ → ComponentState
component t bytes = record { type_id = t; schema_version = 1; bytes = bytes }

abbrev object : ℕ → List ComponentState → ObjectState
object i cs = record { ref = record { id = i; generation = 1 }; archetype = 3; components = cs }

abbrev at_tick : ℕ → List ObjectState → Snapshot
at_tick t os = record {
  meta = record { room_id = 9; epoch = 1; tick = t; schema_version = 1 };
  objects = os;
}

abbrev first : Snapshot
first = at_tick 4 (object 2 (component 1 (5 ∷ []) ∷ []) ∷ object 3 [] ∷ [])

abbrev second : Snapshot
second = at_tick 5 (object 1 [] ∷ object 2 (component 1 (6 ∷ []) ∷ component 7 [] ∷ []) ∷ [])

abbrev unsorted : List ObjectState
unsorted = object 2 (component 7 [] ∷ component 1 (6 ∷ []) ∷ []) ∷ object 1 [] ∷ []

abbrev between : DeltaFrame
unfolding build_delta validate_meta
between = elim (build_delta (some first) second) [
  | ok f ↦ f
  | err e ↦ record { meta = second.meta; kind = 0; base_tick = 0; objects = [] }
]

normal_second : new_snapshot second.meta unsorted limits ≡ ok second
unfolding new_snapshot normalize_limits validate_meta check_objects check_components sort_by
    less_ref same_ref valid_ref
normal_second = refl

normal_first : new_snapshot first.meta first.objects limits ≡ ok first
unfolding new_snapshot normalize_limits validate_meta check_objects check_components sort_by
    less_ref same_ref valid_ref
normal_first = refl

new_snapshot-IsNormal_example : IsNormal (normalize_limits limits) second
new_snapshot-IsNormal_example =
    (new_snapshot-IsNormal second.meta unsorted limits second normal_second).0

new_snapshot-order_example :
    new_snapshot second.meta (object 1 [] ∷ object 2 [] ∷ []) limits
    ≡ new_snapshot second.meta (object 2 [] ∷ object 1 [] ∷ []) limits
unfolding find_by same_ref
new_snapshot-order_example =
    new_snapshot-order second.meta (object 1 [] ∷ object 2 [] ∷ []) (object 2 [] ∷ object 1 [] ∷ [])
      limits ((refl, tt), (tt, tt)) ((refl, tt), (tt, tt)) (λ r. ground arith)

apply_delta-build_delta_example : apply_delta (some first) between limits ≡ ok second
unfolding build_delta validate_meta normalize_limits
apply_delta-build_delta_example =
    apply_delta-build_delta first second limits between normal_first
      (new_snapshot_idem second.meta unsorted limits second normal_second) (omega arith)
      (omega arith) refl

-- Two objects fill the room; the next tick has an object with a lower reference in place of one.
crowded : new_snapshot first.meta first.objects two_objects ≡ ok first
unfolding new_snapshot normalize_limits validate_meta check_objects check_components sort_by
    less_ref same_ref valid_ref
crowded = refl

crowded_next : new_snapshot second.meta second.objects two_objects ≡ ok second
unfolding new_snapshot normalize_limits validate_meta check_objects check_components sort_by
    less_ref same_ref valid_ref
crowded_next = refl

apply_delta_full_room_example : apply_delta (some first) between two_objects ≡ err object_limit
unfolding build_delta validate_meta normalize_limits less_ref
apply_delta_full_room_example =
    apply_delta_full_room first second (object 1 [])
      (object 2 (component 1 (6 ∷ []) ∷ component 7 [] ∷ []) ∷ []) two_objects between crowded
      crowded_next refl refl (refl, (refl, tt)) refl
