-- ===== src/Replication/Delta.antt =====
-- replication/delta.go. The merge loops over two sorted lists are recursions on both; a map is an
-- association list in the order of insertion, the order in which `range` gives it back here.
pub mod Components
pub mod Objects
pub mod Merge
pub mod Roundtrip
mod Examples
use cube_core.Base.{
  ℕ, Bool, true, false, not, ◌&&◌, ◌||◌, List, [], ◌∷◌, map, Option, none, some, length, ltb, leb,
  ◌==◌, if◌then◌else◌,
}
use cube_core.Base.Results.{Result, ok, err, ◌>>=◌, ◌>>◌, reject_if}
use cube_core.Base.Keys.{nat_key}
use cube_core.Base.Maps.{Map, find, put, delete}
use cube_core.Base.Ordered.{values, put_all}
use cube_core.Base.Bytes.{bytes_equal}
use cube_core.Replication.Types.{
  Error, invalid_object_ref, object_not_found, object_limit, component_limit, component_too_large,
  invalid_frame, baseline_mismatch, Limits, normalize_limits, ObjectRef, valid_ref, less_ref,
  ref_key, validate_meta, ComponentState, ObjectState, Snapshot, ComponentDelta, ObjectDelta,
  DeltaFrame, component_set, component_remove, object_create, object_update, object_remove,
  frame_full, frame_delta,
}
use cube_core.Replication.Snapshot.{new_snapshot}

abbrev pub set_component_delta : ComponentState → ComponentDelta
set_component_delta c = record {
  operation = component_set;
  type_id = c.type_id;
  schema_version = c.schema_version;
  bytes = c.bytes;
}

abbrev pub remove_component_delta : ComponentState → ComponentDelta
remove_component_delta c = record {
  operation = component_remove;
  type_id = c.type_id;
  schema_version = 0;
  bytes = [];
}

unfoldable pub component_changed : ComponentState → ComponentState → Bool
component_changed b c =
    not (b.schema_version == c.schema_version) || not (bytes_equal b.bytes c.bytes)

unfoldable pub diff_components : List ComponentState → List ComponentState → List ComponentDelta
diff_components [] [] = []
diff_components [] (c ∷ cs) = set_component_delta c ∷ diff_components [] cs
diff_components (b ∷ bs) [] = remove_component_delta b ∷ diff_components bs []
diff_components (b ∷ bs) (c ∷ cs) = elim (ltb b.type_id c.type_id) [
  | true ↦ remove_component_delta b ∷ diff_components bs (c ∷ cs)
  | false ↦ elim (ltb c.type_id b.type_id) [
    | true ↦ set_component_delta c ∷ diff_components (b ∷ bs) cs
    | false ↦ elim (component_changed b c) [
      | true ↦ set_component_delta c ∷ diff_components bs cs
      | false ↦ diff_components bs cs
    ]
  ]
]

abbrev pub create_object_delta : ObjectState → ObjectDelta
create_object_delta o = record {
  operation = object_create;
  ref = o.ref;
  archetype = o.archetype;
  components = map set_component_delta o.components;
}

abbrev pub remove_object_delta : ObjectState → ObjectDelta
remove_object_delta o = record {
  operation = object_remove;
  ref = o.ref;
  archetype = 0;
  components = [];
}

abbrev pub update_object_delta : ObjectState → List ComponentDelta → ObjectDelta
update_object_delta o components = record {
  operation = object_update;
  ref = o.ref;
  archetype = o.archetype;
  components = components;
}

-- The delta of an object that both snapshots hold, in front of those that follow.
unfoldable pub diff_object : ObjectState → ObjectState → List ObjectDelta → List ObjectDelta
diff_object b c rest =
    if not (b.archetype == c.archetype)
    then create_object_delta c ∷ rest
    else elim (diff_components b.components c.components) [
      | [] ↦ rest
      | d ∷ ds ↦ update_object_delta c (d ∷ ds) ∷ rest
    ]

unfoldable pub diff_objects : List ObjectState → List ObjectState → List ObjectDelta
diff_objects [] [] = []
diff_objects [] (c ∷ cs) = create_object_delta c ∷ diff_objects [] cs
diff_objects (b ∷ bs) [] = remove_object_delta b ∷ diff_objects bs []
diff_objects (b ∷ bs) (c ∷ cs) = elim (less_ref b.ref c.ref) [
  | true ↦ remove_object_delta b ∷ diff_objects bs (c ∷ cs)
  | false ↦ elim (less_ref c.ref b.ref) [
    | true ↦ create_object_delta c ∷ diff_objects (b ∷ bs) cs
    | false ↦ diff_object b c (diff_objects bs cs)
  ]
]

unfoldable pub build_delta : Option Snapshot → Snapshot → Result Error DeltaFrame
build_delta none current = do
  validate_meta current.meta
  ok (record {
    meta = current.meta;
    kind = frame_full;
    base_tick = 0;
    objects = map create_object_delta current.objects;
  })
build_delta (some base) current = do
  validate_meta current.meta
  reject_if
      (not (base.meta.room_id == current.meta.room_id)
        || not (base.meta.epoch == current.meta.epoch)
        || not (base.meta.schema_version == current.meta.schema_version)
        || leb current.meta.tick base.meta.tick)
      baseline_mismatch
  ok (record {
    meta = current.meta;
    kind = frame_delta;
    base_tick = base.meta.tick;
    objects = diff_objects base.objects current.objects;
  })

-- The component that a set delta stores.
abbrev pub component_of : ComponentDelta → ComponentState
component_of d = record { type_id = d.type_id; schema_version = d.schema_version; bytes = d.bytes }

-- The switch on the operation of a component delta.
unfoldable pub change_component :
    Limits → Map ℕ ComponentState → ComponentDelta → Result Error (Map ℕ ComponentState)
change_component l m d =
    if d.operation == component_set
    then (if (d.schema_version == 0) || ltb l.max_component_bytes (length d.bytes)
        then err component_too_large
        else ok (put d.type_id (component_of d) m))
    else if d.operation == component_remove
    then ok (delete d.type_id m)
    else err invalid_frame

unfoldable pub apply_component :
    Limits → Map ℕ ComponentState → ComponentDelta → Result Error (Map ℕ ComponentState)
unfolding change_component
apply_component l m d = do
  reject_if (d.type_id == 0) invalid_frame
  m' ← change_component l m d
  reject_if (ltb l.max_components_per_object (length m')) component_limit
  ok m'

unfoldable pub apply_components :
    Limits → Map ℕ ComponentState → List ComponentDelta → Result Error (Map ℕ ComponentState)
apply_components l m [] = ok m
apply_components l m (d ∷ ds) = do m' ← apply_component l m d; apply_components l m' ds

unfoldable pub apply_component_deltas :
    List ComponentState → List ComponentDelta → Limits → Result Error (List ComponentState)
apply_component_deltas base deltas l = do
  m ← apply_components l (put_all (λ c. c.type_id) base []) deltas
  ok (values m)

-- The three cases of the switch on the operation of an object delta.
unfoldable pub create_object :
    Limits → Map ObjectRef ObjectState → ObjectDelta → Result Error (Map ObjectRef ObjectState)
create_object l m d = do
  reject_if (d.archetype == 0) invalid_object_ref
  cs ← apply_component_deltas [] d.components l
  ok (put d.ref (record { ref = d.ref; archetype = d.archetype; components = cs }) m)

unfoldable pub update_object :
    Limits
    → Map ObjectRef ObjectState
    → ObjectDelta
    → ObjectState
    → Result Error (Map ObjectRef ObjectState)
update_object l m d o = do
  reject_if (not (d.archetype == 0) && not (d.archetype == o.archetype)) invalid_frame
  cs ← apply_component_deltas o.components d.components l
  ok (put d.ref (record o { components = cs }) m)

unfoldable pub change_object :
    Limits → Map ObjectRef ObjectState → ObjectDelta → Result Error (Map ObjectRef ObjectState)
change_object l m d =
    if d.operation == object_create
    then create_object l m d
    else if d.operation == object_update
    then (elim (find d.ref m) [ none ↦ err object_not_found | some o ↦ update_object l m d o ])
    else if d.operation == object_remove
    then ok (delete d.ref m)
    else err invalid_frame

unfoldable pub apply_object :
    Limits → Map ObjectRef ObjectState → ObjectDelta → Result Error (Map ObjectRef ObjectState)
apply_object l m d = do
  reject_if (not (valid_ref d.ref)) invalid_object_ref
  m' ← change_object l m d
  reject_if (ltb l.max_objects (length m')) object_limit
  ok m'

unfoldable pub apply_objects :
    Limits → Map ObjectRef ObjectState → List ObjectDelta → Result Error (Map ObjectRef ObjectState)
apply_objects l m [] = ok m
apply_objects l m (d ∷ ds) = do m' ← apply_object l m d; apply_objects l m' ds

-- The objects that a frame starts from, and the refusals of a frame that does not fit its base.
unfoldable pub start_objects :
    Option Snapshot → DeltaFrame → Result Error (Map ObjectRef ObjectState)
start_objects base frame =
    if frame.kind == frame_full
    then (if not (frame.base_tick == 0) then err invalid_frame else ok [])
    else if frame.kind == frame_delta
    then elim base [
      | none ↦ err baseline_mismatch
      | some b ↦
          if (frame.base_tick == 0)
            || not (b.meta.tick == frame.base_tick)
            || not (b.meta.room_id == frame.meta.room_id)
            || not (b.meta.epoch == frame.meta.epoch)
            || not (b.meta.schema_version == frame.meta.schema_version)
          then err baseline_mismatch
          else ok (put_all (λ o. o.ref) b.objects [])
    ]
    else err invalid_frame

unfoldable pub apply_delta : Option Snapshot → DeltaFrame → Limits → Result Error Snapshot
apply_delta base frame limits = do
  let l = normalize_limits limits
  validate_meta frame.meta
  start ← start_objects base frame
  m ← apply_objects l start frame.objects
  new_snapshot frame.meta (values m) l
