-- ===== src/Replication/Snapshot.antt =====
-- replication/snapshot.go. Values are copied by the code and are shared here, so `Clone` and
-- `cloneObjects` are the identity. `sort.Slice` leaves the order of equal keys open; the model's
-- sort keeps it. Where keys repeat, `NewSnapshot` fails whatever the order is.
pub mod Checks
pub mod Normal
use cube_core.Base.{ℕ, ◌+◌, false, not, ◌||◌, List, [], ◌∷◌, Option, none, some, length, ltb, ◌==◌}
use cube_core.Base.Results.{Result, ok, ◌>>=◌, ◌>>◌, reject_if}
use cube_core.Base.Sorting.{sort_by}
use cube_core.Replication.Types.{
  Error, invalid_object_ref, object_limit, component_limit, component_too_large, frame_too_large,
  invalid_frame, Limits, normalize_limits, ObjectRef, valid_ref, same_ref, ref_key, SnapshotMeta,
  validate_meta, ComponentState, ObjectState, Snapshot,
}
use cube_core.Base.Keys.{nat_key}

-- The loop over one object's components, with the type before, if there is one, and the estimated
-- size so far.
unfoldable pub check_components : Limits → Option ℕ → ℕ → List ComponentState → Result Error ℕ
check_components l last estimated [] = ok estimated
check_components l last estimated (c ∷ cs) = do
  let grown = estimated + 12 + length c.bytes
  reject_if ((c.type_id == 0) || (c.schema_version == 0)) invalid_frame
  reject_if (elim last [ none ↦ false | some t ↦ c.type_id == t ]) invalid_frame
  reject_if (ltb l.max_component_bytes (length c.bytes)) component_too_large
  reject_if (ltb l.max_frame_bytes grown) frame_too_large
  check_components l (some c.type_id) grown cs

abbrev pub sort_components : List ComponentState → List ComponentState
sort_components = sort_by (λ c. c.type_id)

abbrev pub sort_object : ObjectState → ObjectState
sort_object o = record o { components = sort_components o.components }

abbrev pub sort_objects : List ObjectState → List ObjectState
sort_objects = sort_by (λ o. o.ref)

-- The loop over the objects, which also sorts each object's components.
unfoldable pub check_objects :
    Limits → Option ObjectRef → ℕ → List ObjectState → Result Error (List ObjectState)
check_objects l last estimated [] = ok []
check_objects l last estimated (o ∷ os) = do
  reject_if (not (valid_ref o.ref) || (o.archetype == 0)) invalid_object_ref
  reject_if (elim last [ none ↦ false | some r ↦ same_ref o.ref r ]) invalid_frame
  reject_if (ltb l.max_components_per_object (length o.components)) component_limit
  grown ← check_components l none (estimated + 9) (sort_components o.components)
  rest ← check_objects l (some o.ref) grown os
  ok (sort_object o ∷ rest)

unfoldable pub new_snapshot : SnapshotMeta → List ObjectState → Limits → Result Error Snapshot
new_snapshot meta objects limits = do
  let l = normalize_limits limits
  validate_meta meta
  reject_if (ltb l.max_objects (length objects)) object_limit
  out ← check_objects l none 32 (sort_objects objects)
  ok (record { meta = meta; objects = out })
