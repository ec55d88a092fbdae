-- ===== src/Replication/Codec.antt =====
-- replication/codec.go: `validateDeltaFrame`, which guards both the encoder and the decoder. The sets
-- of what was seen are lists.
pub mod Valid
pub mod Wire
pub mod Words
pub mod Roundtrip
mod Examples
use cube_core.Base.{
  ℕ, ◌*◌, Bool, false, not, ◌&&◌, ◌||◌, List, [], ◌∷◌, length, ltb, leb, ◌==◌, if◌then◌else◌,
}
use cube_core.Base.Results.{Result, ok, err, ◌>>=◌, ◌>>◌, reject_if}
use cube_core.Replication.Types.{
  Error, invalid_frame, invalid_object_ref, baseline_mismatch, object_limit, component_limit,
  component_too_large, Limits, ObjectRef, valid_ref, same_ref, validate_meta, ComponentDelta,
  ObjectDelta, DeltaFrame, frame_full, frame_delta, object_create, object_remove, component_set,
  component_remove,
}

unfoldable pub seen_ref : ObjectRef → List ObjectRef → Bool
seen_ref r [] = false
seen_ref r (s ∷ ss) = same_ref s r || seen_ref r ss

unfoldable pub seen_type : ℕ → List ℕ → Bool
seen_type t [] = false
seen_type t (s ∷ ss) = (s == t) || seen_type t ss

-- The inner loop, for an object's operation.
unfoldable pub validate_components :
    Limits → ℕ → List ℕ → List ComponentDelta → Result Error (Unit {0})
validate_components l operation seen [] = ok tt
validate_components l operation seen (c ∷ cs) = do
  reject_if ((c.type_id == 0) || ltb c.operation component_set || ltb component_remove c.operation)
      invalid_frame
  reject_if (seen_type c.type_id seen) invalid_frame
  reject_if ((operation == object_create) && not (c.operation == component_set)) invalid_frame
  reject_if ((c.operation == component_set) && (c.schema_version == 0)) invalid_frame
  reject_if
      ((c.operation == component_remove)
        && (not (c.schema_version == 0) || not (length c.bytes == 0)))
      invalid_frame
  reject_if (ltb l.max_component_bytes (length c.bytes)) component_too_large
  validate_components l operation (c.type_id ∷ seen) cs

-- The outer loop, for the frame's kind.
unfoldable pub validate_objects :
    Limits → ℕ → List ObjectRef → List ObjectDelta → Result Error (Unit {0})
validate_objects l kind seen [] = ok tt
validate_objects l kind seen (o ∷ os) = do
  reject_if (not (valid_ref o.ref)) invalid_object_ref
  reject_if (ltb o.operation object_create || ltb object_remove o.operation) invalid_frame
  reject_if (seen_ref o.ref seen) invalid_frame
  reject_if ((kind == frame_full) && not (o.operation == object_create)) invalid_frame
  reject_if ((o.operation == object_create) && (o.archetype == 0)) invalid_object_ref
  reject_if ((o.operation == object_remove) && ltb 0 (length o.components)) invalid_frame
  reject_if (ltb (l.max_components_per_object * 2) (length o.components)) component_limit
  validate_components l o.operation [] o.components
  validate_objects l kind (o.ref ∷ seen) os

unfoldable pub validate_delta_frame : DeltaFrame → Limits → Result Error (Unit {0})
validate_delta_frame frame l = do
  validate_meta frame.meta
  reject_if (not (frame.kind == frame_full) && not (frame.kind == frame_delta)) invalid_frame
  reject_if ((frame.kind == frame_full) && not (frame.base_tick == 0)) invalid_frame
  reject_if
      ((frame.kind == frame_delta)
        && ((frame.base_tick == 0) || leb frame.meta.tick frame.base_tick))
      baseline_mismatch
  reject_if (ltb (l.max_objects * 2) (length frame.objects)) object_limit
  validate_objects l frame.kind [] frame.objects
