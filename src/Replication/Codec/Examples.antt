-- ===== src/Replication/Codec/Examples.antt =====
-- A full frame of one object.
use cube_core.Replication.Codec.Roundtrip.{decode_frame-encode_frame}
use cube_core.Base.Results.{ok}
use cube_core.Base.Bytes.{put_be}
use cube_core.Replication.Codec.Words.{FrameFits}
use cube_core.Replication.Codec.Wire.{
  component_bytes, object_head, frame_head, encode_components, encode_objects, encode_frame,
}
use cube_core.Base.Sorting.{Distinct}
use cube_core.Base.{ℕ, arith, List, refl, All, length, ◌<◌, ◌⊎◌, ◌≡◌, ◌≤◌, [], ◌∷◌}
use cube_core.Replication.Types.{
  normalize_limits, valid_ref, ref_key, ObjectDelta, DeltaFrame, default_limits, validate_meta,
}
use cube_core.Replication.Codec.{
  ok, seen_type, ObjectDelta, validate_delta_frame, validate_objects, validate_components, seen_ref,
}
use cube_core.Replication.Codec.Wire.{decode_frame}
use cube_core.Replication.Codec.Valid.{IsDelta, validate_delta_frame_lem}

abbrev frame : DeltaFrame
frame = record {
  meta = record { room_id = 9; epoch = 1; tick = 6; schema_version = 1 };
  kind = 1;
  base_tick = 0;
  objects =
      record {
        operation = 1;
        ref = record { id = 4; generation = 1 };
        archetype = 2;
        components = record { operation = 1; type_id = 3; schema_version = 1; bytes = 5 ∷ [] } ∷ [];
      }
      ∷ [];
}

validate_delta_frame_lem_example :
    (((frame.kind ≡ 1) × (frame.base_tick ≡ 0))
      ⊎ ((frame.kind ≡ 2) × (0 < frame.base_tick) × (frame.base_tick < frame.meta.tick)))
    × (length frame.objects ≤ 200)
    × Distinct (λ (o : ObjectDelta). o.ref) frame.objects
    × All (IsDelta default_limits 1) frame.objects
unfolding validate_delta_frame validate_objects validate_components validate_meta valid_ref seen_ref
    seen_type
validate_delta_frame_lem_example = validate_delta_frame_lem frame default_limits refl

frame-FrameFits : FrameFits frame
frame-FrameFits = record {
  room_fits = omega arith;
  epoch_fits = omega arith;
  tick_fits = omega arith;
  base_fits = omega arith;
  schema_fits = omega arith;
  objects_fit = (
    record {
      id_fits = omega arith;
      generation_fits = omega arith;
      archetype_fits = omega arith;
      components_fit = (record { type_fits = omega arith; schema_fits = omega arith }, tt);
    },
    tt,
  );
}

-- Its 51 bytes.
abbrev frame_bytes : List ℕ
frame_bytes =
    0x43 ∷ 0x52 ∷ 0x50 ∷ 0x31 ∷ 0 ∷ 1 ∷ 1 ∷ 0 ∷ 0 ∷ 0 ∷ 0 ∷ 0 ∷ 0 ∷ 0 ∷ 0 ∷ 9 ∷ 0 ∷ 0 ∷ 0 ∷ 1 ∷ 0
    ∷ 0 ∷ 0 ∷ 6 ∷ 0 ∷ 0 ∷ 0 ∷ 0 ∷ 0 ∷ 1 ∷ 0 ∷ 1 ∷ 1 ∷ 0 ∷ 4 ∷ 0 ∷ 1 ∷ 0 ∷ 2 ∷ 0 ∷ 1 ∷ 1 ∷ 0 ∷ 3 ∷ 0
    ∷ 1 ∷ 0 ∷ 0 ∷ 0 ∷ 1 ∷ 5 ∷ []

decode_frame-encode_frame_example : decode_frame frame_bytes default_limits ≡ ok frame
unfolding encode_frame encode_objects encode_components frame_head object_head component_bytes
    put_be normalize_limits validate_delta_frame validate_objects validate_components validate_meta
    valid_ref seen_ref seen_type
decode_frame-encode_frame_example =
    decode_frame-encode_frame frame default_limits frame_bytes frame-FrameFits (omega arith) refl
      (omega arith)
