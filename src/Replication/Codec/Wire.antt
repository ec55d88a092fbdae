-- ===== src/Replication/Codec/Wire.antt =====
-- replication/codec.go: the bytes of a frame. `EncodeFrame` writes word after word into a buffer, and
-- `DecodeFrame` reads them from what is left of its input.
use cube_core.Base.{
  ℕ, zero, suc, ◌+◌, ◌*◌, ◌%◌, ◌^◌, not, ◌||◌, List, [], ◌∷◌, ◌++◌, length, take, drop, ltb, ◌==◌,
}
use cube_core.Base.Results.{Result, ok, ◌>>=◌, ◌>>◌, reject_if}
use cube_core.Base.Bytes.{put_be, read_be}
use cube_core.Replication.Types.{
  Error, invalid_frame, object_limit, component_limit, component_too_large, frame_too_large, Limits,
  normalize_limits, ComponentDelta, ObjectDelta, DeltaFrame, protocol_version,
}
use cube_core.Replication.Codec.{validate_delta_frame}

abbrev pub frame_magic : ℕ
frame_magic = 0x43525031

-- The words of a frame before its objects.
unfoldable pub frame_head : DeltaFrame → List ℕ
frame_head frame =
    put_be 4 frame_magic
    ++ put_be 2 protocol_version
    ++ put_be 1 frame.kind
    ++ put_be 1 0
    ++ put_be 8 frame.meta.room_id
    ++ put_be 4 frame.meta.epoch
    ++ put_be 4 frame.meta.tick
    ++ put_be 4 frame.base_tick
    ++ put_be 2 frame.meta.schema_version
    ++ put_be 2 (length frame.objects)

unfoldable pub object_head : ObjectDelta → List ℕ
object_head o =
    put_be 1 o.operation
    ++ put_be 2 o.ref.id
    ++ put_be 2 o.ref.generation
    ++ put_be 2 o.archetype
    ++ put_be 2 (length o.components)

unfoldable pub component_bytes : ComponentDelta → List ℕ
component_bytes c =
    put_be 1 c.operation
    ++ put_be 2 c.type_id
    ++ put_be 2 c.schema_version
    ++ put_be 4 (length c.bytes)
    ++ c.bytes

-- The inner loop, with the length of the buffer before it.
unfoldable pub encode_components : Limits → ℕ → List ComponentDelta → Result Error (List ℕ)
encode_components l size [] = ok []
encode_components l size (c ∷ cs) = do
  let grown = size + length (component_bytes c)
  reject_if (ltb l.max_frame_bytes grown) frame_too_large
  rest ← encode_components l grown cs
  ok (component_bytes c ++ rest)

unfoldable pub encode_objects : Limits → ℕ → List ObjectDelta → Result Error (List ℕ)
encode_objects l size [] = ok []
encode_objects l size (o ∷ os) = do
  reject_if (ltb 65535 (length o.components)) component_limit
  let start = size + length (object_head o)
  components ← encode_components l start o.components
  rest ← encode_objects l (start + length components) os
  ok (object_head o ++ components ++ rest)

unfoldable pub encode_frame : DeltaFrame → Limits → Result Error (List ℕ)
encode_frame frame limits = do
  let l = normalize_limits limits
  validate_delta_frame frame l
  reject_if (ltb 65535 (length frame.objects)) object_limit
  objects ← encode_objects l (length (frame_head frame)) frame.objects
  ok (frame_head frame ++ objects)

-- `binary.Read` of a word of `w` bytes.
unfoldable pub read_word : ℕ → List ℕ → Result Error (ℕ × List ℕ)
read_word w input = do
  reject_if (ltb (length input) w) invalid_frame
  ok (read_be 0 (take w input), drop w input)

unfoldable pub decode_component : Limits → List ℕ → Result Error (ComponentDelta × List ℕ)
decode_component l input = do
  (operation, i1) ← read_word 1 input
  (type_id, i2) ← read_word 2 i1
  (schema_version, i3) ← read_word 2 i2
  (size, i4) ← read_word 4 i3
  reject_if (ltb (l.max_component_bytes % 2 ^ 32) size || ltb (length i4) size) component_too_large
  ok (
    record {
      operation = operation;
      type_id = type_id;
      schema_version = schema_version;
      bytes = take size i4;
    },
    drop size i4,
  )

unfoldable pub decode_components : Limits → ℕ → List ℕ → Result Error (List ComponentDelta × List ℕ)
decode_components l zero input = ok ([], input)
decode_components l (suc n) input = do
  (c, i1) ← decode_component l input
  (cs, i2) ← decode_components l n i1
  ok (c ∷ cs, i2)

unfoldable pub decode_object : Limits → List ℕ → Result Error (ObjectDelta × List ℕ)
decode_object l input = do
  (operation, i1) ← read_word 1 input
  (id, i2) ← read_word 2 i1
  (generation, i3) ← read_word 2 i2
  (archetype, i4) ← read_word 2 i3
  (count, i5) ← read_word 2 i4
  reject_if (ltb (l.max_components_per_object * 2) count) component_limit
  (components, i6) ← decode_components l count i5
  ok (
    record {
      operation = operation;
      ref = record { id = id; generation = generation };
      archetype = archetype;
      components = components;
    },
    i6,
  )

unfoldable pub decode_objects : Limits → ℕ → List ℕ → Result Error (List ObjectDelta × List ℕ)
decode_objects l zero input = ok ([], input)
decode_objects l (suc n) input = do
  (o, i1) ← decode_object l input
  (os, i2) ← decode_objects l n i1
  ok (o ∷ os, i2)

-- The header: the frame without its objects, their number, and the rest of the input.
unfoldable pub decode_head : List ℕ → Result Error (DeltaFrame × ℕ × List ℕ)
decode_head input = do
  (magic, i1) ← read_word 4 input
  (protocol, i2) ← read_word 2 i1
  (kind, i3) ← read_word 1 i2
  (reserved, i4) ← read_word 1 i3
  (room_id, i5) ← read_word 8 i4
  (epoch, i6) ← read_word 4 i5
  (tick, i7) ← read_word 4 i6
  (base_tick, i8) ← read_word 4 i7
  (schema_version, i9) ← read_word 2 i8
  (count, i10) ← read_word 2 i9
  reject_if
      (not (magic == frame_magic) || not (protocol == protocol_version) || not (reserved == 0))
      invalid_frame
  ok (
    record {
      meta = record {
        room_id = room_id;
        epoch = epoch;
        tick = tick;
        schema_version = schema_version;
      };
      kind = kind;
      base_tick = base_tick;
      objects = [];
    },
    count,
    i10,
  )

unfoldable pub decode_frame : List ℕ → Limits → Result Error DeltaFrame
decode_frame input limits = do
  let l = normalize_limits limits
  reject_if ((length input == 0) || ltb l.max_frame_bytes (length input)) frame_too_large
  (head, count, i1) ← decode_head input
  reject_if (ltb (l.max_objects * 2) count) object_limit
  (objects, i2) ← decode_objects l count i1
  reject_if (not (length i2 == 0)) invalid_frame
  let frame = record head { objects = objects }
  validate_delta_frame frame l
  ok frame
