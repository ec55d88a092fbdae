-- ===== src/Replication/Codec/Words.antt =====
-- The words of a frame's parts, read back one after the other.
use cube_core.Base.{
  length-append, drop-append, take-append, sym, ℕ, ◌*◌, ◌<◌, ◌≤◌, ◌^◌, ◌≡◌, refl, ap, ◌∙◌, false,
  ltb, List, [], ◌++◌, length, take, drop, arith, All,
}
use cube_core.Base.Results.{ok, ◌>>=◌}
use cube_core.Base.Bytes.{put_be, read_be-put_be, length-put_be}
use cube_core.Replication.Types.{Limits, ComponentDelta, ObjectDelta, DeltaFrame}
use cube_core.Replication.Codec.Wire.{
  frame_magic, frame_head, object_head, component_bytes, read_word, decode_component,
  decode_components, decode_object, decode_head,
}

read_word-put_be :
    (w v : ℕ) (rest : List ℕ) → v < 256 ^ w → read_word w (put_be w v ++ rest) ≡ ok (v, rest)
unfolding read_word
read_word-put_be w v rest fits =
    let size = length-put_be w v in
    let front : take w (put_be w v ++ rest) ≡ put_be w v =
      ap (λ n. take n (put_be w v ++ rest)) (sym size) ∙ take-append (put_be w v) rest in
    let back : drop w (put_be w v ++ rest) ≡ rest =
      ap (λ n. drop n (put_be w v ++ rest)) (sym size) ∙ drop-append (put_be w v) rest in
    let long = length-append (put_be w v) rest in
    ground (arith, size, front, back, long, read_be-put_be w v fits)

-- The fields that the validation does not bound fit their words.
pub record ComponentFits (c : ComponentDelta) : Type 0 where
  pub type_fits : c.type_id < 2 ^ 16
  pub schema_fits : c.schema_version < 2 ^ 16

pub record ObjectFits (o : ObjectDelta) : Type 0 where
  pub id_fits : o.ref.id < 2 ^ 16
  pub generation_fits : o.ref.generation < 2 ^ 16
  pub archetype_fits : o.archetype < 2 ^ 16
  pub components_fit : All ComponentFits o.components

pub record FrameFits (f : DeltaFrame) : Type 0 where
  pub room_fits : f.meta.room_id < 2 ^ 64
  pub epoch_fits : f.meta.epoch < 2 ^ 32
  pub tick_fits : f.meta.tick < 2 ^ 32
  pub base_fits : f.base_tick < 2 ^ 32
  pub schema_fits : f.meta.schema_version < 2 ^ 16
  pub objects_fit : All ObjectFits f.objects

component_words :
    (c : ComponentDelta) (rest : List ℕ)
    → component_bytes c ++ rest
      ≡ put_be 1 c.operation
        ++ put_be 2 c.type_id
        ++ put_be 2 c.schema_version
        ++ put_be 4 (length c.bytes)
        ++ c.bytes
        ++ rest
unfolding component_bytes put_be
component_words c rest = refl

object_words :
    (o : ObjectDelta) (rest : List ℕ)
    → object_head o ++ rest
      ≡ put_be 1 o.operation
        ++ put_be 2 o.ref.id
        ++ put_be 2 o.ref.generation
        ++ put_be 2 o.archetype
        ++ put_be 2 (length o.components)
        ++ rest
unfolding object_head put_be
object_words o rest = refl

frame_words :
    (f : DeltaFrame) (rest : List ℕ)
    → frame_head f ++ rest
      ≡ put_be 4 frame_magic
        ++ put_be 2 1
        ++ put_be 1 f.kind
        ++ put_be 1 0
        ++ put_be 8 f.meta.room_id
        ++ put_be 4 f.meta.epoch
        ++ put_be 4 f.meta.tick
        ++ put_be 4 f.base_tick
        ++ put_be 2 f.meta.schema_version
        ++ put_be 2 (length f.objects)
        ++ rest
unfolding frame_head put_be
frame_words f rest = refl

pub decode_component-bytes :
    (l : Limits) (c : ComponentDelta) (rest : List ℕ)
    → c.operation < 256
    → ComponentFits c
    → length c.bytes ≤ l.max_component_bytes
    → l.max_component_bytes < 2 ^ 32
    → decode_component l (component_bytes c ++ rest) ≡ ok (c, rest)
unfolding decode_component read_word put_be
decode_component-bytes l c rest op f h small =
    let r4 = c.bytes ++ rest in
    let r3 = put_be 4 (length c.bytes) ++ r4 in
    let r2 = put_be 2 c.schema_version ++ r3 in
    let r1 = put_be 2 c.type_id ++ r2 in
    let w1 = read_word-put_be 1 c.operation r1 op in
    let w2 = read_word-put_be 2 c.type_id r2 f.type_fits in
    let w3 = read_word-put_be 2 c.schema_version r3 f.schema_fits in
    let w4 = read_word-put_be 4 (length c.bytes) r4 (omega arith) in
    let front = take-append c.bytes rest in
    let back = drop-append c.bytes rest in
    let long = length-append c.bytes rest in
    rw (component_words c rest, w1, w2, w3, w4) ground (arith, front, back, long)

pub decode_object-head :
    (l : Limits) (o : ObjectDelta) (rest : List ℕ)
    → o.operation < 256
    → ObjectFits o
    → length o.components ≤ l.max_components_per_object * 2
    → length o.components ≤ 65535
    → decode_object l (object_head o ++ rest) ≡ (
        decode_components l (length o.components) rest >>= λ r. ok (
          record {
            operation = o.operation;
            ref = o.ref;
            archetype = o.archetype;
            components = r.0;
          },
          r.1,
        ))
unfolding decode_object read_word decode_components put_be
decode_object-head l o rest op f limit small =
    let r4 = put_be 2 (length o.components) ++ rest in
    let r3 = put_be 2 o.archetype ++ r4 in
    let r2 = put_be 2 o.ref.generation ++ r3 in
    let r1 = put_be 2 o.ref.id ++ r2 in
    let w1 = read_word-put_be 1 o.operation r1 op in
    let w2 = read_word-put_be 2 o.ref.id r2 f.id_fits in
    let w3 = read_word-put_be 2 o.ref.generation r3 f.generation_fits in
    let w4 = read_word-put_be 2 o.archetype r4 f.archetype_fits in
    let w5 = read_word-put_be 2 (length o.components) rest (omega arith) in
    let within : ltb (l.max_components_per_object * 2) (length o.components) ≡ false =
      ground arith in
    rw (object_words o rest, w1, w2, w3, w4, w5, within) refl

pub decode_head-frame_head :
    (f : DeltaFrame) (rest : List ℕ)
    → f.kind < 256
    → FrameFits f
    → length f.objects ≤ 65535
    → decode_head (frame_head f ++ rest)
      ≡ ok (
        record { meta = f.meta; kind = f.kind; base_tick = f.base_tick; objects = [] },
        length f.objects,
        rest,
      )
unfolding decode_head read_word put_be
decode_head-frame_head f rest kind fits small =
    let r9 = put_be 2 (length f.objects) ++ rest in
    let r8 = put_be 2 f.meta.schema_version ++ r9 in
    let r7 = put_be 4 f.base_tick ++ r8 in
    let r6 = put_be 4 f.meta.tick ++ r7 in
    let r5 = put_be 4 f.meta.epoch ++ r6 in
    let r4 = put_be 8 f.meta.room_id ++ r5 in
    let r3 = put_be 1 0 ++ r4 in
    let r2 = put_be 1 f.kind ++ r3 in
    let r1 = put_be 2 1 ++ r2 in
    let w1 = read_word-put_be 4 frame_magic r1 (omega arith) in
    let w2 = read_word-put_be 2 1 r2 (omega arith) in
    let w3 = read_word-put_be 1 f.kind r3 kind in
    let w4 = read_word-put_be 1 0 r4 (omega arith) in
    let w5 = read_word-put_be 8 f.meta.room_id r5 fits.room_fits in
    let w6 = read_word-put_be 4 f.meta.epoch r6 fits.epoch_fits in
    let w7 = read_word-put_be 4 f.meta.tick r7 fits.tick_fits in
    let w8 = read_word-put_be 4 f.base_tick r8 fits.base_fits in
    let w9 = read_word-put_be 2 f.meta.schema_version r9 fits.schema_fits in
    let w10 = read_word-put_be 2 (length f.objects) rest (omega arith) in
    rw (frame_words f rest, w1, w2, w3, w4, w5, w6, w7, w8, w9, w10) refl
