-- ===== src/Replication/Codec/Roundtrip.antt =====
-- A frame survives its encoding.
use cube_core.Base.{
  inr, ◌==◌, inl, append_assoc, append-nil, length-append, ℕ, ◌+◌, ◌*◌, ◌<◌, ◌≤◌, ◌^◌, ◌≡◌, refl,
  ◌∙◌, false, ltb, ◌||◌, List, [], ◌∷◌, ◌++◌, length, arith, All,
}
use cube_core.Base.Results.{ok, Result-cases}
use cube_core.Base.Bytes.{put_be}
use cube_core.Replication.Types.{
  ObjectRef, Limits, ComponentDelta, ObjectDelta, DeltaFrame, normalize_limits,
}
use cube_core.Replication.Codec.{
  ObjectRef, validate_components, validate_objects, validate_delta_frame,
}
use cube_core.Replication.Codec.Wire.{
  frame_head, object_head, component_bytes, encode_components, encode_objects, encode_frame,
  decode_components, decode_objects, decode_frame,
}
use cube_core.Replication.Codec.Words.{
  ComponentFits, ObjectFits, FrameFits, decode_component-bytes, decode_object-head,
  decode_head-frame_head,
}

decode_components-encode_components :
    (l : Limits) (size operation : ℕ) (seen : List ℕ) (cs : List ComponentDelta) (raw rest : List ℕ)
    → l.max_component_bytes < 2 ^ 32
    → validate_components l operation seen cs ≡ ok tt
    → All ComponentFits cs
    → encode_components l size cs ≡ ok raw
    → decode_components l (length cs) (raw ++ rest) ≡ ok (cs, rest)
unfolding decode_components encode_components validate_components
decode_components-encode_components l size operation seen [] raw rest small v f e = ground arith
decode_components-encode_components l size operation seen (c ∷ cs) raw rest small v f e =
    let grown = size + length (component_bytes c) in
    elim (Result-cases (encode_components l grown cs)) [
      | inl (tail, made) ↦
          let whole : raw ≡ component_bytes c ++ tail = ground (arith, made) in
          let first =
            decode_component-bytes l c (tail ++ rest) (ground arith) f.0 (ground arith) small in
          let others =
            decode_components-encode_components l grown operation (c.type_id ∷ seen) cs tail rest
              small (ground arith) f.1 made in
          rw (whole, append_assoc (component_bytes c) tail rest, first, others) refl
      | inr (reason, failed) ↦ absurd (ground (arith, failed))
    ]

decode_objects-encode_objects :
    (l : Limits) (size kind : ℕ) (seen : List ObjectRef) (os : List ObjectDelta) (raw rest : List ℕ)
    → l.max_component_bytes < 2 ^ 32
    → validate_objects l kind seen os ≡ ok tt
    → All ObjectFits os
    → encode_objects l size os ≡ ok raw
    → decode_objects l (length os) (raw ++ rest) ≡ ok (os, rest)
unfolding decode_objects encode_objects validate_objects
decode_objects-encode_objects l size kind seen [] raw rest small v f e = ground arith
decode_objects-encode_objects l size kind seen (o ∷ os) raw rest small v f e =
    let start = size + length (object_head o) in
    elim (Result-cases (encode_components l start o.components)) [
      | inl (body, made) ↦ elim (Result-cases (encode_objects l (start + length body) os)) [
        | inl (tail, made') ↦
            let whole : raw ≡ object_head o ++ body ++ tail = ground (arith, made, made') in
            let here =
              decode_components-encode_components l start o.operation [] o.components body
                (tail ++ rest) small (ground arith) (f.0).components_fit made in
            let head =
              decode_object-head l o (body ++ (tail ++ rest)) (ground arith) f.0 (ground arith)
                (ground arith) in
            let others =
              decode_objects-encode_objects l (start + length body) kind (o.ref ∷ seen) os tail rest
                small (ground arith) f.1 made' in
            let parts : object_head o ++ body ++ tail ++ rest
                ≡ object_head o ++ (body ++ (tail ++ rest)) =
              append_assoc (object_head o ++ body) tail rest
              ∙ append_assoc (object_head o) body (tail ++ rest) in
            rw (whole, parts, head, here, others) refl
        | inr (reason, failed) ↦ absurd (ground (arith, made, failed))
      ]
      | inr (reason, failed) ↦ absurd (ground (arith, failed))
    ]

module _ (f : DeltaFrame) (l : Limits) where
  validate_delta_frame-objects :
      validate_delta_frame f l ≡ ok tt → validate_objects l f.kind [] f.objects ≡ ok tt
  unfolding validate_delta_frame
  validate_delta_frame-objects h = ground arith

  validate_delta_frame-kind : validate_delta_frame f l ≡ ok tt → f.kind < 256
  unfolding validate_delta_frame
  validate_delta_frame-kind h = ground arith

  validate_delta_frame-count :
      validate_delta_frame f l ≡ ok tt → ltb (l.max_objects * 2) (length f.objects) ≡ false
  unfolding validate_delta_frame
  validate_delta_frame-count h = ground arith

length-frame_head : (f : DeltaFrame) → length (frame_head f) ≡ 32
unfolding frame_head put_be
length-frame_head f = refl

-- A frame that `EncodeFrame` accepts, whose fields fit their words and whose bytes stay below
-- `MaxFrameBytes`, comes back from `DecodeFrame`, where a component may have less than 4 GiB.
pub decode_frame-encode_frame :
    (f : DeltaFrame) (limits : Limits) (raw : List ℕ)
    → FrameFits f
    → (normalize_limits limits).max_component_bytes < 2 ^ 32
    → encode_frame f limits ≡ ok raw
    → length raw ≤ (normalize_limits limits).max_frame_bytes
    → decode_frame raw limits ≡ ok f
unfolding decode_frame encode_frame
decode_frame-encode_frame f limits raw fits small e bound =
    let l = normalize_limits limits in
    let start = length (frame_head f) in
    elim (Result-cases (validate_delta_frame f l)) [
      | inl (u, valid) ↦ elim (Result-cases (encode_objects l start f.objects)) [
        | inl (body, made) ↦
            let whole : raw ≡ frame_head f ++ body = ground (arith, valid, made) in
            let few : length f.objects ≤ 65535 = ground (arith, valid) in
            let passed : validate_objects l f.kind [] f.objects ≡ ok tt =
              validate_delta_frame-objects f l valid in
            let head =
              decode_head-frame_head f (body ++ []) (validate_delta_frame-kind f l valid) fits
                few in
            let objects =
              decode_objects-encode_objects l start f.kind [] f.objects body [] small passed
                fits.objects_fit made in
            let ends : body ++ [] ≡ body = append-nil body in
            let long = length-append (frame_head f) body in
            let some_bytes = length-frame_head f in
            let counted : ltb (l.max_objects * 2) (length f.objects) ≡ false =
              validate_delta_frame-count f l valid in
            let split : raw ≡ frame_head f ++ (body ++ []) = rw (ends, whole) refl in
            let sized : ((length raw == 0) || ltb l.max_frame_bytes (length raw)) ≡ false =
              ground (arith, whole, long, some_bytes) in
            rw (sized, split, head, counted, objects, valid) refl
        | inr (reason, failed) ↦ absurd (ground (arith, valid, failed))
      ]
      | inr (reason, failed) ↦ absurd (ground (arith, failed))
    ]
