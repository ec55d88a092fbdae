-- ===== src/Replication/Control/Roundtrip.antt =====
-- A control message survives its encoding.
use cube_core.Replication.Types.{protocol_version}
use cube_core.Base.{
  sym, length-append, ℕ, suc, ◌+◌, ◌^◌, ◌<◌, ◌≤◌, ◌≡◌, refl, ap, ◌∙◌, true, List, [], ◌∷◌, ◌++◌,
  length, leb, arith,
}
use cube_core.Base.Results.{ok}
use cube_core.Base.Bytes.{put_be, read_be-put_be, length-put_be}
use cube_core.Replication.Session.{ControlMessage}
use cube_core.Replication.Control.{
  word, control_magic, is_control_payload, validate_control, fnv_from, checksum_control,
  control_body, encode_control, control_fields, decode_control,
}

-- The words of a message fit their fields.
pub record FitsWords (m : ControlMessage) : Type 0 where
  pub kind_fits : m.kind < 256
  pub reason_fits : m.reason < 256
  pub room_fits : m.room_id < 2 ^ 64
  pub epoch_fits : m.epoch < 2 ^ 32
  pub tick_fits : m.tick < 2 ^ 32
  pub sequence_fits : m.sequence < 2 ^ 32

fnv_from-append :
    (i h : ℕ) (xs ys : List ℕ)
    → fnv_from i h (xs ++ ys) ≡ fnv_from (i + length xs) (fnv_from i h xs) ys
unfolding fnv_from
fnv_from-append i h [] ys = ap (λ k. fnv_from k h ys) (omega arith)
fnv_from-append i h (x ∷ xs) ys =
    fnv_from-append (suc i) _ xs ys ∙ ap (λ k. fnv_from k (fnv_from i h (x ∷ xs)) ys) (omega arith)

-- The bytes from position 28 on do not count.
fnv_from-tail :
    (i h : ℕ) (xs ys : List ℕ) → 28 ≤ i → length xs ≡ length ys → fnv_from i h xs ≡ fnv_from i h ys
unfolding fnv_from
fnv_from-tail i h [] [] le e = refl
fnv_from-tail i h [] (y ∷ ys) le e = absurd (omega arith)
fnv_from-tail i h (x ∷ xs) [] le e = absurd (omega arith)
fnv_from-tail i h (x ∷ xs) (y ∷ ys) le e =
    let late : leb 28 i ≡ true = ground arith in
    rw late (fnv_from-tail (suc i) _ xs ys (omega arith) (omega arith))

fnv_from-range : (i h : ℕ) (xs : List ℕ) → h < 2 ^ 32 → fnv_from i h xs < 2 ^ 32
unfolding fnv_from
fnv_from-range i h [] r = r
fnv_from-range i h (x ∷ xs) r = fnv_from-range (suc i) _ xs (omega arith)

length-control_body : (m : ControlMessage) → length (control_body m) ≡ 28
unfolding control_body put_be
length-control_body m = refl

checksum-range : (raw : List ℕ) → checksum_control raw < 2 ^ 32
unfolding checksum_control
checksum-range raw = ground (arith, fnv_from-range 0 2166136261 raw)

checksum-body :
    (m : ControlMessage) (xs : List ℕ)
    → length xs ≡ 4
    → checksum_control (control_body m ++ xs)
      ≡ checksum_control (control_body m ++ 0 ∷ 0 ∷ 0 ∷ 0 ∷ [])
unfolding checksum_control
checksum-body m xs e =
    let zeros : List ℕ = 0 ∷ 0 ∷ 0 ∷ 0 ∷ [] in
    let body = control_body m in
    let size = length-control_body m in
    let at : 0 + length body ≡ 28 = omega arith in
    let whole : length (body ++ xs) ≡ 32 = omega (arith, length-append body xs) in
    let whole' : length (body ++ zeros) ≡ 32 = omega (arith, length-append body zeros) in
    let start : ℕ = 2166136261 in
    let tail =
      fnv_from-append 0 start body xs
      ∙ ap (λ k. fnv_from k (fnv_from 0 start body) xs) at
      ∙ fnv_from-tail 28 (fnv_from 0 start body) xs zeros (omega arith) (omega (arith, e))
      ∙ sym (
          fnv_from-append 0 start body zeros
          ∙ ap (λ k. fnv_from k (fnv_from 0 start body) zeros) at) in
    rw (whole, whole', tail) refl

control_fields-body :
    (m : ControlMessage) (xs : List ℕ) → FitsWords m → control_fields (control_body m ++ xs) ≡ m
unfolding control_fields control_body put_be
control_fields-body m xs f i = record {
  kind = read_be-put_be 1 m.kind f.kind_fits i;
  reason = read_be-put_be 1 m.reason f.reason_fits i;
  room_id = read_be-put_be 8 m.room_id f.room_fits i;
  epoch = read_be-put_be 4 m.epoch f.epoch_fits i;
  tick = read_be-put_be 4 m.tick f.tick_fits i;
  sequence = read_be-put_be 4 m.sequence f.sequence_fits i;
}

header_words :
    (m : ControlMessage) (xs : List ℕ)
    → (word 0 4 (control_body m ++ xs) ≡ control_magic)
      × (word 4 6 (control_body m ++ xs) ≡ protocol_version)
unfolding control_body put_be
header_words m xs = (read_be-put_be 4 control_magic (omega arith), read_be-put_be 2 1 (omega arith))

checksum_word :
    (m : ControlMessage) (c : ℕ) → c < 2 ^ 32 → word 28 32 (control_body m ++ put_be 4 c) ≡ c
unfolding control_body put_be
checksum_word m c h = read_be-put_be 4 c h

-- A message that `EncodeControl` accepts, and whose fields fit their words, comes back from
-- `DecodeControl`; the encoding has the fixed size and is recognised as a control payload.
pub decode_control-encode_control :
    (m : ControlMessage) (raw : List ℕ)
    → FitsWords m
    → encode_control m ≡ ok raw
    → (decode_control raw ≡ ok m) × (length raw ≡ 32) × (is_control_payload raw ≡ true)
unfolding encode_control decode_control is_control_payload
decode_control-encode_control m raw f h =
    let body = control_body m in
    let c = checksum_control (body ++ 0 ∷ 0 ∷ 0 ∷ 0 ∷ []) in
    let made : raw ≡ body ++ put_be 4 c = ground arith in
    let passed : validate_control m ≡ ok tt = ground arith in
    let size : length (body ++ put_be 4 c) ≡ 32 =
      omega (arith, length-append body (put_be 4 c), length-control_body m, length-put_be 4 c) in
    let words = header_words m (put_be 4 c) in
    let sum = checksum_word m c (checksum-range _) in
    let same = checksum-body m (put_be 4 c) (length-put_be 4 c) in
    rw made (
      ground
          (arith, size, words.0, words.1, sum, same, control_fields-body m (put_be 4 c) f, passed),
      size,
      ground (arith, size, words.0),
    )
