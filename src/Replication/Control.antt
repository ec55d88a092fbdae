-- ===== src/Replication/Control.antt =====
-- replication/control.go: the client's control messages. `HandleControl` is in Replicator.
pub mod Roundtrip
mod Examples
use cube_core.Base.{
  ℕ, suc, ◌+◌, ◌*◌, ◌%◌, ◌^◌, bit_xor, Bool, true, false, not, ◌&&◌, ◌||◌, List, [], ◌∷◌, ◌++◌,
  length, slice, ltb, leb, ◌==◌, if◌then◌else◌,
}
use cube_core.Base.Results.{Result, ok, err, ◌>>=◌, ◌>>◌, reject_if}
use cube_core.Base.Bytes.{put_be, read_be}
use cube_core.Replication.Types.{Error, invalid_control, checksum_mismatch, protocol_version}
use cube_core.Replication.Session.{ControlMessage, control_ack, control_resync}

abbrev pub control_magic : ℕ
control_magic = 0x43524331

abbrev pub control_message_size : ℕ
control_message_size = 32

abbrev pub resync_schema_mismatch : ℕ
resync_schema_mismatch = 4

-- `uint32` at an offset, and so on.
abbrev pub word : ℕ → ℕ → List ℕ → ℕ
word from to raw = read_be 0 (slice from to raw)

unfoldable pub is_control_payload : List ℕ → Bool
is_control_payload raw = (length raw == control_message_size) && (word 0 4 raw == control_magic)

unfoldable pub validate_control : ControlMessage → Result Error (Unit {0})
validate_control m =
    if not (m.kind == control_ack) && not (m.kind == control_resync)
      || (m.room_id == 0)
      || (m.epoch == 0)
      || (m.sequence == 0)
    then err invalid_control
    else if (m.kind == control_ack) && ((m.tick == 0) || not (m.reason == 0))
    then err invalid_control
    else if (m.kind == control_resync) && ltb resync_schema_mismatch m.reason
    then err invalid_control
    else ok tt

-- The FNV-1a loop from a position on; the bytes of the checksum itself count as 0.
unfoldable pub fnv_from : ℕ → ℕ → List ℕ → ℕ
fnv_from index hash [] = hash
fnv_from index hash (value ∷ values) =
    fnv_from (suc index) ((bit_xor hash (if leb 28 index then 0 else value) * 16777619) % 2 ^ 32)
      values

unfoldable pub checksum_control : List ℕ → ℕ
checksum_control raw =
    if not (length raw == control_message_size) then 0 else fnv_from 0 2166136261 raw

-- The first 28 bytes of a message.
unfoldable pub control_body : ControlMessage → List ℕ
control_body m =
    put_be 4 control_magic
    ++ put_be 2 protocol_version
    ++ put_be 1 m.kind
    ++ put_be 1 m.reason
    ++ put_be 8 m.room_id
    ++ put_be 4 m.epoch
    ++ put_be 4 m.tick
    ++ put_be 4 m.sequence

unfoldable pub encode_control : ControlMessage → Result Error (List ℕ)
encode_control m = do
  let body = control_body m
  validate_control m
  ok (body ++ put_be 4 (checksum_control (body ++ 0 ∷ 0 ∷ 0 ∷ 0 ∷ [])))

-- The fields of a message of full length.
unfoldable pub control_fields : List ℕ → ControlMessage
control_fields raw = record {
  kind = word 6 7 raw;
  reason = word 7 8 raw;
  room_id = word 8 16 raw;
  epoch = word 16 20 raw;
  tick = word 20 24 raw;
  sequence = word 24 28 raw;
}

unfoldable pub decode_control : List ℕ → Result Error ControlMessage
decode_control raw = do
  reject_if
      (not (length raw == control_message_size)
        || not (word 0 4 raw == control_magic)
        || not (word 4 6 raw == protocol_version))
      invalid_control
  reject_if (not (checksum_control raw == word 28 32 raw)) checksum_mismatch
  validate_control (control_fields raw)
  ok (control_fields raw)
