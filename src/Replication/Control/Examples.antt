-- ===== src/Replication/Control/Examples.antt =====
-- An acknowledgement on the wire.
use cube_core.Base.{◌≡◌, refl, arith}
use cube_core.Base.Results.{ok}
use cube_core.Replication.Session.{ControlMessage}
use cube_core.Replication.Control.{
  validate_control, control_body, checksum_control, encode_control, decode_control,
}
use cube_core.Replication.Control.Roundtrip.{decode_control-encode_control}
use cube_core.Base.{List, ◌++◌, ◌∷◌, [], ℕ}
use cube_core.Base.Bytes.{put_be}

abbrev message : ControlMessage
message = record { kind = 1; reason = 0; room_id = 9; epoch = 1; tick = 4; sequence = 7 }

encoded : List ℕ
encoded =
    control_body message ++ put_be 4 (checksum_control (control_body message ++ 0 ∷ 0 ∷ 0 ∷ 0 ∷ []))

decode_control-encode_control_example : decode_control encoded ≡ ok message
unfolding encoded encode_control validate_control
decode_control-encode_control_example =
    (decode_control-encode_control message encoded (omega arith) refl).0
