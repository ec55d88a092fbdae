-- ===== src/Replication/Reassembler/Examples.antt =====
-- A reassembler that is given the second of two fragments twice, and something that is no packet.
use cube_core.Base.{ℕ, List, [], ◌∷◌}
use cube_core.Base.Results.{Result, ok, err}
use cube_core.Replication.Types.{Error, default_limits}
use cube_core.Replication.Datagram.{DatagramHeader, encode_datagram}
use cube_core.Replication.Reassembler.{Error, new_reassembler}
use cube_core.Replication.Reassembler.Bounds.{IsReassembler}
use cube_core.Replication.Reassembler.Pushes.{
  Call, pushes, pushes_for, expires, run, run-IsReassembler,
}

abbrev header : DatagramHeader
header = record {
  protocol = 1;
  flags = 0;
  room_id = 9;
  epoch = 1;
  tick = 6;
  base_tick = 5;
  sequence = 3;
  chunk_index = 1;
  chunk_count = 2;
  payload_len = 2;
  checksum = 0;
}

abbrev sent : Result Error (List ℕ) → List ℕ
sent (ok packet) = packet
sent (err e) = []

abbrev calls : List Call
calls =
    pushes_for 7 (sent (encode_datagram header (9 ∷ 10 ∷ []))) 10
    ∷ pushes_for 7 (sent (encode_datagram header (9 ∷ 10 ∷ []))) 11
    ∷ pushes 0 (3 ∷ []) 12
    ∷ expires 20
    ∷ []

run-IsReassembler_example : IsReassembler (run (new_reassembler default_limits 0) calls)
run-IsReassembler_example = run-IsReassembler default_limits 0 calls
