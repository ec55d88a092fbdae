-- ===== src/Replication/Datagram/Examples.antt =====
-- A frame of ten bytes, cut into two datagrams.
use cube_core.Base.{ℕ, List, [], ◌∷◌}
use cube_core.Base.Results.{ok, err, Result}
use cube_core.Replication.Types.{Error, DeltaFrame, default_limits}
use cube_core.Replication.Datagram.{Error, fragment_frame}

abbrev frame : DeltaFrame
frame = record {
  meta = record { room_id = 9; epoch = 1; tick = 6; schema_version = 1 };
  kind = 2;
  base_tick = 5;
  objects = [];
}

abbrev bytes : List ℕ
bytes = 1 ∷ 2 ∷ 3 ∷ 4 ∷ 5 ∷ 6 ∷ 7 ∷ 8 ∷ 9 ∷ 10 ∷ []

abbrev the_values : Result Error (List (List ℕ)) → List (List ℕ)
the_values (ok x) = x
the_values (err e) = []

abbrev packets : List (List ℕ)
packets = the_values (fragment_frame frame 3 bytes 50 default_limits)
