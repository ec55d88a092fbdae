-- ===== src/Replication/Replicator/Delivery.antt =====
-- What a client that takes the datagrams of a frame comes to hold.
use cube_core.Base.Keys.{nat_key}
use cube_core.Base.{ℕ, ◌<◌, ◌^◌, ◌≡◌, List, Option}
use cube_core.Base.Results.{Result, ok, ◌>>=◌}
use cube_core.Replication.Types.{Error, Limits, normalize_limits, Snapshot}
use cube_core.Replication.Delta.{apply_delta}
use cube_core.Replication.Codec.Wire.{decode_frame}
use cube_core.Replication.Codec.Words.{FrameFits}
use cube_core.Replication.Datagram.Fragments.{joined}
use cube_core.Replication.Replicator.{Replicator, Transport, Projector}
use cube_core.Replication.Replicator.Frames.{PreparedFrame, prepare_latest}
use cube_core.Replication.Replicator.Baseline.{PreparedFrom, prepare_latest-PreparedFrom}
use cube_core.Replication.Replicator.Calls.{Call, new_room, run}

-- A client that joins the payloads of the datagrams, decodes the frame and applies it to what it holds.
unfoldable pub receive : Option Snapshot → List (List ℕ) → Limits → Result Error Snapshot
receive held packets limits = do
  frame ← decode_frame (joined packets) limits
  apply_delta held frame limits

module _ {W : Type 0} (r r' : Replicator W) (id : ℕ) (p : PreparedFrame)
    (made : prepare_latest r id ≡ (r', ok p)) (fits : FrameFits p.frame)
    (small : (normalize_limits r.limits).max_component_bytes < 2 ^ 32) where
  abbrev from : PreparedFrom r r' id p
  from = prepare_latest-PreparedFrom r r' id p made

module _ {W : Type 0} (limits : Limits) (ring_size max_datagram : ℕ) (projector : Option Projector)
    (transport : Option (Transport W)) (wire : W) (cs : List (Call W)) where
  abbrev room : Replicator W
  room = (run (new_room limits ring_size max_datagram projector transport wire) cs).replicator
