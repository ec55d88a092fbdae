-- ===== src/Replication/Datagram/Frames.antt =====
-- What the receiver reads in the fragments of a frame.
use cube_core.Replication.Types.{default_max_datagram, normalize_limits, Limits, DeltaFrame}
use cube_core.Base.{suc, ◌≤◌, ℕ, ◌<◌, ◌^◌, ◌≡◌, List, [], ◌∷◌, length, drop}
use cube_core.Base.Results.{ok}
use cube_core.Replication.Datagram.{
  default_max_datagram, normalize_limits, Limits, DeltaFrame, decode_datagram, checksum_datagram,
  fragment_header,
}

-- A predicate of every entry and its place, counted from `i`.
abbrev pub Indexed : (ℕ → List ℕ → Type 0) → ℕ → List (List ℕ) → Type 0
Indexed P i [] = Unit
Indexed P i (x ∷ xs) = P i x × Indexed P (suc i) xs

-- What a receiver reads in the fragment at a place.
abbrev pub Reads : DeltaFrame → ℕ → ℕ → ℕ → Limits → ℕ → List ℕ → Type 0
Reads frame sequence size count limits i packet =
    (length packet ≤ size)
    × ((len : ℕ) × (decode_datagram packet limits
          ≡ ok (
            record (fragment_header frame sequence count i len) {
              checksum = checksum_datagram packet;
            },
            drop 42 packet,
          )))

-- The words of the frame and of the sequence number fit their fields.
pub record FitsFrame (frame : DeltaFrame) (sequence : ℕ) : Type 0 where
  pub room_fits : frame.meta.room_id < 2 ^ 64
  pub epoch_fits : frame.meta.epoch < 2 ^ 32
  pub tick_fits : frame.meta.tick < 2 ^ 32
  pub base_fits : frame.base_tick < 2 ^ 32
  pub sequence_fits : sequence < 2 ^ 32
