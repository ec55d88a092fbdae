-- ===== src/Replication/Datagram.antt =====
-- replication/datagram.go: a frame is cut into datagrams with a header and a checksum, and put
-- together again by `Reassembler`. `InspectDatagram` is `decode_datagram` without the payload.
pub mod Roundtrip
pub mod Fragments
pub mod Frames
mod Examples
use cube_core.Base.{
  ◌-◌, zero, ℕ, suc, ◌+◌, ◌*◌, ◌/◌, ◌%◌, ◌^◌, bit_xor, Bool, not, ◌&&◌, ◌||◌, List, [], ◌∷◌, ◌++◌,
  length, slice, take, drop, ltb, leb, ◌==◌, if◌then◌else◌, min,
}
use cube_core.Base.Results.{Result, ok, err, ◌>>=◌, ◌>>◌, reject_if}
use cube_core.Base.Bytes.{put_be, read_be}
use cube_core.Replication.Types.{
  Error, invalid_datagram, checksum_mismatch, fragment_limit, protocol_version, DeltaFrame, Limits,
  normalize_limits, frame_full, default_max_datagram,
}

abbrev pub datagram_magic : ℕ
datagram_magic = 0x43524431

abbrev pub datagram_header_size : ℕ
datagram_header_size = 42

abbrev pub datagram_flag_full : ℕ
datagram_flag_full = 1

pub record DatagramHeader : Type 0 where
  pub protocol : ℕ
  pub flags : ℕ
  pub room_id : ℕ
  pub epoch : ℕ
  pub tick : ℕ
  pub base_tick : ℕ
  pub sequence : ℕ
  pub chunk_index : ℕ
  pub chunk_count : ℕ
  pub payload_len : ℕ
  pub checksum : ℕ

-- The library's CRC-32, bit by bit: one step of the shift register, ...
unfoldable pub crc_shift : ℕ → ℕ → ℕ
crc_shift zero c = c
crc_shift (suc n) c = crc_shift n (if c % 2 == 1 then bit_xor (c / 2) 0xEDB88320 else c / 2)

-- ... the bytes one after another, and the final complement.
unfoldable pub crc_from : ℕ → List ℕ → ℕ
crc_from c [] = c
crc_from c (b ∷ bs) = crc_from (crc_shift 8 (bit_xor c b)) bs

unfoldable pub crc32 : List ℕ → ℕ
crc32 bs = bit_xor (crc_from 0xFFFFFFFF bs) 0xFFFFFFFF % 2 ^ 32

unfoldable pub checksum_datagram : List ℕ → ℕ
checksum_datagram packet =
    crc32 (take 38 packet ++ (0 ∷ 0 ∷ 0 ∷ 0 ∷ []) ++ drop datagram_header_size packet)

-- The first 38 bytes of a packet.
unfoldable pub datagram_head : DatagramHeader → List ℕ
datagram_head h =
    put_be 4 datagram_magic
    ++ put_be 2 h.protocol
    ++ put_be 2 h.flags
    ++ put_be 8 h.room_id
    ++ put_be 4 h.epoch
    ++ put_be 4 h.tick
    ++ put_be 4 h.base_tick
    ++ put_be 4 h.sequence
    ++ put_be 2 h.chunk_index
    ++ put_be 2 h.chunk_count
    ++ put_be 2 h.payload_len

-- A packet with the given checksum.
unfoldable pub datagram_packet : DatagramHeader → List ℕ → ℕ → List ℕ
datagram_packet h payload checksum = datagram_head h ++ put_be 4 checksum ++ payload

-- The checksum is written last; the bytes in its place do not count.
unfoldable pub encode_datagram : DatagramHeader → List ℕ → Result Error (List ℕ)
encode_datagram h payload =
    if not (h.protocol == protocol_version)
      || (h.room_id == 0)
      || (h.epoch == 0)
      || (h.tick == 0)
      || (h.sequence == 0)
      || (h.chunk_count == 0)
      || leb h.chunk_count h.chunk_index
      || not (length payload == h.payload_len)
    then err invalid_datagram
    else ok (datagram_packet h payload (checksum_datagram (datagram_packet h payload 0)))

-- The number in some bytes of a packet.
abbrev pub field : ℕ → ℕ → List ℕ → ℕ
field from to packet = read_be 0 (slice from to packet)

unfoldable pub datagram_fields : List ℕ → DatagramHeader
datagram_fields packet = record {
  protocol = field 4 6 packet;
  flags = field 6 8 packet;
  room_id = field 8 16 packet;
  epoch = field 16 20 packet;
  tick = field 20 24 packet;
  base_tick = field 24 28 packet;
  sequence = field 28 32 packet;
  chunk_index = field 32 34 packet;
  chunk_count = field 34 36 packet;
  payload_len = field 36 38 packet;
  checksum = field 38 42 packet;
}

-- What the decoder asks of a header, for a packet of a length. A flag but the lowest bit is refused.
unfoldable pub valid_header : DatagramHeader → ℕ → Limits → Bool
valid_header h size limits =
    (h.protocol == protocol_version)
    && not (h.room_id == 0)
    && not (h.epoch == 0)
    && not (h.tick == 0)
    && not (h.sequence == 0)
    && not (h.chunk_count == 0)
    && leb h.chunk_count limits.max_fragments
    && ltb h.chunk_index h.chunk_count
    && (h.payload_len + datagram_header_size == size)
    && (h.flags / 2 == 0)

unfoldable pub decode_datagram : List ℕ → Limits → Result Error (DatagramHeader × List ℕ)
decode_datagram packet limits = do
  let l = normalize_limits limits
  let h = datagram_fields packet
  reject_if
      (ltb (length packet) datagram_header_size
        || ltb l.max_datagram_bytes (length packet)
        || not (field 0 4 packet == datagram_magic))
      invalid_datagram
  reject_if (not (valid_header h (length packet) l)) invalid_datagram
  reject_if (not (checksum_datagram packet == h.checksum)) checksum_mismatch
  ok (h, drop datagram_header_size packet)

-- The header of one fragment; the chunk's place and length are cut to words of 16 bits.
unfoldable pub fragment_header : DeltaFrame → ℕ → ℕ → ℕ → ℕ → DatagramHeader
fragment_header frame sequence count i len = record {
  protocol = protocol_version;
  flags = if frame.kind == frame_full then datagram_flag_full else 0;
  room_id = frame.meta.room_id;
  epoch = frame.meta.epoch;
  tick = frame.meta.tick;
  base_tick = frame.base_tick;
  sequence = sequence;
  chunk_index = i % 2 ^ 16;
  chunk_count = count % 2 ^ 16;
  payload_len = len % 2 ^ 16;
  checksum = 0;
}

-- The loop: the first number counts the rounds that are left, the second is the code's `i`.
unfoldable pub fragments :
    DeltaFrame → ℕ → List ℕ → ℕ → ℕ → ℕ → ℕ → ℕ → Result Error (List (List ℕ))
fragments frame sequence encoded max_datagram max_payload count zero i = ok []
fragments frame sequence encoded max_datagram max_payload count (suc left) i = do
  let start = i * max_payload
  let end = min (start + max_payload) (length encoded)
  packet ←
      encode_datagram (fragment_header frame sequence count i (end - start))
        (slice start end encoded)
  reject_if (ltb max_datagram (length packet)) invalid_datagram
  rest ← fragments frame sequence encoded max_datagram max_payload count left (suc i)
  ok (packet ∷ rest)

-- `max_datagram` is an `int` like a limit: 0 stands for all values up to 0.
unfoldable pub fragment_frame : DeltaFrame → ℕ → List ℕ → ℕ → Limits → Result Error (List (List ℕ))
fragment_frame frame sequence encoded max_datagram limits = do
  let l = normalize_limits limits
  let size = if max_datagram == 0 then default_max_datagram else max_datagram
  let max_payload = size - datagram_header_size
  let count = (length encoded + max_payload - 1) / max_payload
  reject_if ((sequence == 0) || (length encoded == 0) || ltb l.max_frame_bytes (length encoded))
      invalid_datagram
  reject_if (ltb l.max_datagram_bytes size) invalid_datagram
  reject_if (leb size datagram_header_size || ltb 65535 max_payload) invalid_datagram
  reject_if ((count == 0) || ltb l.max_fragments count || ltb 65535 count) fragment_limit
  fragments frame sequence encoded size max_payload count count 0
