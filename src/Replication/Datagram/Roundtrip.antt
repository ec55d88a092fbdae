-- ===== src/Replication/Datagram/Roundtrip.antt =====
-- A datagram survives its encoding, and the fragments of a frame carry the frame.
use cube_core.Base.{true, ◌≤◌, ◌+◌, ℕ, ◌<◌, ◌^◌, ◌≡◌, refl, ap, ◌∙◌, arith, List, length, drop}
use cube_core.Base.Results.{ok}
use cube_core.Base.Bytes.{put_be, read_be-put_be}
use cube_core.Replication.Types.{normalize_limits, Limits}
use cube_core.Replication.Datagram.{
  normalize_limits, Limits, DatagramHeader, datagram_magic, datagram_head, datagram_packet,
  datagram_fields, field, encode_datagram, decode_datagram, checksum_datagram, crc32, valid_header,
}

-- The words of a header fit their fields.
pub record FitsHeader (h : DatagramHeader) : Type 0 where
  pub protocol_fits : h.protocol < 2 ^ 16
  pub flags_fit : h.flags < 2 ^ 16
  pub room_fits : h.room_id < 2 ^ 64
  pub epoch_fits : h.epoch < 2 ^ 32
  pub tick_fits : h.tick < 2 ^ 32
  pub base_fits : h.base_tick < 2 ^ 32
  pub sequence_fits : h.sequence < 2 ^ 32
  pub index_fits : h.chunk_index < 2 ^ 16
  pub count_fits : h.chunk_count < 2 ^ 16
  pub len_fits : h.payload_len < 2 ^ 16

datagram_fields-packet :
    (h : DatagramHeader) (payload : List ℕ) (c : ℕ)
    → FitsHeader h
    → c < 2 ^ 32
    → datagram_fields (datagram_packet h payload c) ≡ record h { checksum = c }
unfolding datagram_fields datagram_packet datagram_head put_be
datagram_fields-packet h payload c f fits i = record {
  protocol = read_be-put_be 2 h.protocol f.protocol_fits i;
  flags = read_be-put_be 2 h.flags f.flags_fit i;
  room_id = read_be-put_be 8 h.room_id f.room_fits i;
  epoch = read_be-put_be 4 h.epoch f.epoch_fits i;
  tick = read_be-put_be 4 h.tick f.tick_fits i;
  base_tick = read_be-put_be 4 h.base_tick f.base_fits i;
  sequence = read_be-put_be 4 h.sequence f.sequence_fits i;
  chunk_index = read_be-put_be 2 h.chunk_index f.index_fits i;
  chunk_count = read_be-put_be 2 h.chunk_count f.count_fits i;
  payload_len = read_be-put_be 2 h.payload_len f.len_fits i;
  checksum = read_be-put_be 4 c fits i;
}

-- The bytes of a packet before, in and after the checksum.
pub packet_parts :
    (h : DatagramHeader) (payload : List ℕ) (c : ℕ)
    → (field 0 4 (datagram_packet h payload c) ≡ datagram_magic)
      × (drop 42 (datagram_packet h payload c) ≡ payload)
      × (length (datagram_packet h payload c) ≡ 42 + length payload)
unfolding datagram_packet datagram_head put_be
packet_parts h payload c = (read_be-put_be 4 datagram_magic (omega arith), refl, omega arith)

checksum-packet :
    (h : DatagramHeader) (payload : List ℕ) (c d : ℕ)
    → checksum_datagram (datagram_packet h payload c)
      ≡ checksum_datagram (datagram_packet h payload d)
unfolding checksum_datagram datagram_packet datagram_head put_be
checksum-packet h payload c d = refl

checksum-range : (packet : List ℕ) → checksum_datagram packet < 2 ^ 32
unfolding checksum_datagram crc32
checksum-range packet = omega arith

-- What the decoder asks for, in order.
decode_lem :
    (packet payload : List ℕ) (limits : Limits) (h : DatagramHeader)
    → datagram_fields packet ≡ h
    → 42 ≤ length packet
    → length packet ≤ (normalize_limits limits).max_datagram_bytes
    → field 0 4 packet ≡ datagram_magic
    → valid_header h (length packet) (normalize_limits limits) ≡ true
    → checksum_datagram packet ≡ h.checksum
    → drop 42 packet ≡ payload
    → decode_datagram packet limits ≡ ok (h, payload)
unfolding decode_datagram
decode_lem packet payload limits h fields long short magic valid sum rest =
    rw (fields, magic, valid, sum, rest) (ground (arith, long, short))

encoded_header :
    (h : DatagramHeader) (payload packet : List ℕ) (l : Limits) (c : ℕ)
    → h.flags < 2
    → h.chunk_count ≤ l.max_fragments
    → length packet ≡ 42 + length payload
    → encode_datagram h payload ≡ ok packet
    → valid_header (record h { checksum = c }) (length packet) l ≡ true
unfolding encode_datagram valid_header
encoded_header h payload packet l c flags count size e = ground arith

pub encoded_packet :
    (h : DatagramHeader) (payload packet : List ℕ)
    → encode_datagram h payload ≡ ok packet
    → packet ≡ datagram_packet h payload (checksum_datagram (datagram_packet h payload 0))
unfolding encode_datagram
encoded_packet h payload packet e = ground arith

-- A packet that the encoder accepts, whose header fits its words, and which is within the receiver's
-- limits, comes back: the header with its checksum, and the payload.
pub decode_datagram-encode_datagram :
    (h : DatagramHeader) (payload packet : List ℕ) (limits : Limits)
    → FitsHeader h
    → h.flags < 2
    → length packet ≤ (normalize_limits limits).max_datagram_bytes
    → h.chunk_count ≤ (normalize_limits limits).max_fragments
    → encode_datagram h payload ≡ ok packet
    → decode_datagram packet limits ≡ ok (record h { checksum = checksum_datagram packet }, payload)
decode_datagram-encode_datagram h payload packet limits f flags size count e =
    let c = checksum_datagram (datagram_packet h payload 0) in
    let made = encoded_packet h payload packet e in
    let parts = packet_parts h payload c in
    let long : length packet ≡ 42 + length payload = ap length made ∙ parts.2 in
    let sum : checksum_datagram packet ≡ c =
      ap checksum_datagram made ∙ checksum-packet h payload c 0 in
    let fields = datagram_fields-packet h payload c f (checksum-range _) in
    rw sum (
      decode_lem packet payload limits (record h { checksum = c })
        (ap datagram_fields made ∙ fields) (omega (arith, long)) size
        (ap (field 0 4) made ∙ parts.0)
        (encoded_header h payload packet (normalize_limits limits) c flags count long e) sum
        (ap (drop 42) made ∙ parts.1))
