-- ===== src/Replication/Datagram/Fragments.antt =====
-- The fragments of a frame carry the frame.
use cube_core.Replication.Types.{DeltaFrame}
use mathlib.Core.Path.{ap₂}
use cube_core.Base.{
  inl, inr, slice, ◌-◌, zero, ◌*◌, min, ◌+◌, suc, ◌≤◌, ℕ, ◌≡◌, ap, ◌∙◌, arith, List, [], ◌∷◌, ◌++◌,
  length, drop, cut-append-drop, drop_all,
}
use cube_core.Base.Results.{Result-cases, ok}
use cube_core.Replication.Datagram.{
  DeltaFrame, DatagramHeader, encode_datagram, fragment_header, fragments,
}
use cube_core.Replication.Datagram.Roundtrip.{packet_parts, encoded_packet}

-- The payloads, one after another.
unfoldable pub joined : List (List ℕ) → List ℕ
joined [] = []
joined (packet ∷ packets) = drop 42 packet ++ joined packets

pub fragments-inv :
    (frame : DeltaFrame) (sequence : ℕ) (encoded : List ℕ) (size payload count left i : ℕ)
    (packets : List (List ℕ))
    → fragments frame sequence encoded size payload count (suc left) i ≡ ok packets
    → (packet : List ℕ) × (rest : List (List ℕ)) × (packets ≡ packet ∷ rest)
      × (encode_datagram
            (fragment_header frame sequence count i
              (min (i * payload + payload) (length encoded) - i * payload))
            (slice (i * payload) (min (i * payload + payload) (length encoded)) encoded)
          ≡ ok packet)
      × (length packet ≤ size)
      × (fragments frame sequence encoded size payload count left (suc i) ≡ ok rest)
unfolding fragments
fragments-inv frame sequence encoded size payload count left i packets h =
    let end = min (i * payload + payload) (length encoded) in
    elim (Result-cases (
      encode_datagram (fragment_header frame sequence count i (end - i * payload))
        (slice (i * payload) end encoded))) [
          | inr (e, q) ↦ absurd (ground arith)
          | inl (packet, q) ↦
              elim (Result-cases
                (fragments frame sequence encoded size payload count left (suc i))) [
                  | inr (e, r) ↦ absurd (ground arith)
                  | inl (rest, r) ↦ (packet, rest, ground arith, q, ground arith, r)
                ]
        ]

-- The payload of a packet is the cut it was made from.
pub packet-cut :
    (h : DatagramHeader) (payload packet : List ℕ)
    → encode_datagram h payload ≡ ok packet
    → drop 42 packet ≡ payload
packet-cut h payload packet e =
    ap (drop 42) (encoded_packet h payload packet e) ∙ (packet_parts h payload _).1

pub joined-fragments :
    (frame : DeltaFrame) (sequence : ℕ) (encoded : List ℕ) (size payload count left i : ℕ)
    (packets : List (List ℕ))
    → length encoded ≤ (i + left) * payload
    → fragments frame sequence encoded size payload count left i ≡ ok packets
    → (joined packets ≡ drop (i * payload) encoded) × (length packets ≡ left)
unfolding joined fragments
joined-fragments frame sequence encoded size payload count zero i packets enough h =
    let past : length encoded ≤ i * payload = omega (arith, enough) in
    let none_left = drop_all (i * payload) encoded past in (ground (arith, none_left), ground arith)
joined-fragments frame sequence encoded size payload count (suc left) i packets enough h =
    let start = i * payload in
    let end = min (start + payload) (length encoded) in
    let v = fragments-inv frame sequence encoded size payload count left i packets h in
    let next : suc i * payload ≡ start + payload = grind arith in
    let enough' : length encoded ≤ (suc i + left) * payload = grind arith in
    let tail =
      joined-fragments frame sequence encoded size payload count left (suc i) v.1 enough' v.5 in
    let cut = packet-cut _ (slice start end encoded) v.0 v.3 in
    let whole =
      cut-append-drop (end - start) start (start + payload) encoded (omega arith) (omega arith) in
    let rest : joined v.1 ≡ drop (start + payload) encoded =
      tail.0 ∙ ap (λ n. drop n encoded) next in
    (ap joined v.2 ∙ ap₂ ◌++◌ cut rest ∙ whole, ap length v.2 ∙ ap suc tail.1)
