-- ===== src/Replication/Reassembler/Pushes.antt =====
-- A reassembler serves any calls in any order.
use cube_core.Replication.Types.{Limits}
use cube_core.Base.{
  zero, ◌||◌, not, ◌==◌, leb, if_both, if_cases, ℕ, suc, ◌<◌, ◌≡◌, inl, inr, refl, List, [], ◌∷◌,
  length, replicate, arith, ap, Option-cases,
}
use cube_core.Base.Results.{ok, Result-cases}
use cube_core.Base.Maps.{find-put, find, put, length-put}
use cube_core.Replication.Datagram.{DatagramHeader, decode_datagram, valid_header}
use cube_core.Replication.Reassembler.{
  same_assembly_iff, assembly_key, Limits, AssemblyKey, Reassembler, new_reassembler, expire,
  concat, place, push_decoded, push, push_for, key_of, new_assembly, Pushed,
}
use cube_core.Replication.Reassembler.Bounds.{
  IsAssembly, IsReassembler, Held-put, Held-find, delete-IsReassembler, store_chunk-IsReassembler,
  expire-IsReassembler,
}

abbrev blanks : ℕ → List (List ℕ)
blanks n = replicate n []

blank : (n : ℕ) → (length (blanks n) ≡ n) × (length (concat (blanks n)) ≡ 0)
unfolding concat
blank zero = (refl, refl)
blank (suc n) = (ap suc (blank n).0, (blank n).1)

new_count : (h : DatagramHeader) (now : ℕ) → (new_assembly h now).header.chunk_count ≡ h.chunk_count
unfolding new_assembly
new_count h now = refl

new_assembly-IsAssembly :
    (l : Limits) (h : DatagramHeader) (now : ℕ) → IsAssembly l (new_assembly h now)
unfolding new_assembly
new_assembly-IsAssembly l h now = record {
  slots = (blank h.chunk_count).0;
  sized = omega (arith, (blank h.chunk_count).1);
  bounded = omega arith;
}

add-IsReassembler :
    (r : Reassembler) (key : AssemblyKey) (h : DatagramHeader) (now : ℕ)
    → IsReassembler r
    → length r.inflight < r.limits.max_inflight_frames
    → IsReassembler (record r { inflight = put key (new_assembly h now) r.inflight })
add-IsReassembler r key h now v room = record {
  counted = ground (arith, room, length-put key (new_assembly h now) r.inflight);
  each = Held-put r.limits key _ r.inflight (new_assembly-IsAssembly r.limits h now) v.each;
}

place-IsReassembler :
    (r : Reassembler) (key : AssemblyKey) (h : DatagramHeader) (payload : List ℕ) (now : ℕ)
    → IsReassembler r
    → h.chunk_index < h.chunk_count
    → IsReassembler (place r key h payload now).0
unfolding place
place-IsReassembler r key h payload now v inside = elim (Option-cases (find key r.inflight)) [
  | inl e ↦
      let a = new_assembly h now in
      let t : Reassembler = record r { inflight = put key a r.inflight } in
      rw (e, place)
        (if_cases (λ (x : Reassembler × Pushed). IsReassembler x.0)
          (leb r.limits.max_inflight_frames (length r.inflight)) (λ full. v)
          λ room.
            store_chunk-IsReassembler t key a h payload
              (add-IsReassembler r key h now v (ground arith))
              (ground (arith, find-put key key a r.inflight, same_assembly_iff key key))
              (omega
                (arith, inside, (new_assembly-IsAssembly r.limits h now).slots, new_count h now)))
  | inr (a, e) ↦
      let old = Held-find r.limits key r.inflight a v.each e in
      rw (e, place)
        (if_cases (λ (x : Reassembler × Pushed). IsReassembler x.0)
          (not (a.header.chunk_count == h.chunk_count)
            || not (a.header.base_tick == h.base_tick)
            || not (a.header.flags == h.flags))
          (λ other. delete-IsReassembler r key v)
          λ same. store_chunk-IsReassembler r key a h payload v e (ground (arith, old.slots)))
]

decoded_inside :
    (packet : List ℕ) (limits : Limits) (h : DatagramHeader) (payload : List ℕ)
    → decode_datagram packet limits ≡ ok (h, payload)
    → h.chunk_index < h.chunk_count
unfolding decode_datagram valid_header
decoded_inside packet limits h payload e = ground arith

push-IsReassembler :
    (r : Reassembler) (session : ℕ) (packet : List ℕ) (now : ℕ)
    → IsReassembler r
    → IsReassembler (push r session packet now).0
unfolding push push_decoded
push-IsReassembler r session packet now v = elim (Result-cases (decode_datagram packet r.limits)) [
  | inr (e, d) ↦ rw (d, push) v
  | inl ((h, payload), d) ↦
      rw (d, push, push_decoded)
        (if_both (λ (x : Reassembler × Pushed). IsReassembler x.0) (h.chunk_count == 1) v
          (place-IsReassembler (expire r now).0 (key_of session h) h payload now
            (expire-IsReassembler r now v) (decoded_inside packet r.limits h payload d)))
]

-- The calls that change a reassembler.
pub data Call : Type 0 where
  pushes : ℕ → List ℕ → ℕ → Call
  pushes_for : ℕ → List ℕ → ℕ → Call
  expires : ℕ → Call

unfoldable pub step : Reassembler → Call → Reassembler
step r (pushes session packet now) = (push r session packet now).0
step r (pushes_for session packet now) = (push_for r session packet now).0
step r (expires now) = (expire r now).0

unfoldable pub run : Reassembler → List Call → Reassembler
run r [] = r
run r (c ∷ cs) = run (step r c) cs

step-IsReassembler : (r : Reassembler) (c : Call) → IsReassembler r → IsReassembler (step r c)
unfolding step push_for
step-IsReassembler r (pushes session packet now) v = push-IsReassembler r session packet now v
step-IsReassembler r (pushes_for session packet now) v =
    if_both (λ (x : Reassembler × Pushed). IsReassembler x.0) (session == 0) v
      (push-IsReassembler r session packet now v)
step-IsReassembler r (expires now) v = expire-IsReassembler r now v

run-IsReassembler' : (r : Reassembler) (cs : List Call) → IsReassembler r → IsReassembler (run r cs)
unfolding run
run-IsReassembler' r [] v = v
run-IsReassembler' r (c ∷ cs) v = run-IsReassembler' (step r c) cs (step-IsReassembler r c v)

-- Whatever packets a reassembler was given, at whatever times, it keeps at most the allowed number of
-- incomplete frames, each with one place for every chunk, and knows its size, which is at most the
-- allowed size of a frame.
pub run-IsReassembler :
    (limits : Limits) (ttl : ℕ) (cs : List Call)
    → IsReassembler (run (new_reassembler limits ttl) cs)
unfolding new_reassembler
run-IsReassembler limits ttl cs =
    run-IsReassembler' (new_reassembler limits ttl) cs (record { counted = omega arith; each = tt })
