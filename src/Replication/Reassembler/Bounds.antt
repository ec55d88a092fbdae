-- ===== src/Replication/Reassembler/Bounds.antt =====
-- What a reassembler keeps is bounded.
use cube_core.Base.Bytes.{bytes_equal_iff, bytes_equal}
use cube_core.Base.{
  ◌==◌, ltb, not, leb, length-append, zero, if_cases, if_both, ℕ, suc, ◌+◌, ◌≤◌, ◌<◌, ◌≡◌, inl, inr,
  refl, List, [], ◌∷◌, some, length, set, arith, ap, subst, Bool-cases,
}
use cube_core.Base.Maps.{Map, find, put, delete, length-put, length-delete-le}
use cube_core.Replication.Types.{Limits}
use cube_core.Replication.Datagram.{DatagramHeader}
use cube_core.Replication.Reassembler.{
  bytes_equal, assembly_key, same_assembly, AssemblyKey, FrameAssembly, Reassembler, expire,
  expire_locked, chunk_at, concat, store_chunk, Pushed,
}

-- An assembly with a place for every chunk, which knows its size.
pub record IsAssembly (l : Limits) (a : FrameAssembly) : Type 0 where
  pub slots : length a.chunks ≡ a.header.chunk_count
  pub sized : a.total ≡ length (concat a.chunks)
  pub bounded : a.total ≤ l.max_frame_bytes

abbrev pub Held : Limits → Map AssemblyKey FrameAssembly → Type 0
Held l [] = Unit
Held l ((key, a) ∷ m) = IsAssembly l a × Held l m

pub record IsReassembler (r : Reassembler) : Type 0 where
  pub counted : length r.inflight ≤ r.limits.max_inflight_frames
  pub each : Held r.limits r.inflight

pub Held-put :
    (l : Limits) (key : AssemblyKey) (a : FrameAssembly) (m : Map AssemblyKey FrameAssembly)
    → IsAssembly l a
    → Held l m
    → Held l (put key a m)
unfolding put
Held-put l key a [] v h = (v, tt)
Held-put l key a ((j, b) ∷ m) v h =
    if_both (Held l) (same_assembly j key) (v, h.1) (h.0, Held-put l key a m v h.1)

Held-delete :
    (l : Limits) (key : AssemblyKey) (m : Map AssemblyKey FrameAssembly)
    → Held l m
    → Held l (delete key m)
unfolding delete
Held-delete l key [] h = tt
Held-delete l key ((j, b) ∷ m) h =
    if_both (Held l) (same_assembly j key) (Held-delete l key m h.1) (h.0, Held-delete l key m h.1)

pub Held-find :
    (l : Limits) (key : AssemblyKey) (m : Map AssemblyKey FrameAssembly) (a : FrameAssembly)
    → Held l m
    → find key m ≡ some a
    → IsAssembly l a
unfolding find
Held-find l key [] a h e = absurd (cc e)
Held-find l key ((j, b) ∷ m) a h e = elim (Bool-cases (same_assembly j key)) [
  | inl c ↦ subst (IsAssembly l) {x = b} (ground arith) h.0
  | inr c ↦ Held-find l key m a h.1 (ground arith)
]

expire_locked-Held :
    (l : Limits) (ttl now : ℕ) (m : Map AssemblyKey FrameAssembly)
    → Held l m
    → Held l (expire_locked ttl now m) × (length (expire_locked ttl now m) ≤ length m)
unfolding expire_locked
expire_locked-Held l ttl now [] h = (tt, omega arith)
expire_locked-Held l ttl now ((j, b) ∷ m) h =
    let rest = expire_locked-Held l ttl now m h.1 in
    (if_both (Held l) (leb (b.created + ttl) now) rest.0 (h.0, rest.0), ground (arith, rest.1))

pub expire-IsReassembler :
    (r : Reassembler) (now : ℕ) → IsReassembler r → IsReassembler (expire r now).0
unfolding expire
expire-IsReassembler r now v =
    let kept = expire_locked-Held r.limits r.ttl now r.inflight v.each in
    record { counted = omega (arith, kept.1, v.counted); each = kept.0 }

length-concat-set :
    (i : ℕ) (payload : List ℕ) (chunks : List (List ℕ))
    → i < length chunks
    → chunk_at i chunks ≡ []
    → length (concat (set chunks i payload)) ≡ length (concat chunks) + length payload
unfolding concat chunk_at
length-concat-set i payload [] h e = absurd (omega arith)
length-concat-set zero payload (c ∷ cs) h e =
    omega (arith, length-append payload (concat cs), length-append c (concat cs), ap length e)
length-concat-set (suc i) payload (c ∷ cs) h e = omega (
  arith,
  length-append c (concat cs),
  length-append c (concat (set cs i payload)),
  length-concat-set i payload cs (omega arith) e,
)

length-set :
    (i : ℕ) (payload : List ℕ) (chunks : List (List ℕ))
    → length (set chunks i payload) ≡ length chunks
length-set i payload [] = refl
length-set zero payload (c ∷ cs) = refl
length-set (suc i) payload (c ∷ cs) = ap suc (length-set i payload cs)

pub delete-IsReassembler :
    (r : Reassembler) (key : AssemblyKey)
    → IsReassembler r
    → IsReassembler (record r { inflight = delete key r.inflight })
delete-IsReassembler r key v = record {
  counted = omega (arith, v.counted, length-delete-le key r.inflight);
  each = Held-delete r.limits key r.inflight v.each;
}

-- What a stored chunk makes of an assembly.
grown-IsAssembly :
    (l : Limits) (a : FrameAssembly) (i : ℕ) (payload : List ℕ)
    → IsAssembly l a
    → i < length a.chunks
    → chunk_at i a.chunks ≡ []
    → a.total + length payload ≤ l.max_frame_bytes
    → IsAssembly l (record a {
      chunks = set a.chunks i payload;
      received = a.received + 1;
      total = a.total + length payload;
    })
grown-IsAssembly l a i payload v at free room = record {
  slots = omega (arith, v.slots, length-set i payload a.chunks);
  sized = omega (arith, v.sized, length-concat-set i payload a.chunks at free);
  bounded = room;
}

pub store_chunk-IsReassembler :
    (r : Reassembler) (key : AssemblyKey) (a : FrameAssembly) (h : DatagramHeader)
    (payload : List ℕ)
    → IsReassembler r
    → find key r.inflight ≡ some a
    → h.chunk_index < length a.chunks
    → IsReassembler (store_chunk r key a h payload).0
unfolding store_chunk
store_chunk-IsReassembler r key a h payload v at inside =
    let old = Held-find r.limits key r.inflight a v.each at in
    let gone = delete-IsReassembler r key v in
    if_cases (λ (x : Reassembler × Pushed). IsReassembler x.0)
      (not (bytes_equal (chunk_at h.chunk_index a.chunks) []))
      (λ full.
        if_both (λ (x : Reassembler × Pushed). IsReassembler x.0)
          (bytes_equal (chunk_at h.chunk_index a.chunks) payload) v gone)
      λ free.
        if_cases (λ (x : Reassembler × Pushed). IsReassembler x.0)
          (ltb r.limits.max_frame_bytes (a.total + length payload)) (λ over. gone)
          λ room.
            let empty : chunk_at h.chunk_index a.chunks ≡ [] =
              ground (arith, bytes_equal_iff (chunk_at h.chunk_index a.chunks) []) in
            let grown =
              grown-IsAssembly r.limits a h.chunk_index payload old inside empty (ground arith) in
            if_both (λ (x : Reassembler × Pushed). IsReassembler x.0)
              (not (a.received + 1 == length (set a.chunks h.chunk_index payload)))
              (record {
                counted =
                    ground (
                      arith,
                      v.counted,
                      at,
                      length-put key (grown_assembly a h payload) r.inflight,
                    );
                each = Held-put r.limits key _ r.inflight grown v.each;
              })
              gone
  where
    grown_assembly : FrameAssembly → DatagramHeader → List ℕ → FrameAssembly
    grown_assembly b g p = record b {
      chunks = set b.chunks g.chunk_index p;
      received = b.received + 1;
      total = b.total + length p;
    }
