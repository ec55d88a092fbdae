-- ===== src/Replication/Reassembler.antt =====
-- replication/datagram.go: `Reassembler`, which puts the datagrams of frames together again. Time is
-- a natural number, read by the caller; the calls on a nil reassembler are left out. An empty chunk
-- and a missing one are the same, as in the code, where the copy of an empty payload is nil. The
-- header that goes along with an error is left out. `Len` is the length of the map.
pub mod Bounds
pub mod Pushes
mod Examples
use cube_core.Base.Bytes.{bytes_equal}
use cube_core.Base.{
  ◌↔◌, arith, ◌≡◌, ◌-◌, ℕ, ◌+◌, Bool, true, false, not, ◌&&◌, ◌||◌, List, [], ◌∷◌, ◌++◌, Option,
  none, some, length, get_elem?, set, replicate, ltb, leb, ◌==◌, if◌then◌else◌,
}
use cube_core.Base.Results.{Result, ok, err}
use cube_core.Base.Keys.{Key}
use cube_core.Base.Maps.{Map, find, put, delete}
use cube_core.Replication.Types.{
  Error, Limits, normalize_limits, invalid_datagram, session_not_found, reassembly_capacity,
  frame_too_large,
}
use cube_core.Replication.Datagram.{DatagramHeader, decode_datagram}

pub record AssemblyKey : Type 0 where
  pub session : ℕ
  pub room_id : ℕ
  pub epoch : ℕ
  pub tick : ℕ
  pub sequence : ℕ

unfoldable pub same_assembly : AssemblyKey → AssemblyKey → Bool
same_assembly a b =
    (a.session == b.session)
    && (a.room_id == b.room_id)
    && (a.epoch == b.epoch)
    && (a.tick == b.tick)
    && (a.sequence == b.sequence)

-- An order of the keys, which the map does not use.
unfoldable pub less_assembly : AssemblyKey → AssemblyKey → Bool
less_assembly a b =
    if not (a.session == b.session)
    then ltb a.session b.session
    else if not (a.room_id == b.room_id)
    then ltb a.room_id b.room_id
    else if not (a.epoch == b.epoch)
    then ltb a.epoch b.epoch
    else if not (a.tick == b.tick)
    then ltb a.tick b.tick
    else ltb a.sequence b.sequence

pub same_assembly_iff : (a b : AssemblyKey) → (same_assembly a b ≡ true) ↔ (a ≡ b)
unfolding same_assembly
same_assembly_iff a b = ground arith

pub less_assembly_irrefl : (a : AssemblyKey) → less_assembly a a ≡ false
unfolding less_assembly
less_assembly_irrefl a = ground arith

pub less_assembly_trans :
    (a b c : AssemblyKey)
    → less_assembly a b ≡ true
    → less_assembly b c ≡ true
    → less_assembly a c ≡ true
unfolding less_assembly
less_assembly_trans a b c h k = ground arith

pub less_assembly_connex :
    (a b : AssemblyKey) → less_assembly a b ≡ false → less_assembly b a ≡ false → a ≡ b
unfolding less_assembly
less_assembly_connex a b h k = ground arith

instance abbrev pub assembly_key : Key AssemblyKey
assembly_key = record {
  lt = less_assembly;
  eq = same_assembly;
  eq_iff = same_assembly_iff;
  lt_irrefl = less_assembly_irrefl;
  lt_trans = less_assembly_trans;
  lt_connex = less_assembly_connex;
}

pub record FrameAssembly : Type 0 where
  pub header : DatagramHeader
  pub created : ℕ
  pub chunks : List (List ℕ)
  pub received : ℕ
  pub total : ℕ

pub record Reassembler : Type 0 where
  pub limits : Limits
  pub ttl : ℕ
  pub inflight : Map AssemblyKey FrameAssembly

-- Two seconds in nanoseconds; 0 stands for all durations up to 0.
unfoldable pub new_reassembler : Limits → ℕ → Reassembler
new_reassembler limits ttl = record {
  limits = normalize_limits limits;
  ttl = if ttl == 0 then 2000000000 else ttl;
  inflight = [];
}

-- The assemblies that are younger than the time to live.
unfoldable pub expire_locked : ℕ → ℕ → Map AssemblyKey FrameAssembly → Map AssemblyKey FrameAssembly
expire_locked ttl now [] = []
expire_locked ttl now ((key, assembly) ∷ m) =
    let rest = expire_locked ttl now m in
    if leb (assembly.created + ttl) now then rest else (key, assembly) ∷ rest

-- With the number that went.
unfoldable pub expire : Reassembler → ℕ → Reassembler × ℕ
expire r now =
    let kept = expire_locked r.ttl now r.inflight in
    (record r { inflight = kept }, length r.inflight - length kept)

-- The chunk at an index, where `[]` is nil.
unfoldable pub chunk_at : ℕ → List (List ℕ) → List ℕ
chunk_at index chunks = elim (get_elem? chunks index) [ none ↦ [] | some chunk ↦ chunk ]

-- All chunks, one after another.
unfoldable pub concat : List (List ℕ) → List ℕ
concat [] = []
concat (chunk ∷ chunks) = chunk ++ concat chunks

-- What a call answers: the frame if it is complete, and the header.
abbrev pub Pushed : Type 0
Pushed = Result Error (Option (List ℕ) × DatagramHeader)

-- The chunk is stored in its assembly, which is in the map already.
unfoldable pub store_chunk :
    Reassembler → AssemblyKey → FrameAssembly → DatagramHeader → List ℕ → Reassembler × Pushed
store_chunk r key assembly header payload =
    if not (bytes_equal (chunk_at header.chunk_index assembly.chunks) [])
    then if bytes_equal (chunk_at header.chunk_index assembly.chunks) payload
      then (r, ok (none, header))
      else (record r { inflight = delete key r.inflight }, err invalid_datagram)
    else if ltb r.limits.max_frame_bytes (assembly.total + length payload)
    then (record r { inflight = delete key r.inflight }, err frame_too_large)
    else let chunks = set assembly.chunks header.chunk_index payload in
      if not (assembly.received + 1 == length chunks)
      then (
        record r {
          inflight =
              put key
                (record assembly {
                  chunks = chunks;
                  received = assembly.received + 1;
                  total = assembly.total + length payload;
                })
                r.inflight;
        },
        ok (none, header),
      )
      else (record r { inflight = delete key r.inflight }, ok (some (concat chunks), header))

unfoldable pub key_of : ℕ → DatagramHeader → AssemblyKey
key_of session h = record {
  session = session;
  room_id = h.room_id;
  epoch = h.epoch;
  tick = h.tick;
  sequence = h.sequence;
}

unfoldable pub new_assembly : DatagramHeader → ℕ → FrameAssembly
new_assembly header now = record {
  header = header;
  created = now;
  chunks = replicate header.chunk_count [];
  received = 0;
  total = 0;
}

-- The call after the packet is decoded, for a frame of more than one chunk; the assemblies that are
-- too old are gone.
unfoldable pub place :
    Reassembler → AssemblyKey → DatagramHeader → List ℕ → ℕ → Reassembler × Pushed
place r key header payload now = elim (find key r.inflight) [
  | none ↦
      if leb r.limits.max_inflight_frames (length r.inflight)
      then (r, err reassembly_capacity)
      else let assembly = new_assembly header now in
        store_chunk (record r { inflight = put key assembly r.inflight }) key assembly header
          payload
  | some assembly ↦
      if not (assembly.header.chunk_count == header.chunk_count)
        || not (assembly.header.base_tick == header.base_tick)
        || not (assembly.header.flags == header.flags)
      then (record r { inflight = delete key r.inflight }, err invalid_datagram)
      else store_chunk r key assembly header payload
]

unfoldable pub push_decoded : Reassembler → ℕ → DatagramHeader → List ℕ → ℕ → Reassembler × Pushed
push_decoded r session header payload now =
    if header.chunk_count == 1
    then (r, ok (some payload, header))
    else place (expire r now).0 (key_of session header) header payload now

unfoldable pub push : Reassembler → ℕ → List ℕ → ℕ → Reassembler × Pushed
push r session packet now = elim (decode_datagram packet r.limits) [
  | err e ↦ (r, err e)
  | ok (header, payload) ↦ push_decoded r session header payload now
]

unfoldable pub push_for : Reassembler → ℕ → List ℕ → ℕ → Reassembler × Pushed
push_for r session packet now =
    if session == 0 then (r, err session_not_found) else push r session packet now
