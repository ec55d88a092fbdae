-- ===== src/Replication/Ring.antt =====
-- replication/ring.go: the last snapshots of a room, with an index by tick. A nil ring is no value
-- here, and the mutex makes every method one step. An index that eviction would move below 0 stops
-- at 0; the ring's invariant has no such index.
pub mod Index
pub mod History
mod Examples
use cube_core.Base.{
  ℕ, ◌-◌, Bool, true, false, not, ◌&&◌, List, [], ◌∷◌, ◌++◌, map, Option, none, some, length,
  get_elem?, leb, ◌==◌, if◌then◌else◌,
}
use cube_core.Base.Results.{Result, ok, err, ◌>>=◌, ◌>>◌, reject_if}
use cube_core.Base.Keys.{nat_key}
use cube_core.Base.Maps.{Map, find, put, delete}
use cube_core.Replication.Types.{Error, baseline_mismatch, validate_meta, Snapshot}

pub record SnapshotRing : Type 0 where
  pub capacity : ℕ
  pub items : List Snapshot
  pub by_tick : Map ℕ ℕ
  pub latest : ℕ

unfoldable pub new_ring : ℕ → SnapshotRing
new_ring capacity = record {
  capacity = if capacity == 0 then 64 else capacity;
  items = [];
  by_tick = [];
  latest = 0;
}

-- `for tick, index := range r.byTick { r.byTick[tick] = index - 1 }`.
unfoldable pub shift : Map ℕ ℕ → Map ℕ ℕ
shift [] = []
shift ((t, i) ∷ m) = (t, i - 1) ∷ shift m

-- The oldest snapshot leaves a full ring.
unfoldable pub evict : SnapshotRing → SnapshotRing
evict r =
    if length r.items == r.capacity
    then (elim r.items [
      | [] ↦ r
      | x ∷ xs ↦ record r { items = xs; by_tick = shift (delete x.meta.tick r.by_tick) }
    ])
    else r

unfoldable pub append : SnapshotRing → Snapshot → SnapshotRing
append r s = record r {
  items = r.items ++ s ∷ [];
  by_tick = put s.meta.tick (length r.items) r.by_tick;
  latest = s.meta.tick;
}

unfoldable pub add : SnapshotRing → Snapshot → Result Error SnapshotRing
add r s = do
  validate_meta s.meta
  reject_if (not (r.latest == 0) && leb s.meta.tick r.latest) baseline_mismatch
  ok (append (evict r) s)

unfoldable pub get : SnapshotRing → ℕ → Option Snapshot
get r tick =
    if tick == 0
    then none
    else (elim (find tick r.by_tick) [ none ↦ none | some i ↦ get_elem? r.items i ])

unfoldable pub last : List Snapshot → Option Snapshot
last [] = none
last (x ∷ []) = some x
last (x ∷ y ∷ xs) = last (y ∷ xs)

unfoldable pub latest_snapshot : SnapshotRing → Option Snapshot
latest_snapshot r = last r.items

unfoldable pub reset : SnapshotRing → SnapshotRing
reset r = record r { items = []; by_tick = []; latest = 0 }
