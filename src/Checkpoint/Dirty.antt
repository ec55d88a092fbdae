-- ===== src/Checkpoint/Dirty.antt =====
-- checkpoint/dirty.go: `DirtyTracker`, the dirty fields of an entity, for its persistence and for its
-- synchronisation. A method is one step. The code has a lock for none of them: `MarkScope`,
-- `SelfClean`, `SetVersion` and `Restore` are several atomic operations in a row, and what other
-- goroutines see or do between those is not modelled. The masks are words, on which `Or` stays.
pub mod Pending
mod Examples
use cube_core.Base.{ℕ, ◌+◌, ◌/◌, ◌%◌, ◌^◌, bit_or, Bool, not, ◌||◌, ◌==◌, if◌then◌else◌}

-- The bits of a `DirtyScope`.
abbrev pub for_persist : ℕ → Bool
for_persist scope = scope % 2 == 1

abbrev pub for_sync : ℕ → Bool
for_sync scope = scope / 2 % 2 == 1

pub record DirtyTracker : Type 0 where
  pub persist_dirty : ℕ
  pub sync_dirty : ℕ
  pub version : ℕ
  pub sync_version : ℕ

-- `Or` of the mask; the code skips it for 0.
unfoldable pub mark_persist : DirtyTracker → ℕ → DirtyTracker
mark_persist d mask =
    if mask == 0 then d else record d { persist_dirty = bit_or d.persist_dirty mask }

unfoldable pub mark_sync : DirtyTracker → ℕ → DirtyTracker
mark_sync d mask = if mask == 0 then d else record d { sync_dirty = bit_or d.sync_dirty mask }

unfoldable pub mark_scope : DirtyTracker → ℕ → ℕ → DirtyTracker
mark_scope d scope mask =
    if mask == 0
    then d
    else let e = if for_persist scope then mark_persist d mask else d in
      if for_sync scope then mark_sync e mask else e

unfoldable pub has_persist_dirty : DirtyTracker → Bool
has_persist_dirty d = not (d.persist_dirty == 0)

unfoldable pub has_sync_dirty : DirtyTracker → Bool
has_sync_dirty d = not (d.sync_dirty == 0)

-- With the mask that is taken.
unfoldable pub take_persist_dirty : DirtyTracker → DirtyTracker × ℕ
take_persist_dirty d = (record d { persist_dirty = 0 }, d.persist_dirty)

unfoldable pub take_sync_dirty : DirtyTracker → DirtyTracker × ℕ
take_sync_dirty d = (record d { sync_dirty = 0 }, d.sync_dirty)

unfoldable pub rollback_persist : DirtyTracker → ℕ → DirtyTracker
rollback_persist d mask = mark_persist d mask

unfoldable pub rollback_sync : DirtyTracker → ℕ → DirtyTracker
rollback_sync d mask = mark_sync d mask

unfoldable pub dirty : DirtyTracker → Bool
dirty d = has_persist_dirty d || has_sync_dirty d

unfoldable pub self_clean : DirtyTracker → DirtyTracker
self_clean d = record d { persist_dirty = 0; sync_dirty = 0 }

unfoldable pub inc_version : DirtyTracker → DirtyTracker
inc_version d = record d { version = (d.version + 1) % 2 ^ 64 }

unfoldable pub inc_sync_version : DirtyTracker → DirtyTracker
inc_sync_version d = record d { sync_version = (d.sync_version + 1) % 2 ^ 64 }

unfoldable pub set_version : DirtyTracker → ℕ → DirtyTracker
set_version d v = record d { version = v; persist_dirty = 0; sync_dirty = 0 }

-- `Restore` of a `Snapshot`, which has the same fields.
unfoldable pub restore : DirtyTracker → DirtyTracker → DirtyTracker
restore d snapshot = snapshot
