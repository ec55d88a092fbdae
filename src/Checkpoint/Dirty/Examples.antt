-- ===== src/Checkpoint/Dirty/Examples.antt =====
-- A mark between the taking of a mask and its rollback.
use cube_core.Base.Bits.{has_bit}
use cube_core.Base.{refl, ◌↔◌, List, ℕ, ◌≡◌, false, [], ◌∷◌}
use cube_core.Checkpoint.Dirty.{
  has_sync_dirty, has_persist_dirty, rollback_persist, take_sync_dirty, mark_sync,
  take_persist_dirty, mark_persist, mark_scope, DirtyTracker,
}
use cube_core.Checkpoint.Dirty.Pending.{
  Call, step, run, shown, marks, takes_persist, takes_sync, rolls_back_persist, run-flags,
  flags_after,
}

abbrev clean : DirtyTracker
clean = record { persist_dirty = 0; sync_dirty = 0; version = 3; sync_version = 1 }

abbrev calls : List Call
calls = marks 3 5 ∷ takes_persist ∷ marks 1 2 ∷ takes_sync ∷ rolls_back_persist 5 ∷ []

run-flags_example :
    ((i : ℕ)
      → (has_bit i (take_persist_dirty (run clean calls)).1
          ≡ (flags_after i (shown i clean) calls).0)
        × (has_bit i (take_sync_dirty (run clean calls)).1
            ≡ (flags_after i (shown i clean) calls).1)
        × (shown i (run clean calls) ≡ flags_after i (shown i clean) calls))
    × ((has_persist_dirty (run clean calls) ≡ false)
        ↔ ((i : ℕ) → (flags_after i (shown i clean) calls).0 ≡ false))
    × ((has_sync_dirty (run clean calls) ≡ false)
        ↔ ((i : ℕ) → (flags_after i (shown i clean) calls).1 ≡ false))
run-flags_example = run-flags clean calls

-- The rollback joins the mark that came after the taking.
taken : (take_persist_dirty (run clean calls)).1 ≡ 7
unfolding run step mark_scope mark_persist mark_sync take_persist_dirty take_sync_dirty
    rollback_persist
taken = refl
