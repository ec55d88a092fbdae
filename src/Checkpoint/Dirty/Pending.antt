-- ===== src/Checkpoint/Dirty/Pending.antt =====
-- What a tracker has pending, after any calls.
use cube_core.Base.{
  sym, ◌↔◌, ℕ, ◌≡◌, Bool, false, not, ◌&&◌, ◌||◌, List, [], ◌∷◌, ◌==◌, arith, ◌∙◌, ap, refl,
}
use cube_core.Base.Bits.{has_bit, has_bit-bit_or, has_bit-zero, eq-zero_of_bits}
use cube_core.Checkpoint.Dirty.{
  DirtyTracker, for_persist, for_sync, mark_persist, mark_sync, mark_scope, has_persist_dirty,
  has_sync_dirty, take_persist_dirty, take_sync_dirty, rollback_persist, rollback_sync, self_clean,
  inc_version, inc_sync_version, set_version, restore,
}

-- The calls that change a tracker.
pub data Call : Type 0 where
  marks : ℕ → ℕ → Call
  takes_persist takes_sync cleans : Call
  rolls_back_persist rolls_back_sync sets_version : ℕ → Call
  increases increases_sync : Call
  restores : DirtyTracker → Call

unfoldable pub step : DirtyTracker → Call → DirtyTracker
step d (marks scope mask) = mark_scope d scope mask
step d takes_persist = (take_persist_dirty d).0
step d takes_sync = (take_sync_dirty d).0
step d cleans = self_clean d
step d (rolls_back_persist mask) = rollback_persist d mask
step d (rolls_back_sync mask) = rollback_sync d mask
step d (sets_version v) = set_version d v
step d increases = inc_version d
step d increases_sync = inc_sync_version d
step d (restores snapshot) = restore d snapshot

unfoldable pub run : DirtyTracker → List Call → DirtyTracker
run d [] = d
run d (c ∷ cs) = run (step d c) cs

-- What is pending of one field as two flags: to be written, and to be sent.
unfoldable pub flags : ℕ → Bool × Bool → Call → Bool × Bool
flags i (w, s) (marks scope mask) =
    (w || (for_persist scope && has_bit i mask), s || (for_sync scope && has_bit i mask))
flags i (w, s) takes_persist = (false, s)
flags i (w, s) takes_sync = (w, false)
flags i (w, s) cleans = (false, false)
flags i (w, s) (rolls_back_persist mask) = (w || has_bit i mask, s)
flags i (w, s) (rolls_back_sync mask) = (w, s || has_bit i mask)
flags i (w, s) (sets_version v) = (false, false)
flags i (w, s) increases = (w, s)
flags i (w, s) increases_sync = (w, s)
flags i (w, s) (restores snapshot) =
    (has_bit i snapshot.persist_dirty, has_bit i snapshot.sync_dirty)

unfoldable pub flags_after : ℕ → Bool × Bool → List Call → Bool × Bool
flags_after i f [] = f
flags_after i f (c ∷ cs) = flags_after i (flags i f c) cs

abbrev pub shown : ℕ → DirtyTracker → Bool × Bool
shown i d = (has_bit i d.persist_dirty, has_bit i d.sync_dirty)

shown-step : (i : ℕ) (d : DirtyTracker) (c : Call) → shown i (step d c) ≡ flags i (shown i d) c
unfolding step flags mark_scope mark_persist mark_sync take_persist_dirty take_sync_dirty self_clean
    rollback_persist rollback_sync set_version inc_version inc_sync_version restore
shown-step i d (marks scope mask) = ground (
  arith,
  has_bit-bit_or i d.persist_dirty mask,
  has_bit-bit_or i d.sync_dirty mask,
  has_bit-zero i,
)
shown-step i d takes_persist = ground (arith, has_bit-zero i)
shown-step i d takes_sync = ground (arith, has_bit-zero i)
shown-step i d cleans = ground (arith, has_bit-zero i)
shown-step i d (rolls_back_persist mask) =
    ground (arith, has_bit-bit_or i d.persist_dirty mask, has_bit-zero i)
shown-step i d (rolls_back_sync mask) =
    ground (arith, has_bit-bit_or i d.sync_dirty mask, has_bit-zero i)
shown-step i d (sets_version v) = ground (arith, has_bit-zero i)
shown-step i d increases = ground arith
shown-step i d increases_sync = ground arith
shown-step i d (restores snapshot) = ground arith

shown-run :
    (i : ℕ) (d : DirtyTracker) (cs : List Call) → shown i (run d cs) ≡ flags_after i (shown i d) cs
unfolding run flags_after
shown-run i d [] = refl
shown-run i d (c ∷ cs) = shown-run i (step d c) cs ∙ ap (λ f. flags_after i f cs) (shown-step i d c)

-- Whether a mask has any bit.
any_bit :
    (x : ℕ) (f : ℕ → Bool)
    → ((i : ℕ) → has_bit i x ≡ f i)
    → (not (x == 0) ≡ false) ↔ ((i : ℕ) → f i ≡ false)
any_bit x f h = (
  λ e i. sym (h i) ∙ ap (has_bit i) (ground (arith, e)) ∙ has_bit-zero i,
  λ k. let none : x ≡ 0 = eq-zero_of_bits x (λ i. h i ∙ k i) in ground (arith, none),
)

-- Whatever calls a tracker has served, one after the other, every field is told by two flags, to be
-- written and to be sent: set by a mark of that scope or a rollback with the field's bit in the mask,
-- cleared by taking the masks, by a clean and by a new version, copied by a restore, and touched by
-- nothing else. The mask that is taken then has the bits of exactly those fields, and the tracker says
-- that nothing is to be written, or nothing to be sent, exactly if no field has that flag.
pub run-flags :
    (d : DirtyTracker) (cs : List Call)
    → ((i : ℕ)
        → (has_bit i (take_persist_dirty (run d cs)).1 ≡ (flags_after i (shown i d) cs).0)
          × (has_bit i (take_sync_dirty (run d cs)).1 ≡ (flags_after i (shown i d) cs).1)
          × (shown i (run d cs) ≡ flags_after i (shown i d) cs))
      × ((has_persist_dirty (run d cs) ≡ false)
          ↔ ((i : ℕ) → (flags_after i (shown i d) cs).0 ≡ false))
      × ((has_sync_dirty (run d cs) ≡ false) ↔ ((i : ℕ) → (flags_after i (shown i d) cs).1 ≡ false))
unfolding take_persist_dirty take_sync_dirty has_persist_dirty has_sync_dirty
run-flags d cs = (
  λ i. (ap (λ f. f.0) (shown-run i d cs), ap (λ f. f.1) (shown-run i d cs), shown-run i d cs),
  any_bit (run d cs).persist_dirty _ (λ i. ap (λ f. f.0) (shown-run i d cs)),
  any_bit (run d cs).sync_dirty _ (λ i. ap (λ f. f.1) (shown-run i d cs)),
)
