-- ===== src/Entity/SubjectSync/Marks.antt =====
-- What the marks of an entity do to its content state.
use cube_core.Base.Bits.{bit_or-eq-zero}
use cube_core.Base.{
  ◌||◌, not, ◌==◌, if◌then◌else◌, true, ℕ, ◌+◌, ◌<◌, ◌^◌, ◌%◌, ◌≡◌, arith, List, [], ◌∷◌,
}
use cube_core.Entity.SubjectSync.{SubjectSyncState, mark_dirty, mark_full_dirty, pending_dirty}

-- The calls by which an entity reports changes.
pub data Mark : Type 0 where
  bits : ℕ → Mark
  whole : ℕ → Mark

unfoldable pub mark : SubjectSyncState → Mark → SubjectSyncState
mark s (bits mask) = (mark_dirty s mask).0
mark s (whole reason) = (mark_full_dirty s reason).0

unfoldable pub marks : SubjectSyncState → List Mark → SubjectSyncState
marks s [] = s
marks s (m ∷ ms) = marks (mark s m) ms

-- A mark of no bits is none.
unfoldable pub counted : List Mark → ℕ
counted [] = 0
counted (bits mask ∷ ms) = if mask == 0 then counted ms else counted ms + 1
counted (whole reason ∷ ms) = counted ms + 1

-- What marks leave alone, and how they count.
pub marks_fields :
    (s : SubjectSyncState) (ms : List Mark)
    → s.enabled ≡ true
    → ((marks s ms).enabled ≡ true)
      × ((marks s ms).version ≡ s.version)
      × ((marks s ms).inflight_token ≡ s.inflight_token)
      × ((marks s ms).dirty_generation % 2 ^ 64 ≡ (s.dirty_generation + counted ms) % 2 ^ 64)
unfolding marks mark counted mark_dirty mark_full_dirty
marks_fields s [] on = ground arith
marks_fields s (bits mask ∷ ms) on = ground (arith, marks_fields (mark s (bits mask)) ms)
marks_fields s (whole reason ∷ ms) on = ground (arith, marks_fields (mark s (whole reason)) ms)

-- A mark leaves something pending, whatever was pending before.
mark-pending :
    (s : SubjectSyncState) (m : Mark)
    → s.enabled ≡ true
    → pending_dirty (mark s m) ≡ not (counted (m ∷ []) == 0) || pending_dirty s
unfolding mark counted mark_dirty mark_full_dirty pending_dirty
mark-pending s (bits mask) on = ground (arith, bit_or-eq-zero s.dirty_mask mask)
mark-pending s (whole reason) on = ground arith

pub marks-pending :
    (s : SubjectSyncState) (ms : List Mark)
    → s.enabled ≡ true
    → pending_dirty (marks s ms) ≡ not (counted ms == 0) || pending_dirty s
unfolding marks counted
marks-pending s [] on = ground arith
marks-pending s (bits mask ∷ ms) on = ground (
  arith,
  marks-pending (mark s (bits mask)) ms,
  mark-pending s (bits mask) on,
  marks_fields s (bits mask ∷ []) on,
)
marks-pending s (whole reason ∷ ms) on = ground (
  arith,
  marks-pending (mark s (whole reason)) ms,
  mark-pending s (whole reason) on,
  marks_fields s (whole reason ∷ []) on,
)

pub marks-range :
    (s : SubjectSyncState) (ms : List Mark)
    → s.dirty_generation < 2 ^ 64
    → (marks s ms).dirty_generation < 2 ^ 64
unfolding marks mark mark_dirty mark_full_dirty
marks-range s [] range = range
marks-range s (bits mask ∷ ms) range = marks-range (mark s (bits mask)) ms (ground arith)
marks-range s (whole reason ∷ ms) range = marks-range (mark s (whole reason)) ms (ground arith)
