-- ===== src/Lock/ReentrantMutex/Examples.antt =====
-- Two goroutines: the first takes the lock twice while the second waits.
use cube_core.Base.{ℕ, ◌<◌, ◌≡◌, refl, List, [], ◌∷◌, arith}
use cube_core.Lock.ReentrantMutex.{
  lock_enter, take_free, try_lock, reenter, lock_again, step, move, unlocks, looks, tries,
  panics_unowned, enters, released, Move, run, start, unlock,
}
use cube_core.Lock.ReentrantMutex.Exclusion.{run-exclusion}

abbrev moves : List (ℕ × Move)
moves =
    (1, enters)
    ∷ (2, enters)
    ∷ (1, tries)
    ∷ (2, looks)
    ∷ (1, unlocks)
    ∷ (2, looks)
    ∷ (1, unlocks)
    ∷ (2, looks)
    ∷ []

run-exclusion_example :
    ((g h : ℕ) → 0 < (run start moves).depth g → 0 < (run start moves).depth h → g ≡ h)
    × ((g : ℕ) → 0 < (run start moves).depth g → (unlock g (run start moves).mutex).1 ≡ released)
    × ((g : ℕ)
        → 0 < g
        → (run start moves).depth g ≡ 0
        → unlock g (run start moves).mutex ≡ ((run start moves).mutex, panics_unowned))
    × (((g : ℕ) → (run start moves).depth g ≡ 0) → (run start moves).mutex.owner ≡ 0)
run-exclusion_example =
    run-exclusion moves
      (
        omega arith,
        (
          omega arith,
          (
            omega arith,
            (omega arith, (omega arith, (omega arith, (omega arith, (omega arith, tt))))),
          ),
        ),
      )
      (omega arith)

second_holds : (run start moves).mutex ≡ record { owner = 2; recursion = 1 }
unfolding run step move lock_again unlock try_lock lock_enter take_free reenter
second_holds = refl
