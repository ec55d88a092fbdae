-- ===== src/Lock/ReentrantMutex.antt =====
-- lock/reentrant_mutex.go: `ReentrantMutex`. What a goroutine does between `rm.mu.Lock()` and
-- `rm.mu.Unlock()` is one step, so the goroutines interleave at the loops. The identifier of a goroutine
-- is a positive number, as `misc.GoID` gives it. The counter is an `int32`, kept as the number below
-- 2^32 of its bits; a panic of `Unlock` is an answer. The clock is the input `expired`.
pub mod Exclusion
mod Examples
use cube_core.Base.{
  ℕ, ◌+◌, ◌-◌, ◌%◌, ◌^◌, Bool, true, false, not, List, [], ◌∷◌, ltb, leb, ◌==◌, if◌then◌else◌,
}

pub record Mutex : Type 0 where
  pub owner : ℕ
  pub recursion : ℕ

abbrev pub new_mutex : Mutex
new_mutex = record { owner = 0; recursion = 0 }

-- What a call answers: it holds the lock, it goes on waiting, it gave up, it released, it panicked.
pub data Answer : Type 0 where
  holds : Answer
  spins : Answer
  gives_up : Answer
  released : Answer
  panics_unowned : Answer
  panics_unlocked : Answer

unfoldable pub reenter : Mutex → Mutex × Answer
reenter m = (record m { recursion = (m.recursion + 1) % 2 ^ 32 }, holds)

unfoldable pub take_free : ℕ → Mutex × Answer
take_free gid = (record { owner = gid; recursion = 1 }, holds)

-- `Lock` up to its loop.
unfoldable pub lock_enter : ℕ → Mutex → Mutex × Answer
lock_enter gid m =
    if m.owner == gid then reenter m else if m.owner == 0 then take_free gid else (m, spins)

-- One more look of the loop of `Lock`.
unfoldable pub lock_again : ℕ → Mutex → Mutex × Answer
lock_again gid m = if m.owner == 0 then take_free gid else (m, spins)

unfoldable pub try_lock : ℕ → Mutex → Mutex × Answer
try_lock gid m =
    if m.owner == gid then reenter m else if m.owner == 0 then take_free gid else (m, gives_up)

-- `LockWithTimeout` up to its loop; a timeout of 0 stands for all up to 0.
unfoldable pub timeout_enter : ℕ → ℕ → Mutex → Mutex × Answer
timeout_enter gid timeout m =
    if timeout == 0
    then try_lock gid m
    else if m.owner == gid
    then reenter m
    else if m.owner == 0
    then take_free gid
    else (m, spins)

-- The loop's look at the clock, while the lock is taken by another.
unfoldable pub timeout_check : Bool → Mutex → Mutex × Answer
timeout_check expired m = if expired then (m, gives_up) else (m, spins)

-- The loop after its sleep.
unfoldable pub timeout_again : ℕ → Mutex → Mutex × Answer
timeout_again gid m =
    if m.owner == gid then reenter m else if m.owner == 0 then take_free gid else (m, spins)

unfoldable pub unlock : ℕ → Mutex → Mutex × Answer
unlock gid m =
    if not (m.owner == gid)
    then (m, panics_unowned)
    else let recursion = (m.recursion + (2 ^ 32 - 1)) % 2 ^ 32 in
      if leb (2 ^ 31) recursion
      then (record m { recursion = recursion }, panics_unlocked)
      else if recursion == 0
      then (record { owner = 0; recursion = recursion }, released)
      else (record m { recursion = recursion }, released)

-- A step of a goroutine.
pub data Move : Type 0 where
  enters : Move
  looks : Move
  tries : Move
  enters_for : ℕ → Move
  checks : Bool → Move
  looks_timed : Move
  unlocks : Move

unfoldable pub move : ℕ → Move → Mutex → Mutex × Answer
move gid enters m = lock_enter gid m
move gid looks m = lock_again gid m
move gid tries m = try_lock gid m
move gid (enters_for timeout) m = timeout_enter gid timeout m
move gid (checks expired) m = timeout_check expired m
move gid looks_timed m = timeout_again gid m
move gid unlocks m = unlock gid m

-- The mutex with a record of how many calls of each goroutine hold it.
pub record World : Type 0 where
  pub mutex : Mutex
  pub depth : ℕ → ℕ

unfoldable pub note : ℕ → Answer → (ℕ → ℕ) → ℕ → ℕ
note gid holds depth u = if u == gid then depth u + 1 else depth u
note gid spins depth u = depth u
note gid gives_up depth u = depth u
note gid released depth u = if u == gid then depth u - 1 else depth u
note gid panics_unowned depth u = depth u
note gid panics_unlocked depth u = depth u

unfoldable pub step : World → ℕ × Move → World
step w (gid, what) =
    let (m, answer) = move gid what w.mutex in record { mutex = m; depth = note gid answer w.depth }

unfoldable pub run : World → List (ℕ × Move) → World
run w [] = w
run w (c ∷ cs) = run (step w c) cs

abbrev pub start : World
start = record { mutex = new_mutex; depth = λ u. 0 }
