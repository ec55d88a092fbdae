-- ===== src/Entity/Ids/Generator.antt =====
-- entity/idgen.go: `IDGen`, which goroutines call at the same time without a lock. A step of a goroutine
-- is one atomic operation, so a schedule is the list of the goroutines in the order of their steps. The
-- allocator of blocks is a parameter: the reply to its n-th call, or none for a nil function.
pub mod Invariant
pub mod Safety
use cube_core.Base.{
  ℕ, ◌+◌, ◌-◌, ◌*◌, ◌^◌, Bool, true, false, List, [], ◌∷◌, Option, none, some, ltb, ◌==◌,
  if◌then◌else◌,
}
use cube_core.Base.Results.{Result, ok, err}

pub data GenError : Type 0 where
  invalid_block_no : GenError
  block_exhausted : GenError
  allocator_failed : GenError

abbrev pub Allocator : Type 0
Allocator = Option (ℕ → Result GenError ℕ)

abbrev pub block_size : ℕ
block_size = 2 ^ 20

abbrev pub max_block_no : ℕ
max_block_no = 2 ^ 31 - 1

-- Where a goroutine stands in `Generate` and `rotateBlock`, with its local variables.
pub data Pc : Type 0 where
  top : Pc
  loaded_next : ℕ → Pc
  loaded_both : ℕ → ℕ → Pc
  rotates : Pc
  acquired : Pc
  granted : ℕ → Pc
  stored_next : ℕ → Pc
  finishes : Pc
  waits : Pc

-- The generator and its goroutines, with the numbers it gave out, the latest first.
pub record World : Type 0 where
  pub next : ℕ
  pub end : ℕ
  pub rotating : Bool
  pub calls : ℕ
  pub threads : ℕ → Pc
  pub issued : List ℕ

unfoldable pub block_start : ℕ → ℕ
block_start block = if block == 0 then 1 else block * block_size

unfoldable pub block_end : ℕ → ℕ
block_end block = block * block_size + block_size

-- `NewIDGen`, before any goroutine runs.
unfoldable pub fresh : ℕ → World
fresh block = record {
  next = block_start block;
  end = block_end block;
  rotating = false;
  calls = 0;
  threads = λ t. top;
  issued = [];
}

unfoldable pub new_id_gen : ℕ → Result GenError World
new_id_gen block = if ltb max_block_no block then err invalid_block_no else ok (fresh block)

unfoldable pub move_to : ℕ → Pc → World → World
move_to t pc w = record w { threads = λ u. if u == t then pc else w.threads u }

-- One atomic operation of a goroutine. An error that `Generate` returns brings it back to the top, for
-- its next call, as the number that it returns does.
unfoldable pub step_at : Allocator → ℕ → Pc → World → World
step_at source t top w = move_to t (loaded_next w.next) w
step_at source t (loaded_next n) w = move_to t (loaded_both n w.end) w
step_at source t (loaded_both n e) w =
    if ltb n e
    then if w.next == n
      then move_to t top (record w { next = n + 1; issued = n ∷ w.issued })
      else move_to t top w
    else move_to t rotates w
step_at source t rotates w = elim source [
  | none ↦ move_to t top w
  | some acquire ↦
      if w.rotating then move_to t waits w else move_to t acquired (record w { rotating = true })
]
step_at source t acquired w = elim source [
  | none ↦ w
  | some acquire ↦
      let called = record w { calls = w.calls + 1 } in
      elim (acquire w.calls) [
        | err e ↦ move_to t finishes called
        | ok block ↦
            if ltb max_block_no block
            then move_to t finishes called
            else move_to t (granted block) called
      ]
]
step_at source t (granted block) w =
    move_to t (stored_next block) (record w { next = block_start block })
step_at source t (stored_next block) w = move_to t finishes (record w { end = block_end block })
step_at source t finishes w = move_to t top (record w { rotating = false })
step_at source t waits w = if w.rotating then w else move_to t top w

unfoldable pub step : Allocator → World → ℕ → World
step source w t = step_at source t (w.threads t) w

unfoldable pub run : Allocator → World → List ℕ → World
run source w [] = w
run source w (t ∷ ts) = run source (step source w t) ts
