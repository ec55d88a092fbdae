-- ===== src/Migration.antt =====
-- migration/migration.go: steps between versions of stored data, for live objects (`Registry`) and for
-- the bytes of a collection (`DAORegistry`). The functions of the steps are the application's. A step's
-- name, which only errors show, nil receivers and nil functions are left out; a version is a natural
-- number, since `Register` refuses a negative one. The n-th check of the context finds it `cancelled n`.
-- The loops take fuel and answer `none` without it.
pub mod Paths
pub mod Cuts
pub mod Live
mod Examples
use cube_core.Base.{
  ℕ, zero, suc, ◌-◌, Bool, true, false, List, [], ◌∷◌, Option, none, some, length, ltb, leb, ◌==◌,
  if◌then◌else◌,
}
use cube_core.Base.Results.{Result, ok, err}
use cube_core.Base.Maps.{Map, find, put}
use cube_core.Base.Keys.{nat_key}
use cube_core.Base.Bytes.{bytes_key}

pub data MigrationError : Type 0 where
  step_invalid : MigrationError
  path_missing : MigrationError
  cancelled_context : MigrationError
  apply_failed : MigrationError

-- `Apply` changes its object in place, also where it fails.
pub record Step (D : Type 0) : Type 0 where
  pub from : ℕ
  pub to : ℕ
  pub apply : D → D × Result MigrationError (Unit {0})

abbrev pub Registry : Type 0 → Type 0
Registry D = Map ℕ (Step D)

pub record DaoStep : Type 0 where
  pub collection : List ℕ
  pub from : ℕ
  pub to : ℕ
  pub apply : List ℕ → Result MigrationError (List ℕ)

abbrev pub DaoRegistry : Type 0
DaoRegistry = Map (List ℕ) (Map ℕ DaoStep)

unfoldable pub register_step :
    {D : Type 0} → Registry D → Step D → Registry D × Result MigrationError (Unit {0})
register_step r s =
    if leb s.to s.from
    then (r, err step_invalid)
    else elim (find s.from r) [ some old ↦ (r, err step_invalid) | none ↦ (put s.from s r, ok tt) ]

-- The step of a collection from a version.
unfoldable pub dao_steps_of : DaoRegistry → List ℕ → Map ℕ DaoStep
dao_steps_of r collection = elim (find collection r) [ none ↦ [] | some steps ↦ steps ]

unfoldable pub dao_step : DaoRegistry → List ℕ → ℕ → Option DaoStep
dao_step r collection from = find from (dao_steps_of r collection)

unfoldable pub register_dao : DaoRegistry → DaoStep → DaoRegistry × Result MigrationError (Unit {0})
register_dao r s =
    if length s.collection == 0
    then (r, err step_invalid)
    else if leb s.to s.from
    then (r, err step_invalid)
    else elim (dao_step r s.collection s.from) [
      | some old ↦ (r, err step_invalid)
      | none ↦ (put s.collection (put s.from s (dao_steps_of r s.collection)) r, ok tt)
    ]

-- The loop of `RunFrom`, from the n-th check of the context on.
module _ {D : Type 0} (set_data_version : ℕ → D → D) (cancelled : ℕ → Bool) where
  unfoldable pub run_loop :
      ℕ → Registry D → ℕ → ℕ → ℕ → D → Option (D × Result MigrationError (Unit {0}))
  run_loop zero r target n cur subject = if ltb cur target then none else some (subject, ok tt)
  run_loop (suc fuel) r target n cur subject =
      if ltb cur target
      then if cancelled n then some (subject, err cancelled_context) else elim (find cur r) [
        | none ↦ some (subject, err path_missing)
        | some s ↦
            if ltb target s.to
            then some (subject, err path_missing)
            else let (subject', result) = s.apply subject in
              elim result [
                | err e ↦ some (subject', err apply_failed)
                | ok u ↦ run_loop fuel r target (suc n) s.to (set_data_version s.to subject')
              ]
      ]
      else some (subject, ok tt)

  unfoldable pub run_from : Registry D → D → ℕ → ℕ → Option (D × Result MigrationError (Unit {0}))
  run_from r subject from target =
      if ltb target from
      then some (subject, err step_invalid)
      else run_loop (target - from) r target 0 from subject

-- The loop of `MigrateDAO`, which answers with the version that was reached.
unfoldable pub migrate_loop :
    ℕ
    → (ℕ → Bool)
    → DaoRegistry
    → List ℕ
    → ℕ
    → ℕ
    → ℕ
    → List ℕ
    → Option (Result MigrationError (List ℕ) × ℕ)
migrate_loop zero cancelled r collection target n cur out =
    if ltb cur target then none else some (ok out, cur)
migrate_loop (suc fuel) cancelled r collection target n cur out =
    if ltb cur target
    then if cancelled n
      then some (err cancelled_context, cur)
      else elim (dao_step r collection cur) [
        | none ↦ some (err path_missing, cur)
        | some s ↦ if ltb target s.to then some (err path_missing, cur) else elim (s.apply out) [
          | err e ↦ some (err apply_failed, cur)
          | ok next ↦ migrate_loop fuel cancelled r collection target (suc n) s.to next
        ]
      ]
    else some (ok out, cur)

unfoldable pub migrate_dao :
    (ℕ → Bool) → DaoRegistry → List ℕ → List ℕ → ℕ → ℕ → Option (Result MigrationError (List ℕ) × ℕ)
migrate_dao cancelled r collection raw from target =
    if length collection == 0
    then some (err step_invalid, from)
    else if ltb target from
    then some (err step_invalid, from)
    else migrate_loop (target - from) cancelled r collection target 0 from raw
