-- ===== src/Migration/Examples.antt =====
-- Two steps of a collection, from 1 to 3 and from 3 to 4.
use cube_core.Base.Maps.{put, find}
use cube_core.Base.Bytes.{bytes_equal}
use cube_core.Base.{ℕ, ◌≡◌, refl, List, [], ◌∷◌, ◌++◌, some, arith}
use cube_core.Base.Results.{Result, ok}
use cube_core.Migration.{
  migrate_loop, dao_step, register_dao, dao_steps_of, MigrationError, DaoStep, migrate_dao,
}
use cube_core.Migration.Paths.{Ends, register_daos, migrate_dao-Ends}
use cube_core.Migration.Cuts.{never, migrate_dao-split}

abbrev steps : List DaoStep
steps =
    record { collection = 104 ∷ []; from = 1; to = 3; apply = λ raw. ok (raw ++ 1 ∷ []) }
    ∷ record { collection = 104 ∷ []; from = 3; to = 4; apply = λ raw. ok (raw ++ 2 ∷ []) }
    ∷ []

migrate_dao-Ends_example :
    (answer : Result MigrationError (List ℕ) × ℕ) × (migrate_dao never
        (register_daos [] steps)
        (104 ∷ [])
        (9 ∷ [])
        1
        4
      ≡ some answer)
    × Ends 1 4 answer
migrate_dao-Ends_example =
    migrate_dao-Ends steps never (104 ∷ []) (9 ∷ []) 1 4 (omega arith) (omega arith)

migrate_dao-split_example :
    migrate_dao never (register_daos [] steps) (104 ∷ []) (9 ∷ []) 1 4
    ≡ migrate_dao never (register_daos [] steps) (104 ∷ []) (9 ∷ 1 ∷ []) 3 4
unfolding migrate_dao migrate_loop dao_step find dao_steps_of register_daos register_dao put
    bytes_equal
migrate_dao-split_example =
    migrate_dao-split steps (104 ∷ []) (9 ∷ []) (9 ∷ 1 ∷ []) 1 3 4 (omega arith) (omega arith) refl

both_steps :
    migrate_dao never (register_daos [] steps) (104 ∷ []) (9 ∷ []) 1 4
    ≡ some (ok (9 ∷ 1 ∷ 2 ∷ []), 4)
unfolding migrate_dao migrate_loop dao_step find dao_steps_of register_daos register_dao put
    bytes_equal
both_steps = refl
