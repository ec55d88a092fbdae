-- ===== src/Entity/Ids/Examples.antt =====
-- A kind that becomes remote, and two goroutines that take numbers.
use cube_core.Base.Maps.{put, find}
use cube_core.Base.{ℕ, ◌+◌, ◌^◌, ◌≡◌, refl, false, List, [], ◌∷◌, some, arith}
use cube_core.Base.Results.{ok}
use cube_core.Entity.Kinds.{
  remote_capable, resolve_category, kind_policy, is_remote_capable, register_definition,
  register_policy, register_definitions, empty_registry,
}
use cube_core.Entity.Kinds.Growth.{defines, builds, register, Registration, register_in_turn}
use cube_core.Entity.Ids.{make_entity_id, build_with_category, build_entity_id}
use cube_core.Entity.Ids.Roundtrip.{IsIdOf, build_entity_id_lem}
use cube_core.Entity.Ids.Generator.{
  new_id_gen, block_end, block_start, step_at, step, move_to, Allocator, run, fresh,
}
use cube_core.Entity.Ids.Generator.Invariant.{Below}
use cube_core.Entity.Ids.Generator.Safety.{Growing, reply, run-issued}

abbrev before : List Registration
before = defines (record { kind = 7; category = 1; remote_policy = 0 } ∷ []) ∷ []

abbrev after : List Registration
after =
    builds (record { category = 1; kind = 7; no_persist = false; remote_policy = 2; lifetime = 0 })
    ∷ []

-- 5 * 1024 + 7 * 4 + 1
build_entity_id_lem_example :
    (category : ℕ) × IsIdOf
      (register_in_turn empty_registry before)
      (register_in_turn (register_in_turn empty_registry before) after)
      5149
      5
      7
      category
unfolding build_entity_id register_in_turn resolve_category find register register_definitions
    register_definition register_policy put build_with_category make_entity_id is_remote_capable
    remote_capable kind_policy
build_entity_id_lem_example = build_entity_id_lem before after 5 7 5149 refl

-- The n-th reply is block n + 1.
abbrev counter : Allocator
counter = some (λ n. ok (n + 1))

schedule : List ℕ
schedule = 0 ∷ 1 ∷ 0 ∷ 1 ∷ 0 ∷ 1 ∷ 1 ∷ 1 ∷ 1 ∷ []

counter-Growing : Growing counter
unfolding reply
counter-Growing n m a b lt e f = ground (arith, e, f, lt)

run-issued_example : Below (2 ^ 51) (run counter (fresh 0) schedule).issued
unfolding reply fresh new_id_gen
run-issued_example =
    run-issued counter counter-Growing 0 (fresh 0) schedule (λ n b e. ground (arith, e)) refl

two_issued : (run counter (fresh 0) schedule).issued ≡ 2 ∷ 1 ∷ []
unfolding run schedule step step_at fresh move_to block_start block_end
two_issued = refl
