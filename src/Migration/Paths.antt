-- ===== src/Migration/Paths.antt =====
-- Migrations of bytes end, and reach exactly their target.
use cube_core.Base.Keys.{nat_key}
use cube_core.Base.Bytes.{bytes_key, bytes_equal}
use cube_core.Base.{
  subst, ap, ◌∙◌, sym, if◌then◌else◌, ◌==◌, length, if_cases, ◌+◌, Bool-cases, ℕ, zero, suc, ◌-◌,
  ◌≤◌, ◌<◌, ◌≡◌, Bool, true, false, List, [], ◌∷◌, some, ltb, leb, arith, inl, inr, Option-cases,
}
use cube_core.Base.Results.{Result, ok, err, Result-cases}
use cube_core.Base.Maps.{Map, find, put, find-put}
use cube_core.Migration.{
  apply_failed, path_missing, cancelled_context, MigrationError, DaoStep, DaoRegistry, dao_steps_of,
  dao_step, register_dao, migrate_loop, migrate_dao,
}

-- The registrations one after another; a refused one changes nothing.
unfoldable pub register_daos : DaoRegistry → List DaoStep → DaoRegistry
register_daos r [] = r
register_daos r (s ∷ ss) = register_daos (register_dao r s).0 ss

-- Every step goes up from the version it is found at.
abbrev pub Rising : DaoRegistry → Type 0
Rising r =
    (collection : List ℕ) (from : ℕ) (s : DaoStep)
    → dao_step r collection from ≡ some s
    → (s.from ≡ from) × (from < s.to)

steps_of_put :
    (r : DaoRegistry) (collection c : List ℕ) (steps : Map ℕ DaoStep)
    → bytes_equal collection c ≡ true
    → dao_steps_of (put collection steps r) c ≡ steps
unfolding dao_steps_of
steps_of_put r collection c steps same =
    let whole = find-put collection c steps r in ground (arith, whole, same)

steps_of_other :
    (r : DaoRegistry) (collection c : List ℕ) (steps : Map ℕ DaoStep)
    → bytes_equal collection c ≡ false
    → dao_steps_of (put collection steps r) c ≡ dao_steps_of r c
unfolding dao_steps_of
steps_of_other r collection c steps other =
    let whole = find-put collection c steps r in ground (arith, whole, other)

add-Rising :
    (r : DaoRegistry) (s : DaoStep)
    → Rising r
    → s.from < s.to
    → Rising (put s.collection (put s.from s (dao_steps_of r s.collection)) r)
unfolding dao_step
add-Rising r s v up c from t e =
    let steps = dao_steps_of r s.collection in
    elim (Bool-cases (bytes_equal s.collection c)) [
      | inl same ↦
          let found : (if s.from == from then some s else find from steps) ≡ some t =
            sym (find-put s.from from s steps)
            ∙ ap (find from) (sym (steps_of_put r s.collection c (put s.from s steps) same))
            ∙ e in
          elim (Bool-cases (s.from == from)) [
            | inl here ↦
                let made : s ≡ t = ground (arith, found, here) in
                subst (λ (x : DaoStep). (x.from ≡ from) × (from < x.to)) made
                  (ground (arith, here), ground (arith, here, up))
            | inr other ↦ v s.collection from t (ground (arith, found, other))
          ]
      | inr other ↦
          v c from t
            (ap (find from) (sym (steps_of_other r s.collection c (put s.from s steps) other)) ∙ e)
    ]

register_dao-Rising : (r : DaoRegistry) (s : DaoStep) → Rising r → Rising (register_dao r s).0
unfolding register_dao
register_dao-Rising r s v =
    if_cases (λ (x : DaoRegistry × Result MigrationError (Unit {0})). Rising x.0)
      (length s.collection == 0) (λ a. v)
      λ named.
        if_cases (λ (x : DaoRegistry × Result MigrationError (Unit {0})). Rising x.0)
          (leb s.to s.from) (λ a. v)
          λ up. elim (Option-cases (dao_step r s.collection s.from)) [
            | inr (old, e) ↦ rw (e, register_dao) v
            | inl e ↦ rw (e, register_dao) (add-Rising r s v (ground arith))
          ]

-- What a migration answers: success exactly at the target, and an error between start and target.
abbrev pub Ends : ℕ → ℕ → Result MigrationError (List ℕ) × ℕ → Type 0
Ends cur target (ok out, reached) = reached ≡ target
Ends cur target (err e, reached) = (cur ≤ reached) × (reached < target)

Ends-later :
    (cur later target : ℕ) (answer : Result MigrationError (List ℕ) × ℕ)
    → cur ≤ later
    → Ends later target answer
    → Ends cur target answer
Ends-later cur later target (ok out, reached) le e = e
Ends-later cur later target (err why, reached) le e = (omega (arith, le, e.0), e.1)

module _ (cancelled : ℕ → Bool) (r : DaoRegistry) (v : Rising r) (collection : List ℕ)
    (target : ℕ) where
  migrate_loop-Ends :
      (fuel n cur : ℕ) (out : List ℕ)
      → cur ≤ target
      → target ≤ fuel + cur
      → (answer : Result MigrationError (List ℕ) × ℕ) × (migrate_loop fuel cancelled r collection
            target n cur out
          ≡ some answer)
        × Ends cur target answer
  unfolding migrate_loop
  migrate_loop-Ends zero n cur out le enough = ((ok out, cur), ground arith, omega arith)
  migrate_loop-Ends (suc fuel) n cur out le enough = elim (Bool-cases (ltb cur target)) [
    | inr done ↦ ((ok out, cur), ground (arith, done), ground (arith, done))
    | inl more ↦ elim (Bool-cases (cancelled n)) [
      | inl stop ↦ (
        (err cancelled_context, cur),
        ground (arith, more, stop),
        (omega arith, ground (arith, more)),
      )
      | inr go ↦ elim (Option-cases (dao_step r collection cur)) [
        | inl e ↦ (
          (err path_missing, cur),
          ground (arith, more, go, e),
          (omega arith, ground (arith, more)),
        )
        | inr (s, e) ↦
            let up = v collection cur s e in
            elim (Bool-cases (ltb target s.to)) [
              | inl over ↦ (
                (err path_missing, cur),
                ground (arith, more, go, e, over),
                (omega arith, ground (arith, more)),
              )
              | inr fits ↦ elim (Result-cases (s.apply out)) [
                | inr (why, f) ↦ (
                  (err apply_failed, cur),
                  ground (arith, more, go, e, fits, f),
                  (omega arith, ground (arith, more)),
                )
                | inl (next, f) ↦
                    let (answer, rest, ends) =
                      migrate_loop-Ends fuel (suc n) s.to next (ground (arith, fits))
                        (omega (arith, up.1, enough)) in
                    (
                      answer,
                      ground (arith, more, go, e, fits, f, rest),
                      Ends-later cur s.to target answer (omega (arith, up.1)) ends,
                    )
              ]
            ]
      ]
    ]
  ]

pub empty-Rising : Rising []
unfolding dao_step dao_steps_of find
empty-Rising c from s e = absurd (cc e)

pub register_daos-Rising :
    (r : DaoRegistry) (ss : List DaoStep) → Rising r → Rising (register_daos r ss)
unfolding register_daos
register_daos-Rising r [] v = v
register_daos-Rising r (s ∷ ss) v =
    register_daos-Rising (register_dao r s).0 ss (register_dao-Rising r s v)

-- With the steps that a registry accepted, the loop of a migration ends within as many rounds as there are
-- versions to climb, whatever the steps do and whenever the context is cancelled. Where the migration
-- succeeds it stands exactly at the target, and where it fails it stands at or above its start and below
-- the target.
pub migrate_dao-Ends :
    (steps : List DaoStep) (cancelled : ℕ → Bool) (collection raw : List ℕ) (from target : ℕ)
    → 0 < length collection
    → from ≤ target
    → (answer : Result MigrationError (List ℕ) × ℕ) × (migrate_dao cancelled
          (register_daos [] steps)
          collection
          raw
          from
          target
        ≡ some answer)
      × Ends from target answer
unfolding migrate_dao
migrate_dao-Ends steps cancelled collection raw from target named up =
    let r = register_daos [] steps in
    let (answer, made, ends) =
      migrate_loop-Ends cancelled r (register_daos-Rising [] steps empty-Rising) collection target
        (target - from) 0 from raw up (omega (arith, up)) in
    (answer, ground (arith, made, named, up), ends)
