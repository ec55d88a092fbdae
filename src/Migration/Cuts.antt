-- ===== src/Migration/Cuts.antt =====
-- A migration may be cut in two.
use cube_core.Base.Keys.{nat_key}
use cube_core.Base.Bytes.{bytes_key}
use cube_core.Base.{
  ◌∙◌, ◌==◌, length, ◌+◌, Bool-cases, ℕ, zero, suc, ◌-◌, ◌≤◌, ◌≡◌, refl, Bool, false, List, [],
  some, ltb, arith, inl, inr, Option-cases,
}
use mathlib.Core.Path.{ap₂}
use cube_core.Base.Results.{ok, Result-cases}
use cube_core.Migration.{DaoStep, DaoRegistry, dao_step, migrate_loop, migrate_dao}
use cube_core.Migration.Paths.{Rising, empty-Rising, register_daos, register_daos-Rising}

abbrev pub never : ℕ → Bool
never n = false

module _ (r : DaoRegistry) (v : Rising r) (collection : List ℕ) (target : ℕ) where
  -- Any two amounts of fuel that suffice give the same answer.
  same_answer :
      (fuel fuel' n n' cur : ℕ) (out : List ℕ)
      → target ≤ fuel + cur
      → target ≤ fuel' + cur
      → migrate_loop fuel never r collection target n cur out
        ≡ migrate_loop fuel' never r collection target n' cur out
  unfolding migrate_loop
  same_answer zero zero n n' cur out a b = refl
  same_answer zero (suc fuel') n n' cur out a b = ground (arith, a)
  same_answer (suc fuel) zero n n' cur out a b = ground (arith, b)
  same_answer (suc fuel) (suc fuel') n n' cur out a b = elim (Bool-cases (ltb cur target)) [
    | inr done ↦ ground (arith, done)
    | inl more ↦ elim (Option-cases (dao_step r collection cur)) [
      | inl e ↦ ground (arith, e)
      | inr (s, e) ↦
          let up = v collection cur s e in
          elim (Bool-cases (ltb target s.to)) [
            | inl over ↦ ground (arith, e, over)
            | inr fits ↦ elim (Result-cases (s.apply out)) [
              | inr (why, f) ↦ ground (arith, e, fits, f)
              | inl (next, f) ↦
                  let rest =
                    same_answer fuel fuel' (suc n) (suc n') s.to next (omega (arith, a, up.1))
                      (omega (arith, b, up.1)) in
                  ground (arith, e, fits, f, rest, more)
            ]
          ]
    ]
  ]

  already :
      (fuel fuel₂ n n' mid cur : ℕ) (raw out : List ℕ)
      → target ≤ fuel + cur
      → target ≤ fuel₂ + mid
      → cur ≡ mid
      → raw ≡ out
      → migrate_loop fuel never r collection target n cur raw
        ≡ migrate_loop fuel₂ never r collection target n' mid out
  already fuel fuel₂ n n' mid cur raw out a b here same =
      same_answer fuel fuel₂ n n' cur raw a (omega (arith, b, here))
      ∙ ap₂ (λ m xs. migrate_loop fuel₂ never r collection target n' m xs) here same

  migrate_loop-split :
      (fuel₁ fuel₂ fuel n n' mid cur : ℕ) (raw out : List ℕ)
      → mid ≤ target
      → cur ≤ mid
      → target ≤ fuel + cur
      → target ≤ fuel₂ + mid
      → migrate_loop fuel₁ never r collection mid n cur raw ≡ some (ok out, mid)
      → migrate_loop fuel never r collection target n cur raw
        ≡ migrate_loop fuel₂ never r collection target n' mid out
  unfolding migrate_loop
  migrate_loop-split zero fuel₂ fuel n n' mid cur raw out below le a b made =
      already fuel fuel₂ n n' mid cur raw out a b (ground (arith, made)) (ground (arith, made))
  migrate_loop-split (suc fuel₁) fuel₂ zero n n' mid cur raw out below le a b made =
      already zero fuel₂ n n' mid cur raw out a b (omega arith) (ground (arith, made))
  migrate_loop-split (suc fuel₁) fuel₂ (suc fuel) n n' mid cur raw out below le a b made =
      elim (Bool-cases (ltb cur mid)) [
        | inr done ↦
            already (suc fuel) fuel₂ n n' mid cur raw out a b (ground (arith, done))
              (ground (arith, done, made))
        | inl more ↦ elim (Option-cases (dao_step r collection cur)) [
          | inl e ↦ absurd (ground (arith, more, e, made))
          | inr (s, e) ↦
              let up = v collection cur s e in
              elim (Bool-cases (ltb mid s.to)) [
                | inl over ↦ absurd (ground (arith, more, e, over, made))
                | inr fits ↦ elim (Result-cases (s.apply raw)) [
                  | inr (why, f) ↦ absurd (ground (arith, more, e, fits, f, made))
                  | inl (next, f) ↦
                      let room : s.to ≤ mid = ground (arith, fits) in
                      let rest =
                        migrate_loop-split fuel₁ fuel₂ fuel (suc n) n' mid s.to next out below room
                          (omega (arith, a, up.1)) b (ground (arith, more, e, fits, f, made)) in
                      ground (arith, more, below, room, e, f, rest)
                ]
              ]
        ]
      ]

-- A migration whose context is never cancelled may be cut in two: where the way to a version in between
-- succeeds, going on from there gives the answer of the whole way.
pub migrate_dao-split :
    (steps : List DaoStep) (collection raw out : List ℕ) (from mid target : ℕ)
    → from ≤ mid
    → mid ≤ target
    → migrate_dao never (register_daos [] steps) collection raw from mid ≡ some (ok out, mid)
    → migrate_dao never (register_daos [] steps) collection raw from target
      ≡ migrate_dao never (register_daos [] steps) collection out mid target
unfolding migrate_dao
migrate_dao-split steps collection raw out from mid target low high made =
    let r = register_daos [] steps in
    let named : (length collection == 0) ≡ false = ground (arith, made) in
    let up : ltb target from ≡ false = ground (arith, low, high) in
    let up' : ltb target mid ≡ false = ground (arith, high) in
    let up'' : ltb mid from ≡ false = ground (arith, low) in
    let whole =
      migrate_loop-split r (register_daos-Rising [] steps empty-Rising) collection target
        (mid - from) (target - mid) (target - from) 0 0 mid from raw out high low
        (omega (arith, low, high)) (omega (arith, high)) (ground (arith, named, up'', made)) in
    rw (named, up, up') whole
