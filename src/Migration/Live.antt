-- ===== src/Migration/Live.antt =====
-- Migrations of live objects end, with the version set.
use cube_core.Base.{
  ap, ◌∙◌, subst, ◌==◌, if_cases, ℕ, zero, suc, ◌+◌, ◌-◌, ◌≤◌, ◌<◌, ◌≡◌, ◌⊎◌, inl, inr, refl, Bool,
  List, [], ◌∷◌, some, ltb, leb, arith, Option-cases, Bool-cases,
}
use cube_core.Base.Results.{Result, ok, err, Result-cases}
use cube_core.Base.Maps.{find, put, find-put}
use cube_core.Base.Keys.{nat_key}
use cube_core.Migration.{
  apply_failed, path_missing, cancelled_context, MigrationError, Step, Registry, register_step,
  run_loop, run_from,
}

module _ {D : Type 0} where
  unfoldable pub register_steps : Registry D → List (Step D) → Registry D
  register_steps r [] = r
  register_steps r (s ∷ ss) = register_steps (register_step r s).0 ss

  abbrev Rising : Registry D → Type 0
  Rising r = (from : ℕ) (s : Step D) → find from r ≡ some s → (s.from ≡ from) × (from < s.to)

  add-Rising : (r : Registry D) (s : Step D) → Rising r → s.from < s.to → Rising (put s.from s r)
  add-Rising r s v up from t e = elim (Bool-cases (s.from == from)) [
    | inl here ↦
        let made : s ≡ t = ground (arith, find-put s.from from s r, here, e) in
        subst (λ (x : Step D). (x.from ≡ from) × (from < x.to)) made
          (ground (arith, here), ground (arith, here, up))
    | inr other ↦ v from t (ground (arith, find-put s.from from s r, other, e))
  ]

  register_step-Rising : (r : Registry D) (s : Step D) → Rising r → Rising (register_step r s).0
  unfolding register_step
  register_step-Rising r s v =
      if_cases (λ (x : Registry D × Result MigrationError (Unit {0})). Rising x.0) (leb s.to s.from)
        (λ a. v)
        λ up. elim (Option-cases (find s.from r)) [
          | inr (old, e) ↦ rw (e, register_step) v
          | inl e ↦ rw (e, register_step) (add-Rising r s v (ground arith))
        ]

  register_steps-Rising :
      (r : Registry D) (ss : List (Step D)) → Rising r → Rising (register_steps r ss)
  unfolding register_steps
  register_steps-Rising r [] v = v
  register_steps-Rising r (s ∷ ss) v =
      register_steps-Rising (register_step r s).0 ss (register_step-Rising r s v)

  -- A migration that succeeds leaves its object alone at the target, and otherwise sets the version last.
  abbrev pub Ended : (ℕ → D → D) → ℕ → ℕ → D → D × Result MigrationError (Unit {0}) → Type 0
  Ended set cur target start (end, err e) = cur < target
  Ended set cur target start (end, ok u) =
      ((cur ≡ target) × (end ≡ start)) ⊎ ((cur < target) × ((x : D) × (end ≡ set target x)))

  Ended-later :
      (set : ℕ → D → D) (cur later target : ℕ) (start x : D)
      (answer : D × Result MigrationError (Unit {0}))
      → cur < later
      → later ≤ target
      → Ended set later target (set later x) answer
      → Ended set cur target start answer
  Ended-later set cur later target start x (end, err e) lt le h = omega (arith, lt, h)
  Ended-later set cur later target start x (end, ok u) lt le (inl (here, same)) =
      inr (omega (arith, lt, le), (x, same ∙ ap (λ v. set v x) here))
  Ended-later set cur later target start x (end, ok u) lt le (inr (below, (y, same))) =
      inr (omega (arith, lt, le), (y, same))

  module _ (set : ℕ → D → D) (cancelled : ℕ → Bool) (r : Registry D) (v : Rising r)
      (target : ℕ) where
    run_loop-Ends :
        (fuel n cur : ℕ) (start : D)
        → cur ≤ target
        → target ≤ fuel + cur
        → (answer : D × Result MigrationError (Unit {0})) × (run_loop set cancelled fuel r target n
              cur start
            ≡ some answer)
          × Ended set cur target start answer
    unfolding run_loop
    run_loop-Ends zero n cur start le enough =
        ((start, ok tt), ground arith, inl (omega arith, refl))
    run_loop-Ends (suc fuel) n cur start le enough = elim (Bool-cases (ltb cur target)) [
      | inr done ↦ ((start, ok tt), ground (arith, done), inl (ground (arith, done), refl))
      | inl more ↦ elim (Bool-cases (cancelled n)) [
        | inl stop ↦
            ((start, err cancelled_context), ground (arith, more, stop), ground (arith, more))
        | inr go ↦ elim (Option-cases (find cur r)) [
          | inl e ↦ ((start, err path_missing), ground (arith, more, go, e), ground (arith, more))
          | inr (s, e) ↦
              let up = v cur s e in
              elim (Bool-cases (ltb target s.to)) [
                | inl over ↦ (
                  (start, err path_missing),
                  ground (arith, more, go, e, over),
                  ground (arith, more),
                )
                | inr fits ↦
                    let room : s.to ≤ target = ground (arith, fits) in
                    elim (Result-cases (s.apply start).1) [
                      | inr (why, f) ↦ (
                        ((s.apply start).0, err apply_failed),
                        ground (arith, more, go, e, fits, f),
                        ground (arith, more),
                      )
                      | inl (u, f) ↦
                          let (answer, rest, ended) =
                            run_loop-Ends fuel (suc n) s.to (set s.to (s.apply start).0) room
                              (omega (arith, up.1, enough)) in
                          (
                            answer,
                            ground (arith, more, go, e, fits, f, rest),
                            Ended-later set cur s.to target start (s.apply start).0 answer up.1 room
                                ended,
                          )
                    ]
              ]
        ]
      ]
    ]

  -- With the steps that a registry accepted, the migration of an object ends within as many rounds as there
  -- are versions to climb. Where it succeeds, the object is untouched if it was at the target, and else
  -- the last thing that happened to it is that its version was set to the target.
  pub run_from-Ends :
      (set : ℕ → D → D) (cancelled : ℕ → Bool) (steps : List (Step D)) (start : D) (from target : ℕ)
      → from ≤ target
      → (answer : D × Result MigrationError (Unit {0})) × (run_from set cancelled
            (register_steps [] steps)
            start
            from
            target
          ≡ some answer)
        × Ended set from target start answer
  unfolding run_from find
  run_from-Ends set cancelled steps start from target up =
      let rising = register_steps-Rising [] steps (λ from s e. absurd (cc e)) in
      let (answer, made, ended) =
        run_loop-Ends set cancelled (register_steps [] steps) rising target (target - from) 0 from
          start up (omega (arith, up)) in
      (answer, ground (arith, made, up), ended)
