-- ===== src/Entity/Ids/Generator/Safety.antt =====
-- No number is given out twice, whatever the schedule.
use cube_core.Base.Results.{Result-cases, err, ok, Result}
use cube_core.Base.{
  if_both, inl, inr, ◌==◌, ◌∙◌, ltb, false, true, refl, sym, ◌^◌, if_cases, ap, [], ◌+◌, arith,
  subst, ◌∷◌, ◌≤◌, List, none, some, ◌<◌, ◌≡◌, ℕ,
}
use cube_core.Entity.Ids.Generator.{
  fresh, move_to, max_block_no, block_end, block_start, waits, finishes, rotates, top, stored_next,
  granted, loaded_both, loaded_next, block_exhausted, acquired, Result, ℕ, World, Allocator,
  GenError, Pc, step_at, step, run, new_id_gen,
}
use cube_core.Entity.Ids.Generator.Invariant.{
  leave-IsWorld, issue-IsWorld, enter-IsWorld, in_rotation, advance-IsWorld, Knows, move-IsWorld,
  IsWorld, Below,
}

-- The reply of the allocator to its n-th call.
unfoldable pub reply : Allocator → ℕ → Result GenError ℕ
reply none n = err block_exhausted
reply (some acquire) n = acquire n

-- The blocks come in ascending order, as from a counter that all processes share.
abbrev pub Growing : Allocator → Type 0
Growing source = (n m a b : ℕ) → n < m → reply source n ≡ ok a → reply source m ≡ ok b → a < b

Below-le : (m n : ℕ) (xs : List ℕ) → m ≤ n → Below m xs → Below n xs
Below-le m n [] le b = tt
Below-le m n (x ∷ xs) le b = (b.0, omega (arith, b.1, le), b.2)

module _ (source : Allocator) (growing : Growing source) where
  abbrev Held : World → Type 0
  Held = IsWorld (reply source) growing

  -- A goroutine that does not rotate moves.
  outside :
      (w : World) (t : ℕ) (old pc : Pc)
      → Held w
      → w.threads t ≡ old
      → in_rotation old ≡ false
      → in_rotation pc ≡ false
      → Knows (reply source) growing w.next w.end w.calls pc
      → Held (move_to t pc w)
  outside w t old pc v at before after k =
      let was : in_rotation (w.threads t) ≡ false = ap in_rotation at ∙ before in
      move-IsWorld (reply source) growing w t pc v k (λ a. absurd (cc (a, after)))
        λ a. absurd (cc (a, was))

  -- The allocator answers.
  answered :
      (w : World) (t : ℕ) (pc : Pc)
      → Held w
      → w.threads t ≡ acquired
      → in_rotation pc ≡ true
      → Knows (reply source) growing w.next w.end (w.calls + 1) pc
      → Held (move_to t pc (record w { calls = w.calls + 1 }))
  answered w t pc v at is k =
      advance-IsWorld (reply source) growing w t pc w.next w.end (w.calls + 1) v (ap in_rotation at)
        is v.issued_below v.positive v.next_bounded v.bounded (omega arith) k
        λ n b le e. v.future n b (omega (arith, le)) e

  at_acquired : (w : World) (t : ℕ) → Held w → w.threads t ≡ acquired → w.next ≤ w.end
  at_acquired w t v at = subst (Knows (reply source) growing w.next w.end w.calls) at (v.knows t)

  granted-Held :
      (w : World) (t block : ℕ)
      → Held w
      → w.threads t ≡ acquired
      → reply source w.calls ≡ ok block
      → block ≤ max_block_no
      → Held (move_to t (granted block) (record w { calls = w.calls + 1 }))
  granted-Held w t block v at e fits = answered w t (granted block) v at refl (
    at_acquired w t v at,
    v.future w.calls block (omega arith) e,
    fits,
    λ n b later f. growing w.calls n block b (omega (arith, later)) e f,
  )

  stored-Held :
      (w : World) (t block : ℕ)
      → Held w
      → w.threads t ≡ granted block
      → Held (move_to t (stored_next block) (record w { next = block_start block }))
  unfolding block_start
  stored-Held w t block v at =
      let k = subst (Knows (reply source) growing w.next w.end w.calls) at (v.knows t) in
      let start = block_start block in
      let forward : w.next ≤ start = ground (arith, k.0, k.1) in
      advance-IsWorld (reply source) growing w t (stored_next block) start w.end w.calls v
        (ap in_rotation at) refl (Below-le w.next start w.issued forward v.issued_below)
        (omega (arith, forward, v.positive)) (ground (arith, k.2)) v.bounded (omega arith)
        (refl, k.1, k.2, k.3) v.future

  ended-Held :
      (w : World) (t block : ℕ)
      → Held w
      → w.threads t ≡ stored_next block
      → Held (move_to t finishes (record w { end = block_end block }))
  unfolding block_start block_end
  ended-Held w t block v at =
      let k = subst (Knows (reply source) growing w.next w.end w.calls) at (v.knows t) in
      let end = block_end block in
      advance-IsWorld (reply source) growing w t finishes w.next end w.calls v (ap in_rotation at)
        refl v.issued_below v.positive v.next_bounded (omega (arith, k.2)) (omega (arith, k.1))
        (ground (arith, k.0)) λ n b later f. omega (arith, k.3 n b later f)

  acquired-Held :
      (s : Allocator) (w : World) (t : ℕ)
      → s ≡ source
      → Held w
      → w.threads t ≡ acquired
      → Held (step_at s t acquired w)
  unfolding step_at reply
  acquired-Held none w t same v at = v
  acquired-Held (some acquire) w t same v at =
      let asked : reply source w.calls ≡ acquire w.calls = ap (λ s. reply s w.calls) (sym same) in
      elim (Result-cases (acquire w.calls)) [
        | inr (why, e) ↦ rw (e, step_at) (answered w t finishes v at refl (at_acquired w t v at))
        | inl (block, e) ↦
            rw (e, step_at)
              (if_cases Held (ltb max_block_no block)
                (λ over. answered w t finishes v at refl (at_acquired w t v at))
                λ fits. granted-Held w t block v at (asked ∙ e) (ground arith))
      ]

  rotates-Held :
      (s : Allocator) (w : World) (t : ℕ)
      → Held w
      → w.threads t ≡ rotates
      → Held (step_at s t rotates w)
  unfolding step_at
  rotates-Held none w t v at = outside w t rotates top v at refl refl tt
  rotates-Held (some acquire) w t v at =
      if_cases Held w.rotating (λ busy. outside w t rotates waits v at refl refl tt)
        λ free. enter-IsWorld (reply source) growing w t v free

  step_at-Held :
      (w : World) (t : ℕ) (pc : Pc) → Held w → w.threads t ≡ pc → Held (step_at source t pc w)
  unfolding step_at
  step_at-Held w t top v at = outside w t top (loaded_next w.next) v at refl refl tt
  step_at-Held w t (loaded_next n) v at =
      outside w t (loaded_next n) (loaded_both n w.end) v at refl refl (omega arith)
  step_at-Held w t (loaded_both n e) v at =
      if_cases Held (ltb n e)
        (λ room.
          if_cases Held (w.next == n)
            (λ same.
              issue-IsWorld (reply source) growing w t n e v at (ground arith) (ground arith))
            λ moved. outside w t (loaded_both n e) top v at refl refl tt)
        λ full. outside w t (loaded_both n e) rotates v at refl refl tt
  step_at-Held w t rotates v at = rotates-Held source w t v at
  step_at-Held w t acquired v at = acquired-Held source w t refl v at
  step_at-Held w t (granted block) v at = stored-Held w t block v at
  step_at-Held w t (stored_next block) v at = ended-Held w t block v at
  step_at-Held w t finishes v at = leave-IsWorld (reply source) growing w t v at
  step_at-Held w t waits v at = if_both Held w.rotating v (outside w t waits top v at refl refl tt)

  run-Held : (w : World) (ts : List ℕ) → Held w → Held (run source w ts)
  unfolding run step
  run-Held w [] v = v
  run-Held w (t ∷ ts) v = run-Held (step source w t) ts (step_at-Held w t (w.threads t) v refl)

  fresh-Held :
      (block : ℕ)
      → ((n b : ℕ) → reply source n ≡ ok b → block < b)
      → block ≤ max_block_no
      → Held (fresh block)
  unfolding fresh block_start block_end
  fresh-Held block first fits = record {
    issued_below = tt;
    positive = ground arith;
    bounded = omega (arith, fits);
    next_bounded = ground (arith, fits);
    knows = λ t. tt;
    alone = λ t u a b. absurd (cc a);
    flagged = λ t a. absurd (cc a);
    at_rest = λ none_in. ground arith;
    future = λ n b later e. omega (arith, first n b e);
  }

  -- From a fresh generator, and whatever the schedule of the goroutines, the numbers given out differ
  -- from each other and lie in the dynamic half of the 52-bit range, without 0; this asks that the
  -- allocator hands out ascending blocks above the first one.
  pub run-issued :
      (block : ℕ) (w : World) (ts : List ℕ)
      → ((n b : ℕ) → reply source n ≡ ok b → block < b)
      → new_id_gen block ≡ ok w
      → Below (2 ^ 51) (run source w ts).issued
  unfolding new_id_gen
  run-issued block w ts first made =
      let fits : block ≤ max_block_no = ground arith in
      let same : fresh block ≡ w = ground arith in
      let v = run-Held w ts (subst Held same (fresh-Held block first fits)) in
      Below-le (run source w ts).next (2 ^ 51) (run source w ts).issued v.next_bounded
        v.issued_below
