-- ===== src/Lock/ReentrantMutex/Exclusion.antt =====
-- One goroutine at a time holds the lock.
use cube_core.Base.{
  if_both, if_cases, ◌∙◌, if◌then◌else◌, sym, subst, leb, ◌%◌, ap, ℕ, ◌+◌, ◌-◌, ◌^◌, ◌≤◌, ◌<◌, ◌≡◌,
  ◌≢◌, inl, inr, refl, false, List, [], ◌∷◌, All, length, ◌==◌, arith, Bool-cases,
}
use cube_core.Lock.ReentrantMutex.{
  unlocks, looks_timed, tries, looks, enters, checks, enters_for, panics_unowned, released, spins,
  gives_up, Mutex, Answer, Move, reenter, take_free, lock_enter, lock_again, try_lock,
  timeout_enter, timeout_check, timeout_again, unlock, move, World, note, step, run, start,
}

-- The owner holds the lock as often as the counter says, and nobody else does; a free lock has
-- counter 0.
pub record IsExclusive (limit : ℕ) (w : World) : Type 0 where
  pub owner_depth : w.depth w.mutex.owner ≡ w.mutex.recursion
  pub others : (u : ℕ) → u ≢ w.mutex.owner → w.depth u ≡ 0
  pub free : w.mutex.owner ≡ 0 → w.mutex.recursion ≡ 0
  pub held : w.mutex.owner ≢ 0 → 0 < w.mutex.recursion
  pub bounded : w.mutex.recursion ≤ limit

-- What a step may answer, for the three ways in which it changes the mutex.
reenter-keeps :
    (limit gid : ℕ) (w : World)
    → 0 < gid
    → limit < 2 ^ 31
    → w.mutex.owner ≡ gid
    → IsExclusive limit w
    → IsExclusive
        (limit + 1)
        (record { mutex = (reenter w.mutex).0; depth = note gid (reenter w.mutex).1 w.depth })
unfolding reenter note
reenter-keeps limit gid w some_gid small same v =
    let below : w.mutex.recursion + 1 < 2 ^ 32 = omega (arith, v.bounded, small) in
    record {
      owner_depth = ground (arith, v.owner_depth, same, v.bounded);
      others = λ u n. ground (arith, v.others u, n, same);
      free = λ e. absurd (omega (arith, e, same, some_gid));
      held = λ n. omega (arith, below);
      bounded = omega (arith, v.bounded, below);
    }

take-keeps :
    (limit gid : ℕ) (w : World)
    → 0 < gid
    → w.mutex.owner ≡ 0
    → IsExclusive limit w
    → IsExclusive
        (limit + 1)
        (record { mutex = (take_free gid).0; depth = note gid (take_free gid).1 w.depth })
unfolding take_free note
take-keeps limit gid w some_gid free v =
    let nobody : (u : ℕ) → w.depth u ≡ 0 = λ u.
      ground
        (arith, v.others u, v.owner_depth, v.free, free, ap w.depth {x = u} {y = w.mutex.owner}) in
    record {
      owner_depth = ground (arith, nobody gid);
      others = λ u n. ground (arith, nobody u, n);
      free = λ e. absurd (omega (arith, e, some_gid));
      held = λ n. omega arith;
      bounded = omega arith;
    }

-- The mutex stays, and so do the holds.
later-IsExclusive : (limit : ℕ) (w : World) → IsExclusive limit w → IsExclusive (limit + 1) w
later-IsExclusive limit w v = record {
  owner_depth = v.owner_depth;
  others = v.others;
  free = v.free;
  held = v.held;
  bounded = omega (arith, v.bounded);
}

-- What a step makes of the world.
abbrev after : ℕ → World → Mutex × Answer → World
after gid w (m, answer) = record { mutex = m; depth = note gid answer w.depth }

unlock-keeps :
    (limit gid : ℕ) (w : World)
    → 0 < gid
    → limit < 2 ^ 31
    → IsExclusive limit w
    → IsExclusive (limit + 1) (after gid w (unlock gid w.mutex))
unfolding unlock note
unlock-keeps limit gid w some_gid small v = elim (Bool-cases (w.mutex.owner == gid)) [
  | inr other ↦ rw (other, unlock) (later-IsExclusive limit w v)
  | inl same ↦
      let own : w.mutex.owner ≡ gid = ground (arith, same) in
      let some : 0 < w.mutex.recursion = v.held (λ e. absurd (omega (arith, e, own, some_gid))) in
      let less : (w.mutex.recursion + (2 ^ 32 - 1)) % 2 ^ 32 ≡ w.mutex.recursion - 1 =
        omega (arith, some, v.bounded, small) in
      let at : w.depth gid ≡ w.mutex.recursion = ap w.depth (sym own) ∙ v.owner_depth in
      let fits : leb (2 ^ 31) (w.mutex.recursion - 1) ≡ false = ground (arith, v.bounded, small) in
      elim (Bool-cases (w.mutex.recursion - 1 == 0)) [
        | inl last ↦
            rw (same, unlock, less, fits, last)
              (record {
                owner_depth = ground (arith, v.others 0, own, last);
                others =
                    λ u n. ground (arith, v.others u, own, last, at, ap w.depth {x = u} {y = gid});
                free = λ e. ground (arith, last);
                held = λ n. absurd (n refl);
                bounded = omega (arith, v.bounded);
              })
        | inr more ↦
            rw (same, unlock, less, fits, more)
              (record {
                owner_depth = ground (arith, same, v.owner_depth);
                others = λ u n. ground (arith, v.others u, own, n);
                free = λ e. ground (arith, e, own, some_gid);
                held = λ n. ground (arith, more);
                bounded = omega (arith, v.bounded);
              })
      ]
]

module _ (limit gid : ℕ) (w : World) (some_gid : 0 < gid) (small : limit < 2 ^ 31)
    (v : IsExclusive limit w) where
  abbrev Keeps : Mutex × Answer → Type 0
  Keeps r = IsExclusive (limit + 1) (after gid w r)

  waiting : Keeps (w.mutex, spins)
  unfolding note
  waiting = later-IsExclusive limit w v

  giving_up : Keeps (w.mutex, gives_up)
  unfolding note
  giving_up = later-IsExclusive limit w v

  -- The three looks that `Lock`, `TryLock` and `LockWithTimeout` share.
  entering :
      (otherwise : Mutex × Answer)
      → Keeps otherwise
      → Keeps (
          if w.mutex.owner == gid
          then reenter w.mutex
          else if w.mutex.owner == 0
          then take_free gid
          else otherwise)
  entering otherwise k =
      if_cases Keeps (w.mutex.owner == gid)
        (λ own. reenter-keeps limit gid w some_gid small (ground (arith, own)) v)
        λ other.
          if_cases Keeps (w.mutex.owner == 0)
            (λ free. take-keeps limit gid w some_gid (ground (arith, free)) v) λ taken. k

  move-Keeps : (what : Move) → Keeps (move gid what w.mutex)
  unfolding move lock_enter lock_again try_lock timeout_enter timeout_check timeout_again
  move-Keeps enters = entering (w.mutex, spins) waiting
  move-Keeps looks =
      if_cases Keeps (w.mutex.owner == 0)
        (λ free. take-keeps limit gid w some_gid (ground (arith, free)) v) λ taken. waiting
  move-Keeps tries = entering (w.mutex, gives_up) giving_up
  move-Keeps (enters_for timeout) =
      if_both Keeps (timeout == 0) (entering (w.mutex, gives_up) giving_up)
        (entering (w.mutex, spins) waiting)
  move-Keeps (checks expired) = if_both Keeps expired giving_up waiting
  move-Keeps looks_timed = entering (w.mutex, spins) waiting
  move-Keeps unlocks = unlock-keeps limit gid w some_gid small v

abbrev SomeGoroutine : ℕ × Move → Type 0
SomeGoroutine c = 0 < c.0

run-IsExclusive :
    (limit : ℕ) (w : World) (cs : List (ℕ × Move))
    → All SomeGoroutine cs
    → limit + length cs ≤ 2 ^ 31
    → IsExclusive limit w
    → IsExclusive (limit + length cs) (run w cs)
unfolding run step
run-IsExclusive limit w [] named small v = subst (λ l. IsExclusive l w) {x = limit} (omega arith) v
run-IsExclusive limit w ((gid, what) ∷ cs) named small v =
    subst (λ l. IsExclusive l (run w ((gid, what) ∷ cs))) {x = limit + 1 + length cs} (omega arith)
      (run-IsExclusive (limit + 1) (step w (gid, what)) cs named.1 (omega (arith, small))
        (move-Keeps limit gid w named.0 (omega (arith, small)) v what))

start-IsExclusive : IsExclusive 0 start
start-IsExclusive = record {
  owner_depth = refl;
  others = λ u n. refl;
  free = λ e. refl;
  held = λ n. absurd (n refl);
  bounded = omega arith;
}

-- In every interleaving of fewer than 2^31 steps, at most one goroutine holds the lock. A goroutine that
-- holds it may unlock it, and one that does not panics if it tries, which changes nothing; a lock that
-- nobody holds is free.
pub run-exclusion :
    (cs : List (ℕ × Move))
    → All SomeGoroutine cs
    → length cs < 2 ^ 31
    → ((g h : ℕ) → 0 < (run start cs).depth g → 0 < (run start cs).depth h → g ≡ h)
      × ((g : ℕ) → 0 < (run start cs).depth g → (unlock g (run start cs).mutex).1 ≡ released)
      × ((g : ℕ)
          → 0 < g
          → (run start cs).depth g ≡ 0
          → unlock g (run start cs).mutex ≡ ((run start cs).mutex, panics_unowned))
      × (((g : ℕ) → (run start cs).depth g ≡ 0) → (run start cs).mutex.owner ≡ 0)
unfolding unlock
run-exclusion cs named small =
    let w = run start cs in
    let v : IsExclusive (length cs) w =
      subst (λ l. IsExclusive l w) {x = 0 + length cs} (omega arith)
        (run-IsExclusive 0 start cs named (omega (arith, small)) start-IsExclusive) in
    (
      λ g h a b. ground (arith, v.others g, v.others h, a, b),
      λ g a. ground (
        arith,
        v.others g,
        a,
        v.free,
        v.held,
        v.owner_depth,
        v.bounded,
        small,
        ap w.depth {x = g} {y = w.mutex.owner},
      ),
      λ g some_gid a.
          ground
            (arith, a, v.held, v.owner_depth, some_gid, ap w.depth {x = g} {y = w.mutex.owner}),
      λ nobody. ground (arith, nobody w.mutex.owner, v.owner_depth, v.held),
    )
