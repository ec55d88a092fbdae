-- ===== src/Replication/Session/Staleness.antt =====
-- Prepared frames that come late, with any calls of the session in between.
use cube_core.Base.{
  ℕ, ◌+◌, ◌%◌, ◌^◌, ◌≤◌, ◌<◌, suc, ◌≡◌, ◌≢◌, ◌⊎◌, inl, inr, Bool, true, List, [], ◌∷◌, length,
  arith,
}
use cube_core.Base.Results.{ok}
use cube_core.Replication.Types.{Snapshot}
use cube_core.Replication.Session.{
  SessionState, Prepared, control_resync, dispatch_control, handle_control, acknowledge, force_full,
  set_quality_tier, prepare_base, prepare, remember, commit_prepared, close,
}
use cube_core.Replication.Session.Behaviour.{prepare_fields}
use cube_core.Replication.Session.Calls.{
  Call, controls, acknowledges, forces, sets_tier, prepares, commits, closes, step, run,
}
use cube_core.Replication.Session.Replays.{Refused, run-Onward}

-- How often a call moves the generation on.
step_generation :
    (s : SessionState) (c : Call)
    → ((step s c).generation ≡ s.generation) ⊎ ((step s c).generation ≡ (s.generation + 1) % 2 ^ 64)
unfolding step handle_control dispatch_control acknowledge force_full set_quality_tier prepare
    prepare_base commit_prepared remember close
step_generation s (controls m latest) = ground arith
step_generation s (acknowledges tick latest) = ground arith
step_generation s forces = ground arith
step_generation s (sets_tier tier) = ground arith
step_generation s (prepares target) = ground arith
step_generation s (commits x sequence generation full) = ground arith
step_generation s closes = ground arith

run_generation :
    (s : SessionState) (cs : List Call)
    → s.generation < 2 ^ 64
    → (k : ℕ) × (k ≤ length cs) × ((run s cs).generation ≡ (s.generation + k) % 2 ^ 64)
unfolding run
run_generation s [] h = (0, omega arith, omega arith)
run_generation s (c ∷ cs) h = elim (step_generation s c) [
  | inl same ↦
      let (k, few, moved) = run_generation (step s c) cs (omega (arith, same)) in
      (k, omega (arith, few), omega (arith, same, moved))
  | inr next ↦
      let (k, few, moved) = run_generation (step s c) cs (omega (arith, next)) in
      (suc k, omega (arith, few), omega (arith, next, moved))
]

-- The calls that make a prepared frame stale: a full frame is demanded by the server or by a control
-- message that is accepted, or the quality tier changes.
abbrev pub IsDemand : SessionState → Call → Type 0
IsDemand s (controls m latest) = ((handle_control s m latest).1 ≡ ok tt) × (m.kind ≡ control_resync)
IsDemand s (acknowledges tick latest) = ⊥
IsDemand s forces = Unit
IsDemand s (sets_tier tier) = s.quality_tier ≢ tier
IsDemand s (prepares target) = ⊥
IsDemand s (commits x sequence generation full) = ⊥
IsDemand s closes = ⊥

demand_generation :
    (s : SessionState) (c : Call)
    → IsDemand s c
    → ((step s c).closed ≡ true) ⊎ ((step s c).generation ≡ (s.generation + 1) % 2 ^ 64)
unfolding step handle_control dispatch_control force_full set_quality_tier
demand_generation s (controls m latest) h = ground arith
demand_generation s (acknowledges tick latest) h = absurd h
demand_generation s forces h = ground arith
demand_generation s (sets_tier tier) h = ground arith
demand_generation s (prepares target) h = absurd h
demand_generation s (commits x sequence generation full) h = absurd h
demand_generation s closes h = absurd h

commit_prepared-Refused :
    (s : SessionState) (x : Snapshot) (sequence generation : ℕ) (full : Bool)
    → (s.closed ≡ true) ⊎ ((generation ≢ s.generation) ⊎ (sequence ≤ s.committed))
    → Refused s (commit_prepared s x sequence generation full)
unfolding commit_prepared
commit_prepared-Refused s x sequence generation full h = ground arith

-- A frame that was prepared before a full frame was demanded, by the server or by a control message
-- that was accepted, or before the quality tier changed, is not committed after it, whatever other
-- calls come in between, and the attempt changes nothing. The generation is a word, and the calls are
-- fewer than it counts.
pub commit_prepared_demanded :
    (s t : SessionState) (target : ℕ) (p : Prepared) (x : Snapshot) (before later : List Call)
    (demand : Call)
    → s.generation < 2 ^ 64
    → prepare s target ≡ (t, ok p)
    → IsDemand (run t before) demand
    → length before + length later + 1 < 2 ^ 64
    → let u = run (step (run t before) demand) later in
      Refused u (commit_prepared u x p.sequence p.generation p.full)
commit_prepared_demanded s t target p x before later demand range h d few =
    let f = prepare_fields s t target p h in
    let now = run t before in
    let asked = step now demand in
    let (k, k_few, k_moved) = run_generation t before (omega (arith, f.2)) in
    elim (demand_generation now demand d) [
      | inl shut ↦
          commit_prepared-Refused (run asked later) x p.sequence p.generation p.full
            (inl ((run-Onward asked later).closed_stays shut))
      | inr next ↦
          let (j, j_few, j_moved) = run_generation asked later (omega (arith, next)) in
          let all : (run asked later).generation ≡ (t.generation + (k + j + 1)) % 2 ^ 64 =
            omega (arith, k_moved, j_moved, next) in
          commit_prepared-Refused (run asked later) x p.sequence p.generation p.full
            (inr (inl (λ same. absurd (omega (arith, same, all, f.1, f.2, k_few, j_few)))))
    ]

-- The sequence number goes up by one at most, until it wraps around.
step_sequence :
    (s : SessionState) (c : Call)
    → s.sequence + 1 < 2 ^ 32
    → (s.sequence ≤ (step s c).sequence) × ((step s c).sequence ≤ s.sequence + 1)
unfolding step handle_control dispatch_control acknowledge force_full set_quality_tier prepare
    prepare_base commit_prepared remember close
step_sequence s (controls m latest) h = (ground arith, ground arith)
step_sequence s (acknowledges tick latest) h = (ground arith, ground arith)
step_sequence s forces h = (ground arith, ground arith)
step_sequence s (sets_tier tier) h = (ground arith, ground arith)
step_sequence s (prepares target) h = (ground arith, ground arith)
step_sequence s (commits x sequence generation full) h = (ground arith, ground arith)
step_sequence s closes h = (ground arith, ground arith)

run_sequence :
    (s : SessionState) (cs : List Call)
    → s.sequence + length cs < 2 ^ 32
    → (s.sequence ≤ (run s cs).sequence) × ((run s cs).sequence ≤ s.sequence + length cs)
unfolding run
run_sequence s [] h = (omega arith, omega arith)
run_sequence s (c ∷ cs) h =
    let one = step_sequence s c (omega arith) in
    let rest = run_sequence (step s c) cs (omega (arith, one.1)) in
    (omega (arith, one.0, rest.0), omega (arith, one.1, rest.1))

prepare_sequence :
    (s t : SessionState) (target : ℕ) (p : Prepared)
    → prepare s target ≡ (t, ok p)
    → s.sequence + 1 < 2 ^ 32
    → (p.sequence ≡ s.sequence + 1) × (t.sequence ≡ s.sequence + 1)
unfolding prepare prepare_base
prepare_sequence s t target p h few = (ground arith, ground arith)

commit_prepared_committed :
    (s t : SessionState) (x : Snapshot) (sequence generation : ℕ) (full : Bool)
    → commit_prepared s x sequence generation full ≡ (t, ok tt)
    → t.committed ≡ sequence
unfolding commit_prepared remember
commit_prepared_committed s t x sequence generation full h = ground arith

-- A frame is committed at most once, and no frame that was prepared before it is committed after it,
-- whatever calls come before, in between and after; the attempt changes nothing. This asks that the
-- calls from the first of the two preparations to the second are too few for the sequence numbers to
-- wrap around.
pub commit_prepared_once :
    (s t v w : SessionState) (target target' generation : ℕ) (p q : Prepared) (x y : Snapshot)
    (full : Bool) (between waiting later : List Call)
    → s.sequence + length between + 2 < 2 ^ 32
    → prepare s target ≡ (t, ok p)
    → prepare (run t between) target' ≡ (v, ok q)
    → commit_prepared (run v waiting) x q.sequence q.generation q.full ≡ (w, ok tt)
    → let z = run w later in
      Refused z (commit_prepared z y p.sequence generation full)
      × Refused z (commit_prepared z y q.sequence generation full)
commit_prepared_once s t v w target target' generation p q x y full between waiting later few first
      second done =
    let a = prepare_sequence s t target p first (omega arith) in
    let b = run_sequence t between (omega (arith, a.1)) in
    let c = prepare_sequence (run t between) v target' q second (omega (arith, a.1, b.1)) in
    let last = commit_prepared_committed (run v waiting) w x q.sequence q.generation q.full done in
    let on = (run-Onward w later).committed_grows in
    (
      commit_prepared-Refused (run w later) y p.sequence generation full
          (inr (inr (omega (arith, a.0, a.1, b.0, c.0, last, on)))),
      commit_prepared-Refused (run w later) y q.sequence generation full
          (inr (inr (omega (arith, last, on)))),
    )
