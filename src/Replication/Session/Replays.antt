-- ===== src/Replication/Session/Replays.antt =====
-- Control messages that come again, with any calls of the session in between.
use cube_core.Base.{ℕ, ◌≤◌, ◌≡◌, ◌≢◌, ◌⊎◌, inl, inr, true, List, [], ◌∷◌, arith}
use cube_core.Base.Results.{ok}
use cube_core.Replication.Session.{
  SessionState, ControlMessage, Outcome, dispatch_control, handle_control, acknowledge, force_full,
  set_quality_tier, prepare_base, prepare, remember, commit_prepared, close,
}
use cube_core.Replication.Session.Calls.{
  Call, controls, acknowledges, forces, sets_tier, prepares, commits, closes, step, run,
}

-- An answer that is no success, from a session that stays as it is.
abbrev pub Refused : SessionState → Outcome (Unit {0}) → Type 0
Refused s out = (out.1 ≢ ok tt) × (out.0 ≡ s)

-- What no call takes back.
pub record Onward (s t : SessionState) : Type 0 where
  pub closed_stays : s.closed ≡ true → t.closed ≡ true
  pub control_grows : s.control_seq ≤ t.control_seq
  pub committed_grows : s.committed ≤ t.committed

step-Onward : (s : SessionState) (c : Call) → Onward s (step s c)
unfolding step handle_control dispatch_control acknowledge force_full set_quality_tier prepare
    prepare_base commit_prepared remember close
step-Onward s (controls m latest) = record {
  closed_stays = λ h. ground arith;
  control_grows = ground arith;
  committed_grows = ground arith;
}
step-Onward s (acknowledges tick latest) = record {
  closed_stays = λ h. ground arith;
  control_grows = ground arith;
  committed_grows = ground arith;
}
step-Onward s forces = record {
  closed_stays = λ h. ground arith;
  control_grows = ground arith;
  committed_grows = ground arith;
}
step-Onward s (sets_tier tier) = record {
  closed_stays = λ h. ground arith;
  control_grows = ground arith;
  committed_grows = ground arith;
}
step-Onward s (prepares target) = record {
  closed_stays = λ h. ground arith;
  control_grows = ground arith;
  committed_grows = ground arith;
}
step-Onward s (commits x sequence generation full) = record {
  closed_stays = λ h. ground arith;
  control_grows = ground arith;
  committed_grows = ground arith;
}
step-Onward s closes = record {
  closed_stays = λ h. ground arith;
  control_grows = ground arith;
  committed_grows = ground arith;
}

pub run-Onward : (s : SessionState) (cs : List Call) → Onward s (run s cs)
unfolding run
run-Onward s [] = record {
  closed_stays = λ h. h;
  control_grows = omega arith;
  committed_grows = omega arith;
}
run-Onward s (c ∷ cs) =
    let one = step-Onward s c in
    let rest = run-Onward (step s c) cs in
    record {
      closed_stays = λ h. rest.closed_stays (one.closed_stays h);
      control_grows = omega (arith, one.control_grows, rest.control_grows);
      committed_grows = omega (arith, one.committed_grows, rest.committed_grows);
    }

-- A message that the session has seen, or that comes too late.
abbrev Seen : ControlMessage → SessionState → Type 0
Seen m s = (s.closed ≡ true) ⊎ (m.sequence ≤ s.control_seq)

handle_control-Seen :
    (s : SessionState) (m : ControlMessage) (latest : ℕ) → Seen m (handle_control s m latest).0
unfolding handle_control dispatch_control
handle_control-Seen s m latest = ground arith

handle_control-Refused :
    (s : SessionState) (m : ControlMessage) (latest : ℕ)
    → Seen m s
    → Refused s (handle_control s m latest)
unfolding handle_control
handle_control-Refused s m latest h = ground arith

-- No control message has an effect twice: whatever the first delivery did, and whatever calls the
-- session has served since, the second delivery is refused and changes nothing.
pub handle_control_replay :
    (s : SessionState) (m : ControlMessage) (latest later : ℕ) (cs : List Call)
    → let t = run (handle_control s m latest).0 cs in Refused t (handle_control t m later)
handle_control_replay s m latest later cs =
    let t = (handle_control s m latest).0 in
    let on = run-Onward t cs in
    handle_control-Refused (run t cs) m later (elim (handle_control-Seen s m latest) [
      | inl shut ↦ inl (on.closed_stays shut)
      | inr known ↦ inr (omega (arith, on.control_grows))
    ])
