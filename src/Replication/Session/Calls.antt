-- ===== src/Replication/Session/Calls.antt =====
-- A session serves any calls in any order.
use cube_core.Base.{ℕ, ◌≡◌, refl, Bool, List, [], ◌∷◌, arith, subst}
use cube_core.Base.Results.{ok}
use cube_core.Base.Keys.{nat_key}
use cube_core.Base.Maps.{find}
use cube_core.Replication.Types.{SessionInfo, Snapshot}
use cube_core.Replication.Session.{
  SessionState, ControlMessage, first_state, new_session_state, handle_control, acknowledge,
  force_full, set_quality_tier, prepare, commit_prepared, close,
}
use cube_core.Replication.Session.Invariant.{
  IsSession, same_history, commit_prepared-IsSession, handle_control-IsSession,
  acknowledge-IsSession, prepare-IsSession,
}

-- The calls that change a session.
pub data Call : Type 0 where
  controls : ControlMessage → ℕ → Call
  acknowledges : ℕ → ℕ → Call
  forces : Call
  sets_tier : ℕ → Call
  prepares : ℕ → Call
  commits : Snapshot → ℕ → ℕ → Bool → Call
  closes : Call

unfoldable pub step : SessionState → Call → SessionState
step s (controls m latest) = (handle_control s m latest).0
step s (acknowledges tick latest) = (acknowledge s tick latest).0
step s forces = force_full s
step s (sets_tier tier) = (set_quality_tier s tier).0
step s (prepares target) = (prepare s target).0
step s (commits x sequence generation full) = (commit_prepared s x sequence generation full).0
step s closes = close s

unfoldable pub run : SessionState → List Call → SessionState
run s [] = s
run s (c ∷ cs) = run (step s c) cs

pub step-IsSession : (s : SessionState) (c : Call) → IsSession s → IsSession (step s c)
unfolding step force_full set_quality_tier close find
step-IsSession s (controls m latest) v = handle_control-IsSession s m latest v
step-IsSession s (acknowledges tick latest) v = acknowledge-IsSession s tick latest v
step-IsSession s forces v =
    same_history s (step s forces) (ground arith) (ground arith) (ground arith) (ground arith)
      (ground (arith, v.acked)) v
step-IsSession s (sets_tier tier) v =
    same_history s (step s (sets_tier tier)) (ground arith) (ground arith) (ground arith)
      (ground arith) (ground (arith, v.acked)) v
step-IsSession s (prepares target) v = prepare-IsSession s target v
step-IsSession s (commits x sequence generation full) v =
    commit_prepared-IsSession s x sequence generation full v
step-IsSession s closes v = record {
  history = record { keyed = tt; listed = λ t. refl; distinct = tt };
  bounded = omega arith;
  recent = tt;
  acked = v.acked;
}

run-IsSession' : (s : SessionState) (cs : List Call) → IsSession s → IsSession (run s cs)
unfolding run
run-IsSession' s [] v = v
run-IsSession' s (c ∷ cs) v = run-IsSession' (step s c) cs (step-IsSession s c v)

pub first_state-IsSession : (info : SessionInfo) → IsSession (first_state info)
unfolding first_state find
first_state-IsSession info = record {
  history = record { keyed = tt; listed = λ t. refl; distinct = tt };
  bounded = omega arith;
  recent = tt;
  acked = omega arith;
}

pub the_state :
    (info : SessionInfo) (s : SessionState) → new_session_state info ≡ ok s → first_state info ≡ s
unfolding new_session_state
the_state info s h = ground arith

-- Whatever calls a session has served, in any order and with any arguments, its history is bounded,
-- the queue of ticks lists exactly the ticks of the retained snapshots, each once, every snapshot
-- stands under its own tick, and neither a retained tick nor the acknowledged one lies above the
-- last tick sent.
pub run-IsSession :
    (info : SessionInfo) (s : SessionState) (cs : List Call)
    → new_session_state info ≡ ok s
    → IsSession (run s cs)
run-IsSession info s cs h =
    run-IsSession' s cs (subst IsSession (the_state info s h) (first_state-IsSession info))
