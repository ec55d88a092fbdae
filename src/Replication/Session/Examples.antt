-- ===== src/Replication/Session/Examples.antt =====
-- One session with a few frames.
use cube_core.Base.{◌-◌, ◌^◌, ℕ, ◌≡◌, ◌≢◌, refl, true, false, List, [], ◌∷◌, some, arith}
use cube_core.Base.Results.{ok, err}
use cube_core.Base.Keys.{nat_key}
use cube_core.Base.Maps.{find, put}
use cube_core.Replication.Types.{SessionInfo, Snapshot, prepared_frame_stale}
use cube_core.Replication.Session.{
  SessionState, ControlMessage, Prepared, first_state, new_session_state, handle_control,
  acknowledge, prepare, commit_prepared, remember,
}
use cube_core.Replication.Session.Invariant.{IsSession}
use cube_core.Replication.Session.Calls.{
  Call, controls, step, acknowledges, forces, prepares, commits, run, run-IsSession,
}
use cube_core.Replication.Session.Behaviour.{
  AcknowledgeResult, prepare_baseline, acknowledge_lem, commit_prepared_exhausted,
}
use cube_core.Replication.Session.Replays.{Refused, handle_control_replay}
use cube_core.Replication.Session.Staleness.{commit_prepared_demanded, commit_prepared_once}

abbrev client : SessionInfo
client = record { id = 1; owner_id = 2; team_id = 3; roles = 0 }

abbrev at_tick : ℕ → Snapshot
at_tick t = record {
  meta = record { room_id = 9; epoch = 1; tick = t; schema_version = 1 };
  objects = [];
}

abbrev fresh : SessionState
unfolding first_state
fresh = first_state client

abbrev history : List Call
history = prepares 3 ∷ commits (at_tick 3) 1 0 true ∷ acknowledges 3 4 ∷ forces ∷ []

run-IsSession_example : IsSession (run (first_state client) history)
unfolding new_session_state
run-IsSession_example = run-IsSession client (first_state client) history refl

-- A session that sent the frame of tick 3, whose client has it.
abbrev synced : SessionState
synced = record {
  info = client;
  ack_tick = 3;
  last_sent = 3;
  sequence = 1;
  force_full = false;
  closed = false;
  quality_tier = 0;
  sent = (3, at_tick 3) ∷ [];
  sent_order = 3 ∷ [];
  max_history = 64;
  generation = 0;
  committed = 1;
  control_seq = 0;
}

synced-IsSession : IsSession synced
unfolding find
synced-IsSession = record {
  history = record { keyed = (refl, refl, tt); listed = λ t. ground arith; distinct = (tt, tt) };
  bounded = omega arith;
  recent = omega arith;
  acked = omega arith;
}

abbrev next_prepared : Prepared
next_prepared = record {
  info = client;
  quality_tier = 0;
  base = some (at_tick 3);
  previous = some (at_tick 3);
  sequence = 2;
  generation = 0;
  full = false;
}

abbrev asked : SessionState
asked = record synced { sequence = 2 }

prepared_next : prepare synced 4 ≡ (asked, ok next_prepared)
unfolding prepare find
prepared_next = refl

prepare_baseline_example : next_prepared.sequence ≢ 0
prepare_baseline_example =
    (prepare_baseline synced asked 4 next_prepared synced-IsSession prepared_next).0

abbrev sent_next : SessionState
sent_next = record asked {
  last_sent = 4;
  sent = (3, at_tick 3) ∷ (4, at_tick 4) ∷ [];
  sent_order = 3 ∷ 4 ∷ [];
  committed = 2;
}

acknowledge_lem_example :
    AcknowledgeResult sent_next (record sent_next { ack_tick = 4 }) 4 4 (ok tt)
unfolding acknowledge find
acknowledge_lem_example =
    acknowledge_lem sent_next (record sent_next { ack_tick = 4 }) 4 4 (ok tt) refl

replayed : ControlMessage
replayed = record { kind = 2; reason = 1; room_id = 9; epoch = 1; tick = 0; sequence = 5 }

abbrev resynced : Call
resynced = controls replayed 4

-- The message comes again after another one.
handle_control_replay_example :
    Refused
      (run
        (handle_control synced replayed 4).0
        (controls (record replayed { sequence = 8 }) 4 ∷ []))
      (handle_control
        (run
          (handle_control synced replayed 4).0
          (controls (record replayed { sequence = 8 }) 4 ∷ []))
        replayed
        4)
handle_control_replay_example =
    handle_control_replay synced replayed 4 4 (controls (record replayed { sequence = 8 }) 4 ∷ [])

commit_prepared_demanded_example :
    Refused (run (step (run asked (acknowledges 3 4 ∷ [])) resynced) (prepares 5 ∷ [])) (
      commit_prepared
        (run (step (run asked (acknowledges 3 4 ∷ [])) resynced) (prepares 5 ∷ []))
        (at_tick 4)
        2
        0
        false)
unfolding run step acknowledge handle_control find replayed
commit_prepared_demanded_example =
    commit_prepared_demanded synced asked 4 next_prepared (at_tick 4) (acknowledges 3 4 ∷ [])
      (prepares 5 ∷ []) resynced (omega arith) prepared_next (refl, refl) (omega arith)

abbrev after_both : SessionState
after_both = record sent_next { sequence = 3; committed = 3 }

abbrev second_prepared : Prepared
second_prepared = record next_prepared { sequence = 3 }

-- Two frames are prepared, and the second is sent.
commit_prepared_once_example :
    Refused
      (run after_both (forces ∷ []))
      (commit_prepared (run after_both (forces ∷ [])) (at_tick 4) 2 1 false)
    × Refused
        (run after_both (forces ∷ []))
        (commit_prepared (run after_both (forces ∷ [])) (at_tick 4) 3 1 false)
unfolding prepare commit_prepared remember find put run step acknowledge
commit_prepared_once_example =
    commit_prepared_once synced asked (record synced { sequence = 3 }) after_both 4 4 1
      next_prepared second_prepared (at_tick 4) (at_tick 4) false (acknowledges 3 4 ∷ []) []
      (forces ∷ []) (omega arith) prepared_next refl refl

abbrev worn_out : SessionState
worn_out = record synced { sequence = 2 ^ 32 - 1; committed = 2 ^ 32 - 1 }

commit_prepared_exhausted_example :
    commit_prepared (record worn_out { sequence = 1 }) (at_tick 4) 1 0 false
    ≡ (record worn_out { sequence = 1 }, err prepared_frame_stale)
unfolding prepare find
commit_prepared_exhausted_example =
    commit_prepared_exhausted worn_out (record worn_out { sequence = 1 }) 4
      (record next_prepared { sequence = 1 }) (at_tick 4) refl refl refl
