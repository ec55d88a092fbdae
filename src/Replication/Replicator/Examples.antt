-- ===== src/Replication/Replicator/Examples.antt =====
-- A room with one session: a full frame, an acknowledgement, and a delta.
use cube_core.Replication.Control.{decode_control}
use cube_core.Base.Keys.{nat_key}
use cube_core.Base.{List, [], arith, false, none, refl, some, true, ℕ, ◌∷◌, ◌≡◌, ◌≢◌}
use cube_core.Base.Results.{err, ok}
use cube_core.Replication.Types.{
  invalid_control, DeltaFrame, Snapshot, default_limits, less_ref, normalize_limits, same_ref,
  valid_ref, validate_meta,
}
use cube_core.Replication.Replicator.{
  SessionState, Replicator, new_replicator, project, project_and_normalize, publish, session_at,
  session_place, set_projector, write_session,
}
use cube_core.Replication.Replicator.Frames.{
  PreparedFrame, abort_frame, after_send, build_frame, build_latest, commit_frame, prepare_at,
  prepare_latest, send_frame, send_latest, send_packets, send_reliable,
}
use cube_core.Replication.Replicator.Calls.{Call, IsRoom, new_room, run, run-IsRoom, step}
use cube_core.Replication.Replicator.Epochs.{other_epoch_stuck}
use cube_core.Replication.Replicator.Sessions.{
  acknowledge_for, close_all, close_place, close_replicator, force_full_all, force_full_for,
  handle_control_for, infos_of, on_session, register_all_sessions, register_session, remove_all,
  remove_session, same_transport, set_quality_tier_for, set_transport, transport_register,
  transport_remove,
}
use cube_core.Replication.Ring.{
  add, append, evict, get, last, latest_snapshot, new_ring, reset, shift,
}
use cube_core.Replication.Session.{
  ControlMessage, SessionState, acknowledge, close, commit_prepared, dispatch_control, first_state,
  force_full, handle_control, new_session_state, prepare, prepare_base, remember, set_quality_tier,
  trim_order, trim_sent,
}
use cube_core.Replication.Snapshot.{check_components, check_objects, new_snapshot}
use cube_core.Replication.Delta.{
  build_delta, change_component, change_object, component_changed, create_object, diff_components,
  diff_object, diff_objects, start_objects, update_object,
}
use cube_core.Replication.Codec.{
  seen_ref, seen_type, validate_components, validate_delta_frame, validate_objects,
}
use cube_core.Replication.Codec.Wire.{
  component_bytes, encode_components, encode_frame, encode_objects, frame_head, object_head,
}
use cube_core.Replication.Datagram.{
  checksum_datagram, crc32, crc_from, crc_shift, datagram_fields, datagram_head, datagram_packet,
  encode_datagram, fragment_frame, fragment_header, fragments, valid_header,
}
use cube_core.Base.Maps.{delete, find, put}
use cube_core.Base.Sorting.{find_by, insert_by, sort_by}
use cube_core.Base.Bytes.{bytes_equal, bytes_less, put_be, read_be}
use cube_core.Replication.Replicator.Scenario.{
  counting, moved, player, first_calls, later_calls, next_epoch_calls, after,
}

run-IsRoom_example :
    IsRoom
      (normalize_limits default_limits)
      (run (new_room default_limits 0 0 none (some counting) 0) later_calls)
run-IsRoom_example = run-IsRoom default_limits 0 0 none (some counting) 0 later_calls

-- What a prepared frame is, and a session's state.
abbrev frame_after : List (Call ℕ) → PreparedFrame → PreparedFrame
frame_after cs dummy = elim (prepare_latest (after cs) 7).1 [ ok p ↦ p | err e ↦ dummy ]

abbrev state_after : List (Call ℕ) → SessionState
state_after cs = elim (session_at (after cs) 0) [ ok s ↦ s | err e ↦ first_state player ]

abbrev full_delta : DeltaFrame
full_delta = record {
  meta = (moved 1 5 10).meta;
  kind = 1;
  base_tick = 0;
  objects =
      record {
        operation = 1;
        ref = record { id = 4; generation = 1 };
        archetype = 2;
        components =
            record { operation = 1; type_id = 3; schema_version = 1; bytes = 10 ∷ [] } ∷ [];
      }
      ∷ [];
}

abbrev next_delta : DeltaFrame
next_delta = record {
  meta = (moved 1 6 11).meta;
  kind = 2;
  base_tick = 5;
  objects =
      record {
        operation = 2;
        ref = record { id = 4; generation = 1 };
        archetype = 2;
        components =
            record { operation = 1; type_id = 3; schema_version = 1; bytes = 11 ∷ [] } ∷ [];
      }
      ∷ [];
}

abbrev dummy : PreparedFrame
dummy = record {
  frame = full_delta;
  datagrams = [];
  place = 0;
  snapshot = moved 1 5 10;
  sequence = 0;
  generation = 0;
  full = true;
  done = none;
}

abbrev full : PreparedFrame
full = frame_after first_calls dummy

abbrev next : PreparedFrame
next = frame_after later_calls dummy

-- ... and the session of the next epoch.
stuck_run :
    (session_place (after next_epoch_calls) 7 ≡ ok 0)
    × (session_at (after next_epoch_calls) 0 ≡ ok (state_after next_epoch_calls))
    × (latest_snapshot (after next_epoch_calls).ring ≡ some (moved 2 6 11))
    × ((state_after next_epoch_calls).force_full ≡ false)
    × ((state_after next_epoch_calls).ack_tick ≡ 5)
    × (find (state_after next_epoch_calls).ack_tick (state_after next_epoch_calls).sent
        ≡ some (moved 1 5 10))
unfolding project new_replicator session_place session_at write_session publish set_projector
    project_and_normalize transport_register transport_remove register_session close_place
    remove_session on_session acknowledge_for force_full_for set_quality_tier_for handle_control_for
    infos_of remove_all register_all_sessions force_full_all same_transport set_transport close_all
    close_replicator build_frame prepare_at prepare_latest commit_frame abort_frame build_latest
    send_packets send_frame after_send send_latest send_reliable step run new_ring shift evict
    append add get last latest_snapshot reset first_state new_session_state dispatch_control
    handle_control acknowledge force_full set_quality_tier prepare_base prepare trim_order trim_sent
    remember commit_prepared close check_components check_objects new_snapshot normalize_limits
    valid_ref less_ref same_ref validate_meta component_changed diff_components diff_object
    diff_objects build_delta change_component create_object update_object change_object
    start_objects seen_ref seen_type validate_components validate_objects validate_delta_frame
    frame_head object_head component_bytes encode_components encode_objects encode_frame crc_shift
    crc_from crc32 checksum_datagram datagram_head datagram_packet encode_datagram datagram_fields
    valid_header fragment_header fragments fragment_frame find put delete find_by insert_by sort_by
    bytes_equal put_be read_be bytes_less
stuck_run = (refl, refl, refl, refl, refl, refl)

other_epoch_stuck_example :
    ((r' : Replicator ℕ) (p : PreparedFrame)
      → prepare_latest (after next_epoch_calls) 7 ≢ (r', ok p))
    × ((raw : List ℕ) (m : ControlMessage)
        → decode_control raw ≡ ok m
        → m.epoch ≡ 1
        → handle_control_for (after next_epoch_calls) 7 raw
          ≡ (after next_epoch_calls, err invalid_control))
other_epoch_stuck_example =
    other_epoch_stuck ℕ (after next_epoch_calls) 7 0 (state_after next_epoch_calls) (moved 1 5 10)
      (moved 2 6 11) stuck_run.0 stuck_run.1 stuck_run.2 stuck_run.3 (omega (arith, stuck_run.4))
      (omega (arith, stuck_run.4)) stuck_run.5 (omega arith)
