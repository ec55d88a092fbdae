-- ===== src/Replication/Replicator/Epochs.antt =====
-- A session whose acknowledged snapshot is of another epoch.
use cube_core.Base.Keys.{nat_key}
use cube_core.Base.{
  if_cases, ◌||◌, not, ℕ, ◌≡◌, ◌≢◌, ◌<◌, refl, ◌∙◌, sym, ap, true, false, List, some, ◌==◌, arith,
}
use cube_core.Base.Results.{ok, err}
use cube_core.Base.Maps.{find}
use cube_core.Replication.Types.{SnapshotMeta, DeltaFrame, invalid_control, Snapshot}
use cube_core.Replication.Delta.{build_delta}
use cube_core.Replication.Control.{decode_control}
use cube_core.Replication.Ring.{latest_snapshot}
use cube_core.Replication.Session.{Prepared, SessionState, ControlMessage, prepare, prepare_base}
use cube_core.Replication.Replicator.{Replicator, session_place, session_at}
use cube_core.Replication.Replicator.Sessions.{Outcome, handle_control_for}
use cube_core.Replication.Replicator.Frames.{PreparedFrame, prepare_latest}
use cube_core.Replication.Replicator.Baseline.{prepare_latest-PreparedFrom}
use cube_core.Replication.Replicator.Sending.{project_and_normalize_lem}

build_delta-epoch :
    (b c : Snapshot) (f : DeltaFrame) → build_delta (some b) c ≡ ok f → b.meta.epoch ≡ c.meta.epoch
unfolding build_delta
build_delta-epoch b c f h = ground arith

prepare-base :
    (s t : SessionState) (target : ℕ) (p : Prepared) (b : Snapshot)
    → s.force_full ≡ false
    → 0 < s.ack_tick
    → s.ack_tick < target
    → find s.ack_tick s.sent ≡ some b
    → prepare s target ≡ (t, ok p)
    → p.base ≡ some b
unfolding prepare prepare_base
prepare-base s t target p b settled some_ack below acked h = ground (arith, acked)

session_place-open :
    {W : Type 0} (r : Replicator W) (id place : ℕ)
    → session_place r id ≡ ok place
    → r.closed ≡ false
unfolding session_place
session_place-open r id place h = ground (arith, h)

-- Where a session has acknowledged a snapshot of another epoch than that of the latest one, and no full
-- frame is due, no frame can be prepared for it; and a control message of the epoch that the client knows
-- is refused and changes nothing, so that the client cannot ask for a full frame.
pub other_epoch_stuck :
    (W : Type 0) (r : Replicator W) (id place : ℕ) (s : SessionState) (b latest : Snapshot)
    → session_place r id ≡ ok place
    → session_at r place ≡ ok s
    → latest_snapshot r.ring ≡ some latest
    → s.force_full ≡ false
    → 0 < s.ack_tick
    → s.ack_tick < latest.meta.tick
    → find s.ack_tick s.sent ≡ some b
    → b.meta.epoch ≢ latest.meta.epoch
    → ((r' : Replicator W) (p : PreparedFrame) → prepare_latest r id ≢ (r', ok p))
      × ((raw : List ℕ) (m : ControlMessage)
          → decode_control raw ≡ ok m
          → m.epoch ≡ b.meta.epoch
          → handle_control_for r id raw ≡ (r, err invalid_control))
unfolding handle_control_for
other_epoch_stuck W r id place s b latest at is newest settled some_ack below acked other = (
  λ r' p made.
      let f = prepare_latest-PreparedFrom r r' id p made in
      let same_place : f.place ≡ place = ground (arith, f.found, at) in
      let same : f.before ≡ s = ground (arith, f.held, is, ap (session_at r) same_place) in
      let same_latest : f.latest ≡ latest = ground (arith, f.newest, newest) in
      let chose : prepare s latest.meta.tick ≡ (f.after, ok f.chosen) =
        ap (λ x. prepare x latest.meta.tick) (sym same)
        ∙ ap (λ (x : Snapshot). prepare f.before x.meta.tick) (sym same_latest)
        ∙ f.chose in
      let base =
        prepare-base s f.after latest.meta.tick f.chosen b settled some_ack below acked chose in
      let delta : build_delta (some b) p.snapshot ≡ ok p.frame =
        ap (λ x. build_delta x p.snapshot) (sym base) ∙ (f.parts).delta in
      let meta =
        (project_and_normalize_lem r _ f.latest p.snapshot (f.parts).projected).1
        ∙ ap (λ (x : Snapshot). x.meta) same_latest in
      other
        (build_delta-epoch b p.snapshot p.frame delta ∙ ap (λ (m : SnapshotMeta). m.epoch) meta),
  λ raw m decoded known.
      let open_ = session_place-open r id place at in
      let foreign : (not (m.room_id == latest.meta.room_id) || not (m.epoch == latest.meta.epoch))
          ≡ true =
        ground (arith, known, other) in
      if_cases (λ (o : Outcome W). o ≡ (r, err invalid_control)) r.closed
        (λ shut. absurd (cc (shut, open_)))
        λ is_open. rw (decoded, at, newest, foreign, handle_control_for) refl,
)
