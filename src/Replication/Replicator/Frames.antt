-- ===== src/Replication/Replicator/Frames.antt =====
-- replication/replicator.go: the frames for one session, from the latest snapshot to the datagrams.
use cube_core.Base.{ℕ, Bool, List, [], ◌∷◌, Option, none, some, ◌==◌}
use cube_core.Base.Results.{Result, ok, err, ◌>>=◌}
use cube_core.Base.Keys.{nat_key}
use cube_core.Replication.Types.{
  Error, prepared_frame_stale, snapshot_not_found, transport_missing, Snapshot, DeltaFrame,
  frame_full,
}
use cube_core.Replication.Delta.{build_delta}
use cube_core.Replication.Codec.Wire.{encode_frame}
use cube_core.Replication.Datagram.{fragment_frame}
use cube_core.Replication.Ring.{latest_snapshot}
use cube_core.Replication.Session.{SessionState, Prepared, prepare, commit_prepared}
use cube_core.Replication.Replicator.{
  Transport, Replicator, session_place, session_at, write_session, project_and_normalize,
}

-- `done` is what `once` has run: the answer of the first `Commit` or `Abort`.
pub record PreparedFrame : Type 0 where
  pub frame : DeltaFrame
  pub datagrams : List (List ℕ)
  pub place : ℕ
  pub snapshot : Snapshot
  pub sequence : ℕ
  pub generation : ℕ
  pub full : Bool
  pub done : Option (Result Error (Unit {0}))

-- The frame that a session's choice of a baseline comes to.
unfoldable pub build_frame :
    {W : Type 0} → Replicator W → ℕ → Prepared → Snapshot → Result Error PreparedFrame
build_frame r place p latest = do
  current ←
      project_and_normalize r
        (record {
          session = p.info;
          quality_tier = p.quality_tier;
          previous = p.previous;
          current = none;
          full_refresh = p.full;
        })
        latest
  frame ← build_delta p.base current
  encoded ← encode_frame frame r.limits
  packets ← fragment_frame frame p.sequence encoded r.max_datagram r.limits
  ok (record {
    frame = frame;
    datagrams = packets;
    place = place;
    snapshot = current;
    sequence = p.sequence;
    generation = p.generation;
    full = frame.kind == frame_full;
    done = none;
  })

-- `prepareLatest`, for the session at a place.
unfoldable pub prepare_at :
    {W : Type 0} → Replicator W → ℕ → SessionState → Replicator W × Result Error PreparedFrame
prepare_at r place s = elim (latest_snapshot r.ring) [
  | none ↦ (r, err snapshot_not_found)
  | some latest ↦
      let (s', chosen) = prepare s latest.meta.tick in
      let r' = write_session r place s' in
      elim chosen [ err e ↦ (r', err e) | ok p ↦ (r', build_frame r place p latest) ]
]

unfoldable pub prepare_latest :
    {W : Type 0} → Replicator W → ℕ → Replicator W × Result Error PreparedFrame
prepare_latest r id = elim (session_place r id) [
  | err e ↦ (r, err e)
  | ok place ↦ elim (session_at r place) [ err e ↦ (r, err e) | ok s ↦ prepare_at r place s ]
]

unfoldable pub commit_frame :
    {W : Type 0}
    → Replicator W
    → PreparedFrame
    → Replicator W × PreparedFrame × Result Error (Unit {0})
commit_frame r p = elim p.done [
  | some answer ↦ (r, p, answer)
  | none ↦ elim (session_at r p.place) [
    | err e ↦ (r, p, err prepared_frame_stale)
    | ok s ↦
        let (s', answer) = commit_prepared s p.snapshot p.sequence p.generation p.full in
        (write_session r p.place s', record p { done = some answer }, answer)
  ]
]

unfoldable pub abort_frame : PreparedFrame → PreparedFrame
abort_frame p = elim p.done [
  | some answer ↦ p
  | none ↦ record p { done = some (err prepared_frame_stale) }
]

-- A preview, which nobody can acknowledge.
unfoldable pub build_latest :
    {W : Type 0} → Replicator W → ℕ → Replicator W × Result Error (DeltaFrame × List (List ℕ))
build_latest r id =
    let (r', made) = prepare_latest r id in
    elim made [ err e ↦ (r', err e) | ok p ↦ (r', ok (p.frame, p.datagrams)) ]

-- The packets one after the other, up to the first that is refused.
unfoldable pub send_packets :
    {W : Type 0} → Transport W → W → ℕ → List (List ℕ) → W × Result Error (Unit {0})
send_packets t wire id [] = (wire, ok tt)
send_packets t wire id (packet ∷ packets) =
    let (wire', sent) = t.send_datagram wire id packet in
    let rest = send_packets t wire' id packets in elim sent [ err e ↦ (wire', err e) | ok u ↦ rest ]

unfoldable pub send_frame :
    {W : Type 0} → Transport W → W → ℕ → List (List ℕ) → W × Result Error (Unit {0})
send_frame t wire id packets = elim t.send_batch [
  | some batch ↦ batch wire id packets
  | none ↦ send_packets t wire id packets
]

-- What follows the transport's answer.
unfoldable pub after_send :
    {W : Type 0}
    → Replicator W
    → PreparedFrame
    → W × Result Error (Unit {0})
    → Replicator W × Result Error DeltaFrame
after_send r p (wire, err e) = (record r { wire = wire }, err e)
after_send r p (wire, ok u) =
    let (r', p', answer) = commit_frame (record r { wire = wire }) p in
    elim answer [ err e ↦ (r', err e) | ok v ↦ (r', ok p.frame) ]

-- The frame is committed only after the transport took all of it.
unfoldable pub send_latest :
    {W : Type 0} → Replicator W → ℕ → Replicator W × Result Error DeltaFrame
send_latest r id = elim (session_place r id) [
  | err e ↦ (r, err e)
  | ok place ↦ elim (session_at r place) [
    | err e ↦ (r, err e)
    | ok s ↦ elim r.transport [
      | none ↦ (r, err transport_missing)
      | some t ↦
          let (r', made) = prepare_at r place s in
          elim made [
            | err e ↦ (r', err e)
            | ok p ↦ after_send r' p (send_frame t r'.wire id p.datagrams)
          ]
    ]
  ]
]

unfoldable pub send_reliable :
    {W : Type 0} → Replicator W → ℕ → List ℕ → Replicator W × Result Error (Unit {0})
send_reliable r id payload = elim (session_place r id) [
  | err e ↦ (r, err e)
  | ok place ↦ elim r.transport [
    | none ↦ (r, err transport_missing)
    | some t ↦
        let (wire, sent) = t.send_reliable r.wire id payload in (record r { wire = wire }, sent)
  ]
]
