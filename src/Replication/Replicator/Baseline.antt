-- ===== src/Replication/Replicator/Baseline.antt =====
-- What a prepared frame was made of.
use cube_core.Base.{subst, ℕ, ◌≡◌, refl, List, none, some, ◌==◌, arith, inl, inr, Option-cases}
use cube_core.Base.Results.{ok, Result-cases}
use cube_core.Replication.Types.{Snapshot, frame_full}
use cube_core.Replication.Delta.{build_delta}
use cube_core.Replication.Codec.Wire.{encode_frame}
use cube_core.Replication.Datagram.{fragment_frame}
use cube_core.Replication.Ring.{latest_snapshot}
use cube_core.Replication.Session.{SessionState, Prepared, prepare}
use cube_core.Replication.Replicator.{
  ProjectionContext, Replicator, session_place, session_at, write_session, project_and_normalize,
}
use cube_core.Replication.Replicator.Frames.{PreparedFrame, build_frame, prepare_at, prepare_latest}

module _ {W : Type 0} where
  -- The parts of a frame that was built from a session's choice.
  pub record Built (r : Replicator W) (place : ℕ) (p : Prepared) (latest : Snapshot)
      (f : PreparedFrame) : Type 0 where
    pub encoded : List ℕ
    pub projected :
        project_and_normalize r
          (record {
            session = p.info;
            quality_tier = p.quality_tier;
            previous = p.previous;
            current = none;
            full_refresh = p.full;
          })
          latest
        ≡ ok f.snapshot
    pub delta : build_delta p.base f.snapshot ≡ ok f.frame
    pub coded : encode_frame f.frame r.limits ≡ ok encoded
    pub cut : fragment_frame f.frame p.sequence encoded r.max_datagram r.limits ≡ ok f.datagrams
    pub same_sequence : f.sequence ≡ p.sequence
    pub same_generation : f.generation ≡ p.generation
    pub same_place : f.place ≡ place
    pub kind_full : f.full ≡ (f.frame.kind == frame_full)
    pub not_done : f.done ≡ none

  build_frame-Built :
      (r : Replicator W) (place : ℕ) (p : Prepared) (latest : Snapshot) (f : PreparedFrame)
      → build_frame r place p latest ≡ ok f
      → Built r place p latest f
  unfolding build_frame
  build_frame-Built r place p latest f h =
      let context : ProjectionContext = record {
        session = p.info;
        quality_tier = p.quality_tier;
        previous = p.previous;
        current = none;
        full_refresh = p.full;
      } in
      elim (Result-cases (project_and_normalize r context latest)) [
        | inr (e, a) ↦ absurd (ground (arith, a, h))
        | inl (current, a) ↦ elim (Result-cases (build_delta p.base current)) [
          | inr (e, b) ↦ absurd (ground (arith, a, b, h))
          | inl (frame, b) ↦ elim (Result-cases (encode_frame frame r.limits)) [
            | inr (e, c) ↦ absurd (ground (arith, a, b, c, h))
            | inl (encoded, c) ↦
                elim (Result-cases
                  (fragment_frame frame p.sequence encoded r.max_datagram r.limits)) [
                    | inr (e, d) ↦ absurd (ground (arith, a, b, c, d, h))
                    | inl (packets, d) ↦
                        let made : PreparedFrame = record {
                          frame = frame;
                          datagrams = packets;
                          place = place;
                          snapshot = current;
                          sequence = p.sequence;
                          generation = p.generation;
                          full = frame.kind == frame_full;
                          done = none;
                        } in
                        let same : made ≡ f = ground (arith, a, b, c, d, h) in
                        subst (Built r place p latest) same (record {
                          encoded = encoded;
                          projected = a;
                          delta = b;
                          coded = c;
                          cut = d;
                          same_sequence = refl;
                          same_generation = refl;
                          same_place = refl;
                          kind_full = refl;
                          not_done = refl;
                        })
                  ]
          ]
        ]
      ]

  -- What `PrepareLatest` looked up, chose and built, and what it left behind.
  pub record PreparedFrom (r r' : Replicator W) (id : ℕ) (f : PreparedFrame) : Type 0 where
    pub place : ℕ
    pub before : SessionState
    pub after : SessionState
    pub latest : Snapshot
    pub chosen : Prepared
    pub found : session_place r id ≡ ok place
    pub held : session_at r place ≡ ok before
    pub newest : latest_snapshot r.ring ≡ some latest
    pub chose : prepare before latest.meta.tick ≡ (after, ok chosen)
    pub written : r' ≡ write_session r place after
    pub parts : Built r place chosen latest f

  pub prepare_latest-PreparedFrom :
      (r r' : Replicator W) (id : ℕ) (f : PreparedFrame)
      → prepare_latest r id ≡ (r', ok f)
      → PreparedFrom r r' id f
  unfolding prepare_latest prepare_at
  prepare_latest-PreparedFrom r r' id f h = elim (Result-cases (session_place r id)) [
    | inr (e, a) ↦ absurd (ground (arith, a, h))
    | inl (place, a) ↦ elim (Result-cases (session_at r place)) [
      | inr (e, b) ↦ absurd (ground (arith, a, b, h))
      | inl (s, b) ↦ elim (Option-cases (latest_snapshot r.ring)) [
        | inl c ↦ absurd (ground (arith, a, b, c, h))
        | inr (latest, c) ↦ elim (Result-cases (prepare s latest.meta.tick).1) [
          | inr (e, d) ↦ absurd (ground (arith, a, b, c, d, h))
          | inl (chosen, d) ↦ record {
            place = place;
            before = s;
            after = (prepare s latest.meta.tick).0;
            latest = latest;
            chosen = chosen;
            found = a;
            held = b;
            newest = c;
            chose = ground (arith, d);
            written = ground (arith, a, b, c, d, h);
            parts = build_frame-Built r place chosen latest f (ground (arith, a, b, c, d, h));
          }
        ]
      ]
    ]
  ]
