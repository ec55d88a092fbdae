-- ===== src/Replication/Session/Behaviour.antt =====
-- What the methods of a session promise to the builder of frames and to the client.
use Prim.Native.Nat.{max}
use cube_core.Replication.Types.{Error}
use cube_core.Base.{
  ◌⊎◌, ◌-◌, ℕ, ◌^◌, ◌≤◌, ◌<◌, ◌≡◌, ◌≢◌, inl, inr, true, false, [], ◌∷◌, none, some, ◌==◌, arith,
  Bool-cases, Option-cases,
}
use cube_core.Base.Results.{Result, ok, err}
use cube_core.Base.Keys.{nat_key}
use cube_core.Base.Maps.{Map, find}
use cube_core.Base.Ordered.{IsKeyed}
use cube_core.Replication.Types.{Snapshot, prepared_frame_stale}
use cube_core.Replication.Session.{
  Error, SessionState, Prepared, acknowledge, prepare_base, prepare, commit_prepared,
}
use cube_core.Replication.Session.Invariant.{tick_of, held, IsSession}

find-IsKeyed :
    (t : ℕ) (m : Map ℕ Snapshot) {x : Snapshot}
    → IsKeyed tick_of m
    → find t m ≡ some x
    → x.meta.tick ≡ t
unfolding find
find-IsKeyed t [] k h = cc
find-IsKeyed t ((j, y) ∷ m) {x} k h = elim (Bool-cases (j == t)) [
  | inl e ↦ ground (arith, k.0)
  | inr e ↦ find-IsKeyed t m {x = x} k.2 (ground arith)
]

-- A frame is prepared either as a full one without a baseline, or against the snapshot that was
-- sent under the acknowledged tick, which then lies below the target, and only if no full frame is
-- due; its sequence number is not 0.
pub prepare_baseline :
    (s t : SessionState) (target : ℕ) (p : Prepared)
    → IsSession s
    → prepare s target ≡ (t, ok p)
    → (p.sequence ≢ 0)
      × (t.sent ≡ s.sent)
      × (((p.full ≡ true) × (p.base ≡ none))
          ⊎ ((b : Snapshot) × (p.full ≡ false)
              × (p.base ≡ some b)
              × (find s.ack_tick s.sent ≡ some b)
              × (b.meta.tick ≡ s.ack_tick)
              × (s.ack_tick < target)
              × (s.force_full ≡ false)))
unfolding prepare prepare_base
prepare_baseline s t target p v h = elim (Option-cases (find s.ack_tick s.sent)) [
  | inl e ↦ (ground arith, ground arith, inl (ground arith, ground arith))
  | inr (b, e) ↦
      let tick = find-IsKeyed s.ack_tick s.sent v.history.keyed e in
      elim (Bool-cases p.full) [
        | inl f ↦ (ground arith, ground arith, inl (f, ground arith))
        | inr f ↦ (
          ground arith,
          ground arith,
          inr (b, f, ground arith, e, tick, ground arith, ground arith),
        )
      ]
]

-- What an acknowledgement does, accepted or refused.
abbrev pub AcknowledgeResult :
    SessionState → SessionState → ℕ → ℕ → Result Error (Unit {0}) → Type 0
AcknowledgeResult s t tick latest r =
    ((r ≡ ok tt)
      × ((0 < tick) × (tick ≤ latest) × (tick ≤ s.last_sent))
      × (s.closed ≡ false)
      × (held tick s.sent ≡ true)
      × (t.ack_tick ≡ max s.ack_tick tick))
    ⊎ ((r ≢ ok tt)
        × (t ≡ s)
        × (((tick ≡ 0) ⊎ (latest < tick))
            ⊎ ((s.last_sent < tick) ⊎ ((s.closed ≡ true) ⊎ (held tick s.sent ≡ false)))))

-- An acknowledgement of a tick is accepted exactly if the session is open, and the tick is not 0, was
-- published, is not above the last one sent, and its snapshot is retained. Then the acknowledged tick
-- is the later of the two; a refused acknowledgement changes nothing.
pub acknowledge_lem :
    (s t : SessionState) (tick latest : ℕ) (r : Result Error (Unit {0}))
    → acknowledge s tick latest ≡ (t, r)
    → AcknowledgeResult s t tick latest r
unfolding acknowledge
acknowledge_lem s t tick latest r h = ground arith

pub prepare_fields :
    (s t : SessionState) (target : ℕ) (p : Prepared)
    → prepare s target ≡ (t, ok p)
    → (t.closed ≡ false)
      × (p.generation ≡ t.generation)
      × (t.generation ≡ s.generation)
      × (t.committed ≡ s.committed)
      × (p.sequence < 2 ^ 32)
unfolding prepare prepare_base
prepare_fields s t target p h =
    (ground arith, ground arith, ground arith, ground arith, ground arith)

-- The sequence numbers wrap around to 1, but the last committed one is compared without regard to
-- that: once the highest number is committed, no frame of the session is committed any more.
pub commit_prepared_exhausted :
    (s t : SessionState) (target : ℕ) (p : Prepared) (x : Snapshot)
    → s.closed ≡ false
    → s.committed ≡ 2 ^ 32 - 1
    → prepare s target ≡ (t, ok p)
    → commit_prepared t x p.sequence p.generation p.full ≡ (t, err prepared_frame_stale)
unfolding commit_prepared
commit_prepared_exhausted s t target p x open_ last h =
    let f = prepare_fields s t target p h in ground (arith, f.0, f.3, f.4)
