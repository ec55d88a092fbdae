-- ===== src/Replication/Session.antt =====
-- replication/session.go, and the control messages of replication/control.go as a session sees
-- them. A method is one step under the session's mutex: it returns the new state beside its result,
-- since some errors leave a changed state behind. A nil session is no value here.
pub mod Invariant
pub mod Calls
pub mod Behaviour
pub mod Replays
pub mod Staleness
mod Examples
use cube_core.Base.{
  ℕ, ◌+◌, ◌%◌, ◌^◌, Bool, true, false, not, ◌&&◌, ◌||◌, List, [], ◌∷◌, ◌++◌, Option, none, some,
  length, ltb, leb, ◌==◌, if◌then◌else◌,
}
use cube_core.Base.Results.{Result, ok, err}
use cube_core.Base.Keys.{nat_key}
use cube_core.Base.Maps.{Map, find, put, delete}
use cube_core.Replication.Types.{
  Error, session_not_found, invalid_ack, invalid_control, prepared_frame_stale, SessionInfo,
  Snapshot,
}

pub record SessionState : Type 0 where
  pub info : SessionInfo
  pub ack_tick : ℕ
  pub last_sent : ℕ
  pub sequence : ℕ
  pub force_full : Bool
  pub closed : Bool
  pub quality_tier : ℕ
  pub sent : Map ℕ Snapshot
  pub sent_order : List ℕ
  pub max_history : ℕ
  pub generation : ℕ
  pub committed : ℕ
  pub control_seq : ℕ

abbrev pub control_ack : ℕ
control_ack = 1

abbrev pub control_resync : ℕ
control_resync = 2

pub record ControlMessage : Type 0 where
  pub kind : ℕ
  pub reason : ℕ
  pub room_id : ℕ
  pub epoch : ℕ
  pub tick : ℕ
  pub sequence : ℕ

-- A method's new state and its result.
abbrev pub Outcome : Type 0 → Type 0
Outcome A = SessionState × Result Error A

abbrev pub is_sent : ℕ → Map ℕ Snapshot → Bool
is_sent t m = elim (find t m) [ none ↦ false | some s ↦ true ]

unfoldable pub first_state : SessionInfo → SessionState
first_state info = record {
  info = info;
  ack_tick = 0;
  last_sent = 0;
  sequence = 0;
  force_full = true;
  closed = false;
  quality_tier = 0;
  sent = [];
  sent_order = [];
  max_history = 64;
  generation = 0;
  committed = 0;
  control_seq = 0;
}

unfoldable pub new_session_state : SessionInfo → Result Error SessionState
new_session_state info = if info.id == 0 then err session_not_found else ok (first_state info)

-- `s.generation++` on a `uint64`.
abbrev pub next_generation : SessionState → SessionState
next_generation s = record s { generation = (s.generation + 1) % 2 ^ 64 }

-- `if tick > s.ackTick { s.ackTick = tick; s.forceFull = false }`.
abbrev advance_ack : SessionState → ℕ → SessionState
advance_ack s tick =
    if ltb s.ack_tick tick then record s { ack_tick = tick; force_full = false } else s

-- The switch on the type of a control message whose sequence number is new.
unfoldable pub dispatch_control : SessionState → ControlMessage → ℕ → Outcome (Unit {0})
dispatch_control s m latest_published =
    if m.kind == control_ack
    then (if (m.tick == 0) || ltb latest_published m.tick || ltb s.last_sent m.tick
        then (s, err invalid_ack)
        else if not (is_sent m.tick s.sent)
        then (s, err invalid_ack)
        else (advance_ack s m.tick, ok tt))
    else if m.kind == control_resync
    then (next_generation (record s { force_full = true }), ok tt)
    else (s, err invalid_control)

unfoldable pub handle_control : SessionState → ControlMessage → ℕ → Outcome (Unit {0})
unfolding dispatch_control
handle_control s m latest_published =
    if s.closed
    then (s, err session_not_found)
    else if leb m.sequence s.control_seq
    then (s, err invalid_control)
    else dispatch_control (record s { control_seq = m.sequence }) m latest_published

unfoldable pub acknowledge : SessionState → ℕ → ℕ → Outcome (Unit {0})
acknowledge s tick latest_published =
    if (tick == 0) || ltb latest_published tick
    then (s, err invalid_ack)
    else if s.closed
    then (s, err session_not_found)
    else if ltb s.last_sent tick
    then (s, err invalid_ack)
    else if not (is_sent tick s.sent)
    then (s, err invalid_ack)
    else (advance_ack s tick, ok tt)

unfoldable pub force_full : SessionState → SessionState
force_full s = if s.closed then s else next_generation (record s { force_full = true })

unfoldable pub set_quality_tier : SessionState → ℕ → Outcome (Unit {0})
set_quality_tier s tier =
    if s.closed
    then (s, err session_not_found)
    else if not (s.quality_tier == tier)
    then (next_generation (record s { quality_tier = tier }), ok tt)
    else (s, ok tt)

-- What `prepare` hands to the builder of a frame.
pub record Prepared : Type 0 where
  pub info : SessionInfo
  pub quality_tier : ℕ
  pub base : Option Snapshot
  pub previous : Option Snapshot
  pub sequence : ℕ
  pub generation : ℕ
  pub full : Bool

-- `s.sequence++` on a `uint32`, which leaves out 0.
abbrev pub next_sequence : ℕ → ℕ
next_sequence n = if ((n + 1) % 2 ^ 32) == 0 then 1 else (n + 1) % 2 ^ 32

abbrev prepared : SessionState → Option Snapshot → Bool → Prepared
prepared s base full = record {
  info = s.info;
  quality_tier = s.quality_tier;
  base = base;
  previous = find s.last_sent s.sent;
  sequence = s.sequence;
  generation = s.generation;
  full = full;
}

-- The choice of the baseline, once the sequence number is taken.
unfoldable pub prepare_base : SessionState → ℕ → Outcome Prepared
prepare_base s target_tick =
    if not s.force_full && not (s.ack_tick == 0) && ltb s.ack_tick target_tick
    then (elim (find s.ack_tick s.sent) [
      | some base ↦ (s, ok (prepared s (some base) false))
      | none ↦ let t = record s { force_full = true } in (t, ok (prepared t none true))
    ])
    else (s, ok (prepared s none true))

unfoldable pub prepare : SessionState → ℕ → Outcome Prepared
unfolding prepare_base
prepare s target_tick =
    if s.closed
    then (s, err session_not_found)
    else prepare_base (record s { sequence = next_sequence s.sequence }) target_tick

-- `for len(s.sentOrder) > s.maxHistory { … }`.
unfoldable pub trim_order : ℕ → List ℕ → List ℕ
trim_order n [] = []
trim_order n (t ∷ ts) = elim (ltb n (length (t ∷ ts))) [ true ↦ trim_order n ts | false ↦ t ∷ ts ]

unfoldable pub trim_sent : ℕ → List ℕ → Map ℕ Snapshot → Map ℕ Snapshot
trim_sent n [] m = m
trim_sent n (t ∷ ts) m = elim (ltb n (length (t ∷ ts))) [
  | true ↦ trim_sent n ts (delete t m)
  | false ↦ m
]

-- The snapshot joins the history, which drops its oldest entries beyond its bound.
unfoldable pub remember : SessionState → Snapshot → SessionState
unfolding trim_order trim_sent
remember s snapshot =
    let tick = snapshot.meta.tick in
    let order = if is_sent tick s.sent then s.sent_order else s.sent_order ++ tick ∷ [] in
    record s {
      last_sent = if ltb s.last_sent tick then tick else s.last_sent;
      sent_order = trim_order s.max_history order;
      sent = trim_sent s.max_history order (put tick snapshot s.sent);
    }

unfoldable pub commit_prepared : SessionState → Snapshot → ℕ → ℕ → Bool → Outcome (Unit {0})
commit_prepared s snapshot sequence generation full =
    if s.closed
    then (s, err session_not_found)
    else if not (generation == s.generation) || leb sequence s.committed
    then (s, err prepared_frame_stale)
    else (let kept = remember (record s { committed = sequence }) snapshot in
        (record kept { force_full = if full then false else kept.force_full }, ok tt))

unfoldable pub close : SessionState → SessionState
close s = record s { closed = true; sent = []; sent_order = [] }
