-- ===== src/Replication/Replicator/Sessions.antt =====
-- replication/replicator.go: the calls that open, steer and close sessions, and the change of the
-- transport. Go ranges over the map of the sessions in any order; here it is the order of the list.
use cube_core.Base.{
  map, ◌++◌, ℕ, suc, Bool, true, false, not, ◌||◌, List, [], ◌∷◌, Option, none, some, ◌==◌,
  if◌then◌else◌,
}
use cube_core.Base.Results.{Result, ok, err}
use cube_core.Base.Keys.{nat_key}
use cube_core.Base.Maps.{Map, find, put, delete}
use cube_core.Replication.Types.{
  Error, replicator_closed, snapshot_not_found, invalid_control, already_registered, SessionInfo,
}
use cube_core.Replication.Ring.{latest_snapshot, reset}
use cube_core.Replication.Session.{
  SessionState, new_session_state, handle_control, acknowledge, force_full, set_quality_tier, close,
}
use cube_core.Replication.Control.{decode_control}
use cube_core.Replication.Replicator.{
  Transport, Replicator, session_place, session_at, write_session,
}

-- What a call leaves and answers.
abbrev pub Outcome : Type 0 → Type 0
Outcome W = Replicator W × Result Error (Unit {0})

-- The transport is told of a session, if it wants to know.
unfoldable pub transport_register :
    {W : Type 0} → Option (Transport W) → W → SessionInfo → W × Result Error (Unit {0})
transport_register none wire info = (wire, ok tt)
transport_register (some t) wire info = elim t.lifecycle [
  | none ↦ (wire, ok tt)
  | some l ↦ l.register wire info
]

unfoldable pub transport_remove : {W : Type 0} → Option (Transport W) → W → ℕ → W
transport_remove none wire id = wire
transport_remove (some t) wire id = elim t.lifecycle [ none ↦ wire | some l ↦ l.remove wire id ]

-- The new session gets a place of its own once the transport knows it.
unfoldable pub register_session : {W : Type 0} → Replicator W → SessionInfo → Outcome W
register_session r info = elim (new_session_state info) [
  | err e ↦ (r, err e)
  | ok state ↦ if r.closed then (r, err replicator_closed) else elim (find info.id r.sessions) [
    | some place ↦ (r, err already_registered)
    | none ↦
        let (wire, told) = transport_register r.transport r.wire info in
        elim told [
          | err e ↦ (record r { wire = wire }, err e)
          | ok u ↦ (
            record r {
              wire = wire;
              sessions = put info.id r.next_place r.sessions;
              store = put r.next_place state r.store;
              next_place = suc r.next_place;
            },
            ok tt,
          )
        ]
  ]
]

-- `state.Close()`.
unfoldable pub close_place : Map ℕ SessionState → ℕ → Map ℕ SessionState
close_place store place = elim (find place store) [
  | none ↦ store
  | some s ↦ put place (close s) store
]

unfoldable pub remove_session : {W : Type 0} → Replicator W → ℕ → Replicator W × Bool
remove_session r id = if id == 0 then (r, false) else elim (find id r.sessions) [
  | none ↦ (r, false)
  | some place ↦ (
    record r {
      sessions = delete id r.sessions;
      wire = transport_remove r.transport r.wire id;
      store = close_place r.store place;
    },
    true,
  )
]

-- A call on the session of an identifier.
unfoldable pub on_session :
    {W : Type 0}
    → Replicator W
    → ℕ
    → (SessionState → SessionState × Result Error (Unit {0}))
    → Outcome W
on_session r id f = elim (session_place r id) [
  | err e ↦ (r, err e)
  | ok place ↦ elim (session_at r place) [
    | err e ↦ (r, err e)
    | ok s ↦ let (s', answer) = f s in (write_session r place s', answer)
  ]
]

unfoldable pub acknowledge_for : {W : Type 0} → Replicator W → ℕ → ℕ → Outcome W
acknowledge_for r id tick = on_session r id (λ s. acknowledge s tick r.ring.latest)

unfoldable pub force_full_for : {W : Type 0} → Replicator W → ℕ → Outcome W
force_full_for r id = on_session r id (λ s. (force_full s, ok tt))

unfoldable pub set_quality_tier_for : {W : Type 0} → Replicator W → ℕ → ℕ → Outcome W
set_quality_tier_for r id tier = on_session r id (λ s. set_quality_tier s tier)

-- A message of another room or epoch than the latest snapshot's is refused.
unfoldable pub handle_control_for : {W : Type 0} → Replicator W → ℕ → List ℕ → Outcome W
handle_control_for r id raw =
    if r.closed then (r, err replicator_closed) else elim (decode_control raw) [
      | err e ↦ (r, err e)
      | ok message ↦ elim (session_place r id) [
        | err e ↦ (r, err e)
        | ok place ↦ elim (latest_snapshot r.ring) [
          | none ↦ (r, err snapshot_not_found)
          | some latest ↦
              if not (message.room_id == latest.meta.room_id)
                || not (message.epoch == latest.meta.epoch)
              then (r, err invalid_control)
              else on_session r id (λ s. handle_control s message latest.meta.tick)
        ]
      ]
    ]

-- The sessions at some places, one after the other.
unfoldable pub infos_of : Map ℕ ℕ → Map ℕ SessionState → List SessionInfo
infos_of [] store = []
infos_of ((id, place) ∷ m) store =
    let rest = infos_of m store in elim (find place store) [ none ↦ rest | some s ↦ s.info ∷ rest ]

unfoldable pub remove_all : {W : Type 0} → Option (Transport W) → W → List ℕ → W
remove_all transport wire [] = wire
remove_all transport wire (id ∷ ids) = remove_all transport (transport_remove transport wire id) ids

-- `done` are the sessions that the new transport has, the first of them first; it loses them again if it
-- refuses one.
unfoldable pub register_all_sessions :
    {W : Type 0}
    → Option (Transport W)
    → W
    → List ℕ
    → List SessionInfo
    → W × Result Error (Unit {0})
register_all_sessions transport wire done [] = (wire, ok tt)
register_all_sessions transport wire done (info ∷ infos) =
    let (wire', told) = transport_register transport wire info in
    let rest = register_all_sessions transport wire' (done ++ info.id ∷ []) infos in
    elim told [ err e ↦ (remove_all transport wire' done, err e) | ok u ↦ rest ]

unfoldable pub force_full_all : Map ℕ ℕ → Map ℕ SessionState → Map ℕ SessionState
force_full_all [] store = store
force_full_all ((id, place) ∷ m) store =
    force_full_all m
      (elim (find place store) [ none ↦ store | some s ↦ put place (force_full s) store ])

unfoldable pub same_transport : {W : Type 0} → Option (Transport W) → Option (Transport W) → Bool
same_transport none none = true
same_transport none (some t) = false
same_transport (some t) none = false
same_transport (some t) (some u) = elim t.identity [
  | none ↦ false
  | some i ↦ elim u.identity [ none ↦ false | some j ↦ i == j ]
]

-- Every session starts over with a full frame on the new transport.
unfoldable pub set_transport : {W : Type 0} → Replicator W → Option (Transport W) → Outcome W
set_transport r transport =
    if r.closed
    then (r, err replicator_closed)
    else if same_transport r.transport transport
    then (r, ok tt)
    else let infos = infos_of r.sessions r.store in
      let (wire, told) = register_all_sessions transport r.wire [] infos in
      elim told [
        | err e ↦ (record r { wire = wire }, err e)
        | ok u ↦ (
          record r {
            transport = transport;
            store = force_full_all r.sessions r.store;
            wire = remove_all r.transport wire (map (λ (i : SessionInfo). i.id) infos);
          },
          ok tt,
        )
      ]

unfoldable pub close_all : Map ℕ ℕ → Map ℕ SessionState → Map ℕ SessionState
close_all [] store = store
close_all ((id, place) ∷ m) store = close_all m (close_place store place)

unfoldable pub close_replicator : {W : Type 0} → Replicator W → Replicator W
close_replicator r = if r.closed then r else record r {
  closed = true;
  sessions = [];
  transport = none;
  wire = remove_all r.transport r.wire (map (λ (e : ℕ × ℕ). e.0) r.sessions);
  store = close_all r.sessions r.store;
  ring = reset r.ring;
}
