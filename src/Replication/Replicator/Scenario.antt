-- ===== src/Replication/Replicator/Scenario.antt =====
-- A room with one session, and the calls it serves.
use cube_core.Base.Keys.{nat_key}
use cube_core.Base.{List, [], none, some, ℕ, ◌+◌, ◌∷◌}
use cube_core.Base.Results.{ok}
use cube_core.Replication.Types.{SessionInfo, Snapshot, default_limits}
use cube_core.Replication.Replicator.{Replicator, Transport}
use cube_core.Replication.Replicator.Calls.{
  Call, acknowledges, new_room, publishes, registers, run, sends,
}

-- It counts what it is given.
abbrev pub counting : Transport ℕ
counting = record {
  identity = some 1;
  send_datagram = λ n id packet. (n + 1, ok tt);
  send_reliable = λ n id payload. (n + 1, ok tt);
  send_batch = none;
  lifecycle = none;
}

abbrev pub moved : ℕ → ℕ → ℕ → Snapshot
moved epoch tick x = record {
  meta = record { room_id = 9; epoch = epoch; tick = tick; schema_version = 1 };
  objects =
      record {
        ref = record { id = 4; generation = 1 };
        archetype = 2;
        components = record { type_id = 3; schema_version = 1; bytes = x ∷ [] } ∷ [];
      }
      ∷ [];
}

abbrev pub player : SessionInfo
player = record { id = 7; owner_id = 1; team_id = 0; roles = 0 }

abbrev pub first_calls : List (Call ℕ)
first_calls = publishes (moved 1 5 10) ∷ registers player ∷ []

abbrev pub later_calls : List (Call ℕ)
later_calls =
    publishes (moved 1 5 10)
    ∷ registers player
    ∷ sends 7
    ∷ acknowledges 7 5
    ∷ publishes (moved 1 6 11)
    ∷ []

abbrev pub next_epoch_calls : List (Call ℕ)
next_epoch_calls =
    publishes (moved 1 5 10)
    ∷ registers player
    ∷ sends 7
    ∷ acknowledges 7 5
    ∷ publishes (moved 2 6 11)
    ∷ []

abbrev pub after : List (Call ℕ) → Replicator ℕ
after cs = (run (new_room default_limits 0 0 none (some counting) 0) cs).replicator
