-- ===== src/Replication/Ring/Examples.antt =====
-- A ring of two snapshots.
use cube_core.Base.{ℕ, ◌≡◌, List, [], ◌∷◌, some}
use cube_core.Base.Keys.{nat_key}
use cube_core.Base.Sorting.{find_by}
use cube_core.Replication.Types.{Snapshot, validate_meta}
use cube_core.Replication.Ring.{new_ring, get}
use cube_core.Replication.Ring.History.{add_all, accept, accept_all, last_n, get-add_all}

abbrev at_tick : ℕ → Snapshot
at_tick t = record {
  meta = record { room_id = 9; epoch = 1; tick = t; schema_version = 1 };
  objects = [];
}

abbrev published : List Snapshot
published = at_tick 3 ∷ at_tick 5 ∷ at_tick 4 ∷ at_tick 8 ∷ []

get-add_all_example : get (add_all (new_ring 2) published) 5 ≡ some (at_tick 5)
unfolding last_n accept_all accept find_by validate_meta
get-add_all_example = get-add_all 2 published 5
