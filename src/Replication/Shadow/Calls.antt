-- ===== src/Replication/Shadow/Calls.antt =====
-- A store of shadows serves any calls in any order.
use cube_core.Replication.Shadow.Store.{
  remove_component-IsStore, set_component-IsStore, remove_object-IsStore, empty-IsStore,
  upsert_object-IsStore, IsStore,
}
use cube_core.Base.Keys.{nat_key}
use cube_core.Replication.Types.{ref_key, ComponentState, Limits, ObjectRef}
use cube_core.Base.{[], ◌∷◌, List, ℕ}
use cube_core.Replication.Shadow.{
  ObjectRef, ComponentState, Limits, ShadowStore, new_shadow_store, upsert_object, set_component,
  remove_component, remove_object, reset,
}

-- The calls that change a store.
pub data Call : Type 0 where
  upserts : ObjectRef → ℕ → Call
  removes : ObjectRef → Call
  sets : ObjectRef → ComponentState → Call
  drops : ObjectRef → ℕ → Call
  resets : Call

unfoldable pub step : ShadowStore → Call → ShadowStore
step s (upserts ref archetype) = (upsert_object s ref archetype).0
step s (removes ref) = (remove_object s ref).0
step s (sets ref c) = (set_component s ref c).0
step s (drops ref k) = (remove_component s ref k).0
step s resets = reset s

unfoldable pub run : ShadowStore → List Call → ShadowStore
run s [] = s
run s (c ∷ cs) = run (step s c) cs

step-IsStore : (s : ShadowStore) (c : Call) → IsStore s → IsStore (step s c)
unfolding step reset
step-IsStore s (upserts ref a) v = upsert_object-IsStore s ref a v
step-IsStore s (removes ref) v = remove_object-IsStore s ref v
step-IsStore s (sets ref c) v = set_component-IsStore s ref c v
step-IsStore s (drops ref k) v = remove_component-IsStore s ref k v
step-IsStore s resets v = empty-IsStore s

run-IsStore' : (s : ShadowStore) (cs : List Call) → IsStore s → IsStore (run s cs)
unfolding run
run-IsStore' s [] v = v
run-IsStore' s (c ∷ cs) v = run-IsStore' (step s c) cs (step-IsStore s c v)

-- Whatever calls a store has served, it holds at most the allowed number of objects, each once and
-- under a valid reference, with a non-zero archetype and at most the allowed number of components,
-- each under its own type and within its limits.
pub run-IsStore : (limits : Limits) (cs : List Call) → IsStore (run (new_shadow_store limits) cs)
unfolding new_shadow_store
run-IsStore limits cs =
    run-IsStore' (new_shadow_store limits) cs (empty-IsStore (new_shadow_store limits))
