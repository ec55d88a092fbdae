-- ===== src/Replication/Shadow.antt =====
-- replication/shadow.go: the copies of business state that network workers capture. The calls on a
-- nil store return at once and are left out; `ObjectCount` is the length of the map.
pub mod Writes
pub mod Store
pub mod Calls
pub mod Capture
mod Examples
use cube_core.Replication.Snapshot.{new_snapshot}
use cube_core.Base.{
  none, true, some, ℕ, Bool, false, not, ◌&&◌, ◌||◌, List, [], map, length, ltb, leb, ◌==◌,
  if◌then◌else◌,
}
use cube_core.Base.Results.{Result, ok, err}
use cube_core.Base.Keys.{nat_key}
use cube_core.Base.Maps.{Map, find, put, delete}
use cube_core.Base.Ordered.{values}
use cube_core.Replication.Types.{
  component_limit, object_not_found, ref_key, object_limit, component_too_large, invalid_object_ref,
  invalid_frame, ObjectState, valid_ref, ComponentState, Snapshot, normalize_limits, ObjectRef,
  SnapshotMeta, Error, Limits,
}

pub record ShadowObject : Type 0 where
  pub archetype : ℕ
  pub components : Map ℕ ComponentState

pub record ShadowStore : Type 0 where
  pub limits : Limits
  pub objects : Map ObjectRef ShadowObject

unfoldable pub new_shadow_store : Limits → ShadowStore
new_shadow_store limits = record { limits = normalize_limits limits; objects = [] }

unfoldable pub upsert_object : ShadowStore → ObjectRef → ℕ → ShadowStore × Result Error (Unit {0})
upsert_object s ref archetype =
    if not (valid_ref ref) || (archetype == 0)
    then (s, err invalid_object_ref)
    else elim (find ref s.objects) [
      | some obj ↦
          (record s { objects = put ref (record obj { archetype = archetype }) s.objects }, ok tt)
      | none ↦ if leb s.limits.max_objects (length s.objects) then (s, err object_limit) else (
        record s {
          objects = put ref (record { archetype = archetype; components = [] }) s.objects;
        },
        ok tt,
      )
    ]

unfoldable pub remove_object : ShadowStore → ObjectRef → ShadowStore × Bool
remove_object s ref = if not (valid_ref ref) then (s, false) else (
  record s { objects = delete ref s.objects },
  elim (find ref s.objects) [ some obj ↦ true | none ↦ false ],
)

-- The write through the pointer to the object is a write to its entry in the map.
unfoldable pub set_component :
    ShadowStore → ObjectRef → ComponentState → ShadowStore × Result Error (Unit {0})
set_component s ref component =
    if not (valid_ref ref) || (component.type_id == 0) || (component.schema_version == 0)
    then (s, err invalid_frame)
    else if ltb s.limits.max_component_bytes (length component.bytes)
    then (s, err component_too_large)
    else elim (find ref s.objects) [
      | none ↦ (s, err object_not_found)
      | some obj ↦
          if (elim (find component.type_id obj.components) [ some old ↦ false | none ↦ true ])
            && leb s.limits.max_components_per_object (length obj.components)
          then (s, err component_limit)
          else (
            record s {
              objects =
                  put ref
                    (record obj { components = put component.type_id component obj.components })
                    s.objects;
            },
            ok tt,
          )
    ]

unfoldable pub remove_component : ShadowStore → ObjectRef → ℕ → ShadowStore × Bool
remove_component s ref type_id =
    if not (valid_ref ref) || (type_id == 0) then (s, false) else elim (find ref s.objects) [
      | none ↦ (s, false)
      | some obj ↦ (
        record s {
          objects = put ref (record obj { components = delete type_id obj.components }) s.objects;
        },
        elim (find type_id obj.components) [ some old ↦ true | none ↦ false ],
      )
    ]

-- One turn of the loop in `Capture`.
abbrev pub capture_object : ObjectRef × ShadowObject → ObjectState
capture_object (ref, obj) = record {
  ref = ref;
  archetype = obj.archetype;
  components = values obj.components;
}

unfoldable pub capture : ShadowStore → SnapshotMeta → Result Error Snapshot
capture s meta = new_snapshot meta (map capture_object s.objects) s.limits

unfoldable pub reset : ShadowStore → ShadowStore
reset s = record s { objects = [] }
