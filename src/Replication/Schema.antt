-- ===== src/Replication/Schema.antt =====
-- replication/schema.go, and the replication policy of replication/types.go: the registry of
-- component schemas. A name is the list of its bytes. The calls on a nil registry return at once
-- and are left out.
pub mod Registry
pub mod Listing
mod Examples
use cube_core.Base.Ordered.{values}
use cube_core.Base.Bytes.{bytes_key, bytes_equal}
use cube_core.Base.{none, Option, some, ℕ, ◌∷◌, Bool, ◌||◌, List, [], ltb, ◌==◌, if◌then◌else◌}
use cube_core.Base.Results.{Result, ok, err, ◌>>=◌, ◌>>◌, reject_if}
use cube_core.Base.Keys.{nat_key}
use cube_core.Base.Maps.{Map, find, put}
use cube_core.Replication.Types.{already_registered, invalid_frame, Error}

pub record ReplicationPolicy : Type 0 where
  pub lane : ℕ
  pub reliability : ℕ
  pub priority : ℕ
  pub max_rate_hz : ℕ
  pub visibility : ℕ
  pub codec : ℕ

abbrev pub lane_static : ℕ
lane_static = 4

abbrev pub reliability_reliable_ordered : ℕ
reliability_reliable_ordered = 3

abbrev pub priority_critical : ℕ
priority_critical = 5

abbrev pub visibility_custom : ℕ
visibility_custom = 5

abbrev pub codec_generated_delta : ℕ
codec_generated_delta = 3

-- Every enumeration starts at 1.
unfoldable pub validate_policy : ReplicationPolicy → Result Error (Unit {0})
validate_policy p = do
  reject_if (ltb p.lane 1 || ltb lane_static p.lane) invalid_frame
  reject_if (ltb p.reliability 1 || ltb reliability_reliable_ordered p.reliability) invalid_frame
  reject_if (ltb p.priority 1 || ltb priority_critical p.priority) invalid_frame
  reject_if (ltb p.visibility 1 || ltb visibility_custom p.visibility) invalid_frame
  reject_if (ltb p.codec 1 || ltb codec_generated_delta p.codec) invalid_frame
  ok tt

pub record ComponentSchema : Type 0 where
  pub type_id : ℕ
  pub name : List ℕ
  pub version : ℕ
  pub max_encoded_size : ℕ
  pub policy : ReplicationPolicy

unfoldable pub validate_schema : ComponentSchema → Result Error (Unit {0})
validate_schema s =
    if (s.type_id == 0) || bytes_equal s.name [] || (s.version == 0) || (s.max_encoded_size == 0)
    then err invalid_frame
    else validate_policy s.policy

pub record SchemaRegistry : Type 0 where
  pub by_id : Map ℕ ComponentSchema
  pub by_name : Map (List ℕ) ℕ

unfoldable pub new_schema_registry : SchemaRegistry
new_schema_registry = record { by_id = []; by_name = [] }

unfoldable pub register :
    SchemaRegistry → ComponentSchema → SchemaRegistry × Result Error (Unit {0})
register r schema = elim (validate_schema schema) [
  | err e ↦ (r, err e)
  | ok u ↦ elim (find schema.type_id r.by_id) [
    | some old ↦ (r, err already_registered)
    | none ↦ elim (find schema.name r.by_name) [
      | some id ↦ (r, err already_registered)
      | none ↦ (
        record {
          by_id = put schema.type_id schema r.by_id;
          by_name = put schema.name schema.type_id r.by_name;
        },
        ok tt,
      )
    ]
  ]
]

unfoldable pub lookup : SchemaRegistry → ℕ → Option ComponentSchema
lookup r type_id = find type_id r.by_id

-- The code pairs the schema found under the identifier, or the zero schema, with `true`; here a
-- name whose identifier is missing is told apart as `some none`.
unfoldable pub lookup_name : SchemaRegistry → List ℕ → Option (Option ComponentSchema)
lookup_name r name = elim (find name r.by_name) [ none ↦ none | some id ↦ some (find id r.by_id) ]

-- The inner loop: the schema at the end of the list, reversed, moves towards the front past every
-- greater one.
unfoldable pub sink : ComponentSchema → List ComponentSchema → List ComponentSchema
sink x [] = x ∷ []
sink x (y ∷ ys) = if ltb x.type_id y.type_id then y ∷ sink x ys else x ∷ y ∷ ys

-- The outer loop, over the sorted part in reverse.
unfoldable pub sort_from : List ComponentSchema → List ComponentSchema → List ComponentSchema
sort_from done [] = done
sort_from done (x ∷ xs) = sort_from (sink x done) xs

-- The sorted part, put the right way round.
unfoldable pub reverse_onto : List ComponentSchema → List ComponentSchema → List ComponentSchema
reverse_onto [] out = out
reverse_onto (x ∷ xs) out = reverse_onto xs (x ∷ out)

unfoldable pub sort_schemas : List ComponentSchema → List ComponentSchema
sort_schemas xs = reverse_onto (sort_from [] xs) []

unfoldable pub snapshot : SchemaRegistry → List ComponentSchema
snapshot r = sort_schemas (values r.by_id)
