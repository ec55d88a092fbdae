-- ===== src/Replication/Schema/Examples.antt =====
-- A registry of two component types.
use cube_core.Base.Keys.{nat_key}
use cube_core.Base.Sorting.{find_by, Ascending}
use cube_core.Base.{ℕ, ◌≡◌, [], ◌∷◌, refl}
use cube_core.Replication.Schema.{
  ReplicationPolicy, ComponentSchema, SchemaRegistry, new_schema_registry, snapshot, lookup,
  sort_schemas, sort_from, sink, reverse_onto,
}
use cube_core.Replication.Schema.Registry.{
  IsRegistry, register_all, register_all-IsRegistry, snapshot-lookup,
}

abbrev policy : ReplicationPolicy
policy = record {
  lane = 1;
  reliability = 1;
  priority = 3;
  max_rate_hz = 20;
  visibility = 1;
  codec = 1;
}

abbrev position : ComponentSchema
position = record {
  type_id = 7;
  name = 112 ∷ [];
  version = 1;
  max_encoded_size = 16;
  policy = policy;
}

abbrev health : ComponentSchema
health = record position { type_id = 2; name = 104 ∷ [] }

abbrev two : SchemaRegistry
two = record {
  by_id = (7, position) ∷ (2, health) ∷ [];
  by_name = (112 ∷ [], 7) ∷ (104 ∷ [], 2) ∷ [];
}

register_all-IsRegistry_example :
    IsRegistry (register_all new_schema_registry (position ∷ health ∷ position ∷ []))
register_all-IsRegistry_example = register_all-IsRegistry (position ∷ health ∷ position ∷ [])

snapshot-lookup_example :
    Ascending
      (λ (s : ComponentSchema). s.type_id)
      (snapshot (register_all new_schema_registry (position ∷ health ∷ [])))
    × ((id : ℕ)
        → find_by
            (λ (s : ComponentSchema). s.type_id)
            id
            (snapshot (register_all new_schema_registry (position ∷ health ∷ [])))
          ≡ lookup (register_all new_schema_registry (position ∷ health ∷ [])) id)
snapshot-lookup_example = snapshot-lookup (position ∷ health ∷ [])

-- The second schema is listed first.
listed : snapshot two ≡ health ∷ position ∷ []
unfolding snapshot sort_schemas sort_from sink reverse_onto
listed = refl
