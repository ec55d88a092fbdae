-- ===== src/Replication/Schema/Registry.antt =====
-- What a registry promises: its two maps agree, and registration is permanent.
use cube_core.Replication.Schema.Listing.{find_by-sort_schemas, sort_schemas-Ascending}
use cube_core.Base.Sorting.{find_by, Ascending}
use cube_core.Base.Bytes.{bytes_equal, bytes_key}
use cube_core.Base.Keys.{nat_key}
use cube_core.Base.Results.{Result-cases}
use cube_core.Base.{
  subst, ◌∙◌, [], ◌∷◌, ◌≢◌, false, ◌==◌, Option-cases, inl, Bool-cases, arith, inr, List, some,
  none, ℕ, ◌≡◌, ◌⊎◌,
}
use cube_core.Base.Maps.{put, find, find-put}
use cube_core.Base.Ordered.{find_by-values, values, values-Distinct, put-IsKeyed, IsKeyed}
use cube_core.Replication.Schema.{
  Error, ok, Result, ComponentSchema, SchemaRegistry, validate_schema, new_schema_registry,
  register, lookup, lookup_name, snapshot,
}

-- Both maps list the same schemas, each under its own identifier and its own name; all are valid.
pub record IsRegistry (r : SchemaRegistry) : Type 0 where
  pub keyed : IsKeyed (λ (s : ComponentSchema). s.type_id) r.by_id
  pub valid : (id : ℕ) (s : ComponentSchema) → find id r.by_id ≡ some s → validate_schema s ≡ ok tt
  pub named :
      (id : ℕ) (s : ComponentSchema) → find id r.by_id ≡ some s → find s.name r.by_name ≡ some id
  pub listed :
      (name : List ℕ) (id : ℕ)
      → find name r.by_name ≡ some id
      → (s : ComponentSchema) × (find id r.by_id ≡ some s) × (s.name ≡ name)

-- What a registration does, accepted or refused.
abbrev pub RegisterResult :
    SchemaRegistry → SchemaRegistry → ComponentSchema → Result Error (Unit {0}) → Type 0
RegisterResult r t s result =
    ((result ≡ ok tt)
      × (validate_schema s ≡ ok tt)
      × (lookup r s.type_id ≡ none)
      × (lookup_name r s.name ≡ none)
      × (lookup t s.type_id ≡ some s)
      × (lookup_name t s.name ≡ some (some s))
      × ((id : ℕ) → (s.type_id == id) ≡ false → lookup t id ≡ lookup r id))
    ⊎ ((result ≢ ok tt)
        × (t ≡ r)
        × ((validate_schema s ≡ result)
            ⊎ ((lookup r s.type_id ≢ none) ⊎ (lookup_name r s.name ≢ none))))

-- A schema is registered exactly if it is valid and both its identifier and its name are free; then
-- it is found under both, and what stands under the other identifiers is not touched. A refused
-- registration changes nothing.
pub register_lem :
    (r t : SchemaRegistry) (s : ComponentSchema) (result : Result Error (Unit {0}))
    → register r s ≡ (t, result)
    → RegisterResult r t s result
unfolding register lookup lookup_name
register_lem r t s result h = elim (Result-cases (validate_schema s)) [
  | inr (e, v) ↦ inr (ground arith, ground arith, inl (ground arith))
  | inl (u, v) ↦ elim (Option-cases (find s.type_id r.by_id)) [
    | inr (old, o) ↦ inr (ground arith, ground arith, inr (inl (ground arith)))
    | inl o ↦ elim (Option-cases (find s.name r.by_name)) [
      | inr (id, n) ↦ inr (ground arith, ground arith, inr (inr (ground arith)))
      | inl n ↦ inl (
        ground arith,
        ground arith,
        ground arith,
        ground arith,
        ground (arith, find-put s.type_id s.type_id s r.by_id),
        ground (
          arith,
          find-put s.type_id s.type_id s r.by_id,
          find-put s.name s.name s.type_id r.by_name,
          bytes_key.eq_iff s.name s.name,
        ),
        λ id other. ground (arith, find-put s.type_id id s r.by_id),
      )
    ]
  ]
]

register-IsRegistry :
    (r : SchemaRegistry) (s : ComponentSchema) → IsRegistry r → IsRegistry (register r s).0
unfolding register
register-IsRegistry r s v = elim (Result-cases (validate_schema s)) [
  | inr (e, a) ↦ kept (ground arith)
  | inl (u, a) ↦ elim (Option-cases (find s.type_id r.by_id)) [
    | inr (old, o) ↦ kept (ground arith)
    | inl o ↦ elim (Option-cases (find s.name r.by_name)) [
      | inr (id, n) ↦ kept (ground arith)
      | inl n ↦ subst IsRegistry {x = after} (ground arith) (added o n (ground arith))
    ]
  ]
]
  where
    after : SchemaRegistry
    after = record { by_id = put s.type_id s r.by_id; by_name = put s.name s.type_id r.by_name }

    kept : r ≡ (register r s).0 → IsRegistry (register r s).0
    kept same = subst IsRegistry same v

    added :
        find s.type_id r.by_id ≡ none
        → find s.name r.by_name ≡ none
        → validate_schema s ≡ ok tt
        → IsRegistry after
    added o n a = record {
      keyed = put-IsKeyed (λ (x : ComponentSchema). x.type_id) s r.by_id v.keyed;
      valid = λ id x h. ground (arith, a, v.valid id x, find-put s.type_id id s r.by_id);
      named = λ id x h. ground (
        arith,
        v.named id x,
        find-put s.type_id id s r.by_id,
        find-put s.name x.name s.type_id r.by_name,
        bytes_key.eq_iff s.name x.name,
      );
      listed = λ name id h. elim (Bool-cases (bytes_equal s.name name)) [
        | inl e ↦ (
          s,
          ground (arith, find-put s.type_id id s r.by_id, find-put s.name name s.type_id r.by_name),
          (bytes_key.eq_iff s.name name).0 e,
        )
        | inr e ↦
            let old = v.listed name id (ground (arith, find-put s.name name s.type_id r.by_name)) in
            (old.0, ground (arith, old.1, find-put s.type_id id s r.by_id), old.2)
      ];
    }

-- Registrations one after another, accepted or refused.
unfoldable pub register_all : SchemaRegistry → List ComponentSchema → SchemaRegistry
register_all r [] = r
register_all r (s ∷ ss) = register_all (register r s).0 ss

register_all-IsRegistry' :
    (r : SchemaRegistry) (ss : List ComponentSchema) → IsRegistry r → IsRegistry (register_all r ss)
unfolding register_all
register_all-IsRegistry' r [] v = v
register_all-IsRegistry' r (s ∷ ss) v =
    register_all-IsRegistry' (register r s).0 ss (register-IsRegistry r s v)

new_schema_registry-IsRegistry : IsRegistry new_schema_registry
unfolding new_schema_registry find
new_schema_registry-IsRegistry = record {
  keyed = tt;
  valid = λ id s h. cc h;
  named = λ id s h. cc h;
  listed = λ name id h. absurd (cc h);
}

-- Whatever was registered, the identifiers and the names of a registry match one to one, every
-- schema stands under its own identifier and its own name, and is valid.
pub register_all-IsRegistry :
    (ss : List ComponentSchema) → IsRegistry (register_all new_schema_registry ss)
register_all-IsRegistry ss =
    register_all-IsRegistry' new_schema_registry ss new_schema_registry-IsRegistry

-- Whatever was registered, the listing is in strictly ascending order of the identifiers, and shows
-- exactly what a lookup finds.
pub snapshot-lookup :
    (ss : List ComponentSchema)
    → Ascending
        (λ (s : ComponentSchema). s.type_id)
        (snapshot (register_all new_schema_registry ss))
      × ((id : ℕ)
          → find_by
              (λ (s : ComponentSchema). s.type_id)
              id
              (snapshot (register_all new_schema_registry ss))
            ≡ lookup (register_all new_schema_registry ss) id)
unfolding snapshot lookup
snapshot-lookup ss =
    let r = register_all new_schema_registry ss in
    let keyed = (register_all-IsRegistry ss).keyed in
    let distinct = values-Distinct (λ (s : ComponentSchema). s.type_id) r.by_id keyed in
    (
      sort_schemas-Ascending (values r.by_id) distinct,
      λ id.
          find_by-sort_schemas id (values r.by_id) distinct
          ∙ find_by-values (λ (s : ComponentSchema). s.type_id) id r.by_id keyed,
    )
