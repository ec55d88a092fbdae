-- ===== src/Entity/Kinds.antt =====
-- entity/entity_factory.go, entity/types.go and entity/policy.go: the kinds of entities that a process
-- knows, each with its category, its remote policy and its builder. A panic is an error here, and of a
-- builder only what the registry reads is kept. The registry is one value behind `factoryMu`.
pub mod Stability
pub mod Growth
use cube_core.Base.{
  ℕ, Bool, true, false, not, ◌&&◌, ◌||◌, List, [], ◌∷◌, Option, none, some, ltb, ◌==◌,
  if◌then◌else◌,
}
use cube_core.Base.Results.{Result, ok, err, ◌>>=◌, ◌>>◌, reject_if}
use cube_core.Base.Maps.{Map, find, put}
use cube_core.Base.Keys.{nat_key}

pub data IdError : Type 0 where
  invalid_entity_id : IdError
  invalid_category : IdError
  invalid_entity_kind : IdError
  kind_none : IdError
  category_none : IdError
  category_mismatch : IdError
  policy_mismatch : IdError
  policy_conflict : IdError
  duplicate_builder : IdError

abbrev pub policy_none : ℕ
policy_none = 0

abbrev pub policy_managed : ℕ
policy_managed = 2

abbrev pub policy_mirror : ℕ
policy_mirror = 3

unfoldable pub remote_capable : ℕ → Bool
remote_capable p = (p == 1) || (p == policy_managed) || (p == policy_mirror)

unfoldable pub remote_managed : ℕ → Bool
remote_managed p = p == policy_managed

unfoldable pub default_lifetime : Bool → ℕ → ℕ
default_lifetime no_persist policy =
    if policy == policy_managed
    then 5
    else if policy == policy_mirror
    then 6
    else if no_persist
    then 1
    else 3

-- The lifetimes: 0 is the default, 3 persisted, 4 resident, 5 remote managed, 6 a mirror's cache.
unfoldable pub validate_entity_policy : Bool → ℕ → ℕ → Result IdError (Unit {0})
validate_entity_policy no_persist policy lifetime = do
  let chosen = if lifetime == 0 then default_lifetime no_persist policy else lifetime
  reject_if ((policy == policy_managed) && not (chosen == 5)) policy_conflict
  reject_if ((policy == policy_mirror) && not (chosen == 6)) policy_conflict
  reject_if (not (policy == policy_managed) && (chosen == 5)) policy_conflict
  reject_if (not (policy == policy_mirror) && (chosen == 6)) policy_conflict
  reject_if (no_persist && ((chosen == 3) || (chosen == 4))) policy_conflict

pub record KindDef : Type 0 where
  pub kind : ℕ
  pub category : ℕ
  pub remote_policy : ℕ

pub record BuilderParam : Type 0 where
  pub category : ℕ
  pub kind : ℕ
  pub no_persist : Bool
  pub remote_policy : ℕ
  pub lifetime : ℕ

pub record KindRegistry : Type 0 where
  pub builders : Map ℕ BuilderParam
  pub categories : Map ℕ ℕ
  pub policies : Map ℕ ℕ

-- `ResetEntityRegistryForTest`, and the start of a process.
abbrev pub empty_registry : KindRegistry
empty_registry = record { builders = []; categories = []; policies = [] }

abbrev pub Registered : Type 0
Registered = KindRegistry × Result IdError (Unit {0})

-- The second half: a policy may only replace the empty one.
unfoldable pub register_policy : KindRegistry → KindDef → Registered
register_policy r d = elim (find d.kind r.policies) [
  | none ↦ (record r { policies = put d.kind d.remote_policy r.policies }, ok tt)
  | some existing ↦
      if existing == d.remote_policy
      then (r, ok tt)
      else if (existing == policy_none) && not (d.remote_policy == policy_none)
      then (record r { policies = put d.kind d.remote_policy r.policies }, ok tt)
      else if not (existing == policy_none) && (d.remote_policy == policy_none)
      then (r, ok tt)
      else (r, err policy_mismatch)
]

unfoldable pub register_definition : KindRegistry → KindDef → Registered
register_definition r d =
    if d.kind == 0
    then (r, err kind_none)
    else if ltb 255 d.kind
    then (r, err invalid_entity_kind)
    else if d.category == 0
    then (r, err category_none)
    else if ltb 3 d.category
    then (r, err invalid_category)
    else elim (find d.kind r.categories) [
      | none ↦ register_policy (record r { categories = put d.kind d.category r.categories }) d
      | some existing ↦
          if existing == d.category then register_policy r d else (r, err category_mismatch)
    ]

-- `RegisterEntityKindDefs`: it stops at the first error and keeps what came before. With the empty
-- policy it is `RegisterEntityKindCategories`.
unfoldable pub register_definitions : KindRegistry → List KindDef → Registered
register_definitions r [] = (r, ok tt)
register_definitions r (d ∷ ds) =
    let (r', result) = register_definition r d in
    let rest = register_definitions r' ds in elim result [ err e ↦ (r', err e) | ok u ↦ rest ]

-- The builder goes in after its definition.
unfoldable pub add_builder : Registered → BuilderParam → Registered
add_builder (r, err e) p = (r, err e)
add_builder (r, ok u) p = elim (find p.kind r.builders) [
  | some old ↦ (r, err duplicate_builder)
  | none ↦ (record r { builders = put p.kind p r.builders }, ok tt)
]

unfoldable pub definition_of : BuilderParam → KindDef
definition_of p = record { kind = p.kind; category = p.category; remote_policy = p.remote_policy }

-- The panics come at these places.
unfoldable pub register_builder : KindRegistry → BuilderParam → Registered
register_builder r p =
    if p.kind == 0
    then (r, err kind_none)
    else let lifetime =
        if p.lifetime == 0 then default_lifetime p.no_persist p.remote_policy else p.lifetime in
      elim (validate_entity_policy p.no_persist p.remote_policy lifetime) [
        | err e ↦ (r, err e)
        | ok u ↦
            add_builder (register_definition r (definition_of p)) (record p { lifetime = lifetime })
      ]

unfoldable pub resolve_category : KindRegistry → ℕ → Result IdError ℕ
resolve_category r kind =
    if kind == 0
    then err kind_none
    else if ltb 255 kind
    then err invalid_entity_kind
    else elim (find kind r.categories) [ none ↦ err invalid_entity_id | some c ↦ ok c ]

unfoldable pub kind_policy : KindRegistry → ℕ → ℕ
kind_policy r kind = elim (find kind r.policies) [
  | some policy ↦ policy
  | none ↦ elim (find kind r.builders) [ none ↦ policy_none | some p ↦ p.remote_policy ]
]

unfoldable pub is_remote_capable : KindRegistry → ℕ → Bool
is_remote_capable r kind = remote_capable (kind_policy r kind)

unfoldable pub is_remote_managed : KindRegistry → ℕ → Bool
is_remote_managed r kind = remote_managed (kind_policy r kind)
