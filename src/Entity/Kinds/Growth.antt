-- ===== src/Entity/Kinds/Growth.antt =====
-- The calls that make a registry of kinds grow, and what they are to keep.
use cube_core.Base.Keys.{nat_key}
use cube_core.Base.{ℕ, ◌≡◌, ◌≢◌, ◌≤◌, ◌<◌, true, List, [], ◌∷◌, some, none}
use cube_core.Base.Maps.{find}
use cube_core.Entity.Kinds.{
  KindDef, BuilderParam, KindRegistry, empty_registry, register_definitions, register_builder,
  is_remote_capable,
}

-- The calls that change a registry.
pub data Registration : Type 0 where
  defines : List KindDef → Registration
  builds : BuilderParam → Registration

unfoldable pub register : KindRegistry → Registration → KindRegistry
register r (defines ds) = (register_definitions r ds).0
register r (builds p) = (register_builder r p).0

unfoldable pub register_in_turn : KindRegistry → List Registration → KindRegistry
register_in_turn r [] = r
register_in_turn r (c ∷ cs) = register_in_turn (register r c) cs

-- Every kind and every category is in range, and a kind with a category has a policy.
pub record IsKindRegistry (r : KindRegistry) : Type 0 where
  pub in_range : (k c : ℕ) → find k r.categories ≡ some c → (0 < k) × (k ≤ 255) × (0 < c) × (c ≤ 3)
  pub with_policy : (k c : ℕ) → find k r.categories ≡ some c → find k r.policies ≢ none

-- The later registry agrees on the kinds of the earlier one, and what was remote is remote.
pub record Extends (r s : KindRegistry) : Type 0 where
  pub same_category : (k c : ℕ) → find k r.categories ≡ some c → find k s.categories ≡ some c
  pub still_remote :
      (k c : ℕ)
      → find k r.categories ≡ some c
      → is_remote_capable r k ≡ true
      → is_remote_capable s k ≡ true

pub empty-IsKindRegistry : IsKindRegistry empty_registry
unfolding find
empty-IsKindRegistry = record {
  in_range = λ k c h. absurd (cc h);
  with_policy = λ k c h. absurd (cc h);
}

pub Extends-refl : (r : KindRegistry) → Extends r r
Extends-refl r = record { same_category = λ k c h. h; still_remote = λ k c h m. m }

pub Extends-trans : (r s t : KindRegistry) → Extends r s → Extends s t → Extends r t
Extends-trans r s t e f = record {
  same_category = λ k c h. f.same_category k c (e.same_category k c h);
  still_remote = λ k c h m. f.still_remote k c (e.same_category k c h) (e.still_remote k c h m);
}

-- What a call may make of a registry.
abbrev pub Kept : KindRegistry → KindRegistry → Type 0
Kept r s = IsKindRegistry s × Extends r s
