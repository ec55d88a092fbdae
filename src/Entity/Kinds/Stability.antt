-- ===== src/Entity/Kinds/Stability.antt =====
-- What is known of a kind stays as the registry grows.
use cube_core.Base.Keys.{nat_key}
use cube_core.Base.{
  not, ◌&&◌, ltb, if_both, if_cases, ◌==◌, ap, if◌then◌else◌, ℕ, ◌≡◌, ◌≢◌, ◌⊎◌, ◌≤◌, ◌<◌, List, [],
  ◌∷◌, some, none, arith, inl, inr, Option-cases,
}
use cube_core.Base.Results.{ok, err, Result, Result-cases}
use cube_core.Base.Maps.{Map, find, put, find-put}
use cube_core.Entity.Kinds.{
  validate_entity_policy, IdError, definition_of, default_lifetime, add_builder, policy_none,
  Registered, KindDef, BuilderParam, KindRegistry, register_policy, register_definition,
  register_definitions, register_builder, kind_policy, is_remote_capable, remote_capable,
}
use cube_core.Entity.Kinds.Growth.{
  builds, defines, Registration, register, register_in_turn, IsKindRegistry, Extends, Extends-refl,
  Extends-trans, Kept,
}

-- The second half of a registration, where the kind has its category in `categories`.
module _ (r : KindRegistry) (d : KindDef) (categories : Map ℕ ℕ) (v : IsKindRegistry r)
    (ranged : (k c : ℕ) → find k categories ≡ some c → (0 < k) × (k ≤ 255) × (0 < c) × (c ≤ 3))
    (older : (k c : ℕ) → find k r.categories ≡ some c → find k categories ≡ some c)
    (newer : (k c : ℕ)
      → find k categories ≡ some c
      → (k ≡ d.kind) ⊎ (find k r.categories ≡ some c)) where
  abbrev added : KindRegistry
  added = record r { categories = categories }

  keep_policy : find d.kind r.policies ≢ none → Kept r added
  unfolding is_remote_capable kind_policy
  keep_policy known = (
    record {
      in_range = ranged;
      with_policy = λ k c h n. elim (newer k c h) [
        | inl same ↦ known (ground (arith, n, ap (λ j. find j r.policies) same))
        | inr old ↦ v.with_policy k c old n
      ];
    },
    record { same_category = older; still_remote = λ k c h m. m },
  )

  put_policy :
      (find d.kind r.policies ≡ some 0) ⊎ (find d.kind r.policies ≡ none)
      → Kept r (record added { policies = put d.kind d.remote_policy r.policies })
  unfolding is_remote_capable kind_policy remote_capable
  put_policy fresh = (
    record {
      in_range = ranged;
      with_policy = λ k c h n. elim (newer k c h) [
        | inl same ↦ ground (arith, n, same, find-put d.kind k d.remote_policy r.policies)
        | inr old ↦
            ground (arith, n, v.with_policy k c old, find-put d.kind k d.remote_policy r.policies)
      ];
    },
    record {
      same_category = older;
      still_remote = λ k c h m. ground (
        arith,
        m,
        v.with_policy k c h,
        find-put d.kind k d.remote_policy r.policies,
        ap (λ j. find j r.policies) {x = d.kind} {y = k},
      );
    },
  )

  register_policy-Kept : Kept r (register_policy added d).0
  unfolding register_policy
  register_policy-Kept = elim (Option-cases (find d.kind r.policies)) [
    | inl e ↦ rw (e, register_policy) (put_policy (inr e))
    | inr (p, e) ↦
        let known : find d.kind r.policies ≢ none = λ n. cc (e, n) in
        let kept = keep_policy known in
        rw (e, register_policy)
          (if_both (λ (x : Registered). Kept r x.0) (p == d.remote_policy) kept
            (if_cases (λ (x : Registered). Kept r x.0)
              ((p == policy_none) && not (d.remote_policy == policy_none))
              (λ none_before. put_policy (inl (ground (arith, e))))
              λ some_before.
                if_both (λ (x : Registered). Kept r x.0)
                  (not (p == policy_none) && (d.remote_policy == policy_none)) kept kept))
  ]

put_category :
    (r : KindRegistry) (d : KindDef)
    → IsKindRegistry r
    → (0 < d.kind) × (d.kind ≤ 255) × (0 < d.category) × (d.category ≤ 3)
    → find d.kind r.categories ≡ none
    → Kept r (register_policy (record r { categories = put d.kind d.category r.categories }) d).0
put_category r d v fits fresh =
    let next = put d.kind d.category r.categories in
    let written : (k : ℕ)
        → find k next ≡ (if d.kind == k then some d.category else find k r.categories) =
      λ k. find-put d.kind k d.category r.categories in
    register_policy-Kept r d next v (λ k c h. ground (arith, written k, v.in_range k c))
      (λ k c h.
        ground (arith, written k, h, fresh, ap (λ j. find j r.categories) {x = d.kind} {y = k}))
      λ k c h. ground (arith, written k)

register_definition-Kept :
    (r : KindRegistry) (d : KindDef) → IsKindRegistry r → Kept r (register_definition r d).0
unfolding register_definition
register_definition-Kept r d v =
    let same : Kept r r = (v, Extends-refl r) in
    if_cases (λ (x : Registered). Kept r x.0) (d.kind == 0) (λ a. same)
      λ named.
        if_cases (λ (x : Registered). Kept r x.0) (ltb 255 d.kind) (λ a. same)
          λ small.
            if_cases (λ (x : Registered). Kept r x.0) (d.category == 0) (λ a. same)
              λ owned.
                if_cases (λ (x : Registered). Kept r x.0) (ltb 3 d.category) (λ a. same)
                  λ fits. elim (Option-cases (find d.kind r.categories)) [
                    | inl e ↦
                        rw (e, register_definition)
                          (put_category r d v
                            (ground arith, ground arith, ground arith, ground arith) e)
                    | inr (c, e) ↦
                        rw (e, register_definition)
                          (if_both (λ (x : Registered). Kept r x.0) (c == d.category)
                            (register_policy-Kept r d r.categories v v.in_range (λ k c h. h)
                              λ k c h. inr h)
                            same)
                  ]

Kept-trans : (r s t : KindRegistry) → Kept r s → Kept s t → Kept r t
Kept-trans r s t e f = (f.0, Extends-trans r s t e.1 f.1)

register_definitions-Kept :
    (r : KindRegistry) (ds : List KindDef) → IsKindRegistry r → Kept r (register_definitions r ds).0
unfolding register_definitions
register_definitions-Kept r [] v = (v, Extends-refl r)
register_definitions-Kept r (d ∷ ds) v =
    let s = (register_definition r d).0 in
    let first = register_definition-Kept r d v in
    let rest = register_definitions-Kept s ds first.0 in
    elim (Result-cases (register_definition r d).1) [
      | inl (u, e) ↦ rw (e, register_definitions) (Kept-trans r s _ first rest)
      | inr (u, e) ↦ rw (e, register_definitions) first
    ]

put_builder :
    (r s : KindRegistry) (p : BuilderParam)
    → Kept r s
    → Kept r (record s { builders = put p.kind p s.builders })
unfolding is_remote_capable kind_policy
put_builder r s p kept = (
  record { in_range = kept.0.in_range; with_policy = kept.0.with_policy },
  record {
    same_category = kept.1.same_category;
    still_remote = λ k c h m.
        ground
          (arith, kept.1.still_remote k c h m, kept.0.with_policy k c (kept.1.same_category k c h));
  },
)

add_builder-Kept :
    (r s : KindRegistry) (result : Result IdError (Unit {0})) (p : BuilderParam)
    → Kept r s
    → Kept r (add_builder (s, result) p).0
unfolding add_builder
add_builder-Kept r s (err e) p kept = kept
add_builder-Kept r s (ok u) p kept = elim (Option-cases (find p.kind s.builders)) [
  | inl e ↦ rw (e, add_builder) (put_builder r s p kept)
  | inr (old, e) ↦ rw (e, add_builder) kept
]

register_builder-Kept :
    (r : KindRegistry) (p : BuilderParam) → IsKindRegistry r → Kept r (register_builder r p).0
unfolding register_builder
register_builder-Kept r p v =
    let same : Kept r r = (v, Extends-refl r) in
    let lifetime =
      if p.lifetime == 0 then default_lifetime p.no_persist p.remote_policy else p.lifetime in
    let defined = register_definition r (definition_of p) in
    if_cases (λ (x : Registered). Kept r x.0) (p.kind == 0) (λ a. same)
      λ named. elim (Result-cases (validate_entity_policy p.no_persist p.remote_policy lifetime)) [
        | inl (u, e) ↦
            rw (e, register_builder)
              (add_builder-Kept r defined.0 defined.1 (record p { lifetime = lifetime })
                (register_definition-Kept r (definition_of p) v))
        | inr (why, e) ↦ rw (e, register_builder) same
      ]

register-Kept : (r : KindRegistry) (c : Registration) → IsKindRegistry r → Kept r (register r c)
unfolding register
register-Kept r (defines ds) v = register_definitions-Kept r ds v
register-Kept r (builds p) v = register_builder-Kept r p v

pub register_in_turn-Kept :
    (r : KindRegistry) (cs : List Registration)
    → IsKindRegistry r
    → IsKindRegistry (register_in_turn r cs) × Extends r (register_in_turn r cs)
unfolding register_in_turn
register_in_turn-Kept r [] v = (v, Extends-refl r)
register_in_turn-Kept r (c ∷ cs) v =
    let first = register-Kept r c v in
    Kept-trans r (register r c) _ first (register_in_turn-Kept (register r c) cs first.0)
