-- ===== src/Entity/Ids/Roundtrip.antt =====
-- The parts of an identifier come back, in this process and in any later state of its registry.
use cube_core.Base.Keys.{nat_key}
use cube_core.Entity.Kinds.Stability.{register_in_turn-Kept}
use cube_core.Entity.Kinds.Growth.{
  empty-IsKindRegistry, register_in_turn, Registration, IsKindRegistry,
}
use cube_core.Base.Maps.{find}
use cube_core.Base.{
  List, Option-cases, some, ltb, inr, inl, Bool-cases, ℕ, ◌^◌, ◌≤◌, ◌<◌, ◌≡◌, refl, ap, ◌∙◌, Bool,
  true, false, not, ◌&&◌, if◌then◌else◌, ◌==◌, arith,
}
use cube_core.Base.Results.{ok}
use cube_core.Entity.Kinds.{empty_registry, KindRegistry, resolve_category, is_remote_capable}
use cube_core.Entity.Ids.{
  is_remote_capable_id, unique_from_id, category_from_id, kind_from_id, remote_from_id,
  set_remote_bit, make_entity_id, build_with_category, build_entity_id, resolve_entity_id,
  normalize_full_id,
}
use cube_core.Entity.Ids.Packing.{packed, InRange, packed_bits, set_remote_bit-packed, Reads-packed}

-- What an identifier made under `r` is worth under a later registry `s`.
pub record IsIdOf (r s : KindRegistry) (id unique kind category : ℕ) : Type 0 where
  pub known : resolve_category r kind ≡ ok category
  pub positive : (0 < id) × (id < 2 ^ 63)
  pub unique_read : unique_from_id id ≡ unique
  pub kind_read : kind_from_id id ≡ kind
  pub category_read : category_from_id id ≡ category
  pub remote_read : remote_from_id id ≡ is_remote_capable r kind
  pub accepted :
      normalize_full_id s id kind ≡ ok (if is_remote_capable s kind then set_remote_bit id else id)
  pub remote_known : is_remote_capable_id s id ≡ is_remote_capable s kind

abbrev flag : Bool → ℕ
flag b = if b then 1 else 0

make_packed :
    (r : KindRegistry) (u c k : ℕ)
    → InRange u k c
    → 0 < k
    → make_entity_id r u c k (not (k == 0) && is_remote_capable r k)
      ≡ ok (packed (flag (is_remote_capable r k)) u k c)
unfolding make_entity_id
make_packed r u c k v named =
    let bits = packed_bits u k c v in
    let small_c : ltb 3 c ≡ false = ground (arith, v.category_range) in
    let small_k : ltb 255 k ≡ false = ground (arith, v.kind_range) in
    let some_kind : (k == 0) ≡ false = ground arith in
    elim (Bool-cases (is_remote_capable r k)) [
      | inl e ↦
          rw (small_c, small_k, some_kind, e, bits, set_remote_bit-packed 0 u k c (omega arith) v)
            refl
      | inr e ↦ rw (small_c, small_k, some_kind, e, bits) refl
    ]

-- What `BuildEntityID` asks for, and what it gives.
build-inv :
    (r : KindRegistry) (u k id : ℕ)
    → IsKindRegistry r
    → build_entity_id r u k ≡ ok id
    → (c : ℕ) × (find k r.categories ≡ some c)
      × (resolve_category r k ≡ ok c)
      × InRange u k c
      × (0 < u)
      × (0 < k)
      × (0 < c)
      × (id ≡ packed (flag (is_remote_capable r k)) u k c)
unfolding build_entity_id build_with_category resolve_category
build-inv r u k id v h = elim (Option-cases (find k r.categories)) [
  | inl e ↦ absurd (ground (arith, e))
  | inr (c, e) ↦
      let range = v.in_range k c e in
      let u_fits : u < 2 ^ 52 = ground (arith, e) in
      let u_some : 0 < u = ground (arith, e) in
      let fits : InRange u k c = record {
        unique_range = u_fits;
        kind_range = omega (arith, range.1);
        category_range = omega (arith, range.3);
      } in
      let made = make_packed r u c k fits range.0 in
      (
        c,
        e,
        ground (arith, e, range),
        fits,
        u_some,
        range.0,
        range.2,
        ground (arith, e, range, made),
      )
]

normalize_packed :
    (s : KindRegistry) (b u k c : ℕ)
    → b ≤ 1
    → InRange u k c
    → 0 < u
    → 0 < k
    → 0 < c
    → resolve_category s k ≡ ok c
    → normalize_full_id s (packed b u k c) k
      ≡ ok (if is_remote_capable s k then set_remote_bit (packed b u k c) else packed b u k c)
unfolding normalize_full_id resolve_entity_id packed
normalize_packed s b u k c one v pu pk pc known =
    let id = packed b u k c in
    let reads = Reads-packed b u k c one v in
    let some_id : (id == 0) ≡ false = ground (arith, pc) in
    ground (arith, some_id, reads.kind_is, reads.category_is, reads.unique_is, known)

flag-le : (b : Bool) → flag b ≤ 1
flag-le true = omega arith
flag-le false = omega arith

flag-one : (b : Bool) → (flag b == 1) ≡ b
flag-one true = refl
flag-one false = refl

packed-positive :
    (b u k c : ℕ)
    → b ≤ 1
    → InRange u k c
    → 0 < c
    → (id : ℕ) → id ≡ packed b u k c
    → (0 < id) × (id < 2 ^ 63)
unfolding packed
packed-positive b u k c one v pc id made = (
  omega (arith, made, pc),
  omega (arith, made, one, v.unique_range, v.kind_range, v.category_range),
)

resolve-find :
    (s : KindRegistry) (k c : ℕ)
    → IsKindRegistry s
    → find k s.categories ≡ some c
    → resolve_category s k ≡ ok c
unfolding resolve_category
resolve-find s k c v e = let range = v.in_range k c e in ground (arith, e, range)

-- An identifier that `BuildEntityID` makes is a positive `int64`. It carries the unique number, the kind,
-- the kind's category and whether the kind was remote; after any further registrations it is still
-- accepted as an identifier of its kind, with the remote bit added once the kind is remote, and it is
-- remote exactly if its kind is.
pub build_entity_id_lem :
    (before after : List Registration) (unique kind id : ℕ)
    → build_entity_id (register_in_turn empty_registry before) unique kind ≡ ok id
    → (category : ℕ) × IsIdOf
        (register_in_turn empty_registry before)
        (register_in_turn (register_in_turn empty_registry before) after)
        id
        unique
        kind
        category
unfolding is_remote_capable_id
build_entity_id_lem before after u k id h =
    let r = register_in_turn empty_registry before in
    let s = register_in_turn r after in
    let v = register_in_turn-Kept empty_registry before empty-IsKindRegistry in
    let kept = register_in_turn-Kept r after v.0 in
    let (c, e, known, fits, pu, pk, pc, made) = build-inv r u k id v.0 h in
    let remote = is_remote_capable r k in
    let reads = Reads-packed (flag remote) u k c (flag-le remote) fits in
    let later = kept.1.same_category k c e in
    let known_later : resolve_category s k ≡ ok c = resolve-find s k c (kept.0) later in
    let full = normalize_packed s (flag remote) u k c (flag-le remote) fits pu pk pc known_later in
    (
      c,
      record {
        known = known;
        positive = packed-positive (flag remote) u k c (flag-le remote) fits pc id made;
        unique_read = ap unique_from_id made ∙ reads.unique_read;
        kind_read = ap kind_from_id made ∙ reads.kind_is;
        category_read = ap category_from_id made ∙ reads.category_read;
        remote_read = ap remote_from_id made ∙ reads.remote_is ∙ flag-one remote;
        accepted = rw made full;
        remote_known = ground (
          arith,
          made,
          reads.kind_is,
          reads.remote_is,
          flag-one remote,
          kept.1.still_remote k c e,
          pk,
        );
      },
    )
