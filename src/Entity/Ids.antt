-- ===== src/Entity/Ids.antt =====
-- entity/idgen.go, the layout of an identifier, and entity/resolver.go. An `int64` is the `uint64` of
-- its bits, so a negative one lies at 2^63 or above. A shift to the left drops what leaves the word.
--
--   [sign 1][remote 1][unique 52][kind 8][category 2]
pub mod Roundtrip
pub mod Packing
pub mod Generator
mod Examples
use cube_core.Base.{
  ℕ, ◌+◌, ◌-◌, ◌*◌, ◌/◌, ◌%◌, ◌^◌, bit_and, bit_or, Bool, true, false, not, ◌&&◌, ◌||◌, ltb, leb,
  ◌==◌, if◌then◌else◌,
}
use cube_core.Base.Results.{Result, ok, err, ◌>>=◌, ◌>>◌, reject_if}
use cube_core.Entity.Kinds.{
  IdError, invalid_entity_id, invalid_category, invalid_entity_kind, KindRegistry, resolve_category,
  is_remote_capable,
}

abbrev pub unique_id_mask : ℕ
unique_id_mask = 2 ^ 52 - 1

abbrev pub shift_left : ℕ → ℕ → ℕ
shift_left x n = x * 2 ^ n % 2 ^ 64

abbrev pub shift_right : ℕ → ℕ → ℕ
shift_right x n = x / 2 ^ n

unfoldable pub category_from_id : ℕ → ℕ
category_from_id id = bit_and id 3

unfoldable pub kind_from_id : ℕ → ℕ
kind_from_id id = bit_and (shift_right id 2) 255

unfoldable pub remote_from_id : ℕ → Bool
remote_from_id id = not (bit_and (shift_right id 62) 1 == 0)

unfoldable pub unique_from_id : ℕ → ℕ
unique_from_id id = bit_and (shift_right id 10) unique_id_mask

unfoldable pub set_remote_bit : ℕ → ℕ
set_remote_bit id = bit_or id (shift_left 1 62)

-- Its panics are errors here.
unfoldable pub make_entity_id : KindRegistry → ℕ → ℕ → ℕ → Bool → Result IdError ℕ
make_entity_id r unique category kind remote = do
  reject_if (ltb 3 category) invalid_category
  reject_if (ltb 255 kind) invalid_entity_kind
  let id =
      bit_or
        (bit_or (shift_left (bit_and unique unique_id_mask) 10) (shift_left (bit_and kind 255) 2))
        (bit_and category 3)
  let marked = if not (kind == 0) && is_remote_capable r kind then true else remote
  ok (if marked then set_remote_bit id else id)

unfoldable pub build_with_category : KindRegistry → ℕ → ℕ → ℕ → Result IdError ℕ
build_with_category r unique category kind = do
  reject_if ((unique == 0) || leb (2 ^ 63) unique || ltb unique_id_mask unique) invalid_entity_id
  reject_if (ltb 3 category) invalid_category
  reject_if (category == 0) invalid_entity_id
  reject_if (ltb 255 kind) invalid_entity_kind
  reject_if (kind == 0) invalid_entity_id
  make_entity_id r unique category kind (not (kind == 0) && is_remote_capable r kind)

unfoldable pub build_entity_id : KindRegistry → ℕ → ℕ → Result IdError ℕ
build_entity_id r unique kind = do
  category ← resolve_category r kind
  build_with_category r unique category kind

pub record EntityIdMeta : Type 0 where
  pub input_id : ℕ
  pub unique_id : ℕ
  pub full_id : ℕ
  pub category : ℕ
  pub kind : ℕ
  pub remote_capable : Bool

unfoldable pub resolve_entity_id : KindRegistry → ℕ → EntityIdMeta
resolve_entity_id r id =
    let v = bit_and id (2 ^ 63 - 1) in
    let kind = kind_from_id id in
    let registered = not (kind == 0) && is_remote_capable r kind in
    record {
      input_id = id;
      unique_id = bit_and (shift_right v 10) unique_id_mask;
      full_id = if registered then set_remote_bit id else id;
      category = bit_and v 3;
      kind = kind;
      remote_capable = if registered then true else remote_from_id id;
    }

-- Kind 0 accepts every kind.
unfoldable pub normalize_full_id : KindRegistry → ℕ → ℕ → Result IdError ℕ
normalize_full_id r id kind = do
  reject_if (id == 0) invalid_entity_id
  let m = resolve_entity_id r id
  reject_if (not (kind == 0) && not (m.kind == kind)) invalid_entity_id
  reject_if (m.category == 0) invalid_entity_id
  reject_if (m.kind == 0) invalid_entity_id
  reject_if (m.unique_id == 0) invalid_entity_id
  category ← resolve_category r m.kind
  reject_if (not (m.category == category)) invalid_entity_id
  ok m.full_id

unfoldable pub match_entity_id : KindRegistry → ℕ → ℕ → Bool
match_entity_id r id kind = elim (normalize_full_id r id kind) [ ok full ↦ true | err e ↦ false ]

-- The registry knows better than the bit, which serves a process that has only the identifier.
unfoldable pub is_remote_capable_id : KindRegistry → ℕ → Bool
is_remote_capable_id r id =
    let kind = kind_from_id id in
    if not (kind == 0) && is_remote_capable r kind then true else remote_from_id id
