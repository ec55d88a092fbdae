-- ===== src/Entity/Ids/Packing.antt =====
-- The number that an identifier is, and what its readers find in it.
use cube_core.Base.Keys.{nat_key}
use cube_core.Base.{
  ℕ, ◌+◌, ◌-◌, ◌*◌, ◌/◌, ◌^◌, ◌≤◌, ◌<◌, ◌≡◌, ap, ◌∙◌, bit_and, bit_or, Bool, ◌==◌, arith,
}
use cube_core.Base.Bits.{bit_and_mask, bit_or_low, bit_or_high}
use cube_core.Entity.Ids.{
  unique_from_id, shift_left, shift_right, category_from_id, kind_from_id, remote_from_id,
  set_remote_bit,
}

-- The number that an identifier is.
unfoldable pub packed : ℕ → ℕ → ℕ → ℕ → ℕ
packed remote unique kind category = remote * 2 ^ 62 + (unique * 1024 + kind * 4 + category)

pub record InRange (unique kind category : ℕ) : Type 0 where
  pub unique_range : unique < 2 ^ 52
  pub kind_range : kind < 256
  pub category_range : category < 4

pub packed_bits :
    (unique kind category : ℕ)
    → InRange unique kind category
    → bit_or
        (bit_or (shift_left (bit_and unique (2 ^ 52 - 1)) 10) (shift_left (bit_and kind 255) 2))
        (bit_and category 3)
      ≡ packed 0 unique kind category
unfolding packed
packed_bits u k c v =
    let u_bits = bit_and_mask 52 u in
    let k_bits = bit_and_mask 8 k in
    let c_bits = bit_and_mask 2 c in
    let high : shift_left (bit_and u (2 ^ 52 - 1)) 10 ≡ u * 2 ^ 10 =
      omega (arith, u_bits, v.unique_range) in
    let middle : shift_left (bit_and k 255) 2 ≡ k * 4 = omega (arith, k_bits, v.kind_range) in
    let low : bit_and c 3 ≡ c = omega (arith, c_bits, v.category_range) in
    let upper : bit_or (u * 2 ^ 10) (k * 4) ≡ (u * 256 + k) * 2 ^ 2 =
      bit_or_low 10 u (k * 4) (omega (arith, v.kind_range)) ∙ omega arith in
    rw (high, middle, low, upper)
      (bit_or_low 2 (u * 256 + k) c (omega (arith, v.category_range)) ∙ omega arith)

pub set_remote_bit-packed :
    (remote unique kind category : ℕ)
    → remote ≤ 1
    → InRange unique kind category
    → set_remote_bit (packed remote unique kind category) ≡ packed 1 unique kind category
unfolding packed set_remote_bit
set_remote_bit-packed b u k c one v =
    bit_or_high 62 b (u * 1024 + k * 4 + c) one
      (omega (arith, v.unique_range, v.kind_range, v.category_range))

-- What the four readers find.
pub record Reads (id unique kind category : ℕ) (remote : Bool) : Type 0 where
  pub kind_is : kind_from_id id ≡ kind
  pub category_is : bit_and (bit_and id (2 ^ 63 - 1)) 3 ≡ category
  pub unique_is : bit_and (shift_right (bit_and id (2 ^ 63 - 1)) 10) (2 ^ 52 - 1) ≡ unique
  pub remote_is : remote_from_id id ≡ remote
  pub category_read : category_from_id id ≡ category
  pub unique_read : unique_from_id id ≡ unique

pub Reads-packed : (b u k c : ℕ) → b ≤ 1 → InRange u k c → Reads (packed b u k c) u k c (b == 1)
unfolding packed kind_from_id remote_from_id category_from_id unique_from_id
Reads-packed b u k c one v =
    let id = packed b u k c in
    let whole : bit_and id (2 ^ 63 - 1) ≡ id =
      omega (arith, bit_and_mask 63 id, v.unique_range, v.kind_range, v.category_range) in
    record {
      kind_is =
          omega
            (arith, bit_and_mask 8 (id / 2 ^ 2), v.unique_range, v.kind_range, v.category_range);
      category_is =
          ap (λ x. bit_and x 3) whole ∙ omega (arith, bit_and_mask 2 id, v.category_range);
      unique_is =
          ap (λ x. bit_and (x / 2 ^ 10) (2 ^ 52 - 1)) whole
          ∙ omega (
            arith,
            bit_and_mask 52 (id / 2 ^ 10),
            v.unique_range,
            v.kind_range,
            v.category_range,
          );
      category_read = omega (arith, bit_and_mask 2 id, v.category_range);
      unique_read =
          omega
            (arith, bit_and_mask 52 (id / 2 ^ 10), v.unique_range, v.kind_range, v.category_range);
      remote_is =
          ground
            (arith, bit_and_mask 1 (id / 2 ^ 62), v.unique_range, v.kind_range, v.category_range);
    }
