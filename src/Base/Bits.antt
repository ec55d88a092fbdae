-- ===== src/Base/Bits.antt =====
-- The bits of masks, and of numbers that are joined from fields.
use cube_core.Base.{◌==◌, Bool, false, ◌||◌}
use Prim.Native.Nat.{
  ℕ, zero, suc, ◌+◌, ◌-◌, ◌*◌, ◌/◌, ◌%◌, ◌^◌, ◌≤◌, ◌<◌, max, min, bit_and, bit_and-bitwise, bit_or,
  digits, bit_or-bitwise,
}
use mathlib.Core.Path.{◌≡◌, refl, ◌∙◌, sym, ap, ap₂}
use native.Mathlib.Omega.{arith}
use native.Mathlib.Nat.{
  pow-suc, one-le-pow, mul_assoc, mod-lt, mod-eq_of_lt, mod-add-div', add-mul-mod_self_right,
}

digits-right : (n a b : ℕ) → digits (λ b. b) max n a b ≡ 0 → b ≡ 0
digits-right zero a b h = h
digits-right (suc n) zero b h = h
digits-right (suc n) (suc a) b h =
    omega (arith, digits-right n (suc a / 2) (b / 2) (omega (arith, h)))

digits-left : (n a b : ℕ) → a ≤ n → digits (λ b. b) max n a b ≡ 0 → a ≡ 0
digits-left zero a b le h = omega arith
digits-left (suc n) zero b le h = λ i. 0
digits-left (suc n) (suc a) b le h =
    omega (arith, digits-left n (suc a / 2) (b / 2) (omega arith) (omega (arith, h)))

pub bit_or-eq-zero : (a b : ℕ) → bit_or a b ≡ 0 → (a ≡ 0) × (b ≡ 0)
bit_or-eq-zero a b h =
    let whole = sym (bit_or-bitwise a b) ∙ h in
    (digits-left a a b (omega arith) whole, digits-right a a b whole)

pub zero-bit_or : (a b : ℕ) → a ≡ 0 → b ≡ 0 → bit_or a b ≡ 0
zero-bit_or a b h k = ap₂ bit_or h k

-- The law of the lowest digit, from the definition that the native operations stand for.
module _ (z : ℕ → ℕ) (f : ℕ → ℕ → ℕ) (low : (b : ℕ) → z b ≡ z (b / 2) * 2 + f 0 (b % 2)) where
  digits_more : (n m a b : ℕ) → a ≤ n → a ≤ m → digits z f n a b ≡ digits z f m a b
  digits_more zero zero a b p q = refl
  digits_more zero (suc m) zero b p q = refl
  digits_more zero (suc m) (suc a) b p q = absurd (omega arith)
  digits_more (suc n) zero zero b p q = refl
  digits_more (suc n) zero (suc a) b p q = absurd (omega arith)
  digits_more (suc n) (suc m) zero b p q = refl
  digits_more (suc n) (suc m) (suc a) b p q =
      omega (arith, digits_more n m (suc a / 2) (b / 2) (omega arith) (omega arith))

  digits_step :
      (a b : ℕ) → digits z f a a b ≡ digits z f (a / 2) (a / 2) (b / 2) * 2 + f (a % 2) (b % 2)
  digits_step zero b = low b
  digits_step (suc a) b =
      omega (arith, digits_more a (suc a / 2) (suc a / 2) (b / 2) (omega arith) (omega arith))

bit_and_step : (a b : ℕ) → bit_and a b ≡ bit_and (a / 2) (b / 2) * 2 + min (a % 2) (b % 2)
bit_and_step a b = omega (
  arith,
  bit_and-bitwise a b,
  bit_and-bitwise (a / 2) (b / 2),
  digits_step (λ b. zero) min (λ b. omega arith) a b,
)

bit_or_step : (a b : ℕ) → bit_or a b ≡ bit_or (a / 2) (b / 2) * 2 + max (a % 2) (b % 2)
bit_or_step a b = omega (
  arith,
  bit_or-bitwise a b,
  bit_or-bitwise (a / 2) (b / 2),
  digits_step (λ b. b) max (λ b. omega arith) a b,
)

bit_and-zero : (n a : ℕ) → a ≤ n → bit_and a 0 ≡ 0
bit_and-zero n zero h = refl
bit_and-zero zero (suc a) h = absurd (omega arith)
bit_and-zero (suc n) (suc a) h =
    omega (arith, bit_and_step (suc a) 0, bit_and-zero n (suc a / 2) (omega arith))

mod_double : (p a : ℕ) → 1 ≤ p → a % (p * 2) ≡ a / 2 % p * 2 + a % 2
mod_double p a some_ones =
    let x = a / 2 % p * 2 + a % 2 in
    let t = a / 2 / p in
    let bound : x < p * 2 = omega (arith, mod-lt (a / 2) {m = p} some_ones) in
    let parts : a ≡ x + t * (p * 2) = omega (arith, mod-add-div' (a / 2) p, mul_assoc t p 2) in
    ap (λ n. n % (p * 2)) parts ∙ add-mul-mod_self_right x t (p * 2) ∙ mod-eq_of_lt bound

-- A mask of `k` ones keeps the lowest `k` digits.
pub bit_and_mask : (k a : ℕ) → bit_and a (2 ^ k - 1) ≡ a % 2 ^ k
bit_and_mask zero a = omega (arith, bit_and-zero a a (omega arith))
bit_and_mask (suc k) a =
    let p = 2 ^ k in
    let some_ones : 1 ≤ p = one-le-pow k 2 (omega arith) in
    let double : 2 ^ suc k ≡ p * 2 = pow-suc 2 k in
    let half : (2 ^ suc k - 1) / 2 ≡ p - 1 = omega (arith, double, some_ones) in
    let odd : (2 ^ suc k - 1) % 2 ≡ 1 = omega (arith, double, some_ones) in
    let low : bit_and (a / 2) ((2 ^ suc k - 1) / 2) ≡ a / 2 % p =
      ap (bit_and (a / 2)) half ∙ bit_and_mask k (a / 2) in
    let wide : a % 2 ^ suc k ≡ a / 2 % p * 2 + a % 2 =
      ap (λ n. a % n) double ∙ mod_double p a some_ones in
    omega (arith, bit_and_step a (2 ^ suc k - 1), low, odd, wide)

-- Numbers joined from digits above and below the position `k`.
pub bit_or_split :
    (k a b c d : ℕ)
    → b < 2 ^ k
    → d < 2 ^ k
    → bit_or (a * 2 ^ k + b) (c * 2 ^ k + d) ≡ bit_or a c * 2 ^ k + bit_or b d
bit_or_split zero a b c d hb hd =
    let ba : b ≡ 0 = omega (arith, hb) in
    let da : d ≡ 0 = omega (arith, hd) in
    let left : a * 1 + b ≡ a = omega (arith, ba) in
    let right : c * 1 + d ≡ c = omega (arith, da) in
    let bottom : bit_or b d ≡ 0 = zero-bit_or b d ba da in
    omega (arith, ap₂ bit_or left right, bottom)
bit_or_split (suc k) a b c d hb hd =
    let p = 2 ^ k in
    let double : 2 ^ suc k ≡ p * 2 = pow-suc 2 k in
    let wide : (x : ℕ) → x * 2 ^ suc k ≡ x * p * 2 =
      λ x. ap (λ n. x * n) double ∙ sym (mul_assoc x p 2) in
    let half : (x y : ℕ) → (x * 2 ^ suc k + y) / 2 ≡ x * p + y / 2 = λ x y. omega (arith, wide x) in
    let odd : (x y : ℕ) → (x * 2 ^ suc k + y) % 2 ≡ y % 2 = λ x y. omega (arith, wide x) in
    let above =
      bit_or_split k a (b / 2) c (d / 2) (omega (arith, double)) (omega (arith, double)) in
    omega (
      arith,
      bit_or_step (a * 2 ^ suc k + b) (c * 2 ^ suc k + d),
      ap₂ bit_or (half a b) (half c d),
      odd a b,
      odd c d,
      above,
      bit_or_step b d,
      wide (bit_or a c),
    )

zero-bit_or_left : (b : ℕ) → bit_or 0 b ≡ b
zero-bit_or_left b = bit_or-bitwise 0 b

bit_or-zero_fuel : (n a : ℕ) → a ≤ n → bit_or a 0 ≡ a
bit_or-zero_fuel n zero h = refl
bit_or-zero_fuel zero (suc a) h = absurd (omega arith)
bit_or-zero_fuel (suc n) (suc a) h =
    omega (arith, bit_or_step (suc a) 0, bit_or-zero_fuel n (suc a / 2) (omega arith))

bit_or-zero : (a : ℕ) → bit_or a 0 ≡ a
bit_or-zero a = bit_or-zero_fuel a a (omega arith)

-- Digits put below others.
pub bit_or_low : (k a b : ℕ) → b < 2 ^ k → bit_or (a * 2 ^ k) b ≡ a * 2 ^ k + b
bit_or_low k a b h =
    let some_digits : 0 < 2 ^ k = one-le-pow k 2 (omega arith) in
    let left : a * 2 ^ k + 0 ≡ a * 2 ^ k = omega arith in
    let right : 0 * 2 ^ k + b ≡ b = omega arith in
    let split = bit_or_split k a 0 0 b some_digits h in
    omega (
      arith,
      sym (ap₂ bit_or left right),
      split,
      ap (λ x. x * 2 ^ k) (bit_or-zero a),
      zero-bit_or_left b,
    )

-- A digit put above others, or on top of the same digit.
pub bit_or_high :
    (k a b : ℕ) → a ≤ 1 → b < 2 ^ k → bit_or (a * 2 ^ k + b) (1 * 2 ^ k) ≡ 1 * 2 ^ k + b
bit_or_high k a b one h =
    let some_digits : 0 < 2 ^ k = one-le-pow k 2 (omega arith) in
    let right : 1 * 2 ^ k + 0 ≡ 1 * 2 ^ k = omega arith in
    let split = bit_or_split k a b 1 0 h some_digits in
    omega (
      arith,
      sym (ap (bit_or (a * 2 ^ k + b)) right),
      split,
      ap (λ x. x * 2 ^ k) (set a one),
      bit_or-zero b,
    )
  where
    set : (x : ℕ) → x ≤ 1 → bit_or x 1 ≡ 1
    set zero le = refl
    set (suc zero) le = refl
    set (suc (suc x)) le = absurd (omega arith)

-- The bit at a place.
unfoldable pub has_bit : ℕ → ℕ → Bool
has_bit zero x = x % 2 == 1
has_bit (suc i) x = has_bit i (x / 2)

pub has_bit-bit_or : (i a b : ℕ) → has_bit i (bit_or a b) ≡ has_bit i a || has_bit i b
unfolding has_bit
has_bit-bit_or zero a b = ground (arith, bit_or_step a b)
has_bit-bit_or (suc i) a b =
    let half : bit_or a b / 2 ≡ bit_or (a / 2) (b / 2) = omega (arith, bit_or_step a b) in
    ap (has_bit i) half ∙ has_bit-bit_or i (a / 2) (b / 2)

pub has_bit-zero : (i : ℕ) → has_bit i 0 ≡ false
unfolding has_bit
has_bit-zero zero = refl
has_bit-zero (suc i) = has_bit-zero i

zero_of_bits : (n x : ℕ) → x ≤ n → ((i : ℕ) → has_bit i x ≡ false) → x ≡ 0
unfolding has_bit
zero_of_bits n zero le h = refl
zero_of_bits zero (suc x) le h = absurd (omega arith)
zero_of_bits (suc n) (suc x) le h =
    let half = zero_of_bits n (suc x / 2) (omega arith) (λ i. h (suc i)) in
    ground (arith, half, h 0)

-- A number without bits is 0.
pub eq-zero_of_bits : (x : ℕ) → ((i : ℕ) → has_bit i x ≡ false) → x ≡ 0
eq-zero_of_bits x h = zero_of_bits x x (omega arith) h
